-- ===== src/Persistence/SyncRuns/Release.antt =====
-- `release_blocked_if_no_active`: the check of its WHERE clause is what the unique index asks for,
-- so the UPDATE never runs into the index.
use tci.Prelude.{
  ◌≡◌, refl, Bool, true, false, not, ◌&&◌, List, [], ◌∷◌, arith, any, if◌then◌else◌, ◌==◌, eq_iff,
  some, Bool-cases, inl, inr, Option, find?, none, sym, ap, ◌∙◌, Option-cases,
}
use tci.Models.Enums.Types.{SyncRunStatus}
use tci.Models.Enums.Equality.{sync_run_status_eq, ref_type_eq}
use tci.Models.Rows.{Uuid, Instant, RepositorySyncRun}
use tci.Session.{empty_database, Database, ok}
use tci.Prelude.Lists.{find?_sound}
use tci.Persistence.Table.{update_where, no_clash, any_key, holds, find?-update}
use tci.Persistence.SyncRuns.{clash, is_row}
use tci.Persistence.SyncRuns.Operations.{
  release_blocked_if_no_active, is_releasable, is_rival, restart,
}
use tci.Persistence.SyncRuns.Constraints.{IsConsistent, unique_row}

-- A row that is released stays apart from every row that is no rival of it.
module _ (c i : Uuid) (at : Instant) where
  abbrev released : Bool → RepositorySyncRun → RepositorySyncRun
  released hit r = if hit then restart SyncRunStatus.pending at r else r

  abbrev MayRelease : Bool → RepositorySyncRun → RepositorySyncRun → Type 0
  MayRelease hit a b = hit ≡ true → (is_row c i a ≡ true) × (is_rival c i a b ≡ false)

  released-clash :
      (h k : Bool) (a b : RepositorySyncRun)
      → MayRelease h a b
      → MayRelease k b a
      → clash a b ≡ false
      → clash (released h a) (released k b) ≡ false
  unfolding clash
  released-clash false false a b p q e = e
  released-clash true false a b p q e =
      ground (arith, p refl, eq_iff a.requested_ref_key b.requested_ref_key)
  released-clash false true a b p q e = ground (
    arith,
    q refl,
    eq_iff a.requested_ref_key b.requested_ref_key,
    eq_iff b.requested_ref_key a.requested_ref_key,
  )
  released-clash true true a b p q e = ground (arith, p refl, q refl)

-- `b` is a row of the table: what holds of no row does not hold of `b`.
abbrev IsRow : RepositorySyncRun → List RepositorySyncRun → Type 0
IsRow b table = (p : RepositorySyncRun → Bool) → any p table ≡ false → p b ≡ false

abbrev IsPart : List RepositorySyncRun → List RepositorySyncRun → Type 0
IsPart rows table = (p : RepositorySyncRun → Bool) → any p table ≡ false → any p rows ≡ false

IsPart-head :
    (x : RepositorySyncRun) (xs table : List RepositorySyncRun)
    → IsPart (x ∷ xs) table
    → IsRow x table
IsPart-head x xs table part p h = ground (arith, part p h)

IsPart-tail :
    (x : RepositorySyncRun) (xs table : List RepositorySyncRun)
    → IsPart (x ∷ xs) table
    → IsPart xs table
IsPart-tail x xs table part p h = ground (arith, part p h)

module _ (c i : Uuid) (at : Instant) (table : List RepositorySyncRun) where
  abbrev release_rows : List RepositorySyncRun → List RepositorySyncRun
  release_rows = update_where (is_releasable c i table) (restart SyncRunStatus.pending at)

  may_release :
      (a b : RepositorySyncRun)
      → IsRow b table
      → is_releasable c i table a ≡ true
      → (is_row c i a ≡ true) × (is_rival c i a b ≡ false)
  may_release a b inside h =
      let alone : any (is_rival c i a) table ≡ false = ground arith in
      (ground arith, inside (is_rival c i a) alone)

  any-released :
      (x : RepositorySyncRun) (ys : List RepositorySyncRun)
      → IsRow x table
      → IsPart ys table
      → any (clash x) ys ≡ false
      → any (clash (released c i at (is_releasable c i table x) x)) (release_rows ys) ≡ false
  unfolding update_where
  any-released x [] inside part h = refl
  any-released x (y ∷ ys) inside part h =
      let here = IsPart-head y ys table part in
      let apart =
        released-clash c i at (is_releasable c i table x) (is_releasable c i table y) x y
          (may_release x y here) (may_release y x inside) (ground arith) in
      rw (apart, any-released x ys inside (IsPart-tail y ys table part) (ground arith)) refl

  release_rows-consistent :
      (xs : List RepositorySyncRun)
      → IsPart xs table
      → no_clash clash xs ≡ true
      → no_clash clash (release_rows xs) ≡ true
  unfolding no_clash update_where
  release_rows-consistent [] part h = refl
  release_rows-consistent (x ∷ xs) part h =
      rw
        (
          any-released x xs (IsPart-head x xs table part) (IsPart-tail x xs table part)
              (ground arith),
          release_rows-consistent xs (IsPart-tail x xs table part) (ground arith),
        )
        refl

abbrev blocked_alone : Uuid → Uuid → List RepositorySyncRun → RepositorySyncRun → Bool
blocked_alone c i rows r = r.status == SyncRunStatus.blocked && not (any (is_rival c i r) rows)

-- The row that is found after a release is pending.
released-pending :
    (c i : Uuid) (at : Instant) (rows : List RepositorySyncRun)
    → IsConsistent (record empty_database { sync_runs = rows })
    → any (is_releasable c i rows) rows ≡ true
    → (r : RepositorySyncRun) → find? (is_row c i) (release_rows c i at rows rows) ≡ some r
    → r.status ≡ SyncRunStatus.pending
released-pending c i at rows h hit r found = elim (Option-cases (find? (is_row c i) rows)) [
  | inl missing ↦ cc (sym unique ∙ hit, ap (holds (blocked_alone c i rows)) missing)
  | inr (r', seen) ↦
      released_row r' (find?_sound (is_row c i) rows r' seen) (rw seen at (sym unique ∙ hit)) (
        rw
          (
            find?-update (is_row c i) (is_releasable c i rows) (restart SyncRunStatus.pending at)
                rows (λ x. refl),
            seen,
          )
          at found)
]
  where
    unique :
        any (is_releasable c i rows) rows ≡ holds (blocked_alone c i rows) (find? (is_row c i) rows)
    unique = any_key (is_row c i) (blocked_alone c i rows) rows (unique_row c i rows h)

    released_row :
        (r' : RepositorySyncRun)
        → is_row c i r' ≡ true
        → blocked_alone c i rows r' ≡ true
        → some (if is_releasable c i rows r' then restart SyncRunStatus.pending at r' else r')
          ≡ some r
        → r.status ≡ SyncRunStatus.pending
    released_row r' row alone e = ground arith

-- A run that is found is pending.
abbrev pub IsPending : Option RepositorySyncRun → Type 0
IsPending none = Unit
IsPending (some r) = r.status ≡ SyncRunStatus.pending

pending_found :
    (found : Option RepositorySyncRun)
    → ((r : RepositorySyncRun) → found ≡ some r → r.status ≡ SyncRunStatus.pending)
    → IsPending found
pending_found none h = tt
pending_found (some r) h = h r refl

-- On a table that meets its constraints the release never raises, and the table still meets them.
-- The answer is the run that was released, which is pending, or none.
pub release_total :
    (c i : Uuid) (at : Instant) (db : Database)
    → IsConsistent db
    → (found : Option RepositorySyncRun) × ((release_blocked_if_no_active c i at db).0 ≡ ok found)
      × IsConsistent (release_blocked_if_no_active c i at db).1
      × IsPending found
unfolding release_blocked_if_no_active
release_total c i at db h =
    let kept = release_rows-consistent c i at db.sync_runs db.sync_runs (λ p e. e) h in
    elim (Bool-cases (any (is_releasable c i db.sync_runs) db.sync_runs)) [
      | inl some_row ↦ (
        find? (is_row c i) (release_rows c i at db.sync_runs db.sync_runs),
        rw (some_row, kept) refl,
        rw (some_row, kept) kept,
        pending_found (find? (is_row c i) (release_rows c i at db.sync_runs db.sync_runs))
            (released-pending c i at db.sync_runs h some_row),
      )
      | inr no_row ↦ (none, rw no_row refl, rw no_row h, tt)
    ]
