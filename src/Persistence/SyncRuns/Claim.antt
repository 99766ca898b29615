-- ===== src/Persistence/SyncRuns/Claim.antt =====
-- `claim_dispatch_enqueued`: the workers that try to dispatch a run.
use mathlib.Core.Option
use tci.Prelude.{
  ◌≡◌, refl, Bool, true, false, ◌&&◌, Option, some, List, arith, find?, any, if◌then◌else◌, ◌<◌,
  Bool-cases, Option-cases, inl, inr, ◌==◌, ap,
}
use tci.Prelude.Lists.{find?_sound}
use tci.Models.Enums.Types.{SyncRunStatus}
use tci.Models.Enums.Equality.{sync_run_status_eq}
use tci.Models.Rows.{Uuid, Instant, RepositorySyncRun}
use tci.Session.{Database, ok}
use tci.Persistence.Table.{update_where, find?-update, any_key, holds}
use tci.Persistence.SyncRuns.{clash, is_row}
use tci.Persistence.SyncRuns.Operations.{claim_dispatch_enqueued, is_claimable, may_claim}
use tci.Persistence.SyncRuns.Constraints.{IsConsistent, unique_row, update-consistent}

abbrev claim : Instant → RepositorySyncRun → RepositorySyncRun
claim at r = record r { dispatch_enqueued_at = some at }

claim-clash :
    (at : Instant) (h k : Bool) (a b : RepositorySyncRun)
    → clash a b ≡ false
    → clash (if h then claim at a else a) (if k then claim at b else b) ≡ false
unfolding clash
claim-clash at true true a b e = e
claim-clash at true false a b e = e
claim-clash at false true a b e = e
claim-clash at false false a b e = e

module _ (c i : Uuid) where
  -- The claim succeeds exactly for a pending run that nobody has claimed, or whose claim is stale.
  abbrev pub is_free : Option Instant → RepositorySyncRun → Bool
  is_free before r =
      r.status == SyncRunStatus.pending && may_claim c i before r.dispatch_enqueued_at

  free_after :
      (at limit : Instant) (before : Option Instant) (r : RepositorySyncRun)
      → is_row c i r ≡ true
      → is_free before r ≡ true
      → limit < at
      → is_free (some limit) (if is_claimable c i before r then claim at r else r) ≡ false
  free_after at limit before r row free late = ground arith

module _ (c i : Uuid) (db : Database) (consistent : IsConsistent db) where
  abbrev rows_after : Instant → Option Instant → List RepositorySyncRun
  rows_after at before = update_where (is_claimable c i before) (claim at) db.sync_runs

  rows_after-IsConsistent :
      (at : Instant) (before : Option Instant)
      → IsConsistent (record db { sync_runs = rows_after at before })
  rows_after-IsConsistent at before =
      update-consistent (is_claimable c i before) (claim at) db.sync_runs
        (λ a b. claim-clash at (is_claimable c i before a) (is_claimable c i before b) a b)
        consistent

  any_claimable :
      (before : Option Instant)
      → any (is_claimable c i before) db.sync_runs
        ≡ holds (is_free c i before) (find? (is_row c i) db.sync_runs)
  any_claimable before =
      any_key (is_row c i) (is_free c i before) db.sync_runs
        (unique_row c i db.sync_runs consistent)

  pub claim_lem :
      (at : Instant) (before : Option Instant)
      → claim_dispatch_enqueued c i at before db ≡ (
          if holds (is_free c i before) (find? (is_row c i) db.sync_runs)
          then (ok true, record db { sync_runs = rows_after at before })
          else (ok false, db))
  unfolding claim_dispatch_enqueued
  claim_lem at before = ground (arith, rows_after-IsConsistent at before, any_claimable before)

  -- The run as a later reader finds it.
  find?-rows_after :
      (at : Instant) (before : Option Instant)
      → find? (is_row c i) (rows_after at before)
        ≡ Option.map
            (λ r. if is_claimable c i before r then claim at r else r)
            (find? (is_row c i) db.sync_runs)
  find?-rows_after at before =
      find?-update (is_row c i) (is_claimable c i before) (claim at) db.sync_runs (λ r. refl)

-- What `free_after` says of the row that a search finds.
holds_free_after :
    (c i : Uuid) (at limit : Instant) (before : Option Instant) (rows : List RepositorySyncRun)
    → holds (is_free c i before) (find? (is_row c i) rows) ≡ true
    → limit < at
    → holds
        (is_free c i (some limit))
        (find? (is_row c i) (update_where (is_claimable c i before) (claim at) rows))
      ≡ false
holds_free_after c i at limit before rows free late =
    elim (Option-cases (find? (is_row c i) rows)) [
      | inl missing ↦ cc (ap (holds (is_free c i before)) missing)
      | inr (r, found) ↦
          rw
            (find?-update (is_row c i) (is_claimable c i before) (claim at) rows (λ r. refl), found)
            (free_after c i at limit before r (find?_sound (is_row c i) rows r found)
              (rw found at free) late)
    ]

-- After a claim at `at`, a second worker's claim fails as long as the first one is not stale.
pub second_claim_fails :
    (c i : Uuid) (db : Database) (at at' : Instant) (before : Option Instant) (limit : Instant)
    → IsConsistent db
    → (claim_dispatch_enqueued c i at before db).0 ≡ ok true
    → limit < at
    → (claim_dispatch_enqueued c i at' (some limit) (claim_dispatch_enqueued c i at before db).1).0
      ≡ ok false
second_claim_fails c i db at at' before limit consistent h late =
    elim (Bool-cases (holds (is_free c i before) (find? (is_row c i) db.sync_runs))) [
      | inl free ↦
          rw
            (
              claim_lem c i db consistent at before,
              free,
              claim_lem c i (record db { sync_runs = rows_after c i db consistent at before })
                  (rows_after-IsConsistent c i db consistent at before) at' (some limit),
              holds_free_after c i at limit before db.sync_runs free late,
            )
            refl
      | inr taken ↦ cc (h, rw (taken) at (claim_lem c i db consistent at before))
    ]
