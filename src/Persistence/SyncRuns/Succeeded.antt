-- ===== src/Persistence/SyncRuns/Succeeded.antt =====
-- A run that has succeeded, and the rules for the actions that keep it so.
pub mod Operations
use tci.Prelude.{
  ◌≡◌, refl, Bool, true, false, not, ◌&&◌, Option, none, some, List, [], ◌∷◌, String, arith, any,
  filter, ap, find?, if◌then◌else◌, ◌==◌, Bool-cases, Option-cases, inl, inr,
}
use tci.Prelude.Lists.{find?_sound}
use tci.Models.Enums.Types.{SyncRunStatus, SyncFailureCode}
use tci.Models.Enums.Equality.{sync_run_status_eq}
use tci.Models.Rows.{Uuid, Instant, RepositorySyncRun}
use tci.Session.{Database, Session, ok, err, Result, ◌>>=◌, ◌>>◌, next_step, raise, value_error}
use tci.Persistence.Table.{update_where, no_clash, holds, find?-update, find?-filter}
use tci.Persistence.SyncRuns.{
  clash, is_row, flush_sync_runs, set_row, require_run, create, update_returning, create_pending,
  create_blocked, RepositorySyncRunDraft,
}
use tci.Persistence.SyncRuns.Operations.{
  update_blocked_trigger_event, release_blocked, release_blocked_if_no_active,
  mark_dispatch_enqueued, clear_dispatch_enqueued, claim_dispatch_enqueued, mark_running,
  mark_succeeded, mark_failed, delete_pending, is_claimable, is_startable, is_releasable, restart,
}

abbrev pub is_succeeded : RepositorySyncRun → Bool
is_succeeded r = r.status == SyncRunStatus.succeeded

-- The run is in the table, and it has succeeded.
abbrev pub HasSucceeded : Uuid → Uuid → List RepositorySyncRun → Type 0
HasSucceeded c i rows = holds is_succeeded (find? (is_row c i) rows) ≡ true

module _ (c i : Uuid) where
  pub update_keeps :
      (hit : RepositorySyncRun → Bool) (change : RepositorySyncRun → RepositorySyncRun)
      (rows : List RepositorySyncRun)
      → ((r : RepositorySyncRun) → is_row c i (change r) ≡ is_row c i r)
      → ((r : RepositorySyncRun)
          → is_row c i r ≡ true
          → hit r ≡ true
          → is_succeeded r ≡ true
          → is_succeeded (change r) ≡ true)
      → HasSucceeded c i rows
      → HasSucceeded c i (update_where hit change rows)
  update_keeps hit change rows same keep h = elim (Option-cases (find? (is_row c i) rows)) [
    | inl missing ↦ cc (rw missing at h)
    | inr (r, seen) ↦
        rw (find?-update (is_row c i) hit change rows same, seen)
          (kept r (find?_sound (is_row c i) rows r seen) (rw seen at h))
  ]
    where
      kept :
          (r : RepositorySyncRun)
          → is_row c i r ≡ true
          → is_succeeded r ≡ true
          → is_succeeded (if hit r then change r else r) ≡ true
      kept r row done = ground (arith, keep r row)

  -- A guard that read a run which has not succeeded speaks of another run.
  pub guard_elsewhere :
      (c' i' : Uuid) (rows : List RepositorySyncRun) (s r : RepositorySyncRun)
      → find? (is_row c' i') rows ≡ some s
      → is_succeeded s ≡ false
      → HasSucceeded c i rows
      → is_row c i r ≡ true
      → is_row c' i' r ≡ false
  guard_elsewhere c' i' rows s r seen unfinished h row = elim (Bool-cases (is_row c' i' r)) [
    | inl same ↦
        let e : c ≡ c' = ground arith in
        let f : i ≡ i' = ground arith in cc (unfinished, rw (e, f, seen) at h)
    | inr other ↦ other
  ]

  pub flush_keeps :
      (rows : List RepositorySyncRun) (db : Database)
      → HasSucceeded c i rows
      → HasSucceeded c i db.sync_runs
      → HasSucceeded c i (flush_sync_runs rows db).1.sync_runs
  unfolding flush_sync_runs
  flush_keeps rows db h k = ground arith

  -- The shape of the operations that read a run, test it and then write to it.
  pub set_row_keeps :
      (c' i' : Uuid) (change : RepositorySyncRun → RepositorySyncRun) (db : Database)
      → ((r : RepositorySyncRun) → is_row c i (change r) ≡ is_row c i r)
      → ((r : RepositorySyncRun)
          → is_row c i r ≡ true
          → is_row c' i' r ≡ true
          → is_succeeded r ≡ true
          → is_succeeded (change r) ≡ true)
      → HasSucceeded c i db.sync_runs
      → HasSucceeded c i (set_row c' i' change db).1.sync_runs
  unfolding set_row
  set_row_keeps c' i' change db same keep h =
      flush_keeps (update_where (is_row c' i') change db.sync_runs) db
        (update_keeps (is_row c' i') change db.sync_runs same keep h) h

  -- An action that keeps the run succeeded, whether it returns or raises.
  abbrev pub Keeps : {A : Type 0} → Session A → Type 0
  Keeps m = (db : Database) → HasSucceeded c i db.sync_runs → HasSucceeded c i (m db).1.sync_runs

  pub Keeps-bind :
      {A B : Type 0} (m : Session A) (f : A → Session B)
      → Keeps m
      → ((a : A) → Keeps (f a))
      → Keeps (m >>= f)
  Keeps-bind {A} {B} m f km kf db h = go (m db).0 (km db h)
    where
      go :
          (r : Result A)
          → HasSucceeded c i (m db).1.sync_runs
          → HasSucceeded c i (next_step f r (m db).1).1.sync_runs
      go (ok a) k = kf a (m db).1 k
      go (err e) k = k

  pub Keeps-require_run : (c' i' : Uuid) → Keeps (require_run c' i')
  unfolding require_run
  Keeps-require_run c' i' db h = ground arith

  -- After a run has been read, the rest may use what was read.
  pub Keeps-guarded :
      {B : Type 0} (c' i' : Uuid) (f : RepositorySyncRun → Session B)
      → ((s : RepositorySyncRun) (db : Database)
          → find? (is_row c' i') db.sync_runs ≡ some s
          → HasSucceeded c i db.sync_runs
          → HasSucceeded c i (f s db).1.sync_runs)
      → Keeps (require_run c' i' >>= f)
  unfolding require_run
  Keeps-guarded c' i' f keep db h = elim (Option-cases (find? (is_row c' i') db.sync_runs)) [
    | inl missing ↦ rw missing h
    | inr (s, seen) ↦ rw seen (keep s db seen h)
  ]

  -- A write that its guard allows only to a run which has not succeeded.
  pub Keeps-write :
      (c' i' : Uuid) (change : RepositorySyncRun → RepositorySyncRun) (s : RepositorySyncRun)
      (db : Database)
      → ((r : RepositorySyncRun) → is_row c i (change r) ≡ is_row c i r)
      → find? (is_row c' i') db.sync_runs ≡ some s
      → is_succeeded s ≡ false
      → HasSucceeded c i db.sync_runs
      → HasSucceeded c i ((set_row c' i' change >> require_run c' i') db).1.sync_runs
  Keeps-write c' i' change s db same seen unfinished h =
      Keeps-bind (λ _. set_row c' i' change db) (λ _. require_run c' i')
        (λ db' h'.
          set_row_keeps c' i' change db same
            (λ r row hit done.
              cc (guard_elsewhere c' i' db.sync_runs s r seen unfinished h row, hit))
            h)
        (λ _. Keeps-require_run c' i') db h
