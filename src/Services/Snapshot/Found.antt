-- ===== src/Services/Snapshot/Found.antt =====
-- The snapshot that is found for a sync run, and the actions that keep it or answer it.
use tci.Prelude.{
  ◌≡◌, refl, ◌&&◌, Option, none, some, ◌∷◌, String, find?, nat_eq, arith, Bool-cases, inl, inr,
}
use tci.Models.Enums.Types.{SyncFailureCode, RepositoryConnectionStatus}
use tci.Models.Enums.Equality.{sync_run_status_eq}
use tci.Models.Rows.{Uuid, Instant, RepositorySyncRun, CodeSnapshot}
use tci.Session.{
  Session, Database, Error, ok, pure, raise, require, session_scope, ◌>>=◌, lookup_error,
}
use tci.Session.Rules.{Preserves, Preserves-bind, Ends, Ends-bind, Ends-raise}
use tci.Persistence.Table.{no_clash, update_where}
use tci.Persistence.Connections.{
  record_snapshot_success, set_owned, require_owned, get_owned, write_connections,
}
use tci.Persistence.Snapshots.{
  create_snapshot, snapshot_clash, file_clash, is_of_run, get_by_sync_run_id,
}
use tci.Persistence.SyncRuns.{clash, is_row, require_run, get, set_row, flush_sync_runs}
use tci.Persistence.SyncRuns.Operations.{mark_succeeded}
use tci.Services.Snapshot.{BuildCodeSnapshotCommand}
use tci.Services.Snapshot.Failure.{fail_snapshot_build, record_failure}
use tci.Services.Snapshot.Build.{load_existing_snapshot}

-- No assumption on the database.
abbrev pub Anywhere : Database → Type 0
Anywhere db = Unit

-- The snapshot that is found for a run.
abbrev pub IsFound : Uuid → CodeSnapshot → Database → Type 0
IsFound run s db = find? (is_of_run run) db.snapshots ≡ some s

-- Where an action answers, it answers the snapshot that is found for the run.
abbrev pub Finds : Uuid → Session CodeSnapshot → Type 0
Finds run m = Ends Anywhere (IsFound run) m

Preserves-require :
    (I : Database → Type 0) {A : Type 0} (x : Error) (o : Option A) → Preserves I (require x o)
Preserves-require I x none db h = h
Preserves-require I x (some a) db h = h

module _ (run : Uuid) where
  pub Finds-create :
      (draft : CodeSnapshot) → draft.sync_run_id ≡ run → Finds run (create_snapshot draft)
  unfolding create_snapshot
  Finds-create draft own db h s =
      elim (Bool-cases
        (no_clash snapshot_clash (draft ∷ db.snapshots) && no_clash file_clash draft.files)) [
          | inl fine ↦ rw fine (λ e. ground arith)
          | inr broken ↦ rw broken (λ e. cc)
        ]

  -- The steps on the other tables keep what is found.
  module _ (s : CodeSnapshot) where
    IsFound-set_row :
        (c i : Uuid) (change : RepositorySyncRun → RepositorySyncRun)
        → Preserves (IsFound run s) (set_row c i change)
    unfolding set_row flush_sync_runs
    IsFound-set_row c i change db h =
        elim (Bool-cases (no_clash clash (update_where (is_row c i) change db.sync_runs))) [
          | inl fine ↦ rw fine h
          | inr broken ↦ rw broken h
        ]

    IsFound-require_run : (c i : Uuid) → Preserves (IsFound run s) (require_run c i)
    unfolding require_run get
    IsFound-require_run c i =
        Preserves-bind (IsFound run s) (get c i) (require lookup_error) (λ db h. h)
          (Preserves-require (IsFound run s) lookup_error)

    pub IsFound-mark_succeeded :
        (c i : Uuid) (sha : String) (at : Instant)
        → Preserves (IsFound run s) (mark_succeeded c i sha at)
    unfolding mark_succeeded
    IsFound-mark_succeeded c i sha at =
        Preserves-bind (IsFound run s) (require_run c i) _ (IsFound-require_run c i) λ row.
          Preserves-bind (IsFound run s) (set_row c i _) (λ _. require_run c i)
            (IsFound-set_row c i _) (λ _. IsFound-require_run c i)

    IsFound-require_owned : (w c : Uuid) → Preserves (IsFound run s) (require_owned w c)
    unfolding require_owned get_owned
    IsFound-require_owned w c =
        Preserves-bind (IsFound run s) (get_owned w c) (require lookup_error) (λ db h. h)
          (Preserves-require (IsFound run s) lookup_error)

    pub IsFound-record_success :
        (w c : Uuid) (at : Instant) → Preserves (IsFound run s) (record_snapshot_success w c at)
    unfolding record_snapshot_success set_owned write_connections
    IsFound-record_success w c at =
        Preserves-bind (IsFound run s) (require_owned w c) _ (IsFound-require_owned w c) λ row.
          Preserves-bind (IsFound run s) (write_connections _ _) (λ _. require_owned w c)
            (λ db h. h) (λ _. IsFound-require_owned w c)

    pub IsFound-pure : Ends (IsFound run s) (IsFound run) (pure s)
    IsFound-pure db h a e = let same : a ≡ s = cc in rw same h

  pub Finds-fail :
      (command : BuildCodeSnapshotCommand) (code : SyncFailureCode) (text : String)
      (status : Option RepositoryConnectionStatus) (at : Instant)
      → Finds run (fail_snapshot_build command code text status at)
  unfolding fail_snapshot_build
  Finds-fail command code text status at =
      Ends-bind Anywhere (IsFound run) (session_scope (record_failure command code text status at))
        (λ _. raise _) (λ db h. tt) (λ _. Ends-raise Anywhere (IsFound run) _)

  pub Finds-load :
      (f : Option CodeSnapshot → Session CodeSnapshot)
      → ((db : Database) (found : Option CodeSnapshot)
          → find? (is_of_run run) db.snapshots ≡ found
          → (s : CodeSnapshot) → (f found db).0 ≡ ok s
          → IsFound run s (f found db).1)
      → Finds run (load_existing_snapshot run >>= f)
  unfolding load_existing_snapshot get_by_sync_run_id session_scope
  Finds-load f each db h s e = each db (find? (is_of_run run) db.snapshots) refl s e
