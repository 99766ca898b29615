-- ===== src/Persistence/SyncRuns/Constraints.antt =====
-- The unique constraints of the sync run table, and which updates keep them.
use tci.Prelude.{◌≡◌, refl, Bool, true, false, ◌&&◌, List, arith, if◌then◌else◌, nat_eq, string_eq}
use tci.Models.Enums.Equality.{sync_run_status_eq, ref_type_eq}
use tci.Models.Rows.{Uuid, RepositorySyncRun}
use tci.Session.{Database, ok}
use tci.Persistence.Table.{update_where, no_clash, no_clash-weaken, no_clash-update}
use tci.Persistence.SyncRuns.{clash, is_row, flush_sync_runs}

abbrev pub IsConsistent : Database → Type 0
IsConsistent db = no_clash clash db.sync_runs ≡ true

pub unique_row :
    (c i : Uuid) (rows : List RepositorySyncRun)
    → no_clash clash rows ≡ true
    → no_clash (λ a b. is_row c i a && is_row c i b) rows ≡ true
unfolding clash
unique_row c i rows =
    no_clash-weaken clash (λ a b. is_row c i a && is_row c i b) rows (same_row c i)
  where
    same_row :
        (c i : Uuid) (a b : RepositorySyncRun)
        → clash a b ≡ false
        → (is_row c i a && is_row c i b) ≡ false
    same_row c i a b h = ground arith

module _ (hit : RepositorySyncRun → Bool) (change : RepositorySyncRun → RepositorySyncRun) where
  abbrev pub updated : RepositorySyncRun → RepositorySyncRun
  updated r = if hit r then change r else r

  pub update-consistent :
      (rows : List RepositorySyncRun)
      → ((a b : RepositorySyncRun) → clash a b ≡ false → clash (updated a) (updated b) ≡ false)
      → no_clash clash rows ≡ true
      → no_clash clash (update_where hit change rows) ≡ true
  update-consistent rows = no_clash-update clash hit change rows

-- A flush of consistent rows goes through.
pub flush-ok :
    (rows : List RepositorySyncRun) (db : Database)
    → no_clash clash rows ≡ true
    → flush_sync_runs rows db ≡ (ok tt, record db { sync_runs = rows })
unfolding flush_sync_runs
flush-ok rows db h = rw h refl
