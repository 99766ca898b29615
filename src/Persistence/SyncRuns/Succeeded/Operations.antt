-- ===== src/Persistence/SyncRuns/Succeeded/Operations.antt =====
-- The operations of the sync run table, with respect to a succeeded run.
use tci.Prelude.{
  ◌≡◌, refl, Bool, true, false, not, Option, some, List, ◌∷◌, String, arith, any, filter, ap, find?,
  if◌then◌else◌, ◌==◌, Bool-cases, Option-cases, inl, inr,
}
use tci.Models.Enums.Types.{SyncRunStatus, SyncFailureCode}
use tci.Models.Enums.Equality.{sync_run_status_eq}
use tci.Models.Rows.{Uuid, Instant, RepositorySyncRun}
use tci.Session.{Database, ◌>>◌, raise, value_error}
use tci.Persistence.Table.{any-weaken, any-find?, no_clash, find?-filter}
use tci.Persistence.SyncRuns.{
  new_run, clash, is_row, flush_sync_runs, set_row, require_run, create, update_returning,
  RepositorySyncRunDraft,
}
use tci.Persistence.SyncRuns.Operations.{
  update_blocked_trigger_event, release_blocked, release_blocked_if_no_active,
  mark_dispatch_enqueued, clear_dispatch_enqueued, claim_dispatch_enqueued, mark_running,
  mark_succeeded, mark_failed, delete_pending, is_claimable, is_startable, is_releasable,
}
use tci.Persistence.SyncRuns.Succeeded.{
  is_succeeded, HasSucceeded, update_keeps, guard_elsewhere, flush_keeps, set_row_keeps, Keeps,
  Keeps-bind, Keeps-require_run, Keeps-guarded, Keeps-write,
}

module _ (c i : Uuid) where
  pub Keeps-mark_succeeded :
      (c' i' : Uuid) (sha : String) (at : Instant) → Keeps c i (mark_succeeded c' i' sha at)
  unfolding mark_succeeded
  Keeps-mark_succeeded c' i' sha at =
      Keeps-bind c i (require_run c' i') _ (Keeps-require_run c i c' i') λ s.
        Keeps-bind c i (set_row c' i' _) _
          (λ db. set_row_keeps c i c' i' _ db (λ r. refl) (λ r row hit done. refl))
          (λ _. Keeps-require_run c i c' i')

  pub Keeps-mark_failed :
      (c' i' : Uuid) (code : SyncFailureCode) (message : String) (at : Instant)
      → Keeps c i (mark_failed c' i' code message at)
  unfolding mark_failed
  Keeps-mark_failed c' i' code message at = Keeps-guarded c i c' i' _ λ s db seen h.
      elim (Bool-cases (is_succeeded s)) [
        | inl done ↦ rw done h
        | inr unfinished ↦
            rw unfinished (Keeps-write c i c' i' _ s db (λ r. refl) seen unfinished h)
      ]

  pub Keeps-mark_dispatch_enqueued :
      (c' i' : Uuid) (at : Instant) → Keeps c i (mark_dispatch_enqueued c' i' at)
  unfolding mark_dispatch_enqueued
  Keeps-mark_dispatch_enqueued c' i' at =
      Keeps-bind c i (require_run c' i') _ (Keeps-require_run c i c' i') λ s.
        Keeps-bind c i (set_row c' i' _) _
          (λ db. set_row_keeps c i c' i' _ db (λ r. refl) (λ r row hit done. done))
          (λ _. Keeps-require_run c i c' i')

  pub Keeps-clear_dispatch_enqueued : (c' i' : Uuid) → Keeps c i (clear_dispatch_enqueued c' i')
  unfolding clear_dispatch_enqueued
  Keeps-clear_dispatch_enqueued c' i' =
      Keeps-bind c i (require_run c' i') _ (Keeps-require_run c i c' i') λ s.
        Keeps-bind c i (set_row c' i' _) _
          (λ db. set_row_keeps c i c' i' _ db (λ r. refl) (λ r row hit done. done))
          (λ _. Keeps-require_run c i c' i')

  -- A blocked run has not succeeded.
  Keeps-if_blocked :
      (c' i' : Uuid) (change : RepositorySyncRun → RepositorySyncRun) (s : RepositorySyncRun)
      (db : Database)
      → ((r : RepositorySyncRun) → is_row c i (change r) ≡ is_row c i r)
      → find? (is_row c' i') db.sync_runs ≡ some s
      → HasSucceeded c i db.sync_runs
      → HasSucceeded c i
          ((if not (s.status == SyncRunStatus.blocked)
              then raise value_error
              else (set_row c' i' change >> require_run c' i'))
            db).1.sync_runs
  Keeps-if_blocked c' i' change s db same seen h =
      elim (Bool-cases (s.status == SyncRunStatus.blocked)) [
        | inl blocked ↦ rw blocked (Keeps-write c i c' i' change s db same seen (ground arith) h)
        | inr other ↦ rw other h
      ]

  pub Keeps-update_blocked :
      (c' i' : Uuid) (event : Option Uuid) (at : Instant)
      → Keeps c i (update_blocked_trigger_event c' i' event at)
  unfolding update_blocked_trigger_event
  Keeps-update_blocked c' i' event at =
      Keeps-guarded c i c' i' _ (λ s db. Keeps-if_blocked c' i' _ s db (λ r. refl))

  pub Keeps-release_blocked : (c' i' : Uuid) (at : Instant) → Keeps c i (release_blocked c' i' at)
  unfolding release_blocked
  Keeps-release_blocked c' i' at =
      Keeps-guarded c i c' i' _ (λ s db. Keeps-if_blocked c' i' _ s db (λ r. refl))

  find?-filter_other :
      (c' i' : Uuid) (rows : List RepositorySyncRun) (s : RepositorySyncRun)
      → find? (is_row c' i') rows ≡ some s
      → is_succeeded s ≡ false
      → HasSucceeded c i rows
      → HasSucceeded c i (filter (λ r. not (is_row c' i' r)) rows)
  find?-filter_other c' i' rows s seen unfinished h =
      rw
        (find?-filter (is_row c i) (λ r. not (is_row c' i' r)) rows
          (λ r row. ap not (guard_elsewhere c i c' i' rows s r seen unfinished h row)))
        h

  pub Keeps-delete_pending : (c' i' : Uuid) → Keeps c i (delete_pending c' i')
  unfolding delete_pending
  Keeps-delete_pending c' i' = Keeps-guarded c i c' i' _ λ s db seen h.
      elim (Bool-cases (s.status == SyncRunStatus.pending)) [
        | inl pending ↦
            rw pending (
              flush_keeps c i _ db (find?-filter_other c' i' db.sync_runs s seen (ground arith) h)
                h)
        | inr other ↦ rw other h
      ]

  Keeps-update_returning :
      (hit : RepositorySyncRun → Bool) (change : RepositorySyncRun → RepositorySyncRun)
      → ((r : RepositorySyncRun) → is_row c i (change r) ≡ is_row c i r)
      → ((r : RepositorySyncRun)
          → is_row c i r ≡ true
          → hit r ≡ true
          → is_succeeded r ≡ true
          → is_succeeded (change r) ≡ true)
      → Keeps c i (update_returning hit change)
  unfolding update_returning
  Keeps-update_returning hit change same keep db h =
      ground (arith, update_keeps c i hit change db.sync_runs same keep h)

  pub Keeps-claim :
      (c' i' : Uuid) (at : Instant) (before : Option Instant)
      → Keeps c i (claim_dispatch_enqueued c' i' at before)
  unfolding claim_dispatch_enqueued
  Keeps-claim c' i' at before =
      Keeps-update_returning (is_claimable c' i' before) _ (λ r. refl) (λ r row hit done. done)

  pub Keeps-mark_running : (c' i' : Uuid) (at : Instant) → Keeps c i (mark_running c' i' at)
  unfolding mark_running
  Keeps-mark_running c' i' at =
      Keeps-bind c i (update_returning (is_startable c' i') _) _
        (Keeps-update_returning (is_startable c' i') _ (λ r. refl) (λ r row hit done. ground arith))
        (elim [ true ↦ Keeps-require_run c i c' i' | false ↦ λ db h. h ])

  pub Keeps-release_if_no_active :
      (c' i' : Uuid) (at : Instant) → Keeps c i (release_blocked_if_no_active c' i' at)
  unfolding release_blocked_if_no_active
  Keeps-release_if_no_active c' i' at =
      Keeps-bind c i (λ db. update_returning (is_releasable c' i' db.sync_runs) _ db) _
        (λ db.
          Keeps-update_returning (is_releasable c' i' db.sync_runs) _ (λ r. refl)
            (λ r row hit done. ground arith) db)
        (elim [ true ↦ λ db h. h | false ↦ λ db h. h ])

  find?-cons_other :
      (n : RepositorySyncRun) (rows : List RepositorySyncRun)
      → any (clash n) rows ≡ false
      → HasSucceeded c i rows
      → HasSucceeded c i (n ∷ rows)
  unfolding clash
  find?-cons_other n rows fresh h = elim (Bool-cases (is_row c i n)) [
    | inl same ↦ elim (Option-cases (find? (is_row c i) rows)) [
      | inl missing ↦ cc (rw missing at h)
      | inr (s, seen) ↦
          let absent : any (is_row c i) rows ≡ false =
            any-weaken (clash n) (is_row c i) rows (λ a apart. ground arith) fresh in
          cc (absent, any-find? (is_row c i) rows s seen)
    ]
    | inr other ↦ rw other h
  ]

  pub Keeps-create :
      (status : SyncRunStatus) (now : Instant) (draft : RepositorySyncRunDraft)
      → Keeps c i (create status now draft)
  unfolding create flush_sync_runs no_clash
  Keeps-create status now draft db h =
      elim (Bool-cases (any (clash (new_run status now draft)) db.sync_runs)) [
        | inl taken ↦ rw taken h
        | inr fresh ↦ elim (Bool-cases (no_clash clash db.sync_runs)) [
          | inl fine ↦
              rw (fresh, fine) (find?-cons_other (new_run status now draft) db.sync_runs fresh h)
          | inr broken ↦ rw (fresh, broken) h
        ]
      ]
