-- ===== src/Tests/Runs.antt =====
-- Sync runs: claimed twice, released, and finished.
use tci.Prelude.{◌≡◌, refl, true, false, Option, none, some, [], ◌∷◌, arith, List}
use tci.Models.Enums.Types.{SyncRunStatus, SyncFailureCode}
use tci.Session.{Database, ok}
use tci.Persistence.Table.{no_clash, update_where}
use tci.Persistence.SyncRuns.{clash}
use tci.Persistence.SyncRuns.Operations.{claim_dispatch_enqueued, release_blocked_if_no_active}
use tci.Persistence.SyncRuns.Constraints.{IsConsistent}
use tci.Persistence.SyncRuns.Claim.{second_claim_fails}
use tci.Persistence.SyncRuns.Release.{release_total, IsPending}
use tci.Persistence.SyncRuns.Succeeded.{HasSucceeded}
use tci.Persistence.SyncRuns.Lifecycle.{
  Call, failed_call, delete_call, claim_call, run, succeeded_stays,
}
use tci.Tests.{run_of, with_runs}

abbrev waiting : Database
waiting = with_runs (run_of 20 SyncRunStatus.pending ∷ [])

abbrev blocked : Database
blocked = with_runs (run_of 20 SyncRunStatus.blocked ∷ run_of 21 SyncRunStatus.succeeded ∷ [])

abbrev late_calls : List Call
late_calls =
    failed_call 1 21 SyncFailureCode.auth_failed "late" 70
    ∷ delete_call 1 21
    ∷ claim_call 1 21 80 none
    ∷ []

waiting-IsConsistent : IsConsistent waiting
unfolding no_clash
waiting-IsConsistent = refl

blocked-IsConsistent : IsConsistent blocked
unfolding no_clash clash
blocked-IsConsistent = refl

first_claim : (claim_dispatch_enqueued 1 20 50 none waiting).0 ≡ ok true
unfolding claim_dispatch_enqueued no_clash update_where
first_claim = refl

second_claim_fails_example :
    (claim_dispatch_enqueued 1 20 60 (some 40) (claim_dispatch_enqueued 1 20 50 none waiting).1).0
    ≡ ok false
second_claim_fails_example =
    second_claim_fails 1 20 waiting 50 60 none 40 waiting-IsConsistent first_claim (omega arith)

release_total_example :
    (found : Option _) × ((release_blocked_if_no_active 1 20 30 blocked).0 ≡ ok found)
    × IsConsistent (release_blocked_if_no_active 1 20 30 blocked).1
    × IsPending found
release_total_example = release_total 1 20 30 blocked blocked-IsConsistent

succeeded_stays_example : HasSucceeded 1 21 (run blocked late_calls).sync_runs
succeeded_stays_example = succeeded_stays 1 21 late_calls blocked refl
