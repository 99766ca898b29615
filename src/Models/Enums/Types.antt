-- ===== src/Models/Enums/Types.antt =====
-- The string enumerations of infrastructure/persistence/models.py, with the equality tests that
-- the code makes. `EventTargetKind.NONE` is `none_target`, since `none` is the empty option.

pub data RepositoryProvider : Type 0 where
  github_cloud gitlab_self_managed : RepositoryProvider

pub data RepositoryTransport : Type 0 where
  ssh https http : RepositoryTransport

pub data RefType : Type 0 where
  branch tag pull_request_branch : RefType

pub data DefaultRefType : Type 0 where
  branch tag : DefaultRefType

pub data RepositoryConnectionStatus : Type 0 where
  active reauth_required ref_missing : RepositoryConnectionStatus

pub data WebhookSecretRevisionStatus : Type 0 where
  active previous_grace revoked : WebhookSecretRevisionStatus

pub data CredentialType : Type 0 where
  ssh_private_key https_pat : CredentialType

pub data CredentialRevisionStatus : Type 0 where
  active previous_grace revoked : CredentialRevisionStatus

pub data WebhookHealthState : Type 0 where
  healthy missing_secret secret_mismatch_detected signature_invalid_recently : WebhookHealthState

pub data WebhookRejectionReason : Type 0 where
  secret_missing secret_mismatch signature_invalid : WebhookRejectionReason

pub data ScopeRuleWarningState : Type 0 where
  ok empty_result_risk preview_failed over_broad_include : ScopeRuleWarningState

pub data SyncRunStatus : Type 0 where
  pending running succeeded failed blocked : SyncRunStatus

pub data SyncTriggerType : Type 0 where
  manual_initial manual_refresh webhook_push webhook_pull_request webhook_merge_request :
      SyncTriggerType

pub data SyncFailureCode : Type 0 where
  auth_failed ref_not_found no_included_files mirror_sync_failed snapshot_write_failed
        queue_dispatch_failed :
      SyncFailureCode

pub data ProviderEventType : Type 0 where
  push pull_request merge_request ping unknown : ProviderEventType

pub data DomainEventType : Type 0 where
  commit_recorded push_received pr_received mr_received signature_rejected secret_missing
        secret_mismatch :
      DomainEventType

pub data EventTargetKind : Type 0 where
  default_ref pull_request_source merge_request_source none_target : EventTargetKind

pub data ProviderEventIdempotencySource : Type 0 where
  delivery_header uuid_header derived_hash : ProviderEventIdempotencySource

pub data SignatureStatus : Type 0 where
  verified secret_missing secret_mismatch signature_invalid : SignatureStatus

pub data ProcessingDecision : Type 0 where
  record_only queued duplicate_delivery duplicate_head stale_head rejected : ProcessingDecision

pub data EventProcessingStatus : Type 0 where
  received validated queued completed failed rejected : EventProcessingStatus

pub data SnapshotInclusionReason : Type 0 where
  default_policy user_include pr_source_snapshot : SnapshotInclusionReason
