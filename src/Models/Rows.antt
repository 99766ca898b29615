-- ===== src/Models/Rows.antt =====
-- The rows of the tables of infrastructure/persistence/models.py that the modelled code reads or
-- writes. A UUID and an instant (in microseconds) are numbers. Columns that no modelled code uses
-- are left out: of a connection these are its mirror path, active credential revision, authentication
-- mode, reachability and bookkeeping stamps. The files of a snapshot are in its row.
use tci.Prelude.{ℕ, String, Option, Bool, List}
use tci.Models.Enums.Types.{
  RepositoryProvider, RepositoryTransport, RefType, DefaultRefType, RepositoryConnectionStatus,
  WebhookSecretRevisionStatus, WebhookHealthState, WebhookRejectionReason, SyncRunStatus,
  SyncTriggerType, SyncFailureCode, ProviderEventType, DomainEventType, EventTargetKind,
  ProviderEventIdempotencySource, SignatureStatus, ProcessingDecision, EventProcessingStatus,
  CredentialType, CredentialRevisionStatus, ScopeRuleWarningState, SnapshotInclusionReason,
}

abbrev pub Uuid : Type 0
Uuid = ℕ

abbrev pub Instant : Type 0
Instant = ℕ

pub record RepositoryConnection : Type 0 where
  pub id : Uuid
  pub workspace_id : Uuid
  pub planning_input_reference_id : Uuid
  pub provider : RepositoryProvider
  pub remote_url : String
  pub provider_instance_url : Option String
  pub transport : RepositoryTransport
  pub repository_owner : String
  pub repository_name : String
  pub provider_project_path : Option String
  pub default_ref_type : DefaultRefType
  pub default_ref_name : String
  pub status : RepositoryConnectionStatus
  pub active_webhook_secret_revision_id : Option Uuid
  pub active_scope_rule_version_id : Option Uuid
  pub webhook_health_state : WebhookHealthState
  pub last_webhook_rejection_reason : Option WebhookRejectionReason
  pub last_webhook_rejected_at : Option Instant
  pub last_verified_at : Option Instant
  pub last_successful_snapshot_at : Option Instant
  pub last_failed_sync_at : Option Instant
  pub last_processed_event_id : Option Uuid
  pub last_processed_event_at : Option Instant

pub record WebhookSecretRevision : Type 0 where
  pub id : Uuid
  pub connection_id : Uuid
  pub encrypted_secret : String
  pub status : WebhookSecretRevisionStatus
  pub grace_until : Option Instant
  pub created_at : Instant

pub record RepositoryEvent : Type 0 where
  pub id : Uuid
  pub connection_id : Uuid
  pub provider_delivery_id : String
  pub provider_event_idempotency_source : ProviderEventIdempotencySource
  pub provider_event_type : ProviderEventType
  pub provider_action : Option String
  pub domain_event_type : DomainEventType
  pub target_kind : EventTargetKind
  pub target_key : String
  pub target_ref_name : Option String
  pub target_head_sha : Option String
  pub occurred_at : Instant
  pub received_at : Instant
  pub processed_at : Option Instant
  pub signature_status : SignatureStatus
  pub verified_secret_revision_status : Option WebhookSecretRevisionStatus
  pub verified_secret_revision_id : Option Uuid
  pub rejection_reason : Option WebhookRejectionReason
  pub processing_decision : ProcessingDecision
  pub processing_status : EventProcessingStatus
  pub payload_hash : String
  pub sync_run_id : Option Uuid
  pub snapshot_id : Option Uuid

pub record RepositoryEventCursor : Type 0 where
  pub id : Uuid
  pub connection_id : Uuid
  pub target_key : String
  pub latest_head_sha : String
  pub latest_event_id : Uuid
  pub updated_at : Instant

pub record RepositorySyncRun : Type 0 where
  pub id : Uuid
  pub connection_id : Uuid
  pub trigger_event_id : Option Uuid
  pub trigger_type : SyncTriggerType
  pub requested_ref_type : RefType
  pub requested_ref_name : String
  pub requested_ref_key : String
  pub resolved_commit_sha : Option String
  pub status : SyncRunStatus
  pub failure_code : Option SyncFailureCode
  pub failure_message : Option String
  pub started_at : Instant
  pub dispatch_enqueued_at : Option Instant
  pub completed_at : Option Instant

pub record RepositoryCredentialRevision : Type 0 where
  pub id : Uuid
  pub connection_id : Uuid
  pub credential_type : CredentialType
  pub encrypted_secret : String
  pub display_fingerprint : String
  pub read_only_validated : Bool
  pub status : CredentialRevisionStatus

pub record CollectionScopeRuleVersion : Type 0 where
  pub id : Uuid
  pub connection_id : Uuid
  pub planning_input_reference_id : Uuid
  pub include_paths : List String
  pub exclude_paths : List String
  pub allowed_file_types : List String
  pub blocked_file_types : List String
  pub max_file_size_bytes : ℕ
  pub exclude_binary : Bool
  pub is_auto_default : Bool
  pub warning_state : ScopeRuleWarningState
  pub created_by : Uuid

pub record CodeSnapshotFile : Type 0 where
  pub path : String
  pub extension : Option String
  pub language_hint : Option String
  pub size_bytes : ℕ
  pub content_sha256 : String
  pub archive_blob_path : String
  pub included_by : SnapshotInclusionReason

pub record CodeSnapshot : Type 0 where
  pub id : Uuid
  pub connection_id : Uuid
  pub sync_run_id : Uuid
  pub scope_rule_version_id : Uuid
  pub requested_ref_type : RefType
  pub requested_ref_name : String
  pub resolved_commit_sha : String
  pub tree_sha : String
  pub archive_path : String
  pub file_count : ℕ
  pub total_bytes : ℕ
  pub created_at : Instant
  pub files : List CodeSnapshotFile
