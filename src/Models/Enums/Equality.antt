-- ===== src/Models/Enums/Equality.antt =====
-- Equality of the enumerations, by the number of the constructor.
use Prim.Native.Nat.{ℕ}
use tci.Prelude.{◌≡◌, ◌↔◌, Bool, true, arith, EqTest}
use tci.Prelude.Equality.{nat_beq}
use tci.Models.Enums.Types.{
  DefaultRefType, EventProcessingStatus, ProcessingDecision, ProviderEventIdempotencySource,
  ProviderEventType, RefType, RepositoryConnectionStatus, RepositoryProvider, RepositoryTransport,
  SignatureStatus, SnapshotInclusionReason, SyncRunStatus, WebhookSecretRevisionStatus,
  CredentialType, CredentialRevisionStatus,
}

abbrev pub provider_ordinal : RepositoryProvider → ℕ
provider_ordinal RepositoryProvider.github_cloud = 0
provider_ordinal RepositoryProvider.gitlab_self_managed = 1

abbrev pub provider_beq : RepositoryProvider → RepositoryProvider → Bool
provider_beq a b = nat_beq (provider_ordinal a) (provider_ordinal b)

pub provider_beq_iff : (a b : RepositoryProvider) → (provider_beq a b ≡ true) ↔ (a ≡ b)
provider_beq_iff RepositoryProvider.github_cloud b = ground arith
provider_beq_iff RepositoryProvider.gitlab_self_managed b = ground arith

instance abbrev pub provider_eq : EqTest RepositoryProvider
provider_eq = record { test = provider_beq; test_iff = provider_beq_iff }

abbrev pub transport_ordinal : RepositoryTransport → ℕ
transport_ordinal RepositoryTransport.ssh = 0
transport_ordinal RepositoryTransport.https = 1
transport_ordinal RepositoryTransport.http = 2

abbrev pub transport_beq : RepositoryTransport → RepositoryTransport → Bool
transport_beq a b = nat_beq (transport_ordinal a) (transport_ordinal b)

pub transport_beq_iff : (a b : RepositoryTransport) → (transport_beq a b ≡ true) ↔ (a ≡ b)
transport_beq_iff RepositoryTransport.ssh b = ground arith
transport_beq_iff RepositoryTransport.https b = ground arith
transport_beq_iff RepositoryTransport.http b = ground arith

instance abbrev pub transport_eq : EqTest RepositoryTransport
transport_eq = record { test = transport_beq; test_iff = transport_beq_iff }

abbrev pub ref_type_ordinal : RefType → ℕ
ref_type_ordinal RefType.branch = 0
ref_type_ordinal RefType.tag = 1
ref_type_ordinal RefType.pull_request_branch = 2

abbrev pub ref_type_beq : RefType → RefType → Bool
ref_type_beq a b = nat_beq (ref_type_ordinal a) (ref_type_ordinal b)

pub ref_type_beq_iff : (a b : RefType) → (ref_type_beq a b ≡ true) ↔ (a ≡ b)
ref_type_beq_iff RefType.branch b = ground arith
ref_type_beq_iff RefType.tag b = ground arith
ref_type_beq_iff RefType.pull_request_branch b = ground arith

instance abbrev pub ref_type_eq : EqTest RefType
ref_type_eq = record { test = ref_type_beq; test_iff = ref_type_beq_iff }

abbrev pub default_ref_type_ordinal : DefaultRefType → ℕ
default_ref_type_ordinal DefaultRefType.branch = 0
default_ref_type_ordinal DefaultRefType.tag = 1

abbrev pub default_ref_type_beq : DefaultRefType → DefaultRefType → Bool
default_ref_type_beq a b = nat_beq (default_ref_type_ordinal a) (default_ref_type_ordinal b)

pub default_ref_type_beq_iff : (a b : DefaultRefType) → (default_ref_type_beq a b ≡ true) ↔ (a ≡ b)
default_ref_type_beq_iff DefaultRefType.branch b = ground arith
default_ref_type_beq_iff DefaultRefType.tag b = ground arith

instance abbrev pub default_ref_type_eq : EqTest DefaultRefType
default_ref_type_eq = record { test = default_ref_type_beq; test_iff = default_ref_type_beq_iff }

abbrev pub connection_status_ordinal : RepositoryConnectionStatus → ℕ
connection_status_ordinal RepositoryConnectionStatus.active = 0
connection_status_ordinal RepositoryConnectionStatus.reauth_required = 1
connection_status_ordinal RepositoryConnectionStatus.ref_missing = 2

abbrev pub connection_status_beq : RepositoryConnectionStatus → RepositoryConnectionStatus → Bool
connection_status_beq a b = nat_beq (connection_status_ordinal a) (connection_status_ordinal b)

pub connection_status_beq_iff :
    (a b : RepositoryConnectionStatus) → (connection_status_beq a b ≡ true) ↔ (a ≡ b)
connection_status_beq_iff RepositoryConnectionStatus.active b = ground arith
connection_status_beq_iff RepositoryConnectionStatus.reauth_required b = ground arith
connection_status_beq_iff RepositoryConnectionStatus.ref_missing b = ground arith

instance abbrev pub connection_status_eq : EqTest RepositoryConnectionStatus
connection_status_eq = record { test = connection_status_beq; test_iff = connection_status_beq_iff }

abbrev pub secret_status_ordinal : WebhookSecretRevisionStatus → ℕ
secret_status_ordinal WebhookSecretRevisionStatus.active = 0
secret_status_ordinal WebhookSecretRevisionStatus.previous_grace = 1
secret_status_ordinal WebhookSecretRevisionStatus.revoked = 2

abbrev pub secret_status_beq : WebhookSecretRevisionStatus → WebhookSecretRevisionStatus → Bool
secret_status_beq a b = nat_beq (secret_status_ordinal a) (secret_status_ordinal b)

pub secret_status_beq_iff :
    (a b : WebhookSecretRevisionStatus) → (secret_status_beq a b ≡ true) ↔ (a ≡ b)
secret_status_beq_iff WebhookSecretRevisionStatus.active b = ground arith
secret_status_beq_iff WebhookSecretRevisionStatus.previous_grace b = ground arith
secret_status_beq_iff WebhookSecretRevisionStatus.revoked b = ground arith

instance abbrev pub secret_status_eq : EqTest WebhookSecretRevisionStatus
secret_status_eq = record { test = secret_status_beq; test_iff = secret_status_beq_iff }

abbrev pub sync_run_status_ordinal : SyncRunStatus → ℕ
sync_run_status_ordinal SyncRunStatus.pending = 0
sync_run_status_ordinal SyncRunStatus.running = 1
sync_run_status_ordinal SyncRunStatus.succeeded = 2
sync_run_status_ordinal SyncRunStatus.failed = 3
sync_run_status_ordinal SyncRunStatus.blocked = 4

abbrev pub sync_run_status_beq : SyncRunStatus → SyncRunStatus → Bool
sync_run_status_beq a b = nat_beq (sync_run_status_ordinal a) (sync_run_status_ordinal b)

pub sync_run_status_beq_iff : (a b : SyncRunStatus) → (sync_run_status_beq a b ≡ true) ↔ (a ≡ b)
sync_run_status_beq_iff SyncRunStatus.pending b = ground arith
sync_run_status_beq_iff SyncRunStatus.running b = ground arith
sync_run_status_beq_iff SyncRunStatus.succeeded b = ground arith
sync_run_status_beq_iff SyncRunStatus.failed b = ground arith
sync_run_status_beq_iff SyncRunStatus.blocked b = ground arith

instance abbrev pub sync_run_status_eq : EqTest SyncRunStatus
sync_run_status_eq = record { test = sync_run_status_beq; test_iff = sync_run_status_beq_iff }

abbrev pub provider_event_type_ordinal : ProviderEventType → ℕ
provider_event_type_ordinal ProviderEventType.push = 0
provider_event_type_ordinal ProviderEventType.pull_request = 1
provider_event_type_ordinal ProviderEventType.merge_request = 2
provider_event_type_ordinal ProviderEventType.ping = 3
provider_event_type_ordinal ProviderEventType.unknown = 4

abbrev pub provider_event_type_beq : ProviderEventType → ProviderEventType → Bool
provider_event_type_beq a b =
    nat_beq (provider_event_type_ordinal a) (provider_event_type_ordinal b)

pub provider_event_type_beq_iff :
    (a b : ProviderEventType) → (provider_event_type_beq a b ≡ true) ↔ (a ≡ b)
provider_event_type_beq_iff ProviderEventType.push b = ground arith
provider_event_type_beq_iff ProviderEventType.pull_request b = ground arith
provider_event_type_beq_iff ProviderEventType.merge_request b = ground arith
provider_event_type_beq_iff ProviderEventType.ping b = ground arith
provider_event_type_beq_iff ProviderEventType.unknown b = ground arith

instance abbrev pub provider_event_type_eq : EqTest ProviderEventType
provider_event_type_eq = record {
  test = provider_event_type_beq;
  test_iff = provider_event_type_beq_iff;
}

abbrev pub idempotency_source_ordinal : ProviderEventIdempotencySource → ℕ
idempotency_source_ordinal ProviderEventIdempotencySource.delivery_header = 0
idempotency_source_ordinal ProviderEventIdempotencySource.uuid_header = 1
idempotency_source_ordinal ProviderEventIdempotencySource.derived_hash = 2

abbrev pub idempotency_source_beq :
    ProviderEventIdempotencySource → ProviderEventIdempotencySource → Bool
idempotency_source_beq a b = nat_beq (idempotency_source_ordinal a) (idempotency_source_ordinal b)

pub idempotency_source_beq_iff :
    (a b : ProviderEventIdempotencySource) → (idempotency_source_beq a b ≡ true) ↔ (a ≡ b)
idempotency_source_beq_iff ProviderEventIdempotencySource.delivery_header b = ground arith
idempotency_source_beq_iff ProviderEventIdempotencySource.uuid_header b = ground arith
idempotency_source_beq_iff ProviderEventIdempotencySource.derived_hash b = ground arith

instance abbrev pub idempotency_source_eq : EqTest ProviderEventIdempotencySource
idempotency_source_eq = record {
  test = idempotency_source_beq;
  test_iff = idempotency_source_beq_iff;
}

abbrev pub signature_status_ordinal : SignatureStatus → ℕ
signature_status_ordinal SignatureStatus.verified = 0
signature_status_ordinal SignatureStatus.secret_missing = 1
signature_status_ordinal SignatureStatus.secret_mismatch = 2
signature_status_ordinal SignatureStatus.signature_invalid = 3

abbrev pub signature_status_beq : SignatureStatus → SignatureStatus → Bool
signature_status_beq a b = nat_beq (signature_status_ordinal a) (signature_status_ordinal b)

pub signature_status_beq_iff : (a b : SignatureStatus) → (signature_status_beq a b ≡ true) ↔ (a ≡ b)
signature_status_beq_iff SignatureStatus.verified b = ground arith
signature_status_beq_iff SignatureStatus.secret_missing b = ground arith
signature_status_beq_iff SignatureStatus.secret_mismatch b = ground arith
signature_status_beq_iff SignatureStatus.signature_invalid b = ground arith

instance abbrev pub signature_status_eq : EqTest SignatureStatus
signature_status_eq = record { test = signature_status_beq; test_iff = signature_status_beq_iff }

abbrev pub processing_decision_ordinal : ProcessingDecision → ℕ
processing_decision_ordinal ProcessingDecision.record_only = 0
processing_decision_ordinal ProcessingDecision.queued = 1
processing_decision_ordinal ProcessingDecision.duplicate_delivery = 2
processing_decision_ordinal ProcessingDecision.duplicate_head = 3
processing_decision_ordinal ProcessingDecision.stale_head = 4
processing_decision_ordinal ProcessingDecision.rejected = 5

abbrev pub processing_decision_beq : ProcessingDecision → ProcessingDecision → Bool
processing_decision_beq a b =
    nat_beq (processing_decision_ordinal a) (processing_decision_ordinal b)

pub processing_decision_beq_iff :
    (a b : ProcessingDecision) → (processing_decision_beq a b ≡ true) ↔ (a ≡ b)
processing_decision_beq_iff ProcessingDecision.record_only b = ground arith
processing_decision_beq_iff ProcessingDecision.queued b = ground arith
processing_decision_beq_iff ProcessingDecision.duplicate_delivery b = ground arith
processing_decision_beq_iff ProcessingDecision.duplicate_head b = ground arith
processing_decision_beq_iff ProcessingDecision.stale_head b = ground arith
processing_decision_beq_iff ProcessingDecision.rejected b = ground arith

instance abbrev pub processing_decision_eq : EqTest ProcessingDecision
processing_decision_eq = record {
  test = processing_decision_beq;
  test_iff = processing_decision_beq_iff;
}

abbrev pub processing_status_ordinal : EventProcessingStatus → ℕ
processing_status_ordinal EventProcessingStatus.received = 0
processing_status_ordinal EventProcessingStatus.validated = 1
processing_status_ordinal EventProcessingStatus.queued = 2
processing_status_ordinal EventProcessingStatus.completed = 3
processing_status_ordinal EventProcessingStatus.failed = 4
processing_status_ordinal EventProcessingStatus.rejected = 5

abbrev pub processing_status_beq : EventProcessingStatus → EventProcessingStatus → Bool
processing_status_beq a b = nat_beq (processing_status_ordinal a) (processing_status_ordinal b)

pub processing_status_beq_iff :
    (a b : EventProcessingStatus) → (processing_status_beq a b ≡ true) ↔ (a ≡ b)
processing_status_beq_iff EventProcessingStatus.received b = ground arith
processing_status_beq_iff EventProcessingStatus.validated b = ground arith
processing_status_beq_iff EventProcessingStatus.queued b = ground arith
processing_status_beq_iff EventProcessingStatus.completed b = ground arith
processing_status_beq_iff EventProcessingStatus.failed b = ground arith
processing_status_beq_iff EventProcessingStatus.rejected b = ground arith

instance abbrev pub processing_status_eq : EqTest EventProcessingStatus
processing_status_eq = record { test = processing_status_beq; test_iff = processing_status_beq_iff }

abbrev pub inclusion_reason_ordinal : SnapshotInclusionReason → ℕ
inclusion_reason_ordinal SnapshotInclusionReason.default_policy = 0
inclusion_reason_ordinal SnapshotInclusionReason.user_include = 1
inclusion_reason_ordinal SnapshotInclusionReason.pr_source_snapshot = 2

abbrev pub inclusion_reason_beq : SnapshotInclusionReason → SnapshotInclusionReason → Bool
inclusion_reason_beq a b = nat_beq (inclusion_reason_ordinal a) (inclusion_reason_ordinal b)

pub inclusion_reason_beq_iff :
    (a b : SnapshotInclusionReason) → (inclusion_reason_beq a b ≡ true) ↔ (a ≡ b)
inclusion_reason_beq_iff SnapshotInclusionReason.default_policy b = ground arith
inclusion_reason_beq_iff SnapshotInclusionReason.user_include b = ground arith
inclusion_reason_beq_iff SnapshotInclusionReason.pr_source_snapshot b = ground arith

instance abbrev pub inclusion_reason_eq : EqTest SnapshotInclusionReason
inclusion_reason_eq = record { test = inclusion_reason_beq; test_iff = inclusion_reason_beq_iff }

abbrev pub credential_type_ordinal : CredentialType → ℕ
credential_type_ordinal CredentialType.ssh_private_key = 0
credential_type_ordinal CredentialType.https_pat = 1

abbrev pub credential_type_beq : CredentialType → CredentialType → Bool
credential_type_beq a b = nat_beq (credential_type_ordinal a) (credential_type_ordinal b)

pub credential_type_beq_iff : (a b : CredentialType) → (credential_type_beq a b ≡ true) ↔ (a ≡ b)
credential_type_beq_iff CredentialType.ssh_private_key b = ground arith
credential_type_beq_iff CredentialType.https_pat b = ground arith

instance abbrev pub credential_type_eq : EqTest CredentialType
credential_type_eq = record { test = credential_type_beq; test_iff = credential_type_beq_iff }

abbrev pub credential_status_ordinal : CredentialRevisionStatus → ℕ
credential_status_ordinal CredentialRevisionStatus.active = 0
credential_status_ordinal CredentialRevisionStatus.previous_grace = 1
credential_status_ordinal CredentialRevisionStatus.revoked = 2

abbrev pub credential_status_beq : CredentialRevisionStatus → CredentialRevisionStatus → Bool
credential_status_beq a b = nat_beq (credential_status_ordinal a) (credential_status_ordinal b)

pub credential_status_beq_iff :
    (a b : CredentialRevisionStatus) → (credential_status_beq a b ≡ true) ↔ (a ≡ b)
credential_status_beq_iff CredentialRevisionStatus.active b = ground arith
credential_status_beq_iff CredentialRevisionStatus.previous_grace b = ground arith
credential_status_beq_iff CredentialRevisionStatus.revoked b = ground arith

instance abbrev pub credential_status_eq : EqTest CredentialRevisionStatus
credential_status_eq = record { test = credential_status_beq; test_iff = credential_status_beq_iff }
