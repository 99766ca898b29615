-- ===== src/Services/UpdateDefaultRef.antt =====
-- domain/services/update_default_ref.py, with a session factory. The host check, the agent and git are
-- parameters, as are the readings of the clock.
pub mod Laws
use tci.Prelude.{Option, none, some, String}
use tci.Models.Enums.Types.{
  RepositoryProvider, RepositoryTransport, DefaultRefType, CredentialType,
  RepositoryConnectionStatus,
}
use tci.Models.Rows.{Uuid, Instant, RepositoryConnection, RepositoryCredentialRevision}
use tci.Session.{
  Session, Error, ProblemCode, pure, raise, require, lift, catch, session_scope, ◌>>=◌, ◌>>◌,
  problem, lookup_error, git_auth_error, git_ref_not_found_error,
}
use tci.Persistence.Connections.{get_owned, update_default_ref, update_verification}
use tci.Persistence.Credentials.{get_active_credential}
use tci.Services.Platform.{Platform, decrypt_secret_from_storage}
use tci.Services.Credential.{Outcome, bind_git_credential, parse_default_ref_type}
use tci.Services.Snapshot.Failure.{problem_code}

pub record UpdateDefaultRefCommand : Type 0 where
  pub workspace_id : Uuid
  pub connection_id : Uuid
  pub default_ref_type : String
  pub default_ref_name : String

-- The tuple of `_load_connection_context`.
pub record ConnectionContext : Type 0 where
  pub provider : RepositoryProvider
  pub provider_instance_url : Option String
  pub remote_url : String
  pub transport : RepositoryTransport
  pub credential_type : CredentialType
  pub encrypted_secret : String

-- What the service takes from outside.
pub record RefCheck : Type 0 where
  pub ensure_host_allowed : ConnectionContext → Outcome Unit
  pub start_agent : RepositoryTransport → String → Outcome Unit
  pub resolve : String → DefaultRefType → String → Outcome String
  pub missing_at : Instant
  pub failed_at : Instant
  pub verified_at : Instant

-- `_map_ref_update_failure_to_status`
abbrev pub map_ref_update_failure_to_status : Error → Option RepositoryConnectionStatus
map_ref_update_failure_to_status git_auth_error = some RepositoryConnectionStatus.reauth_required
map_ref_update_failure_to_status git_ref_not_found_error =
    some RepositoryConnectionStatus.ref_missing
map_ref_update_failure_to_status _ = none

-- `problem_code or INVALID_INPUT`, which is the code of a RepositoryConnectionProblem as well.
abbrev pub code_or_invalid : Option ProblemCode → ProblemCode
code_or_invalid none = ProblemCode.invalid_input
code_or_invalid (some code) = code

module _ (p : Platform) (check : RefCheck) (command : UpdateDefaultRefCommand) where
  abbrev pub context_with :
      RepositoryConnection → Option RepositoryCredentialRevision → Session ConnectionContext
  context_with connection none = do
    update_verification command.workspace_id command.connection_id
        RepositoryConnectionStatus.reauth_required check.missing_at
    raise (problem ProblemCode.connection_auth_failed)
  context_with connection (some credential_revision) = pure (record {
    provider = connection.provider;
    provider_instance_url = connection.provider_instance_url;
    remote_url = connection.remote_url;
    transport = connection.transport;
    credential_type = credential_revision.credential_type;
    encrypted_secret = credential_revision.encrypted_secret;
  })

  abbrev pub context_for : Option RepositoryConnection → Session ConnectionContext
  context_for none = raise lookup_error
  context_for (some connection) = do
    credential_revision ← get_active_credential connection.id
    context_with connection credential_revision

  -- The block of the session.
  unfoldable pub load_in_session : Session ConnectionContext
  unfolding get_owned get_active_credential update_verification
  load_in_session = do
    connection ← get_owned command.workspace_id command.connection_id
    context_for connection

  -- `_load_connection_context`
  unfoldable pub load_connection_context : Session ConnectionContext
  unfolding load_in_session session_scope
  load_connection_context = session_scope load_in_session

  -- The body of the try block.
  abbrev pub check_ref : DefaultRefType → ConnectionContext → Session String
  check_ref ref_type context = do
    lift (check.ensure_host_allowed context)
    credential_secret ← lift (decrypt_secret_from_storage p context.encrypted_secret)
    remote_url ←
        bind_git_credential check.start_agent context.transport context.remote_url
          context.credential_type credential_secret
    lift (check.resolve remote_url ref_type command.default_ref_name)

  -- `_update_connection_status`, where there is a status.
  abbrev pub note_status : Option RepositoryConnectionStatus → Session Unit
  note_status none = pure tt
  note_status (some status) = do
    session_scope
        (update_verification command.workspace_id command.connection_id status check.failed_at)
    pure tt

  -- The handler.
  abbrev pub refuse_ref : Error → Session String
  refuse_ref error = do
    note_status (map_ref_update_failure_to_status error)
    raise (problem (code_or_invalid (problem_code error)))

  abbrev pub write_ref : DefaultRefType → Session RepositoryConnection
  write_ref ref_type = session_scope (
      update_default_ref command.workspace_id command.connection_id ref_type
        command.default_ref_name RepositoryConnectionStatus.active check.verified_at)

  abbrev pub change_with : DefaultRefType → ConnectionContext → Session RepositoryConnection
  change_with ref_type context = do
    catch (check_ref ref_type context) refuse_ref
    write_ref ref_type

  abbrev pub change_to : DefaultRefType → Session RepositoryConnection
  change_to ref_type = do context ← load_connection_context; change_with ref_type context

  -- `update_default_ref` of the service.
  unfoldable pub change_default_ref : Session RepositoryConnection
  unfolding load_connection_context update_default_ref update_verification session_scope
      decrypt_secret_from_storage bind_git_credential
  change_default_ref = do
    ref_type ← lift (parse_default_ref_type command.default_ref_type)
    change_to ref_type
