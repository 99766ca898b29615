-- ===== src/Services/Credential.antt =====
-- `bind_git_credential` and `parse_default_ref_type` of domain/services/repository_connection_support.py.
-- The agent or the askpass server that holds the secret while git runs is a parameter.
use tci.Prelude.{not, String, if◌then◌else◌, ◌==◌, string_eq}
use tci.Models.Enums.Types.{RepositoryTransport, CredentialType, DefaultRefType}
use tci.Models.Enums.Equality.{credential_type_eq}
use tci.Session.{Session, Result, ProblemCode, ok, err, pure, raise, lift, ◌>>◌, problem}

abbrev pub Outcome : Type 0 → Type 0
Outcome A = Result A

-- The type of credential that a transport needs.
abbrev pub credential_type_for : RepositoryTransport → CredentialType
credential_type_for RepositoryTransport.ssh = CredentialType.ssh_private_key
credential_type_for RepositoryTransport.https = CredentialType.https_pat
credential_type_for RepositoryTransport.http = CredentialType.https_pat

-- `bind_git_credential`, which yields the URL that it is given.
unfoldable pub bind_git_credential :
    (RepositoryTransport → String → Outcome Unit)
    → RepositoryTransport
    → String
    → CredentialType
    → String
    → Session String
bind_git_credential start_agent transport remote_url credential_type credential_secret =
    if not (credential_type == credential_type_for transport)
    then raise (problem ProblemCode.invalid_input)
    else do lift (start_agent transport credential_secret); pure remote_url

-- `parse_default_ref_type`
abbrev pub parse_default_ref_type : String → Result DefaultRefType
parse_default_ref_type raw_value =
    if raw_value == "branch"
    then ok DefaultRefType.branch
    else if raw_value == "tag"
    then ok DefaultRefType.tag
    else err (problem ProblemCode.invalid_input)
