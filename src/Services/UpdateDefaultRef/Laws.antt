-- ===== src/Services/UpdateDefaultRef/Laws.antt =====
-- When a default ref is changed, and what a missing credential leaves.
use tci.Prelude.{◌≡◌, refl, true, some, find?, nat_eq, String, Option-cases, inl, inr}
use tci.Models.Enums.Types.{DefaultRefType, RepositoryConnectionStatus}
use tci.Models.Rows.{Uuid, RepositoryConnection}
use tci.Session.{Session, Database, Result, ok, Error, raise, lift, catch, ◌>>=◌}
use tci.Session.Rules.{Ends, Ends-bind, Ends-then, Ends-catch, Ends-scope, Ends-raise}
use tci.Prelude.Lists.{find?_sound}
use tci.Persistence.Table.{update_where, find?-update}
use tci.Persistence.Connections.{
  is_owned, get_owned, require_owned, write_connections, set_owned, update_default_ref,
}
use tci.Services.Platform.{Platform}
use tci.Services.Platform.{decrypt_secret_from_storage}
use tci.Services.Snapshot.Found.{Anywhere}
use tci.Services.Credential.{parse_default_ref_type, bind_git_credential}
use tci.Services.UpdateDefaultRef.{
  UpdateDefaultRefCommand, ConnectionContext, RefCheck, load_connection_context, change_default_ref,
  change_to, change_with, check_ref, refuse_ref, note_status, write_ref,
  map_ref_update_failure_to_status,
}

-- What `set_owned` answers is a changed row, where the change keeps the row's owner.
set_owned-answer :
    (w c : Uuid) (change : RepositoryConnection → RepositoryConnection)
    → ((r : RepositoryConnection) → is_owned w c (change r) ≡ is_owned w c r)
    → (db : Database) (a : RepositoryConnection) → (set_owned w c change db).0 ≡ ok a
    → (old : RepositoryConnection) × (a ≡ change old)
unfolding set_owned require_owned get_owned write_connections
set_owned-answer w c change keep db a = elim (Option-cases (find? (is_owned w c) db.connections)) [
  | inl missing ↦ rw missing (λ e. cc)
  | inr (old, seen) ↦
      let hit : is_owned w c old ≡ true = find?_sound (is_owned w c) db.connections old seen in
      let after : find? (is_owned w c) (update_where (is_owned w c) change db.connections)
          ≡ some (change old) =
        rw (find?-update (is_owned w c) (is_owned w c) change db.connections keep, seen, hit)
          refl in
      rw (seen, after) (λ e. (old, cc))
]

module _ (p : Platform) (check : RefCheck) (command : UpdateDefaultRefCommand) where
  -- What the session of a connection without an active credential sees before it is rolled back.
  abbrev pub needs_credential : RepositoryConnection → RepositoryConnection
  needs_credential r = record r {
    status = RepositoryConnectionStatus.reauth_required;
    last_verified_at = some check.missing_at;
  }

-- A check of a ref that has gone through: what git says the ref of a remote is at.
abbrev pub IsResolved : RefCheck → DefaultRefType → String → Type 0
IsResolved check ref_type ref_name =
    (url : String) × (sha : String) × (check.resolve url ref_type ref_name ≡ ok sha)

-- A connection with the ref that was asked for, which has been checked.
abbrev pub HasVerifiedRef : RefCheck → UpdateDefaultRefCommand → RepositoryConnection → Type 0
HasVerifiedRef check command c =
    IsResolved check c.default_ref_type command.default_ref_name
    × (parse_default_ref_type command.default_ref_type ≡ ok c.default_ref_type)
    × (c.default_ref_name ≡ command.default_ref_name)
    × (c.status ≡ RepositoryConnectionStatus.active)

module _ (p : Platform) (check : RefCheck) (command : UpdateDefaultRefCommand) where
  Ends-lift : {A : Type 0} (r : Result A) → Ends Anywhere (λ a db. r ≡ ok a) (lift r)
  Ends-lift r db h a e = e

  Ends-check_ref :
      (t : DefaultRefType) (context : ConnectionContext)
      → Ends Anywhere
          (λ sha db. IsResolved check t command.default_ref_name)
          (check_ref p check command t context)
  Ends-check_ref t context =
      Ends-bind Anywhere Q (lift (check.ensure_host_allowed context)) (λ _. with_secret)
        (λ db h. tt)
        λ _.
          Ends-bind Anywhere Q (lift (decrypt_secret_from_storage p context.encrypted_secret))
            with_url (λ db h. tt)
            λ secret.
              Ends-bind Anywhere Q (bound secret) resolves (λ db h. tt)
                (λ url db h sha e. (url, sha, e))
    where
      Q : String → Database → Type 0
      Q sha db = IsResolved check t command.default_ref_name

      bound : String → Session String
      bound secret =
          bind_git_credential check.start_agent context.transport context.remote_url
            context.credential_type secret

      resolves : String → Session String
      resolves url = lift (check.resolve url t command.default_ref_name)

      with_url : String → Session String
      with_url secret = bound secret >>= resolves

      with_secret : Session String
      with_secret = lift (decrypt_secret_from_storage p context.encrypted_secret) >>= with_url

  Ends-write_ref :
      (t : DefaultRefType)
      → parse_default_ref_type command.default_ref_type ≡ ok t
      → Ends
          (λ db. IsResolved check t command.default_ref_name)
          (λ c db. HasVerifiedRef check command c)
          (write_ref p check command t)
  unfolding update_default_ref
  Ends-write_ref t parsed =
      Ends-scope (λ db. IsResolved check t command.default_ref_name)
        (λ c db. HasVerifiedRef check command c)
        (update_default_ref command.workspace_id command.connection_id t command.default_ref_name
          RepositoryConnectionStatus.active check.verified_at)
        λ db resolved c e.
          let (old, same) =
            set_owned-answer command.workspace_id command.connection_id _ (λ r. refl) db c e in
          rw same (resolved, parsed, refl, refl)

  Ends-change_with :
      (t : DefaultRefType)
      → parse_default_ref_type command.default_ref_type ≡ ok t
      → (context : ConnectionContext)
      → Ends Anywhere
          (λ c db. HasVerifiedRef check command c)
          (change_with p check command t context)
  Ends-change_with t parsed context =
      Ends-then Anywhere (λ sha db. IsResolved check t command.default_ref_name)
        (λ c db. HasVerifiedRef check command c)
        (catch (check_ref p check command t context) (refuse_ref p check command))
        (λ _. write_ref p check command t)
        (Ends-catch Anywhere (λ sha db. IsResolved check t command.default_ref_name)
          (check_ref p check command t context) (refuse_ref p check command) (λ db h. tt)
          (Ends-check_ref t context) refuses)
        (λ sha. Ends-write_ref t parsed)
    where
      refuses :
          (x : Error)
          → Ends Anywhere
              (λ sha db. IsResolved check t command.default_ref_name)
              (refuse_ref p check command x)
      refuses x =
          Ends-bind Anywhere (λ sha db. IsResolved check t command.default_ref_name)
            (note_status p check command (map_ref_update_failure_to_status x)) (λ _. raise _)
            (λ db h. tt)
            (λ _. Ends-raise Anywhere (λ sha db. IsResolved check t command.default_ref_name) _)

  -- Where a default ref is changed, the connection that is answered is active and has the ref that
  -- was asked for, and git has resolved just that ref of a remote before.
  pub changed-HasVerifiedRef :
      (db : Database) (c : RepositoryConnection)
      → (change_default_ref p check command db).0 ≡ ok c
      → HasVerifiedRef check command c
  unfolding change_default_ref
  changed-HasVerifiedRef db c =
      Ends-then Anywhere (λ t db. parse_default_ref_type command.default_ref_type ≡ ok t)
        (λ c db. HasVerifiedRef check command c)
        (lift (parse_default_ref_type command.default_ref_type)) (change_to p check command)
        (Ends-lift (parse_default_ref_type command.default_ref_type))
        (λ t db parsed c e.
          Ends-bind Anywhere (λ c db. HasVerifiedRef check command c)
            (load_connection_context p check command) (change_with p check command t) (λ db h. tt)
            (Ends-change_with t parsed) db tt c e)
        db tt c
