-- ===== src/Tests/DefaultRefs.antt =====
-- Changes of a default ref.
use tci.Prelude.{◌≡◌, refl, some}
use tci.Models.Enums.Types.{DefaultRefType, RepositoryConnectionStatus}
use tci.Models.Rows.{RepositoryConnection}
use tci.Session.{ok}
use tci.Persistence.Table.{update_where}
use tci.Services.UpdateDefaultRef.{UpdateDefaultRefCommand, RefCheck, change_default_ref}
use tci.Services.UpdateDefaultRef.Laws.{HasVerifiedRef, changed-HasVerifiedRef}
use tci.Tests.{app, platform}
use tci.Tests.Snapshots.{to_build}

abbrev to_release : UpdateDefaultRefCommand
to_release = record {
  workspace_id = 2;
  connection_id = 1;
  default_ref_type = "tag";
  default_ref_name = "v1";
}

abbrev check : RefCheck
check = record {
  ensure_host_allowed = λ context. ok tt;
  start_agent = λ transport secret. ok tt;
  resolve = λ url ref_type name. ok "c0ffee";
  missing_at = 300;
  failed_at = 301;
  verified_at = 302;
}

abbrev changed : RepositoryConnection
changed = record app {
  default_ref_type = DefaultRefType.tag;
  default_ref_name = "v1";
  status = RepositoryConnectionStatus.active;
  last_verified_at = some 302;
}

changes : (change_default_ref platform check to_release to_build).0 ≡ ok changed
unfolding change_default_ref update_where
changes = refl

changed-HasVerifiedRef_example : HasVerifiedRef check to_release changed
changed-HasVerifiedRef_example =
    changed-HasVerifiedRef platform check to_release to_build changed changes
