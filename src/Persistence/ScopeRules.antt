-- ===== src/Persistence/ScopeRules.antt =====
-- `ensure_default_scope_rule_version` of repository_connection_repository.py, with the primary key of
-- the table of scope rules. The id that the column's default draws is an argument.
use tci.Prelude.{Bool, true, Option, none, some, [], ◌∷◌, find?, if◌then◌else◌, ◌==◌, nat_eq}
use tci.Models.Enums.Types.{ScopeRuleWarningState}
use tci.Models.Rows.{Uuid, RepositoryConnection, CollectionScopeRuleVersion}
use tci.Session.{Session, ok, err, pure, raise, require, ◌>>=◌, ◌>>◌, lookup_error, integrity_error}
use tci.Persistence.Table.{no_clash}
use tci.Persistence.Connections.{is_owned, get_owned, write_connections}

unfoldable pub scope_rule_clash : CollectionScopeRuleVersion → CollectionScopeRuleVersion → Bool
scope_rule_clash a b = a.id == b.id

unfoldable pub create_scope_rule : CollectionScopeRuleVersion → Session CollectionScopeRuleVersion
create_scope_rule rule db =
    if no_clash scope_rule_clash (rule ∷ db.scope_rules)
    then (ok rule, record db { scope_rules = rule ∷ db.scope_rules })
    else (err integrity_error, db)

abbrev pub is_scope_rule : Uuid → CollectionScopeRuleVersion → Bool
is_scope_rule id r = r.id == id

unfoldable pub find_scope_rule : Uuid → Session (Option CollectionScopeRuleVersion)
find_scope_rule id db = (ok (find? (is_scope_rule id) db.scope_rules), db)

module _ (scope_uuid workspace_id connection_id created_by : Uuid) where
  abbrev pub default_scope_rule : RepositoryConnection → CollectionScopeRuleVersion
  default_scope_rule connection = record {
    id = scope_uuid;
    connection_id = connection.id;
    planning_input_reference_id = connection.planning_input_reference_id;
    include_paths = [];
    exclude_paths = [];
    allowed_file_types = [];
    blocked_file_types = [];
    max_file_size_bytes = 5242880;
    exclude_binary = true;
    is_auto_default = true;
    warning_state = ScopeRuleWarningState.ok;
    created_by = created_by;
  }

  abbrev pub add_default_scope_rule : RepositoryConnection → Session CollectionScopeRuleVersion
  add_default_scope_rule connection = do
    scope_rule ← create_scope_rule (default_scope_rule connection)
    write_connections (is_owned workspace_id connection_id)
        (λ r. record r { active_scope_rule_version_id = some scope_rule.id })
    pure scope_rule

  abbrev pub active_scope_rule :
      RepositoryConnection → Option Uuid → Session CollectionScopeRuleVersion
  active_scope_rule connection none = add_default_scope_rule connection
  active_scope_rule connection (some id) = do
    scope_rule ← find_scope_rule id
    require lookup_error scope_rule

  abbrev pub scope_rule_of : Option RepositoryConnection → Session CollectionScopeRuleVersion
  scope_rule_of none = raise lookup_error
  scope_rule_of (some connection) =
      active_scope_rule connection connection.active_scope_rule_version_id

  unfoldable pub ensure_default_scope_rule_version : Session CollectionScopeRuleVersion
  unfolding get_owned create_scope_rule write_connections find_scope_rule
  ensure_default_scope_rule_version = do
    connection ← get_owned workspace_id connection_id
    scope_rule_of connection
