-- ===== src/Curd/Install.antt =====
-- InstallPlugin: internal/types/models/curd/atomic.go.
use dify_plugin_daemon.Common.{
  ℕ, Bool, ◌&&◌, Option, none, some, List, [], ◌∷◌, ◌++◌, if◌then◌else◌,
}
use dify_plugin_daemon.Curd.Database.{
  Text, same, plugin_id_of, pos, increment, PluginRuntimeType, is_remote, unset, PluginDeclaration,
  Plugin, PluginInstallation, Part, Database, put, find_row,
}
use dify_plugin_daemon.Curd.Access.{
  database_error, not_found, plugin_already_installed, Faults, Step, done, failed, Tx, ◌>>=◌, ◌>>◌,
  pure, raise, access, query, modify, create_part, Result, ok, err, Outcome, with_transaction,
  CacheKey, plugin_installation, model_installations, Report,
}

abbrev pub remote_copy : PluginRuntimeType → PluginDeclaration → Option PluginDeclaration
remote_copy install_type declaration = if is_remote install_type then some declaration else none

-- The row of the plugin before its first installation.
abbrev pub new_plugin : Text → PluginRuntimeType → PluginDeclaration → Text → Plugin
new_plugin identifier install_type declaration source = record {
  unique_identifier = identifier;
  plugin_id = plugin_id_of identifier;
  refers = pos 0;
  install_type = install_type;
  manifest_type = unset;
  remote_declaration = remote_copy install_type declaration;
  source = source;
}

abbrev pub or_else : {A : Type 0} → Option A → A → Option A
or_else none row = some row
or_else (some old) row = some old

-- Create with OnConflict DoNothing.
unfoldable pub create_plugin_if_missing : Text → Plugin → Tx Unit
unfolding put access
create_plugin_if_missing identifier row =
    modify (λ db. record db {
      plugins = put identifier (or_else (db.plugins identifier) row) db.plugins;
    })

-- ensurePluginDeclaration
unfoldable pub ensure_plugin_declaration : Text → PluginRuntimeType → PluginDeclaration → Tx Unit
unfolding put access
ensure_plugin_declaration identifier install_type declaration =
    if is_remote install_type
    then pure tt
    else modify (λ db. record db {
      declarations =
          put identifier (or_else (db.declarations identifier) declaration) db.declarations;
    })

abbrev pub is_installed_by : Text → Text → ℕ → PluginInstallation → Bool
is_installed_by plugin tenant k r = same r.plugin_id plugin && same r.tenant_id tenant

-- GetOne of an installation.
unfoldable pub get_installation :
    (ℕ → PluginInstallation → Bool) → Tx (Option (ℕ × PluginInstallation))
unfolding find_row access
get_installation test = query (λ db. find_row test 0 db.installations)

-- GetOne of a plugin by its plugin_unique_identifier.
unfoldable pub get_plugin : Text → Tx (Option Plugin)
unfolding access
get_plugin identifier = query (λ db. db.plugins identifier)

-- Update of a plugin that GetOne returned for this plugin_unique_identifier.
unfoldable pub update_plugin : Text → Plugin → Tx Unit
unfolding put access
update_plugin identifier row =
    modify (λ db. record db { plugins = put identifier (some row) db.plugins })

abbrev pub required : {A : Type 0} → Option A → Tx A
required none = raise not_found
required (some a) = pure a

abbrev pub refuse_installed : Option (ℕ × PluginInstallation) → Tx Unit
refuse_installed none = pure tt
refuse_installed (some r) = raise plugin_already_installed

-- Create of an installation, which a unique index on the tenant and the plugin_id guards.
unfoldable pub create_installation : PluginInstallation → Tx Unit
unfolding get_installation access
create_installation row db fs =
    elim (find_row (is_installed_by row.plugin_id row.tenant_id) 0 db.installations) [
      | none ↦ modify (λ db. record db { installations = db.installations ++ some row ∷ [] }) db fs
      | some r ↦ failed database_error fs
    ]

-- Create of the row of a part, for a provider that the declaration names.
unfoldable pub create_declared : Part → Text → Text → Text → Option Text → Tx Unit
unfolding create_part
create_declared part plugin identifier tenant none = pure tt
create_declared part plugin identifier tenant (some provider) = create_part (record {
  part = part;
  plugin_id = plugin;
  unique_identifier = identifier;
  tenant_id = tenant;
  provider = provider;
})

-- The rows of all parts.
unfoldable pub create_parts : Plugin → Text → PluginDeclaration → Tx Unit
unfolding create_declared
create_parts p tenant declaration = do
  create_declared Part.tool p.plugin_id p.unique_identifier tenant declaration.tool
  create_declared Part.agent_strategy p.plugin_id p.unique_identifier tenant
      declaration.agent_strategy
  create_declared Part.model p.plugin_id p.unique_identifier tenant declaration.model
  create_declared Part.datasource p.plugin_id p.unique_identifier tenant declaration.datasource
  create_declared Part.trigger p.plugin_id p.unique_identifier tenant declaration.trigger

abbrev pub new_installation : Plugin → Text → PluginRuntimeType → Text → Text → PluginInstallation
new_installation p tenant install_type source meta = record {
  tenant_id = tenant;
  plugin_id = p.plugin_id;
  unique_identifier = p.unique_identifier;
  runtime_type = install_type;
  endpoints_setups = 0;
  endpoints_active = 0;
  source = source;
  meta = meta;
}

unfoldable pub refer : Plugin → Plugin
unfolding increment
refer p = record p { refers = increment p.refers }

-- The transaction of InstallPlugin.
unfoldable pub install_in :
    Text
    → Text
    → PluginRuntimeType
    → PluginDeclaration
    → Text
    → Text
    → Tx (Plugin × PluginInstallation)
unfolding refer create_plugin_if_missing get_plugin get_installation ensure_plugin_declaration
    update_plugin create_installation create_parts
install_in tenant identifier install_type declaration source meta = do
  create_plugin_if_missing identifier (new_plugin identifier install_type declaration source)
  row ← get_plugin identifier
  p ← required row
  installed ← get_installation (is_installed_by p.plugin_id tenant)
  refuse_installed installed
  ensure_plugin_declaration identifier install_type declaration
  update_plugin identifier (refer p)
  create_installation (new_installation (refer p) tenant install_type source meta)
  create_parts (refer p) tenant declaration
  pure (refer p, new_installation (refer p) tenant install_type source meta)

-- The deferred DeleteModelInstallationsCache.
abbrev pub deferred : Option Text → Text → List CacheKey
deferred none tenant = []
deferred (some provider) tenant = model_installations tenant ∷ []

-- The cache key that InstallPlugin drops before it returns.
abbrev pub cleared_by_install : Text → Result (Plugin × PluginInstallation) → List CacheKey
cleared_by_install tenant (ok (p, i)) = plugin_installation p.plugin_id tenant ∷ []
cleared_by_install tenant (err e) = []

-- What InstallPlugin does once the search for an installation has ended.
unfoldable pub install_found :
    Text
    → Text
    → PluginRuntimeType
    → PluginDeclaration
    → Text
    → Text
    → Database
    → Step (Option (ℕ × PluginInstallation))
    → Outcome (Plugin × PluginInstallation)
unfolding with_transaction install_in
install_found tenant identifier install_type declaration source meta db (failed e fs) = record {
  result = err e;
  database = db;
  faults = fs;
}
install_found tenant identifier install_type declaration source meta db (done (some r) db' fs) =
    record { result = err plugin_already_installed; database = db'; faults = fs }
install_found tenant identifier install_type declaration source meta db (done none db' fs) =
    with_transaction (install_in tenant identifier install_type declaration source meta) db' fs

-- InstallPlugin
unfoldable pub install_plugin :
    Text
    → Text
    → PluginRuntimeType
    → PluginDeclaration
    → Text
    → Text
    → Database
    → Faults
    → Report (Plugin × PluginInstallation)
unfolding install_found get_installation plugin_id_of
install_plugin tenant identifier install_type declaration source meta db fs =
    let found = get_installation (is_installed_by (plugin_id_of identifier) tenant) db fs in
    let end = install_found tenant identifier install_type declaration source meta db found in
    record {
      outcome = end;
      cleared = cleared_by_install tenant end.result ++ deferred declaration.model tenant;
    }
