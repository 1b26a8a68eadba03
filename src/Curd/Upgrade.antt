-- ===== src/Curd/Upgrade.antt =====
-- UpgradePlugin: internal/types/models/curd/atomic.go.
use dify_plugin_daemon.Common.{
  ℕ, Bool, ◌&&◌, Option, none, some, List, [], ◌∷◌, ◌++◌, if◌then◌else◌,
}
use dify_plugin_daemon.Curd.Database.{
  Text, same, plugin_id_of, pos, is_zero, PluginRuntimeType, plugin_type, PluginDeclaration, Plugin,
  PluginInstallation, Part, Database, put, set_row,
}
use dify_plugin_daemon.Curd.Access.{
  not_been_installed, cache_error, Faults, Tx, ◌>>=◌, ◌>>◌, pure, raise, access, modify, Result, ok,
  err, with_transaction, CacheKey, plugin_installation, model_installations, Report,
}
use dify_plugin_daemon.Curd.Install.{
  get_installation, get_plugin, required, ensure_plugin_declaration, create_declared, deferred,
  refer,
}
use dify_plugin_daemon.Curd.Uninstall.{delete_declared, delete_unreferred, unrefer}

abbrev pub is_installed_as : Text → Text → ℕ → PluginInstallation → Bool
is_installed_as identifier tenant k r =
    same r.unique_identifier identifier && same r.tenant_id tenant

abbrev pub required_installation : Option (ℕ × PluginInstallation) → Tx (ℕ × PluginInstallation)
required_installation none = raise not_been_installed
required_installation (some r) = pure r

-- The row of the plugin that the upgrade creates.
abbrev pub upgraded_plugin : Text → PluginRuntimeType → Text → Plugin
upgraded_plugin identifier install_type source = record {
  unique_identifier = identifier;
  plugin_id = plugin_id_of identifier;
  refers = pos 0;
  install_type = install_type;
  manifest_type = plugin_type;
  remote_declaration = none;
  source = source;
}

unfoldable pub create_if_not_found : Text → Plugin → Option Plugin → Tx Unit
unfolding put access
create_if_not_found identifier row none =
    modify (λ db. record db { plugins = put identifier (some row) db.plugins })
create_if_not_found identifier row (some p) = pure tt

-- Update of the installation that GetOne returned with this primary key.
abbrev pub upgraded_installation : PluginInstallation → Text → Text → Text → PluginInstallation
upgraded_installation i identifier source meta = record i {
  unique_identifier = identifier;
  source = source;
  meta = meta;
}

unfoldable pub update_installation : ℕ → PluginInstallation → Tx Unit
unfolding set_row access
update_installation k row =
    modify (λ db. record db { installations = set_row k (some row) db.installations })

abbrev pub map_option : {A B : Type 0} → (A → B) → Option A → Option B
map_option f none = none
map_option f (some a) = some (f a)

-- Run of Inc on refers, by 1 or by -1.
unfoldable pub add_refers : (Plugin → Plugin) → Text → Tx Unit
unfolding put access
add_refers f identifier =
    modify (λ db. record db {
      plugins = put identifier (map_option f (db.plugins identifier)) db.plugins;
    })

-- The original plugin, if the upgrade deletes it.
unfoldable pub delete_original : Text → Plugin → Tx (Option Plugin)
unfolding delete_unreferred
delete_original identifier p =
    if is_zero p.refers then (do delete_unreferred identifier p; pure (some p)) else pure none

-- The rows of a part: those of the original declaration go, those of the new one come.
unfoldable pub replace_part : Part → Text → Text → Text → Option Text → Option Text → Tx Unit
unfolding delete_declared create_declared
replace_part part original identifier tenant old new = do
  delete_declared part (plugin_id_of original) tenant old
  create_declared part (plugin_id_of identifier) identifier tenant new

unfoldable pub replace_parts : Text → Text → Text → PluginDeclaration → PluginDeclaration → Tx Unit
unfolding replace_part
replace_parts original identifier tenant old new = do
  replace_part Part.model original identifier tenant old.model new.model
  replace_part Part.tool original identifier tenant old.tool new.tool
  replace_part Part.agent_strategy original identifier tenant old.agent_strategy new.agent_strategy
  replace_part Part.datasource original identifier tenant old.datasource new.datasource
  replace_part Part.trigger original identifier tenant old.trigger new.trigger

-- The transaction of UpgradePlugin; its result is the plugin that it deleted.
unfoldable pub upgrade_in :
    Text
    → Text
    → Text
    → PluginDeclaration
    → PluginDeclaration
    → PluginRuntimeType
    → Text
    → Text
    → Tx (Option Plugin)
unfolding get_installation get_plugin create_if_not_found update_installation add_refers
    delete_original ensure_plugin_declaration replace_parts
upgrade_in tenant original identifier old new install_type source meta = do
  row ← get_installation (is_installed_as original tenant)
  installation ← required_installation row
  existing ← get_plugin identifier
  create_if_not_found identifier (upgraded_plugin identifier install_type source) existing
  update_installation installation.0 (upgraded_installation installation.1 identifier source meta)
  add_refers unrefer original
  found ← get_plugin original
  p ← required found
  deleted ← delete_original original p
  add_refers refer identifier
  ensure_plugin_declaration identifier install_type new
  replace_parts original identifier tenant old new
  pure deleted

abbrev pub either_deferred : Option Text → Option Text → Text → List CacheKey
either_deferred none new tenant = deferred new tenant
either_deferred (some provider) new tenant = model_installations tenant ∷ []

-- What UpgradePlugin returns after the transaction; `fails` says whether the cache fails to drop the
-- key of the installation. The result is the deleted plugin of UpgradePluginResponse.
abbrev pub finish_upgrade : Bool → Result (Option Plugin) → Result (Option Plugin)
finish_upgrade fails (err e) = err e
finish_upgrade fails (ok deleted) = if fails then err cache_error else ok deleted

unfoldable pub cleared_by_upgrade : Text → Text → Result (Option Plugin) → List CacheKey
unfolding plugin_id_of
cleared_by_upgrade tenant identifier (ok r) =
    plugin_installation (plugin_id_of identifier) tenant ∷ []
cleared_by_upgrade tenant identifier (err e) = []

-- UpgradePlugin
unfoldable pub upgrade_plugin :
    Text
    → Text
    → Text
    → PluginDeclaration
    → PluginDeclaration
    → PluginRuntimeType
    → Text
    → Text
    → Bool
    → Database
    → Faults
    → Report (Option Plugin)
unfolding with_transaction upgrade_in cleared_by_upgrade
upgrade_plugin tenant original identifier old new install_type source meta cache_fails db fs =
    let end =
      with_transaction (upgrade_in tenant original identifier old new install_type source meta) db
        fs in
    record {
      outcome = record {
        result = finish_upgrade cache_fails end.result;
        database = end.database;
        faults = end.faults;
      };
      cleared =
          cleared_by_upgrade tenant identifier end.result
          ++ either_deferred old.model new.model tenant;
    }
