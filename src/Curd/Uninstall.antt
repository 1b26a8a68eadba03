-- ===== src/Curd/Uninstall.antt =====
-- UninstallPlugin, and what it and UpgradePlugin remove: internal/types/models/curd/atomic.go.
use dify_plugin_daemon.Common.{
  ℕ, Bool, true, ◌&&◌, Option, none, some, List, [], ◌∷◌, ◌++◌, ◌==◌, if◌then◌else◌,
}
use dify_plugin_daemon.Curd.Database.{
  Text, same, plugin_id_of, decrement, is_zero, is_serverless, PluginDeclaration, Plugin,
  PluginInstallation, Part, Database, put, set_row,
}
use dify_plugin_daemon.Curd.Access.{
  missing_where, Faults, Step, done, failed, Tx, ◌>>=◌, ◌>>◌, pure, raise, access, modify,
  delete_part, Result, ok, err, with_transaction, CacheKey, plugin_installation, Report,
}
use dify_plugin_daemon.Curd.Install.{
  get_installation, get_plugin, update_plugin, required, deferred,
}

-- The DeleteByCondition of a part, if the declaration has it.
unfoldable pub delete_declared : Part → Text → Text → Option Text → Tx Unit
unfolding delete_part
delete_declared part plugin tenant none = pure tt
delete_declared part plugin tenant (some provider) = delete_part part plugin tenant

-- DeleteByCondition of a declaration or of a serverless runtime.
unfoldable pub delete_declaration : Text → Tx Unit
unfolding put access
delete_declaration [] = raise missing_where
delete_declaration (c ∷ cs) =
    modify (λ db. record db { declarations = put (c ∷ cs) none db.declarations })

unfoldable pub delete_serverless_runtime : Text → Tx Unit
unfolding put access
delete_serverless_runtime [] = raise missing_where
delete_serverless_runtime (c ∷ cs) =
    modify (λ db. record db { serverless_runtimes = put (c ∷ cs) none db.serverless_runtimes })

-- Delete of a plugin that GetOne returned for this plugin_unique_identifier.
unfoldable pub delete_plugin : Text → Tx Unit
unfolding put access
delete_plugin identifier = modify (λ db. record db { plugins = put identifier none db.plugins })

-- The block that both operations run on a plugin whose refers is 0.
unfoldable pub delete_unreferred : Text → Plugin → Tx Unit
unfolding delete_plugin delete_declaration delete_serverless_runtime
delete_unreferred identifier p = do
  delete_plugin identifier
  delete_declaration identifier
  (if is_serverless p.install_type then delete_serverless_runtime identifier else pure tt)

abbrev pub is_installation : ℕ → Text → Text → ℕ → PluginInstallation → Bool
is_installation id identifier tenant k r =
    k == id && (same r.unique_identifier identifier && same r.tenant_id tenant)

unfoldable pub unrefer : Plugin → Plugin
unfolding decrement
unrefer p = record p { refers = decrement p.refers }

-- The row of the plugin, if there is one, loses a reference.
unfoldable pub release_plugin : Text → Option Plugin → Tx (Option Plugin)
unfolding update_plugin unrefer
release_plugin identifier none = pure none
release_plugin identifier (some p) = do
  update_plugin identifier (unrefer p)
  pure (some (unrefer p))

-- Delete of an installation that GetOne returned with this primary key.
unfoldable pub delete_installation : ℕ → Tx Unit
unfolding set_row access
delete_installation k = modify (λ db. record db { installations = set_row k none db.installations })

-- getPluginID
abbrev pub get_plugin_id : Option Plugin → PluginInstallation → Text
get_plugin_id none i = i.plugin_id
get_plugin_id (some p) i = p.plugin_id

unfoldable pub delete_parts : Text → Text → PluginDeclaration → Tx Unit
unfolding delete_declared
delete_parts plugin tenant declaration = do
  delete_declared Part.tool plugin tenant declaration.tool
  delete_declared Part.agent_strategy plugin tenant declaration.agent_strategy
  delete_declared Part.model plugin tenant declaration.model
  delete_declared Part.datasource plugin tenant declaration.datasource
  delete_declared Part.trigger plugin tenant declaration.trigger

unfoldable pub delete_if_unreferred : Text → Option Plugin → Tx Unit
unfolding delete_unreferred
delete_if_unreferred identifier none = pure tt
delete_if_unreferred identifier (some p) =
    if is_zero p.refers then delete_unreferred identifier p else pure tt

-- The transaction of UninstallPlugin.
unfoldable pub uninstall_in :
    Text → Text → ℕ → PluginDeclaration → Tx (Option Plugin × PluginInstallation)
unfolding get_installation get_plugin release_plugin delete_installation delete_parts
    delete_if_unreferred
uninstall_in tenant identifier id declaration = do
  row ← get_installation (is_installation id identifier tenant)
  installation ← required row
  found ← get_plugin identifier
  p ← release_plugin identifier found
  delete_installation installation.0
  delete_parts (get_plugin_id p installation.1) tenant declaration
  delete_if_unreferred identifier p
  pure (p, installation.1)

pub record DeletePluginResponse : Type 0 where
  pub plugin : Option Plugin
  pub installation : PluginInstallation
  pub is_plugin_deleted : Bool

abbrev pub is_deleted : Option Plugin → Bool
is_deleted none = true
is_deleted (some p) = is_zero p.refers

-- The response after the transaction.
abbrev pub respond :
    Result (Option Plugin × PluginInstallation) → Result (Option DeletePluginResponse)
respond (err e) = err e
respond (ok (p, i)) =
    ok (some (record { plugin = p; installation = i; is_plugin_deleted = is_deleted p }))

-- The cache key that UninstallPlugin drops before it returns.
unfoldable pub cleared_by_uninstall :
    Text → Text → Result (Option Plugin × PluginInstallation) → List CacheKey
unfolding plugin_id_of
cleared_by_uninstall tenant identifier (ok r) =
    plugin_installation (plugin_id_of identifier) tenant ∷ []
cleared_by_uninstall tenant identifier (err e) = []

-- What UninstallPlugin does once the search for the installation has ended.
unfoldable pub uninstall_found :
    Text
    → Text
    → ℕ
    → PluginDeclaration
    → Database
    → Step (Option (ℕ × PluginInstallation))
    → Report (Option DeletePluginResponse)
unfolding with_transaction uninstall_in cleared_by_uninstall
uninstall_found tenant identifier id declaration db (failed e fs) = record {
  outcome = record { result = err e; database = db; faults = fs };
  cleared = deferred declaration.model tenant;
}
uninstall_found tenant identifier id declaration db (done none db' fs) = record {
  outcome = record { result = ok none; database = db'; faults = fs };
  cleared = deferred declaration.model tenant;
}
uninstall_found tenant identifier id declaration db (done (some r) db' fs) =
    let end = with_transaction (uninstall_in tenant identifier id declaration) db' fs in
    record {
      outcome = record {
        result = respond end.result;
        database = end.database;
        faults = end.faults;
      };
      cleared =
          cleared_by_uninstall tenant identifier end.result ++ deferred declaration.model tenant;
    }

-- UninstallPlugin
unfoldable pub uninstall_plugin :
    Text → Text → ℕ → PluginDeclaration → Database → Faults → Report (Option DeletePluginResponse)
unfolding uninstall_found get_installation
uninstall_plugin tenant identifier id declaration db fs =
    uninstall_found tenant identifier id declaration db
      (get_installation (is_installation id identifier tenant) db fs)
