-- ===== src/Tasks/Job.antt =====
-- The jobs that install and upgrade a plugin: internal/tasks/install_plugin.go, with startTasks and
-- endTasks of internal/tasks/recycle.go and RemovePluginIfNeeded of install_plugin_utils.go.
-- The plugin manager and the caches are arguments: what the stream of EnsureRuntime gives, which of
-- the manager's calls fail, and the declaration that is fetched. So is the text of an error.
pub mod Entries
pub mod Keeping
pub mod Invariant
pub mod Saving
pub mod Verdict
pub mod Outcome
use dify_plugin_daemon.Common.{
  Bool, true, false, ◌&&◌, Option, none, some, List, [], ◌∷◌, ◌++◌, if◌then◌else◌,
}
use dify_plugin_daemon.Curd.Database.{
  Text, same, PluginRuntimeType, local, remote, serverless, PluginDeclaration, Plugin,
  PluginInstallation,
}
use dify_plugin_daemon.Curd.Access.{
  Error, database_error, not_found, plugin_already_installed, not_been_installed, missing_where,
  cache_error, Result, ok, err, Report,
}
use dify_plugin_daemon.Curd.Install.{install_plugin}
use dify_plugin_daemon.Curd.Upgrade.{upgrade_plugin}
use dify_plugin_daemon.Tasks.{
  codes, InstallTaskStatus, running, success, failed, Effect, remove_local_plugin,
  shutdown_local_plugin, clear_serverless_runtime_cache, drop_declaration_cache, World,
  set_task_message_for_one_plugin, set_task_status_for_one_plugin,
}

pub record PluginInstallJob : Type 0 where
  pub identifier : Text
  pub declaration : PluginDeclaration
  pub meta : Text
  pub needs_runtime_install : Bool

pub record PluginUpgradeJob : Type 0 where
  pub new_identifier : Text
  pub new_declaration : Option PluginDeclaration
  pub original_identifier : Text
  pub original_declaration : PluginDeclaration
  pub meta : Text

-- PluginInstallResponse, by its event; `unknown` is an event that the jobs pass over.
pub data PluginInstallResponse : Type 0 where
  info error done unknown : Text → PluginInstallResponse

-- What EnsureRuntime gives: an error, or a stream with its elements and the error that ends it.
pub data Installation : Type 0 where
  unavailable : Text → Installation
  streaming : List PluginInstallResponse → Option Text → Installation

unfoldable pub mem : Text → List Text → Bool
mem id [] = false
mem id (x ∷ xs) = let rest = mem id xs in if same x id then true else rest

unfoldable pub remove : Text → List Text → List Text
remove id [] = []
remove id (x ∷ xs) = let rest = remove id xs in if same x id then rest else x ∷ rest

-- Store in the map installingTasks.
unfoldable pub store_task : Text → World → World
unfolding mem
store_task id world =
    if mem id world.installing
    then world
    else record world { installing = world.installing ++ id ∷ [] }

unfoldable pub start_tasks : List Text → World → World
unfolding store_task
start_tasks [] world = world
start_tasks (id ∷ ids) world = start_tasks ids (store_task id world)

unfoldable pub end_tasks : List Text → World → World
unfolding remove
end_tasks [] world = world
end_tasks (id ∷ ids) world =
    end_tasks ids (record world { installing = remove id world.installing })

-- An error of InstallPlugin, unless the plugin was already installed.
abbrev pub tolerated : {A : Type 0} → Result A → Option Error
tolerated (ok a) = none
tolerated (err plugin_already_installed) = none
tolerated (err database_error) = some database_error
tolerated (err not_found) = some not_found
tolerated (err not_been_installed) = some not_been_installed
tolerated (err missing_where) = some missing_where
tolerated (err cache_error) = some cache_error

-- The tables, the accesses and the dropped keys that an operation of curd leaves.
abbrev pub reported : {A : Type 0} → Report A → World → World
reported report world = record world {
  database = report.outcome.database;
  faults = report.outcome.faults;
  cleared = world.cleared ++ report.cleared;
}

-- SaveInstallationForTenantToDB
unfoldable pub save_installation_for_tenant_to_db :
    Text → PluginInstallJob → PluginRuntimeType → Text → World → Option Error × World
unfolding install_plugin
save_installation_for_tenant_to_db tenant job runtime_type source world =
    let report =
      install_plugin tenant job.identifier runtime_type job.declaration source job.meta
        world.database world.faults in
    (tolerated report.outcome.result, reported report world)

unfoldable pub save_next :
    (World → Option Error × World) → Option Error × World → Option Error × World
save_next next (some e, world) = (some e, world)
save_next next (none, world) = next world

-- SaveInstallationForTenantsToDB: up to the first error.
unfoldable pub save_installation_for_tenants_to_db :
    List Text → PluginInstallJob → PluginRuntimeType → Text → World → Option Error × World
unfolding save_next save_installation_for_tenant_to_db
save_installation_for_tenants_to_db [] job runtime_type source world = (none, world)
save_installation_for_tenants_to_db (tenant ∷ tenants) job runtime_type source world =
    save_next (save_installation_for_tenants_to_db tenants job runtime_type source)
      (save_installation_for_tenant_to_db tenant job runtime_type source world)

module _ (ids : List Text) where
  abbrev pub status_of : Text → InstallTaskStatus → Text → World → World
  status_of identifier status message = set_task_status_for_one_plugin ids identifier status message

  -- Stream.Process, and the error that it returns.
  unfoldable pub process_stream :
      Text
      → (PluginInstallResponse → World → World)
      → List PluginInstallResponse
      → Option Text
      → World
      → World
  unfolding set_task_status_for_one_plugin
  process_stream identifier handle [] none world = world
  process_stream identifier handle [] (some message) world =
      status_of identifier failed message world
  process_stream identifier handle (response ∷ responses) end world =
      process_stream identifier handle responses end (handle response world)

module _ (error_message : Error → Text) (ids : List Text) where
  -- The state of the plugin after the installations were saved.
  unfoldable pub saved : Text → Option Error × World → World
  unfolding set_task_status_for_one_plugin
  saved identifier (some e, world) = status_of ids identifier failed (error_message e) world
  saved identifier (none, world) = status_of ids identifier success (codes "installed") world

  -- The deletion of the tasks is scheduled only if the installations were saved.
  unfoldable pub saved_at_end : Text → Option Error × World → World
  unfolding set_task_status_for_one_plugin
  saved_at_end identifier (some e, world) = status_of ids identifier failed (error_message e) world
  saved_at_end identifier (none, world) =
      let installed = status_of ids identifier success (codes "installed") world in
      record installed { scheduled = installed.scheduled ++ ids }

module _ (error_message : Error → Text) (tenants : List Text) (runtime_type : PluginRuntimeType)
    (source : Text) (ids : List Text) where
  unfoldable pub install_response : PluginInstallJob → PluginInstallResponse → World → World
  unfolding set_task_message_for_one_plugin set_task_status_for_one_plugin saved_at_end
      save_installation_for_tenants_to_db
  install_response job (info text) world =
      set_task_message_for_one_plugin ids job.identifier text world
  install_response job (error text) world = status_of ids job.identifier failed text world
  install_response job (done text) world =
      saved_at_end error_message ids job.identifier
        (save_installation_for_tenants_to_db tenants job runtime_type source world)
  install_response job (unknown text) world = world

  unfoldable pub install_running : PluginInstallJob → Installation → World → World
  unfolding set_task_status_for_one_plugin process_stream install_response
  install_running job (unavailable message) world =
      status_of ids job.identifier failed (codes "failed to start installation: " ++ message) world
  install_running job (streaming responses end) world =
      process_stream ids job.identifier (install_response job) responses end world

  unfoldable pub install_body : PluginInstallJob → Installation → World → World
  unfolding saved save_installation_for_tenants_to_db set_task_status_for_one_plugin install_running
  install_body job ensured world =
      if job.needs_runtime_install
      then install_running job ensured
          (status_of ids job.identifier running (codes "starting") world)
      else saved error_message ids job.identifier
          (save_installation_for_tenants_to_db tenants job runtime_type source world)

  -- ProcessInstallJob
  unfoldable pub process_install_job : PluginInstallJob → Installation → World → World
  unfolding start_tasks end_tasks install_body
  process_install_job job ensured world =
      end_tasks ids (install_body job ensured (start_tasks ids world))
