-- ===== src/Tasks/Upgrade.antt =====
-- ProcessUpgradeJob and resolveNewDeclaration of internal/tasks/install_plugin.go, and
-- RemovePluginIfNeeded of internal/tasks/install_plugin_utils.go.
pub mod Invariant
use dify_plugin_daemon.Common.{Bool, true, false, Option, none, some, List, [], ◌∷◌, ◌++◌}
use dify_plugin_daemon.Curd.Database.{
  Text, PluginRuntimeType, local, remote, serverless, PluginDeclaration, Plugin,
}
use dify_plugin_daemon.Curd.Access.{Error, Result, ok, err, Report}
use dify_plugin_daemon.Curd.Upgrade.{upgrade_plugin}
use dify_plugin_daemon.Tasks.{
  codes, running, success, failed, Effect, remove_local_plugin, shutdown_local_plugin,
  clear_serverless_runtime_cache, drop_declaration_cache, World, set_task_message_for_one_plugin,
  set_task_status_for_one_plugin,
}
use dify_plugin_daemon.Tasks.Job.{
  PluginUpgradeJob, PluginInstallResponse, info, error, done, unknown, Installation, unavailable,
  streaming, start_tasks, end_tasks, status_of, process_stream, reported,
}

-- What the manager answers: RemoveLocalPlugin and the fetch of a declaration may fail.
pub record Manager : Type 0 where
  pub removal_fails : Text → Bool
  pub fetch : Text → PluginRuntimeType → Result PluginDeclaration
  pub cache_fails : Text → Bool

abbrev ask : Effect → World → World
ask effect world = record world { effects = world.effects ++ effect ∷ [] }

-- A local plugin is shut down only if its package was removed. The errors are logged.
unfoldable pub remove_local : Bool → Text → World → World
remove_local true identifier world = ask (remove_local_plugin identifier) world
remove_local false identifier world =
    ask (shutdown_local_plugin identifier) (ask (remove_local_plugin identifier) world)

unfoldable pub remove_by_type : Manager → PluginRuntimeType → Text → World → World
unfolding remove_local
remove_by_type manager local identifier world =
    remove_local (manager.removal_fails identifier) identifier world
remove_by_type manager serverless identifier world =
    ask (clear_serverless_runtime_cache identifier) world
remove_by_type manager remote identifier world = world

-- RemovePluginIfNeeded; the response has a plugin just when the original one was deleted.
unfoldable pub remove_plugin_if_needed : Manager → Text → Option Plugin → World → World
unfolding remove_by_type
remove_plugin_if_needed manager identifier none world = world
remove_plugin_if_needed manager identifier (some deleted) world =
    remove_by_type manager deleted.install_type identifier world

unfoldable pub drop_if_deleted : Text → Option Plugin → World → World
drop_if_deleted identifier none world = world
drop_if_deleted identifier (some deleted) world = ask (drop_declaration_cache identifier) world

-- resolveNewDeclaration
unfoldable pub resolve_new_declaration :
    Option PluginDeclaration
    → Text
    → PluginRuntimeType
    → (Text → PluginRuntimeType → Result PluginDeclaration)
    → Result PluginDeclaration
resolve_new_declaration (some declaration) identifier runtime_type fetch = ok declaration
resolve_new_declaration none identifier runtime_type fetch = fetch identifier runtime_type

module _ (error_message : Error → Text) (manager : Manager) (runtime_type : PluginRuntimeType)
    (source : Text) (ids : List Text) (job : PluginUpgradeJob) where
  -- One tenant of the loop, and the tenants behind it if it is upgraded.
  unfoldable pub after_upgrade : (World → World) → Result (Option Plugin) → World → World
  unfolding set_task_status_for_one_plugin remove_plugin_if_needed drop_if_deleted
  after_upgrade next (err e) world = status_of ids job.new_identifier failed (error_message e) world
  after_upgrade next (ok deleted) world = next (
      remove_plugin_if_needed manager job.original_identifier deleted
        (drop_if_deleted job.original_identifier deleted world))

  unfoldable pub upgrade_tenants : List Text → PluginDeclaration → World → World
  unfolding after_upgrade upgrade_plugin set_task_status_for_one_plugin
  upgrade_tenants [] declaration world =
      status_of ids job.new_identifier success (codes "upgraded") world
  upgrade_tenants (tenant ∷ tenants) declaration world =
      let report =
        upgrade_plugin tenant job.original_identifier job.new_identifier job.original_declaration
          declaration runtime_type source job.meta (manager.cache_fails tenant) world.database
          world.faults in
      after_upgrade (upgrade_tenants tenants declaration) report.outcome.result
        (reported report world)

  unfoldable pub upgrade_resolved : List Text → Result PluginDeclaration → World → World
  unfolding upgrade_tenants set_task_status_for_one_plugin
  upgrade_resolved tenants (ok declaration) world = upgrade_tenants tenants declaration world
  upgrade_resolved tenants (err e) world =
      status_of ids job.new_identifier failed
        (codes "failed to get new plugin declaration after install: " ++ error_message e) world

  unfoldable pub upgrade_response : List Text → PluginInstallResponse → World → World
  unfolding upgrade_resolved resolve_new_declaration set_task_message_for_one_plugin
      set_task_status_for_one_plugin
  upgrade_response tenants (info text) world =
      set_task_message_for_one_plugin ids job.new_identifier text world
  upgrade_response tenants (error text) world = status_of ids job.new_identifier failed text world
  upgrade_response tenants (done text) world =
      upgrade_resolved tenants
        (resolve_new_declaration job.new_declaration job.new_identifier runtime_type manager.fetch)
        world
  upgrade_response tenants (unknown text) world = world

  unfoldable pub upgrade_body : List Text → Installation → World → World
  unfolding upgrade_response process_stream set_task_status_for_one_plugin
  upgrade_body tenants (unavailable message) world =
      status_of ids job.new_identifier failed (codes "failed to start installation: " ++ message)
        world
  upgrade_body tenants (streaming responses end) world =
      process_stream ids job.new_identifier (upgrade_response tenants) responses end world

  -- ProcessUpgradeJob
  unfoldable pub process_upgrade_job : List Text → Installation → World → World
  unfolding start_tasks end_tasks upgrade_body set_task_status_for_one_plugin
  process_upgrade_job tenants ensured world = end_tasks ids (
      upgrade_body tenants ensured
        (status_of ids job.new_identifier running (codes "starting") (start_tasks ids world)))
