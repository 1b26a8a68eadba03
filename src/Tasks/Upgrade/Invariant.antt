-- ===== src/Tasks/Upgrade/Invariant.antt =====
-- ProcessUpgradeJob keeps the rows of the tasks honest, whatever fails.
use dify_plugin_daemon.Common.{List}
use dify_plugin_daemon.Curd.Database.{Text, PluginRuntimeType}
use dify_plugin_daemon.Curd.Access.{Error}
use dify_plugin_daemon.Tasks.{World}
use dify_plugin_daemon.Tasks.Honest.{Honest}
use dify_plugin_daemon.Tasks.Updates.{OnRow}
use dify_plugin_daemon.Tasks.Job.{PluginUpgradeJob}
use dify_plugin_daemon.Tasks.Job.Keeping.{JobKeeps}
use dify_plugin_daemon.Tasks.Job.Invariant.{Honest-JobKeeps}
use dify_plugin_daemon.Tasks.Upgrade.{Manager}

module _ (error_message : Error → Text) (manager : Manager) (runtime_type : PluginRuntimeType)
    (source : Text) (ids : List Text) (job : PluginUpgradeJob) (u : Text) where
  abbrev Row : World → Type 0
  Row world = OnRow Honest (world.tasks u)

  abbrev keeps : JobKeeps Honest job.new_identifier
  keeps = Honest-JobKeeps job.new_identifier
