-- ===== src/Tasks/Recycle.antt =====
-- The end of tasks by other hands: RecycleTasks and markTasksAsTimeout of internal/tasks/recycle.go,
-- DeleteTask of internal/tasks/install_plugin_utils.go, and DeletePluginInstallationItemFromTask of
-- internal/service/install_task_service.go.
pub mod Closing
use dify_plugin_daemon.Common.{
  ℕ, Bool, true, false, ◌&&◌, Option, none, some, List, [], ◌∷◌, ◌++◌, map, length, ◌==◌,
  if◌then◌else◌,
}
use dify_plugin_daemon.Curd.Database.{Text, same, put}
use dify_plugin_daemon.Curd.Access.{Error, database_error, not_found, Faults}
use dify_plugin_daemon.Tasks.{
  codes, InstallTaskStatus, pending, running, success, failed, InstallTaskPluginStatus, InstallTask,
  World, take_fault, commit_tasks, successes,
}

-- A task that is still pending or running, as the query of both functions asks.
abbrev pub is_open : InstallTaskStatus → Bool
is_open pending = true
is_open running = true
is_open success = false
is_open failed = false

unfoldable pub failed_with : Text → InstallTaskPluginStatus → InstallTaskPluginStatus
failed_with message p = record p { status = failed; message = message }

-- The task and all its plugins are set to failed.
unfoldable pub interrupted : Text → InstallTask → InstallTask
unfolding failed_with
interrupted message task = record task {
  status = failed;
  plugins = map (failed_with message) task.plugins;
}

abbrev pub shutdown_message : Text
shutdown_message = codes "An unexpected daemon shutdown occurred"

-- Update of a task outside a transaction.
unfoldable pub write_task : Text → InstallTask → Bool × Faults → World → Option Error × World
unfolding put
write_task id task (true, faults) world = (some database_error, record world { faults = faults })
write_task id task (false, faults) world =
    (none, record world { tasks = put id (some task) world.tasks; faults = faults })

unfoldable pub recycle_found : Text → Option InstallTask → Faults → World → Option Error × World
unfolding write_task interrupted take_fault
recycle_found id none faults world = (some not_found, record world { faults = faults })
recycle_found id (some task) faults world =
    if is_open task.status
    then write_task id (interrupted shutdown_message task) (take_fault faults) world
    else (some not_found, record world { faults = faults })

unfoldable pub recycle_read : Text → Bool × Faults → World → Option Error × World
unfolding recycle_found
recycle_read id (true, faults) world = (some database_error, record world { faults = faults })
recycle_read id (false, faults) world = recycle_found id (world.tasks id) faults world

unfoldable pub recycle_task : Text → World → Option Error × World
unfolding recycle_read take_fault
recycle_task id world = recycle_read id (take_fault world.faults) world

abbrev pub add_error : Option Error → List Error → List Error
add_error none errors = errors
add_error (some e) errors = e ∷ errors

-- The loop of RecycleTasks over the keys of installingTasks, with the errors that it joins.
unfoldable pub recycle_all : List Text → World → List Error × World
unfolding recycle_task
recycle_all [] world = ([], world)
recycle_all (id ∷ ids) world =
    let (e, next) = recycle_task id world in
    let (errors, end) = recycle_all ids next in (add_error e errors, end)

-- RecycleTasks
unfoldable pub recycle_tasks : World → List Error × World
unfolding recycle_all
recycle_tasks world = recycle_all world.installing world

abbrev pub timeout_message : Text
timeout_message = codes "Task timed out but not properly terminated"

unfoldable pub write_all :
    List InstallTask → (Text → Option InstallTask) → Text → Option InstallTask
unfolding put interrupted
write_all [] tasks = tasks
write_all (task ∷ rows) tasks =
    write_all rows (put task.id (some (interrupted timeout_message task)) tasks)

unfoldable pub timeouts_written : List InstallTask → Bool × Faults → World → World
unfolding write_all
timeouts_written rows (true, faults) world = record world { faults = faults }
timeouts_written rows (false, faults) world = record world {
  tasks = write_all rows world.tasks;
  faults = faults;
}

-- markTasksAsTimeout, on rows that were read before; one update writes them all.
unfoldable pub mark_tasks_as_timeout : List InstallTask → World → World
unfolding timeouts_written take_fault
mark_tasks_as_timeout [] world = world
mark_tasks_as_timeout (task ∷ rows) world =
    timeouts_written (task ∷ rows) (take_fault world.faults) world

-- The entries of the other plugins.
unfoldable pub others : Text → List InstallTaskPluginStatus → List InstallTaskPluginStatus
others identifier [] = []
others identifier (p ∷ ps) =
    let rest = others identifier ps in
    if same p.plugin_unique_identifier identifier then rest else p ∷ rest

-- A task whose other plugins are all installed is deleted.
unfoldable pub trimmed : Text → InstallTask → Option InstallTask
unfolding others successes
trimmed identifier task =
    if length (others identifier task.plugins) == successes (others identifier task.plugins)
    then none
    else some (record task { plugins = others identifier task.plugins })

unfoldable pub trim_written :
    Text → Option InstallTask → Bool × Faults → World → Option Error × World
unfolding put commit_tasks take_fault
trim_written id row (true, faults) world = (some database_error, record world { faults = faults })
trim_written id row (false, faults) world =
    (none, commit_tasks (put id row world.tasks) (take_fault faults) world)

-- The row of the tenant.
unfoldable pub trim_found :
    Text → Text → Text → Option InstallTask → Faults → World → Option Error × World
unfolding trim_written trimmed commit_tasks take_fault
trim_found tenant id identifier none faults world =
    (none, commit_tasks world.tasks (take_fault faults) world)
trim_found tenant id identifier (some task) faults world =
    if same task.tenant_id tenant
    then trim_written id (trimmed identifier task) (take_fault faults) world
    else (none, commit_tasks world.tasks (take_fault faults) world)

unfoldable pub trim_read : Text → Text → Text → Bool × Faults → World → Option Error × World
unfolding trim_found
trim_read tenant id identifier (true, faults) world =
    (some database_error, record world { faults = faults })
trim_read tenant id identifier (false, faults) world =
    trim_found tenant id identifier (world.tasks id) faults world

unfoldable pub trim_begun : Text → Text → Text → Bool × Faults → World → Option Error × World
unfolding trim_read take_fault
trim_begun tenant id identifier (true, faults) world =
    (some database_error, record world { faults = faults })
trim_begun tenant id identifier (false, faults) world =
    trim_read tenant id identifier (take_fault faults) world

-- DeletePluginInstallationItemFromTask
unfoldable pub delete_plugin_installation_item_from_task :
    Text → Text → Text → World → Option Error × World
unfolding trim_begun take_fault
delete_plugin_installation_item_from_task tenant id identifier world =
    trim_begun tenant id identifier (take_fault world.faults) world
