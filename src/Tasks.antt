-- ===== src/Tasks.antt =====
-- The tasks that follow the installation of plugins: internal/types/models/task.go and
-- internal/tasks/install_plugin_utils.go.
-- A task's id is its primary key, so the table is a function of it. As in Curd, each access to the
-- database takes the next entry of a list that says whether it fails. Labels and icons are left out.
pub mod Honest
pub mod Updates
pub mod Bounds
pub mod Quiet
pub mod Job
pub mod Upgrade
pub mod Recycle
pub mod Registry
pub mod Request
mod Tests
use Prim.Native.Char.{code}
use Prim.Native.String.{String}
use dify_plugin_daemon.Common.{
  ℕ, suc, ◌+◌, ◌-◌, Bool, true, false, not, ◌&&◌, Option, none, some, List, [], ◌∷◌, ◌++◌, ltb,
  ◌==◌, if◌then◌else◌, length, take, drop,
}
use dify_plugin_daemon.Curd.Database.{Text, same, Database, put}
use dify_plugin_daemon.Curd.Access.{Error, database_error, Faults, CacheKey}

-- The bytes of a text of the source.
abbrev pub codes : String → Text
codes String.[] = []
codes (String.◌∷◌ c s) = code c ∷ codes s

pub data InstallTaskStatus : Type 0 where
  pending running success failed : InstallTaskStatus

abbrev pub is_success : InstallTaskStatus → Bool
is_success success = true
is_success pending = false
is_success running = false
is_success failed = false

abbrev pub is_failed : InstallTaskStatus → Bool
is_failed failed = true
is_failed pending = false
is_failed running = false
is_failed success = false

pub record InstallTaskPluginStatus : Type 0 where
  pub plugin_unique_identifier : Text
  pub plugin_id : Text
  pub status : InstallTaskStatus
  pub message : Text
  pub source : Text

pub record InstallTask : Type 0 where
  pub id : Text
  pub status : InstallTaskStatus
  pub tenant_id : Text
  pub total_plugins : ℕ
  pub completed_plugins : ℕ
  pub plugins : List InstallTaskPluginStatus

-- What a job asks of the rest of the daemon, in the order in which it asks.
pub data Effect : Type 0 where
  remove_local_plugin shutdown_local_plugin : Text → Effect
  clear_serverless_runtime_cache drop_declaration_cache : Text → Effect

-- The tables, the accesses that fail, the tasks whose deletion is scheduled, the keys of
-- installingTasks, the cache keys that were dropped, and the effects.
pub record World : Type 0 where
  pub tasks : Text → Option InstallTask
  pub database : Database
  pub faults : Faults
  pub scheduled : List Text
  pub installing : List Text
  pub cleared : List CacheKey
  pub effects : List Effect

unfoldable pub truncate_message : Text → Text
unfolding take drop
truncate_message message =
    if ltb 1024 (length message)
    then take 512 message ++ (codes "..." ++ drop (length message - 512) message)
    else message

-- Whether the next access fails, and the accesses behind it.
unfoldable pub take_fault : Faults → Bool × Faults
take_fault [] = (false, [])
take_fault (fault ∷ faults) = (fault, faults)

-- The first entry of a plugin in a task.
unfoldable pub find_plugin : Text → List InstallTaskPluginStatus → Option InstallTaskPluginStatus
find_plugin identifier [] = none
find_plugin identifier (p ∷ ps) =
    let rest = find_plugin identifier ps in
    if same p.plugin_unique_identifier identifier then some p else rest

-- The write through the pointer to that entry.
unfoldable pub set_plugin :
    Text → InstallTaskPluginStatus → List InstallTaskPluginStatus → List InstallTaskPluginStatus
set_plugin identifier new [] = []
set_plugin identifier new (p ∷ ps) =
    let rest = set_plugin identifier new ps in
    if same p.plugin_unique_identifier identifier then new ∷ ps else p ∷ rest

unfoldable pub successes : List InstallTaskPluginStatus → ℕ
successes [] = 0
successes (p ∷ ps) = (if is_success p.status then 1 else 0) + successes ps

-- The function that UpdateTaskStatus applies to a task and to the entry of a plugin in it.
abbrev pub Modifier : Type 0
Modifier = InstallTask → InstallTaskPluginStatus → InstallTask × InstallTaskPluginStatus

unfoldable pub modified : Text → Modifier → InstallTask → InstallTaskPluginStatus → InstallTask
unfolding set_plugin
modified identifier modifier task p =
    let (t, q) = modifier task p in record t { plugins = set_plugin identifier q t.plugins }

unfoldable pub all_succeeded : InstallTask → Bool
unfolding successes
all_succeeded task = successes task.plugins == length task.plugins

-- A task with all its plugins installed is successful.
unfoldable pub settled : InstallTask → InstallTask
unfolding all_succeeded
settled task = if all_succeeded task then record task { status = success } else task

-- The end of WithTransaction where its function returned no error; the error of Commit is not read.
unfoldable pub commit_tasks : (Text → Option InstallTask) → Bool × Faults → World → World
commit_tasks tasks (true, faults) world = record world { faults = faults }
commit_tasks tasks (false, faults) world = record world { tasks = tasks; faults = faults }

-- The deletion of a successful task after 120 seconds is scheduled before the update.
unfoldable pub schedule : InstallTask → World → World
unfolding all_succeeded
schedule task world =
    if all_succeeded task
    then record world { scheduled = world.scheduled ++ task.id ∷ [] }
    else world

unfoldable pub update_written : Text → InstallTask → Bool × Faults → World → Option Error × World
unfolding put take_fault commit_tasks
update_written id task (true, faults) world =
    (some database_error, record world { faults = faults })
update_written id task (false, faults) world =
    (none, commit_tasks (put id (some task) world.tasks) (take_fault faults) world)

unfoldable pub update_entry :
    Text
    → Text
    → Modifier
    → InstallTask
    → Option InstallTaskPluginStatus
    → Faults
    → World
    → Option Error × World
unfolding modified settled schedule update_written take_fault commit_tasks
update_entry id identifier modifier task none faults world =
    (none, commit_tasks world.tasks (take_fault faults) world)
update_entry id identifier modifier task (some p) faults world =
    update_written id (settled (modified identifier modifier task p)) (take_fault faults)
      (schedule (modified identifier modifier task p) world)

unfoldable pub update_found :
    Text → Text → Modifier → Option InstallTask → Faults → World → Option Error × World
unfolding update_entry find_plugin commit_tasks take_fault
update_found id identifier modifier none faults world =
    (none, commit_tasks world.tasks (take_fault faults) world)
update_found id identifier modifier (some task) faults world =
    update_entry id identifier modifier task (find_plugin identifier task.plugins) faults world

-- Behind the first access, Begin, and behind the second, GetOne.
unfoldable pub update_read : Text → Text → Modifier → Bool × Faults → World → Option Error × World
unfolding update_found
update_read id identifier modifier (true, faults) world =
    (some database_error, record world { faults = faults })
update_read id identifier modifier (false, faults) world =
    update_found id identifier modifier (world.tasks id) faults world

unfoldable pub update_begun : Text → Text → Modifier → Bool × Faults → World → Option Error × World
unfolding update_read take_fault
update_begun id identifier modifier (true, faults) world =
    (some database_error, record world { faults = faults })
update_begun id identifier modifier (false, faults) world =
    update_read id identifier modifier (take_fault faults) world

-- UpdateTaskStatus
unfoldable pub update_task_status : Text → Text → Modifier → World → Option Error × World
unfolding update_begun take_fault
update_task_status id identifier modifier world =
    update_begun id identifier modifier (take_fault world.faults) world

-- The loop over the tasks; an error of one of them is only logged.
unfoldable pub update_tasks : List Text → Text → Modifier → World → World
unfolding update_task_status
update_tasks [] identifier modifier world = world
update_tasks (id ∷ ids) identifier modifier world =
    update_tasks ids identifier modifier (update_task_status id identifier modifier world).1

abbrev pub set_message : Text → Modifier
set_message message task p = (task, record p { message = message })

unfoldable pub set_task_message_for_one_plugin : List Text → Text → Text → World → World
unfolding update_tasks truncate_message
set_task_message_for_one_plugin ids identifier message world =
    update_tasks ids identifier (set_message (truncate_message message)) world

unfoldable pub count_success : InstallTaskStatus → InstallTaskStatus → InstallTask → InstallTask
count_success status previous task =
    if is_success status && not (is_success previous)
    then record task { completed_plugins = suc task.completed_plugins }
    else task

unfoldable pub count_failure : InstallTaskStatus → InstallTaskStatus → InstallTask → InstallTask
count_failure status previous task =
    if is_failed status
    then (if is_success previous && ltb 0 task.completed_plugins
        then record task { status = failed; completed_plugins = task.completed_plugins - 1 }
        else record task { status = failed })
    else task

unfoldable pub set_status : InstallTaskStatus → Text → Modifier
unfolding count_success count_failure
set_status status message task p = (
  count_failure status p.status (count_success status p.status task),
  record p { status = status; message = message },
)

unfoldable pub set_task_status_for_one_plugin :
    List Text → Text → InstallTaskStatus → Text → World → World
unfolding update_tasks set_status truncate_message
set_task_status_for_one_plugin ids identifier status message world =
    update_tasks ids identifier (set_status status (truncate_message message)) world
