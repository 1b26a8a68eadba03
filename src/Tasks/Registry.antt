-- ===== src/Tasks/Registry.antt =====
-- The tasks of a request: createInstallTasks and buildTaskStatuses of
-- internal/service/install_plugin_utils.go, and InstallTaskRegistry of
-- internal/tasks/install_plugin_utils.go. The id of a new row is an argument.
pub mod Rows
use dify_plugin_daemon.Common.{
  ℕ, ◌≡◌, refl, sym, ap, subst, Bool, true, false, Option, none, some, List, [], ◌∷◌, map, length,
  arith, All, Bool-cases, inl, inr,
}
use dify_plugin_daemon.Curd.Database.{Text, text_discrete, same, plugin_id_of, put}
use dify_plugin_daemon.Curd.Rows.{put-same, put-other}
use dify_plugin_daemon.Curd.Access.{Error, database_error, Faults, Result, ok, err}
use dify_plugin_daemon.Tasks.{
  is_success, pending, running, InstallTaskPluginStatus, InstallTask, World, take_fault,
  find_plugin, successes,
}
use dify_plugin_daemon.Tasks.Honest.{Honest, IsShort}
use dify_plugin_daemon.Tasks.Updates.{OnRow, OnTasks, put-OnRow}
use dify_plugin_daemon.Tasks.Job.Entries.{OnEntry, Fresh, Ready}

pub record InstallTaskRegistry : Type 0 where
  pub order : List Text
  pub tasks : Text → Option InstallTask

abbrev add_id : Option InstallTask → List Text → List Text
add_id none ids = ids
add_id (some task) ids = task.id ∷ ids

unfoldable pub ids_of : List Text → (Text → Option InstallTask) → List Text
ids_of [] tasks = []
ids_of (tenant ∷ order) tasks = add_id (tasks tenant) (ids_of order tasks)

-- IDs
unfoldable pub registry_ids : InstallTaskRegistry → List Text
unfolding ids_of
registry_ids registry = ids_of registry.order registry.tasks

abbrev id_or_empty : Option InstallTask → Text
id_or_empty none = []
id_or_empty (some task) = task.id

unfoldable pub first_id : List Text → (Text → Option InstallTask) → Text
first_id [] tasks = []
first_id (tenant ∷ order) tasks = id_or_empty (tasks tenant)

-- PrimaryID
unfoldable pub primary_id : InstallTaskRegistry → Text
unfolding first_id
primary_id registry = first_id registry.order registry.tasks

abbrev pub new_status : Text → Text → InstallTaskPluginStatus
new_status source identifier = record {
  plugin_unique_identifier = identifier;
  plugin_id = plugin_id_of identifier;
  status = pending;
  message = [];
  source = source;
}

-- buildTaskStatuses
unfoldable pub build_task_statuses : List Text → Text → List InstallTaskPluginStatus
unfolding plugin_id_of
build_task_statuses identifiers source = map (new_status source) identifiers

abbrev pub new_task : Text → Text → List InstallTaskPluginStatus → InstallTask
new_task id tenant statuses = record {
  id = id;
  status = running;
  tenant_id = tenant;
  total_plugins = length statuses;
  completed_plugins = 0;
  plugins = statuses;
}

abbrev pub Created : Type 0
Created = Result (Text → Option InstallTask) × World

-- Create of the row of a tenant, and the tenants behind it.
unfoldable pub create_row :
    ((Text → Option InstallTask) → World → Created)
    → Text
    → InstallTask
    → (Text → Option InstallTask)
    → Bool × Faults
    → World
    → Created
unfolding put
create_row next tenant task registered (true, faults) world =
    (err database_error, record world { faults = faults })
create_row next tenant task registered (false, faults) world =
    next (put tenant (some task) registered)
      (record world { tasks = put task.id (some task) world.tasks; faults = faults })

unfoldable pub create_rows :
    (Text → Text)
    → List InstallTaskPluginStatus
    → List Text
    → (Text → Option InstallTask)
    → World
    → Created
unfolding create_row take_fault
create_rows new_id statuses [] registered world = (ok registered, world)
create_rows new_id statuses (tenant ∷ tenants) registered world =
    create_row (create_rows new_id statuses tenants) tenant
      (new_task (new_id tenant) tenant statuses) registered (take_fault world.faults) world

unfoldable pub registered : List Text → Created → Result InstallTaskRegistry × World
registered tenants (ok tasks, world) = (ok (record { order = tenants; tasks = tasks }), world)
registered tenants (err e, world) = (err e, world)

-- createInstallTasks
unfoldable pub create_install_tasks :
    (Text → Text)
    → List Text
    → List InstallTaskPluginStatus
    → World
    → Result InstallTaskRegistry × World
unfolding registered create_rows
create_install_tasks new_id tenants statuses world =
    registered tenants (create_rows new_id statuses tenants (λ tenant. none) world)
