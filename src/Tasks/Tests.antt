-- ===== src/Tasks/Tests.antt =====
-- A request of a tenant to install two plugins, and the job of the first.
use dify_plugin_daemon.Common.{
  ℕ, zero, suc, ℕ_discrete, ◌-◌, ◌≤◌, ◌≡◌, ◌↔◌, refl, true, false, none, some, List, [], ◌∷◌, ◌++◌,
  length, take, drop, arith, All,
}
use dify_plugin_daemon.Curd.Database.{
  Text, text_discrete, colons, before_colon, plugin_id_of, find_row, local, PluginRuntimeType,
  PluginDeclaration, empty_database, put,
}
use dify_plugin_daemon.Curd.Access.{Error, Result, ok}
use dify_plugin_daemon.Curd.Quiet.{Installed, AllNamed}
use dify_plugin_daemon.Tasks.{codes, InstallTask, World, truncate_message, take_fault}
use dify_plugin_daemon.Tasks.Honest.{Honest}
use dify_plugin_daemon.Tasks.Updates.{OnRow, OnTasks, put-OnRow}
use dify_plugin_daemon.Tasks.Bounds.{truncate_message-ends}
use dify_plugin_daemon.Tasks.Job.{
  PluginInstallJob, PluginUpgradeJob, info, done, Installation, streaming, mem, process_install_job,
  save_installation_for_tenants_to_db,
}
use dify_plugin_daemon.Tasks.Job.Entries.{Ready}
use dify_plugin_daemon.Tasks.Job.Saving.{Saved, save_installation_for_tenants_to_db-Saved}
use dify_plugin_daemon.Tasks.Job.Verdict.{Judged}
use dify_plugin_daemon.Tasks.Job.Outcome.{concludes, stream_concludes, process_install_job-Judged}
use dify_plugin_daemon.Tasks.Upgrade.{Manager}
use dify_plugin_daemon.Tasks.Recycle.{recycle_tasks, delete_plugin_installation_item_from_task}
use dify_plugin_daemon.Tasks.Recycle.Closing.{
  Closed, recycle_tasks-Closed, Trimmed, delete_plugin_installation_item_from_task-Trimmed,
}
use dify_plugin_daemon.Tasks.Registry.{
  build_task_statuses, new_task, create_install_tasks, registered, create_rows, create_row,
  registry_ids, ids_of, primary_id, first_id,
}
use dify_plugin_daemon.Tasks.Registry.Rows.{new_task-Ready, create_install_tasks-Ready}
use dify_plugin_daemon.Tasks.Request.{
  all_installed, started, has_plugin, one_installed, are_installed, conjunction, make_jobs,
  submitted, request_made, request_checked, install_multiple_plugins_to_tenant,
}
use dify_plugin_daemon.Tasks.Request.Answers.{install_multiple_plugins_to_tenant-all_installed}
use dify_plugin_daemon.Tasks.Request.Submission.{
  Submits, install_multiple_plugins_to_tenant-Submits,
}

abbrev tenant : Text
tenant = codes "t"

abbrev task_id : Text
task_id = codes "task"

abbrev plugin : Text
plugin = codes "a:1"

abbrev two_plugins : List Text
two_plugins = plugin ∷ codes "b:1" ∷ []

abbrev declaration : PluginDeclaration
declaration = record {
  tool = some (codes "x");
  agent_strategy = none;
  model = none;
  datasource = none;
  trigger = none;
}

abbrev job : PluginInstallJob
job = record {
  identifier = plugin;
  declaration = declaration;
  meta = [];
  needs_runtime_install = true;
}

abbrev upgrade : PluginUpgradeJob
upgrade = record {
  new_identifier = codes "a:2";
  new_declaration = none;
  original_identifier = plugin;
  original_declaration = declaration;
  meta = [];
}

abbrev row : InstallTask
row = new_task task_id tenant (build_task_statuses two_plugins [])

abbrev world : World
world = record {
  tasks = put task_id (some row) (λ u. none);
  database = empty_database;
  faults = [];
  scheduled = [];
  installing = [];
  cleared = [];
  effects = [];
}

abbrev message_of : Error → Text
message_of e = codes "error"

-- The manager's stream: a note, and the end.
abbrev stream : Installation
stream = streaming (info (codes "fetching") ∷ done [] ∷ []) none

world-Ready : (identifier : Text) → OnTasks (Ready identifier) world.tasks
world-Ready identifier u =
    put-OnRow (Ready identifier) task_id u row (λ u. none)
      (λ e. new_task-Ready task_id tenant [] identifier two_plugins) tt

world-AllNamed : AllNamed world.database
world-AllNamed u = tt

abbrev repeated : ℕ → Text → Text
repeated zero text = []
repeated (suc n) text = text ++ repeated n text

abbrev long_message : Text
long_message = repeated 150 (codes "0123456789")

truncate_message-ends_example :
    (length (truncate_message long_message) ≤ 1027)
    × (take 512 (truncate_message long_message) ≡ take 512 long_message)
    × (drop (length (truncate_message long_message) - 512) (truncate_message long_message)
        ≡ drop (length long_message - 512) long_message)
truncate_message-ends_example = truncate_message-ends long_message (omega arith)

-- The first access fails.
abbrev broken : World
broken = record world { faults = true ∷ [] }

is_member : mem task_id (task_id ∷ []) ≡ true
unfolding mem text_discrete ℕ_discrete
is_member = refl

it_concludes : concludes job stream ≡ true
unfolding concludes stream_concludes
it_concludes = refl

process_install_job-Judged_example :
    Judged plugin task_id
      (tenant ∷ [])
      (task_id ∷ [])
      (process_install_job message_of (tenant ∷ []) local [] (task_id ∷ []) job stream world)
process_install_job-Judged_example =
    process_install_job-Judged message_of (tenant ∷ []) local [] (task_id ∷ []) job task_id
      is_member stream world refl world-AllNamed it_concludes

save_installation_for_tenants_to_db-Saved_example :
    Saved
      (tenant ∷ codes "u" ∷ [])
      plugin
      world
      (save_installation_for_tenants_to_db (tenant ∷ codes "u" ∷ []) job local [] world)
save_installation_for_tenants_to_db-Saved_example =
    save_installation_for_tenants_to_db-Saved (tenant ∷ codes "u" ∷ []) job local [] world refl
      world-AllNamed

abbrev manager : Manager
manager = record {
  removal_fails = λ identifier. false;
  fetch = λ identifier runtime_type. ok declaration;
  cache_fails = λ tenant. false;
}

abbrev busy : World
busy = record world { installing = task_id ∷ [] }

recycle_tasks-Closed_example : OnRow Closed ((recycle_tasks busy).1.tasks task_id)
recycle_tasks-Closed_example = recycle_tasks-Closed task_id busy refl is_member

world-row : world.tasks task_id ≡ some row
unfolding put text_discrete ℕ_discrete
world-row = refl

delete_plugin_installation_item_from_task-Trimmed_example :
    OnRow
      (Trimmed plugin)
      ((delete_plugin_installation_item_from_task tenant task_id plugin world).1.tasks task_id)
delete_plugin_installation_item_from_task-Trimmed_example =
    delete_plugin_installation_item_from_task-Trimmed tenant task_id plugin row world refl world-row
      refl

create_install_tasks-Ready_example :
    OnTasks
      (Ready plugin)
      (create_install_tasks
        (λ t. codes "new")
        (tenant ∷ [])
        (build_task_statuses two_plugins [])
        world).1.tasks
create_install_tasks-Ready_example =
    create_install_tasks-Ready (λ t. codes "new") two_plugins [] plugin (tenant ∷ []) world
      (world-Ready plugin)

abbrev fetched : Text → PluginRuntimeType → Result PluginDeclaration
fetched identifier runtime_type = ok declaration

abbrev metas : List Text
metas = [] ∷ [] ∷ []

install_multiple_plugins_to_tenant-all_installed_example :
    ((install_multiple_plugins_to_tenant true fetched
        (λ t. codes "new")
        local
        tenant
        two_plugins
        []
        metas
        world).response
      ≡ all_installed)
    ↔ All (λ i. Installed tenant (plugin_id_of i) world.database.installations) two_plugins
install_multiple_plugins_to_tenant-all_installed_example =
    install_multiple_plugins_to_tenant-all_installed true fetched (λ t. codes "new") local tenant
      two_plugins [] metas world refl

request-started :
    (install_multiple_plugins_to_tenant true fetched
      (λ t. codes "new")
      local
      tenant
      two_plugins
      []
      metas
      world).response
    ≡ started (codes "new")
unfolding install_multiple_plugins_to_tenant request_checked request_made submitted make_jobs
    conjunction are_installed one_installed has_plugin take_fault find_row plugin_id_of colons
    before_colon create_install_tasks registered create_rows create_row registry_ids ids_of
    primary_id first_id put text_discrete ℕ_discrete build_task_statuses
request-started = refl

install_multiple_plugins_to_tenant-Submits_example :
    Submits true fetched
      (λ t. codes "new")
      local
      tenant
      two_plugins
      []
      metas
      world
      (codes "new")
      (install_multiple_plugins_to_tenant true fetched
        (λ t. codes "new")
        local
        tenant
        two_plugins
        []
        metas
        world)
install_multiple_plugins_to_tenant-Submits_example =
    install_multiple_plugins_to_tenant-Submits true fetched (λ t. codes "new") local tenant
      two_plugins [] metas world (codes "new") refl request-started
