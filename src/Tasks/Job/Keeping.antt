-- ===== src/Tasks/Job/Keeping.antt =====
-- What the jobs keep of a row, whatever accesses fail: what each update of the plugin's entry keeps.
use dify_plugin_daemon.Common.{
  ◌≡◌, refl, sym, ◌∙◌, subst, Bool, true, false, Option, none, some, List, [], ◌∷◌, ◌++◌, arith,
  if◌then◌else◌,
}
use dify_plugin_daemon.Curd.Database.{Text, PluginRuntimeType}
use dify_plugin_daemon.Curd.Access.{Error}
use dify_plugin_daemon.Tasks.{
  codes, running, success, failed, InstallTask, World, truncate_message, set_status, set_message,
  set_task_message_for_one_plugin, set_task_status_for_one_plugin,
}
use dify_plugin_daemon.Tasks.Updates.{OnRow, Keeps, update_tasks-OnRow}
use dify_plugin_daemon.Tasks.Job.{
  PluginInstallJob, PluginInstallResponse, info, error, done, unknown, Installation, unavailable,
  streaming, start_tasks, end_tasks, status_of, process_stream, saved, saved_at_end, save_next,
  save_installation_for_tenant_to_db, save_installation_for_tenants_to_db, install_response,
  install_running, install_body, store_task,
}

pub record JobKeeps (P : InstallTask → Type 0) (identifier : Text) : Type 0 where
  pub succeeded :
      (message : Text) → Keeps P identifier (set_status success (truncate_message message))
  pub failing : (message : Text) → Keeps P identifier (set_status failed (truncate_message message))
  pub told : (message : Text) → Keeps P identifier (set_message (truncate_message message))

store_task-tasks : (id : Text) (world : World) → (store_task id world).tasks ≡ world.tasks
unfolding store_task
store_task-tasks id world = ground arith

pub start_tasks-tasks :
    (ids : List Text) (world : World) → (start_tasks ids world).tasks ≡ world.tasks
unfolding start_tasks
start_tasks-tasks [] world = refl
start_tasks-tasks (id ∷ ids) world =
    start_tasks-tasks ids (store_task id world) ∙ store_task-tasks id world

pub end_tasks-tasks : (ids : List Text) (world : World) → (end_tasks ids world).tasks ≡ world.tasks
unfolding end_tasks
end_tasks-tasks [] world = refl
end_tasks-tasks (id ∷ ids) world = end_tasks-tasks ids _

save_next-tasks :
    (next : World → Option Error × World) (end : Option Error × World)
    (tasks : Text → Option InstallTask)
    → ((world : World) → (next world).1.tasks ≡ world.tasks)
    → end.1.tasks ≡ tasks
    → (save_next next end).1.tasks ≡ tasks
unfolding save_next
save_next-tasks next (some e, after) tasks kept same = same
save_next-tasks next (none, after) tasks kept same = kept after ∙ same

pub save_installation_for_tenants_to_db-tasks :
    (tenants : List Text) (job : PluginInstallJob) (runtime_type : PluginRuntimeType)
    (source : Text) (world : World)
    → (save_installation_for_tenants_to_db tenants job runtime_type source world).1.tasks
      ≡ world.tasks
unfolding save_installation_for_tenants_to_db save_installation_for_tenant_to_db
save_installation_for_tenants_to_db-tasks [] job runtime_type source world = refl
save_installation_for_tenants_to_db-tasks (tenant ∷ tenants) job runtime_type source world =
    save_next-tasks (save_installation_for_tenants_to_db tenants job runtime_type source)
      (save_installation_for_tenant_to_db tenant job runtime_type source world) world.tasks
      (save_installation_for_tenants_to_db-tasks tenants job runtime_type source) refl

module _ (P : InstallTask → Type 0) (identifier u : Text) (keeps : JobKeeps P identifier)
    (ids : List Text) where
  abbrev pub Row : World → Type 0
  Row world = OnRow P (world.tasks u)

  pub success-Row :
      (message : Text) (world : World)
      → Row world
      → Row (status_of ids identifier success message world)
  unfolding set_task_status_for_one_plugin
  success-Row message world h =
      update_tasks-OnRow P identifier u _ ids world (keeps.succeeded message) h

  pub failure-Row :
      (message : Text) (world : World)
      → Row world
      → Row (status_of ids identifier failed message world)
  unfolding set_task_status_for_one_plugin
  failure-Row message world h =
      update_tasks-OnRow P identifier u _ ids world (keeps.failing message) h

  pub message-Row :
      (message : Text) (world : World)
      → Row world
      → Row (set_task_message_for_one_plugin ids identifier message world)
  unfolding set_task_message_for_one_plugin
  message-Row message world h = update_tasks-OnRow P identifier u _ ids world (keeps.told message) h

  pub process_stream-Row :
      (handle : PluginInstallResponse → World → World) (responses : List PluginInstallResponse)
      (end : Option Text) (world : World)
      → ((response : PluginInstallResponse) (w : World) → Row w → Row (handle response w))
      → Row world
      → Row (process_stream ids identifier handle responses end world)
  unfolding process_stream
  process_stream-Row handle [] none world kept h = h
  process_stream-Row handle [] (some message) world kept h = failure-Row message world h
  process_stream-Row handle (response ∷ responses) end world kept h =
      process_stream-Row handle responses end (handle response world) kept (kept response world h)

  module _ (error_message : Error → Text) where
    pub saved-Row :
        (end : Option Error × World) → Row end.1 → Row (saved error_message ids identifier end)
    unfolding saved
    saved-Row (some e, world) h = failure-Row (error_message e) world h
    saved-Row (none, world) h = success-Row (codes "installed") world h

    pub saved_at_end-Row :
        (end : Option Error × World)
        → Row end.1
        → Row (saved_at_end error_message ids identifier end)
    unfolding saved_at_end
    saved_at_end-Row (some e, world) h = failure-Row (error_message e) world h
    saved_at_end-Row (none, world) h = success-Row (codes "installed") world h

-- Either branch of a conditional.
pub either-Row :
    (P : InstallTask → Type 0) (u : Text) (test : Bool) (x y : World)
    → OnRow P (x.tasks u)
    → OnRow P (y.tasks u)
    → OnRow P ((if test then x else y).tasks u)
either-Row P u true x y h g = h
either-Row P u false x y h g = g

module _ (P : InstallTask → Type 0) (u : Text) (error_message : Error → Text) (tenants : List Text)
    (runtime_type : PluginRuntimeType) (source : Text) (ids : List Text) (job : PluginInstallJob)
    (keeps : JobKeeps P job.identifier) where
  pub save-Row :
      (world : World)
      → OnRow P (world.tasks u)
      → OnRow P
          ((save_installation_for_tenants_to_db tenants job runtime_type source world).1.tasks u)
  save-Row world h =
      subst (λ (t : Text → Option InstallTask). OnRow P (t u))
        (sym (save_installation_for_tenants_to_db-tasks tenants job runtime_type source world)) h

  pub install_response-Row :
      (response : PluginInstallResponse) (world : World)
      → OnRow P (world.tasks u)
      → OnRow P (
          (install_response error_message tenants runtime_type source ids job response world).tasks
            u)
  unfolding install_response
  install_response-Row (info text) world h = message-Row P job.identifier u keeps ids text world h
  install_response-Row (error text) world h = failure-Row P job.identifier u keeps ids text world h
  install_response-Row (done text) world h =
      saved_at_end-Row P job.identifier u keeps ids error_message
        (save_installation_for_tenants_to_db tenants job runtime_type source world)
        (save-Row world h)
  install_response-Row (unknown text) world h = h

  install_running-Row :
      (ensured : Installation) (world : World)
      → OnRow P (world.tasks u)
      → OnRow P (
          (install_running error_message tenants runtime_type source ids job ensured world).tasks u)
  unfolding install_running
  install_running-Row (unavailable message) world h =
      failure-Row P job.identifier u keeps ids (codes "failed to start installation: " ++ message)
        world h
  install_running-Row (streaming responses end) world h =
      process_stream-Row P job.identifier u keeps ids
        (install_response error_message tenants runtime_type source ids job) responses end world
        install_response-Row h

  -- What the updates of the job keep holds of a row behind it, if it holds of the row in front of
  -- the job and behind the update to running.
  pub install_body-Row :
      (ensured : Installation) (world : World)
      → OnRow P (world.tasks u)
      → OnRow P ((status_of ids job.identifier running (codes "starting") world).tasks u)
      → OnRow P
          ((install_body error_message tenants runtime_type source ids job ensured world).tasks u)
  unfolding install_body
  install_body-Row ensured world before started =
      either-Row P u job.needs_runtime_install _ _
        (install_running-Row ensured (status_of ids job.identifier running (codes "starting") world)
          started)
        (saved-Row P job.identifier u keeps ids error_message
          (save_installation_for_tenants_to_db tenants job runtime_type source world)
          (save-Row world before))
