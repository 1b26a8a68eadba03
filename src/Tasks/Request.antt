-- ===== src/Tasks/Request.antt =====
-- InstallMultiplePluginsToTenant and isPluginInstalledForTenant of internal/service/install_plugin.go:
-- the jobs and the task of a request. The jobs run in goroutines of their own, so they are a part of
-- the result. The manager, the declarations and the id of the new row are arguments.
pub mod Answers
pub mod Submission
use dify_plugin_daemon.Common.{
  ℕ, ◌≡◌, refl, sym, Bool, true, false, not, ◌&&◌, Option, none, some, List, [], ◌∷◌, map, length,
  if◌then◌else◌,
}
use dify_plugin_daemon.Curd.Database.{
  Text, plugin_id_of, PluginRuntimeType, PluginDeclaration, PluginInstallation, Database, find_row,
}
use dify_plugin_daemon.Curd.Access.{Error, database_error, Faults, Result, ok, err}
use dify_plugin_daemon.Curd.Install.{is_installed_by}
use dify_plugin_daemon.Curd.Quiet.{Installed}
use dify_plugin_daemon.Tasks.{World, take_fault}
use dify_plugin_daemon.Tasks.Job.{PluginInstallJob}
use dify_plugin_daemon.Tasks.Registry.{
  InstallTaskRegistry, registry_ids, primary_id, build_task_statuses, create_install_tasks,
}

-- The answer to the request. `panicked` is the index out of range where there are fewer metas than
-- plugins.
pub data InstallPluginResponse : Type 0 where
  all_installed no_manager panicked : InstallPluginResponse
  started : Text → InstallPluginResponse
  internal_error : Error → InstallPluginResponse

-- The answer, the jobs that were submitted, the tasks that they update, and the tables.
pub record Request : Type 0 where
  pub response : InstallPluginResponse
  pub jobs : List PluginInstallJob
  pub task_ids : List Text
  pub world : World

abbrev refused : InstallPluginResponse → World → Request
refused response world = record { response = response; jobs = []; task_ids = []; world = world }

abbrev is_found : Option (ℕ × PluginInstallation) → Bool
is_found none = false
is_found (some row) = true

unfoldable pub has_plugin : Text → Text → Database → Bool
unfolding plugin_id_of find_row
has_plugin tenant identifier db =
    is_found (find_row (is_installed_by (plugin_id_of identifier) tenant) 0 db.installations)

abbrev cons_installed : Bool → Result (List Bool) × Faults → Result (List Bool) × Faults
cons_installed installed (ok rest, faults) = (ok (installed ∷ rest), faults)
cons_installed installed (err e, faults) = (err e, faults)

unfoldable pub one_installed :
    (Faults → Result (List Bool) × Faults) → Bool → Bool × Faults → Result (List Bool) × Faults
one_installed next installed (true, faults) = (err database_error, faults)
one_installed next installed (false, faults) = cons_installed installed (next faults)

-- isPluginInstalledForTenant for each plugin, up to the first error.
unfoldable pub are_installed : Text → List Text → Database → Faults → Result (List Bool) × Faults
unfolding has_plugin one_installed take_fault
are_installed tenant [] db faults = (ok [], faults)
are_installed tenant (identifier ∷ identifiers) db faults =
    one_installed (are_installed tenant identifiers db) (has_plugin tenant identifier db)
      (take_fault faults)

unfoldable pub conjunction : List Bool → Bool
conjunction [] = true
conjunction (b ∷ bs) = b && conjunction bs

-- The jobs, or what ends their making.
pub data Jobs : Type 0 where
  made : List PluginInstallJob → Jobs
  no_declaration : Error → Jobs
  out_of_range : Jobs

abbrev pub cons_job : PluginInstallJob → Jobs → Jobs
cons_job job (made jobs) = made (job ∷ jobs)
cons_job job (no_declaration e) = no_declaration e
cons_job job out_of_range = out_of_range

abbrev pub job_of : Text → List Text → Bool → Result PluginDeclaration → (List Text → Jobs) → Jobs
job_of identifier metas installed (err e) next = no_declaration e
job_of identifier [] installed (ok declaration) next = out_of_range
job_of identifier (meta ∷ metas) installed (ok declaration) next =
    cons_job
      (record {
        identifier = identifier;
        declaration = declaration;
        meta = meta;
        needs_runtime_install = not installed;
      })
      (next metas)

unfoldable pub make_jobs :
    (Text → Result PluginDeclaration) → List Text → List Bool → List Text → Jobs
make_jobs fetch [] installed metas = made []
make_jobs fetch (identifier ∷ identifiers) [] metas = out_of_range
make_jobs fetch (identifier ∷ identifiers) (b ∷ installed) metas =
    job_of identifier metas b (fetch identifier) (make_jobs fetch identifiers installed)

unfoldable pub submitted : List PluginInstallJob → Result InstallTaskRegistry × World → Request
unfolding registry_ids primary_id
submitted jobs (err e, world) = refused (internal_error e) world
submitted jobs (ok registry, world) = record {
  response = started (primary_id registry);
  jobs = jobs;
  task_ids = registry_ids registry;
  world = world;
}

module _ (fetch : Text → PluginRuntimeType → Result PluginDeclaration) (new_id : Text → Text)
    (runtime_type : PluginRuntimeType) (tenant : Text) (identifiers : List Text) (source : Text)
    (metas : List Text) where
  unfoldable pub request_made : Jobs → World → Request
  unfolding submitted create_install_tasks build_task_statuses
  request_made (no_declaration e) world = refused (internal_error e) world
  request_made out_of_range world = refused panicked world
  request_made (made jobs) world =
      submitted jobs
        (create_install_tasks new_id (tenant ∷ []) (build_task_statuses identifiers source) world)

module _ (manager_ready : Bool) (fetch : Text → PluginRuntimeType → Result PluginDeclaration)
    (new_id : Text → Text) (runtime_type : PluginRuntimeType) (tenant : Text)
    (identifiers : List Text) (source : Text) (metas : List Text) where
  unfoldable pub request_checked : Result (List Bool) × Faults → World → Request
  unfolding request_made make_jobs conjunction
  request_checked (err e, faults) world =
      refused (internal_error e) (record world { faults = faults })
  request_checked (ok installed, faults) world =
      if conjunction installed
      then refused all_installed (record world { faults = faults })
      else (if manager_ready
          then request_made fetch new_id runtime_type tenant identifiers source metas
              (make_jobs (λ i. fetch i runtime_type) identifiers installed metas)
              (record world { faults = faults })
          else refused no_manager (record world { faults = faults }))

  -- InstallMultiplePluginsToTenant
  unfoldable pub install_multiple_plugins_to_tenant : World → Request
  unfolding request_checked are_installed
  install_multiple_plugins_to_tenant world =
      request_checked (are_installed tenant identifiers world.database world.faults) world
