-- ===== src/Tasks/Request/Submission.antt =====
-- The jobs that InstallMultiplePluginsToTenant submits.
use dify_plugin_daemon.Common.{
  ◌≡◌, refl, ap, Bool, true, false, not, none, some, List, [], ◌∷◌, map, arith, if◌then◌else◌,
}
use dify_plugin_daemon.Curd.Database.{Text, PluginRuntimeType, PluginDeclaration}
use dify_plugin_daemon.Curd.Access.{Result, ok, err}
use dify_plugin_daemon.Curd.Rows.{put-same}
use dify_plugin_daemon.Tasks.{World, take_fault}
use dify_plugin_daemon.Tasks.Job.{PluginInstallJob}
use dify_plugin_daemon.Tasks.Registry.{
  create_install_tasks, build_task_statuses, create_rows, create_row, registered, registry_ids,
  primary_id, ids_of, first_id, new_task,
}
use dify_plugin_daemon.Tasks.Request.{
  started, Request, cons_job, job_of, has_plugin, conjunction, Jobs, made, no_declaration,
  out_of_range, make_jobs, submitted, request_made, request_checked,
  install_multiple_plugins_to_tenant,
}
use dify_plugin_daemon.Tasks.Request.Answers.{checked, answered-quiet}

cons_job-made :
    (job : PluginInstallJob) (others : Jobs) (jobs : List PluginInstallJob)
    → cons_job job others ≡ made jobs
    → (rest : List PluginInstallJob) × (others ≡ made rest) × (jobs ≡ job ∷ rest)
cons_job-made job (made rest) jobs h = (rest, refl, ground arith)
cons_job-made job (no_declaration e) jobs h = cc
cons_job-made job out_of_range jobs h = cc

job_of-made :
    (identifier : Text) (metas : List Text) (installed : Bool) (fetched : Result PluginDeclaration)
    (next : List Text → Jobs) (jobs : List PluginInstallJob)
    → job_of identifier metas installed fetched next ≡ made jobs
    → (job : PluginInstallJob) × (rest : List PluginInstallJob) × (behind : List Text) × (next
          behind
        ≡ made rest)
      × (jobs ≡ job ∷ rest)
      × (job.identifier ≡ identifier)
      × (job.needs_runtime_install ≡ not installed)
job_of-made identifier metas installed (err e) next jobs h = cc
job_of-made identifier [] installed (ok declaration) next jobs h = cc
job_of-made identifier (meta ∷ metas) installed (ok declaration) next jobs h =
    let job : PluginInstallJob = record {
      identifier = identifier;
      declaration = declaration;
      meta = meta;
      needs_runtime_install = not installed;
    } in
    let (rest, e, joined) = cons_job-made job (next metas) jobs h in
    (job, rest, metas, e, joined, refl, refl)

module _ (manager_ready : Bool) (fetch : Text → PluginRuntimeType → Result PluginDeclaration)
    (new_id : Text → Text) (runtime_type : PluginRuntimeType) (tenant : Text)
    (identifiers : List Text) (source : Text) (metas : List Text) where
  -- The jobs that are made: one for each plugin, in order, which installs the runtime just when the
  -- tenant does not have the plugin.
  abbrev pub Matches : World → List Text → List PluginInstallJob → Type 0
  Matches world plugins jobs =
      (map (λ job. job.identifier) jobs ≡ plugins)
      × (map (λ job. job.needs_runtime_install) jobs
          ≡ map (λ i. not (has_plugin tenant i world.database)) plugins)

  make_jobs-Matches :
      (world : World) (plugins rest : List Text) (jobs : List PluginInstallJob)
      → make_jobs
          (λ i. fetch i runtime_type)
          plugins
          (map (λ i. has_plugin tenant i world.database) plugins)
          rest
        ≡ made jobs
      → Matches world plugins jobs
  unfolding make_jobs
  make_jobs-Matches world [] rest jobs h = ground (arith, h)
  make_jobs-Matches world (i ∷ plugins) rest jobs h =
      let (job, others, behind, e, joined, same_id, same_need) =
        job_of-made i rest (has_plugin tenant i world.database) (fetch i runtime_type)
          (make_jobs (λ i. fetch i runtime_type) plugins
            (map (λ i. has_plugin tenant i world.database) plugins))
          jobs h in
      let (ids, needs) = make_jobs-Matches world plugins behind others e in
      rw joined (rw (same_id, same_need, ids, needs) (refl, refl))

  -- The request that starts the jobs has one task.
  abbrev pub Starts : List PluginInstallJob → Text → Request → Type 0
  Starts jobs id request = (request.jobs ≡ jobs) × (request.task_ids ≡ id ∷ [])

  started-inj : (a b : Text) → started a ≡ started b → a ≡ b
  started-inj a b h = ground (arith, h)

  submitted-Starts :
      (jobs : List PluginInstallJob) (world : World) (id : Text)
      → (submitted jobs (
          create_install_tasks new_id
            (tenant ∷ [])
            (build_task_statuses identifiers source)
            (record world { faults = [] }))).response
        ≡ started id
      → Starts jobs id (
          submitted jobs (
            create_install_tasks new_id
              (tenant ∷ [])
              (build_task_statuses identifiers source)
              (record world { faults = [] })))
  unfolding submitted create_install_tasks create_rows create_row registered take_fault registry_ids
      primary_id ids_of first_id
  submitted-Starts jobs world id h =
      let task = new_task (new_id tenant) tenant (build_task_statuses identifiers source) in
      let here = put-same tenant (some task) (λ tenant. none) in
      let same_id = started-inj _ _ (rw here at h) in
      (refl, rw here (ap (λ (i : Text). i ∷ []) same_id))

  -- A request that answers with a task has made the jobs, and submits them.
  abbrev pub Submits : World → Text → Request → Type 0
  Submits world id request =
      (jobs : List PluginInstallJob) × Matches world identifiers jobs × Starts jobs id request

  request_made-Submits :
      (world : World) (id : Text) (jobs : Jobs)
      → make_jobs
          (λ i. fetch i runtime_type)
          identifiers
          (map (λ i. has_plugin tenant i world.database) identifiers)
          metas
        ≡ jobs
      → (request_made fetch new_id runtime_type tenant identifiers source metas jobs
          (record world { faults = [] })).response
        ≡ started id
      → Submits world id (
          request_made fetch new_id runtime_type tenant identifiers source metas jobs
            (record world { faults = [] }))
  unfolding request_made
  request_made-Submits world id (made jobs) e h =
      (jobs, make_jobs-Matches world identifiers metas jobs e, submitted-Starts jobs world id h)
  request_made-Submits world id (no_declaration x) e h = cc
  request_made-Submits world id out_of_range e h = cc

  -- A branch that answers otherwise can be passed over.
  if-Submits :
      (world : World) (id : Text) (test : Bool) (x y : Request)
      → (x.response ≡ started id → Submits world id x)
      → (y.response ≡ started id → Submits world id y)
      → (if test then x else y).response ≡ started id
      → Submits world id (if test then x else y)
  if-Submits world id true x y f g h = f h
  if-Submits world id false x y f g h = g h

  checked-Submits :
      (world : World) (id : Text)
      → (checked manager_ready fetch new_id runtime_type tenant identifiers source metas
          (ok (map (λ i. has_plugin tenant i world.database) identifiers), [])
          world).response
        ≡ started id
      → Submits world id (
          checked manager_ready fetch new_id runtime_type tenant identifiers source metas
            (ok (map (λ i. has_plugin tenant i world.database) identifiers), [])
            world)
  unfolding request_checked
  checked-Submits world id =
      if-Submits world id (conjunction (map (λ i. has_plugin tenant i world.database) identifiers))
        _ _ (λ h. cc)
        (if-Submits world id manager_ready _ _
          (request_made-Submits world id
            (make_jobs (λ i. fetch i runtime_type) identifiers
              (map (λ i. has_plugin tenant i world.database) identifiers) metas)
            refl)
          (λ h. cc))

  -- When no access fails and InstallMultiplePluginsToTenant answers with a task, it has submitted one
  -- job for each of the plugins, in their order, that all update this task, and a job installs the
  -- runtime exactly when the tenant does not have its plugin.
  pub install_multiple_plugins_to_tenant-Submits :
      (world : World) (id : Text)
      → world.faults ≡ []
      → (install_multiple_plugins_to_tenant manager_ready fetch new_id runtime_type tenant
          identifiers source metas world).response
        ≡ started id
      → Submits world id (
          install_multiple_plugins_to_tenant manager_ready fetch new_id runtime_type tenant
            identifiers source metas world)
  install_multiple_plugins_to_tenant-Submits world id quiet h =
      let same =
        answered-quiet manager_ready fetch new_id runtime_type tenant identifiers source metas world
          quiet in
      rw same (checked-Submits world id (rw same at h))
