-- ===== src/Tasks/Job/Outcome.antt =====
-- ProcessInstallJob where no access fails: how it ends for the plugin and the tenants.
use dify_plugin_daemon.Common.{
  ◌≡◌, refl, Bool, true, false, not, ◌||◌, Option, none, some, List, [], ◌∷◌, ◌++◌, arith,
  Bool-cases, inl, inr, if◌then◌else◌,
}
use dify_plugin_daemon.Curd.Database.{Text, PluginRuntimeType}
use dify_plugin_daemon.Curd.Access.{Error}
use dify_plugin_daemon.Curd.Quiet.{AllNamed}
use dify_plugin_daemon.Tasks.{codes, running, success, failed, World}
use dify_plugin_daemon.Tasks.Job.{
  PluginInstallJob, PluginInstallResponse, info, error, done, unknown, Installation, unavailable,
  streaming, mem, store_task, start_tasks, end_tasks, status_of, process_stream, saved,
  saved_at_end, save_installation_for_tenants_to_db, install_response, install_running,
  install_body, process_install_job,
}
use dify_plugin_daemon.Tasks.Job.Saving.{Saved, save_installation_for_tenants_to_db-Saved}
use dify_plugin_daemon.Tasks.Job.Verdict.{
  Calm, Judged, status-Calm, message-Calm, status-Judged, message-Judged,
}

-- Whether a stream has an event that ends the installation, or ends with an error.
unfoldable pub stream_concludes : List PluginInstallResponse → Option Text → Bool
stream_concludes [] none = false
stream_concludes [] (some message) = true
stream_concludes (error text ∷ responses) end = true
stream_concludes (done text ∷ responses) end = true
stream_concludes (info text ∷ responses) end = stream_concludes responses end
stream_concludes (unknown text ∷ responses) end = stream_concludes responses end

unfoldable pub concludes : PluginInstallJob → Installation → Bool
unfolding stream_concludes
concludes job (unavailable message) = true
concludes job (streaming responses end) =
    not job.needs_runtime_install || stream_concludes responses end

module _ (error_message : Error → Text) (tenants : List Text) (runtime_type : PluginRuntimeType)
    (source : Text) (ids : List Text) (job : PluginInstallJob) (u : Text)
    (member : mem u ids ≡ true) where
  abbrev IsCalm : World → Type 0
  IsCalm = Calm job.identifier u tenants ids

  abbrev IsJudged : World → Type 0
  IsJudged = Judged job.identifier u tenants ids

  -- No access fails, and the task has its verdict.
  abbrev Done : World → Type 0
  Done world = IsCalm world × IsJudged world

  failed-Done :
      (message : Text) (world : World)
      → IsCalm world
      → Done (status_of ids job.identifier failed message world)
  failed-Done message world calm = (
    status-Calm job.identifier u tenants ids failed message world calm,
    status-Judged job.identifier u tenants ids failed message world calm member tt,
  )

  saved_at_end-Done :
      (before : World) (end : Option Error × World)
      → Saved tenants job.identifier before end
      → Done (saved_at_end error_message ids job.identifier end)
  unfolding saved_at_end
  saved_at_end-Done before (some e, world) saves = absurd (let h = saves.no_error in cc)
  saved_at_end-Done before (none, world) saves = (
    status-Calm job.identifier u tenants ids success (codes "installed") world
        (saves.quiet, saves.named),
    status-Judged job.identifier u tenants ids success (codes "installed") world
        (saves.quiet, saves.named) member saves.installed,
  )

  saved-Done :
      (before : World) (end : Option Error × World)
      → Saved tenants job.identifier before end
      → Done (saved error_message ids job.identifier end)
  unfolding saved
  saved-Done before (some e, world) saves = absurd (let h = saves.no_error in cc)
  saved-Done before (none, world) saves = (
    status-Calm job.identifier u tenants ids success (codes "installed") world
        (saves.quiet, saves.named),
    status-Judged job.identifier u tenants ids success (codes "installed") world
        (saves.quiet, saves.named) member saves.installed,
  )

  abbrev respond : PluginInstallResponse → World → World
  respond = install_response error_message tenants runtime_type source ids job

  done-Done : (text : Text) (world : World) → IsCalm world → Done (respond (done text) world)
  unfolding install_response
  done-Done text world calm =
      saved_at_end-Done world
        (save_installation_for_tenants_to_db tenants job runtime_type source world)
        (save_installation_for_tenants_to_db-Saved tenants job runtime_type source world calm.0
          calm.1)

  respond-Done :
      (response : PluginInstallResponse) (world : World)
      → Done world
      → Done (respond response world)
  unfolding install_response
  respond-Done (info text) world (calm, judged) = (
    message-Calm job.identifier u tenants ids text world calm,
    message-Judged job.identifier u tenants ids text world judged,
  )
  respond-Done (error text) world (calm, judged) = failed-Done text world calm
  respond-Done (done text) world (calm, judged) = done-Done text world calm
  respond-Done (unknown text) world h = h

  stream-Done :
      (responses : List PluginInstallResponse) (end : Option Text) (world : World)
      → Done world
      → Done (process_stream ids job.identifier respond responses end world)
  unfolding process_stream
  stream-Done [] none world h = h
  stream-Done [] (some message) world h = failed-Done message world h.0
  stream-Done (response ∷ responses) end world h =
      stream-Done responses end (respond response world) (respond-Done response world h)

  stream_concludes-Done :
      (responses : List PluginInstallResponse) (end : Option Text) (world : World)
      → stream_concludes responses end ≡ true
      → IsCalm world
      → Done (process_stream ids job.identifier respond responses end world)
  unfolding stream_concludes process_stream install_response
  stream_concludes-Done [] none world h calm = cc
  stream_concludes-Done [] (some message) world h calm = failed-Done message world calm
  stream_concludes-Done (error text ∷ responses) end world h calm =
      stream-Done responses end _ (failed-Done text world calm)
  stream_concludes-Done (done text ∷ responses) end world h calm =
      stream-Done responses end _ (done-Done text world calm)
  stream_concludes-Done (info text ∷ responses) end world h calm =
      stream_concludes-Done responses end _ h
        (message-Calm job.identifier u tenants ids text world calm)
  stream_concludes-Done (unknown text ∷ responses) end world h calm =
      stream_concludes-Done responses end world h calm

  running_concludes-Done :
      (ensured : Installation) (world : World)
      → job.needs_runtime_install ≡ true
      → concludes job ensured ≡ true
      → IsCalm world
      → Done (install_running error_message tenants runtime_type source ids job ensured world)
  unfolding concludes install_running
  running_concludes-Done (unavailable message) world needs h calm =
      failed-Done (codes "failed to start installation: " ++ message) world calm
  running_concludes-Done (streaming responses end) world needs h calm =
      stream_concludes-Done responses end world (ground (arith, needs, h)) calm

  choose-Done :
      (test : Bool) (x y : World)
      → (test ≡ true → Done x)
      → (test ≡ false → Done y)
      → Done (if test then x else y)
  choose-Done true x y h g = h refl
  choose-Done false x y h g = g refl

  body_concludes-Done :
      (ensured : Installation) (world : World)
      → concludes job ensured ≡ true
      → IsCalm world
      → Done (install_body error_message tenants runtime_type source ids job ensured world)
  unfolding install_body
  body_concludes-Done ensured world h calm =
      choose-Done job.needs_runtime_install _ _
        (λ needs.
          running_concludes-Done ensured
            (status_of ids job.identifier running (codes "starting") world) needs h
            (status-Calm job.identifier u tenants ids running (codes "starting") world calm))
        (λ needs.
          saved-Done world
            (save_installation_for_tenants_to_db tenants job runtime_type source world)
            (save_installation_for_tenants_to_db-Saved tenants job runtime_type source world calm.0
              calm.1))

  store_task-Calm : (id : Text) (world : World) → IsCalm world → IsCalm (store_task id world)
  unfolding store_task
  store_task-Calm id world calm = elim (Bool-cases (mem id world.installing)) [
    | inl h ↦ rw h calm
    | inr h ↦ rw h calm
  ]

  start_tasks-Calm :
      (started : List Text) (world : World) → IsCalm world → IsCalm (start_tasks started world)
  unfolding start_tasks
  start_tasks-Calm [] world calm = calm
  start_tasks-Calm (id ∷ started) world calm =
      start_tasks-Calm started (store_task id world) (store_task-Calm id world calm)

  end_tasks-Judged :
      (ended : List Text) (world : World) → IsJudged world → IsJudged (end_tasks ended world)
  unfolding end_tasks
  end_tasks-Judged [] world h = h
  end_tasks-Judged (id ∷ ended) world h = end_tasks-Judged ended _ h

  -- When no access fails, the plugins' rows have the plugin_id of their identifiers (those of remote
  -- plugins need not) and the installation
  -- concludes (it is not needed, cannot start, or its stream gives a done, an error event or ends
  -- with an error), ProcessInstallJob leaves the job's plugin in each of its tasks in the state
  -- success or failed, and in the state success only if each tenant has the plugin installed.
  pub process_install_job-Judged :
      (ensured : Installation) (world : World)
      → world.faults ≡ []
      → AllNamed world.database
      → concludes job ensured ≡ true
      → Judged job.identifier u tenants ids
          (process_install_job error_message tenants runtime_type source ids job ensured world)
  unfolding process_install_job
  process_install_job-Judged ensured world quiet named h =
      end_tasks-Judged ids _
        (body_concludes-Done ensured (start_tasks ids world) h
          (start_tasks-Calm ids world (quiet, named))).1
