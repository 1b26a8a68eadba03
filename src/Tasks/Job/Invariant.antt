-- ===== src/Tasks/Job/Invariant.antt =====
-- The jobs keep the rows of the tasks honest, whatever accesses fail.
use dify_plugin_daemon.Common.{◌≡◌, refl, sym, subst, false, Option, none, some, List, [], ◌∷◌, All}
use dify_plugin_daemon.Curd.Database.{Text, text_discrete}
use dify_plugin_daemon.Tasks.{
  is_success, running, success, failed, InstallTask, World, truncate_message, set_status, Modifier,
  update_tasks, update_task_status, set_task_status_for_one_plugin,
}
use dify_plugin_daemon.Tasks.Honest.{Honest, set_status-Honest, set_message-Honest}
use dify_plugin_daemon.Tasks.Bounds.{truncate_message-length}
use dify_plugin_daemon.Tasks.Updates.{
  OnRow, Keeps, Updates-OnRow, Updates-other, update_task_status-Updates,
}
use dify_plugin_daemon.Tasks.Job.{status_of}
use dify_plugin_daemon.Tasks.Job.Entries.{OnEntry, Fresh, Ready, set_status-entry}
use dify_plugin_daemon.Tasks.Job.Keeping.{JobKeeps}

pub Honest-JobKeeps : (identifier : Text) → JobKeeps Honest identifier
Honest-JobKeeps identifier = record {
  succeeded = λ message task p found honest.
      set_status-Honest identifier (truncate_message message) success task p found tt
        (truncate_message-length message) honest;
  failing = λ message task p found honest.
      set_status-Honest identifier (truncate_message message) failed task p found tt
        (truncate_message-length message) honest;
  told = λ message task p found honest.
      set_message-Honest identifier (truncate_message message) task p found
        (truncate_message-length message) honest;
}

-- The plugin is not yet installed in the rows of the tasks.
abbrev pub AreFresh : Text → List Text → (Text → Option InstallTask) → Type 0
AreFresh identifier ids tasks = All (λ id. OnRow (Fresh identifier) (tasks id)) ids

Ready-row :
    (identifier : Text) (row : Option InstallTask)
    → OnRow Honest row
    → OnRow (Fresh identifier) row
    → OnRow (Ready identifier) row
Ready-row identifier none h g = tt
Ready-row identifier (some task) h g = (h, g)

pub Ready-Honest :
    (identifier : Text) (row : Option InstallTask) → OnRow (Ready identifier) row → OnRow Honest row
Ready-Honest identifier none h = tt
Ready-Honest identifier (some task) h = h.0

pub Ready-Fresh :
    (identifier : Text) (row : Option InstallTask)
    → OnRow (Ready identifier) row
    → OnRow (Fresh identifier) row
Ready-Fresh identifier none h = tt
Ready-Fresh identifier (some task) h = h.1

module _ (identifier message : Text) where
  abbrev start : Modifier
  start = set_status running (truncate_message message)

  start-Fresh : Keeps (Fresh identifier) identifier start
  start-Fresh task p found fresh =
      subst (OnEntry (λ q. is_success q.status ≡ false))
        (sym (set_status-entry identifier (truncate_message message) running task p found)) refl

  start-Ready : Keeps (Ready identifier) identifier start
  start-Ready task p found ready = (
    set_status-Honest identifier (truncate_message message) running task p found
        (subst (OnEntry (λ q. is_success q.status ≡ false)) found ready.1)
        (truncate_message-length message) ready.0,
    start-Fresh task p found ready.1,
  )

  -- One task goes to running.
  start_one-Honest :
      (id u : Text) (world : World)
      → OnRow (Fresh identifier) (world.tasks id)
      → OnRow Honest (world.tasks u)
      → OnRow Honest ((update_task_status id identifier start world).1.tasks u)
  start_one-Honest id u world fresh honest =
      let after = (update_task_status id identifier start world).1 in
      let updates = update_task_status-Updates id identifier start world in
      elim (text_discrete u id) [
        | yes e ↦ Ready-Honest identifier (after.tasks u) (
            Updates-OnRow (Ready identifier) id identifier u start world after start-Ready updates (
              Ready-row identifier (world.tasks u) honest
                (subst (λ v. OnRow (Fresh identifier) (world.tasks v)) (sym e) fresh)))
        | no n ↦
            subst (OnRow Honest) (sym (Updates-other id identifier u start world after n updates))
              honest
      ]

  start_one-AreFresh :
      (id : Text) (ids : List Text) (world : World)
      → AreFresh identifier ids world.tasks
      → AreFresh identifier ids (update_task_status id identifier start world).1.tasks
  start_one-AreFresh id [] world fresh = tt
  start_one-AreFresh id (u ∷ ids) world fresh = (
    Updates-OnRow (Fresh identifier) id identifier u start world
        (update_task_status id identifier start world).1 start-Fresh
        (update_task_status-Updates id identifier start world) fresh.0,
    start_one-AreFresh id ids world fresh.1,
  )

  -- The job's first update, to running, of tasks in which the plugin is not yet installed.
  pub running-Honest :
      (ids : List Text) (u : Text) (world : World)
      → AreFresh identifier ids world.tasks
      → OnRow Honest (world.tasks u)
      → OnRow Honest ((status_of ids identifier running message world).tasks u)
  unfolding set_task_status_for_one_plugin update_tasks
  running-Honest [] u world fresh honest = honest
  running-Honest (id ∷ ids) u world fresh honest =
      running-Honest ids u (update_task_status id identifier start world).1
        (start_one-AreFresh id ids world fresh.1) (start_one-Honest id u world fresh.0 honest)
