-- ===== src/Tasks/Recycle/Closing.antt =====
-- What recycling and trimming leave of the tasks.
use dify_plugin_daemon.Common.{
  ◌<◌, ◌≡◌, refl, sym, subst, true, false, Option, none, some, List, [], ◌∷◌, length, ◌==◌, arith,
  Bool-cases, inl, inr,
}
use dify_plugin_daemon.Curd.Database.{Text, text_discrete, same, put}
use dify_plugin_daemon.Curd.Rows.{put-same, put-other}
use dify_plugin_daemon.Tasks.{
  InstallTask, InstallTaskPluginStatus, World, take_fault, commit_tasks, find_plugin, successes,
}
use dify_plugin_daemon.Tasks.Honest.{successes-le-length}
use dify_plugin_daemon.Tasks.Updates.{OnRow}
use dify_plugin_daemon.Tasks.Job.{mem}
use dify_plugin_daemon.Tasks.Recycle.{
  is_open, interrupted, write_task, recycle_found, recycle_read, recycle_task, recycle_all,
  recycle_tasks, shutdown_message, others, trimmed, trim_written, trim_found, trim_read, trim_begun,
  delete_plugin_installation_item_from_task,
}

-- A task that nobody works on any more is not pending or running.
abbrev pub Closed : InstallTask → Type 0
Closed task = is_open task.status ≡ false

-- The world behind one task of the loop: its row is closed, and no other row was opened.
abbrev Closes : Text → World → World → Type 0
Closes id before after =
    (after.faults ≡ [])
    × OnRow Closed (after.tasks id)
    × ((u : Text) → OnRow Closed (before.tasks u) → OnRow Closed (after.tasks u))

put-Closed :
    (id u : Text) (task : InstallTask) (tasks : Text → Option InstallTask)
    → Closed task
    → OnRow Closed (tasks u)
    → OnRow Closed (put id (some task) tasks u)
put-Closed id u task tasks closed h = elim (text_discrete u id) [
  | yes e ↦
      subst (λ (v : Text). OnRow Closed (put id (some task) tasks v)) (sym e)
        (subst (OnRow Closed) (sym (put-same id (some task) tasks)) closed)
  | no n ↦ subst (OnRow Closed) (sym (put-other id u (some task) tasks n)) h
]

recycle_found-Closes :
    (id : Text) (row : Option InstallTask) (world : World)
    → world.tasks id ≡ row
    → Closes id world (recycle_found id row [] world).1
unfolding recycle_found write_task interrupted take_fault
recycle_found-Closes id none world had = (refl, subst (OnRow Closed) (sym had) tt, λ u h. h)
recycle_found-Closes id (some task) world had = elim (Bool-cases (is_open task.status)) [
  | inl h ↦ rw h (
    refl,
    subst (OnRow Closed) (sym (put-same id (some (interrupted shutdown_message task)) world.tasks))
        refl,
    λ u closed. put-Closed id u (interrupted shutdown_message task) world.tasks refl closed,
  )
  | inr h ↦ rw h (refl, subst (OnRow Closed) (sym had) h, λ u closed. closed)
]

recycle_task-Closes :
    (id : Text) (world : World) → world.faults ≡ [] → Closes id world (recycle_task id world).1
unfolding recycle_task recycle_read take_fault
recycle_task-Closes id world quiet =
    subst (λ fs. Closes id world (recycle_read id (take_fault fs) world).1) (sym quiet)
      (recycle_found-Closes id (world.tasks id) world refl)

recycle_all-keeps :
    (u : Text) (ids : List Text) (world : World)
    → world.faults ≡ []
    → OnRow Closed (world.tasks u)
    → OnRow Closed ((recycle_all ids world).1.tasks u)
unfolding recycle_all
recycle_all-keeps u [] world quiet h = h
recycle_all-keeps u (id ∷ ids) world quiet h =
    let (quiet', closed, kept) = recycle_task-Closes id world quiet in
    recycle_all-keeps u ids _ quiet' (kept u h)

recycle_all-Closed :
    (u : Text) (ids : List Text) (world : World)
    → world.faults ≡ []
    → mem u ids ≡ true
    → OnRow Closed ((recycle_all ids world).1.tasks u)
unfolding recycle_all mem
recycle_all-Closed u [] world quiet member = cc
recycle_all-Closed u (id ∷ ids) world quiet member =
    let (quiet', closed, kept) = recycle_task-Closes id world quiet in
    let next = (recycle_task id world).1 in
    elim (text_discrete id u) [
      | yes e ↦
          recycle_all-keeps u ids next quiet'
            (subst (λ (v : Text). OnRow Closed (next.tasks v)) e closed)
      | no n ↦ recycle_all-Closed u ids next quiet' (ground (arith, member, n))
    ]

-- RecycleTasks, when no access fails, leaves no task that the table of running tasks still holds
-- pending or running. The first of a request's jobs to end takes the tasks of the request from that
-- table, so that a task of a job that still runs need not be in it.
pub recycle_tasks-Closed :
    (u : Text) (world : World)
    → world.faults ≡ []
    → mem u world.installing ≡ true
    → OnRow Closed ((recycle_tasks world).1.tasks u)
unfolding recycle_tasks
recycle_tasks-Closed u world quiet member = recycle_all-Closed u world.installing world quiet member

-- A row without the plugin, and with another plugin that is not installed.
abbrev pub Trimmed : Text → InstallTask → Type 0
Trimmed identifier task =
    (find_plugin identifier task.plugins ≡ none) × (successes task.plugins < length task.plugins)

find_plugin-others :
    (identifier : Text) (ps : List InstallTaskPluginStatus)
    → find_plugin identifier (others identifier ps) ≡ none
unfolding find_plugin others
find_plugin-others identifier [] = refl
find_plugin-others identifier (p ∷ ps) = ground (arith, find_plugin-others identifier ps)

trimmed-Trimmed :
    (identifier : Text) (task : InstallTask) → OnRow (Trimmed identifier) (trimmed identifier task)
unfolding trimmed
trimmed-Trimmed identifier task =
    let rest = others identifier task.plugins in
    elim (Bool-cases (length rest == successes rest)) [
      | inl h ↦ rw h tt
      | inr h ↦
          rw h (
            find_plugin-others identifier task.plugins,
            ground (arith, h, successes-le-length rest),
          )
    ]

trim_found-Trimmed :
    (tenant id identifier : Text) (task : InstallTask) (world : World)
    → task.tenant_id ≡ tenant
    → OnRow (Trimmed identifier) ((trim_found tenant id identifier (some task) [] world).1.tasks id)
unfolding trim_found trim_written commit_tasks take_fault
trim_found-Trimmed tenant id identifier task world owner =
    elim (Bool-cases (same task.tenant_id tenant)) [
      | inl h ↦ rw h (
          subst (OnRow (Trimmed identifier))
            (sym (put-same id (trimmed identifier task) world.tasks))
            (trimmed-Trimmed identifier task))
      | inr h ↦ absurd (ground (arith, owner, h))
    ]

-- On a row of the tenant and when no access fails, DeletePluginInstallationItemFromTask deletes the
-- row, or leaves it without the plugin and with another plugin that is not installed.
pub delete_plugin_installation_item_from_task-Trimmed :
    (tenant id identifier : Text) (task : InstallTask) (world : World)
    → world.faults ≡ []
    → world.tasks id ≡ some task
    → task.tenant_id ≡ tenant
    → OnRow
        (Trimmed identifier)
        ((delete_plugin_installation_item_from_task tenant id identifier world).1.tasks id)
unfolding delete_plugin_installation_item_from_task trim_begun trim_read take_fault
delete_plugin_installation_item_from_task-Trimmed tenant id identifier task world quiet had owner =
    subst
      (λ fs.
        OnRow (Trimmed identifier)
          ((trim_begun tenant id identifier (take_fault fs) world).1.tasks id))
      (sym quiet)
      (subst
        (λ row.
          OnRow (Trimmed identifier) ((trim_found tenant id identifier row [] world).1.tasks id))
        (sym had) (trim_found-Trimmed tenant id identifier task world owner))
