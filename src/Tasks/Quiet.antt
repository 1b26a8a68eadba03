-- ===== src/Tasks/Quiet.antt =====
-- The updates of tasks where no access fails.
use dify_plugin_daemon.Common.{
  ◌≡◌, refl, sym, subst, true, Option, none, some, List, [], ◌∷◌, arith,
}
use dify_plugin_daemon.Curd.Database.{Text, text_discrete}
use dify_plugin_daemon.Curd.Rows.{put-same}
use dify_plugin_daemon.Tasks.{
  InstallTask, InstallTaskPluginStatus, World, take_fault, find_plugin, Modifier, modified, settled,
  commit_tasks, schedule, update_written, update_entry, update_found, update_read, update_begun,
  update_task_status, update_tasks,
}
use dify_plugin_daemon.Tasks.Updates.{OnRow, Keeps, update_tasks-OnRow}
use dify_plugin_daemon.Tasks.Job.{mem}

module _ (P : InstallTask → Type 0) (identifier : Text) (modifier : Modifier)
    (missing : (task : InstallTask) → find_plugin identifier task.plugins ≡ none → P task)
    (sets : (task : InstallTask) (p : InstallTaskPluginStatus)
      → find_plugin identifier task.plugins ≡ some p
      → P (settled (modified identifier modifier task p))) where
  -- The update happened, with no access left that fails.
  abbrev Set : Text → World → Type 0
  Set id after = (after.faults ≡ []) × OnRow P (after.tasks id)

  entry-Set :
      (id : Text) (task : InstallTask) (found : Option InstallTaskPluginStatus) (world : World)
      → world.tasks id ≡ some task
      → find_plugin identifier task.plugins ≡ found
      → Set id (update_entry id identifier modifier task found [] world).1
  unfolding update_entry update_written commit_tasks take_fault
  entry-Set id task none world row found = (refl, subst (OnRow P) (sym row) (missing task found))
  entry-Set id task (some p) world row found = (
    refl,
    subst (OnRow P)
        (sym (
          put-same id (some (settled (modified identifier modifier task p)))
            (schedule (modified identifier modifier task p) world).tasks))
        (sets task p found),
  )

  found-Set :
      (id : Text) (row : Option InstallTask) (world : World)
      → world.tasks id ≡ row
      → Set id (update_found id identifier modifier row [] world).1
  unfolding update_found commit_tasks take_fault
  found-Set id none world had = (refl, subst (OnRow P) (sym had) tt)
  found-Set id (some task) world had =
      entry-Set id task (find_plugin identifier task.plugins) world had refl

  update_task_status-Set :
      (id : Text) (world : World)
      → world.faults ≡ []
      → Set id (update_task_status id identifier modifier world).1
  unfolding update_task_status update_begun update_read take_fault
  update_task_status-Set id world quiet =
      subst (λ fs. Set id (update_begun id identifier modifier (take_fault fs) world).1) (sym quiet)
        (found-Set id (world.tasks id) world refl)

  pub update_tasks-quiet :
      (ids : List Text) (world : World)
      → world.faults ≡ []
      → (update_tasks ids identifier modifier world).faults ≡ []
  unfolding update_tasks
  update_tasks-quiet [] world quiet = quiet
  update_tasks-quiet (id ∷ ids) world quiet =
      update_tasks-quiet ids _ (update_task_status-Set id world quiet).0

  -- Every task of the loop has the entry that was set.
  pub update_tasks-Set :
      (u : Text) (ids : List Text) (world : World)
      → Keeps P identifier modifier
      → mem u ids ≡ true
      → world.faults ≡ []
      → OnRow P ((update_tasks ids identifier modifier world).tasks u)
  unfolding update_tasks mem
  update_tasks-Set u [] world keeps member quiet = cc
  update_tasks-Set u (id ∷ ids) world keeps member quiet =
      let next = (update_task_status id identifier modifier world).1 in
      let (quiet', now) = update_task_status-Set id world quiet in
      elim (text_discrete id u) [
        | yes e ↦
            update_tasks-OnRow P identifier u modifier ids next keeps
              (subst (λ (v : Text). OnRow P (next.tasks v)) e now)
        | no n ↦ update_tasks-Set u ids next keeps (ground (arith, member, n)) quiet'
      ]
