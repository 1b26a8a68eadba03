-- ===== src/Tasks/Job/Verdict.antt =====
-- What the tasks say of the plugin behind a job in which no access fails.
use dify_plugin_daemon.Common.{◌≡◌, sym, subst, true, none, some, List, [], All}
use dify_plugin_daemon.Curd.Database.{Text, plugin_id_of, Database}
use dify_plugin_daemon.Curd.Quiet.{Installed, AllNamed}
use dify_plugin_daemon.Tasks.{
  InstallTaskStatus, pending, running, success, failed, InstallTask, InstallTaskPluginStatus, World,
  truncate_message, find_plugin, set_status, set_message, update_tasks,
  set_task_message_for_one_plugin, set_task_status_for_one_plugin, settled, modified,
}
use dify_plugin_daemon.Tasks.Updates.{OnRow, Keeps, update_tasks-OnRow, update_tasks-SameRest}
use dify_plugin_daemon.Tasks.Quiet.{update_tasks-quiet, update_tasks-Set}
use dify_plugin_daemon.Tasks.Job.{mem, status_of}
use dify_plugin_daemon.Tasks.Job.Entries.{OnEntry, set_status-entry, set_message-entry}

-- A final state; success only if `Proof` holds.
abbrev pub Verdict : Type 0 → InstallTaskStatus → Type 0
Verdict Proof success = Proof
Verdict Proof failed = Unit
Verdict Proof pending = ⊥
Verdict Proof running = ⊥

abbrev pub OnPlugin : Text → (InstallTaskStatus → Type 0) → InstallTask → Type 0
OnPlugin identifier P task = OnEntry (λ p. P p.status) (find_plugin identifier task.plugins)

set_status-Keeps :
    (P : InstallTaskStatus → Type 0) (identifier message : Text) (status : InstallTaskStatus)
    → P status
    → (task : InstallTask) (p : InstallTaskPluginStatus)
    → find_plugin identifier task.plugins ≡ some p
    → OnPlugin identifier P (settled (modified identifier (set_status status message) task p))
set_status-Keeps P identifier message status good task p found =
    subst (OnEntry (λ q. P q.status))
      (sym (set_status-entry identifier message status task p found)) good

set_message-Keeps :
    (P : InstallTaskStatus → Type 0) (identifier message : Text)
    → Keeps (OnPlugin identifier P) identifier (set_message message)
set_message-Keeps P identifier message task p found good =
    subst (OnEntry (λ q. P q.status)) (sym (set_message-entry identifier message task p found))
      (subst (OnEntry (λ q. P q.status)) found good)

missing-OnPlugin :
    (P : InstallTaskStatus → Type 0) (identifier : Text) (task : InstallTask)
    → find_plugin identifier task.plugins ≡ none
    → OnPlugin identifier P task
missing-OnPlugin P identifier task missing = subst (OnEntry (λ q. P q.status)) (sym missing) tt

module _ (identifier u : Text) (tenants ids : List Text) where
  -- No access fails from here on, and the plugins' rows are named for their identifiers.
  abbrev pub Calm : World → Type 0
  Calm world = (world.faults ≡ []) × AllNamed world.database

  abbrev pub Have : World → Type 0
  Have world = All (λ t. Installed t (plugin_id_of identifier) world.database.installations) tenants

  abbrev pub Judged : World → Type 0
  Judged world = OnRow (OnPlugin identifier (Verdict (Have world))) (world.tasks u)

  pub status-Calm :
      (status : InstallTaskStatus) (message : Text) (world : World)
      → Calm world
      → Calm (status_of ids identifier status message world)
  unfolding set_task_status_for_one_plugin
  status-Calm status message world (quiet, named) =
      let modifier = set_status status (truncate_message message) in
      let rest = update_tasks-SameRest identifier modifier ids world in
      (
        update_tasks-quiet (λ task. Unit) identifier modifier (λ task e. tt) (λ task p e. tt) ids
            world quiet,
        subst AllNamed (sym rest.0) named,
      )

  pub message-Calm :
      (message : Text) (world : World)
      → Calm world
      → Calm (set_task_message_for_one_plugin ids identifier message world)
  unfolding set_task_message_for_one_plugin
  message-Calm message world (quiet, named) =
      let modifier = set_message (truncate_message message) in
      let rest = update_tasks-SameRest identifier modifier ids world in
      (
        update_tasks-quiet (λ task. Unit) identifier modifier (λ task e. tt) (λ task p e. tt) ids
            world quiet,
        subst AllNamed (sym rest.0) named,
      )

  -- A final state that is justified is set in each of the tasks.
  pub status-Judged :
      (status : InstallTaskStatus) (message : Text) (world : World)
      → Calm world
      → mem u ids ≡ true
      → Verdict (Have world) status
      → Judged (status_of ids identifier status message world)
  unfolding set_task_status_for_one_plugin
  status-Judged status message world (quiet, named) member good =
      let modifier = set_status status (truncate_message message) in
      let rest = update_tasks-SameRest identifier modifier ids world in
      let sets =
        set_status-Keeps (Verdict (Have world)) identifier (truncate_message message) status good in
      subst
        (λ (db : Database).
          OnRow
            (OnPlugin identifier
              (Verdict (All (λ t. Installed t (plugin_id_of identifier) db.installations) tenants)))
            ((update_tasks ids identifier modifier world).tasks u))
        (sym rest.0)
        (update_tasks-Set (OnPlugin identifier (Verdict (Have world))) identifier modifier
          (missing-OnPlugin (Verdict (Have world)) identifier) sets u ids world
          (λ task p found h. sets task p found) member quiet)

  pub message-Judged :
      (message : Text) (world : World)
      → Judged world
      → Judged (set_task_message_for_one_plugin ids identifier message world)
  unfolding set_task_message_for_one_plugin
  message-Judged message world h =
      let modifier = set_message (truncate_message message) in
      let rest = update_tasks-SameRest identifier modifier ids world in
      subst
        (λ (db : Database).
          OnRow
            (OnPlugin identifier
              (Verdict (All (λ t. Installed t (plugin_id_of identifier) db.installations) tenants)))
            ((update_tasks ids identifier modifier world).tasks u))
        (sym rest.0)
        (update_tasks-OnRow (OnPlugin identifier (Verdict (Have world))) identifier u modifier ids
          world (set_message-Keeps (Verdict (Have world)) identifier (truncate_message message)) h)
