-- ===== src/Tasks/Updates.antt =====
-- What UpdateTaskStatus and the loops over it do to the table of tasks, whatever accesses fail.
use dify_plugin_daemon.Common.{
  ◌≡◌, refl, sym, ap, ◌∙◌, subst, Bool, true, false, Option, none, some, List, [], ◌∷◌, ◌⊎◌, inl,
  inr, Bool-cases,
}
use dify_plugin_daemon.Curd.Database.{Text, text_discrete, put}
use dify_plugin_daemon.Curd.Access.{Faults}
use dify_plugin_daemon.Curd.Rows.{put-same, put-other}
use dify_plugin_daemon.Tasks.{
  InstallTask, InstallTaskPluginStatus, World, take_fault, find_plugin, Modifier, modified, settled,
  all_succeeded, commit_tasks, schedule, update_written, update_entry, update_found, update_read,
  update_begun, update_task_status, update_tasks,
}

-- What an update does not touch.
abbrev pub SameRest : World → World → Type 0
SameRest after before =
    (after.database ≡ before.database)
    × (after.installing ≡ before.installing)
    × (after.cleared ≡ before.cleared)
    × (after.effects ≡ before.effects)

-- An update leaves the table as it was, or it writes the entry of the plugin in the task's row.
pub record Wrote (id identifier : Text) (modifier : Modifier) (before : Text → Option InstallTask)
    (after : Text → Option InstallTask) : Type 0 where
  pub task : InstallTask
  pub entry : InstallTaskPluginStatus
  pub had : before id ≡ some task
  pub found : find_plugin identifier task.plugins ≡ some entry
  pub wrote : after ≡ put id (some (settled (modified identifier modifier task entry))) before

module _ (id identifier : Text) (modifier : Modifier) where
  abbrev pub Updates : World → World → Type 0
  Updates before after =
      SameRest after before
      × ((after.tasks ≡ before.tasks) ⊎ Wrote id identifier modifier before.tasks after.tasks)

  commit-Updates :
      (faults : Bool × Faults) (world : World)
      → Updates world (commit_tasks world.tasks faults world)
  unfolding commit_tasks
  commit-Updates (true, fs) world = ((refl, refl, refl, refl), inl refl)
  commit-Updates (false, fs) world = ((refl, refl, refl, refl), inl refl)

  schedule-rest :
      (task : InstallTask) (world : World)
      → SameRest (schedule task world) world × ((schedule task world).tasks ≡ world.tasks)
  unfolding schedule
  schedule-rest task world = elim (Bool-cases (all_succeeded task)) [
    | inl h ↦ rw h ((refl, refl, refl, refl), refl)
    | inr h ↦ rw h ((refl, refl, refl, refl), refl)
  ]

  commit_write :
      (task : InstallTask) (p : InstallTaskPluginStatus) (before world : World)
      (fault : Bool × Faults)
      → before.tasks id ≡ some task
      → find_plugin identifier task.plugins ≡ some p
      → SameRest world before
      → world.tasks ≡ before.tasks
      → Updates before (
          commit_tasks
            (put id (some (settled (modified identifier modifier task p))) world.tasks)
            fault
            world)
  unfolding commit_tasks
  commit_write task p before world (true, fs) had found rest e = (rest, inl e)
  commit_write task p before world (false, fs) had found rest e = (
    rest,
    inr (record {
      task = task;
      entry = p;
      had = had;
      found = found;
      wrote =
          ap
            (λ (t : Text → Option InstallTask).
              put id (some (settled (modified identifier modifier task p))) t)
            e;
    }),
  )

  written-Updates :
      (task : InstallTask) (p : InstallTaskPluginStatus) (before world : World)
      (fault : Bool × Faults)
      → before.tasks id ≡ some task
      → find_plugin identifier task.plugins ≡ some p
      → SameRest world before
      → world.tasks ≡ before.tasks
      → Updates before
          (update_written id (settled (modified identifier modifier task p)) fault world).1
  unfolding update_written
  written-Updates task p before world (true, fs) had found rest e = (rest, inl e)
  written-Updates task p before world (false, fs) had found rest e =
      commit_write task p before world (take_fault fs) had found rest e

  entry-Updates :
      (task : InstallTask) (found : Option InstallTaskPluginStatus) (faults : Faults)
      (world : World)
      → world.tasks id ≡ some task
      → find_plugin identifier task.plugins ≡ found
      → Updates world (update_entry id identifier modifier task found faults world).1
  unfolding update_entry
  entry-Updates task none faults world had found = commit-Updates (take_fault faults) world
  entry-Updates task (some p) faults world had found =
      let (rest, tasks) = schedule-rest (modified identifier modifier task p) world in
      written-Updates task p world (schedule (modified identifier modifier task p) world)
        (take_fault faults) had found rest tasks

  found-Updates :
      (row : Option InstallTask) (faults : Faults) (world : World)
      → world.tasks id ≡ row
      → Updates world (update_found id identifier modifier row faults world).1
  unfolding update_found
  found-Updates none faults world had = commit-Updates (take_fault faults) world
  found-Updates (some task) faults world had =
      entry-Updates task (find_plugin identifier task.plugins) faults world had refl

  read-Updates :
      (fault : Bool × Faults) (world : World)
      → Updates world (update_read id identifier modifier fault world).1
  unfolding update_read
  read-Updates (true, fs) world = ((refl, refl, refl, refl), inl refl)
  read-Updates (false, fs) world = found-Updates (world.tasks id) fs world refl

  begun-Updates :
      (fault : Bool × Faults) (world : World)
      → Updates world (update_begun id identifier modifier fault world).1
  unfolding update_begun
  begun-Updates (true, fs) world = ((refl, refl, refl, refl), inl refl)
  begun-Updates (false, fs) world = read-Updates (take_fault fs) world

  pub update_task_status-Updates :
      (world : World) → Updates world (update_task_status id identifier modifier world).1
  unfolding update_task_status
  update_task_status-Updates world = begun-Updates (take_fault world.faults) world

-- A property of all rows.
abbrev pub OnRow : (InstallTask → Type 0) → Option InstallTask → Type 0
OnRow P none = Unit
OnRow P (some task) = P task

abbrev pub OnTasks : (InstallTask → Type 0) → (Text → Option InstallTask) → Type 0
OnTasks P tasks = (id : Text) → OnRow P (tasks id)

-- An entry's update keeps the property.
abbrev pub Keeps : (InstallTask → Type 0) → Text → Modifier → Type 0
Keeps P identifier modifier =
    (task : InstallTask) (p : InstallTaskPluginStatus)
    → find_plugin identifier task.plugins ≡ some p
    → P task
    → P (settled (modified identifier modifier task p))

pub put-OnRow :
    (P : InstallTask → Type 0) (id u : Text) (task : InstallTask)
    (tasks : Text → Option InstallTask)
    → (u ≡ id → P task)
    → OnRow P (tasks u)
    → OnRow P (put id (some task) tasks u)
put-OnRow P id u task tasks good all = elim (text_discrete u id) [
  | yes e ↦
      subst (λ (v : Text). OnRow P (put id (some task) tasks v)) (sym e)
        (subst (OnRow P) (sym (put-same id (some task) tasks)) (good e))
  | no n ↦ subst (OnRow P) (sym (put-other id u (some task) tasks n)) all
]

-- An update of one task leaves the rows of the others.
pub Updates-other :
    (id identifier u : Text) (modifier : Modifier) (before after : World)
    → ¬ (u ≡ id)
    → Updates id identifier modifier before after
    → after.tasks u ≡ before.tasks u
Updates-other id identifier u modifier before after n (rest, inl e) =
    ap (λ (t : Text → Option InstallTask). t u) e
Updates-other id identifier u modifier before after n (rest, inr w) =
    ap (λ (t : Text → Option InstallTask). t u) w.wrote ∙ put-other id u _ before.tasks n

pub Updates-OnRow :
    (P : InstallTask → Type 0) (id identifier u : Text) (modifier : Modifier) (before after : World)
    → Keeps P identifier modifier
    → Updates id identifier modifier before after
    → OnRow P (before.tasks u)
    → OnRow P (after.tasks u)
Updates-OnRow P id identifier u modifier before after keeps (rest, inl e) good =
    subst (λ (t : Text → Option InstallTask). OnRow P (t u)) (sym e) good
Updates-OnRow P id identifier u modifier before after keeps (rest, inr w) good =
    subst (λ (t : Text → Option InstallTask). OnRow P (t u)) (sym w.wrote)
      (put-OnRow P id u (settled (modified identifier modifier w.task w.entry)) before.tasks
        (λ e. keeps w.task w.entry w.found (subst (OnRow P) (ap before.tasks e ∙ w.had) good)) good)

-- A loop over tasks keeps what each update keeps, and does not touch the rest.
pub update_tasks-OnRow :
    (P : InstallTask → Type 0) (identifier u : Text) (modifier : Modifier) (ids : List Text)
    (world : World)
    → Keeps P identifier modifier
    → OnRow P (world.tasks u)
    → OnRow P ((update_tasks ids identifier modifier world).tasks u)
unfolding update_tasks
update_tasks-OnRow P identifier u modifier [] world keeps good = good
update_tasks-OnRow P identifier u modifier (id ∷ ids) world keeps good =
    update_tasks-OnRow P identifier u modifier ids _ keeps (
      Updates-OnRow P id identifier u modifier world
        (update_task_status id identifier modifier world).1 keeps
        (update_task_status-Updates id identifier modifier world) good)

pub update_tasks-SameRest :
    (identifier : Text) (modifier : Modifier) (ids : List Text) (world : World)
    → SameRest (update_tasks ids identifier modifier world) world
unfolding update_tasks
update_tasks-SameRest identifier modifier [] world = (refl, refl, refl, refl)
update_tasks-SameRest identifier modifier (id ∷ ids) world =
    let next = (update_task_status id identifier modifier world).1 in
    let (a, b, c, d) = update_tasks-SameRest identifier modifier ids next in
    let (e, f, g, h) = (update_task_status-Updates id identifier modifier world).0 in
    (a ∙ e, b ∙ f, c ∙ g, d ∙ h)
