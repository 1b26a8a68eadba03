-- ===== src/Tasks/Registry/Rows.antt =====
-- The rows that createInstallTasks makes.
use dify_plugin_daemon.Common.{
  ◌≡◌, refl, sym, subst, Bool, true, false, Option, none, List, [], ◌∷◌, arith, All, Bool-cases,
  inl, inr,
}
use dify_plugin_daemon.Curd.Database.{Text, same}
use dify_plugin_daemon.Curd.Access.{Faults, ok, err}
use dify_plugin_daemon.Tasks.{is_success, InstallTask, World, take_fault, find_plugin, successes}
use dify_plugin_daemon.Tasks.Honest.{IsShort}
use dify_plugin_daemon.Tasks.Updates.{OnTasks, put-OnRow}
use dify_plugin_daemon.Tasks.Job.Entries.{OnEntry, Ready}
use dify_plugin_daemon.Tasks.Registry.{
  build_task_statuses, new_task, Created, create_row, create_rows, registered, create_install_tasks,
}

find_plugin-new :
    (identifier source : Text) (identifiers : List Text)
    → OnEntry
        (λ p. is_success p.status ≡ false)
        (find_plugin identifier (build_task_statuses identifiers source))
unfolding find_plugin build_task_statuses
find_plugin-new identifier source [] = tt
find_plugin-new identifier source (i ∷ identifiers) = elim (Bool-cases (same i identifier)) [
  | inl h ↦ rw h refl
  | inr h ↦ rw h (find_plugin-new identifier source identifiers)
]

successes-new :
    (source : Text) (identifiers : List Text)
    → successes (build_task_statuses identifiers source) ≡ 0
unfolding successes build_task_statuses
successes-new source [] = refl
successes-new source (i ∷ identifiers) = omega (arith, successes-new source identifiers)

new-IsShort :
    (source : Text) (identifiers : List Text) → All IsShort (build_task_statuses identifiers source)
unfolding build_task_statuses
new-IsShort source [] = tt
new-IsShort source (i ∷ identifiers) = (omega arith, new-IsShort source identifiers)

-- A new row is ready for the job of any plugin.
pub new_task-Ready :
    (id tenant source identifier : Text) (identifiers : List Text)
    → Ready identifier (new_task id tenant (build_task_statuses identifiers source))
new_task-Ready id tenant source identifier identifiers = (
  record {
    counted = sym (successes-new source identifiers);
    complete = tt;
    short = new-IsShort source identifiers;
  },
  find_plugin-new identifier source identifiers,
)

module _ (new_id : Text → Text) (identifiers : List Text) (source identifier : Text) where
  abbrev AreReady : World → Type 0
  AreReady world = OnTasks (Ready identifier) world.tasks

  create_row-Ready :
      (next : (Text → Option InstallTask) → World → Created) (tenant : Text)
      (registered : Text → Option InstallTask) (fault : Bool × Faults) (world : World)
      → ((tasks : Text → Option InstallTask) (w : World) → AreReady w → AreReady (next tasks w).1)
      → AreReady world
      → AreReady
          (create_row next tenant
            (new_task (new_id tenant) tenant (build_task_statuses identifiers source))
            registered
            fault
            world).1
  unfolding create_row
  create_row-Ready next tenant registered (true, faults) world kept ready = ready
  create_row-Ready next tenant registered (false, faults) world kept ready = kept _ _ (λ u.
      put-OnRow (Ready identifier) (new_id tenant) u
        (new_task (new_id tenant) tenant (build_task_statuses identifiers source)) world.tasks
        (λ e. new_task-Ready (new_id tenant) tenant source identifier identifiers) (ready u))

  create_rows-Ready :
      (tenants : List Text) (registered : Text → Option InstallTask) (world : World)
      → AreReady world
      → AreReady
          (create_rows new_id (build_task_statuses identifiers source) tenants registered world).1
  unfolding create_rows
  create_rows-Ready [] registered world ready = ready
  create_rows-Ready (tenant ∷ tenants) registered world ready =
      create_row-Ready (create_rows new_id (build_task_statuses identifiers source) tenants) tenant
        registered (take_fault world.faults) world (create_rows-Ready tenants) ready

  registered-world :
      (tenants : List Text) (created : Created) → (registered tenants created).1 ≡ created.1
  unfolding registered
  registered-world tenants (ok tasks, world) = refl
  registered-world tenants (err e, world) = refl

  -- createInstallTasks, whatever accesses fail, keeps all rows ready for the job of any plugin: their
  -- counts are right and the plugin is not yet installed in them.
  pub create_install_tasks-Ready :
      (tenants : List Text) (world : World)
      → OnTasks (Ready identifier) world.tasks
      → OnTasks
          (Ready identifier)
          (create_install_tasks new_id tenants
            (build_task_statuses identifiers source)
            world).1.tasks
  unfolding create_install_tasks
  create_install_tasks-Ready tenants world ready =
      subst AreReady (sym (registered-world tenants _))
        (create_rows-Ready tenants (λ tenant. none) world ready)
