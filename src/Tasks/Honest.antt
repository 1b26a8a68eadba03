-- ===== src/Tasks/Honest.antt =====
-- The counts and the states of a task's row, and what an update does to them.
use dify_plugin_daemon.Common.{
  ℕ, ◌+◌, ◌≤◌, ◌≡◌, refl, true, false, some, List, [], ◌∷◌, if◌then◌else◌, length, arith, All,
  Bool-cases, inl, inr,
}
use dify_plugin_daemon.Curd.Database.{Text}
use dify_plugin_daemon.Tasks.{
  InstallTaskStatus, pending, running, success, failed, is_success, InstallTaskPluginStatus,
  InstallTask, find_plugin, set_plugin, successes, modified, all_succeeded, settled, count_success,
  count_failure, set_status, set_message,
}

abbrev pub IsShort : InstallTaskPluginStatus → Type 0
IsShort p = length p.message ≤ 1027

-- A task in the state success has no plugin that is not installed.
abbrev pub Complete : InstallTaskStatus → InstallTask → Type 0
Complete success task = successes task.plugins ≡ length task.plugins
Complete pending task = Unit
Complete running task = Unit
Complete failed task = Unit

pub record Honest (task : InstallTask) : Type 0 where
  pub counted : task.completed_plugins ≡ successes task.plugins
  pub complete : Complete task.status task
  pub short : All IsShort task.plugins

abbrev pub one : InstallTaskPluginStatus → ℕ
one p = if is_success p.status then 1 else 0

successes-set_plugin :
    (identifier : Text) (p q : InstallTaskPluginStatus) (ps : List InstallTaskPluginStatus)
    → find_plugin identifier ps ≡ some p
    → successes (set_plugin identifier q ps) + one p ≡ successes ps + one q
unfolding find_plugin set_plugin successes
successes-set_plugin identifier p q [] h = cc
successes-set_plugin identifier p q (x ∷ ps) h =
    ground (arith, h, successes-set_plugin identifier p q ps)

length-set_plugin :
    (identifier : Text) (q : InstallTaskPluginStatus) (ps : List InstallTaskPluginStatus)
    → length (set_plugin identifier q ps) ≡ length ps
unfolding set_plugin
length-set_plugin identifier q [] = omega arith
length-set_plugin identifier q (x ∷ ps) = ground (arith, length-set_plugin identifier q ps)

set_plugin-IsShort :
    (identifier : Text) (q : InstallTaskPluginStatus) (ps : List InstallTaskPluginStatus)
    → IsShort q
    → All IsShort ps
    → All IsShort (set_plugin identifier q ps)
unfolding set_plugin
set_plugin-IsShort identifier q [] hq h = tt
set_plugin-IsShort identifier q (x ∷ ps) hq h =
    ground (arith, hq, h, set_plugin-IsShort identifier q ps hq h.1)

-- The entry that set_status writes.
abbrev written : InstallTaskStatus → Text → InstallTaskPluginStatus → InstallTaskPluginStatus
written status message p = record p { status = status; message = message }

-- A new state keeps the counts right, unless it takes success away without a failure.
abbrev pub Allowed : InstallTaskStatus → InstallTaskPluginStatus → Type 0
Allowed success p = Unit
Allowed failed p = Unit
Allowed pending p = is_success p.status ≡ false
Allowed running p = is_success p.status ≡ false

record Counts (task after : InstallTask) (p q : InstallTaskPluginStatus) : Type 0 where
  counted : after.completed_plugins ≡ successes after.plugins
  total : length after.plugins ≡ length task.plugins

set_status-counted :
    (identifier message : Text) (status : InstallTaskStatus) (task : InstallTask)
    (p : InstallTaskPluginStatus)
    → find_plugin identifier task.plugins ≡ some p
    → Allowed status p
    → task.completed_plugins ≡ successes task.plugins
    → (modified identifier (set_status status message) task p).completed_plugins
      ≡ successes (modified identifier (set_status status message) task p).plugins
unfolding modified set_status count_success count_failure
set_status-counted identifier message success task p found allowed h =
    ground
      (arith, h, successes-set_plugin identifier p (written success message p) task.plugins found)
set_status-counted identifier message failed task p found allowed h =
    ground
      (arith, h, successes-set_plugin identifier p (written failed message p) task.plugins found)
set_status-counted identifier message pending task p found allowed h = ground (
  arith,
  h,
  allowed,
  successes-set_plugin identifier p (written pending message p) task.plugins found,
)
set_status-counted identifier message running task p found allowed h = ground (
  arith,
  h,
  allowed,
  successes-set_plugin identifier p (written running message p) task.plugins found,
)

pub successes-le-length : (ps : List InstallTaskPluginStatus) → successes ps ≤ length ps
unfolding successes
successes-le-length [] = omega arith
successes-le-length (p ∷ ps) = ground (arith, successes-le-length ps)

Complete-intro :
    (status : InstallTaskStatus) (task : InstallTask)
    → (is_success status ≡ true → successes task.plugins ≡ length task.plugins)
    → Complete status task
Complete-intro success task h = h refl
Complete-intro pending task h = tt
Complete-intro running task h = tt
Complete-intro failed task h = tt

Complete-elim :
    (status : InstallTaskStatus) (task : InstallTask)
    → Complete status task
    → is_success status ≡ true
    → successes task.plugins ≡ length task.plugins
Complete-elim success task h e = h
Complete-elim pending task h e = cc
Complete-elim running task h e = cc
Complete-elim failed task h e = cc

set_status-Complete :
    (identifier message : Text) (status : InstallTaskStatus) (task : InstallTask)
    (p : InstallTaskPluginStatus)
    → find_plugin identifier task.plugins ≡ some p
    → Allowed status p
    → Complete task.status task
    → is_success (modified identifier (set_status status message) task p).status ≡ true
    → successes (modified identifier (set_status status message) task p).plugins
      ≡ length (modified identifier (set_status status message) task p).plugins
unfolding modified set_status count_success count_failure
set_status-Complete identifier message success task p found allowed h = λ e. ground (
  arith,
  e,
  Complete-elim task.status task h,
  successes-le-length (set_plugin identifier (written success message p) task.plugins),
  length-set_plugin identifier (written success message p) task.plugins,
  successes-set_plugin identifier p (written success message p) task.plugins found,
)
set_status-Complete identifier message failed task p found allowed h = λ e. ground (
  arith,
  e,
  Complete-elim task.status task h,
  length-set_plugin identifier (written failed message p) task.plugins,
  successes-set_plugin identifier p (written failed message p) task.plugins found,
)
set_status-Complete identifier message pending task p found allowed h = λ e. ground (
  arith,
  e,
  allowed,
  Complete-elim task.status task h,
  length-set_plugin identifier (written pending message p) task.plugins,
  successes-set_plugin identifier p (written pending message p) task.plugins found,
)
set_status-Complete identifier message running task p found allowed h = λ e. ground (
  arith,
  e,
  allowed,
  Complete-elim task.status task h,
  length-set_plugin identifier (written running message p) task.plugins,
  successes-set_plugin identifier p (written running message p) task.plugins found,
)

settled-Honest :
    (task : InstallTask)
    → task.completed_plugins ≡ successes task.plugins
    → (is_success task.status ≡ true → successes task.plugins ≡ length task.plugins)
    → All IsShort task.plugins
    → Honest (settled task)
unfolding settled all_succeeded
settled-Honest task counted complete short = elim (Bool-cases (all_succeeded task)) [
  | inl h ↦ rw h (record { counted = counted; complete = ground (arith, h); short = short })
  | inr h ↦ rw h (record {
    counted = counted;
    complete = Complete-intro task.status task complete;
    short = short;
  })
]

pub set_status-plugins :
    (identifier message : Text) (status : InstallTaskStatus) (task : InstallTask)
    (p : InstallTaskPluginStatus)
    → (modified identifier (set_status status message) task p).plugins
      ≡ set_plugin identifier (written status message p) task.plugins
unfolding modified set_status count_success count_failure
set_status-plugins identifier message status task p = ground arith

-- An update with set_status keeps a row honest.
pub set_status-Honest :
    (identifier message : Text) (status : InstallTaskStatus) (task : InstallTask)
    (p : InstallTaskPluginStatus)
    → find_plugin identifier task.plugins ≡ some p
    → Allowed status p
    → length message ≤ 1027
    → Honest task
    → Honest (settled (modified identifier (set_status status message) task p))
set_status-Honest identifier message status task p found allowed bound honest =
    settled-Honest (modified identifier (set_status status message) task p)
      (set_status-counted identifier message status task p found allowed honest.counted)
      (set_status-Complete identifier message status task p found allowed honest.complete)
      (rw (set_status-plugins identifier message status task p)
        (set_plugin-IsShort identifier (written status message p) task.plugins bound honest.short))

-- So does an update with set_message.
pub set_message-Honest :
    (identifier message : Text) (task : InstallTask) (p : InstallTaskPluginStatus)
    → find_plugin identifier task.plugins ≡ some p
    → length message ≤ 1027
    → Honest task
    → Honest (settled (modified identifier (set_message message) task p))
unfolding modified
set_message-Honest identifier message task p found bound honest =
    let written_message : InstallTaskPluginStatus = record p { message = message } in
    let count = successes-set_plugin identifier p written_message task.plugins found in
    settled-Honest (modified identifier (set_message message) task p)
      (omega (arith, count, honest.counted))
      (λ e. omega (
        arith,
        count,
        Complete-elim task.status task honest.complete e,
        length-set_plugin identifier written_message task.plugins,
      ))
      (set_plugin-IsShort identifier written_message task.plugins bound honest.short)
