-- ===== src/Tasks/Job/Entries.antt =====
-- The entry of the plugin of a job in a row of the tasks.
use dify_plugin_daemon.Common.{◌≡◌, refl, ap, ◌∙◌, false, Option, none, some, List, [], ◌∷◌, arith}
use dify_plugin_daemon.Curd.Database.{Text}
use dify_plugin_daemon.Tasks.{
  InstallTaskStatus, is_success, InstallTaskPluginStatus, InstallTask, find_plugin, set_plugin,
  settled, all_succeeded, modified, set_status, set_message,
}
use dify_plugin_daemon.Tasks.Honest.{Honest, set_status-plugins}

-- The entry of a plugin, if it has one, satisfies a predicate.
abbrev pub OnEntry : (InstallTaskPluginStatus → Type 0) → Option InstallTaskPluginStatus → Type 0
OnEntry P none = Unit
OnEntry P (some p) = P p

abbrev pub Fresh : Text → InstallTask → Type 0
Fresh identifier task =
    OnEntry (λ p. is_success p.status ≡ false) (find_plugin identifier task.plugins)

-- A row before a plugin's job: honest, and the plugin is not yet installed.
abbrev pub Ready : Text → InstallTask → Type 0
Ready identifier task = Honest task × Fresh identifier task

-- The entry that was written is the one that is found.
pub find_plugin-set_plugin :
    (identifier : Text) (p q : InstallTaskPluginStatus) (ps : List InstallTaskPluginStatus)
    → find_plugin identifier ps ≡ some p
    → q.plugin_unique_identifier ≡ p.plugin_unique_identifier
    → find_plugin identifier (set_plugin identifier q ps) ≡ some q
unfolding find_plugin set_plugin
find_plugin-set_plugin identifier p q [] h e = cc
find_plugin-set_plugin identifier p q (x ∷ ps) h e =
    ground (arith, h, e, find_plugin-set_plugin identifier p q ps)

pub settled-plugins : (task : InstallTask) → (settled task).plugins ≡ task.plugins
unfolding settled all_succeeded
settled-plugins task = ground arith

-- What set_status makes of the entry.
pub set_status-entry :
    (identifier message : Text) (status : InstallTaskStatus) (task : InstallTask)
    (p : InstallTaskPluginStatus)
    → find_plugin identifier task.plugins ≡ some p
    → find_plugin identifier
        (settled (modified identifier (set_status status message) task p)).plugins
      ≡ some (record p { status = status; message = message })
set_status-entry identifier message status task p found =
    ap (find_plugin identifier) (
      settled-plugins (modified identifier (set_status status message) task p)
      ∙ set_status-plugins identifier message status task p)
    ∙ find_plugin-set_plugin identifier p (record p { status = status; message = message })
        task.plugins found refl

-- What set_message makes of the entry.
pub set_message-entry :
    (identifier message : Text) (task : InstallTask) (p : InstallTaskPluginStatus)
    → find_plugin identifier task.plugins ≡ some p
    → find_plugin identifier (settled (modified identifier (set_message message) task p)).plugins
      ≡ some (record p { message = message })
unfolding modified
set_message-entry identifier message task p found =
    ap (find_plugin identifier) (settled-plugins (modified identifier (set_message message) task p))
    ∙ find_plugin-set_plugin identifier p (record p { message = message }) task.plugins found refl
