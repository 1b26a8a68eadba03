-- ===== src/Curd/References/Moves.antt =====
-- The steps of UpgradePlugin, as they bear on the plugins, the declarations and the installations.
use dify_plugin_daemon.Common.{
  ℕ, Bool, true, false, Option, none, some, ◌≡◌, refl, if◌then◌else◌, ap, sym, subst, ◌∙◌,
}
use dify_plugin_daemon.Curd.Database.{
  Text, text_discrete, is_zero, PluginRuntimeType, PluginDeclaration, Plugin, PluginInstallation,
  Part, Database, put, set_row,
}
use dify_plugin_daemon.Curd.Access.{Faults, Tx, and_then, ◌>>◌, pure}
use dify_plugin_daemon.Curd.Install.{or_else, refer}
use dify_plugin_daemon.Curd.Uninstall.{delete_unreferred, unrefer}
use dify_plugin_daemon.Curd.Rows.{put-same, put-other}
use dify_plugin_daemon.Curd.References.{
  Post, Gives, access-Gives, ensured, Same, done-Post, Keeps, Keeps-then, Keeps-Post,
  create_declared-Keeps,
}
use dify_plugin_daemon.Curd.Upgrade.{
  required_installation, upgraded_plugin, create_if_not_found, upgraded_installation,
  update_installation, map_option, add_refers, delete_original, replace_part, replace_parts,
}
use mathlib.Core.Path.{fun_ext}
use dify_plugin_daemon.Curd.References.Removal.{
  delete_declared-Keeps, Removed, delete_unreferred-Keeps, settled,
}

put-id : {A : Type 0} (k : Text) (r : Option A) (t : Text → Option A) → t k ≡ r → put k r t ≡ t
put-id k r t e = fun_ext (λ u. elim (text_discrete u k) [
  | yes h ↦ subst (λ u. put k r t u ≡ t u) (sym h) (put-same k r t ∙ sym e)
  | no n ↦ put-other k u r t n
])

-- The tables once the new plugin is there and the installation refers to it.
abbrev pub moved :
    Text → Text → PluginRuntimeType → Text → Text → ℕ → PluginInstallation → Database → Database
moved o i t s m k q db = record db {
  plugins =
      put o
        (map_option unrefer (put i (or_else (db.plugins i) (upgraded_plugin i t s)) db.plugins o))
        (put i (or_else (db.plugins i) (upgraded_plugin i t s)) db.plugins);
  installations = set_row k (some (upgraded_installation q i s m)) db.installations;
}

-- The tables once the new plugin has its reference and its declaration.
abbrev pub referred : Text → PluginRuntimeType → PluginDeclaration → Database → Database
referred i t d db = record db {
  plugins = put i (map_option refer (db.plugins i)) db.plugins;
  declarations = ensured i t d db.declarations;
}

pub referred-Same :
    (i : Text) (t : PluginRuntimeType) (d : PluginDeclaration) (x y : Database)
    → Same x y
    → Same (referred i t d x) (referred i t d y)
referred-Same i t d x y h =
    (ap (λ p. put i (map_option refer (p i)) p) h.0, ap (ensured i t d) h.1, h.2)

created_row :
    (i : Text) (new : Plugin) (db : Database) (fs : Faults)
    → Gives
        (create_if_not_found i new none db fs)
        tt
        (record db { plugins = put i (some new) db.plugins })
unfolding create_if_not_found
created_row i new db fs =
    access-Gives (λ db. (tt, record db { plugins = put i (some new) db.plugins })) db fs

kept_row :
    (i : Text) (new p : Plugin) (db : Database) (fs : Faults)
    → db.plugins i ≡ some p
    → Gives
        (create_if_not_found i new (some p) db fs)
        tt
        (record db { plugins = put i (some p) db.plugins })
unfolding create_if_not_found Gives
kept_row i new p db fs e =
    (refl, ap (λ x. record db { plugins = x }) (sym (put-id i (some p) db.plugins e)))

pub create_if_not_found-Gives :
    (i : Text) (new : Plugin) (db : Database) (fs : Faults)
    → Gives
        (create_if_not_found i new (db.plugins i) db fs)
        tt
        (record db { plugins = put i (or_else (db.plugins i) new) db.plugins })
create_if_not_found-Gives i new db fs = go (db.plugins i) refl
  where
    go :
        (old : Option Plugin)
        → db.plugins i ≡ old
        → Gives
            (create_if_not_found i new old db fs)
            tt
            (record db { plugins = put i (or_else old new) db.plugins })
    go none e = created_row i new db fs
    go (some p) e = kept_row i new p db fs e

pub add_refers-Gives :
    (f : Plugin → Plugin) (u : Text) (db : Database) (fs : Faults)
    → Gives
        (add_refers f u db fs)
        tt
        (record db { plugins = put u (map_option f (db.plugins u)) db.plugins })
unfolding add_refers
add_refers-Gives f u db fs =
    access-Gives
      (λ db. (tt, record db { plugins = put u (map_option f (db.plugins u)) db.plugins })) db fs

pub update_installation-Gives :
    (k : ℕ) (row : PluginInstallation) (db : Database) (fs : Faults)
    → Gives
        (update_installation k row db fs)
        tt
        (record db { installations = set_row k (some row) db.installations })
unfolding update_installation
update_installation-Gives k row db fs =
    access-Gives (λ db. (tt, record db { installations = set_row k (some row) db.installations }))
      db fs

pub required_installation-then :
    (Q : Database → Type 0) {B : Type 0} (o : Option (ℕ × PluginInstallation))
    (k : ℕ × PluginInstallation → Tx B) (db : Database) (fs : Faults)
    → ((a : ℕ × PluginInstallation) → o ≡ some a → Post Q (k a db fs))
    → Post Q (and_then (required_installation o db fs) k)
unfolding Post and_then
required_installation-then Q none k db fs h = tt
required_installation-then Q (some a) k db fs h = h a refl

pub delete_original-Keeps :
    (o : Text) (p : Plugin) (db : Database) (fs : Faults)
    → Keeps (delete_original o p db fs) (settled (is_zero p.refers) o db)
unfolding delete_original Keeps
delete_original-Keeps o p db fs = go (is_zero p.refers)
  where
    go :
        (b : Bool)
        → Post
            (λ x. Same x (settled b o db))
            ((if b then (do delete_unreferred o p; pure (some p)) else pure none) db fs)
    go true =
        Keeps-Post (λ x. Same x (settled true o db)) (delete_unreferred o p db fs)
          (λ a. pure (some p)) (Removed o db) (delete_unreferred-Keeps o p db fs)
          λ a db' fs same. done-Post (λ x. Same x (settled true o db)) (some p) db' fs same
    go false = done-Post {A = Option Plugin} (λ x. Same x db) none db fs (refl, refl, refl)

replace_part-Keeps :
    (part : Part) (o i t : Text) (old new : Option Text) (db : Database) (fs : Faults)
    → Keeps (replace_part part o i t old new db fs) db
unfolding replace_part
replace_part-Keeps part o i t old new db fs =
    Keeps-then _ _ db (delete_declared-Keeps part _ _ old db fs)
      λ a db fs. create_declared-Keeps part _ _ _ new db fs

pub replace_parts-Keeps :
    (o i t : Text) (old new : PluginDeclaration) (db : Database) (fs : Faults)
    → Keeps (replace_parts o i t old new db fs) db
unfolding replace_parts
replace_parts-Keeps o i t old new db fs =
    Keeps-then _ _ db (replace_part-Keeps Part.model o i t old.model new.model db fs) λ a db fs.
      Keeps-then _ _ db (replace_part-Keeps Part.tool o i t old.tool new.tool db fs) λ a db fs.
        Keeps-then _ _ db
          (replace_part-Keeps Part.agent_strategy o i t old.agent_strategy new.agent_strategy db fs)
          λ a db fs.
            Keeps-then _ _ db
              (replace_part-Keeps Part.datasource o i t old.datasource new.datasource db fs)
              λ a db fs. replace_part-Keeps Part.trigger o i t old.trigger new.trigger db fs
