-- ===== src/Curd/References/Removal.antt =====
-- What UninstallPlugin and UpgradePlugin remove, as it bears on the plugins, the declarations and the
-- installations.
use dify_plugin_daemon.Common.{
  ℕ, Bool, true, false, ◌&&◌, Option, none, some, [], ◌∷◌, ◌≡◌, refl, if◌then◌else◌, ap,
}
use dify_plugin_daemon.Curd.Database.{
  Text, is_serverless, PluginDeclaration, Plugin, Part, Database, put,
}
use dify_plugin_daemon.Curd.Access.{
  missing_where, Faults, pure, raise, access, modify, delete_part, is_empty,
}
use dify_plugin_daemon.Curd.Access.{remove_parts}
use dify_plugin_daemon.Curd.Uninstall.{
  delete_declared, delete_declaration, delete_serverless_runtime, delete_plugin, delete_unreferred,
  delete_parts,
}
use dify_plugin_daemon.Curd.Rows.{put-same, put-other}
use dify_plugin_daemon.Curd.References.{
  Counted, Post, Gives, Gives-then, access-Gives, Same, Keeps, Keeps-then,
}

pub delete_declared-Keeps :
    (p : Part) (x t : Text) (o : Option Text) (db : Database) (fs : Faults)
    → Keeps (delete_declared p x t o db fs) db
unfolding delete_declared delete_part access Keeps Post
delete_declared-Keeps p x t none db fs = (refl, refl, refl)
delete_declared-Keeps p x t (some n) db fs = go (is_empty x && is_empty t) fs
  where
    go :
        (b : Bool) (fs : Faults)
        → Keeps
            ((if b
                then raise missing_where
                else modify (λ db. record db { parts = remove_parts p x t db.parts }))
              db fs)
            db
    go true fs = tt
    go false [] = (refl, refl, refl)
    go false (true ∷ fs) = tt
    go false (false ∷ fs) = (refl, refl, refl)

pub delete_parts-Keeps :
    (x t : Text) (d : PluginDeclaration) (db : Database) (fs : Faults)
    → Keeps (delete_parts x t d db fs) db
unfolding delete_parts
delete_parts-Keeps x t d db fs =
    Keeps-then _ _ db (delete_declared-Keeps Part.tool _ _ _ db fs) λ a db fs.
      Keeps-then _ _ db (delete_declared-Keeps Part.agent_strategy _ _ _ db fs) λ a db fs.
        Keeps-then _ _ db (delete_declared-Keeps Part.model _ _ _ db fs) λ a db fs.
          Keeps-then _ _ db (delete_declared-Keeps Part.datasource _ _ _ db fs)
            λ a db fs. delete_declared-Keeps Part.trigger _ _ _ db fs

pub delete_plugin-Gives :
    (u : Text) (db : Database) (fs : Faults)
    → Gives (delete_plugin u db fs) tt (record db { plugins = put u none db.plugins })
unfolding delete_plugin
delete_plugin-Gives u db fs =
    access-Gives (λ db. (tt, record db { plugins = put u none db.plugins })) db fs

pub delete_declaration-Gives :
    (u : Text) (db : Database) (fs : Faults)
    → Gives
        (delete_declaration u db fs)
        tt
        (record db { declarations = put u none db.declarations })
unfolding delete_declaration Gives
delete_declaration-Gives [] db fs = tt
delete_declaration-Gives (c ∷ cs) db fs =
    access-Gives (λ db. (tt, record db { declarations = put (c ∷ cs) none db.declarations })) db fs

pub drop_runtime-Keeps :
    (b : Bool) (u : Text) (db : Database) (fs : Faults)
    → Keeps ((if b then delete_serverless_runtime u else pure tt) db fs) db
unfolding delete_serverless_runtime access Keeps Post
drop_runtime-Keeps false u db fs = (refl, refl, refl)
drop_runtime-Keeps true [] db fs = tt
drop_runtime-Keeps true (c ∷ cs) db [] = (refl, refl, refl)
drop_runtime-Keeps true (c ∷ cs) db (true ∷ fs) = tt
drop_runtime-Keeps true (c ∷ cs) db (false ∷ fs) = (refl, refl, refl)

-- What is left of a plugin that nothing refers to.
abbrev pub Removed : Text → Database → Database
Removed u db = record db {
  plugins = put u none db.plugins;
  declarations = put u none db.declarations;
}

pub delete_unreferred-Keeps :
    (u : Text) (p : Plugin) (db : Database) (fs : Faults)
    → Keeps (delete_unreferred u p db fs) (Removed u db)
unfolding delete_unreferred Keeps
delete_unreferred-Keeps u p db fs =
    Gives-then (λ x. Same x (Removed u db)) _ _ (record db { plugins = put u none db.plugins }) _
      (delete_plugin-Gives u db fs)
      λ fs.
        Gives-then (λ x. Same x (Removed u db)) _ _ (Removed u db) _
          (delete_declaration-Gives u (record db { plugins = put u none db.plugins }) fs)
          λ fs. drop_runtime-Keeps (is_serverless p.install_type) u (Removed u db) fs

pub pure-Keeps : (db : Database) (fs : Faults) → Keeps (pure tt db fs) db
unfolding Keeps Post
pure-Keeps db fs = (refl, refl, refl)

-- The tables after the block on a plugin whose refers may be 0.
abbrev pub settled : Bool → Text → Database → Database
settled b u db = if b then Removed u db else db

pub settled-Same :
    (b : Bool) (u : Text) (x y : Database) → Same x y → Same (settled b u x) (settled b u y)
settled-Same true u x y h = (ap (put u none) h.0, ap (put u none) h.1, h.2)
settled-Same false u x y h = h

pub settled-at :
    (b : Bool) (i : Text) (x : Database) (n : ℕ)
    → Counted i (if b then none else x.plugins i) (if b then none else x.declarations i) n
    → Counted i ((settled b i x).plugins i) ((settled b i x).declarations i) n
settled-at true i x n c = rw (put-same i none x.plugins) c
settled-at false i x n c = c

pub settled-other :
    (b : Bool) (i u : Text) (x : Database) (n : ℕ)
    → ¬ (u ≡ i)
    → Counted u (x.plugins u) (x.declarations u) n
    → Counted u ((settled b i x).plugins u) ((settled b i x).declarations u) n
settled-other true i u x n h c =
    rw (put-other i u none x.plugins h) (rw (put-other i u none x.declarations h) c)
settled-other false i u x n h c = c

pub settled-installations :
    (b : Bool) (i : Text) (x : Database) → (settled b i x).installations ≡ x.installations
settled-installations true i x = refl
settled-installations false i x = refl
