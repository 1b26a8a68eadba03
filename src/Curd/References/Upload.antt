-- ===== src/Curd/References/Upload.antt =====
-- The upload of a package keeps the tables well formed.
use dify_plugin_daemon.Common.{ℕ, sym, subst, false, Option, none, some, [], ◌∷◌, true}
use dify_plugin_daemon.Curd.Database.{Text, text_discrete, PluginDeclaration, Plugin, Database, put}
use dify_plugin_daemon.Curd.Access.{Faults, Step, done, failed, access}
use dify_plugin_daemon.Curd.Upload.{create_undeclared, prepare_declaration, upload_package}
use dify_plugin_daemon.Curd.Rows.{count, put-same, put-other}
use dify_plugin_daemon.Curd.References.{Counted, WellFormed, Post, Gives-then, access-Gives}

declared-Counted :
    (u : Text) (p : Option Plugin) (d : PluginDeclaration) (o : Option PluginDeclaration) (n : ℕ)
    → Counted u p o n
    → Counted u p (some d) n
declared-Counted u none d o n c = c
declared-Counted u (some p) d o n c = (c.0, c.1, c.2, λ r e. cc)

created-WellFormed :
    (i : Text) (d : PluginDeclaration) (db : Database)
    → WellFormed db
    → WellFormed (record db { declarations = put i (some d) db.declarations })
created-WellFormed i d db w u = elim (text_discrete u i) [
  | yes e ↦
      subst
        (λ u.
          Counted u (db.plugins u) (put i (some d) db.declarations u) (count u db.installations))
        (sym e)
        (rw (put-same i (some d) db.declarations) (
          declared-Counted i (db.plugins i) d (db.declarations i) (count i db.installations) (w i)))
  | no n ↦ rw (put-other i u (some d) db.declarations n) (w u)
]

create_undeclared-WellFormed :
    (i : Text) (d : PluginDeclaration) (o : Option PluginDeclaration) (db : Database) (fs : Faults)
    → WellFormed db
    → Post WellFormed (create_undeclared i d o db fs)
unfolding create_undeclared Post access
create_undeclared-WellFormed i d (some old) db fs w = w
create_undeclared-WellFormed i d none db [] w = created-WellFormed i d db w
create_undeclared-WellFormed i d none db (true ∷ fs) w = tt
create_undeclared-WellFormed i d none db (false ∷ fs) w = created-WellFormed i d db w

-- An upload, whatever accesses fail, keeps the tables well formed.
pub upload_package-WellFormed :
    (i : Text) (d : PluginDeclaration) (db : Database) (fs : Faults)
    → WellFormed db
    → WellFormed (upload_package i d db fs)
unfolding upload_package prepare_declaration Post
upload_package-WellFormed i d db fs w = kept (prepare_declaration i d db fs) (
    Gives-then WellFormed _ _ _ _ (access-Gives (λ db. (db.declarations i, db)) db fs)
      λ fs. create_undeclared-WellFormed i d (db.declarations i) db fs w)
  where
    kept :
        (step : Step Unit)
        → Post WellFormed step
        → WellFormed (elim step [ done a db' fs' ↦ db' | failed e fs' ↦ db ])
    kept (done a db' fs') h = h
    kept (failed e fs') h = w
