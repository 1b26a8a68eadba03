-- ===== src/Curd/References.antt =====
-- The invariant of the tables, and how it passes through the accesses of a transaction.
pub mod Install
pub mod Removal
pub mod Uninstall
pub mod Moves
pub mod Upgrade
pub mod Upload
pub mod Drops
pub mod Runs
use dify_plugin_daemon.Common.{
  ℕ, zero, suc, ◌+◌, Bool, true, false, not, ◌&&◌, ◌||◌, Option, none, some, List, [], ◌∷◌, ◌++◌,
  ◌==◌, ◌≡◌, refl, if◌then◌else◌, ite, arith, Bool-cases, Option-cases, ap, sym, subst, inl, inr,
  ◌∙◌, ◌≢◌,
}
use dify_plugin_daemon.Common.{◌≤◌}
use dify_plugin_daemon.Curd.Database.{
  Text, text_discrete, same, plugin_id_of, ℤ, pos, negsuc, increment, decrement, is_zero,
  PluginRuntimeType, local, remote, serverless, is_remote, is_serverless, ManifestType, unset,
  plugin_type, PluginDeclaration, Plugin, PluginInstallation, Part, part_index, PartInstallation,
  Database, empty_database, put, find_row, set_row,
}
use dify_plugin_daemon.Curd.Access.{
  Error, database_error, not_found, plugin_already_installed, not_been_installed, missing_where,
  cache_error, Faults, Step, done, failed, Tx, and_then, ◌>>=◌, ◌>>◌, pure, raise, access, query,
  modify, delete_part, create_part, is_empty, Result, ok, err, Outcome, commit, with_transaction,
  CacheKey, plugin_installation, model_installations, Report,
}
use dify_plugin_daemon.Curd.Install.{
  get_installation, get_plugin, update_plugin, required, ensure_plugin_declaration, create_declared,
  deferred, is_installed_by, or_else, create_plugin_if_missing, new_plugin, refuse_installed,
  create_installation, create_parts, new_installation, refer, install_in, install_found,
  install_plugin, remote_copy, cleared_by_install,
}
use dify_plugin_daemon.Curd.Rows.{one, count, count-append, Replaces, find_row-Replaces}

-- A plugin's row and its declaration against the number of its installations: without an
-- installation there is no row, else refers is the number, and a row that is not remote has its
-- declaration beside it. A declaration may stand alone: the upload of a package writes it before any
-- installation.
abbrev pub Counted : Text → Option Plugin → Option PluginDeclaration → ℕ → Type 0
Counted u none d n = n ≡ 0
Counted u (some p) d n =
    (p.unique_identifier ≡ u)
    × (p.refers ≡ pos n)
    × (1 ≤ n)
    × ((is_remote p.install_type ≡ false) → d ≢ none)

abbrev pub WellFormed : Database → Type 0
WellFormed db = (u : Text) → Counted u (db.plugins u) (db.declarations u) (count u db.installations)

unfoldable pub Post : {A : Type 0} → (Database → Type 0) → Step A → Type 0
Post Q (done a db fs) = Q db
Post Q (failed e fs) = Unit

pub done-Post :
    {A : Type 0} (Q : Database → Type 0) (a : A) (db : Database) (fs : Faults)
    → Q db
    → Post Q (done a db fs)
unfolding Post
done-Post Q a db fs q = q

-- A step that either fails or gives `a` and the tables `db`.
unfoldable pub Gives : {A : Type 0} → Step A → A → Database → Type 0
Gives (done a' db' fs) a db = (a' ≡ a) × (db' ≡ db)
Gives (failed e fs) a db = Unit

pub Gives-then :
    (Q : Database → Type 0) {A B : Type 0} (m : Step A) (a : A) (db : Database) (k : A → Tx B)
    → Gives m a db
    → ((fs : Faults) → Post Q (k a db fs))
    → Post Q (and_then m k)
unfolding Post Gives and_then
Gives-then Q (done a' db' fs) a db k g h =
    subst (λ x. Post Q (k x db' fs)) (sym g.0) (subst (λ x. Post Q (k a x fs)) (sym g.1) (h fs))
Gives-then Q (failed e fs) a db k g h = tt

pub access-Gives :
    {A : Type 0} (f : Database → A × Database) (db : Database) (fs : Faults)
    → Gives (access f db fs) (f db).0 (f db).1
unfolding Gives access
access-Gives f db [] = (refl, refl)
access-Gives f db (true ∷ fs) = tt
access-Gives f db (false ∷ fs) = (refl, refl)

pub required-then :
    (Q : Database → Type 0) {A B : Type 0} (o : Option A) (k : A → Tx B) (db : Database)
    (fs : Faults)
    → ((a : A) → o ≡ some a → Post Q (k a db fs))
    → Post Q (and_then (required o db fs) k)
unfolding Post and_then
required-then Q none k db fs h = tt
required-then Q (some a) k db fs h = h a refl

pub refuse_installed-Gives :
    (o : Option (ℕ × PluginInstallation)) (db : Database) (fs : Faults)
    → Gives (refuse_installed o db fs) tt db
unfolding Gives
refuse_installed-Gives none db fs = (refl, refl)
refuse_installed-Gives (some a) db fs = tt

pub get_installation-Gives :
    (test : ℕ → PluginInstallation → Bool) (db : Database) (fs : Faults)
    → Gives (get_installation test db fs) (find_row test 0 db.installations) db
unfolding Gives get_installation
get_installation-Gives test db fs =
    access-Gives (λ db. (find_row test 0 db.installations, db)) db fs

pub get_plugin-Gives :
    (u : Text) (db : Database) (fs : Faults) → Gives (get_plugin u db fs) (db.plugins u) db
unfolding Gives get_plugin
get_plugin-Gives u db fs = access-Gives (λ db. (db.plugins u, db)) db fs

pub update_plugin-Gives :
    (u : Text) (p : Plugin) (db : Database) (fs : Faults)
    → Gives (update_plugin u p db fs) tt (record db { plugins = put u (some p) db.plugins })
unfolding update_plugin
update_plugin-Gives u p db fs =
    access-Gives (λ db. (tt, record db { plugins = put u (some p) db.plugins })) db fs

pub create_plugin_if_missing-Gives :
    (u : Text) (p : Plugin) (db : Database) (fs : Faults)
    → Gives
        (create_plugin_if_missing u p db fs)
        tt
        (record db { plugins = put u (or_else (db.plugins u) p) db.plugins })
unfolding create_plugin_if_missing
create_plugin_if_missing-Gives u p db fs =
    access-Gives (λ db. (tt, record db { plugins = put u (or_else (db.plugins u) p) db.plugins }))
      db fs

pub create_installation-Gives :
    (row : PluginInstallation) (db : Database) (fs : Faults)
    → Gives
        (create_installation row db fs)
        tt
        (record db { installations = db.installations ++ some row ∷ [] })
unfolding Gives create_installation
create_installation-Gives row db fs =
    go (find_row (is_installed_by row.plugin_id row.tenant_id) 0 db.installations)
  where
    go :
        (o : Option (ℕ × PluginInstallation))
        → Gives
            (elim o [
              | none ↦
                  modify
                    (λ db. record db { installations = db.installations ++ some row ∷ [] })
                    db
                    fs
              | some r ↦ failed database_error fs
            ])
            tt
            (record db { installations = db.installations ++ some row ∷ [] })
    go none =
        access-Gives (λ db. (tt, record db { installations = db.installations ++ some row ∷ [] }))
          db fs
    go (some r) = tt

-- The declarations that ensure_plugin_declaration leaves.
abbrev pub ensured :
    Text
    → PluginRuntimeType
    → PluginDeclaration
    → (Text → Option PluginDeclaration)
    → Text
    → Option PluginDeclaration
ensured u t d ds = if is_remote t then ds else put u (or_else (ds u) d) ds

pub ensure_plugin_declaration-Gives :
    (u : Text) (t : PluginRuntimeType) (d : PluginDeclaration) (db : Database) (fs : Faults)
    → Gives
        (ensure_plugin_declaration u t d db fs)
        tt
        (record db { declarations = ensured u t d db.declarations })
unfolding Gives ensure_plugin_declaration
ensure_plugin_declaration-Gives u local d db fs =
    access-Gives
      (λ db.
        (tt, record db { declarations = put u (or_else (db.declarations u) d) db.declarations }))
      db fs
ensure_plugin_declaration-Gives u remote d db fs = (refl, refl)
ensure_plugin_declaration-Gives u serverless d db fs =
    access-Gives
      (λ db.
        (tt, record db { declarations = put u (or_else (db.declarations u) d) db.declarations }))
      db fs

-- The same plugins, declarations and installations.
abbrev pub Same : Database → Database → Type 0
Same x y =
    (x.plugins ≡ y.plugins)
    × (x.declarations ≡ y.declarations)
    × (x.installations ≡ y.installations)

pub Same-trans : (x y z : Database) → Same x y → Same y z → Same x z
Same-trans x y z h g = (h.0 ∙ g.0, h.1 ∙ g.1, h.2 ∙ g.2)

pub Same-WellFormed : (x y : Database) → Same x y → WellFormed y → WellFormed x
Same-WellFormed x y h w u =
    subst (λ p. Counted u (p u) (x.declarations u) (count u x.installations)) (sym h.0)
      (subst (λ d. Counted u (y.plugins u) (d u) (count u x.installations)) (sym h.1)
        (subst (λ i. Counted u (y.plugins u) (y.declarations u) (count u i)) (sym h.2) (w u)))

-- A step that keeps these.
unfoldable pub Keeps : {A : Type 0} → Step A → Database → Type 0
unfolding Post
Keeps m db = Post (λ db'. Same db' db) m

pub Keeps-then :
    {A B : Type 0} (m : Step A) (k : A → Tx B) (db : Database)
    → Keeps m db
    → ((a : A) (db' : Database) (fs : Faults) → Keeps (k a db' fs) db')
    → Keeps (and_then m k) db
unfolding Keeps Post and_then
Keeps-then (done a db' fs) k db g h = go (k a db' fs) (h a db' fs)
  where
    go : {B : Type 0} (s : Step B) → Keeps s db' → Keeps s db
    go (done b d fs') e = Same-trans d db' db e g
    go (failed e fs') p = tt
Keeps-then (failed e fs) k db g h = tt

-- What follows a step that keeps these only has to be right about them.
pub Keeps-Post :
    (Q : Database → Type 0) {A B : Type 0} (m : Step A) (k : A → Tx B) (db : Database)
    → Keeps m db
    → ((a : A) (db' : Database) (fs : Faults) → Same db' db → Post Q (k a db' fs))
    → Post Q (and_then m k)
unfolding Keeps Post and_then
Keeps-Post Q (done a db' fs) k db g h = h a db' fs g
Keeps-Post Q (failed e fs) k db g h = tt

pub modify-Keeps :
    (f : Database → Database) (db : Database) (fs : Faults)
    → Same (f db) db
    → Keeps (modify f db fs) db
unfolding Keeps Post access
modify-Keeps f db [] h = h
modify-Keeps f db (true ∷ fs) h = tt
modify-Keeps f db (false ∷ fs) h = h

pub create_declared-Keeps :
    (p : Part) (x u t : Text) (o : Option Text) (db : Database) (fs : Faults)
    → Keeps (create_declared p x u t o db fs) db
unfolding Keeps Post create_declared create_part access
create_declared-Keeps p x u t none db fs = (refl, refl, refl)
create_declared-Keeps p x u t (some n) db [] = (refl, refl, refl)
create_declared-Keeps p x u t (some n) db (true ∷ fs) = tt
create_declared-Keeps p x u t (some n) db (false ∷ fs) = (refl, refl, refl)

pub create_parts-Keeps :
    (p : Plugin) (t : Text) (d : PluginDeclaration) (db : Database) (fs : Faults)
    → Keeps (create_parts p t d db fs) db
unfolding create_parts
create_parts-Keeps p t d db fs =
    Keeps-then _ _ db (create_declared-Keeps _ _ _ _ _ db fs) λ a db fs.
      Keeps-then _ _ db (create_declared-Keeps _ _ _ _ _ db fs) λ a db fs.
        Keeps-then _ _ db (create_declared-Keeps _ _ _ _ _ db fs) λ a db fs.
          Keeps-then _ _ db (create_declared-Keeps _ _ _ _ _ db fs)
            λ a db fs. create_declared-Keeps _ _ _ _ _ db fs

commit-Post :
    {A : Type 0} (Q : Database → Type 0) (db : Database) (s : Step A)
    → Q db
    → Post Q s
    → Q (commit db s).database
unfolding commit Post
commit-Post Q db (failed e fs) q h = q
commit-Post Q db (done a db' []) q h = h
commit-Post Q db (done a db' (true ∷ fs)) q h = q
commit-Post Q db (done a db' (false ∷ fs)) q h = h

-- A transaction keeps what its function keeps.
pub with_transaction-Post :
    {A : Type 0} (Q : Database → Type 0) (m : Tx A) (db : Database) (fs : Faults)
    → Q db
    → ((fs' : Faults) → Post Q (m db fs'))
    → Q (with_transaction m db fs).database
unfolding with_transaction
with_transaction-Post Q m db [] q h = commit-Post Q db (m db []) q (h [])
with_transaction-Post Q m db (true ∷ fs) q h = q
with_transaction-Post Q m db (false ∷ fs) q h = commit-Post Q db (m db fs) q (h fs)
