-- ===== src/Curd/Quiet.antt =====
-- InstallPlugin where no access fails.
use dify_plugin_daemon.Common.{
  ℕ, suc, Bool, Option, none, some, List, [], ◌∷◌, ◌++◌, ◌≡◌, refl, sym, ap, ◌∙◌, subst, arith,
  Option-cases, Bool-cases, inl, inr, ◌⊎◌,
}
use dify_plugin_daemon.Curd.Database.{
  Text, text_discrete, same, plugin_id_of, PluginDeclaration, PluginRuntimeType, Plugin,
  PluginInstallation, Part, Database, put, find_row, local, remote, serverless,
}
use dify_plugin_daemon.Curd.Access.{
  and_then, access, create_part, commit, with_transaction, Step, done, ok, err, Outcome,
  plugin_already_installed, ◌>>◌, ◌>>=◌, pure,
}
use dify_plugin_daemon.Curd.Rows.{put-same, put-other}
use dify_plugin_daemon.Curd.Install.{
  create_plugin_if_missing, ensure_plugin_declaration, get_installation, get_plugin, update_plugin,
  create_installation, create_declared, create_parts, refer, install_in, install_found,
  install_plugin, is_installed_by, new_plugin, new_installation, or_else, refuse_installed,
}

-- A step that does not fail, and what it leaves of the plugins and the installations.
abbrev Leaves :
    {A : Type 0} → Step A → (Text → Option Plugin) → List (Option PluginInstallation) → Type 0
Leaves {A} step plugins installations =
    (a : A) × (db : Database) × (step ≡ done a db [])
    × (db.plugins ≡ plugins)
    × (db.installations ≡ installations)

create_declared-quiet :
    (part : Part) (plugin identifier tenant : Text) (provider : Option Text) (db : Database)
    → Leaves
        (create_declared part plugin identifier tenant provider db [])
        db.plugins
        db.installations
unfolding create_declared create_part access
create_declared-quiet part plugin identifier tenant none db = (tt, db, refl, refl, refl)
create_declared-quiet part plugin identifier tenant (some provider) db = (tt, _, refl, refl, refl)

then-quiet :
    {B : Type 0} (m : Step (Unit {0})) (k : Unit {0} → Database → List Bool → Step B)
    (plugins : Text → Option Plugin) (installations : List (Option PluginInstallation))
    → Leaves m plugins installations
    → ((db : Database) → Leaves (k tt db []) db.plugins db.installations)
    → Leaves (and_then m k) plugins installations
unfolding and_then
then-quiet m k plugins installations (a, db, e, p, i) next =
    let (b, db', e', p', i') = next db in (b, db', rw e e', p' ∙ p, i' ∙ i)

create_parts-quiet :
    (p : Plugin) (tenant : Text) (declaration : PluginDeclaration) (db : Database)
    → Leaves (create_parts p tenant declaration db []) db.plugins db.installations
unfolding create_parts
create_parts-quiet p tenant declaration db =
    then-quiet _ _ _ _ (one Part.tool declaration.tool db) (λ db.
      then-quiet _ _ _ _ (one Part.agent_strategy declaration.agent_strategy db) (λ db.
        then-quiet _ _ _ _ (one Part.model declaration.model db) (λ db.
          then-quiet _ _ _ _ (one Part.datasource declaration.datasource db)
            (λ db. one Part.trigger declaration.trigger db))))
  where
    one :
        (part : Part) (provider : Option Text) (db : Database)
        → Leaves
            (create_declared part p.plugin_id p.unique_identifier tenant provider db [])
            db.plugins
            db.installations
    one part provider db =
        create_declared-quiet part p.plugin_id p.unique_identifier tenant provider db

ensure_plugin_declaration-quiet :
    (identifier : Text) (install_type : PluginRuntimeType) (declaration : PluginDeclaration)
    (db : Database)
    → Leaves
        (ensure_plugin_declaration identifier install_type declaration db [])
        db.plugins
        db.installations
unfolding ensure_plugin_declaration access
ensure_plugin_declaration-quiet identifier local declaration db = (tt, _, refl, refl, refl)
ensure_plugin_declaration-quiet identifier remote declaration db = (tt, db, refl, refl, refl)
ensure_plugin_declaration-quiet identifier serverless declaration db = (tt, _, refl, refl, refl)

-- The row of the plugin, where it has one, has the plugin_id of its identifier.
abbrev pub Named : Text → Option Plugin → Type 0
Named identifier none = Unit
Named identifier (some p) = p.plugin_id ≡ plugin_id_of identifier

or_else-Named :
    (identifier : Text) (row : Option Plugin) (new : Plugin)
    → Named identifier row
    → new.plugin_id ≡ plugin_id_of identifier
    → (p : Plugin) × (or_else row new ≡ some p) × (p.plugin_id ≡ plugin_id_of identifier)
or_else-Named identifier none new h e = (new, refl, e)
or_else-Named identifier (some p) new h e = (p, refl, h)

create_installation-quiet :
    (row : PluginInstallation) (db : Database)
    → find_row (is_installed_by row.plugin_id row.tenant_id) 0 db.installations ≡ none
    → create_installation row db []
      ≡ done tt (record db { installations = db.installations ++ some row ∷ [] }) []
unfolding create_installation access
create_installation-quiet row db free = ground (arith, free)

-- The transaction behind the search for the plugin, when the tenant does not have the plugin.
install_rest-quiet :
    (p : Plugin) (tenant identifier : Text) (install_type : PluginRuntimeType)
    (declaration : PluginDeclaration) (source meta : Text) (db : Database)
    → find_row (is_installed_by p.plugin_id tenant) 0 db.installations ≡ none
    → Leaves {A = Plugin × PluginInstallation}
        ((get_installation (is_installed_by p.plugin_id tenant) >>= λ installed.
            refuse_installed installed
            >> ensure_plugin_declaration identifier install_type declaration
            >> update_plugin identifier (refer p)
            >> create_installation (new_installation (refer p) tenant install_type source meta)
            >> create_parts (refer p) tenant declaration
            >> pure (refer p, new_installation (refer p) tenant install_type source meta))
          db [])
        (put identifier (some (refer p)) db.plugins)
        (db.installations ++ some (new_installation (refer p) tenant install_type source meta) ∷ [])
unfolding and_then get_installation update_plugin access refer
install_rest-quiet p tenant identifier install_type declaration source meta db free =
    let row = new_installation (refer p) tenant install_type source meta in
    let (a2, db2, e2, p2, i2) =
      ensure_plugin_declaration-quiet identifier install_type declaration db in
    let db3 : Database = record db2 { plugins = put identifier (some (refer p)) db2.plugins } in
    let db4 : Database = record db3 { installations = db3.installations ++ some row ∷ [] } in
    let created =
      create_installation-quiet row db3
        (ap (find_row (is_installed_by p.plugin_id tenant) 0) i2 ∙ free) in
    let (a5, db5, e5, p5, i5) = create_parts-quiet (refer p) tenant declaration db4 in
    (
      (refer p, row),
      db5,
      rw free (rw e2 (rw created (rw e5 refl))),
      p5 ∙ ap (put identifier (some (refer p))) p2,
      i5 ∙ ap (λ (rows : List (Option PluginInstallation)). rows ++ some row ∷ []) i2,
    )

-- A tenant has an installation of a plugin.
abbrev pub Installed : Text → Text → List (Option PluginInstallation) → Type 0
Installed tenant plugin rows =
    (r : ℕ × PluginInstallation) × (find_row (is_installed_by plugin tenant) 0 rows ≡ some r)

find_row-append :
    (test : ℕ → PluginInstallation → Bool) (k : ℕ) (rows more : List (Option PluginInstallation))
    (r : ℕ × PluginInstallation)
    → find_row test k rows ≡ some r
    → find_row test k (rows ++ more) ≡ some r
unfolding find_row
find_row-append test k [] more r h = cc
find_row-append test k (none ∷ rows) more r h = find_row-append test (suc k) rows more r h
find_row-append test k (some q ∷ rows) more r h =
    ground (arith, h, find_row-append test (suc k) rows more r)

find_row-new :
    (tenant plugin : Text) (k : ℕ) (rows : List (Option PluginInstallation))
    (row : PluginInstallation)
    → row.tenant_id ≡ tenant
    → row.plugin_id ≡ plugin
    → (r : ℕ × PluginInstallation) × (find_row
          (is_installed_by plugin tenant)
          k
          (rows ++ some row ∷ [])
        ≡ some r)
unfolding find_row
find_row-new tenant plugin k [] row t p = ((k, row), ground (arith, t, p))
find_row-new tenant plugin k (none ∷ rows) row t p = find_row-new tenant plugin (suc k) rows row t p
find_row-new tenant plugin k (some q ∷ rows) row t p =
    elim (Bool-cases (is_installed_by plugin tenant k q)) [
      | inl h ↦ ((k, q), rw h refl)
      | inr h ↦ rw h (find_row-new tenant plugin (suc k) rows row t p)
    ]

abbrev pub AllNamed : Database → Type 0
AllNamed db = (u : Text) → Named u (db.plugins u)

-- What InstallPlugin leaves when no access fails: the tenant has the plugin, and no installation is
-- lost.
pub record Installs (tenant identifier : Text) (before : Database)
    (end : Outcome (Plugin × PluginInstallation)) : Type 0 where
  pub quiet : end.faults ≡ []
  pub result :
      (end.result ≡ err plugin_already_installed)
      ⊎ ((a : Plugin × PluginInstallation) × (end.result ≡ ok a))
  pub installed : Installed tenant (plugin_id_of identifier) end.database.installations
  pub named : AllNamed end.database
  pub kept :
      (t plugin : Text)
      → Installed t plugin before.installations
      → Installed t plugin end.database.installations

put-Named :
    (identifier u : Text) (p : Plugin) (plugins : Text → Option Plugin)
    → p.plugin_id ≡ plugin_id_of identifier
    → Named u (plugins u)
    → Named u (put identifier (some p) plugins u)
put-Named identifier u p plugins e h = elim (text_discrete u identifier) [
  | yes same ↦
      subst (λ (v : Text). Named v (put identifier (some p) plugins v)) (sym same)
        (subst (Named identifier) (sym (put-same identifier (some p) plugins)) e)
  | no n ↦ subst (Named u) (sym (put-other identifier u (some p) plugins n)) h
]

-- The whole transaction, when the tenant does not have the plugin.
install_in-quiet :
    (tenant identifier : Text) (install_type : PluginRuntimeType) (declaration : PluginDeclaration)
    (source meta : Text) (p : Plugin) (db : Database)
    → or_else (db.plugins identifier) (new_plugin identifier install_type declaration source)
      ≡ some p
    → find_row (is_installed_by p.plugin_id tenant) 0 db.installations ≡ none
    → Leaves
        (install_in tenant identifier install_type declaration source meta db [])
        (put identifier (some (refer p)) (put identifier (some p) db.plugins))
        (db.installations ++ some (new_installation (refer p) tenant install_type source meta) ∷ [])
unfolding install_in create_plugin_if_missing get_plugin access and_then
install_in-quiet tenant identifier install_type declaration source meta p db row free = rw row (
    rw (put-same identifier (some p) db.plugins) (
      install_rest-quiet p tenant identifier install_type declaration source meta
        (record db { plugins = put identifier (some p) db.plugins }) free))

committed-Installs :
    (tenant identifier : Text) (install_type : PluginRuntimeType) (source meta : Text) (p : Plugin)
    (db : Database) (step : Step (Plugin × PluginInstallation))
    → AllNamed db
    → p.plugin_id ≡ plugin_id_of identifier
    → Leaves step
        (put identifier (some (refer p)) (put identifier (some p) db.plugins))
        (db.installations ++ some (new_installation (refer p) tenant install_type source meta) ∷ [])
    → Installs tenant identifier db (commit db step)
unfolding commit refer
committed-Installs tenant identifier install_type source meta p db step named pid leaves =
    let (a, db', e, plugins, installations) = leaves in
    let row = new_installation (refer p) tenant install_type source meta in
    let (r, found) =
      find_row-new tenant (plugin_id_of identifier) 0 db.installations row refl pid in
    rw e (record {
      quiet = refl;
      result = inr (a, refl);
      installed = (
        r,
        ap (find_row (is_installed_by (plugin_id_of identifier) tenant) 0) installations ∙ found,
      );
      named = λ u. subst (Named u) (ap (λ (t : Text → Option Plugin). t u) (sym plugins)) (
          put-Named identifier u (refer p) _ pid
            (put-Named identifier u p db.plugins pid (named u)));
      kept = λ t plugin had. (
        had.0,
        ap (find_row (is_installed_by plugin t) 0) installations
            ∙ find_row-append (is_installed_by plugin t) 0 db.installations (some row ∷ []) had.0
                had.1,
      );
    })

-- InstallPlugin, when no access fails: the tenant has the plugin afterwards.
pub install_plugin-Installs :
    (tenant identifier : Text) (install_type : PluginRuntimeType) (declaration : PluginDeclaration)
    (source meta : Text) (db : Database)
    → AllNamed db
    → Installs tenant identifier db
        (install_plugin tenant identifier install_type declaration source meta db []).outcome
unfolding install_plugin install_found with_transaction get_installation access
install_plugin-Installs tenant identifier install_type declaration source meta db named =
    elim (Option-cases
      (find_row (is_installed_by (plugin_id_of identifier) tenant) 0 db.installations)) [
        | inl free ↦
            let (p, row, pid) =
              or_else-Named identifier (db.plugins identifier)
                (new_plugin identifier install_type declaration source) (named identifier) refl in
            rw free (
              committed-Installs tenant identifier install_type source meta p db
                (install_in tenant identifier install_type declaration source meta db []) named pid
                (install_in-quiet tenant identifier install_type declaration source meta p db row (
                  ap
                    (λ (plugin : Text). find_row (is_installed_by plugin tenant) 0 db.installations)
                    pid
                  ∙ free)))
        | inr (r, found) ↦ rw found (record {
          quiet = refl;
          result = inl refl;
          installed = (r, found);
          named = named;
          kept = λ t plugin had. had;
        })
      ]
