-- ===== src/Curd/References/Install.antt =====
-- InstallPlugin keeps the tables well formed.
use dify_plugin_daemon.Common.{
  ℕ, ◌+◌, false, Option, none, some, [], ◌∷◌, ◌++◌, ◌≡◌, refl, if◌then◌else◌, arith, ap, sym, subst,
  inl, inr, ◌∙◌, ◌≢◌,
}
use dify_plugin_daemon.Common.{◌⊎◌}
use dify_plugin_daemon.Curd.Database.{
  Text, text_discrete, plugin_id_of, pos, increment, PluginRuntimeType, local, remote, serverless,
  is_remote, PluginDeclaration, Plugin, PluginInstallation, Database, put, find_row,
}
use dify_plugin_daemon.Curd.Access.{Faults, Step, done, failed}
use dify_plugin_daemon.Curd.Install.{
  get_installation, is_installed_by, or_else, new_plugin, new_installation, refer, install_in,
  install_found, install_plugin,
}
use dify_plugin_daemon.Curd.Rows.{
  one, count, count-append, put-same, put-other, one-same, one-other,
}
use dify_plugin_daemon.Curd.References.{
  Counted, WellFormed, Post, Gives, Gives-then, required-then, refuse_installed-Gives,
  get_installation-Gives, get_plugin-Gives, update_plugin-Gives, create_plugin_if_missing-Gives,
  create_installation-Gives, ensured, ensure_plugin_declaration-Gives, Same-WellFormed, done-Post,
  with_transaction-Post, Keeps-Post, create_parts-Keeps,
}

-- The plugin that the search in the transaction returns.
unfoldable pub Found : Text → PluginRuntimeType → Option PluginDeclaration → ℕ → Plugin → Type 0
Found i t d n p =
    (p.unique_identifier ≡ i)
    × (p.refers ≡ pos n)
    × ((is_remote p.install_type ≡ false) → (d ≢ none) ⊎ (p.install_type ≡ t))

pub or_else-Found :
    (i : Text) (t : PluginRuntimeType) (new p : Plugin) (o : Option Plugin)
    (d : Option PluginDeclaration) (n : ℕ)
    → new.unique_identifier ≡ i
    → new.refers ≡ pos 0
    → new.install_type ≡ t
    → Counted i o d n
    → or_else o new ≡ some p
    → Found i t d n p
unfolding Found
or_else-Found i t new p none d n hi hr ht c h =
    (ground arith, ground arith, λ r. inr (ground arith))
or_else-Found i t new p (some q) d n hi hr ht c h =
    subst (Found i t d n) q≡p (c.0, c.1, λ r. inl (c.3 r))
  where
    q≡p : q ≡ p
    q≡p = ground arith

or_else-some : (o : Option PluginDeclaration) (d : PluginDeclaration) → or_else o d ≢ none
or_else-some none d e = cc
or_else-some (some a) d e = cc

-- The row of the plugin and its declaration after an installation.
pub refer-Counted :
    (i : Text) (t : PluginRuntimeType) (d : PluginDeclaration) (o : Option PluginDeclaration)
    (n : ℕ) (p : Plugin)
    → Found i t o n p
    → Counted i (some (refer p)) (if is_remote t then o else or_else o d) (1 + n)
unfolding Found increment refer
refer-Counted i t d o n p h = (
  h.0,
  rw h.1 (ap pos (omega arith)),
  omega arith,
  λ r. elim (h.2 r) [
    | inl declared ↦ kept t declared
    | inr e ↦ created t (subst (λ t. is_remote t ≡ false) e r)
  ],
)
  where
    kept : (t : PluginRuntimeType) → o ≢ none → (if is_remote t then o else or_else o d) ≢ none
    kept local declared = or_else-some o d
    kept remote declared = declared
    kept serverless declared = or_else-some o d

    created :
        (t : PluginRuntimeType)
        → is_remote t ≡ false
        → (if is_remote t then o else or_else o d) ≢ none
    created local r = or_else-some o d
    created remote r = absurd (cc)
    created serverless r = or_else-some o d

pub ensured-same :
    (i : Text) (t : PluginRuntimeType) (d : PluginDeclaration)
    (ds : Text → Option PluginDeclaration)
    → ensured i t d ds i ≡ (if is_remote t then ds i else or_else (ds i) d)
ensured-same i local d ds = put-same i (or_else (ds i) d) ds
ensured-same i remote d ds = refl
ensured-same i serverless d ds = put-same i (or_else (ds i) d) ds

pub ensured-other :
    (i u : Text) (t : PluginRuntimeType) (d : PluginDeclaration)
    (ds : Text → Option PluginDeclaration)
    → ¬ (u ≡ i)
    → ensured i t d ds u ≡ ds u
ensured-other i u local d ds n = put-other i u (or_else (ds i) d) ds n
ensured-other i u remote d ds n = refl
ensured-other i u serverless d ds n = put-other i u (or_else (ds i) d) ds n

install-Counted :
    (i u : Text) (t : PluginRuntimeType) (d : PluginDeclaration) (new p : Plugin)
    (row : PluginInstallation) (db : Database)
    → new.unique_identifier ≡ i
    → new.refers ≡ pos 0
    → new.install_type ≡ t
    → row.unique_identifier ≡ p.unique_identifier
    → WellFormed db
    → put i (or_else (db.plugins i) new) db.plugins i ≡ some p
    → Counted u
        (put i (some (refer p)) (put i (or_else (db.plugins i) new) db.plugins) u)
        (ensured i t d db.declarations u)
        (one u (some row) + count u db.installations)
unfolding put Found refer
install-Counted i u t d new p row db hi hr ht hrow w h =
    let found =
      or_else-Found i t new p (db.plugins i) (db.declarations i) (count i db.installations) hi hr ht
        (w i) (sym (put-same i (or_else (db.plugins i) new) db.plugins) ∙ h) in
    elim (text_discrete u i) [
      | yes e ↦
          subst
            (λ u.
              Counted u (put i (some (refer p)) (put i (or_else (db.plugins i) new) db.plugins) u)
                (ensured i t d db.declarations u) (one u (some row) + count u db.installations))
            (sym e)
            (rw (put-same i (some (refer p)) (put i (or_else (db.plugins i) new) db.plugins)) (
              rw (ensured-same i t d db.declarations) (
                rw (one-same i row (hrow ∙ found.0))
                  (refer-Counted i t d (db.declarations i) (count i db.installations) p found))))
      | no n ↦
          rw (put-other i u (some (refer p)) (put i (or_else (db.plugins i) new) db.plugins) n) (
            rw (put-other i u (or_else (db.plugins i) new) db.plugins n) (
              rw (ensured-other i u t d db.declarations n)
                (rw (one-other u row _ (λ e. n (sym e ∙ hrow ∙ found.0))) (w u))))
    ]

-- The tables once the row of the plugin is there.
abbrev created : Text → PluginRuntimeType → PluginDeclaration → Text → Database → Database
created i t d s db = record db {
  plugins = put i (or_else (db.plugins i) (new_plugin i t d s)) db.plugins;
}

-- The tables once the installation is there.
abbrev installed :
    Text → Text → PluginRuntimeType → PluginDeclaration → Text → Text → Plugin → Database → Database
installed tenant i t d s m p db = record db {
  plugins = put i (some (refer p)) (put i (or_else (db.plugins i) (new_plugin i t d s)) db.plugins);
  declarations = ensured i t d db.declarations;
  installations = db.installations ++ some (new_installation (refer p) tenant t s m) ∷ [];
}

install_in-WellFormed :
    (tenant i : Text) (t : PluginRuntimeType) (d : PluginDeclaration) (s m : Text) (db : Database)
    (fs : Faults)
    → WellFormed db
    → Post WellFormed (install_in tenant i t d s m db fs)
unfolding install_in refer
install_in-WellFormed tenant i t d s m db fs w =
    Gives-then WellFormed _ _ _ _ (create_plugin_if_missing-Gives _ _ db fs) λ fs.
      Gives-then WellFormed _ _ _ _ (get_plugin-Gives i (created i t d s db) fs) λ fs.
        required-then WellFormed _ _ (created i t d s db) _ λ p h.
          Gives-then WellFormed _ _ _ _
            (get_installation-Gives (is_installed_by p.plugin_id tenant) (created i t d s db) fs)
            λ fs.
              Gives-then WellFormed _ _ _ _
                (refuse_installed-Gives
                  (find_row (is_installed_by p.plugin_id tenant) 0 db.installations)
                  (created i t d s db) fs)
                λ fs.
                  Gives-then WellFormed _ _ _ _
                    (ensure_plugin_declaration-Gives i t d (created i t d s db) fs)
                    λ fs. Gives-then WellFormed _ _ _ _ (update_plugin-Gives _ _ _ fs) λ fs.
                      Gives-then WellFormed _ _ _ _ (create_installation-Gives _ _ fs) λ fs.
                        Keeps-Post WellFormed _ _ _
                          (create_parts-Keeps (refer p) tenant d (installed tenant i t d s m p db)
                            fs)
                          λ a db' fs same. done-Post WellFormed _ db' fs (
                            Same-WellFormed db' (installed tenant i t d s m p db) same λ u.
                              subst
                                (λ n.
                                  Counted u
                                    (put i (some (refer p))
                                      (put i (or_else (db.plugins i) (new_plugin i t d s))
                                        db.plugins)
                                      u)
                                    (ensured i t d db.declarations u) n)
                                (sym (
                                  count-append u db.installations
                                    (some (new_installation (refer p) tenant t s m))))
                                (install-Counted i u t d (new_plugin i t d s) p
                                  (new_installation (refer p) tenant t s m) db refl refl refl refl w
                                  h))

-- InstallPlugin, whatever accesses fail, keeps the tables such that each plugin's row exists exactly
-- while it has an installation, refers is the number of its installations, and a plugin that is not
-- remote has its declaration. Declarations of plugins without a row, as uploads leave them, may be
-- there.
pub install_plugin-WellFormed :
    (tenant identifier : Text) (install_type : PluginRuntimeType) (declaration : PluginDeclaration)
    (source meta : Text) (db : Database) (faults : Faults)
    → WellFormed db
    → WellFormed
        (install_plugin tenant identifier install_type declaration source meta db
          faults).outcome.database
unfolding install_plugin install_found Gives
install_plugin-WellFormed tenant i t d s m db fs w =
    found (get_installation (is_installed_by (plugin_id_of i) tenant) db fs)
      (get_installation-Gives _ db fs)
  where
    found :
        (step : Step (Option (ℕ × PluginInstallation)))
        → Gives step (find_row (is_installed_by (plugin_id_of i) tenant) 0 db.installations) db
        → WellFormed (install_found tenant i t d s m db step).database
    found (failed e fs) g = w
    found (done (some r) db' fs) g = subst WellFormed (sym g.1) w
    found (done none db' fs) g =
        with_transaction-Post WellFormed (install_in tenant i t d s m) db' fs
          (subst WellFormed (sym g.1) w)
          (λ fs. install_in-WellFormed tenant i t d s m db' fs (subst WellFormed (sym g.1) w))
