-- ===== src/Curd/References/Upgrade.antt =====
-- UpgradePlugin between two identifiers keeps the tables well formed.
use dify_plugin_daemon.Common.{
  ℕ, ◌+◌, Bool, true, false, Option, none, some, ◌≡◌, refl, if◌then◌else◌, arith, ap, sym, subst,
  ◌∙◌,
}
use dify_plugin_daemon.Common.{◌<◌}
use dify_plugin_daemon.Curd.Database.{
  Text, text_discrete, is_zero, PluginRuntimeType, is_remote, PluginDeclaration, Plugin,
  PluginInstallation, Database, put, set_row,
}
use dify_plugin_daemon.Curd.Access.{Faults}
use dify_plugin_daemon.Curd.Install.{or_else, refer}
use dify_plugin_daemon.Curd.Uninstall.{unrefer}
use dify_plugin_daemon.Curd.Rows.{
  count, Replaces, find_row-found, put-same, put-other, one-same, one-other,
}
use dify_plugin_daemon.Curd.References.{
  Counted, WellFormed, Post, Gives-then, required-then, get_installation-Gives, get_plugin-Gives,
  ensure_plugin_declaration-Gives, Same-WellFormed, Same-trans, done-Post, with_transaction-Post,
  Keeps-Post,
}
use dify_plugin_daemon.Curd.Upgrade.{
  is_installed_as, upgraded_plugin, upgraded_installation, map_option, upgrade_in, upgrade_plugin,
}
use dify_plugin_daemon.Curd.References.Install.{
  or_else-Found, refer-Counted, ensured-same, ensured-other,
}
use dify_plugin_daemon.Curd.References.Uninstall.{left, left-Counted}
use dify_plugin_daemon.Curd.References.Removal.{settled, settled-at, settled-installations}
use dify_plugin_daemon.Curd.References.Moves.{
  moved, referred, referred-Same, create_if_not_found-Gives, add_refers-Gives,
  update_installation-Gives, required_installation-then, delete_original-Keeps, replace_parts-Keeps,
}

some_eq : {p p' : Plugin} → ◌≡◌ {A = Option Plugin} (some p) (some p') → p ≡ p'
some_eq e = ground arith

Counted-by :
    (u : Text) {p p' : Option Plugin} {d d' : Option PluginDeclaration} {n n' : ℕ}
    → p ≡ p'
    → d ≡ d'
    → n ≡ n'
    → Counted u p' d' n'
    → Counted u p d n
Counted-by u {p = p} {p' = p'} {d = d} {d' = d'} {n = n} {n' = n'} e f g c =
    subst (λ p. Counted u p d n) (sym e)
      (subst (λ d. Counted u p' d n) (sym f) (subst (λ n. Counted u p' d' n) (sym g) c))

settled-plugins :
    (b : Bool) (o u : Text) (x : Database) → ¬ (u ≡ o) → (settled b o x).plugins u ≡ x.plugins u
settled-plugins true o u x n = put-other o u none x.plugins n
settled-plugins false o u x n = refl

settled-declarations :
    (b : Bool) (o u : Text) (x : Database)
    → ¬ (u ≡ o)
    → (settled b o x).declarations u ≡ x.declarations u
settled-declarations true o u x n = put-other o u none x.declarations n
settled-declarations false o u x n = refl

or_else-some : (old : Option Plugin) (new : Plugin) → (p : Plugin) × (or_else old new ≡ some p)
or_else-some none new = (new, refl)
or_else-some (some p) new = (p, refl)

-- A plugin with an installation has its row.
installed-row :
    (u : Text) (row : Option Plugin) (d : Option PluginDeclaration) (n : ℕ)
    → Counted u row d n
    → 0 < n
    → (p : Plugin) × (row ≡ some p)
installed-row u none d n c h = absurd (omega (arith, c))
installed-row u (some p) d n c h = (p, refl)

module _ (o i : Text) (t : PluginRuntimeType) (d : PluginDeclaration) (s m : Text) (k : ℕ)
    (q : PluginInstallation) (p : Plugin) (db : Database) (w : WellFormed db) (n : ¬ (o ≡ i))
    (hq : q.unique_identifier ≡ o) (rep : Replaces k q db.installations)
    (e : (moved o i t s m k q db).plugins o ≡ some p) where
  abbrev x : Database
  x = moved o i t s m k q db

  abbrev y : Database
  y = settled (is_zero p.refers) o x

  abbrev with_new : Text → Option Plugin
  with_new = put i (or_else (db.plugins i) (upgraded_plugin i t s)) db.plugins

  at_new :
      Counted i
        ((referred i t d y).plugins i)
        ((referred i t d y).declarations i)
        (count i x.installations)
  at_new =
      let (p1, e1) = or_else-some (db.plugins i) (upgraded_plugin i t s) in
      let found =
        or_else-Found i t (upgraded_plugin i t s) p1 (db.plugins i) (db.declarations i)
          (count i db.installations) refl refl refl (w i) e1 in
      let row : y.plugins i ≡ some p1 =
        settled-plugins (is_zero p.refers) o i x (λ h. n (sym h))
        ∙ put-other o i (map_option unrefer (with_new o)) with_new (λ h. n (sym h))
        ∙ put-same i (or_else (db.plugins i) (upgraded_plugin i t s)) db.plugins
        ∙ e1 in
      let declared : y.declarations i ≡ db.declarations i =
        settled-declarations (is_zero p.refers) o i x (λ h. n (sym h)) in
      Counted-by i
        (put-same i (map_option refer (y.plugins i)) y.plugins ∙ ap (map_option refer) row)
        (ensured-same i t d y.declarations
          ∙ ap (λ o. if is_remote t then o else or_else o d) declared)
        (omega (
          arith,
          rep i (some (upgraded_installation q i s m)),
          one-same i (upgraded_installation q i s m) refl,
          one-other i q 0 (λ h. n (sym hq ∙ h)),
        ))
        (refer-Counted i t d (db.declarations i) (count i db.installations) p1 found)

  at_original :
      Counted o
        ((referred i t d y).plugins o)
        ((referred i t d y).declarations o)
        (count o x.installations)
  at_original =
      let less : count o db.installations ≡ 1 + count o x.installations = omega (
        arith,
        rep o (some (upgraded_installation q i s m)),
        one-same o q hq,
        one-other o (upgraded_installation q i s m) 0 (λ h. n (sym h)),
      ) in
      let (p0, e0) =
        installed-row o (db.plugins o) (db.declarations o) (count o db.installations) (w o)
          (omega (arith, less)) in
      let same_row : x.plugins o ≡ some (unrefer p0) =
        put-same o (map_option unrefer (with_new o)) with_new
        ∙ ap (map_option unrefer)
            (put-other i o (or_else (db.plugins i) (upgraded_plugin i t s)) db.plugins n ∙ e0) in
      Counted-by o (put-other i o (map_option refer (y.plugins i)) y.plugins n)
        (ensured-other i o t d y.declarations n) refl
        (settled-at (is_zero p.refers) o x (count o x.installations) (
          subst
            (λ r.
              Counted o (if is_zero p.refers then none else r)
                (if is_zero p.refers then none else db.declarations o) (count o x.installations))
            (sym e)
            (subst
              (λ p.
                Counted o (left o p) (if is_zero p.refers then none else db.declarations o)
                  (count o x.installations))
              (some_eq (sym same_row ∙ e))
              (left-Counted o p0 (db.declarations o) (count o x.installations)
                (Counted-by o (sym e0) refl (sym less) (w o))))))

  at_other :
      (u : Text)
      → ¬ (u ≡ o)
      → ¬ (u ≡ i)
      → Counted u
          ((referred i t d y).plugins u)
          ((referred i t d y).declarations u)
          (count u x.installations)
  at_other u not_o ni =
      Counted-by u
        (put-other i u (map_option refer (y.plugins i)) y.plugins ni
          ∙ settled-plugins (is_zero p.refers) o u x not_o
          ∙ put-other o u (map_option unrefer (with_new o)) with_new not_o
          ∙ put-other i u (or_else (db.plugins i) (upgraded_plugin i t s)) db.plugins ni)
        (ensured-other i u t d y.declarations ni
          ∙ settled-declarations (is_zero p.refers) o u x not_o)
        (omega (
          arith,
          rep u (some (upgraded_installation q i s m)),
          one-other u q 0 (λ h. not_o (sym h ∙ hq)),
          one-other u (upgraded_installation q i s m) 0 (λ h. ni (sym h)),
        ))
        (w u)

  upgraded-WellFormed : WellFormed (referred i t d y)
  upgraded-WellFormed u =
      subst
        (λ l.
          Counted u ((referred i t d y).plugins u) ((referred i t d y).declarations u) (count u l))
        (sym (settled-installations (is_zero p.refers) o x))
        (elim (text_discrete u i) [
          | yes h ↦
              subst
                (λ u.
                  Counted u ((referred i t d y).plugins u) ((referred i t d y).declarations u)
                    (count u x.installations))
                (sym h) at_new
          | no ni ↦ elim (text_discrete u o) [
            | yes h ↦
                subst
                  (λ u.
                    Counted u ((referred i t d y).plugins u) ((referred i t d y).declarations u)
                      (count u x.installations))
                  (sym h) at_original
            | no no' ↦ at_other u no' ni
          ]
        ])

upgrade_in-WellFormed :
    (tenant o i : Text) (old new : PluginDeclaration) (t : PluginRuntimeType) (s m : Text)
    (db : Database) (fs : Faults)
    → ¬ (o ≡ i)
    → WellFormed db
    → Post WellFormed (upgrade_in tenant o i old new t s m db fs)
unfolding upgrade_in
upgrade_in-WellFormed tenant o i old new t s m db fs n w =
    Gives-then WellFormed _ _ _ _ (get_installation-Gives (is_installed_as o tenant) db fs) λ fs.
      required_installation-then WellFormed _ _ db _ λ (k, q) found.
        let (h, rep) = find_row-found (is_installed_as o tenant) db.installations (k, q) found in
        Gives-then WellFormed _ _ _ _ (get_plugin-Gives i db fs) λ fs.
          Gives-then WellFormed _ _ _ _ (create_if_not_found-Gives i (upgraded_plugin i t s) db fs)
            λ fs.
              Gives-then WellFormed _ _ _ _
                (update_installation-Gives k (upgraded_installation q i s m)
                  (record db {
                    plugins = put i (or_else (db.plugins i) (upgraded_plugin i t s)) db.plugins;
                  })
                  fs)
                λ fs.
                  Gives-then WellFormed _ _ (moved o i t s m k q db) _
                    (add_refers-Gives unrefer o
                      (record db {
                        plugins = put i (or_else (db.plugins i) (upgraded_plugin i t s)) db.plugins;
                        installations =
                            set_row k (some (upgraded_installation q i s m)) db.installations;
                      })
                      fs)
                    λ fs.
                      Gives-then WellFormed _ _ _ _ (get_plugin-Gives o (moved o i t s m k q db) fs)
                        λ fs. required-then WellFormed _ _ (moved o i t s m k q db) _ λ p e.
                          Keeps-Post WellFormed _ _
                            (settled (is_zero p.refers) o (moved o i t s m k q db))
                            (delete_original-Keeps o p (moved o i t s m k q db) fs)
                            λ a db' fs same.
                              Gives-then WellFormed _ _ _ _ (add_refers-Gives refer i db' fs) λ fs.
                                Gives-then WellFormed _ _ (referred i t new db') _
                                  (ensure_plugin_declaration-Gives i t new
                                    (record db' {
                                      plugins =
                                          put i (map_option refer (db'.plugins i)) db'.plugins;
                                    })
                                    fs)
                                  λ fs.
                                    Keeps-Post WellFormed _ _ (referred i t new db')
                                      (replace_parts-Keeps o i tenant old new (referred i t new db')
                                        fs)
                                      λ a db'' fs same2. done-Post WellFormed _ db'' fs (
                                        Same-WellFormed db''
                                          (referred i t new
                                            (settled (is_zero p.refers) o (moved o i t s m k q db)))
                                          (Same-trans db'' (referred i t new db')
                                            (referred i t new (
                                              settled (is_zero p.refers) o
                                                (moved o i t s m k q db)))
                                            same2
                                            (referred-Same i t new db'
                                              (settled (is_zero p.refers) o
                                                (moved o i t s m k q db))
                                              same))
                                          (upgraded-WellFormed o i t new s m k q p db w n
                                            (identified k q h) rep e))
  where
    identified :
        (k : ℕ) (q : PluginInstallation)
        → is_installed_as o tenant k q ≡ true
        → q.unique_identifier ≡ o
    identified k q h = ground arith

-- UpgradePlugin between two different identifiers, whatever accesses fail, keeps the tables such that
-- each plugin's row exists exactly while it has an installation, refers is the number of its
-- installations, and a plugin that is not remote has its declaration. Declarations of plugins without
-- a row, as uploads leave them, may be there.
pub upgrade_plugin-WellFormed :
    (tenant original identifier : Text) (old new : PluginDeclaration)
    (install_type : PluginRuntimeType) (source meta : Text) (cache_fails : Bool) (db : Database)
    (faults : Faults)
    → ¬ (original ≡ identifier)
    → WellFormed db
    → WellFormed
        (upgrade_plugin tenant original identifier old new install_type source meta cache_fails db
          faults).outcome.database
unfolding upgrade_plugin
upgrade_plugin-WellFormed tenant o i old new t s m fails db fs n w =
    with_transaction-Post WellFormed (upgrade_in tenant o i old new t s m) db fs w
      (λ fs. upgrade_in-WellFormed tenant o i old new t s m db fs n w)
