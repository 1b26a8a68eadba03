-- ===== src/Curd/References/Uninstall.antt =====
-- UninstallPlugin keeps the tables well formed.
use dify_plugin_daemon.Common.{
  ℕ, zero, suc, ◌+◌, Bool, true, false, Option, none, some, [], ◌∷◌, ◌≡◌, refl, if◌then◌else◌,
  arith, ap, sym, subst, ◌∙◌,
}
use dify_plugin_daemon.Curd.Database.{
  Text, text_discrete, pos, decrement, is_zero, PluginDeclaration, Plugin, PluginInstallation,
  Database, put, find_row, set_row,
}
use dify_plugin_daemon.Curd.Access.{
  with_transaction, Faults, Step, done, failed, and_then, ◌>>◌, pure, access,
}
use dify_plugin_daemon.Curd.Install.{get_installation, update_plugin}
use dify_plugin_daemon.Curd.Uninstall.{
  delete_unreferred, is_installation, unrefer, release_plugin, delete_installation, get_plugin_id,
  delete_parts, delete_if_unreferred, uninstall_in, uninstall_found, uninstall_plugin,
}
use dify_plugin_daemon.Curd.Rows.{
  count, Replaces, find_row-found, put-same, put-other, one-same, one-other,
}
use dify_plugin_daemon.Curd.References.{
  Counted, WellFormed, Post, Gives, Gives-then, required-then, access-Gives, get_installation-Gives,
  get_plugin-Gives, Same, Same-WellFormed, Same-trans, done-Post, with_transaction-Post, Keeps,
  Keeps-Post,
}
use dify_plugin_daemon.Curd.References.Removal.{
  delete_parts-Keeps, delete_unreferred-Keeps, pure-Keeps, settled, settled-Same, settled-at,
  settled-other, settled-installations,
}

-- The row of the plugin after the transaction of UninstallPlugin.
abbrev pub left : Text → Plugin → Option Plugin
left u p = if is_zero p.refers then none else some p

pub left-Counted :
    (u : Text) (p : Plugin) (d : Option PluginDeclaration) (n : ℕ)
    → Counted u (some p) d (1 + n)
    → Counted u (left u (unrefer p)) (if is_zero (unrefer p).refers then none else d) n
unfolding unrefer decrement
left-Counted u p d zero c = rw c.1 refl
left-Counted u p d (suc n) c =
    let e : p.refers ≡ pos (suc (suc n)) = c.1 ∙ ap pos (omega arith) in
    rw e (c.0, refl, omega arith, c.3)

delete_if_unreferred-Keeps :
    (u : Text) (p : Plugin) (db : Database) (fs : Faults)
    → Keeps (delete_if_unreferred u (some p) db fs) (settled (is_zero p.refers) u db)
unfolding delete_if_unreferred
delete_if_unreferred-Keeps u p db fs = go (is_zero p.refers)
  where
    go : (b : Bool) → Keeps ((if b then delete_unreferred u p else pure tt) db fs) (settled b u db)
    go true = delete_unreferred-Keeps u p db fs
    go false = pure-Keeps db fs

release_plugin-Gives :
    (u : Text) (p : Plugin) (db : Database) (fs : Faults)
    → Gives
        (release_plugin u (some p) db fs)
        (some (unrefer p))
        (record db { plugins = put u (some (unrefer p)) db.plugins })
unfolding release_plugin update_plugin access and_then Gives
release_plugin-Gives u p db [] = (refl, refl)
release_plugin-Gives u p db (true ∷ fs) = tt
release_plugin-Gives u p db (false ∷ fs) = (refl, refl)

delete_installation-Gives :
    (k : ℕ) (db : Database) (fs : Faults)
    → Gives
        (delete_installation k db fs)
        tt
        (record db { installations = set_row k none db.installations })
unfolding delete_installation
delete_installation-Gives k db fs =
    access-Gives (λ db. (tt, record db { installations = set_row k none db.installations })) db fs

-- The tables once the installation is gone and its plugin has lost a reference.
abbrev pub released : Text → Plugin → ℕ → Database → Database
released i p k db = record db {
  plugins = put i (some (unrefer p)) db.plugins;
  installations = set_row k none db.installations;
}

released-WellFormed :
    (i : Text) (p : Plugin) (k : ℕ) (q : PluginInstallation) (db : Database)
    → WellFormed db
    → db.plugins i ≡ some p
    → q.unique_identifier ≡ i
    → Replaces k q db.installations
    → WellFormed (settled (is_zero (unrefer p).refers) i (released i p k db))
released-WellFormed i p k q db w e hq rep u =
    subst (λ l. Counted u (x.plugins u) (x.declarations u) (count u l))
      (sym (settled-installations (is_zero (unrefer p).refers) i (released i p k db)))
      (elim (text_discrete u i) [
        | yes h ↦
            subst
              (λ u.
                Counted u (x.plugins u) (x.declarations u)
                  (count u (set_row k none db.installations)))
              (sym h) at_i
        | no n ↦
            settled-other _ i u (released i p k db) _ n
              (rw (put-other i u (some (unrefer p)) db.plugins n) (rw (others n) (w u)))
      ])
  where
    x : Database
    x = settled (is_zero (unrefer p).refers) i (released i p k db)

    counted : Counted i (some p) (db.declarations i) (1 + count i (set_row k none db.installations))
    counted =
        subst (λ o. Counted i o (db.declarations i) (1 + count i (set_row k none db.installations)))
          e
          (subst (Counted i (db.plugins i) (db.declarations i))
            (omega (arith, rep i none, one-same i q hq)) (w i))

    at_i : Counted i (x.plugins i) (x.declarations i) (count i (set_row k none db.installations))
    at_i = settled-at (is_zero (unrefer p).refers) i (released i p k db) _ (
        rw (put-same i (some (unrefer p)) db.plugins) (
          left-Counted i p (db.declarations i) (count i (set_row k none db.installations)) counted))

    others : ¬ (u ≡ i) → count u (set_row k none db.installations) ≡ count u db.installations
    others n = omega (arith, rep u none, one-other u q 0 (λ h. n (sym h ∙ hq)))

-- The tables that UninstallPlugin may leave where it commits: those without the installation `r` and
-- with one reference less of its plugin, and without the plugin if that was the last one.
abbrev pub Uninstalled : Text → Database → Database → Type 0
Uninstalled i db x =
    (k : ℕ) × (q : PluginInstallation) × (p : Plugin) × (db.plugins i ≡ some p)
    × (q.unique_identifier ≡ i)
    × Replaces k q db.installations
    × Same x (settled (is_zero (unrefer p).refers) i (released i p k db))

uninstall_in-Uninstalled :
    (tenant i : Text) (id : ℕ) (d : PluginDeclaration) (db : Database) (fs : Faults)
    → WellFormed db
    → Post (Uninstalled i db) (uninstall_in tenant i id d db fs)
unfolding uninstall_in
uninstall_in-Uninstalled tenant i id d db fs w =
    Gives-then Q _ _ _ _ (get_installation-Gives (is_installation id i tenant) db fs) λ fs.
      required-then Q _ _ db _ λ r found.
        Gives-then Q _ _ _ _ (get_plugin-Gives i db fs) λ fs. run r found (db.plugins i) fs refl
  where
    Q : Database → Type 0
    Q = Uninstalled i db

    identified :
        (k : ℕ) (q : PluginInstallation)
        → is_installation id i tenant k q ≡ true
        → q.unique_identifier ≡ i
    identified k q h = ground arith

    missing :
        (k : ℕ) (q : PluginInstallation)
        → q.unique_identifier ≡ i
        → db.plugins i ≡ none
        → Replaces k q db.installations
        → ⊥
    missing k q hq e rep =
        let c = subst (λ o. Counted i o (db.declarations i) (count i db.installations)) e (w i) in
        omega (arith, rep i none, one-same i q hq, c)

    run :
        (r : ℕ × PluginInstallation)
        → find_row (is_installation id i tenant) 0 db.installations ≡ some r
        → (o : Option Plugin) (fs : Faults) → db.plugins i ≡ o
        → Post {A = Option Plugin × PluginInstallation} Q (
            and_then (release_plugin i o db fs) (λ p.
              delete_installation r.0
              >> (delete_parts (get_plugin_id p r.1) tenant d
                  >> (delete_if_unreferred i p >> pure (p, r.1)))))
    run (k, q) found none fs e =
        let (h, rep) = find_row-found (is_installation id i tenant) db.installations (k, q) found in
        absurd (missing k q (identified k q h) e rep)
    run (k, q) found (some p) fs e =
        let (h, rep) = find_row-found (is_installation id i tenant) db.installations (k, q) found in
        Gives-then Q _ _ _ _ (release_plugin-Gives i p db fs) λ fs.
          Gives-then Q _ _ (released i p k db) _
            (delete_installation-Gives k
              (record db { plugins = put i (some (unrefer p)) db.plugins }) fs)
            λ fs.
              Keeps-Post Q _ _ (released i p k db)
                (delete_parts-Keeps (unrefer p).plugin_id tenant d (released i p k db) fs)
                λ a db' fs same1.
                  Keeps-Post Q _ _ (settled (is_zero (unrefer p).refers) i db')
                    (delete_if_unreferred-Keeps i (unrefer p) db' fs)
                    λ a db'' fs same2. done-Post Q _ db'' fs (
                      k,
                      q,
                      p,
                      e,
                      identified k q h,
                      rep,
                      Same-trans db'' (settled (is_zero (unrefer p).refers) i db')
                          (settled (is_zero (unrefer p).refers) i (released i p k db)) same2
                          (settled-Same (is_zero (unrefer p).refers) i db' (released i p k db)
                            same1),
                    )

-- What holds of the tables in front of UninstallPlugin and of those that it may leave holds behind it.
pub uninstall_plugin-Post :
    (Q : Database → Type 0) (tenant i : Text) (id : ℕ) (d : PluginDeclaration) (db : Database)
    (fs : Faults)
    → WellFormed db
    → Q db
    → ((x : Database) → Uninstalled i db x → Q x)
    → Q (uninstall_plugin tenant i id d db fs).outcome.database
unfolding uninstall_plugin uninstall_found Gives Post
uninstall_plugin-Post Q tenant i id d db fs w q h =
    found (get_installation (is_installation id i tenant) db fs)
      (get_installation-Gives (is_installation id i tenant) db fs)
  where
    weaken : {A : Type 0} (step : Step A) → Post (Uninstalled i db) step → Post Q step
    weaken (done a x fs) u = h x u
    weaken (failed e fs) u = tt

    committed :
        (db' : Database) (fs : Faults)
        → db' ≡ db
        → Q (with_transaction (uninstall_in tenant i id d) db' fs).database
    committed db' fs e =
        subst (λ x. Q (with_transaction (uninstall_in tenant i id d) x fs).database) (sym e)
          (with_transaction-Post Q (uninstall_in tenant i id d) db fs q (λ fs.
            weaken (uninstall_in tenant i id d db fs)
              (uninstall_in-Uninstalled tenant i id d db fs w)))

    found :
        (step : Step (Option (ℕ × PluginInstallation)))
        → Gives step (find_row (is_installation id i tenant) 0 db.installations) db
        → Q (uninstall_found tenant i id d db step).outcome.database
    found (failed e fs) g = q
    found (done none db' fs) g = subst Q (sym g.1) q
    found (done (some r) db' fs) g = committed db' fs g.1

-- UninstallPlugin, whatever accesses fail, keeps the tables such that each plugin's row exists
-- exactly while it has an installation, refers is the number of its installations, and a plugin that
-- is not remote has its declaration. Declarations of plugins without a row, as uploads leave them, may
-- be there.
pub uninstall_plugin-WellFormed :
    (tenant identifier : Text) (id : ℕ) (declaration : PluginDeclaration) (db : Database)
    (faults : Faults)
    → WellFormed db
    → WellFormed (uninstall_plugin tenant identifier id declaration db faults).outcome.database
uninstall_plugin-WellFormed tenant i id d db fs w =
    uninstall_plugin-Post WellFormed tenant i id d db fs w w λ x (k, q, p, e, hq, rep, same).
      Same-WellFormed x (settled (is_zero (unrefer p).refers) i (released i p k db)) same
        (released-WellFormed i p k q db w e hq rep)
