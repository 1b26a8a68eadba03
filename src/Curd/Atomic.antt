-- ===== src/Curd/Atomic.antt =====
-- What an error of the three operations leaves.
use dify_plugin_daemon.Common.{
  ℕ, Bool, true, false, Option, none, some, [], ◌∷◌, ◌≡◌, refl, ◌∙◌, ◌≢◌,
}
use dify_plugin_daemon.Curd.Database.{
  Text, plugin_id_of, PluginRuntimeType, PluginDeclaration, Plugin, PluginInstallation, Database,
  find_row,
}
use dify_plugin_daemon.Curd.Access.{
  Error, cache_error, Faults, Step, done, failed, Tx, Result, ok, err, commit, with_transaction,
}
use dify_plugin_daemon.Curd.Install.{
  get_installation, is_installed_by, install_in, install_found, install_plugin,
}
use dify_plugin_daemon.Curd.Uninstall.{
  is_installation, uninstall_in, respond, uninstall_found, uninstall_plugin,
}
use dify_plugin_daemon.Curd.References.{Gives, get_installation-Gives}
use dify_plugin_daemon.Curd.Upgrade.{upgrade_in, finish_upgrade, upgrade_plugin}

commit-err :
    {A : Type 0} (db : Database) (s : Step A) (e : Error)
    → (commit db s).result ≡ err e
    → (commit db s).database ≡ db
unfolding commit
commit-err db (failed e' fs) e h = refl
commit-err db (done a db' []) e h = absurd (cc)
commit-err db (done a db' (true ∷ fs)) e h = refl
commit-err db (done a db' (false ∷ fs)) e h = absurd (cc)

with_transaction-err :
    {A : Type 0} (m : Tx A) (db : Database) (fs : Faults) (e : Error)
    → (with_transaction m db fs).result ≡ err e
    → (with_transaction m db fs).database ≡ db
unfolding with_transaction
with_transaction-err m db [] e h = commit-err db (m db []) e h
with_transaction-err m db (true ∷ fs) e h = refl
with_transaction-err m db (false ∷ fs) e h = commit-err db (m db fs) e h

-- An InstallPlugin that returns an error has changed no table.
pub install_plugin-atomic :
    (tenant identifier : Text) (install_type : PluginRuntimeType) (declaration : PluginDeclaration)
    (source meta : Text) (db : Database) (faults : Faults) (e : Error)
    → (install_plugin tenant identifier install_type declaration source meta db
        faults).outcome.result
      ≡ err e
    → (install_plugin tenant identifier install_type declaration source meta db
        faults).outcome.database
      ≡ db
unfolding install_plugin install_found Gives
install_plugin-atomic tenant i t d s m db fs e =
    found (get_installation (is_installed_by (plugin_id_of i) tenant) db fs)
      (get_installation-Gives (is_installed_by (plugin_id_of i) tenant) db fs)
  where
    found :
        (step : Step (Option (ℕ × PluginInstallation)))
        → Gives step (find_row (is_installed_by (plugin_id_of i) tenant) 0 db.installations) db
        → (install_found tenant i t d s m db step).result ≡ err e
        → (install_found tenant i t d s m db step).database ≡ db
    found (failed e' fs) g h = refl
    found (done (some r) db' fs) g h = g.1
    found (done none db' fs) g h =
        with_transaction-err (install_in tenant i t d s m) db' fs e h ∙ g.1

-- An UninstallPlugin that returns an error has changed no table.
pub uninstall_plugin-atomic :
    (tenant identifier : Text) (id : ℕ) (declaration : PluginDeclaration) (db : Database)
    (faults : Faults) (e : Error)
    → (uninstall_plugin tenant identifier id declaration db faults).outcome.result ≡ err e
    → (uninstall_plugin tenant identifier id declaration db faults).outcome.database ≡ db
unfolding uninstall_plugin uninstall_found Gives
uninstall_plugin-atomic tenant i id d db fs e =
    found (get_installation (is_installation id i tenant) db fs)
      (get_installation-Gives (is_installation id i tenant) db fs)
  where
    responded : (r : Result (Option Plugin × PluginInstallation)) → respond r ≡ err e → r ≡ err e
    responded (ok (p, q)) h = absurd (cc)
    responded (err e') h = cc

    found :
        (step : Step (Option (ℕ × PluginInstallation)))
        → Gives step (find_row (is_installation id i tenant) 0 db.installations) db
        → (uninstall_found tenant i id d db step).outcome.result ≡ err e
        → (uninstall_found tenant i id d db step).outcome.database ≡ db
    found (failed e' fs) g h = refl
    found (done none db' fs) g h = g.1
    found (done (some r) db' fs) g h =
        with_transaction-err (uninstall_in tenant i id d) db' fs e
          (responded (with_transaction (uninstall_in tenant i id d) db' fs).result h)
        ∙ g.1

-- An UpgradePlugin that returns an error other than that of the cache, which it meets after the
-- transaction, has changed no table.
pub upgrade_plugin-atomic :
    (tenant original identifier : Text) (old new : PluginDeclaration)
    (install_type : PluginRuntimeType) (source meta : Text) (cache_fails : Bool) (db : Database)
    (faults : Faults) (e : Error)
    → (upgrade_plugin tenant original identifier old new install_type source meta cache_fails db
        faults).outcome.result
      ≡ err e
    → e ≢ cache_error
    → (upgrade_plugin tenant original identifier old new install_type source meta cache_fails db
        faults).outcome.database
      ≡ db
unfolding upgrade_plugin
upgrade_plugin-atomic tenant o i old new t s m fails db fs e h n =
    with_transaction-err (upgrade_in tenant o i old new t s m) db fs e
      (finished fails (with_transaction (upgrade_in tenant o i old new t s m) db fs).result h)
  where
    finished : (b : Bool) (r : Result (Option Plugin)) → finish_upgrade b r ≡ err e → r ≡ err e
    finished b (err e') h = h
    finished true (ok p) h = absurd (n (cc))
    finished false (ok p) h = absurd (cc)
