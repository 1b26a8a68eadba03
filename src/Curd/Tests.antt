-- ===== src/Curd/Tests.antt =====
-- Two tenants that install and uninstall a plugin.
use dify_plugin_daemon.Common.{true, false, none, some, [], ◌∷◌, ◌≡◌, ◌≢◌, refl, ℕ_discrete}
use dify_plugin_daemon.Curd.Database.{
  text_discrete, colons, before_colon, plugin_id_of, increment, decrement, put, find_row, set_row,
  Text, PluginDeclaration, Plugin, local, Database, empty_database,
}
use dify_plugin_daemon.Curd.Access.{
  and_then, access, remove_parts, delete_part, create_part, commit, with_transaction, Faults,
  database_error, not_been_installed, cache_error, err,
}
use dify_plugin_daemon.Curd.Install.{
  create_plugin_if_missing, ensure_plugin_declaration, get_installation, get_plugin, update_plugin,
  create_installation, create_declared, create_parts, refer, new_plugin, install_in, install_found,
  install_plugin,
}
use dify_plugin_daemon.Curd.Uninstall.{
  delete_declared, delete_declaration, delete_serverless_runtime, delete_plugin, delete_unreferred,
  unrefer, release_plugin, delete_installation, delete_parts, delete_if_unreferred, uninstall_in,
  cleared_by_uninstall, uninstall_found, uninstall_plugin,
}
use dify_plugin_daemon.Curd.Upgrade.{
  create_if_not_found, update_installation, add_refers, delete_original, replace_part,
  replace_parts, upgrade_in, cleared_by_upgrade, upgrade_plugin,
}
use dify_plugin_daemon.Curd.References.{WellFormed}
use dify_plugin_daemon.Curd.Upload.{upload_package, prepare_declaration, create_undeclared}
use dify_plugin_daemon.Curd.References.Drops.{uninstall_plugin-drops}
use dify_plugin_daemon.Curd.References.Upload.{upload_package-WellFormed}
use dify_plugin_daemon.Curd.References.Install.{install_plugin-WellFormed}
use dify_plugin_daemon.Curd.References.Uninstall.{uninstall_plugin-WellFormed}
use dify_plugin_daemon.Common.{List, arith}
use dify_plugin_daemon.Curd.References.Upgrade.{upgrade_plugin-WellFormed}
use dify_plugin_daemon.Curd.References.Runs.{
  Operation, upload, install, uninstall, upgrade, perform_all, perform_all-WellFormed,
}
use dify_plugin_daemon.Curd.Atomic.{
  install_plugin-atomic, uninstall_plugin-atomic, upgrade_plugin-atomic,
}

-- "t", "a:1" and "a:2".
abbrev tenant : Text
tenant = b't' ∷ []

abbrev plugin_1 : Text
plugin_1 = b'a' ∷ b':' ∷ b'1' ∷ []

abbrev plugin_2 : Text
plugin_2 = b'a' ∷ b':' ∷ b'2' ∷ []

abbrev declaration : PluginDeclaration
declaration = record {
  tool = some (b'x' ∷ []);
  agent_strategy = none;
  model = none;
  datasource = none;
  trigger = none;
}

-- An uploaded package that is not installed yet.
abbrev uploaded : Database
uploaded = upload_package plugin_1 declaration empty_database []

abbrev installed : Database
installed = (install_plugin tenant plugin_1 local declaration [] [] uploaded []).outcome.database

empty_database-WellFormed : WellFormed empty_database
empty_database-WellFormed u = refl

uploaded-WellFormed : WellFormed uploaded
uploaded-WellFormed =
    upload_package-WellFormed plugin_1 declaration empty_database [] empty_database-WellFormed

install_plugin-WellFormed_example : WellFormed installed
install_plugin-WellFormed_example =
    install_plugin-WellFormed tenant plugin_1 local declaration [] [] uploaded []
      uploaded-WellFormed

installed-WellFormed : WellFormed installed
installed-WellFormed =
    install_plugin-WellFormed tenant plugin_1 local declaration [] [] uploaded []
      uploaded-WellFormed

uninstall_plugin-WellFormed_example :
    WellFormed (uninstall_plugin tenant plugin_1 0 declaration installed []).outcome.database
uninstall_plugin-WellFormed_example =
    uninstall_plugin-WellFormed tenant plugin_1 0 declaration installed [] installed-WellFormed

plugin_1≢plugin_2 : ¬ (plugin_1 ≡ plugin_2)
plugin_1≢plugin_2 e = ground arith

upgrade_plugin-WellFormed_example :
    WellFormed
      (upgrade_plugin tenant plugin_1 plugin_2 declaration declaration local [] [] false installed
        []).outcome.database
upgrade_plugin-WellFormed_example =
    upgrade_plugin-WellFormed tenant plugin_1 plugin_2 declaration declaration local [] [] false
      installed [] plugin_1≢plugin_2 installed-WellFormed

abbrev calls : List Operation
calls =
    upload plugin_1 declaration []
    ∷ install tenant plugin_1 local declaration [] [] []
    ∷ install (b'u' ∷ []) plugin_1 local declaration [] [] (false ∷ true ∷ [])
    ∷ upgrade tenant plugin_1 plugin_2 declaration declaration local [] [] false []
    ∷ uninstall tenant plugin_2 0 declaration []
    ∷ []

perform_all-WellFormed_example : WellFormed (perform_all calls empty_database)
perform_all-WellFormed_example =
    perform_all-WellFormed calls (tt, (tt, (tt, (plugin_1≢plugin_2, (tt, tt)))))

-- The fourth access of the installation fails, which is the search in its transaction.
abbrev fourth_fails : Faults
fourth_fails = false ∷ false ∷ false ∷ true ∷ []

install_fails :
    (install_plugin tenant plugin_1 local declaration [] [] empty_database
      fourth_fails).outcome.result
    ≡ err database_error
unfolding text_discrete colons before_colon plugin_id_of increment decrement put find_row set_row
    and_then access remove_parts delete_part create_part commit with_transaction
    create_plugin_if_missing ensure_plugin_declaration get_installation get_plugin update_plugin
    create_installation create_declared create_parts refer install_in install_found install_plugin
    delete_declared delete_declaration delete_serverless_runtime delete_plugin delete_unreferred
    unrefer release_plugin delete_installation delete_parts delete_if_unreferred uninstall_in
    cleared_by_uninstall uninstall_found uninstall_plugin create_if_not_found update_installation
    add_refers delete_original replace_part replace_parts upgrade_in cleared_by_upgrade
    upgrade_plugin ℕ_discrete
install_fails = refl

install_plugin-atomic_example :
    (install_plugin tenant plugin_1 local declaration [] [] empty_database
      fourth_fails).outcome.database
    ≡ empty_database
install_plugin-atomic_example =
    install_plugin-atomic tenant plugin_1 local declaration [] [] empty_database fourth_fails
      database_error install_fails

uninstall_fails :
    (uninstall_plugin tenant plugin_1 0 declaration empty_database (true ∷ [])).outcome.result
    ≡ err database_error
unfolding text_discrete colons before_colon plugin_id_of increment decrement put find_row set_row
    and_then access remove_parts delete_part create_part commit with_transaction
    create_plugin_if_missing ensure_plugin_declaration get_installation get_plugin update_plugin
    create_installation create_declared create_parts refer install_in install_found install_plugin
    delete_declared delete_declaration delete_serverless_runtime delete_plugin delete_unreferred
    unrefer release_plugin delete_installation delete_parts delete_if_unreferred uninstall_in
    cleared_by_uninstall uninstall_found uninstall_plugin create_if_not_found update_installation
    add_refers delete_original replace_part replace_parts upgrade_in cleared_by_upgrade
    upgrade_plugin ℕ_discrete
uninstall_fails = refl

uninstall_plugin-atomic_example :
    (uninstall_plugin tenant plugin_1 0 declaration empty_database (true ∷ [])).outcome.database
    ≡ empty_database
uninstall_plugin-atomic_example =
    uninstall_plugin-atomic tenant plugin_1 0 declaration empty_database (true ∷ []) database_error
      uninstall_fails

upgrade_fails :
    (upgrade_plugin tenant plugin_1 plugin_2 declaration declaration local [] [] false
      empty_database []).outcome.result
    ≡ err not_been_installed
unfolding text_discrete colons before_colon plugin_id_of increment decrement put find_row set_row
    and_then access remove_parts delete_part create_part commit with_transaction
    create_plugin_if_missing ensure_plugin_declaration get_installation get_plugin update_plugin
    create_installation create_declared create_parts refer install_in install_found install_plugin
    delete_declared delete_declaration delete_serverless_runtime delete_plugin delete_unreferred
    unrefer release_plugin delete_installation delete_parts delete_if_unreferred uninstall_in
    cleared_by_uninstall uninstall_found uninstall_plugin create_if_not_found update_installation
    add_refers delete_original replace_part replace_parts upgrade_in cleared_by_upgrade
    upgrade_plugin ℕ_discrete
upgrade_fails = refl

not_been_installed≢cache_error : not_been_installed ≢ cache_error
not_been_installed≢cache_error e = cc

upgrade_plugin-atomic_example :
    (upgrade_plugin tenant plugin_1 plugin_2 declaration declaration local [] [] false
      empty_database []).outcome.database
    ≡ empty_database
upgrade_plugin-atomic_example =
    upgrade_plugin-atomic tenant plugin_1 plugin_2 declaration declaration local [] [] false
      empty_database [] not_been_installed upgrade_fails not_been_installed≢cache_error

abbrev installed_row : Plugin
installed_row = refer (new_plugin plugin_1 local declaration [])

installed-row : installed.plugins plugin_1 ≡ some installed_row
unfolding upload_package prepare_declaration create_undeclared text_discrete colons before_colon
    plugin_id_of increment decrement put find_row set_row and_then access remove_parts delete_part
    create_part commit with_transaction create_plugin_if_missing ensure_plugin_declaration
    get_installation get_plugin update_plugin create_installation create_declared create_parts refer
    install_in install_found install_plugin delete_declared delete_declaration
    delete_serverless_runtime delete_plugin delete_unreferred unrefer release_plugin
    delete_installation delete_parts delete_if_unreferred uninstall_in cleared_by_uninstall
    uninstall_found uninstall_plugin create_if_not_found update_installation add_refers
    delete_original replace_part replace_parts upgrade_in cleared_by_upgrade upgrade_plugin
    ℕ_discrete
installed-row = refl

uninstalled-row :
    (uninstall_plugin tenant plugin_1 0 declaration installed []).outcome.database.plugins plugin_1
    ≡ none
unfolding upload_package prepare_declaration create_undeclared text_discrete colons before_colon
    plugin_id_of increment decrement put find_row set_row and_then access remove_parts delete_part
    create_part commit with_transaction create_plugin_if_missing ensure_plugin_declaration
    get_installation get_plugin update_plugin create_installation create_declared create_parts refer
    install_in install_found install_plugin delete_declared delete_declaration
    delete_serverless_runtime delete_plugin delete_unreferred unrefer release_plugin
    delete_installation delete_parts delete_if_unreferred uninstall_in cleared_by_uninstall
    uninstall_found uninstall_plugin create_if_not_found update_installation add_refers
    delete_original replace_part replace_parts upgrade_in cleared_by_upgrade upgrade_plugin
    ℕ_discrete
uninstalled-row = refl

uninstall_plugin-drops_example :
    (uninstall_plugin tenant plugin_1 0 declaration installed []).outcome.database.declarations
      plugin_1
    ≡ none
uninstall_plugin-drops_example =
    uninstall_plugin-drops tenant plugin_1 0 declaration installed [] plugin_1 installed_row
      installed-WellFormed installed-row uninstalled-row
