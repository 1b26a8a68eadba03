-- ===== src/Curd/References/Runs.antt =====
-- Runs of uploads and the three operations on tables that are empty at first.
use dify_plugin_daemon.Common.{Bool, List, [], ◌∷◌, ◌≡◌, refl, All, ℕ}
use dify_plugin_daemon.Curd.Database.{
  Text, PluginRuntimeType, PluginDeclaration, Database, empty_database,
}
use dify_plugin_daemon.Curd.Access.{Faults}
use dify_plugin_daemon.Curd.Install.{install_plugin}
use dify_plugin_daemon.Curd.Uninstall.{uninstall_plugin}
use dify_plugin_daemon.Curd.Upgrade.{upgrade_plugin}
use dify_plugin_daemon.Curd.Upload.{upload_package}
use dify_plugin_daemon.Curd.References.{WellFormed}
use dify_plugin_daemon.Curd.References.Install.{install_plugin-WellFormed}
use dify_plugin_daemon.Curd.References.Uninstall.{uninstall_plugin-WellFormed}
use dify_plugin_daemon.Curd.References.Upgrade.{upgrade_plugin-WellFormed}
use dify_plugin_daemon.Curd.References.Upload.{upload_package-WellFormed}

-- A call with the accesses that fail in it.
pub data Operation : Type 0 where
  upload : Text → PluginDeclaration → Faults → Operation
  install : Text → Text → PluginRuntimeType → PluginDeclaration → Text → Text → Faults → Operation
  uninstall : Text → Text → ℕ → PluginDeclaration → Faults → Operation
  upgrade :
      Text
      → Text
      → Text
      → PluginDeclaration
      → PluginDeclaration
      → PluginRuntimeType
      → Text
      → Text
      → Bool
      → Faults
      → Operation

pub perform : Operation → Database → Database
perform (upload identifier d fs) db = upload_package identifier d db fs
perform (install tenant identifier t d source meta fs) db =
    (install_plugin tenant identifier t d source meta db fs).outcome.database
perform (uninstall tenant identifier id d fs) db =
    (uninstall_plugin tenant identifier id d db fs).outcome.database
perform (upgrade tenant original identifier old new t source meta cache_fails fs) db =
    (upgrade_plugin tenant original identifier old new t source meta cache_fails db
      fs).outcome.database

pub perform_all : List Operation → Database → Database
unfolding perform
perform_all [] db = db
perform_all (o ∷ os) db = perform_all os (perform o db)

-- The controller refuses an upgrade to the same identifier.
abbrev pub IsDistinct : Operation → Type 0
IsDistinct (upload identifier d fs) = Unit
IsDistinct (install tenant identifier t d source meta fs) = Unit
IsDistinct (uninstall tenant identifier id d fs) = Unit
IsDistinct (upgrade tenant original identifier old new t source meta cache_fails fs) =
    ¬ (original ≡ identifier)

perform-WellFormed :
    (o : Operation) (db : Database) → IsDistinct o → WellFormed db → WellFormed (perform o db)
unfolding perform
perform-WellFormed (upload i d fs) db n w = upload_package-WellFormed i d db fs w
perform-WellFormed (install tenant i t d s m fs) db n w =
    install_plugin-WellFormed tenant i t d s m db fs w
perform-WellFormed (uninstall tenant i id d fs) db n w =
    uninstall_plugin-WellFormed tenant i id d db fs w
perform-WellFormed (upgrade tenant o i old new t s m c fs) db n w =
    upgrade_plugin-WellFormed tenant o i old new t s m c db fs n w

perform_all-from :
    (os : List Operation) (db : Database)
    → All IsDistinct os
    → WellFormed db
    → WellFormed (perform_all os db)
unfolding perform_all
perform_all-from [] db n w = w
perform_all-from (o ∷ os) db n w =
    perform_all-from os (perform o db) n.1 (perform-WellFormed o db n.0 w)

-- Whatever sequence of uploads, installs, uninstalls and upgrades between different identifiers runs
-- on empty tables, and whatever accesses fail in it: each plugin's row exists exactly while it has an
-- installation, refers is the number of its installations, and a plugin that is not remote has its
-- declaration.
pub perform_all-WellFormed :
    (os : List Operation) → All IsDistinct os → WellFormed (perform_all os empty_database)
perform_all-WellFormed os n = perform_all-from os empty_database n (λ u. refl)
