-- ===== src/Curd/Upload.antt =====
-- What the upload of a package writes to the tables: the declaration of PersistPackage of
-- internal/core/plugin_manager/packages.go, before any installation. The buckets of packages and
-- assets are not modelled. A Create that fails leaves no row, so that its second search finds none.
use dify_plugin_daemon.Common.{Option, none, some}
use dify_plugin_daemon.Curd.Database.{Text, PluginDeclaration, Database, put}
use dify_plugin_daemon.Curd.Access.{
  Faults, done, failed, Tx, and_then, ◌>>=◌, pure, access, query, modify,
}

unfoldable pub create_undeclared : Text → PluginDeclaration → Option PluginDeclaration → Tx Unit
unfolding access put
create_undeclared identifier declaration (some old) = pure tt
create_undeclared identifier declaration none =
    modify (λ db. record db { declarations = put identifier (some declaration) db.declarations })

unfoldable pub prepare_declaration : Text → PluginDeclaration → Tx Unit
unfolding access and_then create_undeclared
prepare_declaration identifier declaration = do
  old ← query (λ db. db.declarations identifier)
  create_undeclared identifier declaration old

-- The tables after an upload, which runs in no transaction.
unfoldable pub upload_package : Text → PluginDeclaration → Database → Faults → Database
unfolding prepare_declaration
upload_package identifier declaration db faults =
    elim (prepare_declaration identifier declaration db faults) [
      | done a db' faults' ↦ db'
      | failed e faults' ↦ db
    ]
