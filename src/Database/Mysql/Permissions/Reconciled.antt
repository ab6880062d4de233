-- ===== src/Database/Mysql/Permissions/Reconciled.antt =====
-- What the reconciliation of a mysql database in handlers/database/mysql_handler.go leaves in mysql.db.
use kube_stager.Base.{Bool, true, ◌≡◌}
use kube_stager.Database.Mysql.{Statement, MysqlServer, MysqlTask}
use kube_stager.Database.Mysql.Permissions.{is_neutral, DbTable}

module _ {S : Type 0} (server : MysqlServer S) (table : DbTable server) (task : MysqlTask) where
  -- What neutral statements keep is kept by the reconciliation of the user.
  abbrev IsKept : (S → Bool) → Type 0
  IsKept f =
      (statement : Statement) (s : S)
      → is_neutral statement ≡ true
      → f (server.exec statement s).0 ≡ f s
