-- ===== src/Database/Mysql.antt =====
-- handlers/database/mysql_handler.go. The server is a parameter: how it runs a statement, and what it
-- answers to the queries.
pub mod Permissions
use kube_stager.Base.{
  Bool, true, false, not, Option, none, some, List, [], ◌∷◌, Text, text_eq, is_empty, if◌then◌else◌,
}
use kube_stager.Api.{MysqlDatabase, MysqlConfig, TaskState}
use kube_stager.Controller.{Result, ok, err, Error}
use kube_stager.Database.{Action, then_do_from, ◌then_do◌, is_complete_state}

-- The statements, with the names that are formatted into them.
pub data Statement : Type 0 where
  create_database drop_database : Text → Statement
  grant_all revoke_all : Text → Text → Statement
  create_user alter_user : Text → Text → Statement
  drop_user : Text → Statement
  flush_privileges : Statement

pub record MysqlServer (S : Type 0) : Type 0 where
  -- The error of sql.Open.
  pub open_error : Option Error
  pub exec : Statement → Action S
  -- The name in the row of the user, if there is one.
  pub select_user : Text → S → Result (Option Text)
  pub select_databases : Text → S → Result (List Text)
  pub can_login : Text → Text → S → Bool

pub record MysqlTask : Type 0 where
  pub username : Text
  pub password : Text
  pub database : Text

abbrev pub task_of : MysqlDatabase → MysqlTask
task_of database = record {
  username = database.spec.username;
  password = database.spec.password;
  database = database.spec.database_name;
}

abbrev name_or_empty : Option Text → Text
name_or_empty none = []
name_or_empty (some name) = name

module _ {S : Type 0} (server : MysqlServer S) (task : MysqlTask) where
  unfoldable pub create_task_user : Action S
  create_task_user =
      server.exec (create_user task.username task.password) then_do server.exec flush_privileges

  unfoldable pub change_password : Action S
  change_password =
      server.exec (alter_user task.username task.password) then_do server.exec flush_privileges

  user_checked : Option Text → Action S
  unfolding create_task_user change_password
  user_checked row s = elim (text_eq (name_or_empty row) task.username) [
    | false ↦ create_task_user s
    | true ↦ elim (server.can_login task.username task.password s) [
      | true ↦ (s, none)
      | false ↦ change_password s
    ]
  ]

  unfoldable pub reconcile_user : Action S
  unfolding user_checked
  reconcile_user s = elim (server.select_user task.username s) [
    | err e ↦ (s, some e)
    | ok row ↦ user_checked row s
  ]

  unfoldable pub remove_user : Action S
  remove_user s = elim (is_empty task.username) [
    | true ↦ (s, none)
    | false ↦ elim (server.select_user task.username s) [
      | err e ↦ (s, some e)
      | ok row ↦ elim (text_eq (name_or_empty row) task.username) [
        | true ↦ server.exec (drop_user task.username) s
        | false ↦ (s, none)
      ]
    ]
  ]

  unfoldable pub reconcile_database : Action S
  reconcile_database = server.exec (create_database task.database)

  unfoldable pub get_databases_where_user_has_permissions : S → Result (List Text)
  get_databases_where_user_has_permissions s = elim (is_empty task.username) [
    | true ↦ ok []
    | false ↦ server.select_databases task.username s
  ]

  unfoldable pub revoke_permission_on_database : Text → Action S
  revoke_permission_on_database name s = elim (is_empty name) [
    | true ↦ (s, none)
    | false ↦ server.exec (revoke_all name task.username) s
  ]

  -- The loop over the names, and whether the task's database is among them.
  unfoldable pub revoke_others : List Text → Bool → S → S × Result Bool
  unfolding revoke_permission_on_database
  revoke_others [] has s = (s, ok has)
  revoke_others (name ∷ names) has s = elim (text_eq name task.database) [
    | true ↦ revoke_others names true s
    | false ↦
        let revoked = revoke_permission_on_database name s in
        elim (revoked.1) [ some e ↦ (revoked.0, err e) | none ↦ revoke_others names has revoked.0 ]
  ]

  unfoldable pub revoke_not_requested_permissions : S → S × Result Bool
  unfolding get_databases_where_user_has_permissions revoke_others
  revoke_not_requested_permissions s = elim (get_databases_where_user_has_permissions s) [
    | err e ↦ (s, err e)
    | ok names ↦ revoke_others names false s
  ]

  abbrev grant_unless : S × Result Bool → S × Option Error
  grant_unless (s, err e) = (s, some e)
  grant_unless (s, ok true) = (s, none)
  grant_unless (s, ok false) = server.exec (grant_all task.database task.username) s

  unfoldable pub reconcile_permissions : Action S
  unfolding revoke_not_requested_permissions
  reconcile_permissions s = grant_unless (revoke_not_requested_permissions s)

  unfoldable pub revoke_each : List Text → Action S
  unfolding revoke_permission_on_database
  revoke_each [] s = (s, none)
  revoke_each (name ∷ names) s =
      then_do_from (revoke_permission_on_database name s) (revoke_each names)

  unfoldable pub revoke_permissions : Action S
  unfolding get_databases_where_user_has_permissions revoke_each
  revoke_permissions s = elim (get_databases_where_user_has_permissions s) [
    | err e ↦ (s, some e)
    | ok names ↦ revoke_each names s
  ]

  unfoldable pub remove_database : Action S
  remove_database = server.exec (drop_database task.database)

  unfoldable pub reconcile_task : Action S
  unfolding reconcile_user reconcile_database reconcile_permissions
  reconcile_task = (reconcile_user then_do reconcile_database) then_do reconcile_permissions

  unfoldable pub delete_task : Action S
  unfolding remove_user revoke_permissions remove_database
  delete_task = (remove_user then_do revoke_permissions) then_do remove_database

module _ {S : Type 0} (server : MysqlServer S) where
  -- The state of the server, the database with its state, and whether that has changed.
  abbrev completed : MysqlDatabase → S × Option Error → S × (MysqlDatabase × Result Bool)
  completed database (s, some e) = (s, (database, err e))
  completed database (s, none) = (
    s,
    (record database { state = TaskState.complete }, ok (not (is_complete_state database.state))),
  )

  unfoldable pub reconcile_mysql_database : MysqlDatabase → S → S × (MysqlDatabase × Result Bool)
  unfolding reconcile_task
  reconcile_mysql_database database s = elim (server.open_error) [
    | some e ↦ (s, (database, err e))
    | none ↦ completed database (reconcile_task server (task_of database) s)
  ]

  unfoldable pub delete_mysql_database : MysqlDatabase → Action S
  unfolding delete_task
  delete_mysql_database database s = elim (server.open_error) [
    | some e ↦ (s, some e)
    | none ↦ delete_task server (task_of database) s
  ]
