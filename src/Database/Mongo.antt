-- ===== src/Database/Mongo.antt =====
-- handlers/database/mongo_handler.go. The server is a parameter, as for mysql.
use kube_stager.Base.{Bool, true, false, not, Option, none, some, List, [], ◌∷◌, Text, is_empty}
use kube_stager.Api.{MongoDatabase, TaskState}
use kube_stager.Controller.{Result, ok, err, Error}
use kube_stager.Database.{Action, ◌then_do◌, is_complete_state}

-- The commands that change the server. A user is created or updated with a password and the role
-- readWrite on one database.
pub data Command : Type 0 where
  update_user create_user : Text → Text → Text → Command
  drop_user : Text → Command
  drop_database : Text → Command

pub record MongoServer (S : Type 0) : Type 0 where
  -- The error of the connection or of its ping.
  pub connect_error : Option Error
  pub run : Command → Action S
  -- The users that the answer to usersInfo decodes to.
  pub users_info : Text → S → Result (List Text)
  pub list_databases : Text → S → Result (List Text)

pub record MongoTask : Type 0 where
  pub username : Text
  pub password : Text
  pub database : Text

abbrev pub task_of : MongoDatabase → MongoTask
task_of database = record {
  username = database.spec.username;
  password = database.spec.password;
  database = database.spec.database_name;
}

module _ {S : Type 0} (server : MongoServer S) (task : MongoTask) where
  unfoldable pub reconcile_user : Action S
  reconcile_user s = elim (server.users_info task.username s) [
    | err e ↦ (s, some e)
    | ok [] ↦ server.run (create_user task.username task.password task.database) s
    | ok (_ ∷ _) ↦ server.run (update_user task.username task.password task.database) s
  ]

  unfoldable pub remove_database : Action S
  remove_database s = elim (server.list_databases task.database s) [
    | err e ↦ (s, some e)
    | ok [] ↦ (s, none)
    | ok (_ ∷ _) ↦ server.run (drop_database task.database) s
  ]

  drop_listed_user : Action S
  drop_listed_user s = elim (server.users_info task.username s) [
    | err e ↦ (s, some e)
    | ok [] ↦ (s, none)
    | ok (_ ∷ _) ↦ server.run (drop_user task.username) s
  ]

  unfoldable pub remove_user : Action S
  unfolding drop_listed_user
  remove_user s = elim (is_empty task.username) [ true ↦ (s, none) | false ↦ drop_listed_user s ]

  unfoldable pub delete_task : Action S
  unfolding remove_database remove_user
  delete_task = remove_database then_do remove_user

module _ {S : Type 0} (server : MongoServer S) where
  abbrev completed : MongoDatabase → S × Option Error → S × (MongoDatabase × Result Bool)
  completed database (s, some e) = (s, (database, err e))
  completed database (s, none) = (
    s,
    (record database { state = TaskState.complete }, ok (not (is_complete_state database.state))),
  )

  unfoldable pub reconcile_mongo_database : MongoDatabase → S → S × (MongoDatabase × Result Bool)
  unfolding reconcile_user
  reconcile_mongo_database database s = elim (server.connect_error) [
    | some e ↦ (s, (database, err e))
    | none ↦ completed database (reconcile_user server (task_of database) s)
  ]

  unfoldable pub delete_mongo_database : MongoDatabase → Action S
  unfolding delete_task
  delete_mongo_database database s = elim (server.connect_error) [
    | some e ↦ (s, some e)
    | none ↦ delete_task server (task_of database) s
  ]
