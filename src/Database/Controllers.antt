-- ===== src/Database/Controllers.antt =====
-- controllers/task: mysqldatabase_controller.go and mongodatabase_controller.go, which have the same
-- body, and redisdatabase_controller.go, whose databases are not cleaned up.
pub mod Finalized
use kube_stager.Base.{
  ℕ, Bool, true, false, not, Option, none, some, List, [], ◌∷◌, ◌++◌, Text, bytes, length, ◌==◌,
  is_some, if◌then◌else◌,
}
use kube_stager.Names.{slice_contains_string, remove_string_from_slice}
use kube_stager.Api.{
  ObjectMeta, MysqlDatabase, MysqlConfig, MongoDatabase, MongoConfig, RedisDatabase, RedisConfig,
}
use kube_stager.Controller.{
  Result, ok, err, Error, not_found, Outcome, CtrlResult, done, requeue_now, return,
  save_status_updates_if_object_changed,
}
use kube_stager.Database.{Action}
use kube_stager.Database.Mysql.{MysqlServer, reconcile_mysql_database, delete_mysql_database}
use kube_stager.Database.Mongo.{MongoServer, reconcile_mongo_database, delete_mongo_database}
use kube_stager.Database.Redis.{reconcile_redis}

-- An accepted write: of the object, or of its status.
pub data Written (D : Type 0) : Type 0 where
  object status : D → Written D

-- The answers of the API server.
pub record DatabaseApi (D : Type 0) (C : Type 0) : Type 0 where
  pub get : Result D
  pub get_config : Text → Result C
  pub update : D → Option Error
  pub update_status : D → Option Error

-- How a database object holds its environment and its metadata.
pub record DatabaseObject (D : Type 0) : Type 0 where
  pub environment : D → Text
  pub meta : D → ObjectMeta
  pub set_finalizers : List Text → D → D
  pub finalizer : Text

-- What a handler does on the server of a config.
pub record DatabaseReconciler (S : Type 0) (D : Type 0) (C : Type 0) : Type 0 where
  pub reconcile : C → D → S → S × (D × Result Bool)
  pub delete : C → D → Action S

abbrev pub mysql_finalizer_name : Text
mysql_finalizer_name = bytes "mysql.task.finalizers.operator.kube-stager.io"

abbrev pub mongo_finalizer_name : Text
mongo_finalizer_name = bytes "mongo.task.finalizers.operator.kube-stager.io"

module _ {D C : Type 0} (api : DatabaseApi D C) where
  abbrev ignore_not_found : Error → Option Error
  ignore_not_found not_found = none
  ignore_not_found e = some e

  write_object : CtrlResult → D → Outcome (Written D)
  write_object result db = elim (api.update db) [
    | some e ↦ return done (some e)
    | none ↦ record { result = result; error = none; written = some (object db) }
  ]

  abbrev status_update : Written D → Option Error
  status_update (object db) = api.update db
  status_update (status db) = api.update_status db

  -- The status is saved where the handler has changed it.
  abbrev saved : D × Result Bool → Outcome (Written D)
  saved (db, ok changed) =
      save_status_updates_if_object_changed changed status_update (status db) done none
  saved (db, err e) =
      save_status_updates_if_object_changed false status_update (status db) done (some e)

  module _ {S : Type 0} (kind : DatabaseObject D) (reconciler : DatabaseReconciler S D C) where
    remove_finalizer : D → Outcome (Written D)
    unfolding remove_string_from_slice write_object
    remove_finalizer db =
        let finalizers = remove_string_from_slice (kind.meta db).finalizers kind.finalizer in
        elim (length finalizers == length (kind.meta db).finalizers) [
          | true ↦ return done none
          | false ↦ write_object done (kind.set_finalizers finalizers db)
        ]

    unfoldable pub handle_deletion : C → D → S → S × Outcome (Written D)
    unfolding remove_finalizer
    handle_deletion config db s =
        let deleted = reconciler.delete config db s in
        elim (deleted.1) [
          | some e ↦ (deleted.0, return done (some e))
          | none ↦ (deleted.0, remove_finalizer db)
        ]

    unfoldable pub reconcile_live : C → D → S → S × Outcome (Written D)
    unfolding slice_contains_string write_object save_status_updates_if_object_changed
    reconcile_live config db s =
        elim (slice_contains_string (kind.meta db).finalizers kind.finalizer) [
          | false ↦ (
            s,
            write_object requeue_now
                (kind.set_finalizers ((kind.meta db).finalizers ++ (kind.finalizer ∷ [])) db),
          )
          | true ↦ let handled = reconciler.reconcile config db s in (handled.0, saved handled.1)
        ]

    unfoldable pub reconcile_found : C → D → S → S × Outcome (Written D)
    unfolding handle_deletion reconcile_live
    reconcile_found config db s = elim (is_some (kind.meta db).deletion_timestamp) [
      | true ↦ handle_deletion config db s
      | false ↦ reconcile_live config db s
    ]

    unfoldable pub do_reconcile : S → S × Outcome (Written D)
    unfolding reconcile_found
    do_reconcile s = elim (api.get) [
      | err e ↦ (s, return done (ignore_not_found e))
      | ok db ↦ elim (api.get_config (kind.environment db)) [
        | err e ↦ (s, return done (some e))
        | ok config ↦ reconcile_found config db s
      ]
    ]

abbrev pub mysql_object : DatabaseObject MysqlDatabase
mysql_object = record {
  environment = λ db. db.spec.environment_config.environment;
  meta = λ db. db.meta;
  set_finalizers = λ finalizers db. record db { meta = record db.meta { finalizers = finalizers } };
  finalizer = mysql_finalizer_name;
}

abbrev pub mongo_object : DatabaseObject MongoDatabase
mongo_object = record {
  environment = λ db. db.spec.environment_config.environment;
  meta = λ db. db.meta;
  set_finalizers = λ finalizers db. record db { meta = record db.meta { finalizers = finalizers } };
  finalizer = mongo_finalizer_name;
}

-- DefaultMysqlReconciler and DefaultMongoReconciler, with the server that a config names.
unfoldable pub mysql_reconciler :
    {S : Type 0} → (MysqlConfig → MysqlServer S) → DatabaseReconciler S MysqlDatabase MysqlConfig
unfolding reconcile_mysql_database delete_mysql_database
mysql_reconciler server = record {
  reconcile = λ config. reconcile_mysql_database (server config);
  delete = λ config. delete_mysql_database (server config);
}

unfoldable pub mongo_reconciler :
    {S : Type 0} → (MongoConfig → MongoServer S) → DatabaseReconciler S MongoDatabase MongoConfig
unfolding reconcile_mongo_database delete_mongo_database
mongo_reconciler server = record {
  reconcile = λ config. reconcile_mongo_database (server config);
  delete = λ config. delete_mongo_database (server config);
}

unfoldable pub reconcile_mysql_object :
    {S : Type 0}
    → DatabaseApi MysqlDatabase MysqlConfig
    → (MysqlConfig → MysqlServer S)
    → S
    → S × Outcome (Written MysqlDatabase)
unfolding do_reconcile mysql_reconciler
reconcile_mysql_object api server = do_reconcile api mysql_object (mysql_reconciler server)

unfoldable pub reconcile_mongo_object :
    {S : Type 0}
    → DatabaseApi MongoDatabase MongoConfig
    → (MongoConfig → MongoServer S)
    → S
    → S × Outcome (Written MongoDatabase)
unfolding do_reconcile mongo_reconciler
reconcile_mongo_object api server = do_reconcile api mongo_object (mongo_reconciler server)

unfoldable pub reconcile_redis_object :
    {S : Type 0}
    → DatabaseApi RedisDatabase RedisConfig
    → (RedisConfig → ℕ → Action S)
    → S
    → S × Outcome (Written RedisDatabase)
unfolding reconcile_redis save_status_updates_if_object_changed
reconcile_redis_object api flush_db s = elim (api.get) [
  | err e ↦ (s, return done (ignore_not_found api e))
  | ok db ↦ elim (api.get_config db.spec.environment_config.environment) [
    | err e ↦ (s, return done (some e))
    | ok config ↦
        let handled = reconcile_redis (flush_db config) db s in (handled.0, saved api handled.1)
  ]
]
