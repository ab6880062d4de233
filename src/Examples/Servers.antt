-- ===== src/Examples/Servers.antt =====
-- A mysql server with its table mysql.db only, and a reconciliation of its databases.
use kube_stager.Base.{
  Bool, true, false, not, ◌&&◌, ◌||◌, none, some, List, [], ◌∷◌, Text, bytes, text_eq, text_eq_iff,
  is_some, pos, if◌then◌else◌, arith, ◌≡◌, refl,
}
use kube_stager.Names.{slice_contains_string, remove_string_from_slice}
use kube_stager.Api.{MysqlDatabase, MysqlConfig, TaskState}
use kube_stager.Controller.{ok}
use kube_stager.Database.Mysql.{
  Statement, create_database, drop_database, grant_all, revoke_all, create_user, alter_user,
  drop_user, flush_privileges, MysqlServer, delete_mysql_database,
}
use kube_stager.Database.Mysql.Permissions.{DbTable, is_neutral}
use kube_stager.Database.Controllers.{
  DatabaseApi, mysql_object, mysql_reconciler, do_reconcile, mysql_finalizer_name,
}
use kube_stager.Database.Controllers.Finalized.{finalizer_removed_after_delete}
use kube_stager.Examples.{meta_of}

-- The pairs of a user and a database in the rows of mysql.db.
abbrev Grants : Type 0
Grants = List (Text × Text)

databases_of : Text → Grants → List Text
databases_of user [] = []
databases_of user ((u, d) ∷ grants) =
    let rest = databases_of user grants in if text_eq u user then d ∷ rest else rest

revoked_from : Text → Text → Grants → Grants
revoked_from database user [] = []
revoked_from database user ((u, d) ∷ grants) =
    let rest = revoked_from database user grants in
    if text_eq u user && text_eq d database then rest else (u, d) ∷ rest

run_statement : Statement → Grants → Grants
unfolding revoked_from
run_statement (grant_all database user) grants = (user, database) ∷ grants
run_statement (revoke_all database user) grants = revoked_from database user grants
run_statement _ grants = grants

has_grant : Text → Text → Grants → Bool
unfolding databases_of slice_contains_string
has_grant user database grants = slice_contains_string (databases_of user grants) database

has_grant-revoked :
    (database user u d : Text) (grants : Grants)
    → has_grant u d (revoked_from database user grants)
      ≡ (not (text_eq u user && text_eq d database) && has_grant u d grants)
unfolding has_grant revoked_from databases_of slice_contains_string
has_grant-revoked database user u d [] = ground arith
has_grant-revoked database user u d ((v, e) ∷ grants) = ground (
  arith,
  has_grant-revoked database user u d grants,
  text_eq_iff v user,
  text_eq_iff v u,
  text_eq_iff u user,
  text_eq_iff e database,
  text_eq_iff e d,
  text_eq_iff d database,
)

abbrev server : MysqlServer Grants
server = record {
  open_error = none;
  exec = λ statement grants. (run_statement statement grants, none);
  select_user = λ user _. ok (some user);
  select_databases = λ user grants. ok (databases_of user grants);
  can_login = λ _ _ _. false;
}

server-kept :
    (statement : Statement) (s : Grants) (u d : Text)
    → is_neutral statement ≡ true
    → has_grant u d (run_statement statement s) ≡ has_grant u d s
unfolding run_statement
server-kept (create_database _) s u d h = refl
server-kept (create_user _ _) s u d h = refl
server-kept (alter_user _ _) s u d h = refl
server-kept flush_privileges s u d h = refl
server-kept (drop_user _) s u d h = refl
server-kept (drop_database _) s u d h = refl
server-kept (grant_all _ _) s u d h = ground arith
server-kept (revoke_all _ _) s u d h = ground arith

server-granted :
    (database user : Text) (s : Grants) (u d : Text)
    → has_grant u d (run_statement (grant_all database user) s)
      ≡ ((text_eq u user && text_eq d database) || has_grant u d s)
unfolding run_statement has_grant databases_of slice_contains_string
server-granted database user s u d =
    ground (
      arith,
      text_eq_iff user u,
      text_eq_iff u user,
      text_eq_iff database d,
      text_eq_iff d database,
    )

server-revoked :
    (database user : Text) (s : Grants) (u d : Text)
    → has_grant u d (run_statement (revoke_all database user) s)
      ≡ (not (text_eq u user && text_eq d database) && has_grant u d s)
unfolding run_statement
server-revoked database user s u d = has_grant-revoked database user u d s

server-selected :
    (user : Text) (s : Grants) (names : List Text) (database : Text)
    → ok (databases_of user s) ≡ ok names
    → has_grant user database s ≡ slice_contains_string names database
unfolding has_grant
server-selected user s names database h = ground arith

abbrev table : DbTable server
table = record {
  has_row = has_grant;
  has_option = λ _ _ _. false;
  options_kept = λ _ _ _ _ _. refl;
  selected = server-selected;
  kept = server-kept;
  granted = λ database user s u d h. server-granted database user s u d;
  revoked = λ database user s u d h free. server-revoked database user s u d;
}

abbrev shop_database : MysqlDatabase
shop_database = record {
  meta = record (meta_of (bytes "demo-shop")) {
    finalizers = mysql_finalizer_name ∷ [];
    deletion_timestamp = some (pos 3);
  };
  spec = record {
    environment_config = record {
      service_name = bytes "shop";
      site_name = bytes "demo";
      environment = bytes "mysql-0";
    };
    database_name = bytes "demo_shop";
    username = bytes "demo_user";
    password = bytes "secret";
  };
  state = TaskState.pending;
}

-- The user keeps its own database and loses another.
abbrev before : Grants
before = (bytes "demo_user", bytes "other") ∷ (bytes "root", bytes "other") ∷ []

abbrev mysql_config : MysqlConfig
mysql_config = record {
  meta = meta_of (bytes "mysql-0");
  host = bytes "mysql";
  username = bytes "root";
  password = bytes "root";
  port = 3306;
}

abbrev database_api : DatabaseApi MysqlDatabase MysqlConfig
database_api = record {
  get = ok shop_database;
  get_config = λ _. ok mysql_config;
  update = λ _. none;
  update_status = λ _. none;
}

-- The database is being deleted.
finalized_example :
    (is_some shop_database.deletion_timestamp ≡ true)
    × ((delete_mysql_database server shop_database before).1 ≡ none)
    × ((do_reconcile database_api mysql_object (mysql_reconciler (λ _. server)) before).0
        ≡ (delete_mysql_database server shop_database before).0)
unfolding do_reconcile mysql_reconciler remove_string_from_slice run_statement databases_of
    revoked_from slice_contains_string
finalized_example =
    finalizer_removed_after_delete database_api mysql_object (mysql_reconciler (λ _. server))
      shop_database (mysql_object.set_finalizers [] shop_database) mysql_config before
      (λ finalizers. refl) refl refl refl refl
