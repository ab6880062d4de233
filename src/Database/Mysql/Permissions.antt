-- ===== src/Database/Mysql/Permissions.antt =====
-- The rows of the table mysql.db that handlers/database/mysql_handler.go leaves to the user of a
-- database. A row says that a user has some privilege on the databases that its name stands for.
pub mod Reconciled
use kube_stager.Base.{
  Bool, true, false, not, ◌&&◌, ◌||◌, none, List, [], ◌∷◌, Text, text_eq, text_eq_iff, is_empty,
  if◌then◌else◌, arith, ◌≡◌, refl, ◌∙◌, inl, inr, Bool-cases, Option-cases,
}
use kube_stager.Names.{slice_contains_string}
use kube_stager.Api.{MysqlDatabase, TaskState}
use kube_stager.Controller.{ok, Result-cases}
use kube_stager.Database.{◌then_do◌}
use kube_stager.Database.Mysql.{
  Statement, drop_user, drop_database, create_database, create_user, alter_user, flush_privileges,
  create_task_user, change_password, name_or_empty, MysqlServer, MysqlTask, grant_all, revoke_all,
  task_of, revoke_permission_on_database, revoke_others, revoke_not_requested_permissions,
  reconcile_permissions, reconcile_task, reconcile_mysql_database,
  get_databases_where_user_has_permissions, reconcile_user, reconcile_database,
}

-- The statements that change no privilege, whether they fail or not.
abbrev pub is_neutral : Statement → Bool
is_neutral (create_database _) = true
is_neutral (create_user _ _) = true
is_neutral (alter_user _ _) = true
is_neutral flush_privileges = true
is_neutral _ = false

-- The statements that drop no user and no database.
abbrev pub keeps_options : Statement → Bool
keeps_options (drop_user _) = false
keeps_options (drop_database _) = false
keeps_options _ = true

-- The table mysql.db of a server, of the rows for any host: GRANT ALL adds the row of its user and
-- database, and REVOKE ALL takes it away, but for a row that also has the grant option, which REVOKE ALL
-- leaves and no statement of the operator gives. The names are compared as they are written: the table
-- does not tell what a pattern in a name stands for, nor which privileges a row has.
pub record DbTable {S : Type 0} (server : MysqlServer S) : Type 0 where
  pub has_row : Text → Text → S → Bool
  pub has_option : Text → Text → S → Bool
  pub selected :
      (user : Text) (s : S) (names : List Text) (database : Text)
      → server.select_databases user s ≡ ok names
      → has_row user database s ≡ slice_contains_string names database
  pub kept :
      (statement : Statement) (s : S) (u d : Text)
      → is_neutral statement ≡ true
      → has_row u d (server.exec statement s).0 ≡ has_row u d s
  pub options_kept :
      (statement : Statement) (s : S) (u d : Text)
      → keeps_options statement ≡ true
      → has_option u d (server.exec statement s).0 ≡ has_option u d s
  pub granted :
      (database user : Text) (s : S) (u d : Text)
      → (server.exec (grant_all database user) s).1 ≡ none
      → has_row u d (server.exec (grant_all database user) s).0
        ≡ ((text_eq u user && text_eq d database) || has_row u d s)
  pub revoked :
      (database user : Text) (s : S) (u d : Text)
      → (server.exec (revoke_all database user) s).1 ≡ none
      → has_option user database s ≡ false
      → has_row u d (server.exec (revoke_all database user) s).0
        ≡ (not (text_eq u user && text_eq d database) && has_row u d s)

module _ {S : Type 0} (server : MysqlServer S) (table : DbTable server) (task : MysqlTask) where
  -- What the loop takes from a user: the named databases but that of the task.
  abbrev is_taken : List Text → Text → Text → Bool
  is_taken names u d =
      text_eq u task.username
      && (slice_contains_string names d && (not (text_eq d task.database) && not (is_empty d)))

  abbrev pub HasNoOptions : S → Type 0
  HasNoOptions s = (d : Text) → table.has_option task.username d s ≡ false

  pub options-kept :
      (statement : Statement) (s : S)
      → keeps_options statement ≡ true
      → HasNoOptions s
      → HasNoOptions (server.exec statement s).0
  options-kept statement s h free d = table.options_kept statement s task.username d h ∙ free d

  revoke_others_lem :
      (names : List Text) (has_it : Bool) (s : S) (found : Bool) (u d : Text)
      → HasNoOptions s
      → (revoke_others server task names has_it s).1 ≡ ok found
      → (table.has_row u d (revoke_others server task names has_it s).0
          ≡ (not (is_taken names u d) && table.has_row u d s))
        × (found ≡ (has_it || slice_contains_string names task.database))
  unfolding revoke_others revoke_permission_on_database slice_contains_string
  revoke_others_lem [] has_it s found u d free h = (ground arith, ground arith)
  revoke_others_lem (name ∷ names) has_it s found u d free h =
      elim (Bool-cases (text_eq name task.database)) [
        | inl e ↦
            let (rest, same) = revoke_others_lem names true s found u d free (ground arith) in
            (
              ground (
                arith,
                rest,
                text_eq_iff name task.database,
                text_eq_iff name d,
                text_eq_iff d task.database,
              ),
              ground (arith, same),
            )
        | inr e ↦ elim (Bool-cases (is_empty name)) [
          | inl e' ↦
              let (rest, same) = revoke_others_lem names has_it s found u d free (ground arith) in
              (ground (arith, rest, text_eq_iff name d), ground (arith, same))
          | inr e' ↦
              let after = server.exec (revoke_all name task.username) s in
              elim (Option-cases after.1) [
                | inr (x, e'') ↦ ground arith
                | inl e'' ↦
                    let (rest, same) =
                      revoke_others_lem names has_it after.0 found u d
                        (options-kept (revoke_all name task.username) s refl free) (ground arith) in
                    (
                      ground (
                        arith,
                        rest,
                        table.revoked name task.username s u d e'' (free name),
                        text_eq_iff name d,
                        text_eq_iff d name,
                        text_eq_iff d task.database,
                      ),
                      ground (arith, same),
                    )
              ]
        ]
      ]

  -- The user of the task has a row for the task's database and for no other, and the rows of other users
  -- are as before.
  abbrev pub HasOneRow : S → S → Text → Text → Type 0
  HasOneRow before after u d =
      table.has_row u d after
      ≡ (if text_eq u task.username then text_eq d task.database else table.has_row u d before)

  pub reconcile_permissions-HasOneRow :
      (s : S) (u d : Text)
      → is_empty task.username ≡ false
      → is_empty d ≡ false
      → HasNoOptions s
      → (reconcile_permissions server task s).1 ≡ none
      → HasOneRow s (reconcile_permissions server task s).0 u d
  unfolding reconcile_permissions revoke_not_requested_permissions
      get_databases_where_user_has_permissions
  reconcile_permissions-HasOneRow s u d user_given d_given free h =
      elim (Result-cases (server.select_databases task.username s)) [
        | inr (x, e) ↦ ground arith
        | inl (names, e) ↦
            let looped = revoke_others server task names false s in
            elim (Result-cases looped.1) [
              | inr (x, e') ↦ ground arith
              | inl (true, e') ↦
                  let (rest, same) = revoke_others_lem names false s true u d free e' in
                  ground (
                    arith,
                    rest,
                    same,
                    table.selected task.username s names d e,
                    text_eq_iff u task.username,
                    text_eq_iff d task.database,
                  )
              | inl (false, e') ↦
                  let (rest, same) = revoke_others_lem names false s false u d free e' in
                  ground (
                    arith,
                    rest,
                    same,
                    table.selected task.username s names d e,
                    table.granted task.database task.username looped.0 u d,
                    text_eq_iff u task.username,
                    text_eq_iff d task.database,
                  )
            ]
      ]
