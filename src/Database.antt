-- ===== src/Database.antt =====
-- The databases on the servers: handlers/database, and their controllers in controllers/task. The
-- servers and their drivers are third-party code: each handler takes a server as a parameter.
pub mod Mysql
pub mod Mongo
pub mod Redis
pub mod Controllers
use kube_stager.Base.{Bool, Option, none, some, true, false}
use kube_stager.Controller.{Error}
use kube_stager.Api.{TaskState}

-- A call that changes the state of a server, and may fail.
abbrev pub Action : Type 0 → Type 0
Action S = S → S × Option Error

-- The second action where the first has no error.
infixl 5 ◌then_do◌
abbrev pub then_do_from : {S : Type 0} → S × Option Error → Action S → S × Option Error
then_do_from (s, some e) next = (s, some e)
then_do_from (s, none) next = next s

abbrev pub ◌then_do◌ : {S : Type 0} → Action S → Action S → Action S
(first then_do next) s = then_do_from (first s) next

abbrev pub is_complete_state : TaskState → Bool
is_complete_state TaskState.complete = true
is_complete_state _ = false
