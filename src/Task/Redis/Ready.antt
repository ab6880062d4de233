-- ===== src/Task/Redis/Ready.antt =====
-- `EnsureDatabasesAreReady` of handlers/task/redis_handler.go.
use kube_stager.Base.{
  ◌≡◌, Bool, true, Option, none, some, List, [], ◌∷◌, arith, ◌&&◌, if◌then◌else◌,
}
use kube_stager.Api.{RedisDatabase}
use kube_stager.Controller.{Result, ok, err}
use kube_stager.Task.Redis.{
  all_ready, failed_database, is_failed, is_complete, ensure_databases_are_ready,
}
use kube_stager.Task.Database.{RedisApi}

-- The first of the databases whose state is failed.
pub first_failed : List RedisDatabase → Option RedisDatabase
first_failed [] = none
first_failed (d ∷ list) = let rest = first_failed list in if is_failed d.state then some d else rest

pub all_complete : List RedisDatabase → Bool
all_complete [] = true
all_complete (d ∷ list) = is_complete d.state && all_complete list

-- The answer for a list: its first failure, or else whether all are complete.
abbrev pub judged : Option RedisDatabase → Bool → Result Bool
judged (some d) b = err (failed_database d)
judged none b = ok b

all_ready-judged :
    (list : List RedisDatabase) (ready : Bool)
    → all_ready list ready ≡ judged (first_failed list) (ready && all_complete list)
unfolding all_ready first_failed all_complete
all_ready-judged [] ready = ground arith
all_ready-judged (d ∷ list) ready =
    ground (arith, all_ready-judged list (ready && is_complete d.state))

-- The databases that the API server lists are ready if every one of them is complete; they fail with
-- the first failed database, wherever it stands in the list.
pub ready_iff_complete :
    (api : RedisApi) (list : List RedisDatabase)
    → api.list_for_site ≡ ok list
    → ensure_databases_are_ready api ≡ judged (first_failed list) (all_complete list)
unfolding ensure_databases_are_ready
ready_iff_complete api list h = ground (arith, all_ready-judged list true)
