-- ===== src/Database/Redis.antt =====
-- handlers/database/redis_handler.go. Flushing the database of a number is a call of the driver.
use kube_stager.Base.{ℕ, Bool, true, false, Option, none, some}
use kube_stager.Api.{RedisDatabase, TaskState}
use kube_stager.Controller.{Result, ok, err, Error}
use kube_stager.Database.{Action, is_complete_state}

module _ {S : Type 0} (flush_db : ℕ → Action S) where
  abbrev flushed : RedisDatabase → S × Option Error → S × (RedisDatabase × Result Bool)
  flushed database (s, some e) = (s, (database, err e))
  flushed database (s, none) = (s, (record database { state = TaskState.complete }, ok true))

  unfoldable pub reconcile_redis : RedisDatabase → S → S × (RedisDatabase × Result Bool)
  reconcile_redis database s = elim (is_complete_state database.state) [
    | true ↦ (s, (database, ok false))
    | false ↦ flushed database (flush_db database.spec.database_number s)
  ]
