-- ===== src/Task/Allocation.antt =====
-- `getFirstFreeDatabaseInEnvironment` of handlers/task/redis_handler.go.
pub mod Free
use kube_stager.Base.{
  ℕ, zero, suc, ◌+◌, Bool, true, false, Option, none, some, List, [], ◌∷◌, Text, bytes, is_empty,
  ltb, ◌==◌, if◌then◌else◌,
}
use kube_stager.Api.{RedisConfig, RedisDatabase, EnvironmentConfig}
use kube_stager.Controller.{
  Result, ok, err, Error, controller_error, database_creation_error, redis,
}

-- A map[uint32]bool, where a missing key reads as false.
abbrev pub set_key : (ℕ → Bool) → ℕ → Bool → ℕ → Bool
set_key m i b j = if i == j then b else m j

-- The first loop: every number below the count is available.
make_available : ℕ → ℕ → Bool
make_available zero = λ _. false
make_available (suc n) = set_key (make_available n) n true

-- The second: the numbers of the databases that the environment holds are not.
reserve : (ℕ → Bool) → List RedisDatabase → ℕ → Bool
reserve m [] = m
reserve m (reservation ∷ list) = reserve (set_key m reservation.spec.database_number false) list

-- The third, from a number on, with the count of the numbers that are left. The count is a uint32, so
-- the loops do not wrap.
find_available : (ℕ → Bool) → ℕ → ℕ → Option ℕ
find_available m i zero = none
find_available m i (suc n) = let rest = find_available m (suc i) n in if m i then some i else rest

unfoldable pub first_available : ℕ → List RedisDatabase → Option ℕ
unfolding make_available reserve find_available
first_available count list = find_available (reserve (make_available count) list) 0 count

abbrev no_free_database : EnvironmentConfig → Error
no_free_database config =
    controller_error
      (database_creation_error redis config (bytes "No free databases found in environment"))

abbrev number_or_error : EnvironmentConfig → Option ℕ → Result ℕ
number_or_error config (some i) = ok i
number_or_error config none = err (no_free_database config)

-- The answers of the API server to the two requests are the first arguments.
unfoldable pub get_first_free_database_in_environment :
    Result RedisConfig → Result (List RedisDatabase) → EnvironmentConfig → Result ℕ
unfolding first_available
get_first_free_database_in_environment (err e) listed config = err e
get_first_free_database_in_environment (ok redis_config) listed config =
    if is_empty redis_config.name
    then err (
        controller_error
          (database_creation_error redis config (bytes "Failed to load redis config")))
    else elim listed [
      | err e ↦ err e
      | ok list ↦
          number_or_error config (first_available redis_config.available_database_count list)
    ]
