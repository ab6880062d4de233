-- ===== src/Examples/Databases.antt =====
-- Redis databases of a small site.
use mathlib.Core.Path.{subst}
use kube_stager.Base.{
  remove, length, ℕ, ◌<◌, ◌≡◌, refl, ◌⊎◌, none, some, List, [], ◌∷◌, bytes, Text, arith, true,
  false, All, insert,
}
use kube_stager.Api.{StagingSite, RedisDatabase, TaskState}
use kube_stager.Controller.{ok}
use kube_stager.Task.Allocation.{first_available}
use kube_stager.Task.Allocation.Free.{first_available-cases, is_reserved}
use kube_stager.Task.Database.{RedisApi, Write, created, deleted, updated}
use kube_stager.Task.Redis.Updated.{IsUnnumbered, updated_number_is_zero}
use kube_stager.Task.Redis.{ensure_databases_are_created}
use kube_stager.Task.Redis.Created.{
  AreDistinct, IsListed, ReadsItsWrites, created_numbers-AreDistinct,
}
use kube_stager.Examples.{digest, demo, meta_of, shop_config, shop_service}

abbrev redis_at : Text → ℕ → TaskState → RedisDatabase
redis_at service n state = record {
  meta = meta_of (bytes "demo-sh-op");
  spec = record {
    environment_config = record {
      service_name = service;
      site_name = bytes "demo";
      environment = bytes "redis-0";
    };
    database_number = n;
  };
  state = state;
}

-- The databases that the writes have created.
created_in : List Write → List RedisDatabase
created_in [] = []
created_in (created d ∷ writes) = d ∷ created_in writes
created_in (deleted _ ∷ writes) = created_in writes
created_in (updated _ ∷ writes) = created_in writes

abbrev redis_api : List RedisDatabase → RedisApi
redis_api list = record {
  list_for_site = ok list;
  get_service_config = λ name. ok (record shop_config { meta = meta_of name });
  set_controller_reference = λ d. ok d;
  get_redis_config = λ name. ok (record {
    meta = meta_of (bytes "redis-0");
    host = bytes "redis";
    available_database_count = 4;
    port = 6379;
    is_tls_enabled = none;
    password = [];
  });
  list_in_environment = λ writes _. ok (created_in writes);
  md5_base36 = digest;
  accepts = λ _. none;
}

-- A site with two services that want a redis database.
abbrev two_services : StagingSite
two_services = record demo {
  spec = record demo.spec {
    services = (bytes "shop", shop_service) ∷ (bytes "cart", shop_service) ∷ [];
  };
}

reserved-suc :
    (d : RedisDatabase) (list : List RedisDatabase) (environment : Text) (writes : List Write)
    → All (IsListed list environment) writes
    → All (IsListed (d ∷ list) environment) writes
unfolding is_reserved
reserved-suc d list environment [] listed = tt
reserved-suc d list environment (created d' ∷ writes) listed =
    (λ same. ground (arith, listed.0 same), reserved-suc d list environment writes listed.1)
reserved-suc d list environment (deleted _ ∷ writes) listed =
    (tt, reserved-suc d list environment writes listed.1)
reserved-suc d list environment (updated _ ∷ writes) listed =
    (tt, reserved-suc d list environment writes listed.1)

All-IsListed :
    (environment : Text) (writes : List Write)
    → All (IsListed (created_in writes) environment) writes
unfolding is_reserved created_in
All-IsListed environment [] = tt
All-IsListed environment (created d ∷ writes) = (
  λ same. ground arith,
  reserved-suc d (created_in writes) environment writes (All-IsListed environment writes),
)
All-IsListed environment (deleted _ ∷ writes) = (tt, All-IsListed environment writes)
All-IsListed environment (updated _ ∷ writes) = (tt, All-IsListed environment writes)

redis_api-ReadsItsWrites : (list : List RedisDatabase) → ReadsItsWrites (redis_api list)
redis_api-ReadsItsWrites list writes environment found h =
    let same : created_in writes ≡ found = ground arith in
    subst (λ l. All (IsListed l environment) writes) same (All-IsListed environment writes)

-- Two databases are created.
distinct_example : AreDistinct (ensure_databases_are_created (redis_api []) two_services).0.writes
distinct_example =
    created_numbers-AreDistinct (redis_api []) (redis_api-ReadsItsWrites []) two_services

-- The created databases have the numbers 0 and 1.
two_numbers : List Write → List ℕ
two_numbers [] = []
two_numbers (created d ∷ writes) = d.spec.database_number ∷ two_numbers writes
two_numbers (_ ∷ writes) = two_numbers writes

numbers_run :
    two_numbers (ensure_databases_are_created (redis_api []) two_services).0.writes ≡ 1 ∷ 0 ∷ []
unfolding ensure_databases_are_created two_numbers created_in insert
numbers_run = refl

-- Numbers 0 and 2 are held.
abbrev held : List RedisDatabase
held =
    redis_at (bytes "shop") 2 TaskState.complete ∷ redis_at (bytes "cart") 0 TaskState.failed ∷ []

available_example :
    ((first_available 4 held ≡ none) × ((k : ℕ) → k < 4 → is_reserved held k ≡ true))
    ⊎ ((k : ℕ) × (first_available 4 held ≡ some k)
        × (k < 4)
        × (is_reserved held k ≡ false)
        × ((j : ℕ) → j < k → is_reserved held j ≡ true))
available_example = first_available-cases 4 held

-- The database of the service shop is outdated.
abbrev outdated : List RedisDatabase
outdated = redis_at (bytes "shop") 3 TaskState.complete ∷ []

zero_example :
    All
      (IsUnnumbered (redis_api outdated))
      (ensure_databases_are_created (redis_api outdated) two_services).0.writes
zero_example = updated_number_is_zero (redis_api outdated) two_services (λ d d' h. ground arith)

-- The database of shop is updated, after that of the other service is created.
zero_run : length (ensure_databases_are_created (redis_api outdated) two_services).0.writes ≡ 2
unfolding ensure_databases_are_created insert created_in remove
zero_run = refl
