-- ===== src/Sync/Desired.antt =====
-- What the handlers of handlers/job and handlers/task bring about for each service of a site.
use kube_stager.Base.{
  Bool, Option, List, [], Text, Assoc, lookup, AreUnique, arith, ap, ◌∙◌, ◌++◌, ◌≡◌, inl, inr,
  Option-cases,
}
use kube_stager.Api.{StagingSiteService}
use kube_stager.Controller.{Result, ok, Error, Result-cases}
use kube_stager.Sync.{Run, Write, change_databases, expected_from, ensure_created}
use kube_stager.Sync.Expected.{desired_of, expected_from-desired, expected_from-AreUnique}
use kube_stager.Sync.Compared.{find_service, AreDistinct}
use kube_stager.Sync.Refined.{
  stored, target, run_writes-done, creations_first-target, to_delete, to_create, to_update,
}

module _ {J : Type 0} (service_of : J → Text) (revised : J → J → Option J)
    (wanted : Text → StagingSiteService → Result (Option J)) (services : Assoc StagingSiteService)
    (list : List J) where
  -- For a service the run leaves what the service asks for, made from what is stored.
  abbrev pub IsDesired : Run J → Text → Type 0
  IsDesired run s =
      (object : Option J) × (desired_of wanted s (lookup s services) ≡ ok object)
      × (stored run.writes (find_service service_of list) s
          ≡ target service_of revised (find_service service_of list s) object)

  pub ensure_created-IsDesired :
      (listed : Result (List J)) (change : List J → Assoc J → Run J) (complete : Bool) (s : Text)
      → ((expected : Assoc J)
          → AreUnique expected
          → (change list expected).answer ≡ ok complete
          → stored (change list expected).writes (find_service service_of list) s
            ≡ target service_of revised (find_service service_of list s) (lookup s expected))
      → listed ≡ ok list
      → AreUnique services
      → (ensure_created listed wanted services change).answer ≡ ok complete
      → IsDesired (ensure_created listed wanted services change) s
  unfolding ensure_created
  ensure_created-IsDesired listed change complete s changes same unique h =
      elim (Result-cases (expected_from wanted services [])) [
        | inr (x, e) ↦ ground arith
        | inl (expected, e) ↦
            let (object, desired, found) =
              expected_from-desired wanted services [] expected s e unique in
            let unique' = expected_from-AreUnique wanted services [] expected e tt in
            (object, desired, ground (arith, changes expected unique', found, Option-cases object))
      ]

  -- The handlers of mysql and mongo databases.
  pub change_databases-IsDesired :
      (listed : Result (List J)) (accepts : Write J → Option Error) (complete : Bool) (s : Text)
      → listed ≡ ok list
      → AreUnique services
      → AreDistinct service_of list
      → (ensure_created listed wanted services (change_databases service_of revised accepts)).answer
        ≡ ok complete
      → IsDesired
          (ensure_created listed wanted services (change_databases service_of revised accepts))
          s
  unfolding change_databases
  change_databases-IsDesired listed accepts complete s same unique distinct h =
      ensure_created-IsDesired listed (change_databases service_of revised accepts) complete s
        (λ expected unique' done.
          ap (λ writes. stored writes (find_service service_of list) s)
            (run_writes-done accepts
              (to_delete service_of revised list expected
                ++ (to_create service_of revised list expected
                    ++ to_update service_of revised list expected))
              _ complete done).0
          ∙ creations_first-target service_of revised list expected s distinct unique')
        same unique h
