-- ===== src/Sync.antt =====
-- What the handlers of handlers/job and handlers/task share: EnsureJobsAreCreated and
-- EnsureDatabasesAreCreated compare the objects that a site asks for with those that it has, and
-- EnsureJobsAreComplete and EnsureDatabasesAreReady read the states of those that it has.
pub mod Expected
pub mod Compared
pub mod Refined
pub mod Desired
pub mod Judged
use kube_stager.Base.{
  Bool, true, false, ◌&&◌, Option, none, some, List, [], ◌∷◌, ◌++◌, Text, is_nil, Assoc, lookup,
  insert, remove,
}
use kube_stager.Api.{StagingSiteService}
use kube_stager.Controller.{Result, ok, err, ◌>>=◌, Error}

-- The writes, with the name of the service under which a map holds the object.
pub data Write (J : Type 0) : Type 0 where
  deleted updated created : Text → J → Write J

-- The three maps of the changes to make, by the name of the service.
pub record Changes (J : Type 0) : Type 0 where
  pub to_delete : Assoc J
  pub to_update : Assoc J
  pub to_create : Assoc J

-- What has been written, and what the handler returns.
pub record Run (J : Type 0) : Type 0 where
  pub writes : List (Write J)
  pub answer : Result Bool

answer_of : Bool → Option Error → Result Bool
answer_of complete none = ok complete
answer_of complete (some e) = err e

module _ {J : Type 0} where
  -- The loop over the services, of which some ask for an object.
  unfoldable pub expected_from :
      (Text → StagingSiteService → Result (Option J))
      → Assoc StagingSiteService
      → Assoc J
      → Result (Assoc J)
  expected_from wanted [] expected = ok expected
  expected_from wanted ((name, service) ∷ services) expected = elim (wanted name service) [
    | err e ↦ err e
    | ok none ↦ expected_from wanted services expected
    | ok (some job) ↦ expected_from wanted services (insert name job expected)
  ]

  -- The loop over the existing objects. `revised` gives the object to write where an existing one does
  -- not match the expected one.
  module _ (service_of : J → Text) (revised : J → J → Option J) where
    update_if_revised : Text → Option J → Changes J → Changes J
    update_if_revised service none changes = changes
    update_if_revised service (some job) changes = record changes {
      to_update = insert service job changes.to_update;
    }

    unfoldable pub note_existing : J → Changes J → Changes J
    unfolding update_if_revised
    note_existing job changes = elim (lookup (service_of job) changes.to_create) [
      | none ↦ record changes { to_delete = insert (service_of job) job changes.to_delete }
      | some expected ↦
          update_if_revised (service_of job) (revised job expected)
            (record changes { to_create = remove (service_of job) changes.to_create })
    ]

    unfoldable pub note_all : List J → Changes J → Changes J
    unfolding note_existing
    note_all [] changes = changes
    note_all (job ∷ list) changes = note_all list (note_existing job changes)

    unfoldable pub changes_from : List J → Assoc J → Changes J
    unfolding note_all
    changes_from list expected =
        note_all list (record { to_delete = []; to_update = []; to_create = expected })

  unfoldable pub write_all : (Text → J → Write J) → Assoc J → List (Write J)
  write_all write [] = []
  write_all write ((service, job) ∷ jobs) = write service job ∷ write_all write jobs

  -- The loops, each ended by its first error: what is written of a list, and the error.
  unfoldable pub perform : (Write J → Option Error) → List (Write J) → List (Write J) × Option Error
  perform accepts [] = ([], none)
  perform accepts (write ∷ writes) = elim (accepts write) [
    | some e ↦ ([], some e)
    | none ↦ let rest = perform accepts writes in (write ∷ rest.0, rest.1)
  ]

  unfoldable pub run_writes : (Write J → Option Error) → List (Write J) → Bool → Run J
  unfolding perform answer_of
  run_writes accepts writes complete =
      let result = perform accepts writes in
      record { writes = result.0; answer = answer_of complete result.1 }

  abbrev pub no_run : Error → Run J
  no_run e = record { writes = []; answer = err e }

  -- The loops of the handlers of mysql and mongo databases: deletions, creations, updates.
  unfoldable pub change_databases :
      (J → Text) → (J → J → Option J) → (Write J → Option Error) → List J → Assoc J → Run J
  unfolding changes_from write_all run_writes
  change_databases service_of revised accepts list expected =
      let changes = changes_from service_of revised list expected in
      run_writes accepts
        (write_all deleted changes.to_delete
          ++ (write_all created changes.to_create ++ write_all updated changes.to_update))
        (is_nil changes.to_delete && (is_nil changes.to_create && is_nil changes.to_update))

  -- The handler: the list, the expected objects, and what is made of the two.
  unfoldable pub ensure_created :
      Result (List J)
      → (Text → StagingSiteService → Result (Option J))
      → Assoc StagingSiteService
      → (List J → Assoc J → Run J)
      → Run J
  unfolding expected_from
  ensure_created listed wanted services change = elim listed [
    | err e ↦ no_run e
    | ok list ↦ elim (expected_from wanted services []) [
      | err e ↦ no_run e
      | ok expected ↦ change list expected
    ]
  ]

-- The loop over the states: the first failed object is an error, and else all are to be complete.
module _ {J : Type 0} (is_failed is_complete : J → Bool) (failure : J → Error) where
  unfoldable pub all_complete_from : List J → Bool → Result Bool
  all_complete_from [] ready = ok ready
  all_complete_from (job ∷ list) ready = elim (is_failed job) [
    | true ↦ err (failure job)
    | false ↦ all_complete_from list (ready && is_complete job)
  ]
