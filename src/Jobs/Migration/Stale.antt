-- ===== src/Jobs/Migration/Stale.antt =====
-- The two methods of handlers/job/db_migration_job_handler.go on jobs for an earlier image tag.
use kube_stager.Base.{
  Bool, true, false, ◌&&◌, Option, none, some, is_some, List, [], ◌∷◌, ◌++◌, map, Text, text_eq,
  text_eq→eq, text_eq_refl, Assoc, lookup, All, Among, is_nil, arith, ◌≡◌, ◌≢◌, refl, inl, inr,
  subst, Bool-cases, Option-cases,
}
use kube_stager.Api.{StagingSite, DbMigrationJob, JobState}
use kube_stager.Controller.{ok, Error}
use kube_stager.Sync.{
  Changes, ensure_created, Write, deleted, updated, created, changes_from, write_all, run_writes,
  expected_from, perform, all_complete_from,
}
use kube_stager.Sync.Compared.{find_service, AreDistinct, note_all-IsCompared}
use kube_stager.Sync.Refined.{perform-done}
use kube_stager.Jobs.Init.{is_failed, is_complete}
use kube_stager.Jobs.Migration.{
  MigrationApi, wanted_job, service_of, revised, update_from, create_jobs, ensure_jobs_are_created,
  ensure_jobs_are_complete, asking_services, migration_failure,
}

perform-accepted :
    {J : Type 0} (accepts : Write J → Option Error) (writes : List (Write J))
    → ((write : Write J) → accepts write ≡ none)
    → (perform accepts writes).1 ≡ none
unfolding perform
perform-accepted accepts [] h = refl
perform-accepted accepts (write ∷ writes) h =
    ground (arith, h write, perform-accepted accepts writes h)

-- Where all writes are accepted, all are made, and the run returns its flag.
run_writes-accepted :
    {J : Type 0} (accepts : Write J → Option Error) (writes : List (Write J)) (complete : Bool)
    → ((write : Write J) → accepts write ≡ none)
    → ((run_writes accepts writes complete).answer ≡ ok complete)
      × ((run_writes accepts writes complete).writes ≡ writes)
unfolding run_writes
run_writes-accepted accepts writes complete h =
    let accepted = perform-accepted accepts writes h in
    (ground (arith, accepted), perform-done accepts writes accepted)

nil_of_lookups : {V : Type 0} (m : Assoc V) → ((s : Text) → lookup s m ≡ none) → m ≡ []
nil_of_lookups [] h = refl
nil_of_lookups ((k, v) ∷ m) h = ground (arith, h k, text_eq_refl k)

Among-back : {A : Type 0} (x : A) (xs ys : List A) → Among x ys → Among x (xs ++ ys)
Among-back x [] ys h = h
Among-back x (y ∷ xs) ys h = inr (Among-back x xs ys h)

Among-front : {A : Type 0} (x : A) (xs ys : List A) → Among x xs → Among x (xs ++ ys)
Among-front x [] ys h = elim h [ ]
Among-front x (y ∷ xs) ys (inl e) = inl e
Among-front x (y ∷ xs) ys (inr h) = inr (Among-front x xs ys h)

updated_is_written :
    {J : Type 0} (s : Text) (job : J) (m : Assoc J)
    → lookup s m ≡ some job
    → Among (updated s job) (write_all updated m)
unfolding write_all
updated_is_written s job [] h = ground arith
updated_is_written s job ((k, other) ∷ m) h = elim (Bool-cases (text_eq k s)) [
  | inl e ↦ inl (ground (arith, h, e, text_eq→eq k s e))
  | inr e ↦ inr (updated_is_written s job m (ground (arith, h, e)))
]

-- A listed job as it is stored once the updates are made.
abbrev revised_by : DbMigrationJob → Option DbMigrationJob → DbMigrationJob
revised_by job none = job
revised_by job (some revision) = revision

abbrev stored_with : DbMigrationJob → Option DbMigrationJob → DbMigrationJob
stored_with job none = job
stored_with job (some wanted) = revised_by job (revised job wanted)

abbrev pub after_updates : Assoc DbMigrationJob → List DbMigrationJob → List DbMigrationJob
after_updates expected = map (λ job. stored_with job (lookup (service_of job) expected))

abbrev pub HasCompleted : DbMigrationJob → Type 0
HasCompleted job = job.status.state ≡ JobState.complete

stored_with-HasCompleted :
    (job : DbMigrationJob) (wanted : Option DbMigrationJob)
    → HasCompleted job
    → HasCompleted (stored_with job wanted)
unfolding revised
stored_with-HasCompleted job none h = h
stored_with-HasCompleted job (some wanted) h = ground (arith, h)

all_complete_from-updated :
    (expected : Assoc DbMigrationJob) (list : List DbMigrationJob) (ready : Bool)
    → All HasCompleted list
    → all_complete_from
        (λ job. is_failed job.status.state)
        (λ job. is_complete job.status.state)
        migration_failure
        (after_updates expected list)
        ready
      ≡ ok ready
unfolding all_complete_from
all_complete_from-updated expected [] ready h = refl
all_complete_from-updated expected (job ∷ list) ready h =
    let wanted = lookup (service_of job) expected in
    ground (
      arith,
      stored_with-HasCompleted job wanted h.0,
      all_complete_from-updated expected list (ready && true) h.1,
    )

module _ (list : List DbMigrationJob) (expected : Assoc DbMigrationJob) where
  abbrev changes : Changes DbMigrationJob
  changes = changes_from service_of revised list expected

  -- Exactly the services of which a job is expected have a listed one.
  abbrev pub AreCovered : Type 0
  AreCovered = (s : Text) → is_some (find_service service_of list s) ≡ is_some (lookup s expected)

  nothing_deleted : AreDistinct service_of list → AreCovered → changes.to_delete ≡ []
  unfolding changes_from
  nothing_deleted distinct covered = nil_of_lookups changes.to_delete (λ s.
      let start : Changes DbMigrationJob = record {
        to_delete = [];
        to_update = [];
        to_create = expected;
      } in
      let (d, u, c) = note_all-IsCompared service_of revised list start s distinct in
      ground (
        arith,
        d,
        covered s,
        Option-cases (find_service service_of list s),
        Option-cases (lookup s expected),
      ))

  nothing_created : AreDistinct service_of list → AreCovered → changes.to_create ≡ []
  unfolding changes_from
  nothing_created distinct covered = nil_of_lookups changes.to_create (λ s.
      let start : Changes DbMigrationJob = record {
        to_delete = [];
        to_update = [];
        to_create = expected;
      } in
      let (d, u, c) = note_all-IsCompared service_of revised list start s distinct in
      ground (
        arith,
        c,
        covered s,
        Option-cases (find_service service_of list s),
        Option-cases (lookup s expected),
      ))

  update_planned :
      (s : Text) (existing wanted : DbMigrationJob)
      → AreDistinct service_of list
      → find_service service_of list s ≡ some existing
      → lookup s expected ≡ some wanted
      → text_eq existing.spec.image_tag wanted.spec.image_tag ≡ false
      → lookup s changes.to_update ≡ some (update_from existing wanted)
  unfolding changes_from revised
  update_planned s existing wanted distinct found asked other =
      let start : Changes DbMigrationJob = record {
        to_delete = [];
        to_update = [];
        to_create = expected;
      } in
      let (d, u, c) = note_all-IsCompared service_of revised list start s distinct in
      ground (arith, u, found, asked, other)

  module _ (api : MigrationApi) (site : StagingSite) where
    -- The services of a site that ask for a migration job are those that have one, each has one
    -- only, and every job is complete. One service now asks for another image tag than that of its
    -- job, for which the last migration was. The run that updates the job writes it with the new tag
    -- and answers that the migrations are created. Right after it,
    -- on the jobs with their updates, the other method answers that they are complete, while the
    -- updated job is yet to be started again for its new tag. All writes are accepted.
    pub updated_jobs_count_as_complete :
        (s : Text) (existing wanted : DbMigrationJob)
        → api.list_for_site ≡ ok list
        → expected_from (wanted_job api site) (asking_services site) [] ≡ ok expected
        → AreDistinct service_of list
        → AreCovered
        → All HasCompleted list
        → find_service service_of list s ≡ some existing
        → lookup s expected ≡ some wanted
        → text_eq existing.spec.image_tag wanted.spec.image_tag ≡ false
        → existing.status.last_migrated_image_tag ≡ existing.spec.image_tag
        → ((write : Write DbMigrationJob) → api.accepts write ≡ none)
        → let job = update_from existing wanted in
          ((ensure_jobs_are_created api site).answer ≡ ok true)
          × Among (updated s job) (ensure_jobs_are_created api site).writes
          × (ensure_jobs_are_complete
                (record api { list_for_site = ok (after_updates expected list) })
              ≡ ok true)
          × (job.spec.image_tag ≢ job.status.last_migrated_image_tag)
    unfolding ensure_jobs_are_created ensure_created create_jobs ensure_jobs_are_complete
    updated_jobs_count_as_complete s existing wanted listed e distinct covered complete found asked
          other migrated accepts =
        let job = update_from existing wanted in
        let flag = is_nil changes.to_delete && is_nil changes.to_create in
        let updates = write_all updated changes.to_update in
        let creations = write_all created changes.to_create in
        let deletions = write_all deleted changes.to_delete in
        let (answered, written) =
          run_writes-accepted api.accepts (deletions ++ (updates ++ creations)) flag accepts in
        let planned =
          updated_is_written s job changes.to_update
            (update_planned s existing wanted distinct found asked other) in
        let raised : flag ≡ true =
          rw (nothing_deleted distinct covered) (rw (nothing_created distinct covered) refl) in
        (
          ground (arith, answered, raised),
          subst (Among (updated s job)) (ground (arith, written)) (
              Among-back (updated s job) deletions (updates ++ creations)
                (Among-front (updated s job) updates creations planned)),
          ground (arith, all_complete_from-updated expected list true complete),
          λ same. ground (arith, same, migrated, other, text_eq_refl wanted.spec.image_tag),
        )
