-- ===== src/Sync/Refined.antt =====
-- The abstract view of the handlers of handlers/job and handlers/task: a site has at most one object
-- for each of its services, and the order of the writes is forgotten.
use kube_stager.Base.{
  Bool, Option, none, some, List, [], ◌∷◌, ◌++◌, Text, text_eq, text_eq_iff, Assoc, lookup, has_key,
  AreUnique, first_of, if◌then◌else◌, arith, ◌≡◌, refl, inl, inr, Option-cases,
}
use kube_stager.Controller.{Error, ok}
use kube_stager.Sync.{
  Write, deleted, updated, created, Changes, changes_from, write_all, perform, run_writes,
}
use kube_stager.Sync.Compared.{find_service, AreDistinct, note_all-IsCompared, note_all-AreUnique}

-- The object that is stored for each service.
abbrev pub Store : Type 0 → Type 0
Store J = Text → Option J

module _ {J : Type 0} where
  abbrev pub applied : Write J → Store J → Store J
  applied (deleted service _) store s = if text_eq service s then none else store s
  applied (updated service job) store s = if text_eq service s then some job else store s
  applied (created service job) store s = if text_eq service s then some job else store s

  unfoldable pub stored : List (Write J) → Store J → Store J
  stored [] store = store
  stored (write ∷ writes) store = stored writes (applied write store)

  stored-append :
      (writes writes' : List (Write J)) (store : Store J)
      → stored (writes ++ writes') store ≡ stored writes' (stored writes store)
  unfolding stored
  stored-append [] writes' store = refl
  stored-append (write ∷ writes) writes' store = stored-append writes writes' (applied write store)

  stored-deleted :
      (m : Assoc J) (store : Store J) (s : Text)
      → stored (write_all deleted m) store s ≡ (if has_key s m then none else store s)
  unfolding stored write_all has_key
  stored-deleted [] store s = refl
  stored-deleted ((k, job) ∷ m) store s =
      ground (arith, stored-deleted m (applied (deleted k job) store) s)

  stored-created :
      (m : Assoc J) (store : Store J) (s : Text)
      → AreUnique m
      → stored (write_all created m) store s ≡ first_of (lookup s m) (store s)
  unfolding stored write_all has_key
  stored-created [] store s h = refl
  stored-created ((k, job) ∷ m) store s h = ground (
    arith,
    stored-created m (applied (created k job) store) s h.1,
    text_eq_iff k s,
    h.0,
    Option-cases (lookup s m),
  )

  stored-updated :
      (m : Assoc J) (store : Store J) (s : Text)
      → AreUnique m
      → stored (write_all updated m) store s ≡ first_of (lookup s m) (store s)
  unfolding stored write_all has_key
  stored-updated [] store s h = refl
  stored-updated ((k, job) ∷ m) store s h = ground (
    arith,
    stored-updated m (applied (updated k job) store) s h.1,
    text_eq_iff k s,
    h.0,
    Option-cases (lookup s m),
  )

  -- Without an error all of a list is written.
  pub perform-done :
      (accepts : Write J → Option Error) (writes : List (Write J))
      → (perform accepts writes).1 ≡ none
      → (perform accepts writes).0 ≡ writes
  unfolding perform
  perform-done accepts [] h = refl
  perform-done accepts (write ∷ writes) h = elim (Option-cases (accepts write)) [
    | inl e ↦ ground (arith, perform-done accepts writes)
    | inr (x, e) ↦ ground arith
  ]

  -- A run that returns no error has written all, and returns the flag that it was given.
  pub run_writes-done :
      (accepts : Write J → Option Error) (writes : List (Write J)) (complete complete' : Bool)
      → (run_writes accepts writes complete).answer ≡ ok complete'
      → ((run_writes accepts writes complete).writes ≡ writes) × (complete ≡ complete')
  unfolding run_writes
  run_writes-done accepts writes complete complete' h =
      elim (Option-cases (perform accepts writes).1) [
        | inr (x, e) ↦ ground arith
        | inl e ↦ (perform-done accepts writes e, ground arith)
      ]

  module _ (service_of : J → Text) (revised : J → J → Option J) where
    -- What is to be stored for a service: what is expected, where it is not stored already in a form
    -- that needs no revision.
    abbrev pub target : Option J → Option J → Option J
    target none expected = expected
    target (some job) none = none
    target (some job) (some expected) = first_of (revised job expected) (some job)

    module _ (list : List J) (expected : Assoc J) where
      abbrev pub to_delete : List (Write J)
      to_delete = write_all deleted (changes_from service_of revised list expected).to_delete

      abbrev pub to_update : List (Write J)
      to_update = write_all updated (changes_from service_of revised list expected).to_update

      abbrev pub to_create : List (Write J)
      to_create = write_all created (changes_from service_of revised list expected).to_create

      -- Deletions, updates and creations bring the stored objects to the target.
      pub updates_first-target :
          (s : Text)
          → AreDistinct service_of list
          → AreUnique expected
          → stored (to_delete ++ (to_update ++ to_create)) (find_service service_of list) s
            ≡ target (find_service service_of list s) (lookup s expected)
      unfolding changes_from has_key
      updates_first-target s distinct unique =
          let start : Changes J = record { to_delete = []; to_update = []; to_create = expected } in
          let (unique_updates, unique_creations) =
            note_all-AreUnique service_of revised list start tt unique in
          let store = find_service service_of list in
          let (d, u, c) = note_all-IsCompared service_of revised list start s distinct in
          let deleted_store = stored to_delete store in
          let updated_store = stored to_update deleted_store in
          ground (
            arith,
            stored-append to_delete (to_update ++ to_create) store,
            stored-append to_update to_create deleted_store,
            stored-created (changes_from service_of revised list expected).to_create updated_store s
                unique_creations,
            stored-updated (changes_from service_of revised list expected).to_update deleted_store s
                unique_updates,
            stored-deleted (changes_from service_of revised list expected).to_delete store s,
            d,
            u,
            c,
            Option-cases (store s),
            Option-cases (lookup s expected),
          )

      -- So do deletions, creations and updates.
      pub creations_first-target :
          (s : Text)
          → AreDistinct service_of list
          → AreUnique expected
          → stored (to_delete ++ (to_create ++ to_update)) (find_service service_of list) s
            ≡ target (find_service service_of list s) (lookup s expected)
      unfolding changes_from has_key
      creations_first-target s distinct unique =
          let start : Changes J = record { to_delete = []; to_update = []; to_create = expected } in
          let (unique_updates, unique_creations) =
            note_all-AreUnique service_of revised list start tt unique in
          let store = find_service service_of list in
          let (d, u, c) = note_all-IsCompared service_of revised list start s distinct in
          let deleted_store = stored to_delete store in
          let created_store = stored to_create deleted_store in
          ground (
            arith,
            stored-append to_delete (to_create ++ to_update) store,
            stored-append to_create to_update deleted_store,
            stored-updated (changes_from service_of revised list expected).to_update created_store s
                unique_updates,
            stored-created (changes_from service_of revised list expected).to_create deleted_store s
                unique_creations,
            stored-deleted (changes_from service_of revised list expected).to_delete store s,
            d,
            u,
            c,
            Option-cases (store s),
            Option-cases (lookup s expected),
          )

      -- Where nothing is revised, deletions and creations do.
      pub no_updates-target :
          (s : Text)
          → ((existing expected : J) → revised existing expected ≡ none)
          → AreDistinct service_of list
          → AreUnique expected
          → stored (to_delete ++ to_create) (find_service service_of list) s
            ≡ target (find_service service_of list s) (lookup s expected)
      unfolding changes_from has_key
      no_updates-target s unrevised distinct unique =
          let start : Changes J = record { to_delete = []; to_update = []; to_create = expected } in
          let (unique_updates, unique_creations) =
            note_all-AreUnique service_of revised list start tt unique in
          let store = find_service service_of list in
          let (d, u, c) = note_all-IsCompared service_of revised list start s distinct in
          let deleted_store = stored to_delete store in
          elim (Option-cases (store s)) [
            | inl e ↦ ground (
              arith,
              stored-append to_delete to_create store,
              stored-created (changes_from service_of revised list expected).to_create deleted_store
                  s unique_creations,
              stored-deleted (changes_from service_of revised list expected).to_delete store s,
              d,
              c,
              Option-cases (lookup s expected),
            )
            | inr (job, e) ↦ elim (Option-cases (lookup s expected)) [
              | inl e' ↦ ground (
                arith,
                stored-append to_delete to_create store,
                stored-created (changes_from service_of revised list expected).to_create
                    deleted_store s unique_creations,
                stored-deleted (changes_from service_of revised list expected).to_delete store s,
                d,
                c,
              )
              | inr (wanted, e') ↦ ground (
                arith,
                stored-append to_delete to_create store,
                stored-created (changes_from service_of revised list expected).to_create
                    deleted_store s unique_creations,
                stored-deleted (changes_from service_of revised list expected).to_delete store s,
                d,
                c,
                unrevised job wanted,
              )
            ]
          ]
