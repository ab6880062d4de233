-- ===== src/Sync/Compared.antt =====
-- Which objects the handlers of handlers/job and handlers/task delete, update and create.
use kube_stager.Base.{
  true, false, Option, none, some, List, [], ◌∷◌, Text, text_eq, text_eq_iff, All, lookup,
  lookup-insert, lookup-remove, AreUnique, insert-AreUnique, remove-AreUnique, first_of,
  if◌then◌else◌, arith, ◌≡◌, refl, inl, inr, Option-cases, Bool-cases,
}
use kube_stager.Sync.{Changes, note_existing, note_all}

module _ {J : Type 0} (service_of : J → Text) where
  -- The first of the objects for a service.
  unfoldable pub find_service : List J → Text → Option J
  find_service [] service = none
  find_service (job ∷ list) service =
      let rest = find_service list service in
      if text_eq (service_of job) service then some job else rest

  -- No service has two of the objects.
  abbrev pub AreDistinct : List J → Type 0
  AreDistinct [] = Unit
  AreDistinct (job ∷ list) =
      All (λ other. text_eq (service_of job) (service_of other) ≡ false) list × AreDistinct list

  find_service-distinct :
      (job : J) (list : List J) (service : Text)
      → All (λ other. text_eq (service_of job) (service_of other) ≡ false) list
      → text_eq (service_of job) service ≡ true
      → find_service list service ≡ none
  unfolding find_service
  find_service-distinct job [] service h same = refl
  find_service-distinct job (other ∷ list) service h same = ground (
    arith,
    find_service-distinct job list service h.1 same,
    text_eq_iff (service_of job) service,
    text_eq_iff (service_of other) service,
    text_eq_iff (service_of job) (service_of other),
    h.0,
  )

  module _ (revised : J → J → Option J) where
    -- What the three maps hold for a service: of what exists, what is expected, and what they held.
    abbrev pub deleted_at : Option J → Option J → Option J → Option J
    deleted_at none expected held = held
    deleted_at (some job) none held = some job
    deleted_at (some job) (some expected) held = held

    abbrev pub updated_at : Option J → Option J → Option J → Option J
    updated_at (some job) (some expected) held = first_of (revised job expected) held
    updated_at _ _ held = held

    abbrev pub created_at : Option J → Option J → Option J
    created_at none expected = expected
    created_at (some job) expected = none

    -- What the maps of `changes` hold for a service is what `before` makes of what exists.
    abbrev IsCompared : Changes J → Changes J → Text → Option J → Type 0
    IsCompared before after service existing =
        (lookup service after.to_delete
          ≡ deleted_at existing (lookup service before.to_create) (lookup service before.to_delete))
        × (lookup service after.to_update
            ≡ updated_at existing (lookup service before.to_create)
                (lookup service before.to_update))
        × (lookup service after.to_create ≡ created_at existing (lookup service before.to_create))

    note_existing-IsCompared :
        (job : J) (changes : Changes J) (service : Text)
        → IsCompared changes
            (note_existing service_of revised job changes)
            service
            (if text_eq (service_of job) service then some job else none)
    unfolding note_existing
    note_existing-IsCompared job changes service =
        elim (Option-cases (lookup (service_of job) changes.to_create)) [
          | inl e ↦ (
            ground (
              arith,
              lookup-insert (service_of job) service job changes.to_delete,
              text_eq_iff (service_of job) service,
            ),
            ground (arith, text_eq_iff (service_of job) service),
            ground (arith, text_eq_iff (service_of job) service),
          )
          | inr (expected, e) ↦ elim (Option-cases (revised job expected)) [
            | inl e' ↦ (
              ground (arith, text_eq_iff (service_of job) service),
              ground (arith, text_eq_iff (service_of job) service),
              ground (
                arith,
                lookup-remove (service_of job) service changes.to_create,
                text_eq_iff (service_of job) service,
              ),
            )
            | inr (revision, e') ↦ (
              ground (arith, text_eq_iff (service_of job) service),
              ground (
                arith,
                lookup-insert (service_of job) service revision changes.to_update,
                text_eq_iff (service_of job) service,
              ),
              ground (
                arith,
                lookup-remove (service_of job) service changes.to_create,
                text_eq_iff (service_of job) service,
              ),
            )
          ]
        ]

    pub note_all-IsCompared :
        (list : List J) (changes : Changes J) (service : Text)
        → AreDistinct list
        → IsCompared changes
            (note_all service_of revised list changes)
            service
            (find_service list service)
    unfolding note_all find_service
    note_all-IsCompared [] changes service h = (refl, refl, refl)
    note_all-IsCompared (job ∷ list) changes service h =
        let (d₁, u₁, c₁) = note_existing-IsCompared job changes service in
        let (d₂, u₂, c₂) =
          note_all-IsCompared list (note_existing service_of revised job changes) service h.1 in
        elim (Bool-cases (text_eq (service_of job) service)) [
          | inl e ↦
              let later = find_service-distinct job list service h.0 e in
              (
                ground (arith, later, d₁, d₂),
                ground (arith, later, u₁, u₂),
                ground (arith, later, c₁, c₂),
              )
          | inr e ↦ (ground (arith, d₁, d₂, c₁), ground (arith, u₁, u₂, c₁), ground (arith, c₁, c₂))
        ]

    note_existing-AreUnique :
        (job : J) (changes : Changes J)
        → AreUnique changes.to_update
        → AreUnique changes.to_create
        → AreUnique (note_existing service_of revised job changes).to_update
          × AreUnique (note_existing service_of revised job changes).to_create
    unfolding note_existing
    note_existing-AreUnique job changes update create =
        elim (Option-cases (lookup (service_of job) changes.to_create)) [
          | inl e ↦ (ground (arith, update), ground (arith, create))
          | inr (expected, e) ↦ elim (Option-cases (revised job expected)) [
            | inl e' ↦ (
              ground (arith, update),
              ground (arith, remove-AreUnique (service_of job) changes.to_create create),
            )
            | inr (revision, e') ↦ (
              ground (arith, insert-AreUnique (service_of job) revision changes.to_update update),
              ground (arith, remove-AreUnique (service_of job) changes.to_create create),
            )
          ]
        ]

    pub note_all-AreUnique :
        (list : List J) (changes : Changes J)
        → AreUnique changes.to_update
        → AreUnique changes.to_create
        → AreUnique (note_all service_of revised list changes).to_update
          × AreUnique (note_all service_of revised list changes).to_create
    unfolding note_all
    note_all-AreUnique [] changes update create = (update, create)
    note_all-AreUnique (job ∷ list) changes update create =
        let (update', create') = note_existing-AreUnique job changes update create in
        note_all-AreUnique list (note_existing service_of revised job changes) update' create'
