-- ===== src/Sync/Expected.antt =====
-- What the loop over the services of a site, of the handlers of handlers/job and handlers/task, expects.
use kube_stager.Base.{
  Option, none, some, [], ◌∷◌, Text, text_eq, text_eq_iff, Assoc, lookup, insert, lookup-insert,
  has_key, AreUnique, insert-AreUnique, first_of, arith, ◌≡◌, refl, inl, inr, Bool-cases,
  Option-cases,
}
use kube_stager.Api.{StagingSiteService}
use kube_stager.Controller.{Result, ok, Result-cases}
use kube_stager.Sync.{expected_from}

module _ {J : Type 0} (wanted : Text → StagingSiteService → Result (Option J)) where
  -- What a service asks for: nothing, where the site does not have it.
  abbrev pub desired_of : Text → Option StagingSiteService → Result (Option J)
  desired_of s none = ok none
  desired_of s (some service) = wanted s service

  pub expected_from-AreUnique :
      (services : Assoc StagingSiteService) (before expected : Assoc J)
      → expected_from wanted services before ≡ ok expected
      → AreUnique before
      → AreUnique expected
  unfolding expected_from
  expected_from-AreUnique [] before expected h unique = ground (arith, unique)
  expected_from-AreUnique ((name, service) ∷ services) before expected h unique =
      elim (Result-cases (wanted name service)) [
        | inr (x, e) ↦ ground arith
        | inl (none, e) ↦ expected_from-AreUnique services before expected (ground arith) unique
        | inl (some job, e) ↦
            expected_from-AreUnique services (insert name job before) expected (ground arith)
              (insert-AreUnique name job before unique)
      ]

  pub expected_from-desired :
      (services : Assoc StagingSiteService) (before expected : Assoc J) (s : Text)
      → expected_from wanted services before ≡ ok expected
      → AreUnique services
      → (w : Option J) × (desired_of s (lookup s services) ≡ ok w)
        × (lookup s expected ≡ first_of w (lookup s before))
  unfolding expected_from has_key
  expected_from-desired [] before expected s h unique = (none, refl, ground arith)
  expected_from-desired ((name, service) ∷ services) before expected s h unique =
      elim (Result-cases (wanted name service)) [
        | inr (x, e) ↦ ground arith
        | inl (none, e) ↦
            let (w, desired, found) =
              expected_from-desired services before expected s (ground arith) unique.1 in
            elim (Bool-cases (text_eq name s)) [
              | inl same ↦ (
                none,
                ground (arith, text_eq_iff name s),
                ground (arith, text_eq_iff name s, unique.0, Option-cases (lookup s services)),
              )
              | inr apart ↦ (w, ground arith, found)
            ]
        | inl (some job, e) ↦
            let (w, desired, found) =
              expected_from-desired services (insert name job before) expected s (ground arith)
                unique.1 in
            let inserted = lookup-insert name s job before in
            elim (Bool-cases (text_eq name s)) [
              | inl same ↦ (
                some job,
                ground (arith, text_eq_iff name s),
                ground (
                  arith,
                  text_eq_iff name s,
                  unique.0,
                  inserted,
                  Option-cases (lookup s services),
                ),
              )
              | inr apart ↦ (w, ground arith, ground (arith, inserted))
            ]
      ]
