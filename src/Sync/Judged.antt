-- ===== src/Sync/Judged.antt =====
-- The readiness of a list of objects, against a description of it.
use kube_stager.Base.{
  Bool, true, ◌&&◌, Option, none, some, List, [], ◌∷◌, if◌then◌else◌, arith, ◌≡◌,
}
use kube_stager.Controller.{Result, ok, err, Error}
use kube_stager.Sync.{all_complete_from}

module _ {J : Type 0} (is_failed is_complete : J → Bool) (failure : J → Error) where
  -- The first failed object, and whether all are complete.
  unfoldable pub first_failed : List J → Option J
  first_failed [] = none
  first_failed (job ∷ list) =
      let rest = first_failed list in if is_failed job then some job else rest

  unfoldable pub are_complete : List J → Bool
  are_complete [] = true
  are_complete (job ∷ list) = is_complete job && are_complete list

  abbrev pub judged : Option J → Bool → Result Bool
  judged (some job) complete = err (failure job)
  judged none complete = ok complete

  pub all_complete_from-judged :
      (list : List J) (ready : Bool)
      → all_complete_from is_failed is_complete failure list ready
        ≡ judged (first_failed list) (ready && are_complete list)
  unfolding all_complete_from first_failed are_complete
  all_complete_from-judged [] ready = ground arith
  all_complete_from-judged (job ∷ list) ready =
      ground (arith, all_complete_from-judged list (ready && is_complete job))
