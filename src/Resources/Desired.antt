-- ===== src/Resources/Desired.antt =====
-- What the handlers of handlers/site bring about for each service.
use kube_stager.Base.{
  Bool, true, false, Option, none, some, List, [], ◌∷◌, ◌++◌, map, Text, Assoc, lookup, AreUnique,
  if◌then◌else◌, arith, ap, sym, ◌∙◌, subst, ◌≡◌, refl, Option-cases,
}
use kube_stager.Api.{StagingSiteService}
use kube_stager.Controller.{Result, ok, Error}
use kube_stager.Sync.{Run, Write, deleted, write_all, ensure_created}
use kube_stager.Sync.Compared.{find_service, AreDistinct}
use kube_stager.Sync.Refined.{
  stored, applied, target, run_writes-done, updates_first-target, to_delete, to_create, to_update,
}
use kube_stager.Sync.Desired.{IsDesired, ensure_created-IsDesired}
use kube_stager.Resources.{ResourceApi, write_changes, delete_each, change_objects, ensure_objects}

-- A disabled site asks for nothing.
abbrev pub enabled_services : Bool → Assoc StagingSiteService → Assoc StagingSiteService
enabled_services enabled services = if enabled then services else []

module _ {O : Type 0} (key_of : O → Text) where
  stored-deleted_each :
      (list : List O) (store : Text → Option O) (s : Text)
      → stored (write_all deleted (map (λ object. (key_of object, object)) list)) store s
        ≡ elim (find_service key_of list s) [ some _ ↦ none | none ↦ store s ]
  unfolding stored write_all find_service
  stored-deleted_each [] store s = refl
  stored-deleted_each (object ∷ list) store s = ground (
    arith,
    stored-deleted_each list (applied (deleted (key_of object) object) store) s,
    Option-cases (find_service key_of list s),
  )

module _ {O : Type 0} (key_of : O → Text) (revised : O → O → Option O) where
  pub change_objects-target :
      (accepts : Write O → Option Error) (list : List O) (expected : Assoc O) (complete : Bool)
      (s : Text)
      → AreDistinct key_of list
      → AreUnique expected
      → (change_objects key_of accepts revised list expected).answer ≡ ok complete
      → stored
          (change_objects key_of accepts revised list expected).writes
          (find_service key_of list)
          s
        ≡ target key_of revised (find_service key_of list s) (lookup s expected)
  unfolding change_objects write_changes
  change_objects-target accepts list expected complete s distinct unique h =
      ap (λ writes. stored writes (find_service key_of list) s)
        (run_writes-done accepts
          (to_delete key_of revised list expected
            ++ (to_update key_of revised list expected ++ to_create key_of revised list expected))
          _ complete h).0
      ∙ updates_first-target key_of revised list expected s distinct unique

module _ {O : Type 0} (key_of : O → Text) (revised : O → O → Option O) (api : ResourceApi O)
    (wanted : Text → StagingSiteService → Result (Option O)) (list : List O) where
  deleted-IsDesired :
      (services : Assoc StagingSiteService) (complete : Bool) (s : Text)
      → (delete_each key_of api.accepts list).answer ≡ ok complete
      → IsDesired key_of revised wanted [] list (delete_each key_of api.accepts list) s
  unfolding delete_each
  deleted-IsDesired services complete s h =
      let store = find_service key_of list in
      (
        none,
        refl,
        ap (λ writes. stored writes store s)
              (run_writes-done api.accepts
                (write_all deleted (map (λ object. (key_of object, object)) list)) _ complete h).0
            ∙ ground (arith, stored-deleted_each key_of list store s, Option-cases (store s)),
      )

  created-IsDesired :
      (services : Assoc StagingSiteService) (complete : Bool) (s : Text)
      → AreUnique services
      → AreDistinct key_of list
      → (ensure_created
          (ok list)
          wanted
          services
          (change_objects key_of api.accepts revised)).answer
        ≡ ok complete
      → IsDesired key_of revised wanted services list
          (ensure_created (ok list) wanted services (change_objects key_of api.accepts revised))
          s
  created-IsDesired services complete s unique distinct h =
      ensure_created-IsDesired key_of revised wanted services list (ok list)
        (change_objects key_of api.accepts revised) complete s
        (λ expected unique'.
          change_objects-target key_of revised api.accepts list expected complete s distinct
            unique')
        refl unique h

  -- The run where the list is read.
  run_of : Bool → Assoc StagingSiteService → Run O
  unfolding ensure_created delete_each change_objects
  run_of enabled services =
      if enabled
      then ensure_created (ok list) wanted services (change_objects key_of api.accepts revised)
      else delete_each key_of api.accepts list

  ensure_objects-listed :
      (enabled : Bool) (services : Assoc StagingSiteService)
      → api.list_for_site ≡ ok list
      → ensure_objects key_of revised api enabled wanted services ≡ run_of enabled services
  unfolding ensure_objects run_of
  ensure_objects-listed enabled services listed = rw listed refl

  pub ensure_objects-IsDesired :
      (enabled : Bool) (services : Assoc StagingSiteService) (complete : Bool) (s : Text)
      → api.list_for_site ≡ ok list
      → AreUnique services
      → AreDistinct key_of list
      → (ensure_objects key_of revised api enabled wanted services).answer ≡ ok complete
      → IsDesired key_of revised wanted
          (enabled_services enabled services)
          list
          (ensure_objects key_of revised api enabled wanted services)
          s
  unfolding run_of
  ensure_objects-IsDesired false services complete s listed unique distinct h =
      let e = ensure_objects-listed false services listed in
      subst (λ run. IsDesired key_of revised wanted [] list run s) (sym e)
        (deleted-IsDesired services complete s (subst (λ run. run.answer ≡ ok complete) e h))
  ensure_objects-IsDesired true services complete s listed unique distinct h =
      let e = ensure_objects-listed true services listed in
      subst (λ run. IsDesired key_of revised wanted services list run s) (sym e)
        (created-IsDesired services complete s unique distinct
          (subst (λ run. run.answer ≡ ok complete) e h))
