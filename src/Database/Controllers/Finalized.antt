-- ===== src/Database/Controllers/Finalized.antt =====
-- The finalizers of the database objects, in the controllers of controllers/task.
use kube_stager.Base.{
  Bool, true, false, none, some, List, [], ◌∷◌, ◌++◌, Text, text_eq_refl, is_some, arith, ◌≡◌, ap,
  inl, inr, Bool-cases, Option-cases,
}
use kube_stager.Names.{slice_contains_string}
use kube_stager.Controller.{Result, ok, err, save_status_updates_if_object_changed}
use kube_stager.Database.Controllers.{
  DatabaseApi, DatabaseObject, DatabaseReconciler, object, write_object, saved, handle_deletion,
  reconcile_live, reconcile_found, do_reconcile,
}

contains-appended : (l : List Text) (x : Text) → slice_contains_string (l ++ (x ∷ [])) x ≡ true
unfolding slice_contains_string
contains-appended [] x = ground (arith, text_eq_refl x)
contains-appended (y ∷ l) x = ground (arith, contains-appended l x)

module _ {D C S : Type 0} (api : DatabaseApi D C) (kind : DatabaseObject D)
    (reconciler : DatabaseReconciler S D C) where
  saved-status :
      (handled : D × Result Bool) (db : D) → (saved api handled).written ≡ some (object db) → ⊥
  unfolding save_status_updates_if_object_changed
  saved-status (db, ok true) db' h = ground (arith, Option-cases (api.update_status db))
  saved-status (db, ok false) db' h = ground arith
  saved-status (db, err e) db' h = ground arith

  -- A database object is written without its finalizer only while it is being deleted, and after the
  -- server has deleted its database without an error.
  pub finalizer_removed_after_delete :
      (db written : D) (config : C) (s : S)
      → ((finalizers : List Text)
          → (kind.meta (kind.set_finalizers finalizers db)).finalizers ≡ finalizers)
      → api.get ≡ ok db
      → api.get_config (kind.environment db) ≡ ok config
      → (do_reconcile api kind reconciler s).1.written ≡ some (object written)
      → slice_contains_string (kind.meta written).finalizers kind.finalizer ≡ false
      → (is_some (kind.meta db).deletion_timestamp ≡ true)
        × ((reconciler.delete config db s).1 ≡ none)
        × ((do_reconcile api kind reconciler s).0 ≡ (reconciler.delete config db s).0)
  unfolding do_reconcile reconcile_found handle_deletion reconcile_live write_object
  finalizer_removed_after_delete db written config s lawful found configured h gone =
      elim (Bool-cases (is_some (kind.meta db).deletion_timestamp)) [
        | inl e ↦ elim (Option-cases (reconciler.delete config db s).1) [
          | inr (x, e') ↦ ground arith
          | inl e' ↦ (e, e', ground arith)
        ]
        | inr e ↦
            elim (Bool-cases (slice_contains_string (kind.meta db).finalizers kind.finalizer)) [
              | inl e' ↦
                  elim (saved-status (reconciler.reconcile config db s).1 written
                    (ground arith)) [ ]
              | inr e' ↦
                  let finalizers = (kind.meta db).finalizers ++ (kind.finalizer ∷ []) in
                  let with_it = kind.set_finalizers finalizers db in
                  elim (Option-cases (api.update with_it)) [
                    | inr (x, e'') ↦ ground arith
                    | inl e'' ↦
                        let same : with_it ≡ written = ground arith in
                        ground (
                          arith,
                          ap (λ d. slice_contains_string (kind.meta d).finalizers kind.finalizer)
                              same,
                          lawful finalizers,
                          contains-appended (kind.meta db).finalizers kind.finalizer,
                        )
                  ]
            ]
      ]
