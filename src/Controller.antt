-- ===== src/Controller.antt =====
-- What the controllers share: helpers/errors, controllers/helpers.go, and the answers of the API
-- server. The API server is not the program's: each controller takes its answers as a parameter.
mod Errors
mod Batch
pub use Errors.*
unfoldable pub use Errors.{is_final_error, is_controller_error, error_text, bracketed}
pub use Batch.*
unfoldable pub use Batch.{verdict, fix_restart_policy}
use kube_stager.Base.{Bool, true, false, Option, none, some, ℤ, pos, if◌then◌else◌, ◌≡◌, refl}

-- ctrl.Result, with `RequeueAfter` in nanoseconds.
pub record CtrlResult : Type 0 where
  pub requeue : Bool
  pub requeue_after : ℤ

-- ctrl.Result{} and ctrl.Result{Requeue: true}
abbrev pub done : CtrlResult
done = record { requeue = false; requeue_after = pos 0 }

abbrev pub requeue_now : CtrlResult
requeue_now = record { requeue = true; requeue_after = pos 0 }

-- What a reconciliation returns, and the object whose update the API server accepted.
pub record Outcome {ℓ} (A : Type ℓ) : Type ℓ where
  pub result : CtrlResult
  pub error : Option Error
  pub written : Option A

-- The error that a reconciliation reports: its own before that of the update.
abbrev first_error : Option Error → Option Error → Option Error
first_error none new_err = new_err
first_error (some e) new_err = some e

module _ {ℓ} {A : Type ℓ} where
  abbrev pub return : CtrlResult → Option Error → Outcome A
  return result error = record { result = result; error = error; written = none }

  -- The object is written if the update answers with no error.
  abbrev accepted : Option Error → A → Option A
  accepted none obj = some obj
  accepted (some _) obj = none

  unfoldable pub save_status_updates_if_object_changed :
      Bool → (A → Option Error) → A → CtrlResult → Option Error → Outcome A
  save_status_updates_if_object_changed is_changed update obj result error =
      if is_changed
      then record {
        result = result;
        error = first_error error (update obj);
        written = accepted (update obj) obj;
      }
      else return result error
