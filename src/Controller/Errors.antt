-- ===== src/Controller/Errors.antt =====
-- helpers/errors: the errors that the program makes, and those of the API server.
use kube_stager.Base.{
  [], ◌∷◌, ◌++◌, bytes, is_empty, if◌then◌else◌, ℕ, Bool, true, false, List, Text, ◌≡◌, refl, ◌⊎◌,
  inl, inr,
}
use kube_stager.Api.{EnvironmentConfig}

pub data DatabaseType : Type 0 where
  mongo mysql redis : DatabaseType

-- The types with an `IsFinal` method.
pub data ControllerError : Type 0 where
  database_creation_error : DatabaseType → EnvironmentConfig → Text → ControllerError
  database_init_error : Text → Text → Text → ControllerError
  database_migration_error : Text → Text → Text → ControllerError
  unresolved_templates_error : List Text → List Text → Text → Text → ControllerError

-- `api_error` is any other answer of the API server, `message` an error made of a text, and
-- `nil_dereference` a panic on a nil pointer, which ends the reconciliation.
pub data Error : Type 0 where
  not_found : Error
  api_error : ℕ → Error
  controller_error : ControllerError → Error
  message : Text → Error
  nil_dereference : Error

unfoldable pub is_final_error : ControllerError → Bool
is_final_error (database_creation_error _ _ _) = true
is_final_error (database_init_error _ _ _) = true
is_final_error (database_migration_error _ _ _) = true
is_final_error (unresolved_templates_error _ _ _ _) = true

unfoldable pub is_controller_error : Error → Bool
is_controller_error (controller_error _) = true
is_controller_error _ = false

-- A call that returns a value and an error.
pub data Result {ℓ} (A : Type ℓ) : Type ℓ where
  ok : A → Result A
  err : Error → Result A

pub Result-cases {ℓ} :
    {A : Type ℓ} (r : Result A) → ((a : A) × (r ≡ ok a)) ⊎ ((e : Error) × (r ≡ err e))
Result-cases (ok a) = inl (a, refl)
Result-cases (err e) = inr (e, refl)

-- The rest of a function after a call whose error it returns at once.
infixl 5 ◌>>=◌ ◌>>◌
abbrev pub ◌>>◌ {ℓ} : {B : Type ℓ} → Result (Unit {0}) → Result B → Result B
ok _ >> rest = rest
err error >> rest = err error

abbrev pub ◌>>=◌ {ℓ κ} : {A : Type ℓ} {B : Type κ} → Result A → (A → Result B) → Result B
ok value >>= rest = rest value
err error >>= rest = err error

-- The `Error` methods. `%v` of a slice of strings writes it in brackets, parted by spaces.
join_words : List Text → Text
join_words [] = []
join_words (w ∷ []) = w
join_words (w ∷ v ∷ words) = w ++ (b' ' ∷ join_words (v ∷ words))

unfoldable pub bracketed : List Text → Text
unfolding join_words
bracketed words = (b'[' ∷ join_words words) ++ bytes "]"

database_type_name : DatabaseType → Text
database_type_name mongo = bytes "Mongo"
database_type_name mysql = bytes "Mysql"
database_type_name redis = bytes "Redis"

with_reason : Text → Text → Text
with_reason text reason = if is_empty reason then text else text ++ (bytes ". Reason: " ++ reason)

for_service : Text → Text → Text → Text
for_service what site service =
    what ++ (bytes " failed for site " ++ (site ++ (bytes ", service " ++ service)))

in_entity : Text → Text → Text
in_entity entity key = if is_empty key then entity else entity ++ (bytes " at key " ++ key)

unfoldable pub error_text : ControllerError → Text
unfolding with_reason database_type_name for_service in_entity bracketed
error_text (database_creation_error type config reason) =
    with_reason
      (bytes "Failed to create "
        ++ (database_type_name type
            ++ (bytes " database for site "
                ++ (config.site_name
                    ++ (bytes ", service "
                        ++ (config.service_name
                            ++ (bytes " in environment " ++ config.environment)))))))
      reason
error_text (database_init_error site service reason) =
    with_reason (for_service (bytes "Database initialisation") site service) reason
error_text (database_migration_error site service reason) =
    with_reason (for_service (bytes "Database migration") site service) reason
error_text (unresolved_templates_error unresolved available entity key) =
    bytes "Not all templates have been resolved in the "
    ++ (in_entity entity key
        ++ (bytes ". Unresolved template variables: "
            ++ (bracketed unresolved
                ++ (bytes ". Available template variables: " ++ bracketed available))))
