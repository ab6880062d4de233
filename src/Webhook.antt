-- ===== src/Webhook.antt =====
-- The admission webhooks: handlers/webhook and apis/site/v1/stagingsite_webhook.go.
pub mod Labels
pub mod Admission
pub mod Deletion
pub mod Defaults
pub mod Configs
pub mod Backups
use kube_stager.Base.{ℕ, Text, ◌≡◌, refl, ◌⊎◌, inl, inr}
use kube_stager.Controller.{Error}

-- admission.Response: allowed, allowed with a patch to the given object, denied, or an HTTP error.
pub data Response {ℓ} (A : Type ℓ) : Type ℓ where
  allowed : Response A
  patched : A → Response A
  denied : Text → Response A
  errored : ℕ → Error → Response A

-- A check that passes on a value, or denies the request.
pub data Verdict {ℓ} (A : Type ℓ) : Type ℓ where
  admitted : A → Verdict A
  refused : Text → Verdict A

infixl 5 ◌&&=◌
abbrev pub ◌&&=◌ {ℓ κ} : {A : Type ℓ} {B : Type κ} → Verdict A → (A → Verdict B) → Verdict B
admitted value &&= rest = rest value
refused text &&= rest = refused text

pub Verdict-cases {ℓ} :
    {A : Type ℓ} (v : Verdict A)
    → ((a : A) × (v ≡ admitted a)) ⊎ ((text : Text) × (v ≡ refused text))
Verdict-cases (admitted a) = inl (a, refl)
Verdict-cases (refused text) = inr (text, refl)
