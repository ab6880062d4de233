-- ===== src/Base/Bytes.antt =====
-- Go's strings: sequences of bytes, compared byte by byte.
use Prim.Native.Nat.{ℕ}
use Prim.Native.Char.{code}
use Prim.Native.String.{String}
use mathlib.Core.Path.{◌≡◌, refl}
use mathlib.Core.Logic.{◌↔◌}
use mathlib.Core.Bool.{Bool, true, false, ◌&&◌}
use mathlib.Core.List.{List, [], ◌∷◌, ◌++◌}
use native.Mathlib.Omega.{arith}
use kube_stager.Base.Tests.{◌==◌, if◌then◌else◌}

abbrev pub Text : Type 0
Text = List ℕ

-- The bytes of an ASCII literal.
abbrev pub bytes : String → Text
bytes String.[] = []
bytes (String.◌∷◌ c s) = code c ∷ bytes s

abbrev pub text_eq : Text → Text → Bool
text_eq [] [] = true
text_eq (a ∷ s) (b ∷ t) = (a == b) && text_eq s t
text_eq _ _ = false

-- s == ""
abbrev pub is_empty : Text → Bool
is_empty [] = true
is_empty _ = false

-- A default for a text that is empty.
abbrev pub or_else : Text → Text → Text
or_else value default = if is_empty value then default else value

-- strings.HasPrefix(s, prefix), with the prefix first.
abbrev pub has_prefix : Text → Text → Bool
has_prefix [] s = true
has_prefix (a ∷ prefix) [] = false
has_prefix (a ∷ prefix) (b ∷ s) = (a == b) && has_prefix prefix s

pub text_eq→eq : (s t : Text) → text_eq s t ≡ true → s ≡ t
text_eq→eq [] [] h = refl
text_eq→eq (a ∷ s) (b ∷ t) h = ground (arith, text_eq→eq s t)
text_eq→eq [] (b ∷ t) h = ground arith
text_eq→eq (a ∷ s) [] h = ground arith

pub text_eq_refl : (s : Text) → text_eq s s ≡ true
text_eq_refl [] = refl
text_eq_refl (a ∷ s) = ground (arith, text_eq_refl s)

pub text_eq_iff : (s t : Text) → (text_eq s t ≡ true) ↔ (s ≡ t)
text_eq_iff s t = (text_eq→eq s t, λ e. ground (arith, text_eq_refl s))

pub has_prefix-append : (prefix s : Text) → has_prefix prefix (prefix ++ s) ≡ true
has_prefix-append [] s = refl
has_prefix-append (a ∷ prefix) s = ground (arith, has_prefix-append prefix s)

pub has_prefix_of_eq :
    (prefix s t : Text) → text_eq (prefix ++ s) t ≡ true → has_prefix prefix t ≡ true
has_prefix_of_eq [] s t h = refl
has_prefix_of_eq (a ∷ prefix) s [] h = ground arith
has_prefix_of_eq (a ∷ prefix) s (b ∷ t) h = ground (arith, has_prefix_of_eq prefix s t)

pub text_eq-append : (prefix s t : Text) → text_eq (prefix ++ s) (prefix ++ t) ≡ text_eq s t
text_eq-append [] s t = refl
text_eq-append (a ∷ prefix) s t = ground (arith, text_eq-append prefix s t)
