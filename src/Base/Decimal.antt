-- ===== src/Base/Decimal.antt =====
-- The decimal digits of a number, as `%d` of fmt.Sprintf writes them.
use Prim.Native.Nat.{ℕ, zero, suc, ◌+◌, ◌-◌, ◌*◌, ◌/◌, ◌%◌, ◌≤◌}
use mathlib.Core.Path.{◌≡◌, refl}
use mathlib.Core.List.{[], ◌∷◌, ◌++◌}
use native.Mathlib.Omega.{arith}
use kube_stager.Base.Tests.{ltb, if◌then◌else◌}
use kube_stager.Base.Bytes.{Text}

digits_within : ℕ → ℕ → Text
digits_within zero n = (b'0' + n % 10) ∷ []
digits_within (suc rounds) n =
    let rest = digits_within rounds (n / 10) in
    if ltb n 10 then (b'0' + n % 10) ∷ [] else rest ++ ((b'0' + n % 10) ∷ [])

-- A number has at most as many digits after the first as it counts.
unfoldable pub decimal : ℕ → Text
unfolding digits_within
decimal n = digits_within n n

-- The number that digits stand for, after those read before.
unfoldable pub read_from : ℕ → Text → ℕ
read_from acc [] = acc
read_from acc (d ∷ s) = read_from (acc * 10 + (d - b'0')) s

read_from-append : (acc : ℕ) (s t : Text) → read_from acc (s ++ t) ≡ read_from (read_from acc s) t
unfolding read_from
read_from-append acc [] t = refl
read_from-append acc (d ∷ s) t = read_from-append (acc * 10 + (d - b'0')) s t

read_digits_within : (rounds n : ℕ) → n ≤ rounds → read_from 0 (digits_within rounds n) ≡ n
unfolding digits_within read_from
read_digits_within zero n h = omega arith
read_digits_within (suc rounds) n h = ground (
  arith,
  read_digits_within rounds (n / 10),
  read_from-append 0 (digits_within rounds (n / 10)) ((b'0' + n % 10) ∷ []),
)

-- The digits of a number read back as the number.
pub read_decimal : (n : ℕ) → read_from 0 (decimal n) ≡ n
unfolding decimal
read_decimal n = read_digits_within n n (omega arith)
