-- ===== src/Task/Allocation/Free.antt =====
-- What `getFirstFreeDatabaseInEnvironment` of handlers/task/redis_handler.go searches for.
use kube_stager.Base.{
  ℕ, zero, suc, ◌+◌, ◌<◌, ◌≤◌, ◌≡◌, refl, ◌⊎◌, inl, inr, Bool, true, false, none, some, List, [],
  ◌∷◌, ltb, ◌==◌, not, ◌&&◌, if◌then◌else◌, arith, Bool-cases,
}
use kube_stager.Api.{RedisDatabase}
use kube_stager.Task.Allocation.{make_available, reserve, find_available, first_available, set_key}

-- A database of the list holds the number.
unfoldable pub is_reserved : List RedisDatabase → ℕ → Bool
is_reserved [] n = false
is_reserved (d ∷ list) n = if d.spec.database_number == n then true else is_reserved list n

make_available-ltb : (count i : ℕ) → make_available count i ≡ ltb i count
unfolding make_available
make_available-ltb zero i = ground arith
make_available-ltb (suc n) i = ground (arith, make_available-ltb n i)

reserve-is_reserved :
    (m : ℕ → Bool) (list : List RedisDatabase) (i : ℕ)
    → reserve m list i ≡ (m i && not (is_reserved list i))
unfolding reserve is_reserved
reserve-is_reserved m [] i = ground arith
reserve-is_reserved m (d ∷ list) i =
    ground (arith, reserve-is_reserved (set_key m d.spec.database_number false) list i)

-- All the numbers from `i` below `j` are unavailable in `m`.
abbrev AreTaken : (ℕ → Bool) → ℕ → ℕ → Type 0
AreTaken m i j = (k : ℕ) → i ≤ k → k < j → m k ≡ false

abbrev IsFirst : (ℕ → Bool) → ℕ → ℕ → ℕ → Type 0
IsFirst m i j k = (i ≤ k) × (k < j) × (m k ≡ true) × AreTaken m i k

taken-suc : (m : ℕ → Bool) (i j : ℕ) → m i ≡ false → AreTaken m (suc i) j → AreTaken m i j
taken-suc m i j h taken k i≤k k<j = elim (Bool-cases (i == k)) [
  | inl e ↦ ground arith
  | inr e ↦ ground (arith, taken k)
]

find_available-cases :
    (m : ℕ → Bool) (i n : ℕ)
    → ((find_available m i n ≡ none) × AreTaken m i (i + n))
      ⊎ ((k : ℕ) × (find_available m i n ≡ some k) × IsFirst m i (i + n) k)
unfolding find_available
find_available-cases m i zero = inl (refl, λ k h l. ground arith)
find_available-cases m i (suc n) = elim (Bool-cases (m i)) [
  | inl e ↦ inr (i, ground arith, (ground arith, ground arith, e, λ k h l. ground arith))
  | inr e ↦ elim (find_available-cases m (suc i) n) [
    | inl (none_left, taken) ↦
        inl (ground arith, taken-suc m i (i + suc n) e (λ k h l. ground (arith, taken k h)))
    | inr (k, found, (lower, upper, free, taken)) ↦
        inr (k, ground arith, (ground arith, ground arith, free, taken-suc m i k e taken))
  ]
]

-- Either there is a number below the count that no database of the list holds, and the search returns
-- the least one, or all are held and it returns none.
pub first_available-cases :
    (count : ℕ) (list : List RedisDatabase)
    → ((first_available count list ≡ none) × ((k : ℕ) → k < count → is_reserved list k ≡ true))
      ⊎ ((k : ℕ) × (first_available count list ≡ some k)
          × (k < count)
          × (is_reserved list k ≡ false)
          × ((j : ℕ) → j < k → is_reserved list j ≡ true))
unfolding first_available
first_available-cases count list =
    let m = reserve (make_available count) list in
    elim (find_available-cases m 0 count) [
      | inl (e, taken) ↦ inl (
        e,
        λ k l. ground (
          arith,
          taken k,
          reserve-is_reserved (make_available count) list k,
          make_available-ltb count k,
        ),
      )
      | inr (k, e, (lower, upper, free, taken)) ↦ inr (
        k,
        e,
        ground arith,
        ground (arith, reserve-is_reserved (make_available count) list k),
        λ j l. ground (
          arith,
          taken j,
          reserve-is_reserved (make_available count) list j,
          make_available-ltb count j,
        ),
      )
    ]
