-- ===== src/Names/Shorten.antt =====
-- The three branches of `shorten_human_readable_value`, as equations.
use kube_stager.Base.{
  ℕ, ◌-◌, ◌≤◌, ◌<◌, ◌≡◌, true, false, ◌∷◌, ◌++◌, Text, length, take, arith, ℤ, pos, ltb_ℤ, pos_part,
}
use kube_stager.Names.{shorten_human_readable_value}

module _ (md5_base36 : Text → Text) where
  shorten_fits :
      (s : Text) (m : ℤ)
      → ltb_ℤ m (pos (length s)) ≡ false
      → shorten_human_readable_value md5_base36 s m ≡ s
  unfolding shorten_human_readable_value
  shorten_fits s m h = ground arith

  shorten_cut :
      (s : Text) (m : ℤ)
      → ltb_ℤ m (pos (length s)) ≡ true
      → ltb_ℤ (pos 11) m ≡ true
      → shorten_human_readable_value md5_base36 s m
        ≡ take (pos_part m - 11) s ++ (b'-' ∷ take 10 (md5_base36 s))
  unfolding shorten_human_readable_value
  shorten_cut s m h k = ground arith

  shorten_digest :
      (s : Text) (m : ℤ)
      → ltb_ℤ m (pos (length s)) ≡ true
      → ltb_ℤ (pos 11) m ≡ false
      → shorten_human_readable_value md5_base36 s m ≡ take 10 (md5_base36 s)
  unfolding shorten_human_readable_value
  shorten_digest s m h k = ground arith

  -- The equations at a bound that is not negative.
  pub shorten_fits_at :
      (s : Text) (n : ℕ) → length s ≤ n → shorten_human_readable_value md5_base36 s (pos n) ≡ s
  shorten_fits_at s n h = shorten_fits s (pos n) (ground arith)

  pub shorten_cut_at :
      (s : Text) (n : ℕ)
      → n < length s
      → 11 < n
      → shorten_human_readable_value md5_base36 s (pos n)
        ≡ take (n - 11) s ++ (b'-' ∷ take 10 (md5_base36 s))
  shorten_cut_at s n h k = shorten_cut s (pos n) (ground arith) (ground arith)

  pub shorten_digest_at :
      (s : Text) (n : ℕ)
      → n < length s
      → n ≤ 11
      → shorten_human_readable_value md5_base36 s (pos n) ≡ take 10 (md5_base36 s)
  shorten_digest_at s n h k = shorten_digest s (pos n) (ground arith) (ground arith)
