-- ===== src/Names/Charset.antt =====
-- The bytes of database names and user names: letters, digits and underscores only.
use kube_stager.Base.{
  ℕ, ◌≡◌, refl, true, [], ◌∷◌, ◌++◌, Text, All, All-append, All-take, take, length, Bool-cases, inl,
  inr, arith, ltb, pos, dec_lt, ◌-◌, ◌==◌, if◌then◌else◌,
}
use kube_stager.Api.{StagingSite, ServiceConfig}
use kube_stager.Names.Shorten.{shorten_fits_at, shorten_cut_at, shorten_digest_at}
use kube_stager.Names.{
  is_word_byte, keep_word_bytes, dashes_to_underscores, sanitise_db_value,
  sanitise_and_shorten_db_value, shorten_human_readable_value, make_database_name, make_username,
}

abbrev pub IsWord : Text → Type 0
IsWord s = All (λ c. is_word_byte c ≡ true) s

-- Word bytes and dashes.
abbrev IsDashedWord : Text → Type 0
IsDashedWord s = All (λ c. is_word_byte (if c == b'-' then b'_' else c) ≡ true) s

IsWord-keep_word_bytes : (s : Text) → IsWord (keep_word_bytes s)
unfolding keep_word_bytes
IsWord-keep_word_bytes [] = tt
IsWord-keep_word_bytes (c ∷ s) = elim (Bool-cases (is_word_byte c)) [
  | inl word ↦ rw word (word, IsWord-keep_word_bytes s)
  | inr other ↦ rw other (IsWord-keep_word_bytes s)
]

-- What is sanitised has letters, digits and underscores only.
pub IsWord-sanitise : (s : Text) → IsWord (sanitise_db_value s)
unfolding sanitise_db_value
IsWord-sanitise s = IsWord-keep_word_bytes (dashes_to_underscores s)

word_is_dashed :
    (c : ℕ) → is_word_byte c ≡ true → is_word_byte (if c == b'-' then b'_' else c) ≡ true
word_is_dashed c h = ground arith

IsDashedWord-of_IsWord : (s : Text) → IsWord s → IsDashedWord s
IsDashedWord-of_IsWord [] h = tt
IsDashedWord-of_IsWord (c ∷ s) h = (word_is_dashed c h.0, IsDashedWord-of_IsWord s h.1)

IsWord-dashes_to_underscores : (s : Text) → IsDashedWord s → IsWord (dashes_to_underscores s)
unfolding dashes_to_underscores
IsWord-dashes_to_underscores [] h = tt
IsWord-dashes_to_underscores (c ∷ s) h = (h.0, IsWord-dashes_to_underscores s h.1)

module _ (md5_base36 : Text → Text) (digest-IsWord : (s : Text) → IsWord (md5_base36 s)) where
  digest_10 : (s : Text) → IsWord (take 10 (md5_base36 s))
  digest_10 s = All-take (λ c. is_word_byte c ≡ true) 10 (md5_base36 s) (digest-IsWord s)

  IsDashedWord-cut :
      (s : Text) (k : ℕ) → IsWord s → IsDashedWord (take k s ++ (b'-' ∷ take 10 (md5_base36 s)))
  IsDashedWord-cut s k h =
      All-append (λ c. is_word_byte (if c == b'-' then b'_' else c) ≡ true) (take k s)
        (b'-' ∷ take 10 (md5_base36 s))
        (IsDashedWord-of_IsWord _ (All-take (λ c. is_word_byte c ≡ true) k s h))
        (refl, IsDashedWord-of_IsWord _ (digest_10 s))

  IsDashedWord-shorten :
      (s : Text) (n : ℕ)
      → IsWord s
      → IsDashedWord (shorten_human_readable_value md5_base36 s (pos n))
  IsDashedWord-shorten s n h = elim (dec_lt n (length s)) [
    | no fits ↦ rw (shorten_fits_at md5_base36 s n (omega arith)) (IsDashedWord-of_IsWord s h)
    | yes long ↦ elim (dec_lt 11 n) [
      | yes large ↦ rw (shorten_cut_at md5_base36 s n long large) (IsDashedWord-cut s (n - 11) h)
      | no small ↦
          rw (shorten_digest_at md5_base36 s n long (omega arith))
            (IsDashedWord-of_IsWord _ (digest_10 s))
    ]
  ]

  -- If digests are made of letters and digits, every database name has letters, digits and
  -- underscores only, whatever the name in the site's spec and the service's short name.
  pub IsWord-make_database_name :
      (site : StagingSite) (service : ServiceConfig)
      → IsWord (make_database_name md5_base36 site service)
  unfolding make_database_name
  IsWord-make_database_name site service = IsWord-dashes_to_underscores _ (
      IsDashedWord-shorten _ 63 (
        All-append (λ c. is_word_byte c ≡ true) (sanitise_db_value site.spec.db_name) _
          (IsWord-sanitise site.spec.db_name) (refl, IsWord-sanitise service.spec.short_name)))

  IsWord-shorten_db_value :
      (s : Text) (n : ℕ) → IsWord (sanitise_and_shorten_db_value md5_base36 s n)
  unfolding sanitise_and_shorten_db_value
  IsWord-shorten_db_value s n = elim (Bool-cases (ltb n (length (sanitise_db_value s)))) [
    | inl long ↦ rw long (digest_10 (sanitise_db_value s))
    | inr fits ↦ rw fits (IsWord-sanitise s)
  ]

  -- If digests are made of letters and digits, every user name has letters, digits and underscores
  -- only, whatever the user name in the site's spec and the service's short name.
  pub IsWord-make_username :
      (site : StagingSite) (service : ServiceConfig)
      → IsWord (make_username md5_base36 site service)
  unfolding make_username
  IsWord-make_username site service =
      IsWord-shorten_db_value (site.spec.username ++ (b'_' ∷ service.spec.short_name)) 16
