-- ===== src/Names/Bounds.antt =====
-- The lengths of the names that the operator makes.
use kube_stager.Base.{
  ℕ, suc, ◌-◌, ◌≤◌, ◌<◌, ◌≡◌, refl, ap, List, [], ◌∷◌, ◌++◌, Text, length, length-append,
  length-take, take, Bool-cases, inl, inr, arith, ltb, pos, sub_ℕ, dec_lt,
}
use kube_stager.Api.{StagingSite, ServiceConfig}
use kube_stager.Names.Shorten.{shorten_fits_at, shorten_cut_at, shorten_digest_at}
use kube_stager.Names.{
  dashes_to_underscores, sanitise_db_value, sanitise_and_shorten_db_value,
  shorten_human_readable_value, join_suffixes, make_object_name, make_database_name, make_username,
  make_service_name,
}

length-dashes_to_underscores : (s : Text) → length (dashes_to_underscores s) ≡ length s
unfolding dashes_to_underscores
length-dashes_to_underscores [] = refl
length-dashes_to_underscores (c ∷ s) = ap suc (length-dashes_to_underscores s)

module _ (md5_base36 : Text → Text) (digest_long : (s : Text) → 10 ≤ length (md5_base36 s)) where
  length-digest_10 : (s : Text) → length (take 10 (md5_base36 s)) ≡ 10
  length-digest_10 s = omega (arith, length-take {0} 10 (md5_base36 s), digest_long s)

  length-cut :
      (s : Text) (n : ℕ)
      → n < length s
      → 11 < n
      → length (take (n - 11) s ++ (b'-' ∷ take 10 (md5_base36 s))) ≡ n
  length-cut s n h k = omega (
    arith,
    length-append {0} (take (n - 11) s) (b'-' ∷ take 10 (md5_base36 s)),
    length-take {0} (n - 11) s,
    length-digest_10 s,
  )

  -- If digests have at least ten bytes: a value that fits is kept; one that is too long becomes
  -- exactly as long as allowed, or ten bytes long where at most eleven are allowed.
  pub length-shorten :
      (s : Text) (n : ℕ)
      → (length s ≤ n → shorten_human_readable_value md5_base36 s (pos n) ≡ s)
        × (n < length s → 11 < n → length (shorten_human_readable_value md5_base36 s (pos n)) ≡ n)
        × (n < length s → n ≤ 11 → length (shorten_human_readable_value md5_base36 s (pos n)) ≡ 10)
  length-shorten s n = (
    shorten_fits_at md5_base36 s n,
    (λ h k. rw (shorten_cut_at md5_base36 s n h k) (length-cut s n h k)),
    (λ h k. rw (shorten_digest_at md5_base36 s n h k) (length-digest_10 s)),
  )

  length-shorten-le :
      (s : Text) (n : ℕ) → 10 ≤ n → length (shorten_human_readable_value md5_base36 s (pos n)) ≤ n
  length-shorten-le s n h = elim (dec_lt n (length s)) [
    | no fits ↦ rw (shorten_fits_at md5_base36 s n (omega arith)) (omega arith)
    | yes long ↦ elim (dec_lt 11 n) [
      | yes large ↦ omega (arith, (length-shorten s n).1 long large)
      | no small ↦ omega (arith, (length-shorten s n).2 long (omega arith))
    ]
  ]

  -- If digests have at least ten bytes and the suffixes with their dashes at most 53, an object's
  -- name has at most 63 bytes, the limit of a label.
  pub make_object_name-le :
      (base_name : Text) (suffixes : List Text)
      → length (join_suffixes suffixes) ≤ 53
      → length (make_object_name md5_base36 base_name suffixes) ≤ 63
  unfolding make_object_name
  make_object_name-le base_name suffixes h =
      let l = length (join_suffixes suffixes) in
      let e : sub_ℕ 63 l ≡ pos (63 - l) = ground arith in
      rw e (
        omega (
          arith,
          length-append {0} (shorten_human_readable_value md5_base36 base_name (pos (63 - l)))
              (join_suffixes suffixes),
          length-shorten-le base_name (63 - l) (omega arith),
        ))

  -- If digests have at least ten bytes and the short name at most nine, as the service config's
  -- schema asks, the name of a service, an ingress or a deployment has at most 63 bytes.
  pub make_service_name-le :
      (site : StagingSite) (service : ServiceConfig)
      → length service.spec.short_name ≤ 9
      → length (make_service_name md5_base36 site service) ≤ 63
  unfolding make_service_name join_suffixes
  make_service_name-le site service h =
      make_object_name-le site.name (service.spec.short_name ∷ [])
        (omega (arith, length-append {0} service.spec.short_name []))

  -- If digests have at least ten bytes, a database name has at most 63 bytes.
  pub make_database_name-le :
      (site : StagingSite) (service : ServiceConfig)
      → length (make_database_name md5_base36 site service) ≤ 63
  unfolding make_database_name
  make_database_name-le site service = rw length-dashes_to_underscores (
      length-shorten-le
        (sanitise_db_value site.spec.db_name ++ (b'_' ∷ sanitise_db_value service.spec.short_name))
        63 (omega arith))

  length-shorten_db_value :
      (s : Text) (n : ℕ) → 10 ≤ n → length (sanitise_and_shorten_db_value md5_base36 s n) ≤ n
  unfolding sanitise_and_shorten_db_value
  length-shorten_db_value s n h = elim (Bool-cases (ltb n (length (sanitise_db_value s)))) [
    | inl long ↦ rw long (omega (arith, length-digest_10 (sanitise_db_value s)))
    | inr fits ↦ rw fits (ground arith)
  ]

  -- If digests have at least ten bytes, a user name has at most 16 bytes.
  pub make_username-le :
      (site : StagingSite) (service : ServiceConfig)
      → length (make_username md5_base36 site service) ≤ 16
  unfolding make_username
  make_username-le site service =
      length-shorten_db_value (site.spec.username ++ (b'_' ∷ service.spec.short_name)) 16
        (omega arith)
