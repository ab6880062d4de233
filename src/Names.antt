-- ===== src/Names.antt =====
-- helpers/string_helper.go and apis/helpers.go: the names of databases, users and cluster objects.
-- `base36.Md5Base36` is third-party code: the parameter `md5_base36`. A slice `[0:10]` of its result
-- is `take 10`; it would panic on a shorter digest, so theorems on lengths assume ten bytes.
pub mod Shorten
pub mod Charset
pub mod Bounds
pub mod Slices
use kube_stager.Base.{
  ℕ, ◌-◌, Bool, false, ◌&&◌, ◌||◌, List, [], ◌∷◌, ◌++◌, map, Text, bytes, text_eq, length, take,
  leb, ltb, ◌==◌, if◌then◌else◌, ℤ, pos, ltb_ℤ, sub_ℕ, pos_part,
}
use kube_stager.Api.{StagingSite, ServiceConfig}

unfoldable pub slice_contains_string : List Text → Text → Bool
slice_contains_string [] s = false
slice_contains_string (item ∷ slice) s = text_eq item s || slice_contains_string slice s

unfoldable pub remove_string_from_slice : List Text → Text → List Text
remove_string_from_slice [] s = []
remove_string_from_slice (item ∷ slice) s =
    let rest = remove_string_from_slice slice s in if text_eq item s then rest else item ∷ rest

-- The class [a-zA-Z0-9_], whose complement `sanitiseDbValueRe` matches.
abbrev pub is_word_byte : ℕ → Bool
is_word_byte c =
    (leb b'a' c && leb c b'z')
    || (leb b'A' c && leb c b'Z')
    || (leb b'0' c && leb c b'9')
    || (c == b'_')

keep_word_bytes : Text → Text
keep_word_bytes [] = []
keep_word_bytes (c ∷ s) = let rest = keep_word_bytes s in if is_word_byte c then c ∷ rest else rest

-- strings.ReplaceAll(value, "-", "_")
dashes_to_underscores : Text → Text
dashes_to_underscores = map (λ c. if c == b'-' then b'_' else c)

unfoldable pub sanitise_db_value : Text → Text
unfolding keep_word_bytes dashes_to_underscores
sanitise_db_value value = keep_word_bytes (dashes_to_underscores value)

module _ (md5_base36 : Text → Text) where
  unfoldable pub sanitise_and_shorten_db_value : Text → ℕ → Text
  unfolding sanitise_db_value
  sanitise_and_shorten_db_value value max_length =
      let value' = sanitise_db_value value in
      if ltb max_length (length value') then take 10 (md5_base36 value') else value'

  -- `maxLength` is a Go `int`, and may be negative.
  unfoldable pub shorten_human_readable_value : Text → ℤ → Text
  shorten_human_readable_value value max_length =
      if ltb_ℤ max_length (pos (length value))
      then (if ltb_ℤ (pos 11) max_length
          then take (pos_part max_length - 11) value ++ (b'-' ∷ take 10 (md5_base36 value))
          else take 10 (md5_base36 value))
      else value

-- The suffixes of `MakeObjectName`, each behind a dash.
unfoldable pub join_suffixes : List Text → Text
join_suffixes [] = []
join_suffixes (s ∷ suffixes) = (b'-' ∷ s) ++ join_suffixes suffixes

module _ (md5_base36 : Text → Text) where
  unfoldable pub make_object_name : Text → List Text → Text
  unfolding shorten_human_readable_value join_suffixes
  make_object_name base_name suffixes =
      let suffix = join_suffixes suffixes in
      shorten_human_readable_value md5_base36 base_name (sub_ℕ 63 (length suffix)) ++ suffix

  unfoldable pub make_database_name : StagingSite → ServiceConfig → Text
  unfolding shorten_human_readable_value sanitise_db_value dashes_to_underscores
  make_database_name site service = dashes_to_underscores (
      shorten_human_readable_value md5_base36
        (sanitise_db_value site.spec.db_name ++ (b'_' ∷ sanitise_db_value service.spec.short_name))
        (pos 63))

  unfoldable pub make_username : StagingSite → ServiceConfig → Text
  unfolding sanitise_and_shorten_db_value
  make_username site service =
      sanitise_and_shorten_db_value md5_base36
        (site.spec.username ++ (b'_' ∷ service.spec.short_name)) 16

module _ (md5_base36 : Text → Text) where
  unfoldable pub make_configmap_name : StagingSite → ServiceConfig → Text → Text
  unfolding make_object_name
  make_configmap_name site service type_name =
      make_object_name md5_base36 site.name (service.spec.short_name ∷ type_name ∷ [])

  unfoldable pub make_service_name : StagingSite → ServiceConfig → Text
  unfolding make_object_name
  make_service_name site service =
      make_object_name md5_base36 site.name (service.spec.short_name ∷ [])

  unfoldable pub make_ingress_name : StagingSite → ServiceConfig → Text
  unfolding make_object_name
  make_ingress_name site service =
      make_object_name md5_base36 site.name (service.spec.short_name ∷ [])

  unfoldable pub make_deployment_name : StagingSite → ServiceConfig → Text
  unfolding make_object_name
  make_deployment_name site service =
      make_object_name md5_base36 site.name (service.spec.short_name ∷ [])

  unfoldable pub make_service_url : StagingSite → Text → Text
  unfolding make_object_name
  make_service_url site service_name =
      make_object_name md5_base36 site.name (service_name ∷ [])
      ++ (b'.' ∷ site.namespace ++ bytes ".svc.cluster.local")
