-- ===== src/Webhook/Labels.antt =====
-- The labels that say what a site uses: `updatePrefixedLabels` of handlers/webhook/stagingsite.go.
use kube_stager.Base.{
  Option, Bool, true, false, not, ◌&&◌, ◌||◌, none, some, List, [], ◌∷◌, ◌++◌, Text, bytes, text_eq,
  text_eq_iff, text_eq_refl, is_empty, has_prefix, has_prefix-append, if◌then◌else◌, Assoc, lookup,
  insert, remove, has_key, lookup-insert, lookup-remove, arith, ◌≡◌, refl, Option-cases, Bool-cases,
  inl, inr,
}
use kube_stager.Names.{slice_contains_string}
use kube_stager.Api.{StagingSite}

-- The loop over the keys, which deletes those with the prefix.
remove_prefixed : Text → Assoc Text → Assoc Text → Assoc Text
remove_prefixed prefix [] labels = labels
remove_prefixed prefix ((k, _) ∷ visited) labels =
    remove_prefixed prefix visited (if has_prefix prefix k then remove k labels else labels)

set_prefixed : Text → List Text → Assoc Text → Assoc Text
set_prefixed prefix [] labels = labels
set_prefixed prefix (v ∷ values) labels =
    set_prefixed prefix values
      (if is_empty v then labels else insert (prefix ++ v) (bytes "true") labels)

unfoldable pub updated_labels : Text → List Text → Assoc Text → Assoc Text
unfolding remove_prefixed set_prefixed
updated_labels prefix values labels =
    set_prefixed prefix values (remove_prefixed prefix labels labels)

unfoldable pub update_prefixed_labels : StagingSite → Text → List Text → StagingSite
unfolding updated_labels
update_prefixed_labels site prefix values = record site {
  meta = record site.meta { labels = updated_labels prefix values site.labels };
}

-- The label names one of the values behind the prefix.
unfoldable pub names_one_of : Text → List Text → Text → Bool
names_one_of prefix [] label = false
names_one_of prefix (v ∷ values) label =
    (not (is_empty v) && text_eq (prefix ++ v) label) || names_one_of prefix values label

lookup-set_prefixed :
    (prefix : Text) (values : List Text) (labels : Assoc Text) (label : Text)
    → lookup label (set_prefixed prefix values labels)
      ≡ (if names_one_of prefix values label then some (bytes "true") else lookup label labels)
unfolding set_prefixed names_one_of
lookup-set_prefixed prefix [] labels label = refl
lookup-set_prefixed prefix (v ∷ values) labels label = elim (Bool-cases (is_empty v)) [
  | inl e ↦ ground (arith, lookup-set_prefixed prefix values labels label)
  | inr e ↦ ground (
    arith,
    lookup-set_prefixed prefix values (insert (prefix ++ v) (bytes "true") labels) label,
    lookup-insert (prefix ++ v) label (bytes "true") labels,
  )
]

lookup-remove_prefixed :
    (prefix : Text) (visited labels : Assoc Text) (label : Text)
    → lookup label (remove_prefixed prefix visited labels)
      ≡ (if has_prefix prefix label && has_key label visited then none else lookup label labels)
unfolding remove_prefixed has_key
lookup-remove_prefixed prefix [] labels label = ground arith
lookup-remove_prefixed prefix ((k, v) ∷ visited) labels label =
    elim (Bool-cases (has_prefix prefix k)) [
      | inl e ↦ ground (
        arith,
        lookup-remove_prefixed prefix visited (remove k labels) label,
        lookup-remove k label labels,
        text_eq_iff k label,
      )
      | inr e ↦
          ground (arith, lookup-remove_prefixed prefix visited labels label, text_eq_iff k label)
    ]

-- Behind the prefix the updated labels are exactly those that name a value that is not empty, all
-- with the value "true"; the labels without the prefix are as before.
pub lookup-updated_labels :
    (prefix : Text) (values : List Text) (labels : Assoc Text) (label : Text)
    → lookup label (updated_labels prefix values labels) ≡ (
        if names_one_of prefix values label
        then some (bytes "true")
        else if has_prefix prefix label
        then none
        else lookup label labels)
unfolding updated_labels has_key
lookup-updated_labels prefix values labels label = ground (
  arith,
  lookup-set_prefixed prefix values (remove_prefixed prefix labels labels) label,
  lookup-remove_prefixed prefix labels labels label,
  Option-cases (lookup label labels),
)

-- What is named by a value has the prefix.
pub names_one_of-has_prefix :
    (prefix : Text) (values : List Text) (label : Text)
    → names_one_of prefix values label ≡ true
    → has_prefix prefix label ≡ true
unfolding names_one_of
names_one_of-has_prefix prefix [] label h = ground arith
names_one_of-has_prefix prefix (v ∷ values) label h = ground (
  arith,
  text_eq_iff (prefix ++ v) label,
  has_prefix-append prefix v,
  names_one_of-has_prefix prefix values label,
)

pub lookup-updated_apart :
    (prefix : Text) (values : List Text) (labels : Assoc Text) (label : Text)
    → has_prefix prefix label ≡ false
    → lookup label (updated_labels prefix values labels) ≡ lookup label labels
lookup-updated_apart prefix values labels label h = ground (
  arith,
  lookup-updated_labels prefix values labels label,
  names_one_of-has_prefix prefix values label,
)

names_one_of-contained :
    (prefix : Text) (values : List Text) (value : Text)
    → slice_contains_string values value ≡ true
    → is_empty value ≡ false
    → names_one_of prefix values (prefix ++ value) ≡ true
unfolding names_one_of slice_contains_string
names_one_of-contained prefix [] value h k = ground arith
names_one_of-contained prefix (v ∷ values) value h k = ground (
  arith,
  text_eq_iff v value,
  text_eq_refl (prefix ++ value),
  names_one_of-contained prefix values value,
)

pub lookup-updated_named :
    (prefix : Text) (values : List Text) (labels : Assoc Text) (value : Text)
    → slice_contains_string values value ≡ true
    → is_empty value ≡ false
    → lookup (prefix ++ value) (updated_labels prefix values labels) ≡ some (bytes "true")
lookup-updated_named prefix values labels value h k = ground (
  arith,
  lookup-updated_labels prefix values labels (prefix ++ value),
  names_one_of-contained prefix values value,
)

-- The site has the label with the value "true", as client.MatchingLabels selects it.
abbrev pub is_true : Option Text → Bool
is_true none = false
is_true (some value) = text_eq value (bytes "true")

unfoldable pub carries : Text → StagingSite → Bool
carries label site = is_true (lookup label site.labels)
