-- ===== src/Templates.antt =====
-- Template variables in texts: helpers/template.go.
pub mod Found
pub mod Resolved
pub mod Values
use kube_stager.Base.{
  ℕ, ◌-◌, Bool, true, false, ◌&&◌, ◌||◌, Option, none, some, List, [], ◌∷◌, ◌++◌, Text, bytes,
  length, leb, ◌==◌, has_prefix, if◌then◌else◌, Assoc, insert, zero, suc,
}
use kube_stager.Names.{slice_contains_string}
use kube_stager.Controller.{
  Result, ok, err, ◌>>=◌, Error, controller_error, unresolved_templates_error,
}

-- strings.ReplaceAll for an `old` that is not empty. The number counts the bytes of a match that are
-- still to be skipped.
replace_skipping : Text → Text → ℕ → Text → Text
replace_skipping old new skip [] = []
replace_skipping old new (suc skip) (c ∷ s) = replace_skipping old new skip s
replace_skipping old new zero (c ∷ s) = elim (has_prefix old (c ∷ s)) [
  | true ↦ new ++ replace_skipping old new (length old - 1) s
  | false ↦ c ∷ replace_skipping old new 0 s
]

unfoldable pub replace_all : Text → Text → Text → Text
unfolding replace_skipping
replace_all s old new = replace_skipping old new 0 s

-- "${" + name + "}"
abbrev pub variable : Text → Text
variable name = b'$' ∷ b'{' ∷ name ++ bytes "}"

-- The getters are given by the maps that they return.
unfoldable pub replace_values : Text → Assoc Text → Text
unfolding replace_all
replace_values s [] = s
replace_values s ((name, value) ∷ values) =
    replace_values (replace_all s (variable name) value) values

unfoldable pub replace_template_variables_in_string : Text → List (Assoc Text) → Text
unfolding replace_values
replace_template_variables_in_string s [] = s
replace_template_variables_in_string s (values ∷ templates) =
    replace_template_variables_in_string (replace_values s values) templates

names_of : Assoc Text → List Text
names_of [] = []
names_of ((name, _) ∷ values) = name ∷ names_of values

unfoldable pub get_template_variables : List (Assoc Text) → List Text
unfolding names_of
get_template_variables [] = []
get_template_variables (values ∷ templates) = names_of values ++ get_template_variables templates

-- The class [-_a-zA-Z0-9.] of the regular expression of the templates.
abbrev pub is_name_byte : ℕ → Bool
is_name_byte c =
    (c == b'-')
    || (c == b'_')
    || (c == b'.')
    || (leb b'a' c && leb c b'z')
    || (leb b'A' c && leb c b'Z')
    || (leb b'0' c && leb c b'9')

-- The bytes of the class up to the closing brace, with it.
unfoldable pub close_at : Text → Option Text
close_at [] = none
close_at (c ∷ s) = elim (c == b'}') [
  | true ↦ some (bytes "}")
  | false ↦ elim (is_name_byte c) [
    | false ↦ none
    | true ↦ elim (close_at s) [ none ↦ none | some t ↦ some (c ∷ t) ]
  ]
]

-- The match of the regular expression at the start of a text.
unfoldable pub template_at : Text → Option Text
unfolding close_at
template_at (d ∷ b ∷ c ∷ s) = elim ((d == b'$') && ((b == b'{') && is_name_byte c)) [
  | false ↦ none
  | true ↦ elim (close_at s) [ none ↦ none | some t ↦ some (d ∷ b ∷ c ∷ t) ]
]
template_at _ = none

-- FindAllString: the matches from left to right, none within another.
find_skipping : ℕ → Text → List Text
unfolding template_at
find_skipping skip [] = []
find_skipping (suc skip) (c ∷ s) = find_skipping skip s
find_skipping zero (c ∷ s) = elim (template_at (c ∷ s)) [
  | none ↦ find_skipping 0 s
  | some t ↦ t ∷ find_skipping (length t - 1) s
]

unfoldable pub find_all : Text → List Text
unfolding find_skipping
find_all s = find_skipping 0 s

-- The loop that makes the list unique; the map of the keys has the entries of the list.
unfoldable pub unique_from : List Text → List Text → List Text
unfolding slice_contains_string
unique_from list [] = list
unique_from list (entry ∷ slice) =
    unique_from (if slice_contains_string list entry then list else list ++ (entry ∷ [])) slice

unfoldable pub get_unresolved_templates_from_string : Text → List Text
unfolding find_all unique_from
get_unresolved_templates_from_string s = unique_from [] (find_all s)

unresolved : List Text → List (Assoc Text) → Text → Error
unfolding get_template_variables
unresolved found templates entity =
    controller_error (unresolved_templates_error found (get_template_variables templates) entity [])

-- The loop over the entries, and the map that it writes to.
unfoldable pub replace_entries :
    Text → List (Assoc Text) → Assoc Text → Assoc Text → Assoc Text × Option Error
unfolding replace_template_variables_in_string get_unresolved_templates_from_string unresolved
replace_entries entity templates [] m = (m, none)
replace_entries entity templates ((k, s) ∷ entries) m =
    let replaced = replace_template_variables_in_string s templates in
    elim (get_unresolved_templates_from_string replaced) [
      | [] ↦ replace_entries entity templates entries (insert k replaced m)
      | t ∷ ts ↦ (insert k replaced m, some (unresolved (t ∷ ts) templates entity))
    ]

unfoldable pub replace_template_variables_in_string_map :
    Assoc Text → Text → List (Assoc Text) → Assoc Text × Option Error
unfolding replace_entries
replace_template_variables_in_string_map m entity templates = replace_entries entity templates m m

-- yaml.Marshal, and yaml.Unmarshal onto a value that is there.
pub record Yaml (S : Type 0) : Type 0 where
  pub marshal : S → Result Text
  pub unmarshal : Text → S → Result S

module _ {S : Type 0} (yaml : Yaml S) where
  checked_text : Text → List (Assoc Text) → Text → Result Text
  unfolding get_unresolved_templates_from_string unresolved
  checked_text entity templates replaced = elim (get_unresolved_templates_from_string replaced) [
    | [] ↦ ok replaced
    | t ∷ ts ↦ err (unresolved (t ∷ ts) templates entity)
  ]

  unfoldable pub replace_in_spec : Text → S → List (Assoc Text) → Result S
  unfolding replace_template_variables_in_string checked_text
  replace_in_spec entity spec templates = yaml.marshal spec >>= λ marshalled.
      checked_text entity templates (replace_template_variables_in_string marshalled templates)
      >>= λ replaced. yaml.unmarshal replaced spec

  unfoldable pub replace_template_variables_in_pod_spec : S → List (Assoc Text) → Result S
  unfolding replace_in_spec
  replace_template_variables_in_pod_spec = replace_in_spec (bytes "pod spec")

  unfoldable pub replace_template_variables_in_service_spec : S → List (Assoc Text) → Result S
  unfolding replace_in_spec
  replace_template_variables_in_service_spec = replace_in_spec (bytes "service spec")

  unfoldable pub replace_template_variables_in_ingress_spec : S → List (Assoc Text) → Result S
  unfolding replace_in_spec
  replace_template_variables_in_ingress_spec = replace_in_spec (bytes "ingress spec")
