-- ===== src/Templates/Found.antt =====
-- The templates that GetUnresolvedTemplatesFromString of helpers/template.go finds.
use kube_stager.Base.{
  Bool, true, false, ◌&&◌, ◌||◌, some, List, [], ◌∷◌, ◌++◌, Text, bytes, ◌==◌, if◌then◌else◌,
  is_some, All, arith, ◌≡◌, refl, inl, inr, Option-cases, Bool-cases, ◌≢◌, ◌↔◌, List-cases, ap,
}
use kube_stager.Names.{slice_contains_string}
use kube_stager.Templates.{
  is_name_byte, close_at, template_at, find_skipping, find_all, unique_from, variable,
  get_unresolved_templates_from_string,
}

-- Some suffix of the text starts with a template.
has_template : Text → Bool
has_template [] = false
has_template (c ∷ s) = is_some (template_at (c ∷ s)) || has_template s

find_all_nil : (s : Text) → find_skipping 0 s ≡ [] → has_template s ≡ false
unfolding find_skipping has_template
find_all_nil [] h = refl
find_all_nil (c ∷ s) h = elim (Option-cases (template_at (c ∷ s))) [
  | inl e ↦ ground (arith, find_all_nil s)
  | inr (t, e) ↦ ground arith
]

find_all_of_none : (s : Text) → has_template s ≡ false → find_skipping 0 s ≡ []
unfolding find_skipping has_template
find_all_of_none [] h = refl
find_all_of_none (c ∷ s) h = elim (Option-cases (template_at (c ∷ s))) [
  | inl e ↦ ground (arith, find_all_of_none s)
  | inr (t, e) ↦ ground arith
]

-- The bytes that a variable's name may have.
abbrev pub IsName : Text → Type 0
IsName name = All (λ c. is_name_byte c ≡ true) name

close_at_name :
    (name post : Text) → IsName name → is_some (close_at ((name ++ bytes "}") ++ post)) ≡ true
unfolding close_at
close_at_name [] post h = refl
close_at_name (c ∷ name) post h =
    ground
      (arith, close_at_name name post h.1, Option-cases (close_at ((name ++ bytes "}") ++ post)))

template_at-variable :
    (name post : Text)
    → name ≢ []
    → IsName name
    → is_some (template_at (variable name ++ post)) ≡ true
unfolding template_at
template_at-variable [] post h k = ground arith
template_at-variable (c ∷ name) post h k =
    ground (
      arith,
      k.0,
      close_at_name name post k.1,
      Option-cases (close_at ((name ++ bytes "}") ++ post)),
    )

has_template-variable :
    (pre name post : Text)
    → name ≢ []
    → IsName name
    → has_template (pre ++ (variable name ++ post)) ≡ true
unfolding has_template
has_template-variable [] name post h k = ground (arith, template_at-variable name post h k)
has_template-variable (c ∷ pre) name post h k =
    ground (arith, has_template-variable pre name post h k)

unique_from_nil :
    (list slice : List Text) → unique_from list slice ≡ [] → (list ≡ []) × (slice ≡ [])
unfolding unique_from slice_contains_string
unique_from_nil list [] h = (h, refl)
unique_from_nil list (t ∷ slice) h = ground (
  arith,
  unique_from_nil (if slice_contains_string list t then list else list ++ (t ∷ [])) slice h,
  List-cases list,
)

-- `${name}` stands somewhere in the text, for a name of the bytes that the names of variables have.
abbrev pub Occurs : Text → Type 0
Occurs s =
    (pre : Text) × (name : Text) × (post : Text) × (name ≢ [])
    × IsName name
    × (s ≡ pre ++ (variable name ++ post))

close_at-inverts :
    (s t : Text)
    → close_at s ≡ some t
    → (name : Text) × (post : Text) × IsName name × (s ≡ (name ++ bytes "}") ++ post)
unfolding close_at
close_at-inverts [] t h = ground arith
close_at-inverts (c ∷ s) t h = elim (Bool-cases (c == b'}')) [
  | inl e ↦ ([], s, tt, ground arith)
  | inr e ↦ elim (Bool-cases (is_name_byte c)) [
    | inr e' ↦ ground arith
    | inl e' ↦ elim (Option-cases (close_at s)) [
      | inl e'' ↦ ground arith
      | inr (t', e'') ↦
          let (name, post, named, same) = close_at-inverts s t' e'' in
          (c ∷ name, post, (e', named), ap (◌∷◌ c) same)
    ]
  ]
]

template_at-inverts :
    (s t : Text)
    → template_at s ≡ some t
    → (name : Text) × (post : Text) × (name ≢ []) × IsName name × (s ≡ variable name ++ post)
unfolding template_at
template_at-inverts [] t h = ground arith
template_at-inverts (d ∷ []) t h = ground arith
template_at-inverts (d ∷ b ∷ []) t h = ground arith
template_at-inverts (d ∷ b ∷ c ∷ s) t h =
    elim (Bool-cases ((d == b'$') && ((b == b'{') && is_name_byte c))) [
      | inr e ↦ ground arith
      | inl e ↦ elim (Option-cases (close_at s)) [
        | inl e' ↦ ground arith
        | inr (t', e') ↦
            let (name, post, named, same) = close_at-inverts s t' e' in
            (c ∷ name, post, λ k. ground arith, (ground arith, named), ground arith)
      ]
    ]

has_template-inverts : (s : Text) → has_template s ≡ true → Occurs s
unfolding has_template
has_template-inverts [] h = ground arith
has_template-inverts (c ∷ s) h = elim (Option-cases (template_at (c ∷ s))) [
  | inr (t, e) ↦
      let (name, post, nonempty, named, same) = template_at-inverts (c ∷ s) t e in
      ([], name, post, nonempty, named, same)
  | inl e ↦
      let (pre, name, post, nonempty, named, same) = has_template-inverts s (ground arith) in
      (c ∷ pre, name, post, nonempty, named, ap (◌∷◌ c) same)
]

pub found_of_Occurs : (s : Text) → Occurs s → get_unresolved_templates_from_string s ≢ []
unfolding get_unresolved_templates_from_string find_all
found_of_Occurs s (pre, name, post, nonempty, named, same) h =
    let none_found = find_all_nil s (unique_from_nil [] (find_skipping 0 s) h).1 in
    ground (arith, ap has_template same, has_template-variable pre name post nonempty named)

Occurs-of_found : (s : Text) → get_unresolved_templates_from_string s ≢ [] → Occurs s
unfolding get_unresolved_templates_from_string find_all unique_from
Occurs-of_found s h = elim (Bool-cases (has_template s)) [
  | inl e ↦ has_template-inverts s e
  | inr e ↦ ground (arith, find_all_of_none s e)
]

-- The search for unresolved templates finds one exactly where `${name}` stands somewhere in the text
-- for a name that is not empty and has letters, digits, dots, dashes and underscores only.
pub found_iff_Occurs : (s : Text) → (get_unresolved_templates_from_string s ≢ []) ↔ Occurs s
found_iff_Occurs s = (Occurs-of_found s, found_of_Occurs s)
