-- ===== src/Templates/Resolved.antt =====
-- ReplaceTemplateVariablesInStringMap and the replacement in specs of helpers/template.go.
use kube_stager.Base.{
  is_nil, Bool, true, none, some, List, [], ◌∷◌, Text, text_eq, Assoc, lookup, insert,
  lookup-insert, has_key, arith, ◌≡◌, ◌⊎◌, inl, inr, Option-cases, Bool-cases, List-cases,
}
use kube_stager.Templates.{
  replace_entries, replace_template_variables_in_string_map, replace_template_variables_in_string,
  get_unresolved_templates_from_string,
}
use kube_stager.Templates.Found.{Occurs, found_of_Occurs}

-- The value of the key, if it has one, holds no template.
is_resolved : Assoc Text → Text → Bool
is_resolved m k = elim (lookup k m) [
  | none ↦ true
  | some v ↦ is_nil (get_unresolved_templates_from_string v)
]

insert-is_resolved :
    (m : Assoc Text) (k j v : Text)
    → get_unresolved_templates_from_string v ≡ []
    → (text_eq k j ≡ true) ⊎ (is_resolved m j ≡ true)
    → is_resolved (insert k v m) j ≡ true
unfolding is_resolved
insert-is_resolved m k j v h settled =
    ground (arith, lookup-insert k j v m, Bool-cases (text_eq k j), Option-cases (lookup j m))

module _ (entity : Text) (templates : List (Assoc Text)) where
  replace_entries-is_resolved :
      (entries m result : Assoc Text)
      → replace_entries entity templates entries m ≡ (result, none)
      → (k : Text) → (has_key k entries ≡ true) ⊎ (is_resolved m k ≡ true)
      → is_resolved result k ≡ true
  unfolding replace_entries has_key
  replace_entries-is_resolved [] m result h k settled = ground arith
  replace_entries-is_resolved ((j, s) ∷ entries) m result h k settled =
      let replaced = replace_template_variables_in_string s templates in
      elim (List-cases (get_unresolved_templates_from_string replaced)) [
        | inr (t, ts, e) ↦ ground arith
        | inl e ↦
            replace_entries-is_resolved entries (insert j replaced m) result (ground arith) k
              (elim (Bool-cases (has_key k entries)) [
                | inl later ↦ inl later
                | inr other ↦ inr (insert-is_resolved m j k replaced e (ground arith))
              ])
      ]

  replaced-is_resolved :
      (m result : Assoc Text)
      → replace_template_variables_in_string_map m entity templates ≡ (result, none)
      → (k : Text) → is_resolved result k ≡ true
  unfolding replace_template_variables_in_string_map is_resolved has_key
  replaced-is_resolved m result h k =
      replace_entries-is_resolved m m result h k (elim (Option-cases (lookup k m)) [
        | inl e ↦ inr (ground arith)
        | inr (v, e) ↦ inl (ground arith)
      ])

  -- Where the replacement in a map of strings returns no error, no value of the map that it returns
  -- holds a template.
  pub replaced_map_is_resolved :
      (m result : Assoc Text) (k v : Text)
      → replace_template_variables_in_string_map m entity templates ≡ (result, none)
      → lookup k result ≡ some v
      → ¬ Occurs v
  unfolding is_resolved
  replaced_map_is_resolved m result k v h found occurs = ground (
    arith,
    replaced-is_resolved m result h k,
    List-cases (get_unresolved_templates_from_string v),
    found_of_Occurs v occurs,
  )
