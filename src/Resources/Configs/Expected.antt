-- ===== src/Resources/Configs/Expected.antt =====
-- What the two loops of `ensureConfigmapsAreUpToDate` of handlers/site/config_handler.go expect.
use kube_stager.Base.{
  Bool, false, ◌&&◌, ◌||◌, ◌==◌, Option, none, some, [], ◌∷◌, Text, text_eq, text_eq→eq,
  text_eq_refl, Assoc, lookup, insert, lookup-insert, has_key, first_of, AreUnique,
  insert-AreUnique, arith, ◌≡◌, refl, inl, inr, ap, ◌∙◌, sym, subst, All, Bool-cases,
}
use kube_stager.Api.{StagingSite, StagingSiteService, ServiceConfig, ConfigMap}
use kube_stager.Controller.{Result, ok, ◌>>=◌, Result-cases}
use kube_stager.Resources.{ResourceApi}
use kube_stager.Resources.Configs.{
  make_configmap_key, create_config_map, expected_of_config, expected_config_maps,
}

abbrev pub has_dot : Text → Bool
has_dot [] = false
has_dot (c ∷ s) = (c == b'.') || has_dot s

-- Of services without dots in their names the keys tell the service and the type.
key_eq :
    (s s' t t' : Text)
    → has_dot s ≡ false
    → has_dot s' ≡ false
    → text_eq (make_configmap_key s t) (make_configmap_key s' t') ≡ text_eq s s' && text_eq t t'
key_eq [] [] t t' h h' = refl
key_eq [] (b ∷ s') t t' h h' = ground arith
key_eq (a ∷ s) [] t t' h h' = ground arith
key_eq (a ∷ s) (b ∷ s') t t' h h' = ground (arith, key_eq s s' t t')

module _ (api : ResourceApi ConfigMap) (site : StagingSite) where
  -- The config map that is asked for by a config and the data that it has for a type.
  abbrev pub made_of : ServiceConfig → Text → Option (Assoc Text) → Result (Option ConfigMap)
  made_of config t none = ok none
  made_of config t (some entries) =
      create_config_map api site config t entries >>= λ made. ok (some made)

  -- The config map that a service asks for under a type: none where the site does not have it.
  abbrev pub asked : Text → Text → Option StagingSiteService → Result (Option ConfigMap)
  asked s t none = ok none
  asked s t (some _) =
      api.get_service_config s >>= λ config. made_of config t (lookup t config.spec.config_maps)

  expected_of_config-AreUnique :
      (config : ServiceConfig) (maps : Assoc (Assoc Text)) (before after : Assoc ConfigMap)
      → expected_of_config api site config maps before ≡ ok after
      → AreUnique before
      → AreUnique after
  unfolding expected_of_config
  expected_of_config-AreUnique config [] before after h unique = ground (arith, unique)
  expected_of_config-AreUnique config ((t, entries) ∷ maps) before after h unique =
      elim (Result-cases (create_config_map api site config t entries)) [
        | inr (x, e) ↦ ground arith
        | inl (made, e) ↦
            expected_of_config-AreUnique config maps
              (insert (make_configmap_key config.name t) made before) after (ground arith)
              (insert-AreUnique (make_configmap_key config.name t) made before unique)
      ]

  pub expected_config_maps-AreUnique :
      (services : Assoc StagingSiteService) (before after : Assoc ConfigMap)
      → expected_config_maps api site services before ≡ ok after
      → AreUnique before
      → AreUnique after
  unfolding expected_config_maps
  expected_config_maps-AreUnique [] before after h unique = ground (arith, unique)
  expected_config_maps-AreUnique ((name, _) ∷ services) before after h unique =
      elim (Result-cases (api.get_service_config name)) [
        | inr (x, e) ↦ ground arith
        | inl (config, e) ↦
            elim (Result-cases
              (expected_of_config api site config config.spec.config_maps before)) [
                | inr (x, e') ↦ ground arith
                | inl (mid, e') ↦ expected_config_maps-AreUnique services mid after (ground arith) (
                    expected_of_config-AreUnique config config.spec.config_maps before mid e'
                      unique)
              ]
      ]

  -- The config maps of a service stand under its keys, and leave those of other services alone.
  expected_of_config-own :
      (config : ServiceConfig) (t : Text) (maps : Assoc (Assoc Text))
      (before after : Assoc ConfigMap)
      → expected_of_config api site config maps before ≡ ok after
      → has_dot config.name ≡ false
      → AreUnique maps
      → (w : Option ConfigMap) × (made_of config t (lookup t maps) ≡ ok w)
        × (lookup (make_configmap_key config.name t) after
            ≡ first_of w (lookup (make_configmap_key config.name t) before))
  unfolding expected_of_config has_key
  expected_of_config-own config t [] before after h dotless unique = (none, refl, ground arith)
  expected_of_config-own config t ((u, entries) ∷ maps) before after h dotless unique =
      let key = make_configmap_key config.name u in
      let keys = key_eq config.name config.name u t dotless dotless in
      elim (Result-cases (create_config_map api site config u entries)) [
        | inr (x, e) ↦ ground arith
        | inl (made, e) ↦
            let (w, asks, found) =
              expected_of_config-own config t maps (insert key made before) after (ground arith)
                dotless unique.1 in
            let entry = lookup-insert key (make_configmap_key config.name t) made before in
            elim (Bool-cases (text_eq u t)) [
              | inl same ↦
                  let eq = text_eq→eq u t same in
                  let made_here =
                    ap (λ v. create_config_map api site config v entries) (sym eq) ∙ e in
                  let later : lookup t maps ≡ none = ground (arith, eq, unique.0) in
                  (
                    some made,
                    rw same (rw made_here refl),
                    ground (
                      arith,
                      found,
                      entry,
                      keys,
                      text_eq_refl config.name,
                      sym asks ∙ ap (made_of config t) later,
                    ),
                  )
              | inr other ↦
                  (w, rw other asks, ground (arith, found, entry, keys, text_eq_refl config.name))
            ]
      ]

  expected_of_config-other :
      (config : ServiceConfig) (s t : Text) (maps : Assoc (Assoc Text))
      (before after : Assoc ConfigMap)
      → expected_of_config api site config maps before ≡ ok after
      → has_dot config.name ≡ false
      → has_dot s ≡ false
      → text_eq config.name s ≡ false
      → lookup (make_configmap_key s t) after ≡ lookup (make_configmap_key s t) before
  unfolding expected_of_config
  expected_of_config-other config s t [] before after h dotless dotless' other = ground arith
  expected_of_config-other config s t ((u, entries) ∷ maps) before after h dotless dotless' other =
      let key = make_configmap_key config.name u in
      elim (Result-cases (create_config_map api site config u entries)) [
        | inr (x, e) ↦ ground arith
        | inl (made, e) ↦ ground (
          arith,
          expected_of_config-other config s t maps (insert key made before) after (ground arith)
              dotless dotless' other,
          lookup-insert key (make_configmap_key s t) made before,
          key_eq config.name s u t dotless dotless',
        )
      ]

  -- A config is found under its name, and names each type once.
  abbrev pub AreNamed : Type 0
  AreNamed =
      (name : Text) (config : ServiceConfig)
      → api.get_service_config name ≡ ok config
      → (config.name ≡ name) × AreUnique config.spec.config_maps

  pub expected_config_maps-asked :
      (s t : Text) (services : Assoc StagingSiteService) (before after : Assoc ConfigMap)
      → AreNamed
      → has_dot s ≡ false
      → All (λ (entry : Text × StagingSiteService). has_dot entry.0 ≡ false) services
      → AreUnique services
      → expected_config_maps api site services before ≡ ok after
      → (w : Option ConfigMap) × (asked s t (lookup s services) ≡ ok w)
        × (lookup (make_configmap_key s t) after
            ≡ first_of w (lookup (make_configmap_key s t) before))
  unfolding expected_config_maps has_key
  expected_config_maps-asked s t [] before after named dotless all unique h =
      (none, refl, ground arith)
  expected_config_maps-asked s t ((name, service) ∷ services) before after named dotless all unique
        h =
      elim (Result-cases (api.get_service_config name)) [
        | inr (x, e) ↦ ground arith
        | inl (config, e) ↦
            elim (Result-cases
              (expected_of_config api site config config.spec.config_maps before)) [
                | inr (x, e') ↦ ground arith
                | inl (mid, e') ↦
                    let (w, asks, found) =
                      expected_config_maps-asked s t services mid after named dotless all.1 unique.1
                        (ground arith) in
                    let (same_name, unique_types) = named name config e in
                    let dotless' : has_dot config.name ≡ false = rw same_name (all.0) in
                    elim (Bool-cases (text_eq name s)) [
                      | inr other ↦ (
                        w,
                        rw other asks,
                        found
                            ∙ ap (first_of w) (
                                expected_of_config-other config s t config.spec.config_maps before
                                  mid e' dotless' dotless (rw same_name other)),
                      )
                      | inl same ↦
                          let eq = text_eq→eq name s same in
                          let (own, asks', found') =
                            expected_of_config-own config t config.spec.config_maps before mid e'
                              dotless' unique_types in
                          let later : lookup s services ≡ none = ground (arith, eq, unique.0) in
                          let config_here = ap api.get_service_config (sym eq) ∙ e in
                          let none_later = ap (asked s t) (sym later) ∙ asks in
                          let name_here = same_name ∙ eq in
                          (
                            own,
                            rw same (rw config_here asks'),
                            ground (
                              arith,
                              found,
                              none_later,
                              subst
                                  (λ n.
                                    lookup (make_configmap_key n t) mid
                                    ≡ first_of own (lookup (make_configmap_key n t) before))
                                  name_here found',
                            ),
                          )
                    ]
              ]
      ]
