-- ===== src/Pods/Envs.antt =====
-- What helpers/pod/spec.go makes of the containers of a pod.
use mathlib.Core.List.{Perm}
use mathlib.Core.List.Perm
use kube_stager.Base.{
  true, false, Option, none, some, List, [], ◌∷◌, ◌++◌, map, Text, All, All-map, Assoc, lookup,
  arith, ◌≡◌, refl, sym, ap, ◌∙◌, subst, List-cases, inl, inr, Bool-cases,
}
use kube_stager.Api.{EnvVar, Container, PodSpec, StagingSite, StagingSiteService, ServiceConfig}
use kube_stager.Pods.{
  service_of_config, text_lt, insert_env, sort_envs, added_envs, with_envs, overridden,
  set_extra_env_vars_on_pod_spec, update_pod_spec_with_overrides,
}

-- The order of the names.
abbrev pub NotAfter : EnvVar → EnvVar → Type 0
NotAfter e f = text_lt f.name e.name ≡ false

text_lt_asym : (s t : Text) → text_lt s t ≡ true → text_lt t s ≡ false
text_lt_asym s [] h = ground arith
text_lt_asym [] (b ∷ t) h = refl
text_lt_asym (a ∷ s) (b ∷ t) h = ground (arith, text_lt_asym s t)

not_after_trans : (s t u : Text) → text_lt t s ≡ false → text_lt u t ≡ false → text_lt u s ≡ false
not_after_trans [] t u h k = elim u [ [] ↦ refl | _ ∷ _ ↦ refl ]
not_after_trans (a ∷ s) [] u h k = ground arith
not_after_trans (a ∷ s) (b ∷ t) [] h k = ground arith
not_after_trans (a ∷ s) (b ∷ t) (c ∷ u) h k = ground (arith, not_after_trans s t u)

abbrev pub IsSorted : List EnvVar → Type 0
IsSorted [] = Unit
IsSorted (e ∷ envs) = All (NotAfter e) envs × IsSorted envs

All-insert :
    (P : EnvVar → Type 0) (e : EnvVar) (envs : List EnvVar)
    → P e
    → All P envs
    → All P (insert_env e envs)
unfolding insert_env
All-insert P e [] h k = (h, tt)
All-insert P e (f ∷ envs) h k = elim (Bool-cases (text_lt f.name e.name)) [
  | inl before ↦ rw before (k.0, All-insert P e envs h k.1)
  | inr after ↦ rw after (h, k)
]

insert_env-IsSorted :
    (e : EnvVar) (envs : List EnvVar) → IsSorted envs → IsSorted (insert_env e envs)
unfolding insert_env
insert_env-IsSorted e [] h = (tt, tt)
insert_env-IsSorted e (f ∷ envs) h = elim (Bool-cases (text_lt f.name e.name)) [
  | inl before ↦ rw before (
    All-insert (NotAfter f) e envs (text_lt_asym f.name e.name before) h.0,
    insert_env-IsSorted e envs h.1,
  )
  | inr after ↦ rw after (
    (
      after,
      All-map (NotAfter f) (NotAfter e) envs (λ g k. not_after_trans e.name f.name g.name after k)
          h.0,
    ),
    h,
  )
]

sort_envs-IsSorted : (envs : List EnvVar) → IsSorted (sort_envs envs)
unfolding sort_envs
sort_envs-IsSorted [] = tt
sort_envs-IsSorted (e ∷ envs) = insert_env-IsSorted e (sort_envs envs) (sort_envs-IsSorted envs)

insert_env-perm : (e : EnvVar) (envs : List EnvVar) → Perm (insert_env e envs) (e ∷ envs)
unfolding insert_env
insert_env-perm e [] = Perm.refl (e ∷ [])
insert_env-perm e (f ∷ envs) = elim (Bool-cases (text_lt f.name e.name)) [
  | inl before ↦ rw before (Perm.trans (Perm.cons f (insert_env-perm e envs)) (Perm.swap e f envs))
  | inr after ↦ rw after (Perm.refl (e ∷ f ∷ envs))
]

sort_envs-perm : (envs : List EnvVar) → Perm (sort_envs envs) envs
unfolding sort_envs
sort_envs-perm [] = Perm.refl []
sort_envs-perm (e ∷ envs) =
    Perm.trans (insert_env-perm e (sort_envs envs)) (Perm.cons e (sort_envs-perm envs))

-- The resources that a service asks for, or else those of the config.
abbrev pub resources_of : Option Text → Text → Text
resources_of none own = own
resources_of (some resources) own = resources

-- The environment of a container: sorted, where variables are added, with the ones of the config and
-- the added ones.
abbrev pub IsEnv : Assoc Text → List EnvVar → List EnvVar → Type 0
IsEnv [] own env = env ≡ own
IsEnv (e ∷ extra) own env = IsSorted env × Perm env (own ++ added_envs (e ∷ extra))

module _ (service : StagingSiteService) where
  -- A container as a deployment has it, against that of the rendered spec.
  abbrev pub IsSetUp : Container → Container → Type 0
  IsSetUp rendered container =
      (container.name ≡ rendered.name)
      × (container.resources
          ≡ resources_of (lookup rendered.name service.resource_overrides) rendered.resources)
      × IsEnv service.extra_envs rendered.env container.env

  abbrev pub AreSetUp : List Container → List Container → Type 0
  AreSetUp [] [] = Unit
  AreSetUp (c ∷ rendered) (d ∷ containers) = IsSetUp c d × AreSetUp rendered containers
  AreSetUp _ _ = ⊥

  -- One container is set up at a time.
  abbrev step_envs : Assoc Text → Container → Container
  step_envs [] c = c
  step_envs (e ∷ extra) c = with_envs (e ∷ extra) c

  abbrev step : Container → Container
  step c = step_envs service.extra_envs (overridden (lookup c.name service.resource_overrides) c)

  overridden-IsSetUp :
      (found : Option Text) (extra : Assoc Text) (c : Container)
      → let d = step_envs extra (overridden found c) in
        (d.name ≡ c.name) × (d.resources ≡ resources_of found c.resources) × IsEnv extra c.env d.env
  unfolding with_envs
  overridden-IsSetUp none [] c = (refl, refl, refl)
  overridden-IsSetUp (some resources) [] c = (refl, refl, refl)
  overridden-IsSetUp none (e ∷ extra) c =
      let envs = c.env ++ added_envs (e ∷ extra) in
      (refl, refl, (sort_envs-IsSorted envs, sort_envs-perm envs))
  overridden-IsSetUp (some resources) (e ∷ extra) c =
      let envs = c.env ++ added_envs (e ∷ extra) in
      (refl, refl, (sort_envs-IsSorted envs, sort_envs-perm envs))

  step-AreSetUp : (cs : List Container) → AreSetUp cs (map step cs)
  step-AreSetUp [] = tt
  step-AreSetUp (c ∷ cs) = (
    overridden-IsSetUp (lookup c.name service.resource_overrides) service.extra_envs c,
    step-AreSetUp cs,
  )

map_same :
    (f : Container → Container) (cs : List Container) → ((c : Container) → f c ≡ c) → map f cs ≡ cs
map_same f [] h = refl
map_same f (c ∷ cs) h = ground (arith, map_same f cs h, h c)

map_steps :
    (f g : Container → Container) (cs : List Container) → map f (map g cs) ≡ map (λ c. f (g c)) cs
map_steps f g [] = refl
map_steps f g (c ∷ cs) = ground (arith, map_steps f g cs)

module _ (site : StagingSite) (config : ServiceConfig) where
  abbrev service : StagingSiteService
  service = service_of_config site config

  overrides_are_mapped :
      (spec : PodSpec)
      → (update_pod_spec_with_overrides spec site config).containers
        ≡ map (λ c. overridden (lookup c.name service.resource_overrides) c) spec.containers
  unfolding update_pod_spec_with_overrides
  overrides_are_mapped spec = elim (List-cases service.resource_overrides) [
    | inl e ↦ rw e (sym (map_same (λ c. overridden none c) spec.containers (λ c. refl)))
    | inr (x, xs, e) ↦ rw e refl
  ]

  envs_are_mapped :
      (spec : PodSpec)
      → (set_extra_env_vars_on_pod_spec spec site config).containers
        ≡ map (step_envs service service.extra_envs) spec.containers
  unfolding set_extra_env_vars_on_pod_spec
  envs_are_mapped spec = elim (List-cases service.extra_envs) [
    | inl e ↦ rw e (sym (map_same (λ c. c) spec.containers (λ c. refl)))
    | inr (x, xs, e) ↦ rw e refl
  ]

  -- As `createDeployment` composes the two.
  abbrev pub deployed : PodSpec → PodSpec
  deployed spec =
      set_extra_env_vars_on_pod_spec (update_pod_spec_with_overrides spec site config) site config

  -- Each container of a deployment keeps its name, and has the resources that the service of the site
  -- asks for by this name, or else its own. Where the service has extra variables, its environment is
  -- sorted by name and has exactly its own and the extra variables; else it is unchanged.
  pub containers-AreSetUp :
      (spec : PodSpec)
      → AreSetUp (service_of_config site config) spec.containers (deployed spec).containers
  containers-AreSetUp spec =
      let f = step_envs service service.extra_envs in
      let g = λ (c : Container). overridden (lookup c.name service.resource_overrides) c in
      subst (AreSetUp service spec.containers)
        (sym (
          envs_are_mapped (update_pod_spec_with_overrides spec site config)
          ∙ (ap (map f) (overrides_are_mapped spec) ∙ map_steps f g spec.containers)))
        (step-AreSetUp service spec.containers)
