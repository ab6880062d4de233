-- ===== src/Pods.antt =====
-- helpers/pod/spec.go.
pub mod Envs
use kube_stager.Base.{
  Bool, true, false, ◌&&◌, ◌||◌, ◌==◌, ltb, Option, none, some, List, [], ◌∷◌, ◌++◌, map, Text,
  is_nil, Assoc, lookup, if◌then◌else◌,
}
use kube_stager.Api.{
  EnvVar, Container, PodSpec, StagingSite, StagingSiteService, service_or_zero, ServiceConfig,
}

-- `<` of Go's strings.
abbrev pub text_lt : Text → Text → Bool
text_lt s [] = false
text_lt [] (b ∷ t) = true
text_lt (a ∷ s) (b ∷ t) = ltb a b || (a == b) && text_lt s t

-- sort.Slice by name, which for as many entries as an environment has is an insertion sort.
unfoldable pub insert_env : EnvVar → List EnvVar → List EnvVar
insert_env e [] = e ∷ []
insert_env e (f ∷ envs) =
    let rest = insert_env e envs in if text_lt f.name e.name then f ∷ rest else e ∷ f ∷ envs

unfoldable pub sort_envs : List EnvVar → List EnvVar
unfolding insert_env
sort_envs [] = []
sort_envs (e ∷ envs) = insert_env e (sort_envs envs)

abbrev pub added_envs : Assoc Text → List EnvVar
added_envs [] = []
added_envs ((name, value) ∷ extra) = record { name = name; value = value } ∷ added_envs extra

unfoldable pub with_envs : Assoc Text → Container → Container
unfolding sort_envs
with_envs extra container = record container { env = sort_envs (container.env ++ added_envs extra) }

-- The service of the site whose config it is.
abbrev pub service_of_config : StagingSite → ServiceConfig → StagingSiteService
service_of_config site config = service_or_zero (lookup config.name site.spec.services)

unfoldable pub set_extra_env_vars_on_pod_spec : PodSpec → StagingSite → ServiceConfig → PodSpec
unfolding with_envs
set_extra_env_vars_on_pod_spec spec site config =
    let extra = (service_of_config site config).extra_envs in
    if is_nil extra
    then spec
    else record spec { containers = map (with_envs extra) spec.containers }

abbrev pub overridden : Option Text → Container → Container
overridden none container = container
overridden (some resources) container = record container { resources = resources }

unfoldable pub update_pod_spec_with_overrides : PodSpec → StagingSite → ServiceConfig → PodSpec
update_pod_spec_with_overrides spec site config =
    let overrides = (service_of_config site config).resource_overrides in
    if is_nil overrides then spec else (record spec {
      containers = map (λ c. overridden (lookup c.name overrides) c) spec.containers;
    })
