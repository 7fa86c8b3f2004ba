-- ===== src/Controller/Discovery.antt =====
-- `getPrimaryComponentName` and `discoverService`.
pub mod Frame
pub mod Sound
use kube_ephemerals.Prelude.{
  ℕ, String, ◌<>◌, ◌==◌, len, Bool, true, false, not, ◌&&◌, Option, none, some, List, [], ◌∷◌, any,
  ltb, contains_text, if◌then◌else◌,
}
use kube_ephemerals.Prelude.Tests
use kube_ephemerals.Exec.{
  Failure, Result, ok, err, new_error, Exec, pure, raise, gets, wrapping, attempt, ◌>>=◌,
}
use kube_ephemerals.Api.Types.{EphemeralEnvSpec, DeployedComponentSpec, TemplateReference}
use kube_ephemerals.Api.Template.{ComponentSpec, EnvironmentTemplate}
use kube_ephemerals.Kube.Objects.{Service, ServiceType, external_name}
use kube_ephemerals.Controller.Base.{Reconciler, Session, World, call}
use kube_ephemerals.Controller.Components.{get_template}

-- The first primary component's name.
unfoldable pub primary_name : List DeployedComponentSpec → Option String
primary_name [] = none
primary_name (c ∷ cs) = if c.primary then some c.name else primary_name cs

unfoldable pub primary_template_name : List ComponentSpec → Option String
primary_template_name [] = none
primary_template_name (c ∷ cs) = if c.primary then some c.name else primary_template_name cs

abbrev pub legacy_name : EphemeralEnvSpec → String
legacy_name spec = elim spec.helm [ none ↦ "" | some h ↦ h.chart ]

abbrev or_legacy : Option String → EphemeralEnvSpec → String
or_legacy none spec = legacy_name spec
or_legacy (some name) spec = name

abbrev is_external_name : ServiceType → Bool
is_external_name external_name = true
is_external_name _ = false

module _ (r : Reconciler) where
  abbrev by_template : Result EnvironmentTemplate → Exec (Session (World r)) String
  by_template (err e) s = (ok (legacy_name s.env.spec), s)
  by_template (ok t) s = (ok (or_legacy (primary_template_name t.spec.components) s.env.spec), s)

  abbrev by_reference : Option TemplateReference → Exec (Session (World r)) String
  by_reference none s = (ok (legacy_name s.env.spec), s)
  by_reference (some _) s = attempt (get_template r) by_template s

  abbrev by_primary : Option String → Exec (Session (World r)) String
  by_primary (some name) s = (ok name, s)
  by_primary none s = by_reference s.env.spec.template_ref s

  unfoldable pub get_primary_component_name : Exec (Session (World r)) String
  unfolding primary_name primary_template_name
  get_primary_component_name s = by_primary (primary_name s.env.spec.components) s

  -- The tests of the loop body: not headless, not an external name, no "metrics" in its name, and
  -- one port is the target.
  unfoldable pub is_eligible : ℕ → Service → Bool
  is_eligible port svc =
      not (svc.cluster_ip == "None")
      && not (is_external_name svc.type)
      && not (contains_text (r.library.to_lower svc.name) "metrics")
      && any (λ p. Tests.◌==◌ p port) svc.ports

  unfoldable pub matching_services : ℕ → List Service → List Service
  matching_services port [] = []
  matching_services port (svc ∷ svcs) =
      let rest = matching_services port svcs in if is_eligible port svc then svc ∷ rest else rest

  abbrev pub shorter_name : Service → Service → Bool
  shorter_name a b = ltb (len a.name) (len b.name)

  unfoldable pub names_component : String → Service → Bool
  names_component component svc =
      contains_text (r.library.to_lower svc.name) (r.library.to_lower component)

  unfoldable pub first_named : String → List Service → Option String
  first_named component [] = none
  first_named component (svc ∷ svcs) =
      if names_component component svc then some svc.name else first_named component svcs

  abbrev shortest : List Service → Exec (Session (World r)) String
  shortest [] s = (err (new_error "index out of range"), s)
  shortest (svc ∷ _) s = (ok svc.name, s)

  abbrev or_shortest : Option String → List Service → Exec (Session (World r)) String
  or_shortest (some name) sorted s = (ok name, s)
  or_shortest none sorted s = shortest sorted s

  -- The heuristic among several services, which stand in the order that `sort.Slice` gives.
  unfoldable pub select_service : String → List Service → Exec (Session (World r)) String
  unfolding first_named names_component
  select_service component sorted s =
      if component == ""
      then shortest sorted s
      else or_shortest (first_named component sorted) sorted s

  unfoldable pub choose_service : ℕ → String → List Service → Exec (Session (World r)) String
  choose_service port namespace [] = raise (
      new_error (
        "no service found exposing port "
        <> r.library.format_int port
        <> " in namespace "
        <> namespace
        <> " (service may still be starting)"))
  choose_service port namespace (svc ∷ []) = pure svc.name
  choose_service port namespace (svc ∷ svc' ∷ svcs) = do
    component ← get_primary_component_name
    select_service component (r.library.sort_slice Service shorter_name (svc ∷ svc' ∷ svcs))

  unfoldable pub discover_service : ℕ → Exec (Session (World r)) String
  discover_service port = do
    env ← gets (λ s. s.env)
    let namespace = env.status.active_namespace
    services ←
        wrapping ("failed to list services in namespace " <> namespace <> ": ")
          (call (r.client.list_services namespace))
    choose_service port namespace (matching_services port services)
