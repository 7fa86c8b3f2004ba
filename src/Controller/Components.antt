-- ===== src/Controller/Components.antt =====
-- `resolveComponents`, `getTemplate`, `deployComponent` and `ensureHelmRelease`.
pub mod Frame
pub mod Deployed
pub mod Releases
pub mod Order
pub mod Installed
use kube_ephemerals.Prelude.{
  String, ◌<>◌, ◌==◌, len, Bool, true, false, Option, none, some, List, [], ◌∷◌, map, length, ltb,
  pos, if◌then◌else◌,
}
use kube_ephemerals.Exec.{
  Failure, Result, ok, err, wrap, new_error, Exec, pure, raise, gets, wrapping, attempt, ◌>>=◌,
  ◌>>◌,
}
use kube_ephemerals.Api.Types.{
  EphemeralEnv, EphemeralEnvSpec, DeployedComponentSpec, HelmSpec, TemplateReference, GatewaySpec,
  ComponentStatus, Json, condition_true, condition_type_helm_deployed,
}
use kube_ephemerals.Api.Template.{ComponentSpec, EnvironmentTemplate}
use kube_ephemerals.Kube.Library.{Library}
use kube_ephemerals.Helm.Client.{HelmClient, InstallOptions, ReleaseInfo}
use kube_ephemerals.Controller.Base.{
  Reconciler, Session, World, call, clock, set_status, set_condition,
}
use kube_ephemerals.Controller.Sanitize.{sanitize_name}

abbrev pub status_deployed : String
status_deployed = "Deployed"

-- `ephemeralv1alpha1.DeployedComponentSpec(tc)`: the two types have the same fields.
abbrev pub deployed_component : ComponentSpec → DeployedComponentSpec
deployed_component c = record {
  name = c.name;
  repository = c.repository;
  chart = c.chart;
  version = c.version;
  service_name = c.service_name;
  service_port = c.service_port;
  values = c.values;
  primary = c.primary;
}

-- The single component of the legacy field.
abbrev pub legacy_component : HelmSpec → GatewaySpec → DeployedComponentSpec
legacy_component h g = record {
  name = h.chart;
  repository = h.repository;
  chart = h.chart;
  version = h.version;
  service_name = g.service_name;
  service_port = g.target_port;
  values = h.values;
  primary = true;
}

abbrev pub legacy_components : EphemeralEnvSpec → List DeployedComponentSpec
legacy_components spec = elim spec.helm [
  | none ↦ []
  | some h ↦ legacy_component h spec.gateway ∷ []
]

unfoldable pub release_name_of : EphemeralEnv → DeployedComponentSpec → String
release_name_of env comp = "env-" <> env.metadata.name <> "-" <> sanitize_name comp.name

module _ (r : Reconciler) where
  abbrev template_namespace : EphemeralEnv → TemplateReference → String
  template_namespace env ref = if ref.namespace == "" then env.metadata.namespace else ref.namespace

  unfoldable pub get_template : Exec (Session (World r)) EnvironmentTemplate
  get_template s = elim s.env.spec.template_ref [
    | none ↦ (err (new_error "no template reference specified"), s)
    | some ref ↦
        let namespace = template_namespace s.env ref in
        wrapping ("failed to get template " <> namespace <> "/" <> ref.name <> ": ")
          (call (r.client.get_template (record { name = ref.name; namespace = namespace }))) s
  ]

  -- An error of the template is logged, and the legacy field decides.
  abbrev from_template :
      Result EnvironmentTemplate → Exec (Session (World r)) (List DeployedComponentSpec)
  from_template (ok t) s = (ok (map deployed_component t.spec.components), s)
  from_template (err e) s = (ok (legacy_components s.env.spec), s)

  abbrev by_reference :
      Option TemplateReference → Exec (Session (World r)) (List DeployedComponentSpec)
  by_reference none s = (ok (legacy_components s.env.spec), s)
  by_reference (some _) s = attempt get_template from_template s

  abbrev by_components :
      List DeployedComponentSpec → Exec (Session (World r)) (List DeployedComponentSpec)
  by_components [] s = by_reference s.env.spec.template_ref s
  by_components (c ∷ cs) s = (ok (c ∷ cs), s)

  -- Components, then the template, then the legacy field.
  unfoldable pub resolve_components : Exec (Session (World r)) (List DeployedComponentSpec)
  resolve_components s = by_components s.env.spec.components s

  abbrev Values : Type 0
  Values = r.library.Values

  abbrev unmarshalled : Result Values → Result (Option Values)
  unmarshalled (ok v) = ok (some v)
  unmarshalled (err e) = err (wrap "failed to parse Helm values: " e)

  -- `comp.Values != nil && len(comp.Values.Raw) > 0`
  unfoldable pub parse_values : Json → Result (Option Values)
  parse_values none = ok none
  parse_values (some raw) =
      if ltb 0 (len raw) then unmarshalled (r.library.unmarshal raw) else ok none

  unfoldable pub lift : {A : Type 0} → Result A → Exec (Session (World r)) A
  lift x s = (x, s)

  abbrev pub install_options :
      String → String → DeployedComponentSpec → Option Values → InstallOptions Values
  install_options release_name namespace comp values = record {
    release_name = release_name;
    namespace = namespace;
    repo_url = comp.repository;
    chart_name = comp.chart;
    version = comp.version;
    values = values;
    wait = false;
    timeout = pos 0;
  }

  abbrev pub already_installed : String → DeployedComponentSpec → ComponentStatus
  already_installed release_name comp = record {
    name = comp.name;
    release_name = release_name;
    status = status_deployed;
    last_deployed = none;
    message = "Already installed";
  }

  module _ (helm : HelmClient (World r) Values) where
    unfoldable pub install_component :
        String → String → DeployedComponentSpec → Exec (Session (World r)) ComponentStatus
    unfolding lift
    install_component release_name namespace comp = do
      values ← lift (parse_values comp.values)
      info ←
          wrapping "failed to install Helm chart: "
            (call (helm.install (install_options release_name namespace comp values)))
      now ← clock r
      set_status (λ st. if comp.primary then record st { helm_release = release_name } else st)
      pure (record {
        name = comp.name;
        release_name = release_name;
        status = status_deployed;
        last_deployed = some now;
        message = "Helm release " <> info.name <> " installed successfully";
      })

    -- The status beside an error is dropped by the caller, and left out here.
    unfoldable pub deploy_component :
        String → DeployedComponentSpec → Exec (Session (World r)) ComponentStatus
    unfolding install_component
    deploy_component namespace comp = do
      env ← gets (λ s. s.env)
      let release_name = release_name_of env comp
      installed ←
          wrapping "failed to check Helm release status: "
            (call (helm.is_installed release_name namespace))
      if installed
          then pure (already_installed release_name comp)
          else install_component release_name namespace comp

    -- The loop over the components; the first failure ends it.
    unfoldable pub deploy_components :
        String → List DeployedComponentSpec → Exec (Session (World r)) (List ComponentStatus)
    deploy_components namespace [] = pure []
    deploy_components namespace (comp ∷ comps) = do
      status ←
          wrapping ("failed to deploy component " <> comp.name <> ": ")
            (deploy_component namespace comp)
      statuses ← deploy_components namespace comps
      pure (status ∷ statuses)

    unfoldable pub release_all : List DeployedComponentSpec → Exec (Session (World r)) (Unit {0})
    release_all [] =
        raise (new_error "no components to deploy: either helm or components must be specified")
    release_all (comp ∷ comps) = do
      env ← gets (λ s. s.env)
      statuses ← deploy_components env.status.active_namespace (comp ∷ comps)
      set_status (λ st. record st { component_statuses = statuses })
      set_condition r condition_type_helm_deployed condition_true "HelmInstalled" (
          "All "
          <> r.library.format_int (length (comp ∷ comps))
          <> " components deployed successfully")

    unfoldable pub ensure_helm_release : Exec (Session (World r)) (Unit {0})
    unfolding release_all
    ensure_helm_release = do components ← resolve_components; release_all components
