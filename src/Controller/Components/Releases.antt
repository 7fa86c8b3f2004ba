-- ===== src/Controller/Components/Releases.antt =====
-- When two components of an environment have the same release, and which components are deployed.
use text.Mathlib.TextLemmas.{append_cancel_left}
use kube_ephemerals.Prelude.{
  ◌<>◌, ◌==◌, if◌then◌else◌, Option, none, some, List, [], ◌∷◌, map, ◌≡◌, ap, ◌↔◌, arith,
}
use kube_ephemerals.Exec.{Result, ok, err, attempt, wrapping}
use kube_ephemerals.Kube.Objects.{ObjectKey}
use kube_ephemerals.Api.Types.{
  EphemeralEnv, EphemeralEnvSpec, DeployedComponentSpec, TemplateReference,
}
use kube_ephemerals.Api.Template.{EnvironmentTemplate}
use kube_ephemerals.Controller.Base.{Reconciler, Session, World, call}
use kube_ephemerals.Controller.Sanitize.{sanitize_name}
use kube_ephemerals.Controller.Components.{
  release_name_of, resolve_components, get_template, legacy_components, deployed_component,
}

-- Two components of an environment have the same Helm release exactly when their names are sanitised
-- to the same text, even if the names differ.
pub release_name_of_iff :
    (env : EphemeralEnv) (c d : DeployedComponentSpec)
    → (release_name_of env c ≡ release_name_of env d)
      ↔ (sanitize_name c.name ≡ sanitize_name d.name)
unfolding release_name_of
release_name_of_iff env c d = (
  λ h.
      append_cancel_left "-" _ _
        (append_cancel_left env.metadata.name _ _ (append_cancel_left "env-" _ _ h)),
  λ p. ap (λ n. "env-" <> env.metadata.name <> "-" <> n) p,
)

-- The components of a template that was read, and otherwise the legacy field's.
abbrev template_or_legacy :
    Result EnvironmentTemplate → EphemeralEnvSpec → List DeployedComponentSpec
template_or_legacy (ok t) spec = map deployed_component t.spec.components
template_or_legacy (err e) spec = legacy_components spec

-- A component list of the environment, or the template by the server's answer for it.
abbrev pub chosen :
    (ObjectKey → Result EnvironmentTemplate) → EphemeralEnv → List DeployedComponentSpec
chosen answer env = by_list env.spec.components
  where
    by_ref : Option TemplateReference → List DeployedComponentSpec
    by_ref none = legacy_components env.spec
    by_ref (some ref) =
        template_or_legacy
          (answer (record {
            name = ref.name;
            namespace = if ref.namespace == "" then env.metadata.namespace else ref.namespace;
          }))
          env.spec

    by_list : List DeployedComponentSpec → List DeployedComponentSpec
    by_list [] = by_ref env.spec.template_ref
    by_list (c ∷ cs) = c ∷ cs

-- The resolution of components never fails: it gives the environment's own components if it has
-- some; otherwise those of the template that it refers to, looked up in the environment's namespace
-- if the reference names none, if the server returns that template; otherwise the legacy field's
-- component, or none.
pub resolve_components-chosen :
    (r : Reconciler) (s : Session (World r))
    → (resolve_components r s).0 ≡ ok (chosen (λ key. (r.client.get_template key s.world).0) s.env)
unfolding resolve_components get_template attempt wrapping call
resolve_components-chosen r s = ground arith
