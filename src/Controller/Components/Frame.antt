-- ===== src/Controller/Components/Frame.antt =====
-- Resolving and deploying components touches the world by reading templates, by the Helm client and
-- by the clock.
use kube_ephemerals.Prelude.{refl, String, Option, none, some, List, [], ◌∷◌, arith}
use kube_ephemerals.Exec.{Result, ok, err}
use kube_ephemerals.Exec.Hoare.{
  Keeps, Keeps-pure, Keeps-raise, Keeps-gets, Keeps-if, Keeps-wrapping, Keeps-bind, Keeps-attempt,
}
use kube_ephemerals.Api.Types.{DeployedComponentSpec, TemplateReference}
use kube_ephemerals.Api.Template.{EnvironmentTemplate}
use kube_ephemerals.Kube.Objects.{ObjectKey}
use kube_ephemerals.Helm.Client.{HelmClient, InstallOptions}
use kube_ephemerals.Controller.Base.{Reconciler, Session, World}
use kube_ephemerals.Controller.Frame.{
  Stable, Notes, Keeps-call, Keeps-set_status, Keeps-clock, Keeps-set_condition,
}
use kube_ephemerals.Controller.Components.{
  get_template, from_template, by_reference, by_components, resolve_components, install_component,
  deploy_component, deploy_components, release_all, ensure_helm_release,
}

module _ (r : Reconciler) (J : Session (World r) → Type 0) where
  abbrev pub ReadsTemplates : Type 0
  ReadsTemplates = (k : ObjectKey) → Stable J (r.client.get_template k)

  -- The calls of a deployment by the Helm client.
  pub record Deploys (helm : HelmClient (World r) r.library.Values) : Type 0 where
    pub checks : (n ns : String) → Stable J (helm.is_installed n ns)
    pub installs : (o : InstallOptions r.library.Values) → Stable J (helm.install o)

  module _ (reads : ReadsTemplates) where
    pub Keeps-get_template : Keeps J (get_template r)
    unfolding get_template
    Keeps-get_template = record { at = λ s j. by_ref s s.env.spec.template_ref j }
      where
        by_ref :
            (s : Session (World r)) (o : Option TemplateReference)
            → J (record s { env = record s.env { spec = record s.env.spec { template_ref = o } } })
            → J
                (get_template r (record s {
                  env = record s.env { spec = record s.env.spec { template_ref = o } };
                })).1
        by_ref s none j = j
        by_ref s (some ref) j = (Keeps-wrapping _ (Keeps-call J _ (reads _))).at _ j

    Keeps-from_template : (x : Result EnvironmentTemplate) → Keeps J (from_template r x)
    Keeps-from_template (ok t) = record { at = λ s j. j }
    Keeps-from_template (err e) = record { at = λ s j. j }

    Keeps-by_reference : (o : Option TemplateReference) → Keeps J (by_reference r o)
    Keeps-by_reference none = record { at = λ s j. j }
    Keeps-by_reference (some _) = record {
      at = λ s j. (Keeps-attempt Keeps-get_template Keeps-from_template).at s j;
    }

    Keeps-by_components : (cs : List DeployedComponentSpec) → Keeps J (by_components r cs)
    Keeps-by_components [] = record { at = λ s j. (Keeps-by_reference _).at s j }
    Keeps-by_components (c ∷ cs) = record { at = λ s j. j }

    pub Keeps-resolve_components : Keeps J (resolve_components r)
    unfolding resolve_components
    Keeps-resolve_components = record { at = λ s j. (Keeps-by_components _).at s j }

  module _ (helm : HelmClient (World r) r.library.Values) (deploys : Deploys helm)
      (notes : Notes r J) where
    Keeps-install_component :
        (n ns : String) (c : DeployedComponentSpec) → Keeps J (install_component r helm n ns c)
    unfolding install_component
    Keeps-install_component n ns c =
        Keeps-bind (record { at = λ s j. j })
          λ values. Keeps-bind (Keeps-wrapping _ (Keeps-call J _ (deploys.installs _))) λ info.
            Keeps-bind (Keeps-clock r J notes) λ now.
              Keeps-bind
                (Keeps-set_status J notes.restatus _
                  (λ st. (ground arith, ground arith, ground arith)))
                (λ _. Keeps-pure _)

    pub Keeps-deploy_component :
        (ns : String) (c : DeployedComponentSpec) → Keeps J (deploy_component r helm ns c)
    unfolding deploy_component
    Keeps-deploy_component ns c = Keeps-bind (Keeps-gets _) λ env.
        Keeps-bind (Keeps-wrapping _ (Keeps-call J _ (deploys.checks _ _)))
          λ b. Keeps-if b (Keeps-pure _) (Keeps-install_component _ ns c)

    pub Keeps-deploy_components :
        (ns : String) (cs : List DeployedComponentSpec) → Keeps J (deploy_components r helm ns cs)
    unfolding deploy_components
    Keeps-deploy_components ns [] = Keeps-pure _
    Keeps-deploy_components ns (c ∷ cs) =
        Keeps-bind (Keeps-wrapping _ (Keeps-deploy_component ns c))
          λ x. Keeps-bind (Keeps-deploy_components ns cs) (λ xs. Keeps-pure _)

    pub Keeps-release_all : (cs : List DeployedComponentSpec) → Keeps J (release_all r helm cs)
    unfolding release_all
    Keeps-release_all [] = Keeps-raise _
    Keeps-release_all (c ∷ cs) = Keeps-bind (Keeps-gets _) λ env.
        Keeps-bind (Keeps-deploy_components _ (c ∷ cs)) λ xs.
          Keeps-bind (Keeps-set_status J notes.restatus _ (λ st. (refl, refl, refl)))
            (λ _. Keeps-set_condition r J _ _ _ _ notes)

    pub Keeps-ensure_helm_release : ReadsTemplates → Keeps J (ensure_helm_release r helm)
    unfolding ensure_helm_release
    Keeps-ensure_helm_release reads = Keeps-bind (Keeps-resolve_components reads) Keeps-release_all
