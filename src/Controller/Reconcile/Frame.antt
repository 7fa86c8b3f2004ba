-- ===== src/Controller/Reconcile/Frame.antt =====
-- The steps of `Reconcile` touch the world by the calls of what they compose.
use kube_ephemerals.Prelude.{◌==◌, not, ◌&&◌, Option, none, some, List, [], ◌∷◌, ◌≡◌, refl}
use kube_ephemerals.Exec.Hoare.{Keeps, Keeps-pure, Keeps-if, Keeps-bind}
use kube_ephemerals.Api.Types.{DeployedComponentSpec}
use kube_ephemerals.Helm.Client.{HelmClient}
use kube_ephemerals.Controller.Base.{Reconciler, Session, World}
use kube_ephemerals.Controller.Frame.{Notes}
use kube_ephemerals.Controller.Cleanup.Frame.{Keeps-ignoring}
use kube_ephemerals.Controller.Resources.Frame.{Creates}
use kube_ephemerals.Controller.Routes.Frame.{Keeps-ensure_admin_httproute}
use kube_ephemerals.Controller.Components.Frame.{
  ReadsTemplates, Deploys, Keeps-resolve_components, Keeps-ensure_helm_release,
}
use kube_ephemerals.Controller.Discovery.Frame.{ListsServices}
use kube_ephemerals.Controller.Reconcile.{deploy_resolved, deploy_with, deploy, ensure_admin}

module _ (r : Reconciler) (J : Session (World r) → Type 0) where
  -- The calls of a provisioning but for the writes of the status.
  pub record Provisions : Type 0 where
    pub notes : Notes r J
    pub creates : Creates r J
    pub reads : ReadsTemplates r J
    pub lists : ListsServices r J
    pub deploys :
        (h : HelmClient (World r) r.library.Values) → r.helm_client ≡ some h → Deploys r J h

  module _ (p : Provisions) where
    pub Keeps-deploy_resolved :
        (h : HelmClient (World r) r.library.Values)
        → r.helm_client ≡ some h
        → (cs : List DeployedComponentSpec) → Keeps J (deploy_resolved r h cs)
    Keeps-deploy_resolved h e [] = record { at = λ s j. j }
    Keeps-deploy_resolved h e (c ∷ cs) = record {
      at = λ s j. (Keeps-ensure_helm_release r J h (p.deploys h e) p.notes p.reads).at s j;
    }

    Keeps-deploy_with :
        (o : Option (HelmClient (World r) r.library.Values))
        → r.helm_client ≡ o
        → Keeps J (deploy_with r o)
    Keeps-deploy_with none e = record { at = λ s j. j }
    Keeps-deploy_with (some h) e = record {
      at = λ s j.
          (Keeps-bind (Keeps-resolve_components r J p.reads) (Keeps-deploy_resolved h e)).at s j;
    }

    pub Keeps-deploy : Keeps J (deploy r)
    unfolding deploy
    Keeps-deploy = Keeps-deploy_with r.helm_client refl

    pub Keeps-ensure_admin : Keeps J (ensure_admin r)
    unfolding ensure_admin
    Keeps-ensure_admin =
        Keeps-if (not (r.operator_service == "") && not (r.operator_namespace == ""))
          (Keeps-ignoring r J _ (Keeps-ensure_admin_httproute r J p.creates _ _ p.notes))
          (Keeps-pure tt)
