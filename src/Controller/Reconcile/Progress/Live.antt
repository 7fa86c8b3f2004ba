-- ===== src/Controller/Reconcile/Progress/Live.antt =====
-- A reconciliation on a cluster that serves its requests.
use kube_ephemerals.Prelude.{ℕ, String, true, Option, none, some, List, any, ◌≡◌, sym, ap, arith}
use kube_ephemerals.Exec.{Result, ok, err}
use kube_ephemerals.Exec.Works.{Works}
use kube_ephemerals.Api.Types.{Time, EphemeralEnv}
use kube_ephemerals.Api.Template.{EnvironmentTemplate}
use kube_ephemerals.Api.Helpers.{get_namespace_name}
use kube_ephemerals.Kube.Objects.{ObjectKey, Service}
use kube_ephemerals.Controller.Base.{Reconciler, Session, World, Handler}
use kube_ephemerals.Controller.Components.Releases.{chosen}
use kube_ephemerals.Controller.Discovery.{discover_service, is_eligible}
use kube_ephemerals.Controller.Discovery.Frame.{Keeps-discover_service}
use kube_ephemerals.Controller.Discovery.Sound.{SortKeeps, discover_service_complete}
use kube_ephemerals.Controller.Reconcile.{
  after_helm, after_discovery, deploy, deploy_last, publish, discover_and_publish, route_by, route,
  provision, finish,
}
use kube_ephemerals.Controller.Reconcile.Frame.{Keeps-ensure_admin}
use kube_ephemerals.Controller.Reconcile.Progress.Steps.{
  Works-ensure_developer_access_rbac, Works-ensure_network_policy, Works-ensure_reference_grant,
  Works-ensure_httproute,
}
use kube_ephemerals.Controller.Reconcile.Progress.Deployment.{all_parse, Works-deploy}
use kube_ephemerals.Controller.Reconcile.Progress.Ready.{Cooperates, Ready, Ready-serves, resolves}
use kube_ephemerals.Controller.Reconcile.Progress.Leads.{
  Activates, Leads, Placed, Anywhere, Leads-step, Leads-first_step, Leads-finish,
}

-- In a namespace of this cluster an eligible service is listed.
abbrev pub Lists : (r : Reconciler) → World r → String → ℕ → Type 0
Lists r w namespace port =
    (services : List Service) × ((r.client.list_services namespace w).0 ≡ ok services)
    × (any (is_eligible r port) services ≡ true)

module _ (r : Reconciler) (Up : World r → Type 0)
    (templates : ObjectKey → Result EnvironmentTemplate) (cooperates : Cooperates r Up templates)
    (env : EphemeralEnv) where
  module _ (t : Time) (parses : all_parse r (chosen templates env) ≡ true) where
    abbrev R : Session (World r) → Type 0
    R = Ready r Up templates cooperates env t (Placed r Up templates cooperates env t)

    abbrev Active : Handler (World r) → Type 0
    Active = Leads r Up templates cooperates env t (Placed r Up templates cooperates env t)

    Leads-after_helm :
        (k : Handler (World r)) (x : Result (Unit {0}) × Session (World r))
        → (u : Unit {0}) × (x.0 ≡ ok u)
        → R x.1
        → Active k
        → Activates r Up templates cooperates env t (after_helm r k x)
    Leads-after_helm k (ok tt, s) h j leads = leads s j
    Leads-after_helm k (err e, s) (u, h) j leads = absurd (ground (arith, h))

    deploys : Works R (deploy r)
    deploys =
        Works-deploy r R (Ready-serves r Up templates cooperates env t _) (chosen templates env)
          (resolves r Up templates cooperates env t _) parses

    Leads-deploy : (k : Handler (World r)) → Active k → Active (λ s. after_helm r k (deploy r s))
    Leads-deploy k leads s j =
        Leads-after_helm k (deploy r s) (deploys.succeeds s j) (deploys.keeps.at s j) leads

    Leads-deploy_last : (o : Option ℕ) → Active (deploy_last r o)
    Leads-deploy_last none s j =
        Leads-deploy (finish r) (Leads-finish r Up templates cooperates env t _) s j
    Leads-deploy_last (some port) s j = Leads-finish r Up templates cooperates env t _ s j

    Leads-publish : (name : String) → Active (publish r name)
    unfolding publish
    Leads-publish name =
        Leads-step r Up templates cooperates env t _ _ _ _
          (Works-ensure_httproute r R (Ready-serves r Up templates cooperates env t _) name)
          (λ s j. Leads-deploy_last _ _ (
            (Keeps-ensure_admin r R (Ready-serves r Up templates cooperates env t _).provisions).at
              s j))

    module _ (sorts : SortKeeps r.library)
        (served : (port : ℕ)
          → env.spec.service_port ≡ some port
          → (w : World r) → Up w
          → Lists r w (get_namespace_name env) port) where
      Leads-after_discovery :
          (x : Result String × Session (World r))
          → (name : String) × (x.0 ≡ ok name)
          → R x.1
          → Activates r Up templates cooperates env t (after_discovery r x)
      Leads-after_discovery (ok name, s) h j = Leads-publish name s j
      Leads-after_discovery (err e, s) (name, h) j = absurd (ground (arith, h))

      Leads-discovery :
          (port : ℕ)
          → env.spec.service_port ≡ some port
          → Active (λ s. after_discovery r (discover_service r port s))
      Leads-discovery port e s j =
          let (services, listed, eligible) = served port e s.world j.up in
          let provisions = (Ready-serves r Up templates cooperates env t _).provisions in
          Leads-after_discovery (discover_service r port s)
            (discover_service_complete r port sorts s services (rw j.located listed) eligible)
            ((Keeps-discover_service r R provisions.reads provisions.lists port).at s j)

      Leads-route_by : (o : Option ℕ) → env.spec.service_port ≡ o → Active (route_by r o)
      unfolding discover_and_publish
      Leads-route_by none e s j = Leads-publish _ s j
      Leads-route_by (some port) e s j = Leads-deploy _ (Leads-discovery port e) s j

      Leads-route : Active (route r)
      unfolding route
      Leads-route s j =
          Leads-route_by s.env.spec.service_port (sym (ap (λ x. x.service_port) j.same_spec)) s j

      pub Leads-provision :
          Leads r Up templates cooperates env t
            (Anywhere r Up templates cooperates env t)
            (provision r)
      unfolding provision
      Leads-provision = Leads-first_step r Up templates cooperates env t _ _ (
          Leads-step r Up templates cooperates env t _ _ _ _
            (Works-ensure_developer_access_rbac r R
              (Ready-serves r Up templates cooperates env t _))
            (Leads-step r Up templates cooperates env t _ _ _ _
              (Works-ensure_network_policy r R (Ready-serves r Up templates cooperates env t _))
              (Leads-step r Up templates cooperates env t _ _ _ _
                (Works-ensure_reference_grant r R (Ready-serves r Up templates cooperates env t _))
                Leads-route)))
