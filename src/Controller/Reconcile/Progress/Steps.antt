-- ===== src/Controller/Reconcile/Progress/Steps.antt =====
-- The steps that ensure objects succeed where the server accepts them.
use kube_ephemerals.Prelude.{String, ◌==◌, refl}
use kube_ephemerals.Exec.{wrapping}
use kube_ephemerals.Exec.Works.{Works, Works-pure, Works-if, Works-wrapping, Works-bind, Works-gets}
use kube_ephemerals.Kube.Objects.{Object}
use kube_ephemerals.Api.Helpers.{is_isolation_enabled}
use kube_ephemerals.Controller.Base.{Reconciler, Session, World}
use kube_ephemerals.Controller.Resources.{
  create_or_update, ensure_namespace, ensure_developer_access_rbac, apply_network_policy,
  ensure_network_policy,
}
use kube_ephemerals.Controller.Resources.Frame.{Enters}
use kube_ephemerals.Controller.Routes.{ensure_httproute, write_grant, ensure_reference_grant}
use kube_ephemerals.Controller.Reconcile.Progress.{
  Works-call, Works-set_status, Works-set_condition, Serves,
}

module _ (r : Reconciler) (J : Session (World r) → Type 0) (serves : Serves r J) where
  Works-create_or_update :
      (prefix : String) (o : Object) (f : Object → Object)
      → Works J (wrapping prefix (create_or_update r o f))
  unfolding create_or_update
  Works-create_or_update prefix o f =
      Works-wrapping prefix (Works-call J _ (serves.provisions.creates o f) (serves.creating o f))

  pub Works-ensure_namespace : Enters r J → Works J (ensure_namespace r)
  unfolding ensure_namespace
  Works-ensure_namespace enters = Works-gets _ λ env. Works-bind (Works-create_or_update _ _ _) λ _.
      Works-bind (Works-set_status J _ (enters _))
        (λ _. Works-set_condition r J _ _ _ _ serves.provisions.notes)

  pub Works-ensure_developer_access_rbac : Works J (ensure_developer_access_rbac r)
  unfolding ensure_developer_access_rbac
  Works-ensure_developer_access_rbac = Works-gets _ λ env.
      Works-bind (Works-create_or_update _ _ _)
        λ _. Works-bind (Works-create_or_update _ _ _) (λ _. Works-create_or_update _ _ _)

  Works-apply_network_policy : Works J (apply_network_policy r)
  unfolding apply_network_policy
  Works-apply_network_policy = Works-gets _ λ env.
      Works-bind (Works-create_or_update _ _ _)
        (λ _. Works-set_condition r J _ _ _ _ serves.provisions.notes)

  pub Works-ensure_network_policy : Works J (ensure_network_policy r)
  unfolding ensure_network_policy
  Works-ensure_network_policy =
      Works-gets _
        (λ env. Works-if (is_isolation_enabled env.spec) Works-apply_network_policy (Works-pure tt))

  pub Works-ensure_reference_grant : Works J (ensure_reference_grant r)
  unfolding ensure_reference_grant write_grant
  Works-ensure_reference_grant = Works-gets _ λ env.
      Works-if (env.spec.gateway.namespace == env.status.active_namespace) (Works-pure tt)
        (Works-gets _ (λ _. Works-create_or_update _ _ _))

  pub Works-ensure_httproute : (name : String) → Works J (ensure_httproute r name)
  unfolding ensure_httproute
  Works-ensure_httproute name = Works-gets _ λ env. Works-bind (Works-create_or_update _ _ _) λ _.
      Works-bind
        (Works-set_status J _ (serves.provisions.notes.restatus _ (λ st. (refl, refl, refl))))
        (λ _. Works-set_condition r J _ _ _ _ serves.provisions.notes)
