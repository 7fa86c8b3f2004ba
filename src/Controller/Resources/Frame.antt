-- ===== src/Controller/Resources/Frame.antt =====
-- The functions that ensure the objects of the namespace touch the world by `create_or_update` and
-- by the clock.
use kube_ephemerals.Prelude.{String}
use kube_ephemerals.Exec.Hoare.{Keeps, Keeps-pure, Keeps-gets, Keeps-if, Keeps-wrapping, Keeps-bind}
use kube_ephemerals.Kube.Objects.{Object}
use kube_ephemerals.Controller.Base.{Reconciler, Session, World}
use kube_ephemerals.Controller.Frame.{
  Stable, Notes, Keeps-call, Keeps-set_status_any, Restatus, Keeps-set_condition,
}
use kube_ephemerals.Controller.Resources.{
  create_or_update, ensure_namespace, ensure_developer_access_rbac, apply_network_policy,
  ensure_network_policy,
}
use kube_ephemerals.Api.Helpers.{is_isolation_enabled}

module _ (r : Reconciler) (J : Session (World r) → Type 0) where
  -- The objects may be created or updated.
  abbrev pub Creates : Type 0
  Creates = (o : Object) (f : Object → Object) → Stable J (r.client.create_or_update o f)

  pub Keeps-create_or_update :
      Creates → (o : Object) (f : Object → Object) → Keeps J (create_or_update r o f)
  unfolding create_or_update
  Keeps-create_or_update creates o f = Keeps-call J _ (creates o f)

  -- The status gets the namespace.
  abbrev pub Enters : Type 0
  Enters = (name : String) → Restatus J (λ st. record st { active_namespace = name })

  module _ (creates : Creates) (notes : Notes r J) where
    pub Keeps-ensure_namespace : Enters → Keeps J (ensure_namespace r)
    unfolding ensure_namespace
    Keeps-ensure_namespace enters = Keeps-bind (Keeps-gets _) λ e.
        Keeps-bind (Keeps-wrapping _ (Keeps-create_or_update creates _ _)) λ _.
          Keeps-bind (Keeps-set_status_any J _ (enters _))
            (λ _. Keeps-set_condition r J _ _ _ _ notes)

    pub Keeps-ensure_developer_access_rbac : Keeps J (ensure_developer_access_rbac r)
    unfolding ensure_developer_access_rbac
    Keeps-ensure_developer_access_rbac = Keeps-bind (Keeps-gets _) λ e.
        Keeps-bind (Keeps-wrapping _ (Keeps-create_or_update creates _ _)) λ _.
          Keeps-bind (Keeps-wrapping _ (Keeps-create_or_update creates _ _))
            λ _. Keeps-wrapping _ (Keeps-create_or_update creates _ _)

    Keeps-apply_network_policy : Keeps J (apply_network_policy r)
    unfolding apply_network_policy
    Keeps-apply_network_policy = Keeps-bind (Keeps-gets _) λ e.
        Keeps-bind (Keeps-wrapping _ (Keeps-create_or_update creates _ _))
          (λ _. Keeps-set_condition r J _ _ _ _ notes)

    pub Keeps-ensure_network_policy : Keeps J (ensure_network_policy r)
    unfolding ensure_network_policy
    Keeps-ensure_network_policy =
        Keeps-bind (Keeps-gets _)
          λ e. Keeps-if (is_isolation_enabled e.spec) Keeps-apply_network_policy (Keeps-pure tt)
