-- ===== src/Controller/Routes/Frame.antt =====
-- The functions that ensure the routes and the grant touch the world by `create_or_update` and by
-- the clock.
use kube_ephemerals.Prelude.{refl, ◌==◌}
use kube_ephemerals.Prelude.{String}
use kube_ephemerals.Exec.Hoare.{Keeps, Keeps-pure, Keeps-gets, Keeps-if, Keeps-wrapping, Keeps-bind}
use kube_ephemerals.Controller.Base.{Reconciler, Session, World}
use kube_ephemerals.Controller.Frame.{Notes, Keeps-set_status, Keeps-set_condition}
use kube_ephemerals.Controller.Resources.Frame.{Creates, Keeps-create_or_update}
use kube_ephemerals.Controller.Routes.{
  ensure_httproute, ensure_admin_httproute, write_grant, ensure_reference_grant,
}

module _ (r : Reconciler) (J : Session (World r) → Type 0) (creates : Creates r J) where
  pub Keeps-ensure_httproute : (name : String) → Notes r J → Keeps J (ensure_httproute r name)
  unfolding ensure_httproute
  Keeps-ensure_httproute name notes = Keeps-bind (Keeps-gets _) λ e.
      Keeps-bind (Keeps-wrapping _ (Keeps-create_or_update r J creates _ _)) λ _.
        Keeps-bind (Keeps-set_status J notes.restatus _ (λ st. (refl, refl, refl)))
          (λ _. Keeps-set_condition r J _ _ _ _ notes)

  pub Keeps-ensure_admin_httproute :
      (service namespace : String)
      → Notes r J
      → Keeps J (ensure_admin_httproute r service namespace)
  unfolding ensure_admin_httproute
  Keeps-ensure_admin_httproute service namespace notes = Keeps-bind (Keeps-gets _) λ e.
      Keeps-bind (Keeps-wrapping _ (Keeps-create_or_update r J creates _ _))
        (λ _. Keeps-set_status J notes.restatus _ (λ st. (refl, refl, refl)))

  pub Keeps-ensure_reference_grant : Keeps J (ensure_reference_grant r)
  unfolding ensure_reference_grant write_grant
  Keeps-ensure_reference_grant = Keeps-bind (Keeps-gets _) λ e.
      Keeps-if (e.spec.gateway.namespace == e.status.active_namespace) (Keeps-pure tt)
        (Keeps-bind (Keeps-gets _) λ _. Keeps-wrapping _ (Keeps-create_or_update r J creates _ _))
