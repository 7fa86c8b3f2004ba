-- ===== src/Controller/Reconcile/Activation/Steps.antt =====
-- Each step of a provisioning puts its objects into the log.
use text.Mathlib.TextPositions.{eq_refl}
use kube_ephemerals.Prelude.{String, ◌<>◌, Bool, true, List, ◌≡◌, ap, arith}
use kube_ephemerals.Exec.{ok, gets, wrapping, pure, ◌>>=◌}
use kube_ephemerals.Api.Types.{EphemeralEnv}
use kube_ephemerals.Api.Helpers.{get_namespace_name, get_httproute_name, is_isolation_enabled}
use kube_ephemerals.Kube.Trace.{Event}
use kube_ephemerals.Controller.Base.{
  Reconciler, Session, World, call, set_status, set_condition, clock, own,
}
use kube_ephemerals.Controller.Resources.{
  effective_namespace, create_or_update, ensure_namespace, ensure_developer_access_rbac,
  ensure_network_policy,
}
use kube_ephemerals.Controller.Routes.{ensure_httproute, ensure_reference_grant}
use kube_ephemerals.Controller.Traced.{traced_reconciler}
use kube_ephemerals.Controller.Reconcile.Activation.{
  Stage, ensured_namespace, ensured_access, ensured_isolation, ensured_grant, ensured_route,
}

effective_namespace-settled :
    (e env : EphemeralEnv)
    → e.metadata ≡ env.metadata
    → e.status.active_namespace ≡ get_namespace_name env
    → effective_namespace e ≡ get_namespace_name env
unfolding get_namespace_name
effective_namespace-settled e env m a = ground (arith, ap (λ x. x.name) m)

module _ (r : Reconciler) (env : EphemeralEnv) (s : Session (World (traced_reconciler r))) where
  pub ensure_namespace-ensured :
      s.env.metadata ≡ env.metadata
      → (ensure_namespace (traced_reconciler r) s).0 ≡ ok tt
      → ensured_namespace env (ensure_namespace (traced_reconciler r) s).1.world.log ≡ true
  unfolding ensure_namespace create_or_update call gets ◌>>=◌ wrapping set_status set_condition
      clock own get_namespace_name
  ensure_namespace-ensured m h =
      ground (arith, ap (λ x. x.name) m, eq_refl ("env-" <> env.metadata.name), eq_refl "")

  pub ensure_namespace-settled :
      s.env.metadata ≡ env.metadata
      → (ensure_namespace (traced_reconciler r) s).0 ≡ ok tt
      → (ensure_namespace (traced_reconciler r) s).1.env.status.active_namespace
        ≡ get_namespace_name env
  unfolding ensure_namespace create_or_update call gets ◌>>=◌ wrapping set_status set_condition
      clock get_namespace_name
  ensure_namespace-settled m h = ground (arith, ap (λ x. x.name) m)

  module _ {facts : List Event → Bool} (j : Stage r env facts s) where
    pub ensure_developer_access_rbac-ensured :
        (ensure_developer_access_rbac (traced_reconciler r) s).0 ≡ ok tt
        → ensured_access env (ensure_developer_access_rbac (traced_reconciler r) s).1.world.log
          ≡ true
    unfolding ensure_developer_access_rbac create_or_update call gets ◌>>=◌ wrapping own
    ensure_developer_access_rbac-ensured h = ground (
      arith,
      effective_namespace-settled s.env env j.same_metadata j.settled,
      eq_refl (get_namespace_name env),
    )

    pub ensure_network_policy-ensured :
        (ensure_network_policy (traced_reconciler r) s).0 ≡ ok tt
        → ensured_isolation env (ensure_network_policy (traced_reconciler r) s).1.world.log ≡ true
    unfolding ensure_network_policy create_or_update call gets ◌>>=◌ wrapping own pure set_status
        set_condition clock
    ensure_network_policy-ensured h =
        ground
          (arith, ap is_isolation_enabled j.same_spec, j.settled, eq_refl (get_namespace_name env))

    pub ensure_reference_grant-ensured :
        (ensure_reference_grant (traced_reconciler r) s).0 ≡ ok tt
        → ensured_grant env (ensure_reference_grant (traced_reconciler r) s).1.world.log ≡ true
    unfolding ensure_reference_grant create_or_update call gets ◌>>=◌ wrapping own pure
    ensure_reference_grant-ensured h = ground (
      arith,
      ap (λ x. x.gateway.namespace) j.same_spec,
      ap (λ x. x.name) j.same_metadata,
      j.settled,
      eq_refl (get_namespace_name env),
      eq_refl ("grant-" <> env.metadata.name),
    )

    pub ensure_httproute-ensured :
        (name : String)
        → (ensure_httproute (traced_reconciler r) name s).0 ≡ ok tt
        → ensured_route env (ensure_httproute (traced_reconciler r) name s).1.world.log ≡ true
    unfolding ensure_httproute create_or_update call gets ◌>>=◌ wrapping own set_status
        set_condition clock get_httproute_name
    ensure_httproute-ensured name h = ground (
      arith,
      ap (λ x. x.gateway.namespace) j.same_spec,
      ap (λ x. x.name) j.same_metadata,
      eq_refl env.spec.gateway.namespace,
      eq_refl ("route-" <> env.metadata.name),
    )
