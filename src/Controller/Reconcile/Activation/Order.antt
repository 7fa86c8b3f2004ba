-- ===== src/Controller/Reconcile/Activation/Order.antt =====
-- The steps of a provisioning in their order.
use kube_ephemerals.Prelude.{ℕ, String, Bool, true, ◌&&◌, Option, none, some, List, ◌≡◌, arith}
use kube_ephemerals.Exec.{Result, ok, err}
use kube_ephemerals.Exec.Hoare.{Ending, ending}
use kube_ephemerals.Api.Types.{EphemeralEnv}
use kube_ephemerals.Kube.Trace.{Event}
use kube_ephemerals.Controller.Base.{Reconciler, World, Handler, set_status, update_status}
use kube_ephemerals.Controller.Traced.{traced_reconciler}
use kube_ephemerals.Controller.Resources.{ensure_developer_access_rbac, ensure_network_policy}
use kube_ephemerals.Controller.Resources.Frame.{
  Keeps-ensure_developer_access_rbac, Keeps-ensure_network_policy,
}
use kube_ephemerals.Controller.Routes.{ensure_httproute, ensure_reference_grant}
use kube_ephemerals.Controller.Routes.Frame.{Keeps-ensure_httproute, Keeps-ensure_reference_grant}
use kube_ephemerals.Controller.Discovery.Frame.{Keeps-discover_service}
use kube_ephemerals.Controller.Reconcile.{
  step, after_helm, deploy, finish, deploy_last, publish, after_discovery, discover_and_publish,
  route_by, route, provision,
}
use kube_ephemerals.Controller.Reconcile.Frame.{Keeps-deploy, Keeps-ensure_admin}
use kube_ephemerals.Controller.Reconcile.Activation.{
  Stage, Monotone, ensured_namespace, ensured_access, ensured_isolation, ensured_grant,
  ensured_route, ensured_all,
}
use kube_ephemerals.Controller.Reconcile.Activation.Steps.{
  ensure_developer_access_rbac-ensured, ensure_network_policy-ensured,
  ensure_reference_grant-ensured, ensure_httproute-ensured,
}
use kube_ephemerals.Controller.Reconcile.Activation.Run.{
  Run, Ordered, Stage-provisions, Ordered-helm_failed, Ordered-finish, Ordered-step,
  Ordered-first_step, Start,
}

module _ (r : Reconciler) (env : EphemeralEnv) where
  abbrev T : Reconciler
  T = traced_reconciler r

  -- What the steps up to the route have put into the log.
  abbrev with_access : List Event → Bool
  with_access log = ensured_namespace env log && ensured_access env log

  abbrev with_isolation : List Event → Bool
  with_isolation log = with_access log && ensured_isolation env log

  abbrev with_grant : List Event → Bool
  with_grant log = with_isolation log && ensured_grant env log

  abbrev with_route : List Event → Bool
  with_route log = with_grant log && ensured_route env log

  mono_access : Monotone with_access
  mono_access e log h = ground arith

  mono_isolation : Monotone with_isolation
  mono_isolation e log h = ground arith

  mono_grant : Monotone with_grant
  mono_grant e log h = ground arith

  mono_route : Monotone with_route
  mono_route e log h = ground arith

  all_of_route : (log : List Event) → with_route log ≡ true → ensured_all env log ≡ true
  all_of_route log h = ground arith

  Ordered-finish_route : (s : Run r env) → Stage r env with_route s → Ordered r env (finish T s).1
  Ordered-finish_route s j = Ordered-finish r env s (record {
    same_metadata = j.same_metadata;
    same_spec = j.same_spec;
    inactive = j.inactive;
    settled = j.settled;
    ordered = j.ordered;
    known = all_of_route s.world.log j.known;
  })

  Ordered-after_helm :
      (Q : Run r env → Type 0) (k : Handler (World T)) (x : Result (Unit {0}) × Run r env)
      → Ending (λ _. Q) (Ordered r env) x
      → ((s : Run r env) → Q s → Ordered r env (k s).1)
      → Ordered r env (after_helm T k x).1
  Ordered-after_helm Q k (ok tt, s) j then_ordered = then_ordered s j
  Ordered-after_helm Q k (err e, s) o then_ordered = Ordered-helm_failed r env e s o

  -- A deployment in the middle of a run.
  Ordered-deploy :
      (facts : List Event → Bool)
      → Monotone facts
      → (k : Handler (World T)) → ((s : Run r env) → Stage r env facts s → Ordered r env (k s).1)
      → (s : Run r env) → Stage r env facts s
      → Ordered r env (after_helm T k (deploy T s)).1
  Ordered-deploy facts mono k then_ordered s j =
      Ordered-after_helm (Stage r env facts) k (deploy T s)
        (ending (Stage r env facts) (Ordered r env) (λ _. Stage r env facts) (deploy T) s
          (Keeps-deploy T _ (Stage-provisions r env facts mono)) j (λ u e j'. j')
          (λ t j'. j'.ordered))
        then_ordered

  Ordered-deploy_last :
      (o : Option ℕ) (s : Run r env)
      → Stage r env with_route s
      → Ordered r env (deploy_last T o s).1
  Ordered-deploy_last none s j =
      Ordered-deploy with_route mono_route (finish T) Ordered-finish_route s j
  Ordered-deploy_last (some _) s j = Ordered-finish_route s j

  Ordered-publish :
      (name : String) (s : Run r env)
      → Stage r env with_grant s
      → Ordered r env (publish T name s).1
  unfolding publish
  Ordered-publish name s j =
      Ordered-step r env with_grant (ensured_route env) (ensure_httproute T name) _ _
        (Keeps-ensure_httproute T _ (Stage-provisions r env with_grant mono_grant).creates name
          (Stage-provisions r env with_grant mono_grant).notes)
        (λ t i e. ensure_httproute-ensured r env t i name e)
        (λ t i.
          Ordered-deploy_last _ _
            ((Keeps-ensure_admin T _ (Stage-provisions r env with_route mono_route)).at t i))
        s j

  -- A pending discovery writes the phase that the environment had.
  Ordered-after_discovery :
      (x : Result String × Run r env)
      → Stage r env with_grant x.1
      → Ordered r env (after_discovery T x).1
  unfolding set_status update_status
  Ordered-after_discovery (ok name, s) j = Ordered-publish name s j
  Ordered-after_discovery (err e, s) j = ground (arith, j.ordered, j.inactive)

  Ordered-route_by :
      (o : Option ℕ) (s : Run r env) → Stage r env with_grant s → Ordered r env (route_by T o s).1
  unfolding discover_and_publish
  Ordered-route_by none s j = Ordered-publish _ s j
  Ordered-route_by (some port) s j =
      Ordered-deploy with_grant mono_grant _
        (λ t i. Ordered-after_discovery _ (
          (Keeps-discover_service T _ (Stage-provisions r env with_grant mono_grant).reads
              (Stage-provisions r env with_grant mono_grant).lists port).at
            t i))
        s j

  Ordered-route : (s : Run r env) → Stage r env with_grant s → Ordered r env (route T s).1
  unfolding route
  Ordered-route s j = Ordered-route_by s.env.spec.service_port s j

  Ordered-grant :
      (s : Run r env)
      → Stage r env with_isolation s
      → Ordered r env
          (step T (ensure_reference_grant T) "Failed to create ReferenceGrant: " (route T) s).1
  Ordered-grant =
      Ordered-step r env with_isolation (ensured_grant env) (ensure_reference_grant T) _ _
        (Keeps-ensure_reference_grant T _
          (Stage-provisions r env with_isolation mono_isolation).creates)
        (λ t i e. ensure_reference_grant-ensured r env t i e) Ordered-route

  Ordered-network_policy :
      (s : Run r env)
      → Stage r env with_access s
      → Ordered r env
          (step T
            (ensure_network_policy T)
            "Failed to create NetworkPolicy: "
            (step T (ensure_reference_grant T) "Failed to create ReferenceGrant: " (route T))
            s).1
  Ordered-network_policy =
      Ordered-step r env with_access (ensured_isolation env) (ensure_network_policy T) _ _
        (Keeps-ensure_network_policy T _ (Stage-provisions r env with_access mono_access).creates
          (Stage-provisions r env with_access mono_access).notes)
        (λ t i e. ensure_network_policy-ensured r env t i e) Ordered-grant

  mono_namespace : Monotone (ensured_namespace env)
  mono_namespace e log h = ground arith

  Ordered-rbac :
      (s : Run r env)
      → Stage r env (ensured_namespace env) s
      → Ordered r env
          (step T
            (ensure_developer_access_rbac T)
            "Failed to create developer RBAC: "
            (step T
              (ensure_network_policy T)
              "Failed to create NetworkPolicy: "
              (step T (ensure_reference_grant T) "Failed to create ReferenceGrant: " (route T)))
            s).1
  Ordered-rbac =
      Ordered-step r env (ensured_namespace env) (ensured_access env)
        (ensure_developer_access_rbac T) _ _
        (Keeps-ensure_developer_access_rbac T _
          (Stage-provisions r env (ensured_namespace env) mono_namespace).creates
          (Stage-provisions r env (ensured_namespace env) mono_namespace).notes)
        (λ t i e. ensure_developer_access_rbac-ensured r env t i e) Ordered-network_policy

  pub Ordered-provision : (s : Run r env) → Start r env s → Ordered r env (provision T s).1
  unfolding provision
  Ordered-provision = Ordered-first_step r env _ _ Ordered-rbac
