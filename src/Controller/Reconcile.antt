-- ===== src/Controller/Reconcile.antt =====
-- `Reconcile`. Each step is the step of that number in the source.
pub mod Frame
pub mod Handlers
pub mod Lifetime
pub mod Activation
pub mod Progress
pub mod Requeue
pub mod Guarded
pub mod Finalizer
pub mod Initial
use kube_ephemerals.Prelude.{
  ℕ, ℤ, pos, ◌-ℤ◌, ltb_ℤ, ◌≤ℤ◌, String, ◌<>◌, ◌==◌, Bool, true, false, not, ◌&&◌, Option, none,
  some, List, [], ◌∷◌, if◌then◌else◌,
}
use kube_ephemerals.Exec.{
  Failure, Result, ok, err, wrap, Exec, pure, raise, gets, wrapping, attempt, ◌>>=◌, ◌>>◌,
}
use kube_ephemerals.Api.Types.{
  Time, Duration, EphemeralEnvPhase, EphemeralEnv, EphemeralEnvStatus, DeployedComponentSpec, unset,
  pending, active, failed, expired, condition_false, condition_type_helm_deployed,
}
use kube_ephemerals.Api.Helpers.{calculate_expiration_time, is_expired}
use kube_ephemerals.Kube.Objects.{ObjectKey}
use kube_ephemerals.Helm.Client.{HelmClient}
use kube_ephemerals.Controller.Base.{
  Reconciler, Session, Outcome, returned, panicked, Handler, World, ephemeral_env_finalizer, second,
  call, clock, set_status, set_condition, update_env, update_status, fetch_env, or_return,
  reconcile_step_on_error,
}
use kube_ephemerals.Controller.Resources.{
  ensure_namespace, ensure_developer_access_rbac, ensure_network_policy,
}
use kube_ephemerals.Controller.Routes.{
  ensure_httproute, ensure_admin_httproute, ensure_reference_grant,
}
use kube_ephemerals.Controller.Components.{resolve_components, ensure_helm_release}
use kube_ephemerals.Controller.Discovery.{discover_service}
use kube_ephemerals.Controller.Cleanup.{
  handle_deletion, handle_expiration, set_finalizers, ignoring, record_reconcile_time, store_status,
}

-- `time.Time.Sub` saturates at the ends of an `int64`.
abbrev pub max_duration : Duration
max_duration = pos 9223372036854775807

abbrev pub min_duration : Duration
min_duration = ℤ.negsuc 9223372036854775807

abbrev pub saturated : ℤ → Duration
saturated d =
    if ltb_ℤ max_duration d then max_duration else if ltb_ℤ d min_duration then min_duration else d

-- `time.Until(t)` at the instant `now`
abbrev pub time_until : Time → Time → Duration
time_until t now = saturated (t -ℤ now)

-- `if requeueAfter < 0 { requeueAfter = time.Second }`
unfoldable pub requeue_delay : Time → Time → Duration
requeue_delay expiration now =
    let requeue_after = time_until expiration now in
    if ltb_ℤ requeue_after (pos 0) then second else requeue_after

module _ (r : Reconciler) where
  abbrev after_step :
      String
      → Handler (World r)
      → Result (Unit {0}) × Session (World r)
      → Outcome × Session (World r)
  after_step message k (ok _, s) = k s
  after_step message k (err e, s) = reconcile_step_on_error r (some e) (message <> e.text) s

  -- `if err := …; err != nil { return r.reconcileStepOnError(…) }`
  unfoldable pub step :
      Exec (Session (World r)) (Unit {0}) → String → Handler (World r) → Handler (World r)
  step m message k s = after_step message k (m s)

  unfoldable pub mark_helm_failed : Failure → Exec (Session (World r)) (Unit {0})
  mark_helm_failed e = do
    set_status
        (λ st. record st { phase = failed; message = "Failed to deploy Helm chart: " <> e.text })
    set_condition r condition_type_helm_deployed condition_false "HelmDeploymentFailed"
        ("Helm deployment failed: " <> e.text)

  unfoldable pub reconcile_helm_failed : Failure → Handler (World r)
  reconcile_helm_failed e s =
      let (_, s') = update_status r (mark_helm_failed e s).1 in (returned (pos 0) (some e), s')

  abbrev after_helm :
      Handler (World r) → Result (Unit {0}) × Session (World r) → Outcome × Session (World r)
  after_helm k (ok _, s) = k s
  after_helm k (err e, s) = reconcile_helm_failed e s

  abbrev deploy_resolved :
      HelmClient (World r) r.library.Values
      → List DeployedComponentSpec
      → Exec (Session (World r)) (Unit {0})
  deploy_resolved helm [] s = (ok tt, s)
  deploy_resolved helm (c ∷ cs) s = ensure_helm_release r helm s

  abbrev deploy_with :
      Option (HelmClient (World r) r.library.Values) → Exec (Session (World r)) (Unit {0})
  deploy_with none s = (ok tt, s)
  deploy_with (some helm) s =
      (do components ← resolve_components r; deploy_resolved helm components) s

  -- With a Helm client, and with components to deploy. The components are resolved here, and
  -- resolved again by `ensure_helm_release`.
  unfoldable pub deploy : Exec (Session (World r)) (Unit {0})
  deploy = deploy_with r.helm_client

  -- `requeueAfter := time.Until(ephemeralEnv.Status.ExpirationTime.Time)`
  abbrev requeue_at : Option Time → Handler (World r)
  requeue_at none s = (panicked, s)
  requeue_at (some expiration) s =
      let (now, w) = r.client.now s.world in
      (returned (requeue_delay expiration now) none, record s { world = w })

  unfoldable pub requeue : Handler (World r)
  requeue s = requeue_at s.env.status.expiration_time s

  unfoldable pub activate : Exec (Session (World r)) (Unit {0})
  activate = do
    set_status
        (λ st. record st { phase = active; message = "Environment is active and accessible" })
    record_reconcile_time r
    store_status r

  unfoldable pub finish : Handler (World r)
  unfolding activate requeue
  finish = or_return activate requeue

  -- Step 12, where the service port is not set.
  abbrev deploy_last : Option ℕ → Handler (World r)
  deploy_last none s = after_helm finish (deploy s)
  deploy_last (some _) s = finish s

  -- Step 11: an error is logged only.
  unfoldable pub ensure_admin : Exec (Session (World r)) (Unit {0})
  ensure_admin =
      if not (r.operator_service == "") && not (r.operator_namespace == "")
      then ignoring r (ensure_admin_httproute r r.operator_service r.operator_namespace)
      else pure tt

  -- Steps 10c to 12.
  unfoldable pub publish : String → Handler (World r)
  unfolding step finish ensure_admin deploy reconcile_helm_failed
  publish service_name =
      step (ensure_httproute r service_name) "Failed to create HTTPRoute: "
        (λ s. let s' = (ensure_admin s).1 in deploy_last s'.env.spec.service_port s')

  abbrev after_discovery : Result String × Session (World r) → Outcome × Session (World r)
  after_discovery (ok name, s) = publish name s
  after_discovery (err e, s) =
      let message = "Waiting for service discovery: " <> e.text in
      let (_, s') = update_status r (set_status (λ st. record st { message = message }) s).1 in
      (returned (pos 5000000000) none, s')

  -- Steps 10a and 10b.
  unfoldable pub discover_and_publish : ℕ → Handler (World r)
  unfolding publish
  discover_and_publish port s =
      after_helm (λ s'. after_discovery (discover_service r port s')) (deploy s)

  abbrev route_by : Option ℕ → Handler (World r)
  route_by none s = publish s.env.spec.gateway.service_name s
  route_by (some port) s = discover_and_publish port s

  unfoldable pub route : Handler (World r)
  unfolding discover_and_publish
  route s = route_by s.env.spec.service_port s

  -- Steps 7 to 12.
  unfoldable pub provision : Handler (World r)
  unfolding step route
  provision = step (ensure_namespace r) "Failed to create namespace: " (
      step (ensure_developer_access_rbac r) "Failed to create developer RBAC: " (
        step (ensure_network_policy r) "Failed to create NetworkPolicy: "
          (step (ensure_reference_grant r) "Failed to create ReferenceGrant: " route)))

  -- Step 4.
  abbrev pub initial_phase : EphemeralEnvPhase → EphemeralEnvPhase
  initial_phase unset = pending
  initial_phase p = p

  -- Step 5.
  abbrev pub initial_expiration : EphemeralEnv → Option Time → Option Time
  initial_expiration env none = some (calculate_expiration_time r.library.parse_duration env)
  initial_expiration env (some t) = some t

  unfoldable pub initialize : EphemeralEnv → EphemeralEnv
  initialize env = record env {
    status = record env.status {
      phase = initial_phase env.status.phase;
      expiration_time = initial_expiration env env.status.expiration_time;
    };
  }

  -- Steps 4 to 6 and what follows.
  unfoldable pub reconcile_live : Handler (World r)
  unfolding provision
  reconcile_live s =
      let env = initialize s.env in
      let (now, w) = r.client.now s.world in
      let s' : Session (World r) = record { world = w; env = env } in
      if is_expired now env then handle_expiration r s' else provision s'

  unfoldable pub add_finalizer : ObjectKey → Exec (Session (World r)) (Unit {0})
  add_finalizer key = do
    env ← gets (λ s. s.env)
    let finalizers = r.library.add_finalizer env.metadata.finalizers ephemeral_env_finalizer
    set_finalizers r finalizers
    wrapping "failed to add finalizer: " (update_env r)
    wrapping "failed to re-fetch EphemeralEnv after adding finalizer: "
        (fetch_env r key.name key.namespace)

  -- Step 3.
  unfoldable pub guard_finalizer : ObjectKey → Handler (World r)
  unfolding add_finalizer reconcile_live
  guard_finalizer key s =
      if r.library.contains_finalizer s.env.metadata.finalizers ephemeral_env_finalizer
      then reconcile_live s
      else or_return (add_finalizer key) reconcile_live s

  -- Step 2.
  unfoldable pub reconcile_fetched : ObjectKey → Handler (World r)
  unfolding guard_finalizer
  reconcile_fetched key s = elim s.env.metadata.deletion_timestamp [
    | some _ ↦ handle_deletion r s
    | none ↦ guard_finalizer key s
  ]

  abbrev after_fetch : ObjectKey → Result EphemeralEnv × World r → Outcome × World r
  after_fetch key (ok env, w) =
      let (o, s) = reconcile_fetched key (record { world = w; env = env }) in (o, s.world)
  after_fetch key (err e, w) =
      if e.is_not_found
      then (returned (pos 0) none, w)
      else (returned (pos 0) (some (wrap "failed to fetch EphemeralEnv: " e)), w)

  -- Step 1 and all that follows.
  unfoldable pub reconcile : ObjectKey → World r → Outcome × World r
  unfolding reconcile_fetched
  reconcile key w = after_fetch key (r.client.get_env key w)
