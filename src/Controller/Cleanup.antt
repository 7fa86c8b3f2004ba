-- ===== src/Controller/Cleanup.antt =====
-- `cleanupNamespace`, `cleanupHTTPRoute`, `cleanupAdminHTTPRoute`, `uninstallHelmRelease`,
-- `handleDeletion` and `handleExpiration`.
pub mod Frame
pub mod Order
pub mod Safety
pub mod Effort
pub mod Progress
use kube_ephemerals.Prelude.{
  ℤ, pos, String, ◌<>◌, ◌==◌, Bool, true, false, Option, none, some, List, [], ◌∷◌, if◌then◌else◌,
}
use kube_ephemerals.Exec.{
  Failure, Result, ok, err, wrap, new_error, Exec, pure, raise, gets, wrapping, attempt, ◌>>=◌,
  ◌>>◌,
}
use kube_ephemerals.Api.Types.{
  Time, EphemeralEnv, ComponentStatus, expired, condition_true, condition_type_environment_expired,
}
use kube_ephemerals.Api.Helpers.{get_namespace_name, get_httproute_name}
use kube_ephemerals.Kube.Objects.{Object, Kind, ObjectKey, namespace_kind, httproute_kind}
use kube_ephemerals.Helm.Client.{HelmClient}
use kube_ephemerals.Controller.Base.{
  Reconciler, Session, Outcome, returned, Handler, World, ephemeral_env_finalizer, second, call,
  clock, set_status, set_condition, update_env, update_status, or_return,
}
use kube_ephemerals.Controller.Routes.{admin_route_name}

abbrev pub namespace_key : EphemeralEnv → ObjectKey
namespace_key env = record { name = get_namespace_name env; namespace = "" }

abbrev pub app_route_key : EphemeralEnv → ObjectKey
app_route_key env = record { name = get_httproute_name env; namespace = env.spec.gateway.namespace }

abbrev pub admin_route_key : EphemeralEnv → ObjectKey
admin_route_key env = record { name = admin_route_name env; namespace = env.spec.gateway.namespace }

module _ (r : Reconciler) where
  -- `apierrors.IsNotFound(err)` is success, any other error is wrapped.
  abbrev unless_not_found : String → Result (Unit {0}) → Exec (Session (World r)) (Unit {0})
  unless_not_found prefix (ok _) s = (ok tt, s)
  unless_not_found prefix (err e) s =
      if e.is_not_found then (ok tt, s) else (err (wrap prefix e), s)

  unfoldable pub delete_object : Kind → ObjectKey → String → Exec (Session (World r)) (Unit {0})
  delete_object kind key what =
      attempt (call (r.client.delete_object kind key))
        (unless_not_found ("failed to delete " <> what <> ": "))

  abbrev delete_unless_terminating :
      ObjectKey → String → Result Object → Exec (Session (World r)) (Unit {0})
  delete_unless_terminating key what (ok o) s = elim o.deletion_timestamp [
    | some _ ↦ (ok tt, s)
    | none ↦ delete_object namespace_kind key what s
  ]
  delete_unless_terminating key what (err e) s =
      if e.is_not_found then (ok tt, s) else (err (wrap ("failed to get " <> what <> ": ") e), s)

  unfoldable pub cleanup_namespace : Exec (Session (World r)) (Unit {0})
  cleanup_namespace = do
    env ← gets (λ s. s.env)
    attempt (call (r.client.get_object namespace_kind (namespace_key env)))
        (delete_unless_terminating (namespace_key env) ("namespace " <> get_namespace_name env))

  abbrev delete_found : ObjectKey → String → Result Object → Exec (Session (World r)) (Unit {0})
  delete_found key what (ok o) s = delete_object httproute_kind key what s
  delete_found key what (err e) s =
      if e.is_not_found then (ok tt, s) else (err (wrap ("failed to get " <> what <> ": ") e), s)

  unfoldable pub cleanup_httproute : Exec (Session (World r)) (Unit {0})
  cleanup_httproute = do
    env ← gets (λ s. s.env)
    let key = app_route_key env
    attempt (call (r.client.get_object httproute_kind key))
        (delete_found key ("HTTPRoute " <> key.namespace <> "/" <> key.name))

  unfoldable pub cleanup_admin_httproute : Exec (Session (World r)) (Unit {0})
  cleanup_admin_httproute = do
    env ← gets (λ s. s.env)
    let key = admin_route_key env
    attempt (call (r.client.get_object httproute_kind key))
        (delete_found key ("Admin HTTPRoute " <> key.namespace <> "/" <> key.name))

  -- An error is logged, and the code goes on.
  unfoldable pub ignoring :
      Exec (Session (World r)) (Unit {0}) → Exec (Session (World r)) (Unit {0})
  ignoring m = attempt m (λ _. pure tt)

  module _ (helm : HelmClient (World r) r.library.Values) where
    abbrev uninstall_if : String → String → Result Bool → Exec (Session (World r)) (Unit {0})
    uninstall_if release namespace (ok true) s =
        ignoring (call (helm.uninstall release namespace)) s
    uninstall_if release namespace (ok false) s = (ok tt, s)
    uninstall_if release namespace (err e) s = (ok tt, s)

    -- The body of the loop over the tracked components: no error leaves it.
    unfoldable pub uninstall_component :
        String → ComponentStatus → Exec (Session (World r)) (Unit {0})
    unfolding ignoring
    uninstall_component namespace c =
        if c.release_name == ""
        then pure tt
        else attempt (call (helm.is_installed c.release_name namespace))
            (uninstall_if c.release_name namespace)

    unfoldable pub uninstall_components :
        String → List ComponentStatus → Exec (Session (World r)) (Unit {0})
    uninstall_components namespace [] = pure tt
    uninstall_components namespace (c ∷ cs) = do
      uninstall_component namespace c
      uninstall_components namespace cs

    -- The fallback to the single release name.
    unfoldable pub uninstall_legacy : Exec (Session (World r)) (Unit {0})
    uninstall_legacy = do
      env ← gets (λ s. s.env)
      let release = "env-" <> env.metadata.name
      let namespace = env.status.active_namespace
      installed ←
          wrapping "failed to check Helm release status: "
            (call (helm.is_installed release namespace))
      if installed
          then wrapping ("failed to uninstall Helm release " <> release <> ": ")
              (call (helm.uninstall release namespace))
          else pure tt

    abbrev uninstall_tracked : List ComponentStatus → Exec (Session (World r)) (Unit {0})
    uninstall_tracked [] s = uninstall_legacy s
    uninstall_tracked (c ∷ cs) s = uninstall_components s.env.status.active_namespace (c ∷ cs) s

  abbrev uninstall_with :
      Option (HelmClient (World r) r.library.Values) → Exec (Session (World r)) (Unit {0})
  uninstall_with none s = (ok tt, s)
  uninstall_with (some helm) s = uninstall_tracked helm s.env.status.component_statuses s

  unfoldable pub uninstall_helm_release : Exec (Session (World r)) (Unit {0})
  unfolding uninstall_components uninstall_legacy
  uninstall_helm_release = uninstall_with r.helm_client

  unfoldable pub set_finalizers : List String → Exec (Session (World r)) (Unit {0})
  set_finalizers fs s = (
    ok tt,
    record s { env = record s.env { metadata = record s.env.metadata { finalizers = fs } } },
  )

  -- `controllerutil.RemoveFinalizer` and the update that follows it
  unfoldable pub remove_finalizer : Exec (Session (World r)) (Unit {0})
  remove_finalizer = do
    env ← gets (λ s. s.env)
    set_finalizers (r.library.remove_finalizer env.metadata.finalizers ephemeral_env_finalizer)
    wrapping "failed to remove finalizer: " (update_env r)

  abbrev release_env : Result (Unit {0}) × Session (World r) → Outcome × Session (World r)
  release_env (ok _, s) = or_return remove_finalizer (λ s'. (returned (pos 0) none, s')) s
  release_env (err e, s) = (returned (pos 5000000000) (some e), s)

  -- The routes and the releases: no error stops the cleanup.
  unfoldable pub cleanup_dependents : Exec (Session (World r)) (Unit {0})
  unfolding ignoring
  cleanup_dependents = do
    ignoring cleanup_admin_httproute
    ignoring cleanup_httproute
    ignoring uninstall_helm_release

  unfoldable pub handle_deletion : Handler (World r)
  unfolding remove_finalizer
  handle_deletion s =
      if r.library.contains_finalizer s.env.metadata.finalizers ephemeral_env_finalizer
      then release_env (cleanup_namespace (cleanup_dependents s).1)
      else (returned (pos 0) none, s)

  -- The namespace could not be cleaned up: the message says so, and the run is tried again.
  abbrev expiration_failed : Failure → Handler (World r)
  expiration_failed e s =
      let message = "Environment expired but cleanup failed: " <> e.text in
      let (_, s') = update_status r (set_status (λ st. record st { message = message }) s).1 in
      (returned (pos 30000000000) (some e), s')

  unfoldable pub record_reconcile_time : Exec (Session (World r)) (Unit {0})
  record_reconcile_time = do
    now ← clock r
    set_status (λ st. record st { last_reconcile_time = some now })

  unfoldable pub store_status : Exec (Session (World r)) (Unit {0})
  store_status = wrapping "failed to update status: " (update_status r)

  abbrev pub expiration_done : Result (Unit {0}) × Session (World r) → Outcome × Session (World r)
  expiration_done (ok _, s) =
      or_return (do record_reconcile_time; store_status) (λ s'. (returned (pos 0) none, s')) s
  expiration_done (err e, s) = expiration_failed e s

  unfoldable pub mark_expired : Exec (Session (World r)) (Unit {0})
  mark_expired = do
    set_status (λ st. record st {
      phase = expired;
      message = "Environment has expired and is being cleaned up";
    })
    set_condition r condition_type_environment_expired condition_true "TTLExpired"
        "The environment TTL has expired"

  unfoldable pub expire_dependents : Exec (Session (World r)) (Unit {0})
  unfolding ignoring
  expire_dependents = do mark_expired; ignoring cleanup_httproute; ignoring uninstall_helm_release

  unfoldable pub handle_expiration : Handler (World r)
  handle_expiration s = expiration_done (cleanup_namespace (expire_dependents s).1)
