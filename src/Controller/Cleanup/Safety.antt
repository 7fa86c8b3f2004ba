-- ===== src/Controller/Cleanup/Safety.antt =====
-- What a deletion and an expiration never do, and what an expiration that succeeds has done.
use mathlib.Core.Path.{subst}
use kube_ephemerals.Prelude.{
  String, ◌<>◌, Bool, true, false, none, List, Bool-cases, ◌≡◌, refl, ap, arith, inl, inr,
}
use kube_ephemerals.Exec.{Result, ok, err, gets, wrapping, ◌>>=◌}
use kube_ephemerals.Api.Types.{Duration, EphemeralEnv}
use kube_ephemerals.Api.Helpers.{get_namespace_name, namespace_prefix}
use kube_ephemerals.Kube.Trace.{Call, wrote, installed, updated_env, Event, only_after}
use kube_ephemerals.Controller.Base.{
  Reconciler, Session, World, returned, ephemeral_env_finalizer, set_status, update_env,
  update_status, clock, or_return,
}
use kube_ephemerals.Controller.Traced.{
  traced_reconciler, on_call, fresh, cleans, OnLog, only_after-Grows, notes,
}
use kube_ephemerals.Controller.Cleanup.{
  handle_deletion, handle_expiration, release_env, remove_finalizer, set_finalizers,
  cleanup_dependents, cleanup_namespace, expire_dependents, expiration_done, record_reconcile_time,
  store_status,
}
use kube_ephemerals.Controller.Cleanup.Frame.{
  Cleans, Keeps-cleanup_dependents, Keeps-cleanup_namespace, Keeps-expire_dependents,
}
use kube_ephemerals.Controller.Cleanup.Order.{gone, cleanup_namespace_confirms}

-- No call of the log satisfies `q`.
abbrev pub never : (Call → Bool) → List Event → Bool
never q = only_after (λ _. false) (on_call q)

-- Creating or updating an object of the cluster, and installing a release.
abbrev pub makes : Call → Bool
makes (wrote o) = true
makes (installed n ns) = true
makes _ = false

abbrev pub makes_or_updates : Call → Bool
makes_or_updates (updated_env e) = true
makes_or_updates c = makes c

module _ (r : Reconciler) where
  abbrev T : Reconciler
  T = traced_reconciler r

  never-cleans : Cleans T (OnLog r (λ log. never makes log ≡ true) makes)
  never-cleans =
      cleans r _ makes (only_after-Grows (λ _. false) makes) (λ d k. refl) (λ d k. refl)
        (λ n ns. refl) (λ n ns. refl)

  never-release_env :
      (x : Result (Unit {0}) × Session (World (traced_reconciler r)))
      → never makes x.1.world.log ≡ true
      → never makes (release_env T x).1.world.log ≡ true
  unfolding remove_finalizer set_finalizers gets ◌>>=◌ wrapping update_env or_return
  never-release_env (ok tt, t) o = ground (arith, o)
  never-release_env (err e, t) o = o

  -- A deletion creates or updates no object of the cluster and installs no release.
  pub handle_deletion-never :
      (w : r.client.World) (env : EphemeralEnv)
      → never makes (handle_deletion T (fresh w env)).1.world.log ≡ true
  unfolding handle_deletion
  handle_deletion-never w env =
      elim (Bool-cases
        (r.library.contains_finalizer env.metadata.finalizers ephemeral_env_finalizer)) [
          | inl y ↦ rw y (
              never-release_env (cleanup_namespace T (cleanup_dependents T (fresh w env)).1) (
                (Keeps-cleanup_namespace T _ never-cleans).at (cleanup_dependents T (fresh w env)).1
                  ((Keeps-cleanup_dependents T _ never-cleans).at (fresh w env) refl)))
          | inr n ↦ rw n
        ]

  updates-cleans : Cleans T (OnLog r (λ log. never makes_or_updates log ≡ true) makes_or_updates)
  updates-cleans =
      cleans r _ makes_or_updates (only_after-Grows (λ _. false) makes_or_updates) (λ d k. refl)
        (λ d k. refl) (λ n ns. refl) (λ n ns. refl)

  never-expiration_done :
      (x : Result (Unit {0}) × Session (World (traced_reconciler r)))
      → never makes_or_updates x.1.world.log ≡ true
      → never makes_or_updates (expiration_done T x).1.world.log ≡ true
  unfolding record_reconcile_time store_status set_status update_status clock ◌>>=◌ wrapping
      or_return
  never-expiration_done (ok tt, t) o = ground (arith, o)
  never-expiration_done (err e, t) o = ground (arith, o)

  -- An expiration creates or updates no object of the cluster, installs no release, and never
  -- updates the environment outside its status, so that its finalizer stays.
  pub handle_expiration-never :
      (w : r.client.World) (env : EphemeralEnv)
      → never makes_or_updates (handle_expiration T (fresh w env)).1.world.log ≡ true
  unfolding handle_expiration
  handle_expiration-never w env = never-expiration_done _ (
      (Keeps-cleanup_namespace T _ updates-cleans).at _ (
        (Keeps-expire_dependents T _ updates-cleans (notes r _ makes_or_updates) (λ m s j. j)).at
          (fresh w env) refl))

  abbrev SameName : EphemeralEnv → Session (World (traced_reconciler r)) → Type 0
  SameName env s = s.env.metadata ≡ env.metadata

  same_name : (env : EphemeralEnv) → Cleans T (SameName env)
  same_name env = record {
    gets_object = λ d k s j. j;
    deletes_object = λ d k s j. j;
    checks = λ h n ns _ s j. j;
    uninstalls = λ h n ns _ s j. j;
  }

  gone-expiration_done :
      (name : String) (d : Duration) (x : Result (Unit {0}) × Session (World (traced_reconciler r)))
      → (x.0 ≡ ok tt → gone name x.1.world.log ≡ true)
      → (expiration_done T x).0 ≡ returned d none
      → gone name (expiration_done T x).1.world.log ≡ true
  unfolding record_reconcile_time store_status set_status update_status clock ◌>>=◌ wrapping
      or_return
  gone-expiration_done name d (ok tt, t) c h = ground (arith, c refl)
  gone-expiration_done name d (err e, t) c h = absurd (ground (arith, h))

  -- An expiration that ends without an error has an answer that shows the environment's namespace
  -- absent or terminating.
  pub handle_expiration-gone :
      (w : r.client.World) (env : EphemeralEnv) (d : Duration)
      → (handle_expiration T (fresh w env)).0 ≡ returned d none
      → gone (get_namespace_name env) (handle_expiration T (fresh w env)).1.world.log ≡ true
  unfolding handle_expiration get_namespace_name
  handle_expiration-gone w env d h =
      let s = (expire_dependents T (fresh w env)).1 in
      let m : s.env.metadata ≡ env.metadata =
        (Keeps-expire_dependents T (SameName env) (same_name env)
            (record { clocked = λ t j. j; restatus = λ f minor t j. j }) (λ m t j. j)).at
          (fresh w env) refl in
      gone-expiration_done (get_namespace_name env) d (cleanup_namespace T s)
        (λ e.
          subst (λ n. gone n (cleanup_namespace T s).1.world.log ≡ true)
            (ap (λ x. namespace_prefix <> x.name) m) (cleanup_namespace_confirms r s e))
        h
