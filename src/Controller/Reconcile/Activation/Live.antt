-- ===== src/Controller/Reconcile/Activation/Live.antt =====
-- Activation from the initialisation of an environment on.
use kube_ephemerals.Prelude.{true, [], Bool-cases, inl, inr, ◌≡◌, ◌≢◌, refl, arith}
use kube_ephemerals.Exec.{Result, ok, err, wrapping, ◌>>=◌}
use kube_ephemerals.Api.Types.{
  EphemeralEnv, EphemeralEnvPhase, unset, pending, active, failed, expired,
}
use kube_ephemerals.Api.Helpers.{is_expired}
use kube_ephemerals.Kube.Trace.{only_after}
use kube_ephemerals.Controller.Base.{Reconciler, set_status, update_status, clock, or_return}
use kube_ephemerals.Controller.Frame.{Notes, Stable}
use kube_ephemerals.Controller.Traced.{traced_reconciler, on_call, fresh, of_traced}
use kube_ephemerals.Controller.Cleanup.{
  handle_expiration, expiration_done, expire_dependents, cleanup_namespace, record_reconcile_time,
  store_status,
}
use kube_ephemerals.Controller.Cleanup.Frame.{
  Cleans, Keeps-cleanup_namespace, Keeps-expire_dependents,
}
use kube_ephemerals.Controller.Reconcile.{initialize, initial_phase, reconcile_live}
use kube_ephemerals.Controller.Reconcile.Activation.{is_activation, ensured_all}
use kube_ephemerals.Controller.Reconcile.Activation.Run.{Ordered, Run}
use kube_ephemerals.Controller.Reconcile.Activation.Order.{Ordered-provision}

module _ (r : Reconciler) (env : EphemeralEnv) where
  abbrev T : Reconciler
  T = traced_reconciler r

  -- An expiration keeps the environment inactive.
  record Inactive (s : Run r env) : Type 0 where
    pub inactive : s.env.status.phase ≢ active
    pub ordered : Ordered r env s

  cleans-Inactive : Cleans T Inactive
  cleans-Inactive = record {
    gets_object = λ d k s j. record { inactive = j.inactive; ordered = ground (arith, j.ordered) };
    deletes_object =
        λ d k s j. record { inactive = j.inactive; ordered = ground (arith, j.ordered) };
    checks = λ h n ns.
        of_traced r (λ h. Stable Inactive (h.is_installed n ns)) r.helm_client
          (λ h₀ s j. record { inactive = j.inactive; ordered = ground (arith, j.ordered) }) h;
    uninstalls = λ h n ns.
        of_traced r (λ h. Stable Inactive (h.uninstall n ns)) r.helm_client
          (λ h₀ s j. record { inactive = j.inactive; ordered = ground (arith, j.ordered) }) h;
  }

  notes-Inactive : Notes T Inactive
  notes-Inactive = record {
    clocked = λ s j. record { inactive = j.inactive; ordered = j.ordered };
    restatus = λ f minor s j. record {
      inactive = rw (minor s.env.status).0 j.inactive;
      ordered = j.ordered;
    };
  }

  Ordered-expiration_done :
      (x : Result (Unit {0}) × Run r env) → Inactive x.1 → Ordered r env (expiration_done T x).1
  unfolding record_reconcile_time store_status set_status update_status clock ◌>>=◌ wrapping
      or_return
  Ordered-expiration_done (ok tt, t) j = ground (arith, j.inactive, j.ordered)
  Ordered-expiration_done (err e, t) j = ground (arith, j.inactive, j.ordered)

  expired-inactive : expired ≢ active
  expired-inactive h = ground (arith, h)

  Ordered-handle_expiration : (s : Run r env) → Inactive s → Ordered r env (handle_expiration T s).1
  unfolding handle_expiration
  Ordered-handle_expiration s j =
      Ordered-expiration_done (cleanup_namespace T (expire_dependents T s).1) (
        (Keeps-cleanup_namespace T _ cleans-Inactive).at (expire_dependents T s).1 (
          (Keeps-expire_dependents T _ cleans-Inactive notes-Inactive
              (λ m s j. record { inactive = expired-inactive; ordered = j.ordered })).at
            s j))

initial_phase-inactive :
    (r : Reconciler) (p : EphemeralEnvPhase) → p ≢ active → initial_phase r p ≢ active
initial_phase-inactive r unset n h = ground (arith, h)
initial_phase-inactive r pending n h = ground (arith, h)
initial_phase-inactive r active n h = n h
initial_phase-inactive r failed n h = ground (arith, h)
initial_phase-inactive r expired n h = ground (arith, h)

module _ (r : Reconciler) (w : r.client.World) (env : EphemeralEnv) where
  -- The session of a live environment once it is initialised and the clock was read.
  abbrev initialised : Run r env
  initialised = record {
    world = record { world = (r.client.now w).1; log = [] };
    env = initialize (traced_reconciler r) env;
  }

  -- If an environment that is not active comes to the initialisation and all the steps after it, then
  -- at the moment of each status write with the phase `Active` the log holds, accepted by the API
  -- server: its namespace; in it the developers' service account, role and role binding, the deny-all
  -- policy if it is isolated, and the reference grant if the gateway is in another namespace; and its
  -- route in the gateway's namespace. This includes a run that finds it expired.
  pub reconcile_live-only_after :
      env.status.phase ≢ active
      → only_after
          (ensured_all env)
          (on_call is_activation)
          (reconcile_live (traced_reconciler r) (fresh w env)).1.world.log
        ≡ true
  unfolding reconcile_live initialize
  reconcile_live-only_after n =
      elim (Bool-cases (is_expired (r.client.now w).0 (initialize (traced_reconciler r) env))) [
        | inl y ↦ rw y (
            Ordered-handle_expiration r env initialised
              (record { inactive = initial_phase-inactive r env.status.phase n; ordered = refl }))
        | inr e ↦ rw e (
            Ordered-provision r env initialised (record {
              same_metadata = refl;
              same_spec = refl;
              inactive = initial_phase-inactive r env.status.phase n;
              ordered = refl;
            }))
      ]
