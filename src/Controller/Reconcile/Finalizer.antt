-- ===== src/Controller/Reconcile/Finalizer.antt =====
-- The finalizer is stored before anything is created.
use kube_ephemerals.Prelude.{true, false, any, Bool-cases, inl, inr, ◌≡◌, refl, arith}
use kube_ephemerals.Exec.{Result, ok, err, gets, wrapping, ◌>>=◌}
use kube_ephemerals.Api.Types.{EphemeralEnv}
use kube_ephemerals.Api.Helpers.{is_expired}
use kube_ephemerals.Kube.Objects.{ObjectKey}
use kube_ephemerals.Kube.Trace.{only_after}
use kube_ephemerals.Controller.Base.{
  Reconciler, ephemeral_env_finalizer, update_env, fetch_env, or_return, return_error_after,
}
use kube_ephemerals.Controller.Traced.{traced_reconciler, on_call, fresh}
use kube_ephemerals.Controller.Cleanup.{set_finalizers}
use kube_ephemerals.Controller.Cleanup.Safety.{makes}
use kube_ephemerals.Controller.Reconcile.{
  initialize, reconcile_live, add_finalizer, guard_finalizer,
}
use kube_ephemerals.Controller.Reconcile.Handlers.{Leads, Leads-provision, Leads-handle_expiration}
use kube_ephemerals.Controller.Reconcile.Guarded.{
  AddsFinalizer, stores_finalizer, Guarded, same, provides-Guarded, expires-Guarded, Run,
}

module _ (r : Reconciler) where
  abbrev T : Reconciler
  T = traced_reconciler r

  Leads-reconcile_live : Leads T (Guarded r) (reconcile_live T)
  unfolding reconcile_live
  Leads-reconcile_live s j =
      let t : Run r = record { world = (T.client.now s.world).1; env = initialize T s.env } in
      elim (Bool-cases (is_expired (T.client.now s.world).0 (initialize T s.env))) [
        | inl y ↦
            rw y (Leads-handle_expiration T (Guarded r) (expires-Guarded r) t (same r _ _ s j))
        | inr n ↦ rw n (Leads-provision T (Guarded r) (provides-Guarded r) t (same r _ _ s j))
      ]

module _ (r : Reconciler) (key : ObjectKey) (w : r.client.World) (env : EphemeralEnv) where
  abbrev added : Result (Unit {0}) × Run r
  added = add_finalizer (traced_reconciler r) key (fresh w env)

  added-stores :
      AddsFinalizer r.library
      → added.0 ≡ ok tt
      → any (stores_finalizer r.library) added.1.world.log ≡ true
  unfolding add_finalizer set_finalizers update_env fetch_env wrapping gets ◌>>=◌
  added-stores law h = ground (arith, h, law env.metadata.finalizers ephemeral_env_finalizer)

  added-makes_nothing :
      only_after (any (stores_finalizer r.library)) (on_call makes) added.1.world.log ≡ true
  unfolding add_finalizer set_finalizers update_env fetch_env wrapping gets ◌>>=◌
  added-makes_nothing = ground arith

  -- If an environment that has no finalizer comes to the finalizer's step and all that follow, and
  -- `AddFinalizer` leaves a list in which `ContainsFinalizer` finds the finalizer, then each creation
  -- or update of an object and each installation of a release comes after the server accepted the
  -- environment with the finalizer.
  pub guard_finalizer-only_after :
      AddsFinalizer r.library
      → r.library.contains_finalizer env.metadata.finalizers ephemeral_env_finalizer ≡ false
      → only_after
          (any (stores_finalizer r.library))
          (on_call makes)
          (guard_finalizer (traced_reconciler r) key (fresh w env)).1.world.log
        ≡ true
  unfolding guard_finalizer or_return
  guard_finalizer-only_after law n = rw n (by_result added (added-stores law) added-makes_nothing)
    where
      by_result :
          (x : Result (Unit {0}) × Run r)
          → (x.0 ≡ ok tt → any (stores_finalizer r.library) x.1.world.log ≡ true)
          → only_after (any (stores_finalizer r.library)) (on_call makes) x.1.world.log ≡ true
          → only_after
              (any (stores_finalizer r.library))
              (on_call makes)
              (return_error_after (reconcile_live (traced_reconciler r)) x).1.world.log
            ≡ true
      by_result (ok tt, t) s o =
          (Leads-reconcile_live r t (record { stored = s refl; ordered = o })).ordered
      by_result (err e, t) s o = o
