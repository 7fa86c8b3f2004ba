-- ===== src/Controller/Reconcile/Progress/Done.antt =====
-- A reconciliation of a live environment gets through.
use mathlib.Core.Path.{subst}
use kube_ephemerals.Prelude.{
  ℕ, true, false, Option, some, none, if◌then◌else◌, ◌≡◌, refl, sym, ap, ◌∙◌,
}
use kube_ephemerals.Exec.{Result, ok}
use kube_ephemerals.Api.Types.{Time, EphemeralEnv, active}
use kube_ephemerals.Api.Template.{EnvironmentTemplate}
use kube_ephemerals.Api.Helpers.{get_namespace_name, is_expired}
use kube_ephemerals.Kube.Objects.{ObjectKey}
use kube_ephemerals.Controller.Base.{
  Reconciler, Session, Outcome, World, ephemeral_env_finalizer, or_return,
}
use kube_ephemerals.Controller.Cleanup.{handle_deletion}
use kube_ephemerals.Controller.Components.Releases.{chosen}
use kube_ephemerals.Controller.Discovery.Sound.{SortKeeps}
use kube_ephemerals.Controller.Reconcile.{
  reconcile, after_fetch, reconcile_fetched, guard_finalizer, add_finalizer, initialize,
  reconcile_live,
}
use kube_ephemerals.Controller.Reconcile.Progress.Deployment.{all_parse}
use kube_ephemerals.Controller.Reconcile.Progress.Ready.{Cooperates}
use kube_ephemerals.Controller.Reconcile.Progress.Live.{Lists, Leads-provision}
use kube_ephemerals.Controller.Reconcile.Progress.Leads.{Requeued}

-- On a cluster that serves the reconciler, with a sort that keeps the elements, let the environment
-- have the expiration time `t` after its initialisation and not be expired at the instant the clock
-- gives, let the values of all components that are chosen for it parse, and let an eligible service
-- be listed in its namespace if it has a service port. Then the reconciliation from the
-- initialisation on ends without an error. Its last two calls write a status with the phase `Active`
-- and then read the clock; its delay is the requeue delay until `t` at the instant of that reading,
-- and the environment that it leaves has the phase `Active`.
pub reconcile_live-activates :
    (r : Reconciler) (Up : World r → Type 0) (templates : ObjectKey → Result EnvironmentTemplate)
    → Cooperates r Up templates
    → SortKeeps r.library
    → (s : Session (World r)) (t : Time) → Up s.world
    → (initialize r s.env).status.expiration_time ≡ some t
    → is_expired (r.client.now s.world).0 (initialize r s.env) ≡ false
    → all_parse r (chosen templates s.env) ≡ true
    → ((port : ℕ)
        → s.env.spec.service_port ≡ some port
        → (w : World r) → Up w
        → Lists r w (get_namespace_name s.env) port)
    → Requeued r t ((reconcile_live r s).0, (reconcile_live r s).1.world)
      × ((reconcile_live r s).1.env.status.phase ≡ active)
unfolding reconcile_live initialize
reconcile_live-activates r Up templates cooperates sorts s t up timed live parses served = rw live (
    Leads-provision r Up templates cooperates s.env t parses sorts served _ (record {
      up = cooperates.ticks s.world up;
      same_metadata = refl;
      same_spec = refl;
      timed = timed;
      located = tt;
    }))

abbrev unless_deleted :
    (r : Reconciler) (key : ObjectKey) (s : Session (World r))
    → Option Time
    → Outcome × Session (World r)
unless_deleted r key s o = elim o [ some _ ↦ handle_deletion r s | none ↦ guard_finalizer r key s ]

-- On such a cluster, let the environment of a key be fetched, be not being deleted, have its
-- finalizer, have the expiration time `t` after its initialisation and not be expired at the instant
-- the clock gives, and let its components and its service be as they have to. Then the whole
-- reconciliation of the key ends without an error. Its last two calls write a status with the phase
-- `Active` and then read the clock, and its delay is the requeue delay until `t` at the instant of
-- that reading.
pub reconcile-returned :
    (r : Reconciler) (Up : World r → Type 0) (templates : ObjectKey → Result EnvironmentTemplate)
    → Cooperates r Up templates
    → SortKeeps r.library
    → (key : ObjectKey) (w w' : World r) (env : EphemeralEnv) (t : Time)
    → r.client.get_env key w ≡ (ok env, w')
    → env.metadata.deletion_timestamp ≡ none
    → r.library.contains_finalizer env.metadata.finalizers ephemeral_env_finalizer ≡ true
    → Up w'
    → (initialize r env).status.expiration_time ≡ some t
    → is_expired (r.client.now w').0 (initialize r env) ≡ false
    → all_parse r (chosen templates env) ≡ true
    → ((port : ℕ)
        → env.spec.service_port ≡ some port
        → (v : World r) → Up v
        → Lists r v (get_namespace_name env) port)
    → Requeued r t (reconcile r key w)
unfolding reconcile reconcile_fetched guard_finalizer
reconcile-returned r Up templates cooperates sorts key w w' env t fetched kept guarded up timed live
      parses served =
    let s : Session (World r) = record { world = w'; env = env } in
    let fetched_run : reconcile r key w ≡ after_fetch r key (ok env, w') =
      ap (after_fetch r key) fetched in
    let guarded_run : guard_finalizer r key s ≡ reconcile_live r s =
      ap
        (λ b.
          if b then reconcile_live r s else or_return (add_finalizer r key) (reconcile_live r) s)
        guarded in
    subst (Requeued r t)
      (sym
        (fetched_run ∙ ap (λ x. (x.0, x.1.world)) (ap (unless_deleted r key s) kept ∙ guarded_run)))
      (reconcile_live-activates r Up templates cooperates sorts s t up timed live parses served).0
