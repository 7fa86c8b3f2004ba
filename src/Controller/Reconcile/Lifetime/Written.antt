-- ===== src/Controller/Reconcile/Lifetime/Written.antt =====
-- Each status that a reconciliation writes.
use kube_ephemerals.Prelude.{Bool, true, false, [], Bool-cases, inl, inr, if◌then◌else◌, ◌≡◌, refl}
use kube_ephemerals.Api.Types.{
  EphemeralEnv, EphemeralEnvPhase, unset, pending, active, failed, expired,
}
use kube_ephemerals.Api.Helpers.{is_expired}
use kube_ephemerals.Exec.{◌>>=◌}
use kube_ephemerals.Controller.Base.{Reconciler, Session, World, set_status}
use kube_ephemerals.Controller.Traced.{traced_reconciler, fresh}
use kube_ephemerals.Controller.Reconcile.{initialize, reconcile_live}
use kube_ephemerals.Controller.Cleanup.{handle_expiration, expire_dependents, mark_expired}
use kube_ephemerals.Controller.Reconcile.Handlers.{
  Provides, Leads-provision, Expires, Leads-handle_expiration,
}
use kube_ephemerals.Controller.Reconcile.Lifetime.{
  KeepsStatus, AllWritten, Allowed, Settled, notes-Settled, provisions-Settled, cleans-Settled,
  rephased, refailed, Keeps-update_status,
}

abbrev is_same : EphemeralEnvPhase → EphemeralEnvPhase → Bool
is_same unset unset = true
is_same pending pending = true
is_same active active = true
is_same failed failed = true
is_same expired expired = true
is_same _ _ = false

-- The phase that a run starts with, and the two that a provisioning may set.
abbrev pub provisioned_from : EphemeralEnvPhase → EphemeralEnvPhase → Bool
provisioned_from p active = true
provisioned_from p failed = true
provisioned_from p q = is_same p q

abbrev pub only_expired : EphemeralEnvPhase → Bool
only_expired expired = true
only_expired _ = false

provisioned_from_self : (p : EphemeralEnvPhase) → provisioned_from p p ≡ true
provisioned_from_self unset = refl
provisioned_from_self pending = refl
provisioned_from_self active = refl
provisioned_from_self failed = refl
provisioned_from_self expired = refl

module _ (r : Reconciler) (keeps_status : KeepsStatus r.client) (w : r.client.World)
    (env : EphemeralEnv) where
  abbrev T : Reconciler
  T = traced_reconciler r

  abbrev initial : EphemeralEnv
  initial = initialize T env

  abbrev start : Session (World (traced_reconciler r))
  start = record { world = record { world = (r.client.now w).1; log = [] }; env = initial }

  abbrev Now : EphemeralEnv → Type 0
  Now = Allowed initial.status.expiration_time (provisioned_from initial.status.phase)

  provides :
      Provides T (Settled r initial.status.expiration_time (provisioned_from initial.status.phase))
  provides = record {
    provisions = provisions-Settled r _ _;
    enters = λ name s j. record {
      here = record { timed = j.here.timed; phased = j.here.phased };
      written = j.written;
    };
    saves = Keeps-update_status r _ _ keeps_status;
    fails = refailed r _ _ refl;
    helm_fails = λ message. rephased r _ _ failed message refl;
    activates = λ message. rephased r _ _ active message refl;
  }

  expires : Expires T (Settled r initial.status.expiration_time only_expired)
  expires = record {
    cleans = cleans-Settled r _ _;
    notes = notes-Settled r _ _;
    saves = Keeps-update_status r _ _ keeps_status;
    expires = λ message. rephased r _ _ expired message refl;
  }

  -- An expiration sets the phase before it does anything else.
  abbrev marked : Session (World (traced_reconciler r)) → Session (World (traced_reconciler r))
  marked s = record s { env = record s.env { status = record s.env.status { phase = expired } } }

  handle_expiration-marked :
      (s : Session (World (traced_reconciler r)))
      → handle_expiration T s ≡ handle_expiration T (marked s)
  unfolding handle_expiration expire_dependents mark_expired set_status ◌>>=◌
  handle_expiration-marked s = refl

  abbrev is_over : Bool
  is_over = is_expired (r.client.now w).0 initial

  -- At a server that stores a status as it is sent, each status that the reconciliation of an
  -- environment writes, from its initialisation on, has the expiration time that the initialisation
  -- left. If the environment is expired at the instant that the clock gives, the phase in it is
  -- Expired, and otherwise it is Active, Failed, or the one that the initialisation left.
  pub reconcile_live-written :
      AllWritten
        (Allowed initial.status.expiration_time (
          if is_expired (r.client.now w).0 initial
          then only_expired
          else provisioned_from initial.status.phase))
        (reconcile_live T (fresh w env)).1.world.log
  unfolding reconcile_live
  reconcile_live-written = elim (Bool-cases is_over) [
    | inl over ↦
        rw (over, handle_expiration-marked start)
          ((Leads-handle_expiration T _ expires (marked start)
            (record { here = record { timed = refl; phased = refl }; written = tt })).written)
    | inr live ↦ rw live (
        (Leads-provision T _ provides start (record {
          here = record { timed = refl; phased = provisioned_from_self initial.status.phase };
          written = tt;
        })).written)
  ]
