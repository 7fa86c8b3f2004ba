-- ===== src/Controller/Reconcile/Initial.antt =====
-- The first steps of a reconciliation.
use kube_ephemerals.Prelude.{Option, none, some, ◌≡◌, ◌≢◌, refl, arith}
use kube_ephemerals.Api.Types.{
  Time, EphemeralEnv, EphemeralEnvPhase, unset, pending, active, failed, expired,
}
use kube_ephemerals.Controller.Base.{Reconciler}
use kube_ephemerals.Controller.Reconcile.{initialize, initial_phase, initial_expiration}

module _ (r : Reconciler) where
  phase-set : (p : EphemeralEnvPhase) → initial_phase r p ≢ unset
  phase-set unset h = ground (arith, h)
  phase-set pending h = ground (arith, h)
  phase-set active h = ground (arith, h)
  phase-set failed h = ground (arith, h)
  phase-set expired h = ground (arith, h)

  phase-twice : (p : EphemeralEnvPhase) → initial_phase r (initial_phase r p) ≡ initial_phase r p
  phase-twice unset = refl
  phase-twice pending = refl
  phase-twice active = refl
  phase-twice failed = refl
  phase-twice expired = refl

  expiration-set : (env : EphemeralEnv) (o : Option Time) → initial_expiration r env o ≢ none
  expiration-set env none h = ground (arith, h)
  expiration-set env (some t) h = ground (arith, h)

  expiration-twice :
      (e env : EphemeralEnv) (o : Option Time)
      → initial_expiration r e (initial_expiration r env o) ≡ initial_expiration r env o
  expiration-twice e env none = refl
  expiration-twice e env (some t) = refl

-- An initialised environment has a phase and an expiration time, and what is initialised again stays
-- as it is.
pub initialize-settles :
    (r : Reconciler) (env : EphemeralEnv)
    → ((initialize r env).status.phase ≢ unset)
      × ((initialize r env).status.expiration_time ≢ none)
      × (initialize r (initialize r env) ≡ initialize r env)
unfolding initialize
initialize-settles r env = (
  phase-set r env.status.phase,
  expiration-set r env env.status.expiration_time,
  λ i. record env {
    status = record env.status {
      phase = phase-twice r env.status.phase i;
      expiration_time = expiration-twice r (initialize r env) env env.status.expiration_time i;
    };
  },
)
