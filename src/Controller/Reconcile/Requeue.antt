-- ===== src/Controller/Reconcile/Requeue.antt =====
-- When an active environment is reconciled again.
use kube_ephemerals.Prelude.{
  true, false, some, pos, ◌+ℤ◌, ◌-ℤ◌, ◌≤ℤ◌, ltb_ℤ, ◌≡◌, ◌⊎◌, inl, inr, Bool-cases, arith,
}
use kube_ephemerals.Prelude.Int.{+ℤ_parts, -ℤ_parts}
use kube_ephemerals.Api.Types.{Time, EphemeralEnv}
use kube_ephemerals.Api.Helpers.{is_expired}
use kube_ephemerals.Controller.Reconcile.{requeue_delay, max_duration}
use kube_ephemerals.Controller.Base.{second}

-- The delay is never negative, and never more than the longest duration.
pub requeue_delay-bounds :
    (expiration now : Time)
    → (pos 0 ≤ℤ requeue_delay expiration now) × (requeue_delay expiration now ≤ℤ max_duration)
unfolding requeue_delay
requeue_delay-bounds expiration now =
    (ground (arith, -ℤ_parts expiration now), ground (arith, -ℤ_parts expiration now))

requeue_delay-past :
    (expiration now : Time) → ltb_ℤ expiration now ≡ true → requeue_delay expiration now ≡ second
unfolding requeue_delay
requeue_delay-past expiration now h = ground (arith, h, -ℤ_parts expiration now)

requeue_delay-ahead :
    (expiration now : Time)
    → ltb_ℤ expiration now ≡ false
    → expiration -ℤ now ≤ℤ max_duration
    → requeue_delay expiration now ≡ expiration -ℤ now
unfolding requeue_delay
requeue_delay-ahead expiration now h b = ground (arith, h, b, -ℤ_parts expiration now)

sum-ahead : (expiration now : Time) → now +ℤ (expiration -ℤ now) ≤ℤ expiration
sum-ahead expiration now = ground (arith, -ℤ_parts expiration now, +ℤ_parts now (expiration -ℤ now))

-- If an environment expires within the longest duration from now, then at every instant that is
-- later than now by more than the delay it has expired; the delay is not negative; and the run after
-- it is not later than the expiration, unless that is past, when the delay is one second.
pub is_expired-requeue_delay :
    (expiration now later : Time) (env : EphemeralEnv)
    → env.status.expiration_time ≡ some expiration
    → expiration -ℤ now ≤ℤ max_duration
    → ltb_ℤ (now +ℤ requeue_delay expiration now) later ≡ true
    → (is_expired later env ≡ true)
      × (pos 0 ≤ℤ requeue_delay expiration now)
      × ((now +ℤ requeue_delay expiration now ≤ℤ expiration)
          ⊎ ((ltb_ℤ expiration now ≡ true) × (requeue_delay expiration now ≡ second)))
unfolding is_expired requeue_delay
is_expired-requeue_delay expiration now later env e b h = (
  ground (arith, e, -ℤ_parts expiration now, +ℤ_parts now (requeue_delay expiration now)),
  ground (arith, -ℤ_parts expiration now),
  elim (Bool-cases (ltb_ℤ expiration now)) [
    | inl past ↦ inr (past, requeue_delay-past expiration now past)
    | inr ahead ↦ inl (rw (requeue_delay-ahead expiration now ahead b) (sum-ahead expiration now))
  ],
)
