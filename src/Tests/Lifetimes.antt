-- ===== src/Tests/Lifetimes.antt =====
-- The history of an environment that is over.
use kube_ephemerals.Prelude.{some, List, [], ◌∷◌, if◌then◌else◌, ◌≡◌, refl, sym, ap, pos, arith}
use kube_ephemerals.Exec.{◌>>=◌, gets, attempt, wrapping}
use kube_ephemerals.Exec.Inversion.{ok-injective}
use kube_ephemerals.Api.Types.{EphemeralEnv, expired}
use kube_ephemerals.Api.Helpers.{is_expired}
use kube_ephemerals.Kube.Trace.{Event, Call, updated_status}
use kube_ephemerals.Controller.Base.{call, or_return, clock, set_status, update_status}
use kube_ephemerals.Controller.Cleanup.{
  handle_expiration, cleanup_namespace, record_reconcile_time, store_status,
}
use kube_ephemerals.Controller.Traced.{traced_reconciler, fresh}
use kube_ephemerals.Controller.Reconcile.{initialize, reconcile_live}
use kube_ephemerals.Controller.Reconcile.Lifetime.{KeepsStatus, AllWritten, Allowed}
use kube_ephemerals.Controller.Reconcile.Lifetime.Written.{
  only_expired, provisioned_from, reconcile_live-written,
}
use kube_ephemerals.Controller.Reconcile.Lifetime.History.{
  Moment, WasWritten, last_write, ◌⟶*⟨◌⟩◌, unchanged, after, passed, reconciled, Over, Over-stays,
  expiration_time-stays,
}
use kube_ephemerals.Tests.Cluster.{reconciler, client, shop, start}

client-KeepsStatus : KeepsStatus client
client-KeepsStatus env stored w h = ap (λ e. e.status) (ok-injective stored env (sym h))

reconcile_live-written_example :
    AllWritten
      (Allowed (initialize (traced_reconciler reconciler) shop).status.expiration_time (
        if is_expired (pos 1000) (initialize (traced_reconciler reconciler) shop)
        then only_expired
        else provisioned_from (initialize (traced_reconciler reconciler) shop).status.phase))
      (reconcile_live (traced_reconciler reconciler) (fresh start shop)).1.world.log
reconcile_live-written_example = reconcile_live-written reconciler client-KeepsStatus start shop

-- An environment whose time was over before the clock's instant.
abbrev gone : EphemeralEnv
gone = record shop {
  status = record shop.status { phase = expired; expiration_time = some (pos 500) };
}

abbrev gone_log : List Event
gone_log = (reconcile_live (traced_reconciler reconciler) (fresh start gone)).1.world.log

abbrev written_env : Call → EphemeralEnv
written_env (updated_status env) = env
written_env _ = shop

-- The environment of the newest write.
abbrev newest : List Event → EphemeralEnv
newest [] = shop
newest (e ∷ log) = written_env e.call

abbrev before : Moment
before = record { now = pos 1000; env = gone }

abbrev later : Moment
later = record { now = pos 3000; env = newest gone_log }

is_over : Over before
unfolding is_expired
is_over = record { late = refl; phase = refl }

newest-WasWritten : WasWritten (newest gone_log) gone_log
unfolding reconcile_live is_expired initialize handle_expiration cleanup_namespace ◌>>=◌ gets
    attempt call or_return record_reconcile_time clock set_status store_status wrapping
    update_status
newest-WasWritten = last_write

later_history : before ⟶*⟨ reconciler ⟩ later
later_history =
    after (after unchanged (reconciled start refl newest-WasWritten)) (passed (ground arith))

Over-stays_example : Over later
Over-stays_example = Over-stays reconciler client-KeepsStatus before later is_over later_history

expiration_time-stays_example : later.env.status.expiration_time ≡ some (pos 500)
expiration_time-stays_example =
    expiration_time-stays reconciler client-KeepsStatus before later (pos 500) refl later_history
