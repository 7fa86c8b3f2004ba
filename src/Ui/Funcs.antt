-- ===== src/Ui/Funcs.antt =====
-- The functions of `templateFuncs` in internal/ui/server.go that the page templates call, but for the
-- one that encodes JSON.
use kube_ephemerals.Prelude.{String, Option, none, some, pos, ltb_ℤ, if◌then◌else◌}
use kube_ephemerals.Api.Types.{Time, EphemeralEnvPhase, unset, pending, active, failed, expired}
use kube_ephemerals.Controller.Reconcile.{time_until}
use kube_ephemerals.Ui.Respond.{Server}
use kube_ephemerals.Ui.Envs.{remaining, elapsed}

unfoldable pub status_class : EphemeralEnvPhase → String
status_class active = "status-active"
status_class pending = "status-pending"
status_class failed = "status-failed"
status_class expired = "status-expired"
status_class unset = "status-unknown"

module _ (s : Server) where
  unfoldable pub time_until_func : Time → Option Time → String
  time_until_func now none = "N/A"
  time_until_func now (some t) =
      if ltb_ℤ (time_until t now) (pos 0) then "Expired" else remaining s t now

  unfoldable pub time_since_func : Time → Option Time → String
  time_since_func now none = "N/A"
  time_since_func now (some t) = elapsed s t now
