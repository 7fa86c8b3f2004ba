-- ===== src/Controller/Base.antt =====
-- The reconciler, the state of one run of it, and what all its steps share. A run owns one
-- environment, which Go passes by pointer: `Session` has it beside the world.
use kube_ephemerals.Prelude.{ℤ, pos, String, ◌==◌, Option, none, some, set_label, if◌then◌else◌}
use kube_ephemerals.Exec.{Failure, Result, ok, err, Exec, ◌>>=◌}
use kube_ephemerals.Api.Types.{
  Time, Duration, ConditionStatus, EphemeralEnvStatus, EphemeralEnv, failed,
}
use kube_ephemerals.Kube.Objects.{Object}
use kube_ephemerals.Kube.Client.{Client}
use kube_ephemerals.Kube.Library.{Library}
use kube_ephemerals.Helm.Client.{HelmClient}

abbrev pub ephemeral_env_finalizer : String
ephemeral_env_finalizer = "ephemeral.ephemeralenv.io/finalizer"

abbrev pub label_managed_by : String
label_managed_by = "app.kubernetes.io/managed-by"

abbrev pub label_owner : String
label_owner = "ephemeral.ephemeralenv.io/owner"

abbrev pub label_route_type : String
label_route_type = "ephemeral.ephemeralenv.io/route-type"

abbrev pub managed_by_value : String
managed_by_value = "ephemeral-operator"

abbrev pub base_domain : String
base_domain = "preview.example.com"

abbrev pub route_type_admin : String
route_type_admin = "admin"

abbrev pub developer_access_sa : String
developer_access_sa = "developer-access"

abbrev pub ns_admin_role_name : String
ns_admin_role_name = "ns-admin"

abbrev pub developer_access_binding_name : String
developer_access_binding_name = "developer-access-ns-admin"

-- `EphemeralEnvReconciler`. A nil `HelmClient` is `none`.
pub record Reconciler : Type 1 where
  pub library : Library
  pub client : Client
  pub helm_client : Option (HelmClient client.World library.Values)
  pub operator_service : String
  pub operator_namespace : String

pub record Session (World : Type 0) : Type 0 where
  pub world : World
  pub env : EphemeralEnv

-- What `Reconcile` returns: `ctrl.Result`, of which only `RequeueAfter` is used, and the error.
-- `panicked` is a nil pointer dereference.
pub data Outcome : Type 0 where
  returned : Duration → Option Failure → Outcome
  panicked : Outcome

abbrev pub second : ℤ
second = pos 1000000000

-- The two assignments to the labels in every mutate function.
unfoldable pub own : String → Object → Object
own owner o = record o {
  labels = set_label label_owner owner (set_label label_managed_by managed_by_value o.labels);
}

abbrev pub with_status : (EphemeralEnvStatus → EphemeralEnvStatus) → EphemeralEnv → EphemeralEnv
with_status f e = record e { status = f e.status }

-- The rest of a run.
abbrev pub Handler : Type 0 → Type 0
Handler World = Session World → Outcome × Session World

module _ {World : Type 0} where
  -- A call of a client, which leaves the environment alone.
  unfoldable pub call : {A : Type 0} → Exec World A → Exec (Session World) A
  call m s = let (x, w) = m s.world in (x, record s { world = w })

  unfoldable pub set_status :
      (EphemeralEnvStatus → EphemeralEnvStatus) → Exec (Session World) (Unit {0})
  set_status f s = (ok tt, record s { env = with_status f s.env })

  abbrev pub return_error_after :
      Handler World → Result (Unit {0}) × Session World → Outcome × Session World
  return_error_after k (ok _, s) = k s
  return_error_after k (err e, s) = (returned (pos 0) (some e), s)

  -- `if err := …; err != nil { return ctrl.Result{}, err }`
  unfoldable pub or_return : Exec (Session World) (Unit {0}) → Handler World → Handler World
  or_return m k s = return_error_after k (m s)

module _ (r : Reconciler) where
  abbrev pub World : Type 0
  World = r.client.World

  unfoldable pub clock : Exec (Session World) Time
  clock s = let (t, w) = r.client.now s.world in (ok t, record s { world = w })

  -- `meta.SetStatusCondition` with `metav1.Now()`
  unfoldable pub set_condition :
      String → ConditionStatus → String → String → Exec (Session World) (Unit {0})
  set_condition kind status reason message = do
    t ← clock
    set_status (λ st. record st {
      conditions = r.library.set_status_condition st.conditions (record {
        kind = kind;
        status = status;
        reason = reason;
        message = message;
        last_transition_time = t;
      });
    })

  abbrev pub decode :
      Session World → Result EphemeralEnv × World → Result (Unit {0}) × Session World
  decode s (ok e, w) = (ok tt, record { world = w; env = e })
  decode s (err e, w) = (err e, record s { world = w })

  -- `r.Update`, `r.Status().Update` and `r.Get` into the environment of the run
  unfoldable pub update_env : Exec (Session World) (Unit {0})
  update_env s = decode s (r.client.update_env s.env s.world)

  unfoldable pub update_status : Exec (Session World) (Unit {0})
  update_status s = decode s (r.client.update_env_status s.env s.world)

  unfoldable pub fetch_env : String → String → Exec (Session World) (Unit {0})
  fetch_env name namespace s =
      decode s (r.client.get_env (record { name = name; namespace = namespace }) s.world)

  abbrev pub failed_with : String → EphemeralEnvStatus → EphemeralEnvStatus
  failed_with message st =
      if message == ""
      then record st { phase = failed }
      else record st { phase = failed; message = message }

  unfoldable pub reconcile_step_on_error : Option Failure → String → Handler World
  unfolding set_status update_status
  reconcile_step_on_error none message s = (returned (pos 0) none, s)
  reconcile_step_on_error (some e) message s =
      let (_, s') = update_status (set_status (failed_with message) s).1 in
      (returned (pos 0) (some e), s')
