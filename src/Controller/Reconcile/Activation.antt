-- ===== src/Controller/Reconcile/Activation.antt =====
-- What an environment's activation rests on.
pub mod Steps
pub mod Run
pub mod Order
pub mod Live
use text.Mathlib.TextPositions.{eq_refl}
use kube_ephemerals.Prelude.{
  ℕ, String, ◌<>◌, ◌==◌, Bool, true, false, not, ◌&&◌, ◌||◌, Option, none, some, List, [], ◌∷◌, any,
  ◌≡◌, ◌≢◌, refl, arith, if◌then◌else◌,
}
use kube_ephemerals.Prelude.Tests
use kube_ephemerals.Exec.{Failure, Result, ok, err, Exec, gets, wrapping, pure, ◌>>=◌}
use kube_ephemerals.Exec.Hoare.{Keeps}
use kube_ephemerals.Api.Types.{EphemeralEnvPhase, EphemeralEnv, EphemeralEnvStatus, active}
use kube_ephemerals.Api.Helpers.{get_namespace_name, get_httproute_name, is_isolation_enabled}
use kube_ephemerals.Kube.Objects.{
  ObjectKey, Kind, Object, kind_of, namespace_kind, service_account_kind, role_kind,
  role_binding_kind, network_policy_kind, httproute_kind, reference_grant_kind,
}
use kube_ephemerals.Kube.Trace.{Call, updated_status, wrote, Reply, accepted, Event, only_after}
use kube_ephemerals.Helm.Client.{HelmClient}
use kube_ephemerals.Controller.Base.{
  Reconciler, Session, World, developer_access_sa, ns_admin_role_name,
  developer_access_binding_name, call, set_status, set_condition, clock, own,
}
use kube_ephemerals.Controller.Frame.{Notes, Restatus, IsMinor}
use kube_ephemerals.Controller.Traced.{traced_reconciler, on_call}

abbrev is_active : EphemeralEnvPhase → Bool
is_active active = true
is_active _ = false

-- A write of a status whose phase is `Active`.
abbrev pub is_activation : Call → Bool
is_activation (updated_status e) = is_active e.status.phase
is_activation _ = false

abbrev kind_number : Kind → ℕ
kind_number namespace_kind = 0
kind_number service_account_kind = 1
kind_number role_kind = 2
kind_number role_binding_kind = 3
kind_number network_policy_kind = 4
kind_number httproute_kind = 5
kind_number reference_grant_kind = 6

abbrev is_accepted : Reply → Bool
is_accepted accepted = true
is_accepted _ = false

abbrev writes : Kind → String → String → Call → Bool
writes kind name namespace (wrote o) =
    Tests.◌==◌ (kind_number kind) (kind_number (kind_of o.body))
    && (o.key.name == name)
    && (o.key.namespace == namespace)
writes kind name namespace _ = false

-- An object of this kind and name was created or updated, and the server accepted it.
abbrev pub ensured : Kind → String → String → List Event → Bool
ensured kind name namespace = any (λ e. writes kind name namespace e.call && is_accepted e.reply)

-- The objects of an environment: its namespace; in it the developers' account, role and binding,
-- the network policy if it is isolated, and the grant if the gateway is in another namespace; and
-- the route in the gateway's namespace.
abbrev pub ensured_namespace : EphemeralEnv → List Event → Bool
ensured_namespace env = ensured namespace_kind (get_namespace_name env) ""

abbrev pub ensured_access : EphemeralEnv → List Event → Bool
ensured_access env log =
    let ns = get_namespace_name env in
    ensured service_account_kind developer_access_sa ns log
    && ensured role_kind ns_admin_role_name ns log
    && ensured role_binding_kind developer_access_binding_name ns log

abbrev pub ensured_isolation : EphemeralEnv → List Event → Bool
ensured_isolation env log =
    not (is_isolation_enabled env.spec)
    || ensured network_policy_kind "deny-all" (get_namespace_name env) log

abbrev pub ensured_grant : EphemeralEnv → List Event → Bool
ensured_grant env log =
    (env.spec.gateway.namespace == get_namespace_name env)
    || ensured reference_grant_kind ("grant-" <> env.metadata.name) (get_namespace_name env) log

abbrev pub ensured_route : EphemeralEnv → List Event → Bool
ensured_route env = ensured httproute_kind (get_httproute_name env) env.spec.gateway.namespace

abbrev pub ensured_all : EphemeralEnv → List Event → Bool
ensured_all env log =
    ensured_namespace env log
    && ensured_access env log
    && ensured_isolation env log
    && ensured_grant env log
    && ensured_route env log

-- What holds between two steps of a provisioning of `env` that was not active at its start: `facts`
-- is what the steps so far have put into the log.
pub record Stage (r : Reconciler) (env : EphemeralEnv) (facts : List Event → Bool)
    (s : Session (World (traced_reconciler r))) : Type 0 where
  pub same_metadata : s.env.metadata ≡ env.metadata
  pub same_spec : s.env.spec ≡ env.spec
  pub inactive : s.env.status.phase ≢ active
  pub settled : s.env.status.active_namespace ≡ get_namespace_name env
  pub ordered : only_after (ensured_all env) (on_call is_activation) s.world.log ≡ true
  pub known : facts s.world.log ≡ true

abbrev pub Monotone : (List Event → Bool) → Type 0
Monotone facts = (e : Event) (log : List Event) → facts log ≡ true → facts (e ∷ log) ≡ true

module _ (r : Reconciler) (env : EphemeralEnv) (facts : List Event → Bool)
    (mono : Monotone facts) where
  grow :
      (e : Event) (w : r.client.World) (s : Session (World (traced_reconciler r)))
      → is_activation e.call ≡ false
      → Stage r env facts s
      → Stage r env facts (record s { world = record s.world { world = w; log = e ∷ s.world.log } })
  grow e w s h j = record {
    same_metadata = j.same_metadata;
    same_spec = j.same_spec;
    inactive = j.inactive;
    settled = j.settled;
    ordered = ground (arith, j.ordered);
    known = mono e s.world.log j.known;
  }

  restatus :
      (f : EphemeralEnvStatus → EphemeralEnvStatus) → IsMinor f → Restatus (Stage r env facts) f
  restatus f minor s j = record {
    same_metadata = j.same_metadata;
    same_spec = j.same_spec;
    inactive = rw (minor s.env.status).0 j.inactive;
    settled = rw (minor s.env.status).1 j.settled;
    ordered = j.ordered;
    known = j.known;
  }
