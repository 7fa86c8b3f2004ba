-- ===== src/Api/Helpers.antt =====
-- api/v1alpha1/ephemeralenv_helpers.go. `time.ParseDuration` is an argument: `none` is its error.
pub mod Names
pub mod Ttl
use kube_ephemerals.Prelude.{
  ℕ, String, ◌<>◌, ◌==◌, Bool, true, Option, none, some, if◌then◌else◌, pos, ◌+ℤ◌, ltb_ℤ,
}
use kube_ephemerals.Prelude.Tests
use kube_ephemerals.Api.Types.{
  Time, Duration, EphemeralEnvPhase, EphemeralEnvSpec, GatewaySpec, EphemeralEnvStatus,
  EphemeralEnv,
}

abbrev pub default_ttl : String
default_ttl = "24h"

abbrev pub default_target_port : ℕ
default_target_port = 80

abbrev pub namespace_prefix : String
namespace_prefix = "env-"

unfoldable pub is_isolation_enabled : EphemeralEnvSpec → Bool
is_isolation_enabled e = elim e.isolation [ none ↦ true | some b ↦ b ]

-- `duration, _ = time.ParseDuration(DefaultTTL)`: on an error the duration is 0.
abbrev parsed_or_zero : Option Duration → Duration
parsed_or_zero none = pos 0
parsed_or_zero (some d) = d

unfoldable pub get_ttl : (String → Option Duration) → EphemeralEnvSpec → Duration
get_ttl parse_duration e =
    let ttl = if e.ttl == "" then default_ttl else e.ttl in
    elim (parse_duration ttl) [
      | none ↦ parsed_or_zero (parse_duration default_ttl)
      | some duration ↦ duration
    ]

unfoldable pub get_target_port : GatewaySpec → ℕ
get_target_port g = if Tests.◌==◌ g.target_port 0 then default_target_port else g.target_port

unfoldable pub get_namespace_name : EphemeralEnv → String
get_namespace_name e = namespace_prefix <> e.metadata.name

unfoldable pub get_httproute_name : EphemeralEnv → String
get_httproute_name e = "route-" <> e.metadata.name

unfoldable pub get_reference_grant_name : EphemeralEnv → String
get_reference_grant_name e = "grant-" <> e.metadata.name

unfoldable pub calculate_expiration_time : (String → Option Duration) → EphemeralEnv → Time
unfolding get_ttl
calculate_expiration_time parse_duration e =
    e.metadata.creation_timestamp +ℤ get_ttl parse_duration e.spec

-- `now` is what `time.Now()` gives; `now.After(t)` is `t < now`.
unfoldable pub is_expired : Time → EphemeralEnv → Bool
is_expired now e = elim e.status.expiration_time [ none ↦ Bool.false | some t ↦ ltb_ℤ t now ]

unfoldable pub set_phase : EphemeralEnvPhase → EphemeralEnvStatus → EphemeralEnvStatus
set_phase phase s = record s { phase = phase }

unfoldable pub bool_ptr : Bool → Option Bool
bool_ptr b = some b

unfoldable pub string_ptr : String → Option String
string_ptr s = some s
