-- ===== src/Api/Helpers/Ttl.antt =====
-- Expiration times and the lifetime of an environment.
use kube_ephemerals.Prelude.{
  String, ◌==◌, true, Option, none, some, ◌+ℤ◌, ◌≤ℤ◌, ◌≡◌, arith, if◌then◌else◌,
}
use kube_ephemerals.Api.Types.{Time, Duration, EphemeralEnv}
use kube_ephemerals.Api.Helpers.{get_ttl, calculate_expiration_time, is_expired, default_ttl}

-- Where the default lifetime parses, an environment whose lifetime is empty or does not parse
-- expires a default lifetime after its creation, and any other as long after it as its own
-- lifetime says.
pub calculate_expiration_time-ttl :
    (parse : String → Option Duration) (env : EphemeralEnv) (d : Duration)
    → parse default_ttl ≡ some d
    → calculate_expiration_time parse env
      ≡ env.metadata.creation_timestamp
        +ℤ (if env.spec.ttl == "" then d else elim (parse env.spec.ttl) [ none ↦ d | some t ↦ t ])
unfolding calculate_expiration_time get_ttl
calculate_expiration_time-ttl parse env d h = ground (arith, h)

-- An environment that has expired stays expired while its expiration time stands.
pub is_expired_mono :
    (now later : Time) (env : EphemeralEnv)
    → now ≤ℤ later
    → is_expired now env ≡ true
    → is_expired later env ≡ true
unfolding is_expired
is_expired_mono now later env h e = ground (arith)
