-- ===== src/Ui/Ttl/Extended.antt =====
-- An environment whose lifetime was extended.
use mathlib.Core.Path.{subst}
use kube_ephemerals.Prelude.{
  ◌+ℤ◌, ◌-ℤ◌, ◌≤ℤ◌, ltb_ℤ, String, true, not, ◌||◌, Option, some, ◌≡◌, refl, arith, ap, sym, ◌∙◌,
}
use kube_ephemerals.Prelude.Int.{+ℤ_parts, -ℤ_parts}
use kube_ephemerals.Prelude.Text.{set_label, get_label}
use kube_ephemerals.Exec.{Result, ok, err}
use kube_ephemerals.Api.Types.{Time, Duration, EphemeralEnv}
use kube_ephemerals.Api.Helpers.{is_expired}
use kube_ephemerals.Controller.Base.{second}
use kube_ephemerals.Ui.Http.{
  Request, new_writer, set_field, write_header, write, status_ok, status_internal_server_error,
}
use kube_ephemerals.Ui.Respond.{
  Server, Exchange, default_key, with_env, calling, settle, answer, json_response, json_error,
}
use kube_ephemerals.Ui.Envs.Created.{json_header}
use kube_ephemerals.Ui.Ttl.{
  expiring_at, failed_extension, extend_ttl, update_expiration, answer_extended, extend_from,
}

-- The environment of a name in the cluster, which nobody else writes while a request is served. A
-- status update of it may be refused. If it succeeds, then the environment is what the server
-- answered, with the expiration time as it is stored, to the second.
pub record Stores (s : Server) (name : String) (latest : s.World → Option EphemeralEnv)
    (kept : Time → Time) : Type 0 where
  pub to_second : (t : Time) → (kept t ≤ℤ t) × (ltb_ℤ t (kept t +ℤ second) ≡ true)
  pub on_update :
      (e stored : EphemeralEnv) (t : Time) (w : s.World)
      → e.metadata.name ≡ name
      → e.metadata.namespace ≡ "default"
      → e.status.expiration_time ≡ some t
      → (s.client.update_env_status e w).0 ≡ ok stored
      → (latest (s.client.update_env_status e w).1 ≡ some stored)
        × (stored.status.expiration_time ≡ some (kept t))
  pub on_now : (w : s.World) → latest (s.now w).1 ≡ latest w

-- What expires at one of two times, by their distance.
is_expired-shifted :
    (now t u d : Time) (e stored : EphemeralEnv)
    → e.status.expiration_time ≡ some t
    → stored.status.expiration_time ≡ some u
    → u ≤ℤ t +ℤ d
    → ltb_ℤ (t +ℤ d) (u +ℤ second) ≡ true
    → ((not (is_expired (now -ℤ d) e) || is_expired now stored) ≡ true)
      × ((not (is_expired now stored) || is_expired ((now +ℤ second) -ℤ d) e) ≡ true)
unfolding is_expired
is_expired-shifted now t u d e stored at_t at_u below above = (
  ground (arith, at_t, at_u, below, +ℤ_parts t d, -ℤ_parts now d),
  ground (
    arith,
    at_t,
    at_u,
    above,
    +ℤ_parts t d,
    +ℤ_parts u second,
    +ℤ_parts now second,
    -ℤ_parts (now +ℤ second) d,
  ),
)

module _ (s : Server) (name : String) (latest : s.World → Option EphemeralEnv) (kept : Time → Time)
    (stores : Stores s name latest kept) where
  -- What a request leads to, by the server's answer to the update: the environment is stored with an
  -- expiration that is shifted by the duration, to the second, and the response is a success; or the
  -- response is a failure.
  abbrev pub Extends :
      EphemeralEnv → Duration → Time → Result EphemeralEnv → Exchange s.World → Type 0
  Extends e d now (ok stored) x =
      (latest x.world ≡ some stored)
      × (x.writer.sent ≡ some (json_header status_ok))
      × ((not (is_expired (now -ℤ d) e) || is_expired now stored) ≡ true)
      × ((not (is_expired now stored) || is_expired ((now +ℤ second) -ℤ d) e) ≡ true)
  Extends e d now (err f) x = x.writer.sent ≡ some (json_header status_internal_server_error)

  answer_extended-latest :
      (t : Time) (x : Exchange s.World)
      → latest (answer_extended s (some t) x).world ≡ latest x.world
  unfolding answer
  answer_extended-latest t x = stores.on_now x.world

  update_expiration-Extends :
      (e : EphemeralEnv) (t : Time) (d : Duration) (now : Time) (w : s.World)
      → e.metadata.name ≡ name
      → e.metadata.namespace ≡ "default"
      → e.status.expiration_time ≡ some t
      → Extends e d now
          (s.client.update_env_status (expiring_at (t +ℤ d) e) w).0
          (update_expiration s (expiring_at (t +ℤ d) e) (record { world = w; writer = new_writer }))
  unfolding answer calling json_error json_response set_field write_header write set_label get_label
  update_expiration-Extends e t d now w named placed at_t =
      by_answer (s.client.update_env_status sent w)
        (λ stored. stores.on_update sent stored (t +ℤ d) w named placed refl)
    where
      sent : EphemeralEnv
      sent = expiring_at (t +ℤ d) e

      by_answer :
          (y : Result EphemeralEnv × s.World)
          → ((stored : EphemeralEnv)
              → y.0 ≡ ok stored
              → (latest y.1 ≡ some stored) × (stored.status.expiration_time ≡ some (kept (t +ℤ d))))
          → Extends e d now y.0 (
              settle
                (λ f. answer (failed_extension f))
                (λ stored. answer_extended s stored.status.expiration_time)
                new_writer
                y)
      by_answer (err f, v) h = refl
      by_answer (ok stored, v) h =
          let (newest, at_u) = h stored refl in
          let (below, above) = stores.to_second (t +ℤ d) in
          let (earlier, later) =
            is_expired-shifted now t (kept (t +ℤ d)) d e stored at_t at_u below above in
          (
            ap (λ o. latest (answered o).world) at_u
                ∙ answer_extended-latest (kept (t +ℤ d)) (record { world = v; writer = new_writer })
                ∙ newest,
            ap (λ o. (answered o).writer.sent) at_u,
            earlier,
            later,
          )
        where
          answered : Option Time → Exchange s.World
          answered o = answer_extended s o (record { world = v; writer = new_writer })

  -- Let a request with a duration ask for the extension of an environment that is read as `e`, under
  -- its name in the default namespace and with an expiration time, from a server where nobody else
  -- writes the environment meanwhile. If the update with the duration added to that time is refused,
  -- the response is an internal error. If it is accepted, the response is a success and the
  -- environment is what the server stored, which has expired at an instant only if `e` had expired at
  -- the instant that is earlier by the duration, less a second at most that the stored time loses,
  -- and has expired then if `e` had.
  pub extend_ttl-is_expired :
      (r : Request) (w w' : s.World) (e : EphemeralEnv) (text : String) (t : Time) (d : Duration)
      (now : Time)
      → s.decode_duration r.body ≡ ok text
      → s.library.parse_duration text ≡ some d
      → s.client.get_env (default_key s name) w ≡ (ok e, w')
      → e.metadata.name ≡ name
      → e.metadata.namespace ≡ "default"
      → e.status.expiration_time ≡ some t
      → Extends e d now
          (s.client.update_env_status (expiring_at (t +ℤ d) e) w').0
          (extend_ttl s r name (record { world = w; writer = new_writer }))
  unfolding extend_ttl with_env calling
  extend_ttl-is_expired r w w' e text t d now decoded parsed got named placed at_t =
      rw (decoded, parsed, got)
        (subst
          (λ o. Extends e d now (s.client.update_env_status (expiring_at (t +ℤ d) e) w').0 (
            extend_from s o d e (update_expiration s) (record { world = w'; writer = new_writer })))
          (sym at_t) (update_expiration-Extends e t d now w' named placed at_t))
