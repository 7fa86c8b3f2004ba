-- ===== src/Ui/Logs.antt =====
-- The handlers of internal/ui/server.go for the logs of a pod.
pub mod Loop
pub mod Messages
use kube_ephemerals.Prelude.{
  ℕ, zero, suc, String, ◌<>◌, ◌==◌, Bool, true, false, Option, none, some, if◌then◌else◌,
}
use kube_ephemerals.Exec.{Failure, Result, ok, err}
use kube_ephemerals.Api.Types.{EphemeralEnv}
use kube_ephemerals.Ui.Http.{
  Request, value_at, set_field, write, status_not_found, status_internal_server_error,
}
use kube_ephemerals.Ui.Services.{KubeClient, LogRequest, ReadError, ReadResult, eof, failed}
use kube_ephemerals.Ui.Respond.{
  Server, Handler, Exchange, text, answer, calling, settle, json_error, http_error,
  get_env_from_context, with_env, default_key,
}

abbrev pub log_request : Option ℕ → Bool → EphemeralEnv → String → LogRequest
log_request tail_lines follow e pod_name = record {
  namespace = e.status.active_namespace;
  pod = pod_name;
  tail_lines = tail_lines;
  follow = follow;
}

module _ (s : Server) where
  -- `io.Copy(w, stream)`, and the stream's close
  abbrev copy_logs : KubeClient s.World s.Stream → s.Stream → Handler s.World
  copy_logs kube_client stream x =
      let (bytes, w) = kube_client.copy stream x.world in
      answer (λ out. write (text bytes) (set_field "Content-Type" "text/plain" out))
        (record x { world = w })

  abbrev answer_logs :
      Option (KubeClient s.World s.Stream) → String → EphemeralEnv → Handler s.World
  answer_logs none pod_name e =
      answer (json_error "Kubernetes client not available" status_internal_server_error)
  answer_logs (some kube_client) pod_name e =
      calling (kube_client.open_logs (log_request (some 100) false e pod_name))
        (λ f. answer (json_error ("Failed to get logs: " <> f.text) status_internal_server_error))
        (copy_logs kube_client)

  unfoldable pub get_pod_logs : String → String → Handler s.World
  get_pod_logs env_name pod_name = with_env s env_name (answer_logs s.kube_client pod_name)

  unfoldable pub handle_pod_logs : Request → Handler s.World
  unfolding get_pod_logs
  handle_pod_logs r = get_pod_logs (get_env_from_context r) (value_at "pod" r.vars)

  unfoldable pub handle_pod_logs_by_name : Request → Handler s.World
  unfolding get_pod_logs
  handle_pod_logs_by_name r = get_pod_logs (value_at "name" r.vars) (value_at "pod" r.vars)

  -- A message whose error is dropped.
  abbrev pub tell : s.Conn → String → s.World → s.World
  tell conn message w = (s.upgrader.write_message conn message w).1

  abbrev pub written : (s.World → Option s.World) → Result (Unit {0}) × s.World → Option s.World
  written next (ok _, w) = next w
  written next (err _, w) = some w

  abbrev pub send_chunk : s.Conn → (s.World → Option s.World) → String → s.World → Option s.World
  send_chunk conn next chunk w =
      if chunk == "" then next w else written next (s.upgrader.write_message conn chunk w)

  -- The error is looked at before the bytes.
  abbrev pub after_read :
      s.Conn → (s.World → Option s.World) → String → Option ReadError → s.World → Option s.World
  after_read conn next chunk (some eof) w = some w
  after_read conn next chunk (some (failed f)) w = some (tell conn ("Error: " <> f.text) w)
  after_read conn next chunk none w = send_chunk conn next chunk w

  -- The loop of `streamPodLogs`; `none` when the fuel is used up.
  unfoldable pub stream_logs :
      KubeClient s.World s.Stream → s.Stream → s.Conn → ℕ → s.World → Option s.World
  stream_logs kube_client stream conn zero w = none
  stream_logs kube_client stream conn (suc fuel) w =
      let (r, w') = kube_client.read stream w in
      after_read conn (stream_logs kube_client stream conn fuel) r.chunk r.error w'

  abbrev streamed : Exchange s.World → Option s.World → Option (Exchange s.World)
  streamed x none = none
  streamed x (some w) = some (record x { world = w })

  abbrev opened :
      KubeClient s.World s.Stream
      → ℕ
      → s.Conn
      → Exchange s.World
      → Result s.Stream × s.World
      → Option (Exchange s.World)
  opened kube_client fuel conn x (ok stream, w) =
      streamed x (stream_logs kube_client stream conn fuel w)
  opened kube_client fuel conn x (err f, w) =
      some (record x { world = tell conn ("Error: " <> f.text) w })

  abbrev upgraded :
      Option (KubeClient s.World s.Stream)
      → ℕ
      → String
      → EphemeralEnv
      → Result s.Conn × Exchange s.World
      → Option (Exchange s.World)
  upgraded kube_client fuel pod_name e (err f, x) = some x
  upgraded none fuel pod_name e (ok conn, x) =
      some (record x { world = tell conn "Error: Kubernetes client not available" x.world })
  upgraded (some kube_client) fuel pod_name e (ok conn, x) =
      opened kube_client fuel conn x
        (kube_client.open_logs (log_request none true e pod_name) x.world)

  abbrev stream_env :
      ℕ
      → Request
      → String
      → Exchange s.World
      → Result EphemeralEnv × s.World
      → Option (Exchange s.World)
  stream_env fuel r pod_name x (err f, w) =
      some (answer (http_error "Environment not found" status_not_found) (record x { world = w }))
  stream_env fuel r pod_name x (ok e, w) =
      upgraded s.kube_client fuel pod_name e (s.upgrader.upgrade r (record x { world = w }))

  unfoldable pub stream_pod_logs :
      ℕ → Request → String → String → Exchange s.World → Option (Exchange s.World)
  stream_pod_logs fuel r env_name pod_name x =
      stream_env fuel r pod_name x (s.client.get_env (default_key s env_name) x.world)

  unfoldable pub handle_pod_logs_stream : ℕ → Request → Exchange s.World → Option (Exchange s.World)
  unfolding stream_pod_logs
  handle_pod_logs_stream fuel r =
      stream_pod_logs fuel r (get_env_from_context r) (value_at "pod" r.vars)

  unfoldable pub handle_pod_logs_stream_by_name :
      ℕ → Request → Exchange s.World → Option (Exchange s.World)
  unfolding stream_pod_logs
  handle_pod_logs_stream_by_name fuel r =
      stream_pod_logs fuel r (value_at "name" r.vars) (value_at "pod" r.vars)
