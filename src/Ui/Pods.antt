-- ===== src/Ui/Pods.antt =====
-- The handlers of internal/ui/server.go for the pods of an environment.
pub mod Listed
use kube_ephemerals.Prelude.{
  ℕ, ◌+◌, ◌%◌, ◌^◌, String, ◌<>◌, ◌==◌, Bool, true, false, ◌&&◌, List, [], ◌∷◌, if◌then◌else◌,
}
use Prim.Native.Char.{Char, code}
use kube_ephemerals.Prelude.Tests
use kube_ephemerals.Api.Types.{Time, EphemeralEnv, ConditionStatus, condition_true}
use kube_ephemerals.Ui.Http.{Request, value_at, status_internal_server_error}
use kube_ephemerals.Ui.Services.{Pod, PodCondition}
use kube_ephemerals.Ui.Respond.{
  Server, Handler, Exchange, PodInfo, pods, restarting, answer, calling, settle, json_response,
  json_error, get_env_from_context, with_env,
}
use kube_ephemerals.Ui.Envs.{elapsed}

abbrev is_true : ConditionStatus → Bool
is_true condition_true = true
is_true _ = false

abbrev pub is_ready_condition : PodCondition → Bool
is_ready_condition c = c.kind == "Ready" && is_true c.status

unfoldable pub ready_condition : List PodCondition → Bool
ready_condition [] = false
ready_condition (c ∷ cs) = if is_ready_condition c then true else ready_condition cs

unfoldable pub is_pod_ready : Pod → Bool
unfolding ready_condition
is_pod_ready pod = ready_condition pod.conditions

-- `restarts += cs.RestartCount`, on the bit patterns of `int32`
unfoldable pub add_restarts : ℕ → List ℕ → ℕ
add_restarts restarts [] = restarts
add_restarts restarts (count ∷ counts) = add_restarts ((restarts + count) % 2 ^ 32) counts

unfoldable pub get_pod_restarts : Pod → ℕ
unfolding add_restarts
get_pod_restarts pod = add_restarts 0 pod.restart_counts

-- `strings.ReplaceAll` of "_" by "-"
abbrev replaced : Char → Char
replaced c = if Tests.◌==◌ (code c) 95 then "-" else c

abbrev pub replace_underscores : String → String
replace_underscores String.[] = String.[]
replace_underscores (String.◌∷◌ c s) = String.◌∷◌ (replaced c) (replace_underscores s)

unfoldable pub sanitize_env_name : (String → String) → String → String
sanitize_env_name to_lower name = replace_underscores (to_lower name)

module _ (s : Server) where
  abbrev pub pod_info : Time → Pod → PodInfo
  pod_info now pod = record {
    name = pod.name;
    namespace = pod.namespace;
    status = pod.phase;
    ready = is_pod_ready pod;
    restarts = get_pod_restarts pod;
    age = elapsed s pod.creation_timestamp now;
  }

  -- The clock is read for each pod.
  unfoldable pub pod_infos : List Pod → s.World → List PodInfo × s.World
  pod_infos [] w = ([], w)
  pod_infos (pod ∷ rest) w =
      let (now, w') = s.now w in
      let (infos, w'') = pod_infos rest w' in (pod_info now pod ∷ infos, w'')

  abbrev answer_pods : List Pod → Handler s.World
  answer_pods items x =
      let (infos, w) = pod_infos items x.world in
      answer (json_response (pods infos)) (record x { world = w })

  unfoldable pub get_env_pods : String → Handler s.World
  get_env_pods name = with_env s name (λ e.
      calling (s.client.list_pods e.status.active_namespace)
        (λ _. answer (json_error "Failed to list pods" status_internal_server_error)) answer_pods)

  unfoldable pub handle_env_pods : Request → Handler s.World
  unfolding get_env_pods
  handle_env_pods r = get_env_pods (get_env_from_context r)

  unfoldable pub handle_env_pods_by_name : Request → Handler s.World
  unfolding get_env_pods
  handle_env_pods_by_name r = get_env_pods (value_at "name" r.vars)

  unfoldable pub handle_restart_pod : Request → Handler s.World
  handle_restart_pod r =
      let pod_name = value_at "pod" r.vars in
      with_env s (get_env_from_context r) (λ e.
        calling
          (s.client.delete_pod (record { name = pod_name; namespace = e.status.active_namespace }))
          (λ f.
            answer (json_error ("Failed to restart pod: " <> f.text) status_internal_server_error))
          (λ _. answer (json_response (restarting pod_name))))
