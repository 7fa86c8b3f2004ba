-- ===== src/Ui/Kubeconfig/Download.antt =====
-- `handleKubeconfigByName` of internal/ui/server.go.
use kube_ephemerals.Prelude.{
  ℕ, ℤ, pos, negsuc, suc, ◌-◌, ◌/◌, String, ◌<>◌, ◌==◌, Option, none, some, [], ◌∷◌, if◌then◌else◌,
  ltb, ltb_ℤ,
}
use kube_ephemerals.Api.Types.{Duration, EphemeralEnv}
use kube_ephemerals.Api.Helpers.{get_namespace_name, get_ttl}
use kube_ephemerals.Ui.Http.{
  Request, Writer, value_at, set_field, write_header, write, status_ok,
  status_internal_server_error, status_service_unavailable,
}
use kube_ephemerals.Ui.Config.{default_kubeconfig_token_expiration, developer_access_sa_name}
use kube_ephemerals.Ui.Services.{KubeClient, TokenRequest}
use kube_ephemerals.Ui.Respond.{
  Server, Handler, Value, text, answer, calling, checked, json_error, with_env,
}
use kube_ephemerals.Ui.Kubeconfig.{generate_kubeconfig_yaml}
use kube_ephemerals.Ui.Kubeconfig.Resolve.{resolve_kubeconfig_server_url}

abbrev pub min_ℤ : ℤ → ℤ → ℤ
min_ℤ a b = if ltb_ℤ b a then b else a

abbrev negative_or_zero : ℕ → ℤ
negative_or_zero n = if ltb 0 n then negsuc (n - 1) else pos 0

-- `int64(d.Seconds())`, which drops the fraction of a second on either side of zero. The float64
-- that it goes through keeps the fraction as long as d is shorter than 2 ^ 23 seconds.
abbrev pub whole_seconds : Duration → ℤ
whole_seconds (pos n) = pos (n / 1000000000)
whole_seconds (negsuc n) = negative_or_zero (suc n / 1000000000)

abbrev pub target_namespace : EphemeralEnv → String
target_namespace e =
    if e.status.active_namespace == "" then get_namespace_name e else e.status.active_namespace

module _ (s : Server) where
  unfoldable pub token_request : EphemeralEnv → TokenRequest
  token_request e = record {
    namespace = target_namespace e;
    service_account = developer_access_sa_name;
    expiration_seconds =
        whole_seconds
          (min_ℤ (get_ttl s.library.parse_duration e.spec) default_kubeconfig_token_expiration);
    audiences = "https://kubernetes.default.svc" ∷ [];
  }

  unfoldable pub send_kubeconfig : String → String → Writer Value → Writer Value
  send_kubeconfig name yaml w = write (text yaml) (
      write_header status_ok (
        set_field "Content-Disposition"
          ("attachment; filename=" <> s.encoding.quote ("kubeconfig-" <> name <> ".yaml"))
          (set_field "Content-Type" "application/x-yaml" w)))

  abbrev pub answer_kubeconfig : String → EphemeralEnv → String → String × String → Handler s.World
  answer_kubeconfig name e token (server_url, ca_data) =
      checked
        (generate_kubeconfig_yaml s.encoding server_url ca_data token (target_namespace e) name)
        (λ _. answer (json_error "Failed to generate kubeconfig" status_internal_server_error))
        (λ yaml. answer (send_kubeconfig name yaml))

  abbrev pub answer_with_token :
      KubeClient s.World s.Stream → String → EphemeralEnv → String → Handler s.World
  answer_with_token kube_client name e token =
      calling (resolve_kubeconfig_server_url s (some kube_client) s.config)
        (λ _. answer (json_error "Cluster config not available" status_service_unavailable))
        (answer_kubeconfig name e token)

  abbrev pub answer_env :
      Option (KubeClient s.World s.Stream) → String → EphemeralEnv → Handler s.World
  answer_env none name e = answer (json_error "Kubeconfig not available" status_service_unavailable)
  answer_env (some kube_client) name e =
      calling (kube_client.create_token (token_request e))
        (λ f.
          answer (json_error ("Failed to create token: " <> f.text) status_internal_server_error))
        (answer_with_token kube_client name e)

  unfoldable pub handle_kubeconfig_by_name : Request → Handler s.World
  handle_kubeconfig_by_name r =
      with_env s (value_at "name" r.vars) (answer_env s.kube_client (value_at "name" r.vars))
