-- ===== src/Ui/Kubeconfig/Restricted.antt =====
-- The tokens that the kubeconfig's handler asks for.
use kube_ephemerals.Prelude.{
  pos, negsuc, ◌≤ℤ◌, ◌==◌, String, Option, none, some, [], ◌∷◌, ◌≡◌, refl, arith,
}
use kube_ephemerals.Exec.{Result, ok, err}
use kube_ephemerals.Exec.Hoare.{Keeps, Keeps-pure, Keeps-raise, Keeps-if, Keeps-bind, Keeps-attempt}
use kube_ephemerals.Api.Types.{Duration, EphemeralEnv}
use kube_ephemerals.Api.Helpers.{get_ttl}
use kube_ephemerals.Kube.Objects.{ObjectKey}
use kube_ephemerals.Ui.Http.{Request, value_at}
use kube_ephemerals.Ui.Config.{Config, RestConfig}
use kube_ephemerals.Ui.Services.{KubeClient, TokenRequest}
use kube_ephemerals.Ui.Respond.{Server, Exchange, default_key}
use kube_ephemerals.Ui.Frame.{
  Preserves, Preserves-answer, Preserves-calling, Preserves-checked, Preserves-with_env,
}
use kube_ephemerals.Ui.Kubeconfig.{get_cluster_info_server_and_ca, generate_kubeconfig_yaml}
use kube_ephemerals.Ui.Kubeconfig.Resolve.{
  resolve_kubeconfig_server_url, rest_config, base, resolve_ca, operator_url, operator_key,
  url_of_map, found,
}
use kube_ephemerals.Ui.Kubeconfig.Download.{
  handle_kubeconfig_by_name, token_request, answer_env, answer_with_token, min_ℤ, whole_seconds,
}

-- A token of the developers' service account, for at most twelve hours and for the API server only.
pub record Restricted (req : TokenRequest) : Type 0 where
  pub account : req.service_account ≡ "developer-access"
  pub lifetime : req.expiration_seconds ≤ℤ pos 43200
  pub audience : req.audiences ≡ ("https://kubernetes.default.svc" ∷ [])

-- What is kept by the reads and by the tokens that may be asked for.
pub record ReadOnly (s : Server) (k : KubeClient s.World s.Stream) (holds : s.World → Type 0)
    : Type 0 where
  pub on_get : (key : ObjectKey) → Keeps holds (s.client.get_env key)
  pub on_config : Keeps holds s.in_cluster_config
  pub on_file : (path : String) (w : s.World) → holds w → holds (s.read_file path w).1
  pub on_map : (key : ObjectKey) → Keeps holds (k.get_config_map key)
  pub on_token : (req : TokenRequest) → Restricted req → Keeps holds (k.create_token req)

whole_seconds-min_ℤ : (d : Duration) → whole_seconds (min_ℤ d (pos 43200000000000)) ≤ℤ pos 43200
whole_seconds-min_ℤ (pos n) = ground arith
whole_seconds-min_ℤ (negsuc n) = ground arith

token_request-Restricted : (s : Server) (e : EphemeralEnv) → Restricted (token_request s e)
unfolding token_request
token_request-Restricted s e = record {
  account = refl;
  lifetime = whole_seconds-min_ℤ (get_ttl s.library.parse_duration e.spec);
  audience = refl;
}

module _ (s : Server) (k : KubeClient s.World s.Stream) (holds : s.World → Type 0)
    (kept : ReadOnly s k holds) where
  rest_config-Keeps : (rc : Option RestConfig) → Keeps holds (rest_config s rc)
  rest_config-Keeps (some rc) = Keeps-pure (some rc)
  rest_config-Keeps none = Keeps-attempt kept.on_config (λ x. Keeps-pure (found x))

  base-Keeps :
      (info : Result (String × String)) (rc : Option RestConfig) → Keeps holds (base s info rc)
  base-Keeps (ok info) rc = Keeps-pure info
  base-Keeps (err e) none = Keeps-raise _
  base-Keeps (err e) (some rc) = Keeps-pure (rc.host, rc.ca_data)

  resolve_ca-Keeps : (rc : Option RestConfig) (ca : String) → Keeps holds (resolve_ca s rc ca)
  resolve_ca-Keeps none ca = Keeps-pure ca
  resolve_ca-Keeps (some rc) ca =
      Keeps-if (ca == "")
        (Keeps-if (rc.ca_data == "")
          (Keeps-if (rc.ca_file == "") (Keeps-pure "") (record { at = kept.on_file rc.ca_file }))
          (Keeps-pure rc.ca_data))
        (Keeps-pure ca)

  operator_url-Keeps : (cfg : Config) (url : String) → Keeps holds (operator_url s (some k) cfg url)
  operator_url-Keeps cfg url =
      Keeps-if (cfg.operator_namespace == "") (Keeps-pure url)
        (Keeps-attempt (kept.on_map (operator_key cfg)) (λ x. Keeps-pure (url_of_map s cfg url x)))

  cluster_info-Keeps : Keeps holds (get_cluster_info_server_and_ca s.encoding (some k))
  unfolding get_cluster_info_server_and_ca
  cluster_info-Keeps = Keeps-bind (kept.on_map _) (λ entries. record { at = λ w before. before })

  resolve-Keeps : (cfg : Config) → Keeps holds (resolve_kubeconfig_server_url s (some k) cfg)
  unfolding resolve_kubeconfig_server_url
  resolve-Keeps cfg = Keeps-attempt cluster_info-Keeps (λ info.
      Keeps-bind (rest_config-Keeps cfg.rest_config) (λ rc.
        Keeps-bind (base-Keeps info rc) (λ found_base.
          Keeps-bind (resolve_ca-Keeps rc found_base.1)
            (λ ca_data. Keeps-bind (operator_url-Keeps cfg _) (λ url. Keeps-pure (url, ca_data))))))

  answer_with_token-keeps :
      (name : String) (e : EphemeralEnv) (token : String)
      → Preserves holds (answer_with_token s k name e token)
  answer_with_token-keeps name e token =
      Preserves-calling (resolve-Keeps s.config) (λ _. Preserves-answer _)
        (λ info.
          Preserves-checked (generate_kubeconfig_yaml s.encoding _ _ _ _ _)
            (λ _. Preserves-answer _) (λ yaml _. Preserves-answer _))

  answer_env-keeps :
      (name : String) (e : EphemeralEnv) → Preserves holds (answer_env s (some k) name e)
  answer_env-keeps name e =
      Preserves-calling (kept.on_token (token_request s e) (token_request-Restricted s e))
        (λ _. Preserves-answer _) (answer_with_token-keeps name e)

  answered-keeps :
      (client : Option (KubeClient s.World s.Stream)) (name : String) (e : EphemeralEnv)
      → client ≡ some k
      → Preserves holds (answer_env s client name e)
  answered-keeps client name e same = rw same (answer_env-keeps name e)

-- What is kept by the cluster's reads, by the file's, and by each request of a token for the
-- developers' account, for at most twelve hours and for the API server alone, is kept by the
-- kubeconfig's handler: it asks for no other token, and writes nothing else.
pub handle_kubeconfig_by_name-keeps :
    (s : Server) (k : KubeClient s.World s.Stream) (holds : s.World → Type 0)
    → s.kube_client ≡ some k
    → ReadOnly s k holds
    → (r : Request) (x : Exchange s.World) → holds x.world
    → holds (handle_kubeconfig_by_name s r x).world
unfolding handle_kubeconfig_by_name
handle_kubeconfig_by_name-keeps s k holds has_client kept r =
    let name = value_at "name" r.vars in
    (Preserves-with_env s name (kept.on_get (default_key s name))
      (λ e. answered-keeps s k holds kept s.kube_client name e has_client)).at
