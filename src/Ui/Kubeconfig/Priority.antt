-- ===== src/Ui/Kubeconfig/Priority.antt =====
-- The server and the certificate of a kubeconfig, by the order in which their sources count.
use kube_ephemerals.Prelude.{
  String, ◌==◌, Option, none, some, List, [], ◌∷◌, Labels, ◌≡◌, refl, if◌then◌else◌, arith, eq_iff,
  Bool-cases, inl, inr,
}
use kube_ephemerals.Exec.{Result, ok, err, wrap, pure, raise, attempt, continue, ◌>>=◌}
use kube_ephemerals.Kube.Objects.{ObjectKey}
use kube_ephemerals.Ui.Http.{value_at}
use kube_ephemerals.Ui.Config.{Config, RestConfig}
use kube_ephemerals.Ui.Services.{KubeClient}
use kube_ephemerals.Ui.Respond.{Server}
use kube_ephemerals.Ui.Kubeconfig.{
  get_cluster_info_server_and_ca, cluster_info, cluster_info_key, lift,
}
use kube_ephemerals.Ui.Kubeconfig.Resolve.{
  resolve_kubeconfig_server_url, rest_config, base, resolve_ca, operator_url, operator_key,
  operator_field, url_of_map, or_default, found,
}

abbrev pub first_given : List String → String
first_given [] = ""
first_given (v ∷ vs) = if v == "" then first_given vs else v

-- A cluster that does not change while it is read.
pub record Snapshot : Type 0 where
  pub maps : ObjectKey → Result Labels
  pub file : String → String
  pub in_cluster : Result RestConfig

pub record Still (s : Server) (k : KubeClient s.World s.Stream) (snap : Snapshot) : Type 0 where
  pub on_map : (key : ObjectKey) (w : s.World) → k.get_config_map key w ≡ (snap.maps key, w)
  pub on_file : (path : String) (w : s.World) → s.read_file path w ≡ (snap.file path, w)
  pub on_config : (w : s.World) → s.in_cluster_config w ≡ (snap.in_cluster, w)

abbrev pub rest_of : Snapshot → Option RestConfig → Option RestConfig
rest_of snap none = found snap.in_cluster
rest_of snap (some rc) = some rc

abbrev pub file_of : Snapshot → String → String
file_of snap path = if path == "" then "" else snap.file path

abbrev pub certificates : Snapshot → Option RestConfig → List String
certificates snap none = []
certificates snap (some rc) = rc.ca_data ∷ file_of snap rc.ca_file ∷ []

doubled : (v : String) (vs : List String) → first_given (v ∷ v ∷ vs) ≡ first_given (v ∷ vs)
doubled v vs = ground (arith, eq_iff v "")

module _ (s : Server) where
  abbrev pub info_of : Result Labels → Result (String × String)
  info_of (ok entries) = cluster_info s.encoding entries
  info_of (err e) = err e

  abbrev pub trimmed : Config → Result Labels → String
  trimmed cfg (ok entries) = s.encoding.trim_space (value_at (operator_field cfg) entries)
  trimmed cfg (err e) = ""

  abbrev pub operator_value : Config → Snapshot → String
  operator_value cfg snap =
      if cfg.operator_namespace == "" then "" else trimmed cfg (snap.maps (operator_key cfg))

  -- The sources of the server: the operator's map, the override, the cluster-info or else the rest
  -- configuration. Those of the certificate: the cluster-info, the rest configuration, its file.
  abbrev pub by_priority :
      Config → Snapshot → Option RestConfig → Result (String × String) → Result (String × String)
  by_priority cfg snap rc (ok (server, ca)) = ok (
    first_given (operator_value cfg snap ∷ cfg.kubeconfig_server_url ∷ server ∷ []),
    first_given (ca ∷ certificates snap rc),
  )
  by_priority cfg snap (some rc) (err e) = ok (
    first_given (operator_value cfg snap ∷ cfg.kubeconfig_server_url ∷ rc.host ∷ []),
    first_given (certificates snap (some rc)),
  )
  by_priority cfg snap none (err e) = err (wrap "no rest config and cluster-info unavailable: " e)

module _ (s : Server) (k : KubeClient s.World s.Stream) (snap : Snapshot) (still : Still s k snap)
    (cfg : Config) where
  rest_config-still :
      (rc : Option RestConfig) (w : s.World) → rest_config s rc w ≡ (ok (rest_of snap rc), w)
  unfolding pure attempt
  rest_config-still none w = rw (still.on_config w) refl
  rest_config-still (some rc) w = refl

  resolve_ca-still :
      (rc : Option RestConfig) (ca : String) (w : s.World)
      → resolve_ca s rc ca w ≡ (ok (first_given (ca ∷ certificates snap rc)), w)
  unfolding pure
  resolve_ca-still none ca w = ground (arith, eq_iff ca "")
  resolve_ca-still (some rc) ca w = ground (
    arith,
    eq_iff ca "",
    eq_iff rc.ca_data "",
    eq_iff rc.ca_file "",
    eq_iff (snap.file rc.ca_file) "",
    still.on_file rc.ca_file w,
  )

  mapped :
      (server : String) (x : Result Labels)
      → url_of_map s cfg (or_default server cfg.kubeconfig_server_url) x
        ≡ first_given (trimmed s cfg x ∷ cfg.kubeconfig_server_url ∷ server ∷ [])
  mapped server (ok entries) = ground (
    arith,
    eq_iff (trimmed s cfg (ok entries)) "",
    eq_iff cfg.kubeconfig_server_url "",
    eq_iff server "",
  )
  mapped server (err e) = ground (arith, eq_iff cfg.kubeconfig_server_url "", eq_iff server "")

  unmapped :
      (server : String)
      → or_default server cfg.kubeconfig_server_url
        ≡ first_given ("" ∷ cfg.kubeconfig_server_url ∷ server ∷ [])
  unmapped server = ground (arith, eq_iff cfg.kubeconfig_server_url "", eq_iff server "")

  operator_url-still :
      (server : String) (w : s.World)
      → operator_url s (some k) cfg (or_default server cfg.kubeconfig_server_url) w ≡ (
        ok (first_given (operator_value s cfg snap ∷ cfg.kubeconfig_server_url ∷ server ∷ [])),
        w,
      )
  unfolding pure attempt
  operator_url-still server w = elim (Bool-cases (cfg.operator_namespace == "")) [
    | inl without ↦ rw (without, unmapped server) refl
    | inr within ↦
        rw (within, still.on_map (operator_key cfg) w, mapped server (snap.maps (operator_key cfg)))
          refl
  ]

  informed :
      {w : s.World} (x : Result Labels)
      → continue (λ entries. lift (cluster_info s.encoding entries)) (x, w) ≡ (info_of s x, w)
  informed (ok entries) = refl
  informed (err e) = refl

  cluster_info-still :
      (w : s.World)
      → get_cluster_info_server_and_ca s.encoding (some k) w
        ≡ (info_of s (snap.maps cluster_info_key), w)
  unfolding get_cluster_info_server_and_ca ◌>>=◌
  cluster_info-still w =
      rw (still.on_map cluster_info_key w) (informed (snap.maps cluster_info_key))

  from_base :
      (rc : Option RestConfig) (info : Result (String × String)) (w : s.World)
      → continue
          (λ (server_url, ca). resolve_ca s rc ca >>= λ ca_data.
            operator_url s (some k) cfg (or_default server_url cfg.kubeconfig_server_url) >>= λ url.
            pure (url, ca_data))
          (base s info rc w)
        ≡ (by_priority s cfg snap rc info, w)
  unfolding pure raise ◌>>=◌
  from_base rc (ok (server, ca)) w = rw (resolve_ca-still rc ca w, operator_url-still server w) refl
  from_base none (err e) w = refl
  from_base (some rc) (err e) w =
      rw (resolve_ca-still (some rc) rc.ca_data w, operator_url-still rc.host w)
        (rw (doubled rc.ca_data (file_of snap rc.ca_file ∷ [])) refl)

-- In a cluster that does not change while it is read, the server is the first that is given of the
-- operator's map (trimmed), the override, and the cluster-info's server or, without a cluster-info,
-- the rest configuration's host. The certificate is the first that is given of the cluster-info's,
-- the rest configuration's and its file's. Without a cluster-info and a rest configuration there is
-- an error.
pub resolve_kubeconfig_server_url-by_priority :
    (s : Server) (k : KubeClient s.World s.Stream) (snap : Snapshot)
    → Still s k snap
    → (cfg : Config) (w : s.World)
    → resolve_kubeconfig_server_url s (some k) cfg w ≡ (
      by_priority s cfg snap
          (rest_of snap cfg.rest_config)
          (info_of s (snap.maps cluster_info_key)),
      w,
    )
unfolding resolve_kubeconfig_server_url attempt ◌>>=◌
resolve_kubeconfig_server_url-by_priority s k snap still cfg w =
    rw
      (
        cluster_info-still s k snap still cfg w,
        rest_config-still s k snap still cfg cfg.rest_config w,
      )
      (from_base s k snap still cfg (rest_of snap cfg.rest_config)
        (info_of s (snap.maps cluster_info_key)) w)
