-- ===== src/Ui/Kubeconfig.antt =====
-- internal/ui/kubeconfig.go, and the kubeconfig's handler of internal/ui/server.go.
pub mod Resolve
pub mod Download
pub mod Restricted
pub mod Reading
pub mod Priority
use kube_ephemerals.Prelude.{
  String, ◌<>◌, ◌==◌, Option, none, some, List, [], ◌∷◌, Labels, get_label, if◌then◌else◌,
}
use kube_ephemerals.Exec.{Result, ok, err, wrap, new_error, Exec, raise, ◌>>=◌}
use kube_ephemerals.Kube.Objects.{ObjectKey}
use kube_ephemerals.Ui.Config.{
  ClusterSpec, ClusterEntry, KubeconfigOut, ParsedKubeconfig, kubeconfig_api_version,
  kubeconfig_kind, cluster_info_namespace, cluster_info_config_map_name,
  cluster_info_kubeconfig_key,
}
use kube_ephemerals.Ui.Services.{KubeClient, Encoding}

abbrev pub cluster_info_key : ObjectKey
cluster_info_key = record {
  name = cluster_info_config_map_name;
  namespace = cluster_info_namespace;
}

abbrev pub lift : {W A : Type 0} → Result A → Exec W A
lift x w = (x, w)

module _ (encoding : Encoding) where
  abbrev pub decoded_ca : String → Result String → Result (String × String)
  decoded_ca server (ok ca) = ok (server, ca)
  decoded_ca server (err e) = err (wrap "decode cluster-info CA: " e)

  abbrev pub server_and_ca : ClusterSpec → Result (String × String)
  server_and_ca c =
      if c.server == ""
      then err (new_error "cluster-info cluster has no server")
      else if c.certificate_authority_data == ""
      then ok (c.server, "")
      else decoded_ca c.server (encoding.decode_base64 c.certificate_authority_data)

  abbrev pub first_cluster : List ClusterEntry → Result (String × String)
  first_cluster [] = err (new_error "cluster-info kubeconfig has no clusters")
  first_cluster (entry ∷ entries) = server_and_ca entry.cluster

  abbrev pub parsed_clusters : Result ParsedKubeconfig → Result (String × String)
  parsed_clusters (ok parsed) = first_cluster parsed.clusters
  parsed_clusters (err e) = err e

  abbrev pub raw_kubeconfig : Option String → Result (String × String)
  raw_kubeconfig none = err (new_error "cluster-info ConfigMap has no kubeconfig key")
  raw_kubeconfig (some raw) = parsed_clusters (encoding.unmarshal_yaml raw)

  -- What `GetClusterInfoServerAndCA` makes of the map's data.
  unfoldable pub cluster_info : Labels → Result (String × String)
  cluster_info entries = raw_kubeconfig (get_label cluster_info_kubeconfig_key entries)

  unfoldable pub get_cluster_info_server_and_ca :
      {World Stream : Type 0} → Option (KubeClient World Stream) → Exec World (String × String)
  get_cluster_info_server_and_ca none = raise (new_error "no Kubernetes client")
  get_cluster_info_server_and_ca (some kube_client) =
      kube_client.get_config_map cluster_info_key >>= λ entries. lift (cluster_info entries)

  abbrev pub ca_base64 : String → String
  ca_base64 ca_data = if ca_data == "" then "" else encoding.encode_base64 ca_data

  -- `clusterName` is "env-" with the environment's name, `contextName` is the namespace.
  abbrev pub kubeconfig_out : String → String → String → String → String → KubeconfigOut
  kubeconfig_out server_url ca_data token namespace env_name = record {
    api_version = kubeconfig_api_version;
    kind = kubeconfig_kind;
    current_context = namespace;
    clusters =
        record {
          name = "env-" <> env_name;
          cluster = record { server = server_url; certificate_authority_data = ca_base64 ca_data };
        }
        ∷ [];
    contexts =
        record {
          name = namespace;
          context = record {
            cluster = "env-" <> env_name;
            user = "developer-access";
            namespace = namespace;
          };
        }
        ∷ [];
    users = record { name = "developer-access"; user = record { token = token } } ∷ [];
  }

  abbrev pub marshalled : Result String → Result String
  marshalled (ok out) = ok out
  marshalled (err e) = err (wrap "marshal kubeconfig: " e)

  unfoldable pub generate_kubeconfig_yaml :
      String → String → String → String → String → Result String
  generate_kubeconfig_yaml server_url ca_data token namespace env_name =
      if server_url == ""
      then err (new_error "server URL is required")
      else if token == ""
      then err (new_error "token is required")
      else if namespace == ""
      then err (new_error "namespace is required")
      else if env_name == ""
      then err (new_error "env name is required")
      else marshalled
          (encoding.marshal_yaml (kubeconfig_out server_url ca_data token namespace env_name))
