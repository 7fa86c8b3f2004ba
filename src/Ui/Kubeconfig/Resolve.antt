-- ===== src/Ui/Kubeconfig/Resolve.antt =====
-- `resolveKubeconfigServerURL` of internal/ui/server.go.
use kube_ephemerals.Prelude.{String, ◌==◌, Option, none, some, if◌then◌else◌}
use kube_ephemerals.Exec.{Result, ok, err, wrap, Exec, pure, raise, attempt, ◌>>=◌}
use kube_ephemerals.Prelude.{Labels}
use kube_ephemerals.Kube.Objects.{ObjectKey}
use kube_ephemerals.Ui.Http.{value_at}
use kube_ephemerals.Ui.Config.{Config, RestConfig}
use kube_ephemerals.Ui.Services.{KubeClient}
use kube_ephemerals.Ui.Respond.{Server}
use kube_ephemerals.Ui.Kubeconfig.{get_cluster_info_server_and_ca}

abbrev pub found : {A : Type 0} → Result A → Option A
found (ok a) = some a
found (err _) = none

abbrev pub or_default : String → String → String
or_default default v = if v == "" then default else v

abbrev pub operator_key : Config → ObjectKey
operator_key cfg = record {
  name = or_default "ephemeral-operator-ui-config" cfg.operator_kubeconfig_config_map_name;
  namespace = cfg.operator_namespace;
}

abbrev pub operator_field : Config → String
operator_field cfg = or_default "kubeconfig-server-url" cfg.operator_kubeconfig_config_map_key

module _ (s : Server) where
  -- `rest.InClusterConfig` is called only without a configured one, and its error is dropped.
  abbrev pub rest_config : Option RestConfig → Exec s.World (Option RestConfig)
  rest_config (some rc) = pure (some rc)
  rest_config none = attempt s.in_cluster_config (λ x. pure (found x))

  abbrev pub base : Result (String × String) → Option RestConfig → Exec s.World (String × String)
  base (ok info) rc = pure info
  base (err e) none = raise (wrap "no rest config and cluster-info unavailable: " e)
  base (err e) (some rc) = pure (rc.host, rc.ca_data)

  abbrev pub read_ca : String → Exec s.World String
  read_ca path w = let (bytes, w') = s.read_file path w in (ok bytes, w')

  abbrev pub resolve_ca : Option RestConfig → String → Exec s.World String
  resolve_ca none ca = pure ca
  resolve_ca (some rc) ca =
      if ca == ""
      then if rc.ca_data == ""
        then if rc.ca_file == "" then pure "" else read_ca rc.ca_file
        else pure rc.ca_data
      else pure ca

  abbrev pub url_of_map : Config → String → Result Labels → String
  url_of_map cfg url (err e) = url
  url_of_map cfg url (ok entries) =
      or_default url (s.encoding.trim_space (value_at (operator_field cfg) entries))

  abbrev pub operator_url :
      Option (KubeClient s.World s.Stream) → Config → String → Exec s.World String
  operator_url none cfg url = pure url
  operator_url (some kube_client) cfg url =
      if cfg.operator_namespace == ""
      then pure url
      else attempt (kube_client.get_config_map (operator_key cfg))
          (λ x. pure (url_of_map cfg url x))

  unfoldable pub resolve_kubeconfig_server_url :
      Option (KubeClient s.World s.Stream) → Config → Exec s.World (String × String)
  resolve_kubeconfig_server_url kube_client cfg =
      attempt (get_cluster_info_server_and_ca s.encoding kube_client) (λ info.
        rest_config cfg.rest_config >>= λ rc. base info rc >>= λ (server_url, ca).
        resolve_ca rc ca >>= λ ca_data.
        operator_url kube_client cfg (or_default server_url cfg.kubeconfig_server_url) >>= λ url.
        pure (url, ca_data))
