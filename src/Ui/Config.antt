-- ===== src/Ui/Config.antt =====
-- The configuration of internal/ui/server.go, and the types of internal/ui/kubeconfig.go.
use kube_ephemerals.Prelude.{String, Option, none, List, pos}
use kube_ephemerals.Api.Types.{Duration}

-- The fields of `rest.Config` that the server reads. Bytes are a text; no bytes are the empty one.
pub record RestConfig : Type 0 where
  pub host : String
  pub ca_data : String
  pub ca_file : String

pub record Config : Type 0 where
  pub platform_domain : String
  pub admin_prefix : String
  pub base_domain : String
  pub listen_addr : String
  pub rest_config : Option RestConfig
  pub kubeconfig_server_url : String
  pub operator_namespace : String
  pub operator_kubeconfig_config_map_name : String
  pub operator_kubeconfig_config_map_key : String

abbrev pub default_config : Config
default_config = record {
  platform_domain = "platform.local";
  admin_prefix = "admin";
  base_domain = "preview.example.com";
  listen_addr = ":8080";
  rest_config = none;
  kubeconfig_server_url = "";
  operator_namespace = "";
  operator_kubeconfig_config_map_name = "";
  operator_kubeconfig_config_map_key = "";
}

abbrev pub kubeconfig_api_version : String
kubeconfig_api_version = "v1"

abbrev pub kubeconfig_kind : String
kubeconfig_kind = "Config"

abbrev pub developer_access_sa_name : String
developer_access_sa_name = "developer-access"

-- 12 hours
abbrev pub default_kubeconfig_token_expiration : Duration
default_kubeconfig_token_expiration = pos 43200000000000

abbrev pub cluster_info_namespace : String
cluster_info_namespace = "kube-public"

abbrev pub cluster_info_config_map_name : String
cluster_info_config_map_name = "cluster-info"

abbrev pub cluster_info_kubeconfig_key : String
cluster_info_kubeconfig_key = "kubeconfig"

pub record ClusterSpec : Type 0 where
  pub server : String
  pub certificate_authority_data : String

pub record ClusterEntry : Type 0 where
  pub name : String
  pub cluster : ClusterSpec

pub record ContextSpec : Type 0 where
  pub cluster : String
  pub user : String
  pub namespace : String

pub record ContextEntry : Type 0 where
  pub name : String
  pub context : ContextSpec

pub record UserSpec : Type 0 where
  pub token : String

pub record UserEntry : Type 0 where
  pub name : String
  pub user : UserSpec

pub record KubeconfigOut : Type 0 where
  pub api_version : String
  pub kind : String
  pub current_context : String
  pub clusters : List ClusterEntry
  pub contexts : List ContextEntry
  pub users : List UserEntry

-- What the reader of the cluster-info kubeconfig decodes.
pub record ParsedKubeconfig : Type 0 where
  pub clusters : List ClusterEntry
