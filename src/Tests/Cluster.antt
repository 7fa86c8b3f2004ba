-- ===== src/Tests/Cluster.antt =====
-- A cluster that accepts every write, and an environment with two components.
use kube_ephemerals.Prelude.{
  String, ◌==◌, true, Option, none, some, List, [], ◌∷◌, any, pos, if◌then◌else◌,
}
use kube_ephemerals.Exec.{Failure, ok, err}
use kube_ephemerals.Api.Types.{EphemeralEnv, DeployedComponentSpec, Duration, pending}
use kube_ephemerals.Kube.Objects.{Service, cluster_ip}
use kube_ephemerals.Kube.Client.{Client}
use kube_ephemerals.Kube.Library.{Library}
use kube_ephemerals.Helm.Mock.{MockClient, mock}
use kube_ephemerals.Controller.Base.{Reconciler, Session, World}

abbrev pub day : Duration
day = pos 86400000000000

abbrev pub parse_day : String → Option Duration
parse_day s = if s == "24h" then some day else none

abbrev pub library : Library
library = record {
  parse_duration = parse_day;
  to_lower = λ s. s;
  format_int = λ n. "8080";
  sort_slice = λ A less xs. xs;
  Values = Unit {0};
  unmarshal = λ s. ok tt;
  set_status_condition = λ cs c. c ∷ cs;
  contains_finalizer = λ fs f. any (λ g. g == f) fs;
  add_finalizer = λ fs f. f ∷ fs;
  remove_finalizer = λ fs f. [];
}

abbrev pub missing : Failure
missing = record { text = "not found"; is_not_found = true }

abbrev pub web : Service
web = record { name = "shop-web"; cluster_ip = "10.0.0.1"; type = cluster_ip; ports = 8080 ∷ [] }

abbrev pub metrics_service : Service
metrics_service = record web { name = "shop-metrics" }

abbrev pub services : List Service
services = metrics_service ∷ web ∷ []

abbrev pub Mock : Type 0
Mock = MockClient (Unit {0})

abbrev pub start : Mock
start = record {
  install_func = none;
  uninstall_func = none;
  status_func = none;
  is_installed_func = none;
  install_calls = [];
  uninstall_calls = [];
}

abbrev pub component : String → DeployedComponentSpec
component name = record {
  name = name;
  repository = "https://charts.example.com";
  chart = "web";
  version = "1.0.0";
  service_name = "";
  service_port = 0;
  values = none;
  primary = true;
}

abbrev pub shop : EphemeralEnv
shop = record {
  metadata = record {
    name = "shop";
    namespace = "default";
    resource_version = "1";
    labels = [];
    creation_timestamp = pos 0;
    deletion_timestamp = none;
    finalizers = "ephemeral.ephemeralenv.io/finalizer" ∷ [];
  };
  spec = record {
    helm = none;
    components = component "web" ∷ component "db" ∷ [];
    template_ref = none;
    ttl = "24h";
    isolation = none;
    service_port = some 8080;
    gateway = record {
      name = "main";
      namespace = "gateways";
      domain_prefix = "shop";
      service_name = "web";
      target_port = 80;
    };
  };
  status = record {
    phase = pending;
    active_namespace = "env-shop";
    access_url = "";
    admin_url = "";
    expiration_time = some (pos 2000);
    helm_release = "";
    component_statuses = [];
    last_reconcile_time = none;
    message = "";
    conditions = [];
  };
}

-- The clock stands still.
abbrev pub client : Client
client = record {
  World = Mock;
  get_env = λ k w. (ok shop, w);
  update_env = λ e w. (ok e, w);
  update_env_status = λ e w. (ok e, w);
  get_template = λ k w. (err missing, w);
  get_object = λ d k w. (err missing, w);
  create_or_update = λ o f w. (ok tt, w);
  delete_object = λ d k w. (ok tt, w);
  list_services = λ n w. (ok services, w);
  now = λ w. (pos 1000, w);
}

abbrev pub reconciler : Reconciler
reconciler = record {
  library = library;
  client = client;
  helm_client = some mock;
  operator_service = "operator";
  operator_namespace = "system";
}

abbrev pub session : Session (World reconciler)
session = record { world = start; env = shop }
