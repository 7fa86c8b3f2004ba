-- ===== src/Tests/Objects.antt =====
-- The theorems on the objects that are written, at a cluster that keeps one.
use kube_ephemerals.Prelude.{Option, none, some, refl, pos}
use kube_ephemerals.Exec.{ok, err}
use kube_ephemerals.Api.Helpers.{is_isolation_enabled}
use kube_ephemerals.Kube.Objects.{ObjectKey, Kind, Object}
use kube_ephemerals.Kube.Client.{Client}
use kube_ephemerals.Controller.Base.{Reconciler, Session, World}
use kube_ephemerals.Controller.Resources.{ensure_network_policy}
use kube_ephemerals.Controller.Resources.Isolated.{
  found_or, Upserts, Applied, ensure_network_policy-Applied,
}
use kube_ephemerals.Tests.Cluster.{library, shop, missing, services}

-- A cluster with room for one object.
abbrev keeping : Client
keeping = record {
  World = Option Object;
  get_env = λ k w. (ok shop, w);
  update_env = λ e w. (ok e, w);
  update_env_status = λ e w. (ok e, w);
  get_template = λ k w. (err missing, w);
  get_object = λ d k w. (err missing, w);
  create_or_update = λ o f w. (ok tt, some (f (found_or o w)));
  delete_object = λ d k w. (ok tt, none);
  list_services = λ n w. (ok services, w);
  now = λ w. (pos 1000, w);
}

abbrev keeper : Reconciler
keeper = record {
  library = library;
  client = keeping;
  helm_client = none;
  operator_service = "operator";
  operator_namespace = "system";
}

abbrev only_object : Option Object → Kind → ObjectKey → Option Object
only_object w kind key = w

keeper-Upserts : Upserts keeper only_object
keeper-Upserts = record { on_upsert = λ o f w h. refl; on_now = λ w kind key. refl }

abbrev empty_cluster : Session (World keeper)
empty_cluster = record { world = none; env = shop }

ensure_network_policy-Applied_example :
    Applied keeper only_object keeper-Upserts empty_cluster
      (ensure_network_policy keeper empty_cluster)
unfolding is_isolation_enabled
ensure_network_policy-Applied_example =
    ensure_network_policy-Applied keeper only_object keeper-Upserts empty_cluster refl
