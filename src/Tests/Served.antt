-- ===== src/Tests/Served.antt =====
-- The theorems on the server at the small cluster.
use kube_ephemerals.Prelude.{
  ℕ, ◌<◌, ◌+◌, String, Option, none, some, List, [], ◌∷◌, map, length, pos, ◌+ℤ◌, ◌≡◌, refl, ap,
  sym, ◌∙◌, arith, eq_iff,
}
use kube_ephemerals.Prelude.Text.{get_label}
use kube_ephemerals.Exec.{ok, err}
use kube_ephemerals.Api.Types.{EphemeralEnv, Time}
use kube_ephemerals.Controller.Base.{second}
use kube_ephemerals.Prelude.Int.{+ℤ_parts}
use kube_ephemerals.Api.Template.{EnvironmentTemplate}
use kube_ephemerals.Ui.Http.{Request, new_writer, value_at}
use kube_ephemerals.Ui.Config.{KubeconfigOut, ClusterEntry}
use kube_ephemerals.Ui.Services.{TokenRequest, ReadResult}
use kube_ephemerals.Ui.Respond.{Handler, Exchange}
use kube_ephemerals.Ui.Kubeconfig.{cluster_info, cluster_info_key, generate_kubeconfig_yaml}
use kube_ephemerals.Ui.Kubeconfig.Download.{handle_kubeconfig_by_name}
use kube_ephemerals.Ui.Kubeconfig.Restricted.{Restricted, ReadOnly, handle_kubeconfig_by_name-keeps}
use kube_ephemerals.Ui.Kubeconfig.Reading.{Faithful, cluster_info-generate_kubeconfig_yaml}
use kube_ephemerals.Ui.Kubeconfig.Resolve.{resolve_kubeconfig_server_url}
use kube_ephemerals.Ui.Kubeconfig.Priority.{
  Snapshot, Still, rest_of, info_of, by_priority, resolve_kubeconfig_server_url-by_priority,
}
use kube_ephemerals.Ui.Logs.{stream_logs}
use kube_ephemerals.Ui.Logs.Loop.{Drains, stream_logs-ends}
use kube_ephemerals.Ui.Logs.Messages.{Scripted, Sends, messages, stream_logs-Sends}
use kube_ephemerals.Ui.Templates.{
  handle_get_template, registry_get, set_client, new_template_registry,
  convert_template_to_api_response,
}
use kube_ephemerals.Ui.Templates.Create.{
  handle_create_template, new_template, components_of, component_of,
}
use kube_ephemerals.Ui.Templates.Valid.{
  Valid, as_request, with_defaults, handle_create_template-Valid,
  convert_template_to_api_response-new_template,
}
use kube_ephemerals.Ui.Templates.Lookup.{Agrees, handle_get_template-registry_get}
use kube_ephemerals.Ui.Pods.{pod_infos}
use kube_ephemerals.Ui.Pods.Listed.{row_of, row, pod_infos-row}
use kube_ephemerals.Ui.Ttl.{expiring_at, extend_ttl}
use kube_ephemerals.Ui.Ttl.Extended.{Stores, Extends, extend_ttl-is_expired}
use kube_ephemerals.Ui.Router.{
  handler_of, env_dashboard, env_dashboard_by_name, env_pods, env_pods_by_name, pod_logs,
  pod_logs_by_name, extend_ttl as extend_ttl_by_host, extend_ttl_by_name,
}
use kube_ephemerals.Ui.Router.Admin.{handler_of-admin}
use kube_ephemerals.Tests.Cluster.{day, shop, missing}
use kube_ephemerals.Tests.Site.{
  Site, site, server, client, kube_client, encoding, config, web_pod, web_request, web_component,
  next_read, marshal_cluster,
}

abbrev request : Request
request = record {
  host = "platform.local";
  vars = ("name", "shop") ∷ ("id", "shop") ∷ [];
  query = [];
  body = "24h";
  env_name = none;
}

abbrev exchange : Exchange Site
exchange = record { world = site; writer = new_writer }

abbrev AllRestricted : List TokenRequest → Type 0
AllRestricted [] = Unit {0}
AllRestricted (req ∷ reqs) = Restricted req × AllRestricted reqs

abbrev SafeTokens : Site → Type 0
SafeTokens w = AllRestricted w.tokens

safe_tokens : ReadOnly server kube_client SafeTokens
safe_tokens = record {
  on_get = λ key. record { at = λ w safe. safe };
  on_config = record { at = λ w safe. safe };
  on_file = λ path w safe. safe;
  on_map = λ key. record { at = λ w safe. safe };
  on_token = λ req restricted. record { at = λ w safe. (restricted, safe) };
}

handle_kubeconfig_by_name-keeps_example :
    SafeTokens (handle_kubeconfig_by_name server request exchange).world
handle_kubeconfig_by_name-keeps_example =
    handle_kubeconfig_by_name-keeps server kube_client SafeTokens refl safe_tokens request exchange
      tt

marshal-unmarshal :
    (k : KubeconfigOut) (out : String)
    → encoding.marshal_yaml k ≡ ok out
    → encoding.unmarshal_yaml out ≡ ok (record { clusters = k.clusters })
marshal-unmarshal k out h = by_clusters k.clusters h
  where
    by_cluster :
        (c : ClusterEntry)
        → marshal_cluster (c ∷ []) ≡ ok out
        → encoding.unmarshal_yaml out ≡ ok (record { clusters = c ∷ [] })
    by_cluster c h =
        ground
          (arith, h, eq_iff c.name "env-shop", eq_iff c.cluster.certificate_authority_data "Y2E=")

    by_clusters :
        (cs : List ClusterEntry)
        → marshal_cluster cs ≡ ok out
        → encoding.unmarshal_yaml out ≡ ok (record { clusters = cs })
    by_clusters [] h = absurd (ground (arith, h))
    by_clusters (c ∷ []) h = by_cluster c h
    by_clusters (c ∷ d ∷ cs) h = absurd (ground (arith, h))

encoding-Faithful : Faithful encoding
encoding-Faithful = record {
  yaml = marshal-unmarshal;
  base64 = λ bytes. refl;
  nonempty = λ bytes h. h;
}

generates :
    generate_kubeconfig_yaml encoding "https://10.0.0.1" "Y2E=" "token" "env-shop" "shop"
    ≡ ok "https://10.0.0.1"
unfolding generate_kubeconfig_yaml
generates = refl

cluster_info-generate_kubeconfig_yaml_example :
    cluster_info encoding (("kubeconfig", "https://10.0.0.1") ∷ [])
    ≡ ok ("https://10.0.0.1", "Y2E=")
unfolding get_label
cluster_info-generate_kubeconfig_yaml_example =
    cluster_info-generate_kubeconfig_yaml encoding "https://10.0.0.1" "Y2E=" "token" "env-shop"
      "shop" "https://10.0.0.1" (("kubeconfig", "https://10.0.0.1") ∷ []) encoding-Faithful
      generates refl

abbrev snapshot : Snapshot
snapshot = record { maps = λ key. err missing; file = λ path. "CA"; in_cluster = err missing }

still : Still server kube_client snapshot
still = record { on_map = λ key w. refl; on_file = λ path w. refl; on_config = λ w. refl }

resolve_kubeconfig_server_url-by_priority_example :
    resolve_kubeconfig_server_url server (some kube_client) config site ≡ (
      by_priority server config snapshot
          (rest_of snapshot config.rest_config)
          (info_of server (snapshot.maps cluster_info_key)),
      site,
    )
resolve_kubeconfig_server_url-by_priority_example =
    resolve_kubeconfig_server_url-by_priority server kube_client snapshot still config site

abbrev reads_left : Site → ℕ
reads_left w = length w.reads

shorter :
    (w : Site) (rs : List ReadResult)
    → (next_read w rs).0.error ≡ none
    → length (next_read w rs).1.reads < length rs
shorter w [] h = absurd (ground (arith, h))
shorter w (r ∷ rs) h = ground arith

drains : Drains server kube_client tt tt reads_left
drains = record { on_read = λ w h. shorter w w.reads h; on_write = λ message w. ground arith }

stream_logs-ends_example :
    (w' : Site) × (stream_logs server kube_client tt tt 4 site ≡ some w')
    × (stream_logs server kube_client tt tt (4 + 10) site ≡ some w')
stream_logs-ends_example =
    stream_logs-ends server kube_client tt tt reads_left drains site 4 10 (ground arith)

abbrev script : Site → List ReadResult
script w = w.reads

abbrev sent : Site → List String
sent w = w.sent

read_of :
    (w : Site) (xs : List ReadResult) (r : ReadResult) (rs : List ReadResult)
    → xs ≡ (r ∷ rs)
    → ((next_read w xs).0 ≡ r)
      × ((next_read w xs).1.reads ≡ rs)
      × ((next_read w xs).1.sent ≡ w.sent)
read_of w [] r rs h = absurd (ground (arith, h))
read_of w (x ∷ xs) r rs h =
    let head : x ≡ r = ap (λ l. elim l [ [] ↦ x | y ∷ ys ↦ y ]) h in
    let tail : xs ≡ rs = ap (λ l. elim l [ [] ↦ xs | y ∷ ys ↦ ys ]) h in (head, tail, refl)

scripted : Scripted server kube_client tt tt script sent
scripted = record {
  on_read = λ w r rs h. read_of w w.reads r rs h;
  on_write = λ message w. (refl, refl, refl);
}

stream_logs-Sends_example :
    Sends server kube_client tt tt script sent scripted 3 site (messages (script site))
stream_logs-Sends_example =
    stream_logs-Sends server kube_client tt tt script sent scripted 3 site refl (ground arith)

abbrev AllValid : List EnvironmentTemplate → Type 0
AllValid [] = Unit {0}
AllValid (t ∷ ts) = Valid t × AllValid ts

abbrev ValidTemplates : Site → Type 0
ValidTemplates w = AllValid w.templates

handle_create_template-Valid_example :
    ValidTemplates (handle_create_template server request exchange).world
handle_create_template-Valid_example =
    handle_create_template-Valid server ValidTemplates
      (λ t valid. record { at = λ w all. (valid, all) }) request exchange tt

converts : components_of web_request.components ≡ some (component_of web_component ∷ [])
unfolding components_of
converts = refl

convert_template_to_api_response-new_template_example :
    as_request (
      convert_template_to_api_response (new_template web_request (component_of web_component ∷ [])))
    ≡ with_defaults web_request
convert_template_to_api_response-new_template_example =
    convert_template_to_api_response-new_template web_request (component_of web_component ∷ [])
      converts

handle_get_template-registry_get_example :
    Agrees (value_at "id" request.vars) new_writer (handle_get_template server request exchange) (
      registry_get
        (value_at "id" request.vars)
        (set_client client "system" new_template_registry)
        site)
unfolding get_label
handle_get_template-registry_get_example =
    handle_get_template-registry_get server request exchange "system" refl

pod_infos-row_example : map row_of (pod_infos server (web_pod ∷ []) site).0 ≡ map row (web_pod ∷ [])
pod_infos-row_example = pod_infos-row server (web_pod ∷ []) site

abbrev latest : Site → Option EphemeralEnv
latest w = some w.env

abbrev kept : Time → Time
kept t = t

stores : Stores server "shop" latest kept
stores = record {
  to_second = λ t. (ground arith, ground (arith, +ℤ_parts t second));
  on_update = λ e stored t w named placed expires accepted. (
    ap (λ o. elim o [ ok a ↦ some a | err f ↦ none ]) accepted,
    sym (ap (λ o. elim o [ ok a ↦ a.status.expiration_time | err f ↦ some t ]) accepted) ∙ expires,
  );
  on_now = λ w. refl;
}

extend_ttl-is_expired_example :
    Extends server "shop" latest kept stores shop day
      (pos 2000)
      (ok (expiring_at (pos 2000 +ℤ day) shop))
      (extend_ttl server request "shop" (record { world = site; writer = new_writer }))
extend_ttl-is_expired_example =
    extend_ttl-is_expired server "shop" latest kept stores request site site shop "24h" (pos 2000)
      day (pos 2000) refl refl refl refl refl refl

abbrev admin_request : Request
admin_request = record request {
  host = "admin.shop.preview.example.com";
  vars = ("env", "shop") ∷ ("pod", "web-0") ∷ [];
}

abbrev path_request : Request
path_request = record request { vars = ("name", "shop") ∷ ("pod", "web-0") ∷ [] }

abbrev no_files : Request → Handler Site
no_files r x = x

handler_of-admin_example :
    (handler_of server no_files env_dashboard 0 admin_request
      ≡ handler_of server no_files env_dashboard_by_name 0 path_request)
    × (handler_of server no_files env_pods 0 admin_request
        ≡ handler_of server no_files env_pods_by_name 0 path_request)
    × (handler_of server no_files pod_logs 0 admin_request
        ≡ handler_of server no_files pod_logs_by_name 0 path_request)
    × (handler_of server no_files extend_ttl_by_host 0 admin_request
        ≡ handler_of server no_files extend_ttl_by_name 0 path_request)
unfolding get_label
handler_of-admin_example =
    handler_of-admin server no_files 0 admin_request path_request "shop" refl refl refl refl refl
