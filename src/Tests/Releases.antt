-- ===== src/Tests/Releases.antt =====
-- A store of releases, the Helm client on it, and a reconciler with this client.
use kube_ephemerals.Prelude.{
  ℕ, suc, ◌<◌, String, ◌==◌, Bool, ◌&&◌, some, [], ◌∷◌, ltb, pos, ◌≡◌, ◌≢◌, ◌⊎◌, inl, inr, refl,
  arith, eq_iff, Bool-cases, sym, if◌then◌else◌,
}
use kube_ephemerals.Exec.{ok, err, ◌>>=◌, wrapping, gets, pure, attempt, raise}
use kube_ephemerals.Exec.Inversion.{ok-injective}
use kube_ephemerals.Api.Types.{ComponentStatus}
use kube_ephemerals.Kube.Client.{Client}
use kube_ephemerals.Helm.Store.{ReleaseStore}
use kube_ephemerals.Helm.Sdk.{
  Sdk, Release, sdk_client, sdk_is_installed, sdk_install, get_action_config, install_new,
  loaded_chart, download_chart, release_to_info, first_chart_file, is_chart_file, has_tgz,
}
use kube_ephemerals.Helm.Sdk.Lawful.{Lawful}
use kube_ephemerals.Helm.Sdk.Store.{sdk_client-ReleaseStore}
use kube_ephemerals.Controller.Base.{Reconciler, Session, call, clock, set_status}
use kube_ephemerals.Controller.Components.{
  deploy_components, deploy_component, install_component, lift, parse_values, release_name_of,
}
use kube_ephemerals.Controller.Components.Installed.{deploy_components-AllPresent, AllPresent}
use kube_ephemerals.Controller.Sanitize.{sanitize_name}
use kube_ephemerals.Tests.Cluster.{library, missing, shop, services, component}

-- The revision of a release by its name and its namespace.
abbrev Revisions : Type 0
Revisions = String → String → ℕ

abbrev is_release : String → String → String → String → Bool
is_release release namespace n ns = release == n && namespace == ns

abbrev set_revision : (ℕ → ℕ) → String → String → Revisions → Revisions
set_revision f release namespace w n ns =
    if is_release release namespace n ns then f (w n ns) else w n ns

abbrev released : String → String → Release
released n ns = record {
  name = n;
  namespace = ns;
  version = 1;
  status = "deployed";
  chart_name = some "web";
}

abbrev sdk : Sdk Revisions (Unit {0})
sdk = record {
  Config = String;
  Chart = Unit {0};
  init_config = λ ns w. (ok ns, w);
  run_history = λ ns n k w. if ltb 0 (w n ns) then (ok tt, w) else (err missing, w);
  run_install = λ ns i ch v w.
      (ok (released i.release_name ns), set_revision (λ k. suc k) i.release_name ns w);
  run_upgrade = λ ns u n ch v w. (ok (released n ns), set_revision (λ k. suc k) n ns w);
  run_uninstall = λ ns keep n w. (ok tt, set_revision (λ _. 0) n ns w);
  run_status = λ ns n w. (ok (released n ns), w);
  mkdir_temp = λ p w. (ok "/tmp/helm-chart-1", w);
  run_pull = λ p n w. (ok tt, w);
  read_dir = λ d w. (ok (record { name = "web-1.0.0.tgz"; is_dir = Bool.false } ∷ []), w);
  load_chart = λ p w. (ok tt, w);
  no_values = tt;
}

abbrev scope : String → String
scope ns = ns

abbrev revision : Revisions → String → String → ℕ
revision w = w

set_revision-own :
    (f : ℕ → ℕ) (n ns : String) (w : Revisions) → set_revision f n ns w n ns ≡ f (w n ns)
set_revision-own f n ns w = ground (arith, eq_iff n n, eq_iff ns ns)

set_revision-others :
    (f : ℕ → ℕ) (n ns : String) (w : Revisions) (m ms : String)
    → (n ≢ m) ⊎ (ns ≢ ms)
    → set_revision f n ns w m ms ≡ w m ms
set_revision-others f n ns w m ms (inl h) = ground (arith, h, eq_iff n m)
set_revision-others f n ns w m ms (inr h) = ground (arith, h, eq_iff ns ms)

set_revision-grows :
    (n ns : String) (w : Revisions) (m ms : String)
    → 0 < w m ms
    → 0 < set_revision (λ k. suc k) n ns w m ms
set_revision-grows n ns w m ms h = ground (arith, h, eq_iff n m, eq_iff ns ms)

history-finds :
    (ns n : String) (k : ℕ) (w : Revisions) → (sdk.run_history ns n k w).0 ≡ ok tt → 0 < w n ns
history-finds ns n k w h = ground (arith, h)

history-reads :
    (ns n : String) (k : ℕ) (w : Revisions) (m ms : String)
    → (sdk.run_history ns n k w).1 m ms ≡ w m ms
history-reads ns n k w m ms = elim (Bool-cases (ltb 0 (w n ns))) [
  | inl there ↦ rw there refl
  | inr gone ↦ rw gone refl
]

sdk-Lawful : Lawful sdk revision scope
sdk-Lawful = record {
  init_reads = λ ns w n ms. refl;
  init_scope = λ ns w c h. sym (ok-injective _ _ h);
  history_reads = λ c n k w m ms. history-reads c n k w m ms;
  history_finds = λ c n k w h. history-finds c n k w h;
  status_reads = λ c n w m ms. refl;
  install_adds = λ c i ch v w a h. set_revision-own (λ k. suc k) i.release_name c w;
  install_others = λ c i ch v w. set_revision-others (λ k. suc k) i.release_name c w;
  install_grows = λ c i ch v w. set_revision-grows i.release_name c w;
  upgrade_adds = λ c u n ch v w a h. set_revision-own (λ k. suc k) n c w;
  upgrade_others = λ c u n ch v w. set_revision-others (λ k. suc k) n c w;
  upgrade_grows = λ c u n ch v w. set_revision-grows n c w;
  uninstall_removes = λ c n w a h. set_revision-own (λ _. 0) n c w;
  uninstall_others = λ c n w. set_revision-others (λ _. 0) n c w;
  temp_reads = λ p w n ns. refl;
  pull_reads = λ p c w n ns. refl;
  dir_reads = λ d w n ns. refl;
  load_reads = λ p w n ns. refl;
}

abbrev none_yet : Revisions
none_yet n ns = 0

sdk_client-ReleaseStore_example : ReleaseStore revision (sdk_client sdk)
sdk_client-ReleaseStore_example = sdk_client-ReleaseStore sdk revision scope sdk-Lawful

abbrev client : Client
client = record {
  World = Revisions;
  get_env = λ k w. (ok shop, w);
  update_env = λ e w. (ok e, w);
  update_env_status = λ e w. (ok e, w);
  get_template = λ k w. (err missing, w);
  get_object = λ d k w. (err missing, w);
  create_or_update = λ o f w. (ok tt, w);
  delete_object = λ d k w. (ok tt, w);
  list_services = λ n w. (ok services, w);
  now = λ w. (pos 1000, w);
}

abbrev reconciler : Reconciler
reconciler = record {
  library = library;
  client = client;
  helm_client = some (sdk_client sdk);
  operator_service = "operator";
  operator_namespace = "system";
}

abbrev session : Session Revisions
session = record { world = none_yet; env = shop }

abbrev stored_web : ComponentStatus
stored_web = record {
  name = "web";
  release_name = "env-shop-web";
  status = "Deployed";
  last_deployed = some (pos 1000);
  message = "Helm release env-shop-web installed successfully";
}

deploys_stored_web :
    (deploy_components reconciler (sdk_client sdk) "env-shop" (component "web" ∷ []) session).0
    ≡ ok (stored_web ∷ [])
unfolding deploy_components deploy_component install_component ◌>>=◌ call wrapping gets lift
    parse_values clock set_status pure release_name_of sanitize_name sdk_is_installed sdk_install
    get_action_config attempt install_new loaded_chart download_chart first_chart_file is_chart_file
    has_tgz release_to_info raise
deploys_stored_web = refl

deploy_components-AllPresent_example :
    AllPresent reconciler
      (sdk_client sdk)
      revision
      (sdk_client-ReleaseStore sdk revision scope sdk-Lawful)
      (λ w n ns. refl)
      "env-shop"
      shop
      (component "web" ∷ [])
      (deploy_components reconciler
        (sdk_client sdk)
        "env-shop"
        (component "web" ∷ [])
        session).1.world
deploy_components-AllPresent_example =
    deploy_components-AllPresent reconciler (sdk_client sdk) revision
      (sdk_client-ReleaseStore sdk revision scope sdk-Lawful) (λ w n ns. refl) "env-shop"
      (component "web" ∷ []) session (stored_web ∷ []) deploys_stored_web
