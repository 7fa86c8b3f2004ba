-- ===== src/Helm/Sdk.antt =====
-- `SDKClient` of internal/helm/client.go. The Helm SDK and the file system are a parameter.
pub mod Charts
pub mod Lawful
pub mod Store
use kube_ephemerals.Prelude.{
  ℕ, String, ◌<>◌, ◌==◌, Bool, true, false, not, ◌&&◌, ◌-◌, ◌||◌, Option, none, some, List, [], ◌∷◌,
  pos, ltb, ltb_ℤ, len, if◌then◌else◌,
}
use Prim.Native.String.{slice}
use kube_ephemerals.Exec.{
  Failure, Result, ok, err, Exec, new_error, wrap, pure, raise, gets, wrapping, attempt, ◌>>=◌,
  ◌>>◌,
}
use kube_ephemerals.Api.Types.{Duration}
use kube_ephemerals.Helm.Client.{InstallOptions, ReleaseInfo, HelmClient}

-- A release as the SDK gives it: `chart_name` is that of the metadata, if the chart has one.
pub record Release : Type 0 where
  pub name : String
  pub namespace : String
  pub version : ℕ
  pub status : String
  pub chart_name : Option String

pub record DirEntry : Type 0 where
  pub name : String
  pub is_dir : Bool

-- The fields that `pull`, `install` and `upgrade` are given.
pub record Pull : Type 0 where
  pub repo_url : String
  pub version : String
  pub dest_dir : String
  pub untar : Bool

pub record Install : Type 0 where
  pub namespace : String
  pub release_name : String
  pub create_namespace : Bool
  pub wait : Bool
  pub timeout : Duration

pub record Upgrade : Type 0 where
  pub namespace : String
  pub wait : Bool
  pub timeout : Duration

-- `init_config` is `actionConfig.Init` for a namespace, with releases kept in Secrets.
pub record Sdk (World Values : Type 0) : Type 1 where
  pub Config : Type 0
  pub Chart : Type 0
  pub init_config : String → Exec World Config
  pub run_history : Config → String → ℕ → Exec World (Unit {0})
  pub run_install : Config → Install → Chart → Values → Exec World Release
  pub run_upgrade : Config → Upgrade → String → Chart → Values → Exec World Release
  pub run_uninstall : Config → Bool → String → Exec World (Unit {0})
  pub run_status : Config → String → Exec World Release
  pub mkdir_temp : String → Exec World String
  pub run_pull : Pull → String → Exec World (Unit {0})
  pub read_dir : String → Exec World (List DirEntry)
  pub load_chart : String → Exec World Chart
  pub no_values : Values

abbrev or_no_chart : Option String → String
or_no_chart none = ""
or_no_chart (some name) = name

unfoldable pub release_to_info : Release → ReleaseInfo
release_to_info rel = record {
  name = rel.name;
  namespace = rel.namespace;
  version = rel.version;
  status = rel.status;
  chart = or_no_chart rel.chart_name;
}

-- 5 minutes, unless a positive time is given.
unfoldable pub timeout_or_default : Duration → Duration
timeout_or_default t = if ltb_ℤ (pos 0) t then t else pos 300000000000

-- The last four bytes of a longer text are ".tgz".
unfoldable pub has_tgz : String → Bool
has_tgz s = ltb 4 (len s) && slice s (len s - 4) (len s) == ".tgz"

unfoldable pub is_chart_file : String → String → DirEntry → Bool
unfolding has_tgz
is_chart_file chart_name version f =
    not f.is_dir && (f.name == chart_name <> "-" <> version <> ".tgz" || has_tgz f.name)

unfoldable pub first_chart_file : String → String → List DirEntry → Option String
first_chart_file chart_name version [] = none
first_chart_file chart_name version (f ∷ fs) =
    if is_chart_file chart_name version f
    then some f.name
    else first_chart_file chart_name version fs

module _ {World Values : Type 0} (sdk : Sdk World Values) where
  unfoldable pub get_action_config : String → Exec World sdk.Config
  get_action_config namespace =
      wrapping "failed to initialize helm action config: " (sdk.init_config namespace)

  abbrev pub chart_path : String → Option String → Exec World String
  chart_path tmp_dir none =
      raise (new_error ("chart file not found in " <> tmp_dir <> " after download"))
  chart_path tmp_dir (some name) = pure (tmp_dir <> "/" <> name)

  unfoldable pub download_chart : String → String → String → Exec World String
  download_chart repo_url chart_name version = do
    tmp_dir ← wrapping "failed to create temp dir: " (sdk.mkdir_temp "helm-chart-")
    _ ← wrapping ("failed to pull chart " <> chart_name <> " from " <> repo_url <> ": ") (
        sdk.run_pull
          (record { repo_url = repo_url; version = version; dest_dir = tmp_dir; untar = false })
          chart_name)
    files ← wrapping "failed to read temp dir: " (sdk.read_dir tmp_dir)
    chart_path tmp_dir (first_chart_file chart_name version files)

  -- The chart of the options, downloaded and loaded, as `Install` and `upgrade` begin.
  unfoldable pub loaded_chart : InstallOptions Values → Exec World sdk.Chart
  loaded_chart opts = do
    path ←
        wrapping "failed to download chart: "
          (download_chart opts.repo_url opts.chart_name opts.version)
    wrapping "failed to load chart: " (sdk.load_chart path)

  abbrev pub values_or_none : Option Values → Values
  values_or_none none = sdk.no_values
  values_or_none (some vals) = vals

  unfoldable pub upgrade : sdk.Config → InstallOptions Values → Exec World ReleaseInfo
  upgrade config opts = do
    chart ← loaded_chart opts
    rel ← wrapping "failed to upgrade release: " (
        sdk.run_upgrade config
          (record {
            namespace = opts.namespace;
            wait = opts.wait;
            timeout = timeout_or_default opts.timeout;
          })
          opts.release_name chart (values_or_none opts.values))
    pure (release_to_info rel)

  unfoldable pub install_new : sdk.Config → InstallOptions Values → Exec World ReleaseInfo
  install_new config opts = do
    chart ← loaded_chart opts
    rel ← wrapping "failed to install chart: " (
        sdk.run_install config
          (record {
            namespace = opts.namespace;
            release_name = opts.release_name;
            create_namespace = false;
            wait = opts.wait;
            timeout = timeout_or_default opts.timeout;
          })
          chart (values_or_none opts.values))
    pure (release_to_info rel)

  -- A release that the history has is upgraded; any error of the history counts as none.
  abbrev pub by_history :
      sdk.Config → InstallOptions Values → Result (Unit {0}) → Exec World ReleaseInfo
  by_history config opts (ok _) = upgrade config opts
  by_history config opts (err _) = install_new config opts

  unfoldable pub sdk_install : InstallOptions Values → Exec World ReleaseInfo
  sdk_install opts = get_action_config opts.namespace >>= λ config.
      attempt (sdk.run_history config opts.release_name 1) (by_history config opts)

  unfoldable pub sdk_uninstall : String → String → Exec World (Unit {0})
  sdk_uninstall release_name namespace = get_action_config namespace >>= λ config.
      wrapping "failed to uninstall release: " (sdk.run_uninstall config false release_name)

  unfoldable pub sdk_status : String → String → Exec World ReleaseInfo
  sdk_status release_name namespace = get_action_config namespace >>= λ config.
      wrapping "failed to get release status: " (sdk.run_status config release_name) >>= λ rel.
      pure (release_to_info rel)

  abbrev pub succeeded : Result (Unit {0}) → Bool
  succeeded (ok _) = true
  succeeded (err _) = false

  unfoldable pub sdk_is_installed : String → String → Exec World Bool
  sdk_is_installed release_name namespace = get_action_config namespace >>= λ config.
      attempt (sdk.run_history config release_name 1) (λ x. pure (succeeded x))

  -- `var _ Client = (*SDKClient)(nil)`
  abbrev pub sdk_client : HelmClient World Values
  sdk_client = record {
    install = sdk_install;
    uninstall = sdk_uninstall;
    release_status = sdk_status;
    is_installed = sdk_is_installed;
  }

-- `SDKClient`: its settings are those of `cli.New()`.
pub record SdkClient (Settings : Type 0) : Type 0 where
  pub settings : Settings

unfoldable pub new_sdk_client : {Settings : Type 0} → Settings → SdkClient Settings
new_sdk_client settings = record { settings = settings }
