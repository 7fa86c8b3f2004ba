-- ===== src/Helm/Client.antt =====
-- The interface `Client` of internal/helm/client.go. An implementation keeps its releases in the
-- world that it shares with the Kubernetes client. `Values` is Go's `map[string]any`.
use kube_ephemerals.Prelude.{ℕ, String, Bool, Option}
use kube_ephemerals.Exec.{Exec}
use kube_ephemerals.Api.Types.{Duration}

-- A nil map of values is `none`.
pub record InstallOptions (Values : Type 0) : Type 0 where
  pub release_name : String
  pub namespace : String
  pub repo_url : String
  pub chart_name : String
  pub version : String
  pub values : Option Values
  pub wait : Bool
  pub timeout : Duration

-- The revision `Version` starts at 1.
pub record ReleaseInfo : Type 0 where
  pub name : String
  pub namespace : String
  pub version : ℕ
  pub status : String
  pub chart : String

pub record HelmClient (World Values : Type 0) : Type 0 where
  pub install : InstallOptions Values → Exec World ReleaseInfo
  pub uninstall : String → String → Exec World (Unit {0})
  pub release_status : String → String → Exec World ReleaseInfo
  pub is_installed : String → String → Exec World Bool
