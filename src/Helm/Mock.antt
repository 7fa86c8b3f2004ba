-- ===== src/Helm/Mock.antt =====
-- `MockClient` of internal/helm/client.go. The functions that a test puts in are taken as pure.
use kube_ephemerals.Prelude.{String, Bool, Option, none, some, List, [], ◌∷◌, ◌++◌, length, ltb}
use kube_ephemerals.Exec.{Result, ok, Exec}
use kube_ephemerals.Helm.Client.{InstallOptions, ReleaseInfo, HelmClient}

pub record MockClient (Values : Type 0) : Type 0 where
  pub install_func : Option (InstallOptions Values → Result ReleaseInfo)
  pub uninstall_func : Option (String → String → Result (Unit {0}))
  pub status_func : Option (String → String → Result ReleaseInfo)
  pub is_installed_func : Option (String → String → Result Bool)
  pub install_calls : List (InstallOptions Values)
  pub uninstall_calls : List (String × String)

module _ {Values : Type 0} where
  unfoldable pub new_mock_client : MockClient Values
  new_mock_client = record {
    install_func = none;
    uninstall_func = none;
    status_func = none;
    is_installed_func = none;
    install_calls = [];
    uninstall_calls = [];
  }

  unfoldable pub mock_install : InstallOptions Values → Exec (MockClient Values) ReleaseInfo
  mock_install opts m =
      let m' = record m { install_calls = m.install_calls ++ opts ∷ [] } in
      elim m.install_func [
        | some f ↦ (f opts, m')
        | none ↦ (
          ok (record {
            name = opts.release_name;
            namespace = opts.namespace;
            version = 1;
            status = "deployed";
            chart = opts.chart_name;
          }),
          m',
        )
      ]

  unfoldable pub mock_uninstall : String → String → Exec (MockClient Values) (Unit {0})
  mock_uninstall release_name namespace m =
      let m' = record m { uninstall_calls = m.uninstall_calls ++ (release_name, namespace) ∷ [] } in
      elim m.uninstall_func [ some f ↦ (f release_name namespace, m') | none ↦ (ok tt, m') ]

  unfoldable pub mock_status : String → String → Exec (MockClient Values) ReleaseInfo
  mock_status release_name namespace m = elim m.status_func [
    | some f ↦ (f release_name namespace, m)
    | none ↦ (
      ok (record {
        name = release_name;
        namespace = namespace;
        version = 1;
        status = "deployed";
        chart = "";
      }),
      m,
    )
  ]

  unfoldable pub mock_is_installed : String → String → Exec (MockClient Values) Bool
  mock_is_installed release_name namespace m = elim m.is_installed_func [
    | some f ↦ (f release_name namespace, m)
    | none ↦ (ok (ltb 0 (length m.install_calls)), m)
  ]

  -- `var _ Client = (*MockClient)(nil)`
  abbrev pub mock : HelmClient (MockClient Values) Values
  mock = record {
    install = mock_install;
    uninstall = mock_uninstall;
    release_status = mock_status;
    is_installed = mock_is_installed;
  }
