-- ===== src/Helm/Recorded.antt =====
-- The mock's record of its calls.
use kube_ephemerals.Prelude.{String, true, none, List, [], ◌∷◌, ◌++◌, length, ◌≡◌, arith, ◌<◌}
use kube_ephemerals.Exec.{ok}
use kube_ephemerals.Helm.Client.{InstallOptions}
use kube_ephemerals.Helm.Mock.{MockClient, mock_install, mock_uninstall, mock_is_installed}

module _ {Values : Type 0} where
  grown :
      (xs : List (InstallOptions Values)) (o : InstallOptions Values) → 0 < length (xs ++ o ∷ [])
  grown [] o = ground arith
  grown (x ∷ xs) o = ground arith

  -- A mock that has no function for the status of a release answers after an installation that every
  -- release is installed, also one that was uninstalled since.
  pub mock_is_installed-sticky :
      (m : MockClient Values) (opts : InstallOptions Values) (release other namespace : String)
      → m.is_installed_func ≡ none
      → (mock_is_installed other namespace
          (mock_uninstall release namespace (mock_install opts m).1).1).0
        ≡ ok true
  unfolding mock_is_installed mock_uninstall mock_install
  mock_is_installed-sticky m opts release other namespace h =
      ground (arith, h, grown m.install_calls opts)
