-- ===== src/Tests/Progress.antt =====
-- A reconciliation that gets through on the small cluster.
use kube_ephemerals.Prelude.{ℕ, String, Bool, false, Option, none, some, ◌≡◌, ap, refl, pos}
use kube_ephemerals.Exec.{Result, ok, err}
use kube_ephemerals.Api.Types.{active}
use kube_ephemerals.Api.Template.{EnvironmentTemplate}
use kube_ephemerals.Api.Helpers.{is_expired}
use kube_ephemerals.Kube.Objects.{ObjectKey}
use kube_ephemerals.Helm.Client.{HelmClient, InstallOptions, ReleaseInfo}
use kube_ephemerals.Helm.Mock.{mock, mock_install, mock_is_installed}
use kube_ephemerals.Controller.Base.{returned, ephemeral_env_finalizer}
use kube_ephemerals.Controller.Cleanup.{handle_deletion}
use kube_ephemerals.Controller.Cleanup.Progress.{
  RemovesFinalizer, Releases, handle_deletion-Released,
}
use kube_ephemerals.Controller.Components.{parse_values}
use kube_ephemerals.Controller.Reconcile.{reconcile, initialize, reconcile_live}
use kube_ephemerals.Controller.Reconcile.Progress.Ready.{Cooperates}
use kube_ephemerals.Controller.Reconcile.Progress.Leads.{Requeued}
use kube_ephemerals.Controller.Reconcile.Progress.Done.{
  reconcile_live-activates, reconcile-returned,
}
use kube_ephemerals.Tests.Cluster.{
  start, shop, library, Mock, reconciler, session, services, missing,
}
use kube_ephemerals.Tests.Runs.{library-SortKeeps, has_eligible}

-- No function of a test stands in for the mock's own behaviour.
record Plain (w : Mock) : Type 0 where
  pub installs : w.install_func ≡ none
  pub checks : w.is_installed_func ≡ none

-- No template is found.
abbrev no_template : ObjectKey → Result EnvironmentTemplate
no_template key = err missing

abbrev helm_or_mock : Option (HelmClient Mock (Unit {0})) → HelmClient Mock (Unit {0})
helm_or_mock (some h) = h
helm_or_mock none = mock

mock_is_installed-ok :
    (n ns : String) (w : Mock)
    → Plain w
    → (b : Bool) × ((mock_is_installed n ns w).0 ≡ ok b) × Plain (mock_is_installed n ns w).1
unfolding mock_is_installed
mock_is_installed-ok n ns w u =
    rw u.checks (_, refl, record { installs = u.installs; checks = refl })

mock_install-ok :
    (o : InstallOptions (Unit {0})) (w : Mock)
    → Plain w
    → (info : ReleaseInfo) × ((mock_install o w).0 ≡ ok info) × Plain (mock_install o w).1
unfolding mock_install
mock_install-ok o w u = rw u.installs (_, refl, record { installs = refl; checks = u.checks })

Plain-Cooperates : Cooperates reconciler Plain no_template
Plain-Cooperates = record {
  ticks = λ w u. u;
  creates = λ o f w u. (refl, u);
  reads = λ k w u. (refl, u);
  lists = λ n w u. u;
  stores = λ e w u. (e, refl, refl);
  checks = λ h e n ns w u. rw (← ap helm_or_mock e) (mock_is_installed-ok n ns w u);
  installs = λ h e o w u. rw (← ap helm_or_mock e) (mock_install-ok o w u);
}

abbrev port_or : Option ℕ → ℕ
port_or (some p) = p
port_or none = 0

reconcile_live-activates_example :
    Requeued reconciler
      (pos 2000)
      ((reconcile_live reconciler session).0, (reconcile_live reconciler session).1.world)
    × ((reconcile_live reconciler session).1.env.status.phase ≡ active)
unfolding initialize is_expired parse_values
reconcile_live-activates_example =
    reconcile_live-activates reconciler Plain no_template Plain-Cooperates library-SortKeeps session
      (pos 2000) (record { installs = refl; checks = refl }) refl refl refl
      (λ port e w u. (services, refl, rw (← ap port_or e) has_eligible))

library-RemovesFinalizer : RemovesFinalizer library
library-RemovesFinalizer fs f = refl

abbrev Always : Mock → Type 0
Always w = Unit {0}

client-Releases : Releases reconciler Always
client-Releases = record {
  keeps_get = λ d k w u. tt;
  keeps_delete = λ d k w u. tt;
  keeps_check = λ h n ns w e u. tt;
  keeps_uninstall = λ h n ns w e u. tt;
  gets_namespace = λ k w u. refl;
  deletes_namespace = λ k w u. tt;
  stores = λ e w u. (e, refl, refl);
}

handle_deletion-Released_example :
    ((handle_deletion reconciler session).0 ≡ returned (pos 0) none)
    × (library.contains_finalizer
          (handle_deletion reconciler session).1.env.metadata.finalizers
          ephemeral_env_finalizer
        ≡ false)
handle_deletion-Released_example =
    handle_deletion-Released reconciler Always client-Releases library-RemovesFinalizer session tt

abbrev shop_key : ObjectKey
shop_key = record { name = "shop"; namespace = "default" }

reconcile-returned_example : Requeued reconciler (pos 2000) (reconcile reconciler shop_key start)
unfolding initialize is_expired parse_values
reconcile-returned_example =
    reconcile-returned reconciler Plain no_template Plain-Cooperates library-SortKeeps shop_key
      start start shop (pos 2000) refl refl refl (record { installs = refl; checks = refl }) refl
      refl refl (λ port e w u. (services, refl, rw (← ap port_or e) has_eligible))
