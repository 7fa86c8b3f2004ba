-- ===== src/Controller/Reconcile/Progress.antt =====
-- The functions of a provisioning succeed where the calls of the clients do.
pub mod Steps
pub mod Deployment
pub mod Ready
pub mod Leads
pub mod Live
pub mod Done
use kube_ephemerals.Prelude.{refl, String, some, Bool, ◌≡◌}
use kube_ephemerals.Exec.{ok, Exec}
use kube_ephemerals.Exec.Works.{Works, Works-bind}
use kube_ephemerals.Api.Types.{EphemeralEnvStatus, ConditionStatus}
use kube_ephemerals.Kube.Objects.{Object}
use kube_ephemerals.Helm.Client.{HelmClient, InstallOptions, ReleaseInfo}
use kube_ephemerals.Controller.Base.{
  Reconciler, Session, World, call, clock, set_status, set_condition,
}
use kube_ephemerals.Controller.Frame.{
  Stable, Restatus, IsMinor, Notes, Keeps-call, Keeps-clock, Keeps-set_status_any,
}
use kube_ephemerals.Controller.Reconcile.Frame.{Provisions}

module _ {W : Type 0} (J : Session W → Type 0) where
  pub Works-call :
      {A : Type 0} (op : Exec W A)
      → Stable J op
      → ((s : Session W) → J s → (a : A) × ((op s.world).0 ≡ ok a))
      → Works J (call op)
  unfolding call
  Works-call op stable gives = record { keeps = Keeps-call J op stable; succeeds = gives }

  pub Works-set_status :
      (f : EphemeralEnvStatus → EphemeralEnvStatus) → Restatus J f → Works J (set_status f)
  unfolding set_status
  Works-set_status f h = record { keeps = Keeps-set_status_any J f h; succeeds = λ s j. (tt, refl) }

module _ (r : Reconciler) (J : Session (World r) → Type 0) where
  pub Works-clock : Notes r J → Works J (clock r)
  unfolding clock
  Works-clock notes = record {
    keeps = Keeps-clock r J notes;
    succeeds = λ s j. ((r.client.now s.world).0, refl);
  }

  pub Works-set_condition :
      (kind : String) (status : ConditionStatus) (reason message : String)
      → Notes r J
      → Works J (set_condition r kind status reason message)
  unfolding set_condition
  Works-set_condition kind status reason message notes =
      Works-bind (Works-clock notes)
        (λ t. Works-set_status J _ (notes.restatus _ (λ st. (refl, refl, refl))))

  -- The calls of a provisioning keep `J`, and those whose errors end it succeed.
  pub record Serves : Type 0 where
    pub provisions : Provisions r J
    pub creating :
        (o : Object) (f : Object → Object) (s : Session (World r))
        → J s
        → (u : Unit {0}) × ((r.client.create_or_update o f s.world).0 ≡ ok u)
    pub checking :
        (h : HelmClient (World r) r.library.Values)
        → r.helm_client ≡ some h
        → (name namespace : String) (s : Session (World r)) → J s
        → (b : Bool) × ((h.is_installed name namespace s.world).0 ≡ ok b)
    pub installing :
        (h : HelmClient (World r) r.library.Values)
        → r.helm_client ≡ some h
        → (o : InstallOptions r.library.Values) (s : Session (World r)) → J s
        → (info : ReleaseInfo) × ((h.install o s.world).0 ≡ ok info)
