-- ===== src/Controller/Frame.antt =====
-- What the functions of the controller leave alone: a statement `J` about a run that the calls of a
-- function preserve holds after the function. The calls are given as hypotheses.
use kube_ephemerals.Prelude.{String, ◌≡◌, refl}
use kube_ephemerals.Exec.{Exec}
use kube_ephemerals.Exec.Hoare.{Keeps, Keeps-bind}
use kube_ephemerals.Api.Types.{EphemeralEnvStatus, ConditionStatus}
use kube_ephemerals.Controller.Base.{
  Reconciler, Session, World, with_status, call, clock, set_status, set_condition,
}

abbrev pub IsMinor : (EphemeralEnvStatus → EphemeralEnvStatus) → Type 0
IsMinor f =
    (st : EphemeralEnvStatus)
    → ((f st).phase ≡ st.phase)
      × ((f st).active_namespace ≡ st.active_namespace)
      × ((f st).expiration_time ≡ st.expiration_time)

module _ {W : Type 0} (J : Session W → Type 0) where
  abbrev pub Stable : {A : Type 0} → Exec W A → Type 0
  Stable op = (s : Session W) → J s → J (record s { world = (op s.world).1 })

  pub Keeps-call : {A : Type 0} (op : Exec W A) → Stable op → Keeps J (call op)
  unfolding call
  Keeps-call op h = record { at = λ s j. h s j }

  -- A change of the status. A minor one leaves the phase, the namespace and the time alone.
  abbrev pub Restatus : (EphemeralEnvStatus → EphemeralEnvStatus) → Type 0
  Restatus f = (s : Session W) → J s → J (record s { env = with_status f s.env })

  pub Keeps-set_status_any :
      (f : EphemeralEnvStatus → EphemeralEnvStatus) → Restatus f → Keeps J (set_status f)
  unfolding set_status
  Keeps-set_status_any f h = record { at = λ s j. h s j }

  pub Keeps-set_status :
      ((f : EphemeralEnvStatus → EphemeralEnvStatus) → IsMinor f → Restatus f)
      → (f : EphemeralEnvStatus → EphemeralEnvStatus) → IsMinor f
      → Keeps J (set_status f)
  Keeps-set_status h f minor = Keeps-set_status_any f (h f minor)

module _ (r : Reconciler) (J : Session (World r) → Type 0) where
  -- Reading the clock, and noting something in the status.
  pub record Notes : Type 0 where
    pub clocked : (s : Session (World r)) → J s → J (record s { world = (r.client.now s.world).1 })
    pub restatus : (f : EphemeralEnvStatus → EphemeralEnvStatus) → IsMinor f → Restatus J f

  pub Keeps-clock : Notes → Keeps J (clock r)
  unfolding clock
  Keeps-clock h = record { at = λ s j. h.clocked s j }

  pub Keeps-set_condition :
      (kind : String) (status : ConditionStatus) (reason message : String)
      → Notes
      → Keeps J (set_condition r kind status reason message)
  unfolding set_condition
  Keeps-set_condition kind status reason message h =
      Keeps-bind (Keeps-clock h) (λ t. Keeps-set_status J h.restatus _ (λ st. (refl, refl, refl)))
