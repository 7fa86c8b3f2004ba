-- ===== src/Controller/Traced.antt =====
-- The reconciler over an instrumented client. A statement about the log that survives the calls of
-- some kinds is kept by every function that makes no other call.
use mathlib.Core.Path.{subst}
use mathlib.Core.Option
use kube_ephemerals.Prelude.{
  String, Bool, true, false, Option, none, some, List, [], ◌∷◌, ◌≡◌, arith,
}
use kube_ephemerals.Api.Types.{EphemeralEnv}
use kube_ephemerals.Kube.Objects.{Kind, ObjectKey}
use kube_ephemerals.Kube.Trace.{
  Call, got_object, deleted, checked, uninstalled, Event, Logged, traced, traced_helm, only_after,
}
use kube_ephemerals.Helm.Client.{HelmClient}
use kube_ephemerals.Controller.Base.{Reconciler, Session, World}
use kube_ephemerals.Controller.Frame.{Stable, Notes}
use kube_ephemerals.Controller.Cleanup.Frame.{Cleans}

abbrev pub traced_reconciler : Reconciler → Reconciler
traced_reconciler r = record {
  library = r.library;
  client = traced r.client;
  helm_client = Option.map traced_helm r.helm_client;
  operator_service = r.operator_service;
  operator_namespace = r.operator_namespace;
}

-- A test of the call of an event.
abbrev pub on_call : (Call → Bool) → Event → Bool
on_call q e = q e.call

-- What holds of every instrumented Helm client holds of the reconciler's.
module _ (r : Reconciler) where
  pub of_traced :
      (P : HelmClient (World (traced_reconciler r)) r.library.Values → Type 0)
      (o : Option (HelmClient (World r) r.library.Values))
      → ((h : HelmClient (World r) r.library.Values) → P (traced_helm h))
      → (h : HelmClient (World (traced_reconciler r)) r.library.Values)
      → Option.map traced_helm o ≡ some h
      → P h
  of_traced P none p h e = absurd (Option.none-ne-some h e)
  of_traced P (some h₀) p h e = subst P (Option.some-injective _ _ e) (p h₀)

module _ (r : Reconciler) (J : List Event → Type 0) (q : Call → Bool) where
  -- Only the calls that satisfy `q` can break `J`.
  abbrev pub Grows : Type 0
  Grows = (e : Event) (log : List Event) → q e.call ≡ false → J log → J (e ∷ log)

  abbrev pub OnLog : Session (World (traced_reconciler r)) → Type 0
  OnLog s = J s.world.log

  pub notes : Notes (traced_reconciler r) OnLog
  notes = record { clocked = λ s j. j; restatus = λ f _ s j. j }

  module _ (grows : Grows) where
    pub cleans :
        ((d : Kind) (k : ObjectKey) → q (got_object d k) ≡ false)
        → ((d : Kind) (k : ObjectKey) → q (deleted d k) ≡ false)
        → ((n ns : String) → q (checked n ns) ≡ false)
        → ((n ns : String) → q (uninstalled n ns) ≡ false)
        → Cleans (traced_reconciler r) OnLog
    cleans g d c u = record {
      gets_object = λ x k s j. grows _ s.world.log (g x k) j;
      deletes_object = λ x k s j. grows _ s.world.log (d x k) j;
      checks = λ h n ns.
          of_traced r (λ h. Stable OnLog (h.is_installed n ns)) r.helm_client
            (λ h₀ s j. grows _ s.world.log (c n ns) j) h;
      uninstalls = λ h n ns.
          of_traced r (λ h. Stable OnLog (h.uninstall n ns)) r.helm_client
            (λ h₀ s j. grows _ s.world.log (u n ns) j) h;
    }

-- `only_after` is broken by the calls that it is about, and by no other.
pub only_after-Grows :
    (p : List Event → Bool) (q : Call → Bool) (e : Event) (log : List Event)
    → q e.call ≡ false
    → only_after p (on_call q) log ≡ true
    → only_after p (on_call q) (e ∷ log) ≡ true
only_after-Grows p q e log h j = ground arith

-- The start of a run whose calls are logged.
abbrev pub fresh : {W : Type 0} → W → EphemeralEnv → Session (Logged W)
fresh w env = record { world = record { world = w; log = [] }; env = env }
