-- ===== src/Controller/Reconcile/Activation/Run.antt =====
-- An environment becomes active only after all its objects were accepted.
use kube_ephemerals.Prelude.{String, Bool, true, ◌&&◌, some, List, ◌≡◌, ◌≢◌, refl, arith}
use kube_ephemerals.Exec.{Failure, Result, ok, err, Exec, wrapping, ◌>>=◌}
use kube_ephemerals.Exec.Hoare.{Keeps, Ending, ending}
use kube_ephemerals.Api.Types.{EphemeralEnv, active}
use kube_ephemerals.Kube.Trace.{Event, only_after}
use kube_ephemerals.Controller.Base.{
  Reconciler, Session, World, Handler, set_status, update_status, set_condition, clock, or_return,
  reconcile_step_on_error,
}
use kube_ephemerals.Controller.Traced.{traced_reconciler, on_call, of_traced}
use kube_ephemerals.Controller.Resources.{ensure_namespace}
use kube_ephemerals.Controller.Resources.Frame.{Keeps-ensure_namespace}
use kube_ephemerals.Controller.Components.Frame.{Deploys}
use kube_ephemerals.Controller.Cleanup.{record_reconcile_time, store_status}
use kube_ephemerals.Controller.Reconcile.{
  step, after_step, reconcile_helm_failed, mark_helm_failed, finish,
}
use kube_ephemerals.Controller.Reconcile.Frame.{Provisions}
use kube_ephemerals.Controller.Reconcile.Activation.{
  Stage, Monotone, grow, restatus, is_activation, ensured_namespace, ensured_all,
}
use kube_ephemerals.Controller.Reconcile.Activation.Steps.{
  ensure_namespace-ensured, ensure_namespace-settled,
}

module _ (r : Reconciler) (env : EphemeralEnv) where
  abbrev T : Reconciler
  T = traced_reconciler r

  abbrev pub Run : Type 0
  Run = Session (World (traced_reconciler r))

  abbrev pub Ordered : Run → Type 0
  Ordered s = only_after (ensured_all env) (on_call is_activation) s.world.log ≡ true

  module _ (facts : List Event → Bool) (mono : Monotone facts) where
    pub Stage-provisions : Provisions T (Stage r env facts)
    Stage-provisions = record {
      notes = record {
        clocked = λ s j. record {
          same_metadata = j.same_metadata;
          same_spec = j.same_spec;
          inactive = j.inactive;
          settled = j.settled;
          ordered = j.ordered;
          known = j.known;
        };
        restatus = restatus r env facts mono;
      };
      creates = λ o f s j. grow r env facts mono _ _ s refl j;
      reads = λ k s j. grow r env facts mono _ _ s refl j;
      lists = λ n s j. grow r env facts mono _ _ s refl j;
      deploys = of_traced r (Deploys T (Stage r env facts)) r.helm_client λ h. record {
        checks = λ n ns s j. grow r env facts mono _ _ s refl j;
        installs = λ o s j. grow r env facts mono _ _ s refl j;
      };
    }

  -- A failing step writes the phase `Failed`.
  Ordered-step_on_error :
      (e : Failure) (message : String) (s : Run)
      → Ordered s
      → Ordered (reconcile_step_on_error T (some e) message s).1
  unfolding reconcile_step_on_error
  Ordered-step_on_error e message s o = ground arith

  pub Ordered-helm_failed :
      (e : Failure) (s : Run) → Ordered s → Ordered (reconcile_helm_failed T e s).1
  unfolding reconcile_helm_failed mark_helm_failed set_condition clock set_status update_status
      ◌>>=◌
  Ordered-helm_failed e s o = ground arith

  -- With every object in the log the activation may be written.
  pub Ordered-finish : (s : Run) → Stage r env (ensured_all env) s → Ordered (finish T s).1
  unfolding finish record_reconcile_time store_status set_status clock update_status wrapping
      or_return ◌>>=◌
  Ordered-finish s j = ground (arith, j.ordered, j.known)

  Ordered-after_step :
      (Q : Run → Type 0) (message : String) (k : Handler (World T)) (x : Result (Unit {0}) × Run)
      → Ending (λ _. Q) Ordered x
      → ((s : Run) → Q s → Ordered (k s).1)
      → Ordered (after_step T message k x).1
  Ordered-after_step Q message k (ok tt, s) j then_ordered = then_ordered s j
  Ordered-after_step Q message k (err e, s) o then_ordered = Ordered-step_on_error e _ s o

  -- One step: it adds its objects to the facts, or the run ends with a failure.
  module _ (facts fact : List Event → Bool) (m : Exec Run (Unit {0})) (message : String)
      (k : Handler (World T)) where
    abbrev both : List Event → Bool
    both log = facts log && fact log

    Stage-and : (s : Run) → Stage r env facts s → fact s.world.log ≡ true → Stage r env both s
    Stage-and s j f = record {
      same_metadata = j.same_metadata;
      same_spec = j.same_spec;
      inactive = j.inactive;
      settled = j.settled;
      ordered = j.ordered;
      known = rw j.known f;
    }

    pub Ordered-step :
        Keeps (Stage r env facts) m
        → ((s : Run) → Stage r env facts s → (m s).0 ≡ ok tt → fact (m s).1.world.log ≡ true)
        → ((s : Run) → Stage r env both s → Ordered (k s).1)
        → (s : Run) → Stage r env facts s
        → Ordered (step T m message k s).1
    unfolding step
    Ordered-step keeps adds then_ordered s j =
        Ordered-after_step (Stage r env both) message k (m s)
          (ending (Stage r env facts) Ordered (λ _. Stage r env both) m s keeps j
            (λ u e j'. Stage-and (m s).1 j' (adds s j e)) (λ t j'. j'.ordered))
          then_ordered

  -- Before the first step.
  pub record Start (s : Run) : Type 0 where
    pub same_metadata : s.env.metadata ≡ env.metadata
    pub same_spec : s.env.spec ≡ env.spec
    pub inactive : s.env.status.phase ≢ active
    pub ordered : Ordered s

  Start-ensure_namespace : Keeps Start (ensure_namespace T)
  Start-ensure_namespace =
      Keeps-ensure_namespace T Start
        (λ o f s j. record {
          same_metadata = j.same_metadata;
          same_spec = j.same_spec;
          inactive = j.inactive;
          ordered = ground (arith, j.ordered);
        })
        (record {
          clocked = λ s j. record {
            same_metadata = j.same_metadata;
            same_spec = j.same_spec;
            inactive = j.inactive;
            ordered = j.ordered;
          };
          restatus = λ f minor s j. record {
            same_metadata = j.same_metadata;
            same_spec = j.same_spec;
            inactive = rw (minor s.env.status).0 j.inactive;
            ordered = j.ordered;
          };
        })
        (λ name s j. record {
          same_metadata = j.same_metadata;
          same_spec = j.same_spec;
          inactive = j.inactive;
          ordered = j.ordered;
        })

  pub Ordered-first_step :
      (message : String) (k : Handler (World T))
      → ((s : Run) → Stage r env (ensured_namespace env) s → Ordered (k s).1)
      → (s : Run) → Start s
      → Ordered (step T (ensure_namespace T) message k s).1
  unfolding step
  Ordered-first_step message k then_ordered s j =
      Ordered-after_step (Stage r env (ensured_namespace env)) message k (ensure_namespace T s)
        (ending Start Ordered (λ _. Stage r env (ensured_namespace env)) (ensure_namespace T) s
          Start-ensure_namespace j
          (λ u e j'. record {
            same_metadata = j'.same_metadata;
            same_spec = j'.same_spec;
            inactive = j'.inactive;
            settled = ensure_namespace-settled r env s j.same_metadata e;
            ordered = j'.ordered;
            known = ensure_namespace-ensured r env s j.same_metadata e;
          })
          (λ t j'. j'.ordered))
        then_ordered
