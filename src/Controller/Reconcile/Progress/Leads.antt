-- ===== src/Controller/Reconcile/Progress/Leads.antt =====
-- Each step on a cluster that serves its requests leads on to the next.
use kube_ephemerals.Prelude.{String, none, some, ◌≡◌, refl, ap, ◌∙◌, arith}
use kube_ephemerals.Exec.{Result, ok, err, Exec, gets, wrapping, ◌>>=◌}
use kube_ephemerals.Exec.Works.{Works}
use kube_ephemerals.Api.Types.{Time, EphemeralEnv, active}
use kube_ephemerals.Api.Template.{EnvironmentTemplate}
use kube_ephemerals.Api.Helpers.{get_namespace_name}
use kube_ephemerals.Kube.Objects.{ObjectKey}
use kube_ephemerals.Controller.Base.{
  Reconciler, Session, Outcome, returned, World, Handler, call, clock, set_status, set_condition,
  update_status, or_return,
}
use kube_ephemerals.Controller.Resources.{ensure_namespace, create_or_update}
use kube_ephemerals.Controller.Resources.Frame.{Enters}
use kube_ephemerals.Controller.Cleanup.{record_reconcile_time, store_status}
use kube_ephemerals.Controller.Reconcile.{
  step, after_step, requeue, requeue_delay, requeue_at, activate, finish,
}
use kube_ephemerals.Controller.Reconcile.Progress.Steps.{Works-ensure_namespace}
use kube_ephemerals.Controller.Reconcile.Progress.Ready.{Cooperates, Ready, Ready-serves}

-- The run ended by writing a status with the phase `Active` and then reading the clock: its delay is
-- the time that is left until `t` at that reading, and it left the world as the reading left it.
abbrev pub Requeued : (r : Reconciler) → Time → Outcome × World r → Type 0
Requeued r t x =
    (e : EphemeralEnv) × (u : World r) × (e.status.phase ≡ active)
    × (x.0 ≡ returned (requeue_delay t (r.client.now (r.client.update_env_status e u).1).0) none)
    × (x.1 ≡ (r.client.now (r.client.update_env_status e u).1).1)

module _ (r : Reconciler) (Up : World r → Type 0)
    (templates : ObjectKey → Result EnvironmentTemplate) (cooperates : Cooperates r Up templates)
    (env : EphemeralEnv) (t : Time) where
  abbrev R : (String → Type 0) → Session (World r) → Type 0
  R = Ready r Up templates cooperates env t

  -- The outcome of a reconciliation that went through, and the environment that it stored.
  abbrev pub Activates : Outcome × Session (World r) → Type 0
  Activates x = Requeued r t (x.0, x.1.world) × (x.1.env.status.phase ≡ active)

  -- A handler that starts ready ends with the environment active.
  abbrev pub Leads : (String → Type 0) → Handler (World r) → Type 0
  Leads placed k = (s : Session (World r)) → R placed s → Activates (k s)

  after_step-Activates :
      (placed : String → Type 0) (message : String) (k : Handler (World r))
      (x : Result (Unit {0}) × Session (World r))
      → (u : Unit {0}) × (x.0 ≡ ok u)
      → R placed x.1
      → Leads placed k
      → Activates (after_step r message k x)
  after_step-Activates placed message k (ok tt, s) h j leads = leads s j
  after_step-Activates placed message k (err e, s) (u, h) j leads = absurd (ground (arith, h))

  pub Leads-step :
      (placed : String → Type 0) (m : Exec (Session (World r)) (Unit {0})) (message : String)
      (k : Handler (World r))
      → Works (R placed) m
      → Leads placed k
      → Leads placed (step r m message k)
  unfolding step
  Leads-step placed m message k works leads s j =
      after_step-Activates placed message k (m s) (works.succeeds s j) (works.keeps.at s j) leads

  requeue-Activates :
      (e : EphemeralEnv) (u : World r) (s : Session (World r))
      → e.status.phase ≡ active
      → s.world ≡ (r.client.update_env_status e u).1
      → s.env.status.expiration_time ≡ some t
      → s.env.status.phase ≡ active
      → Activates (requeue r s)
  unfolding requeue
  requeue-Activates e u s sent here timed is_active = (
    (
      e,
      u,
      sent,
      ap (λ o. (requeue_at r o s).0) timed
          ∙ ap (λ v. returned (requeue_delay t (r.client.now v).0) none) here,
      ap (λ o. (requeue_at r o s).1.world) timed ∙ ap (λ v. (r.client.now v).1) here,
    ),
    ap (λ o. (requeue_at r o s).1.env.status.phase) timed ∙ is_active,
  )

  pub Leads-finish : (placed : String → Type 0) → Leads placed (finish r)
  unfolding finish activate record_reconcile_time store_status set_status clock update_status
      wrapping or_return ◌>>=◌
  Leads-finish placed s j =
      let e : EphemeralEnv = record s.env {
        status = record s.env.status {
          phase = active;
          message = "Environment is active and accessible";
          last_reconcile_time = some (r.client.now s.world).0;
        };
      } in
      let u = (r.client.now s.world).1 in
      let (stored, answered, same) = cooperates.stores e u (cooperates.ticks s.world j.up) in
      rw answered (
        requeue-Activates e u _ refl refl (ap (λ st. st.expiration_time) same ∙ j.timed)
          (ap (λ st. st.phase) same))

  -- The first step gives the environment its namespace.
  ensure_namespace-located :
      (s : Session (World r))
      → s.env.metadata ≡ env.metadata
      → (u : Unit {0}) × ((ensure_namespace r s).0 ≡ ok u)
      → (ensure_namespace r s).1.env.status.active_namespace ≡ get_namespace_name env
  unfolding ensure_namespace create_or_update call gets ◌>>=◌ wrapping set_status set_condition
      clock get_namespace_name
  ensure_namespace-located s m (u, h) = ground (arith, h, ap (λ x. x.name) m)

  abbrev pub Anywhere : String → Type 0
  Anywhere n = Unit {0}

  abbrev pub Placed : String → Type 0
  Placed n = n ≡ get_namespace_name env

  pub Leads-first_step :
      (message : String) (k : Handler (World r))
      → Leads Placed k
      → Leads Anywhere (step r (ensure_namespace r) message k)
  unfolding step
  Leads-first_step message k leads s j =
      let works =
        Works-ensure_namespace r (R Anywhere)
          (Ready-serves r Up templates cooperates env t Anywhere) enters in
      after_step-Activates Placed message k (ensure_namespace r s) (works.succeeds s j)
        (placed (works.keeps.at s j)
          (ensure_namespace-located s j.same_metadata (works.succeeds s j)))
        leads
    where
      enters : Enters r (R Anywhere)
      enters name s j = record {
        up = j.up;
        same_metadata = j.same_metadata;
        same_spec = j.same_spec;
        timed = j.timed;
        located = tt;
      }

      placed :
          {s : Session (World r)} → R Anywhere s → Placed s.env.status.active_namespace → R Placed s
      placed j e = record {
        up = j.up;
        same_metadata = j.same_metadata;
        same_spec = j.same_spec;
        timed = j.timed;
        located = e;
      }
