-- ===== src/Controller/Reconcile/Lifetime/History.antt =====
-- The history of an environment: instants, changes by its users, and the statuses that reconciliations
-- write.
use kube_ephemerals.Prelude.{
  Bool, true, false, Option, none, some, List, ◌∷◌, ◌≤ℤ◌, ltb_ℤ, if◌then◌else◌, ◌≡◌, refl, ap, ◌∙◌,
  arith,
}
use kube_ephemerals.Api.Types.{Time, EphemeralEnv, EphemeralEnvPhase, expired}
use kube_ephemerals.Api.Helpers.{is_expired}
use kube_ephemerals.Api.Helpers.Ttl.{is_expired_mono}
use kube_ephemerals.Kube.Trace.{Event, Reply, updated_status}
use kube_ephemerals.Controller.Base.{Reconciler}
use kube_ephemerals.Controller.Traced.{traced_reconciler, fresh}
use kube_ephemerals.Controller.Reconcile.{initialize, initial_expiration, reconcile_live}
use kube_ephemerals.Controller.Reconcile.Lifetime.{KeepsStatus, AllWritten, Allowed}
use kube_ephemerals.Controller.Reconcile.Lifetime.Written.{only_expired, reconcile_live-written}

-- The status of this environment was sent to the server.
pub data WasWritten (env : EphemeralEnv) : List Event → Type 0 where
  last_write :
      {reply : Reply} {log : List Event}
      → WasWritten env (record { call = updated_status env; reply = reply } ∷ log)
  older_write : {e : Event} {log : List Event} → WasWritten env log → WasWritten env (e ∷ log)

written-holds :
    (Q : EphemeralEnv → Type 0) {env : EphemeralEnv} {log : List Event}
    → WasWritten env log
    → AllWritten Q log
    → Q env
written-holds Q last_write all = all.0
written-holds Q (older_write w) all = written-holds Q w all.1

-- The environment at an instant.
pub record Moment : Type 0 where
  pub now : Time
  pub env : EphemeralEnv

-- Time passes; the users change what is not the status; a reconciliation at that instant writes the
-- status, at a server that stores it or not.
infix 40 ◌⟶⟨◌⟩◌
pub data ◌⟶⟨◌⟩◌ (m : Moment) (r : Reconciler) : Moment → Type 0 where
  passed : {later : Time} → m.now ≤ℤ later → m ⟶⟨ r ⟩ record m { now = later }
  edited : {env : EphemeralEnv} → env.status ≡ m.env.status → m ⟶⟨ r ⟩ record m { env = env }
  reconciled :
      {env : EphemeralEnv} (w : r.client.World)
      → (r.client.now w).0 ≡ m.now
      → WasWritten env (reconcile_live (traced_reconciler r) (fresh w m.env)).1.world.log
      → m ⟶⟨ r ⟩ record m { env = env }

infix 40 ◌⟶*⟨◌⟩◌
pub data ◌⟶*⟨◌⟩◌ (m : Moment) (r : Reconciler) : Moment → Type 0 where
  unchanged : m ⟶*⟨ r ⟩ m
  after : {n o : Moment} → m ⟶*⟨ r ⟩ n → n ⟶⟨ r ⟩ o → m ⟶*⟨ r ⟩ o

-- The time to live is over and the phase says so.
pub record Over (m : Moment) : Type 0 where
  pub late : is_expired m.now m.env ≡ true
  pub phase : m.env.status.phase ≡ expired

-- Whether an environment is expired depends on its expiration time alone.
abbrev past : Time → Option Time → Bool
past now o = elim o [ none ↦ false | some t ↦ ltb_ℤ t now ]

initialize-past :
    (r : Reconciler) (now : Time) (env : EphemeralEnv)
    → is_expired now env ≡ true
    → (initialize r env).status.expiration_time ≡ env.status.expiration_time
unfolding initialize is_expired
initialize-past r now env h = by_time env.status.expiration_time h
  where
    by_time : (o : Option Time) → past now o ≡ true → initial_expiration r env o ≡ o
    by_time none h = absurd (ground (arith, h))
    by_time (some t) h = refl

timed-late :
    (now : Time) (e env : EphemeralEnv)
    → e.status.expiration_time ≡ env.status.expiration_time
    → is_expired now env ≡ true
    → is_expired now e ≡ true
unfolding is_expired
timed-late now e env same h = ap (past now) same ∙ h

only_expired-expired : (p : EphemeralEnvPhase) → only_expired p ≡ true → p ≡ expired
only_expired-expired EphemeralEnvPhase.expired h = refl
only_expired-expired EphemeralEnvPhase.unset h = absurd (ground (arith, h))
only_expired-expired EphemeralEnvPhase.pending h = absurd (ground (arith, h))
only_expired-expired EphemeralEnvPhase.active h = absurd (ground (arith, h))
only_expired-expired EphemeralEnvPhase.failed h = absurd (ground (arith, h))

chosen_first :
    (b : Bool)
    → b ≡ true
    → (f g : EphemeralEnvPhase → Bool) (p : EphemeralEnvPhase) → (if b then f else g) p ≡ true
    → f p ≡ true
chosen_first true e f g p h = h
chosen_first false e f g p h = absurd (ground (arith, e))

module _ (r : Reconciler) (keeps_status : KeepsStatus r.client) where
  -- What a reconciliation writes of an environment that is over.
  written-over :
      (m : Moment) (env : EphemeralEnv) (w : r.client.World)
      → (r.client.now w).0 ≡ m.now
      → WasWritten env (reconcile_live (traced_reconciler r) (fresh w m.env)).1.world.log
      → Over m
      → Allowed m.env.status.expiration_time only_expired env
  written-over m env w at_now written over =
      let initial = initialize (traced_reconciler r) m.env in
      let same = initialize-past (traced_reconciler r) m.now m.env over.late in
      let late : is_expired (r.client.now w).0 initial ≡ true =
        rw at_now (timed-late m.now initial m.env same over.late) in
      let allowed = written-holds _ written (reconcile_live-written r keeps_status w m.env) in
      record {
        timed = allowed.timed ∙ same;
        phased = chosen_first _ late only_expired _ env.status.phase allowed.phased;
      }

  Over-step : (m n : Moment) → m ⟶⟨ r ⟩ n → Over m → Over n
  Over-step m n (passed later) over = record {
    late = is_expired_mono m.now _ m.env later over.late;
    phase = over.phase;
  }
  Over-step m n (edited same) over = record {
    late = timed-late m.now _ m.env (ap (λ st. st.expiration_time) same) over.late;
    phase = ap (λ st. st.phase) same ∙ over.phase;
  }
  Over-step m n (reconciled {env} w at_now written) over =
      let allowed = written-over m env w at_now written over in
      record {
        late = timed-late m.now env m.env allowed.timed over.late;
        phase = only_expired-expired env.status.phase allowed.phased;
      }

  -- At a server that stores a status as it is sent: an environment that is over, its phase Expired and
  -- its time to live past, stays so through every history of passing time, of changes that leave the
  -- status alone, and of reconciliations from the initialisation on, whichever of the statuses that
  -- they send is stored, and however the cluster answers them.
  pub Over-stays : (m n : Moment) → Over m → m ⟶*⟨ r ⟩ n → Over n
  Over-stays m n over unchanged = over
  Over-stays m n over (after {n = k} history step) =
      Over-step k n step (Over-stays m k over history)

  initialize-timed :
      (env : EphemeralEnv) (t : Time)
      → env.status.expiration_time ≡ some t
      → (initialize (traced_reconciler r) env).status.expiration_time ≡ some t
  unfolding initialize
  initialize-timed env t h = ap (initial_expiration (traced_reconciler r) env) h

  timed-step :
      (m n : Moment) (t : Time)
      → m ⟶⟨ r ⟩ n
      → m.env.status.expiration_time ≡ some t
      → n.env.status.expiration_time ≡ some t
  timed-step m n t (passed later) h = h
  timed-step m n t (edited same) h = ap (λ st. st.expiration_time) same ∙ h
  timed-step m n t (reconciled w at_now written) h =
      (written-holds _ written (reconcile_live-written r keeps_status w m.env)).timed
      ∙ initialize-timed m.env t h

  -- At a server that stores a status as it is sent: an expiration time that is set is never changed by
  -- passing time, by changes that leave the status alone, or by reconciliations from the
  -- initialisation on, whatever the environment's phase is and however the cluster answers.
  pub expiration_time-stays :
      (m n : Moment) (t : Time)
      → m.env.status.expiration_time ≡ some t
      → m ⟶*⟨ r ⟩ n
      → n.env.status.expiration_time ≡ some t
  expiration_time-stays m n t h unchanged = h
  expiration_time-stays m n t h (after {n = k} history step) =
      timed-step k n t step (expiration_time-stays m k t h history)
