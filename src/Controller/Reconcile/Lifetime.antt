-- ===== src/Controller/Reconcile/Lifetime.antt =====
-- Which statuses a reconciliation writes.
pub mod Written
pub mod History
use kube_ephemerals.Prelude.{
  String, Bool, true, false, ◌||◌, Option, none, some, List, [], ◌∷◌, ◌≡◌, refl, ap, ◌∙◌, arith,
}
use kube_ephemerals.Exec.{Result, ok, err}
use kube_ephemerals.Exec.Hoare.{Keeps}
use kube_ephemerals.Api.Types.{
  Time, EphemeralEnv, EphemeralEnvPhase, unset, pending, active, failed, expired,
}
use kube_ephemerals.Kube.Client.{Client}
use kube_ephemerals.Kube.Trace.{Call, updated_status, Event}
use kube_ephemerals.Controller.Base.{Reconciler, Session, World, decode, update_status, failed_with}
use kube_ephemerals.Controller.Frame.{Notes, Restatus, IsMinor, Stable}
use kube_ephemerals.Controller.Traced.{traced_reconciler, of_traced}
use kube_ephemerals.Controller.Components.Frame.{Deploys}
use kube_ephemerals.Controller.Cleanup.Frame.{Cleans}
use kube_ephemerals.Controller.Reconcile.Frame.{Provisions}

-- A status that was stored comes back as it was sent.
abbrev pub KeepsStatus : Client → Type 0
KeepsStatus client =
    (env stored : EphemeralEnv) (w : client.World)
    → (client.update_env_status env w).0 ≡ ok stored
    → stored.status ≡ env.status

abbrev OnWrite : (EphemeralEnv → Type 0) → Call → Type 0
OnWrite Q (updated_status env) = Q env
OnWrite Q _ = Unit {0}

-- A statement of each environment whose status was sent to the server.
abbrev pub AllWritten : (EphemeralEnv → Type 0) → List Event → Type 0
AllWritten Q [] = Unit {0}
AllWritten Q (e ∷ log) = OnWrite Q e.call × AllWritten Q log

-- The expiration time is this one, and the phase is one of these.
pub record Allowed (t : Option Time) (phases : EphemeralEnvPhase → Bool) (env : EphemeralEnv)
    : Type 0 where
  pub timed : env.status.expiration_time ≡ t
  pub phased : phases env.status.phase ≡ true

module _ (r : Reconciler) (t : Option Time) (phases : EphemeralEnvPhase → Bool) where
  abbrev T : Reconciler
  T = traced_reconciler r

  -- The environment of a run is as it may be written, and so was all that was written.
  pub record Settled (s : Session (World (traced_reconciler r))) : Type 0 where
    pub here : Allowed t phases s.env
    pub written : AllWritten (Allowed t phases) s.world.log

  grown :
      (e : Event) (w : r.client.World) (s : Session (World (traced_reconciler r)))
      → OnWrite (Allowed t phases) e.call
      → Settled s
      → Settled (record s { world = record { world = w; log = e ∷ s.world.log } })
  grown e w s h j = record {
    here = record { timed = j.here.timed; phased = j.here.phased };
    written = (h, j.written);
  }

  pub notes-Settled : Notes T Settled
  notes-Settled = record {
    clocked = λ s j. record {
      here = record { timed = j.here.timed; phased = j.here.phased };
      written = j.written;
    };
    restatus = λ f minor s j. record {
      here = record {
        timed = (minor s.env.status).2 ∙ j.here.timed;
        phased = rw (minor s.env.status).0 j.here.phased;
      };
      written = j.written;
    };
  }

  pub provisions-Settled : Provisions T Settled
  provisions-Settled = record {
    notes = notes-Settled;
    creates = λ o f s j. grown _ _ s tt j;
    reads = λ k s j. grown _ _ s tt j;
    lists = λ n s j. grown _ _ s tt j;
    deploys =
        of_traced r (Deploys T Settled) r.helm_client λ h. record {
          checks = λ n ns s j. grown _ _ s tt j;
          installs = λ o s j. grown _ _ s tt j;
        };
  }

  pub cleans-Settled : Cleans T Settled
  cleans-Settled = record {
    gets_object = λ d k s j. grown _ _ s tt j;
    deletes_object = λ d k s j. grown _ _ s tt j;
    checks = λ h n ns.
        of_traced r (λ h. Stable Settled (h.is_installed n ns)) r.helm_client
          (λ h₀ s j. grown _ _ s tt j) h;
    uninstalls = λ h n ns.
        of_traced r (λ h. Stable Settled (h.uninstall n ns)) r.helm_client
          (λ h₀ s j. grown _ _ s tt j) h;
  }

  -- A phase that is allowed is set.
  pub rephased :
      (p : EphemeralEnvPhase) (message : String)
      → phases p ≡ true
      → Restatus Settled (λ st. record st { phase = p; message = message })
  rephased p message h s j = record {
    here = record { timed = j.here.timed; phased = h };
    written = j.written;
  }

  pub refailed :
      phases failed ≡ true → (message : String) → Restatus Settled (failed_with T message)
  refailed h message s j = record {
    here = record { timed = ground (arith, j.here.timed); phased = ground (arith, h) };
    written = j.written;
  }

  module _ (keeps_status : KeepsStatus r.client) where
    decoded :
        (s : Session (World (traced_reconciler r))) (x : Result EphemeralEnv × r.client.World)
        → ((stored : EphemeralEnv) → x.0 ≡ ok stored → stored.status ≡ s.env.status)
        → Settled s
        → (e : Event) → OnWrite (Allowed t phases) e.call
        → Settled (decode T s (x.0, record { world = x.1; log = e ∷ s.world.log })).1
    decoded s (ok stored, w) same j e h = record {
      here = record {
        timed = ap (λ st. st.expiration_time) (same stored refl) ∙ j.here.timed;
        phased = ap (λ st. phases st.phase) (same stored refl) ∙ j.here.phased;
      };
      written = (h, j.written);
    }
    decoded s (err f, w) same j e h = grown e w s h j

    pub Keeps-update_status : Keeps Settled (update_status T)
    unfolding update_status
    Keeps-update_status = record {
      at = λ s j.
          decoded s (r.client.update_env_status s.env s.world.world)
            (λ stored e. keeps_status s.env stored s.world.world e) j _ j.here;
    }
