-- ===== src/Controller/Reconcile/Guarded.antt =====
-- A run whose environment has its finalizer stored.
use kube_ephemerals.Prelude.{String, Bool, true, false, List, ◌∷◌, any, ◌≡◌, arith}
use kube_ephemerals.Exec.{Result, ok, err}
use kube_ephemerals.Exec.Hoare.{Keeps}
use kube_ephemerals.Api.Types.{EphemeralEnv}
use kube_ephemerals.Kube.Library.{Library}
use kube_ephemerals.Kube.Trace.{Call, updated_env, Reply, accepted, Event, only_after}
use kube_ephemerals.Controller.Base.{
  Reconciler, Session, World, ephemeral_env_finalizer, update_status, decode,
}
use kube_ephemerals.Controller.Frame.{Stable, Notes}
use kube_ephemerals.Controller.Traced.{traced_reconciler, on_call, of_traced}
use kube_ephemerals.Controller.Components.Frame.{Deploys}
use kube_ephemerals.Controller.Cleanup.Frame.{Cleans}
use kube_ephemerals.Controller.Cleanup.Safety.{makes}
use kube_ephemerals.Controller.Reconcile.Frame.{Provisions}
use kube_ephemerals.Controller.Reconcile.Handlers.{Provides, Expires}

-- `controllerutil.AddFinalizer` leaves a list that `ContainsFinalizer` finds the finalizer in.
abbrev pub AddsFinalizer : Library → Type 0
AddsFinalizer library =
    (fs : List String) (f : String)
    → library.contains_finalizer (library.add_finalizer fs f) f ≡ true

-- The server accepted an environment that has the finalizer.
abbrev pub stores_finalizer : Library → Event → Bool
stores_finalizer library e = by_call e.call e.reply
  where
    by_call : Call → Reply → Bool
    by_call (updated_env env) accepted =
        library.contains_finalizer env.metadata.finalizers ephemeral_env_finalizer
    by_call _ _ = false

module _ (r : Reconciler) where
  abbrev T : Reconciler
  T = traced_reconciler r

  abbrev pub Run : Type 0
  Run = Session (World (traced_reconciler r))

  -- The finalizer is stored, and was before anything was made: no event can break that.
  pub record Guarded (s : Run) : Type 0 where
    pub stored : any (stores_finalizer r.library) s.world.log ≡ true
    pub ordered : only_after (any (stores_finalizer r.library)) (on_call makes) s.world.log ≡ true

  guarded :
      (e : Event) (w : r.client.World) (env : EphemeralEnv) (s : Run)
      → Guarded s
      → Guarded (record { world = record { world = w; log = e ∷ s.world.log }; env = env })
  guarded e w env s j = record {
    stored = ground (arith, j.stored);
    ordered = ground (arith, j.stored, j.ordered);
  }

  pub same :
      (w : r.client.World) (env : EphemeralEnv) (s : Run)
      → Guarded s
      → Guarded (record { world = record { world = w; log = s.world.log }; env = env })
  same w env s j = record { stored = j.stored; ordered = j.ordered }

  pub notes-Guarded : Notes T Guarded
  notes-Guarded = record { clocked = λ s j. same _ _ s j; restatus = λ f minor s j. same _ _ s j }

  pub provisions-Guarded : Provisions T Guarded
  provisions-Guarded = record {
    notes = notes-Guarded;
    creates = λ o f s j. guarded _ _ _ s j;
    reads = λ k s j. guarded _ _ _ s j;
    lists = λ n s j. guarded _ _ _ s j;
    deploys = of_traced r (Deploys T Guarded) r.helm_client λ h. record {
      checks = λ n ns s j. guarded _ _ _ s j;
      installs = λ o s j. guarded _ _ _ s j;
    };
  }

  pub cleans-Guarded : Cleans T Guarded
  cleans-Guarded = record {
    gets_object = λ d k s j. guarded _ _ _ s j;
    deletes_object = λ d k s j. guarded _ _ _ s j;
    checks = λ h n ns.
        of_traced r (λ h. Stable Guarded (h.is_installed n ns)) r.helm_client
          (λ h₀ s j. guarded _ _ _ s j) h;
    uninstalls = λ h n ns.
        of_traced r (λ h. Stable Guarded (h.uninstall n ns)) r.helm_client
          (λ h₀ s j. guarded _ _ _ s j) h;
  }

  decoded :
      (x : Result EphemeralEnv × World (traced_reconciler r)) (s : Run)
      → ((e : EphemeralEnv) → Guarded (record { world = x.1; env = e }))
      → Guarded (decode T s x).1
  decoded (ok env, w) s h = h env
  decoded (err f, w) s h = h s.env

  pub Keeps-update_status : Keeps Guarded (update_status T)
  unfolding update_status
  Keeps-update_status = record {
    at = λ s j. decoded (T.client.update_env_status s.env s.world) s (λ e. guarded _ _ e s j);
  }

  pub provides-Guarded : Provides T Guarded
  provides-Guarded = record {
    provisions = provisions-Guarded;
    enters = λ name s j. same _ _ s j;
    saves = Keeps-update_status;
    fails = λ message s j. same _ _ s j;
    helm_fails = λ message s j. same _ _ s j;
    activates = λ message s j. same _ _ s j;
  }

  pub expires-Guarded : Expires T Guarded
  expires-Guarded = record {
    cleans = cleans-Guarded;
    notes = notes-Guarded;
    saves = Keeps-update_status;
    expires = λ message s j. same _ _ s j;
  }
