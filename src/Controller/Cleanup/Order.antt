-- ===== src/Controller/Cleanup/Order.antt =====
-- The order of the calls of a deletion: the finalizer goes last.
use text.Mathlib.TextPositions.{eq_refl}
use kube_ephemerals.Prelude.{
  String, ◌==◌, Bool, true, false, List, any, Bool-cases, ◌≡◌, refl, ap, arith, inl, inr,
}
use kube_ephemerals.Exec.{Result, ok, err, attempt, gets, ◌>>=◌, wrapping}
use kube_ephemerals.Api.Types.{EphemeralEnv}
use kube_ephemerals.Api.Helpers.{get_namespace_name}
use kube_ephemerals.Kube.Objects.{ObjectKey, Kind, namespace_kind}
use kube_ephemerals.Kube.Trace.{
  Call, updated_env, got_object, deleted, Reply, accepted, terminating, not_found, Event,
  only_after,
}
use kube_ephemerals.Controller.Base.{
  Reconciler, Session, World, call, update_env, or_return, ephemeral_env_finalizer,
}
use kube_ephemerals.Controller.Traced.{
  traced_reconciler, on_call, OnLog, fresh, cleans, only_after-Grows,
}
use kube_ephemerals.Controller.Cleanup.{
  cleanup_namespace, cleanup_dependents, delete_object, remove_finalizer, release_env,
  handle_deletion, set_finalizers,
}
use kube_ephemerals.Controller.Cleanup.Frame.{
  Cleans, Keeps-cleanup_dependents, Keeps-cleanup_namespace,
}

abbrev pub is_env_update : Call → Bool
is_env_update (updated_env _) = true
is_env_update _ = false

abbrev names : String → Kind → ObjectKey → Bool
names name namespace_kind key = key.name == name
names name _ key = false

-- The event shows that the namespace is absent, or that the server is deleting it.
abbrev pub confirms_gone : String → Event → Bool
confirms_gone name e = answers e.call e.reply
  where
    answers : Call → Reply → Bool
    answers (got_object d k) not_found = names name d k
    answers (got_object d k) terminating = names name d k
    answers (deleted d k) accepted = names name d k
    answers (deleted d k) not_found = names name d k
    answers _ _ = false

abbrev pub gone : String → List Event → Bool
gone name = any (confirms_gone name)

module _ (r : Reconciler) (s : Session (World (traced_reconciler r))) where
  pub cleanup_namespace_confirms :
      (cleanup_namespace (traced_reconciler r) s).0 ≡ ok tt
      → gone (get_namespace_name s.env) (cleanup_namespace (traced_reconciler r) s).1.world.log
        ≡ true
  unfolding cleanup_namespace delete_object call attempt gets ◌>>=◌
  cleanup_namespace_confirms h = ground (arith, eq_refl (get_namespace_name s.env))

-- The cleanup leaves the environment of the run as it is.
env-cleanup : (r : Reconciler) (e : EphemeralEnv) → Cleans r (λ s. s.env ≡ e)
env-cleanup r e = record {
  gets_object = λ d k s j. j;
  deletes_object = λ d k s j. j;
  checks = λ h n ns _ s j. j;
  uninstalls = λ h n ns _ s j. j;
}

-- The cleanup calls keep every statement that only updates of the environment can break.
module _ (r : Reconciler) (p : List Event → Bool) where
  abbrev Ordered : List Event → Type 0
  Ordered log = only_after p (on_call is_env_update) log ≡ true

  Ordered-cleanup : Cleans (traced_reconciler r) (OnLog r Ordered is_env_update)
  Ordered-cleanup =
      cleans r Ordered is_env_update (only_after-Grows p is_env_update) (λ d k. refl) (λ d k. refl)
        (λ n ns. refl) (λ n ns. refl)

module _ (r : Reconciler) (s : Session (World (traced_reconciler r))) where
  abbrev before_update : List Event → Bool
  before_update = gone (get_namespace_name s.env)

  -- After the namespace is cleaned up, what follows is ordered whether the update succeeds or not.
  Ordered-release_env :
      (x : Result (Unit {0}) × Session (World (traced_reconciler r)))
      → (x.0 ≡ ok tt → before_update x.1.world.log ≡ true)
      → Ordered r before_update x.1.world.log
      → Ordered r before_update (release_env (traced_reconciler r) x).1.world.log
  unfolding remove_finalizer set_finalizers gets ◌>>=◌ wrapping update_env or_return
  Ordered-release_env (ok tt, t) c o = ground (arith, c refl)
  Ordered-release_env (err e, t) c o = o

module _ (r : Reconciler) (w : r.client.World) (env : EphemeralEnv) where
  -- The state after the routes and the releases were cleaned up.
  abbrev dependents_gone : Session (World (traced_reconciler r))
  dependents_gone = (cleanup_dependents (traced_reconciler r) (fresh w env)).1

  dependents_gone-env : dependents_gone.env ≡ env
  dependents_gone-env =
      (Keeps-cleanup_dependents (traced_reconciler r) _ (env-cleanup (traced_reconciler r) env)).at
        (fresh w env) refl

  Ordered-dependents_gone : Ordered r (gone (get_namespace_name env)) dependents_gone.world.log
  Ordered-dependents_gone =
      (Keeps-cleanup_dependents (traced_reconciler r) _ (Ordered-cleanup r _)).at (fresh w env) refl

  Ordered-namespace :
      let x = cleanup_namespace (traced_reconciler r) dependents_gone in
      Ordered r (gone (get_namespace_name env)) (release_env (traced_reconciler r) x).1.world.log
  Ordered-namespace = rw (← ap get_namespace_name dependents_gone-env) (
      Ordered-release_env r dependents_gone _ (cleanup_namespace_confirms r dependents_gone) (
        (Keeps-cleanup_namespace (traced_reconciler r) _ (Ordered-cleanup r _)).at dependents_gone
          (rw (ap get_namespace_name dependents_gone-env) Ordered-dependents_gone)))

  -- In the log of a deletion every update of the environment, which is what takes its finalizer
  -- away, comes after an answer that shows the environment's namespace absent or terminating.
  pub handle_deletion-only_after :
      only_after
        (gone (get_namespace_name env))
        (on_call is_env_update)
        (handle_deletion (traced_reconciler r) (fresh w env)).1.world.log
      ≡ true
  unfolding handle_deletion
  handle_deletion-only_after =
      elim (Bool-cases
        (r.library.contains_finalizer env.metadata.finalizers ephemeral_env_finalizer)) [
          | inl y ↦ rw y Ordered-namespace
          | inr n ↦ rw n
        ]
