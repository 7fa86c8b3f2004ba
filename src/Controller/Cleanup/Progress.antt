-- ===== src/Controller/Cleanup/Progress.antt =====
-- A deletion that gets through.
use kube_ephemerals.Prelude.{
  String, true, false, none, some, List, pos, ◌≡◌, refl, arith, Bool-cases, inl, inr,
}
use kube_ephemerals.Exec.{Result, ok, err, gets, wrapping, attempt, ◌>>=◌}
use kube_ephemerals.Api.Types.{EphemeralEnv}
use kube_ephemerals.Kube.Library.{Library}
use kube_ephemerals.Kube.Objects.{ObjectKey, Object, Kind, namespace_kind}
use kube_ephemerals.Helm.Client.{HelmClient}
use kube_ephemerals.Controller.Base.{
  Reconciler, Session, Outcome, returned, World, ephemeral_env_finalizer, call, update_env,
  or_return,
}
use kube_ephemerals.Controller.Cleanup.{
  unless_not_found, delete_object, delete_unless_terminating, cleanup_namespace, namespace_key,
  cleanup_dependents, set_finalizers, remove_finalizer, release_env, handle_deletion,
}
use kube_ephemerals.Controller.Cleanup.Frame.{
  Cleans, Keeps-cleanup_dependents, Keeps-cleanup_namespace,
}

-- An answer, or the error that there is no such object.
abbrev pub Answered : {A : Type 0} → Result A → Type 0
Answered (ok _) = Unit {0}
Answered (err e) = e.is_not_found ≡ true

-- `controllerutil.RemoveFinalizer` leaves a list in which `ContainsFinalizer` does not find it.
abbrev pub RemovesFinalizer : Library → Type 0
RemovesFinalizer library =
    (fs : List String) (f : String)
    → library.contains_finalizer (library.remove_finalizer fs f) f ≡ false

-- A cluster that answers for namespaces while its state is `Up`, which no call changes, and that
-- stores an environment with the finalizers that were sent. Of routes and releases nothing is asked.
pub record Releases (r : Reconciler) (Up : World r → Type 0) : Type 0 where
  pub keeps_get : (d : Kind) (k : ObjectKey) (w : World r) → Up w → Up (r.client.get_object d k w).1
  pub keeps_delete :
      (d : Kind) (k : ObjectKey) (w : World r) → Up w → Up (r.client.delete_object d k w).1
  pub keeps_check :
      (h : HelmClient (World r) r.library.Values) (n ns : String) (w : World r)
      → r.helm_client ≡ some h
      → Up w
      → Up (h.is_installed n ns w).1
  pub keeps_uninstall :
      (h : HelmClient (World r) r.library.Values) (n ns : String) (w : World r)
      → r.helm_client ≡ some h
      → Up w
      → Up (h.uninstall n ns w).1
  pub gets_namespace :
      (k : ObjectKey) (w : World r) → Up w → Answered (r.client.get_object namespace_kind k w).0
  pub deletes_namespace :
      (k : ObjectKey) (w : World r) → Up w → Answered (r.client.delete_object namespace_kind k w).0
  pub stores :
      (env : EphemeralEnv) (w : World r)
      → Up w
      → (stored : EphemeralEnv) × ((r.client.update_env env w).0 ≡ ok stored)
        × (stored.metadata.finalizers ≡ env.metadata.finalizers)

module _ (r : Reconciler) (Up : World r → Type 0) (releases : Releases r Up) where
  abbrev J : Session (World r) → Type 0
  J s = Up s.world

  cleans : Cleans r J
  cleans = record {
    gets_object = λ d k s j. releases.keeps_get d k s.world j;
    deletes_object = λ d k s j. releases.keeps_delete d k s.world j;
    checks = λ h n ns e s j. releases.keeps_check h n ns s.world e j;
    uninstalls = λ h n ns e s j. releases.keeps_uninstall h n ns s.world e j;
  }

  unless_not_found-ok :
      (prefix : String) (x : Result (Unit {0})) (s : Session (World r))
      → Answered x
      → (unless_not_found r prefix x s).0 ≡ ok tt
  unless_not_found-ok prefix (ok _) s h = refl
  unless_not_found-ok prefix (err e) s h = ground (arith, h)

  delete_object-ok :
      (k : ObjectKey) (what : String) (s : Session (World r))
      → J s
      → (delete_object r namespace_kind k what s).0 ≡ ok tt
  unfolding delete_object attempt call
  delete_object-ok k what s j =
      unless_not_found-ok _ (r.client.delete_object namespace_kind k s.world).0 _
        (releases.deletes_namespace k s.world j)

  delete_unless_terminating-ok :
      (k : ObjectKey) (what : String) (x : Result Object) (s : Session (World r))
      → Answered x
      → J s
      → (delete_unless_terminating r k what x s).0 ≡ ok tt
  delete_unless_terminating-ok k what (err e) s h j = ground (arith, h)
  delete_unless_terminating-ok k what (ok o) s h j = ground (arith, delete_object-ok k what s j)

  cleanup_namespace-ok : (s : Session (World r)) → J s → (cleanup_namespace r s).0 ≡ ok tt
  unfolding cleanup_namespace gets ◌>>=◌ attempt call
  cleanup_namespace-ok s j =
      delete_unless_terminating-ok _ _
        (r.client.get_object namespace_kind (namespace_key s.env) s.world).0 _
        (releases.gets_namespace (namespace_key s.env) s.world j)
        (releases.keeps_get namespace_kind (namespace_key s.env) s.world j)

  module _ (removes : RemovesFinalizer r.library) where
    -- The outcome of a deletion that went through, and the environment that it stored.
    abbrev pub Released : Outcome × Session (World r) → Type 0
    Released x =
        (x.0 ≡ returned (pos 0) none)
        × (r.library.contains_finalizer x.1.env.metadata.finalizers ephemeral_env_finalizer ≡ false)

    remove_finalizer-Released :
        (s : Session (World r))
        → J s
        → Released (or_return (remove_finalizer r) (λ s'. (returned (pos 0) none, s')) s)
    unfolding or_return remove_finalizer set_finalizers update_env gets wrapping ◌>>=◌
    remove_finalizer-Released s j =
        let fs = r.library.remove_finalizer s.env.metadata.finalizers ephemeral_env_finalizer in
        let (stored, answered, same) =
          releases.stores (record s.env { metadata = record s.env.metadata { finalizers = fs } })
            s.world j in
        rw answered (refl, rw same (removes s.env.metadata.finalizers ephemeral_env_finalizer))

    release_env-Released :
        (x : Result (Unit {0}) × Session (World r))
        → x.0 ≡ ok tt
        → J x.1
        → Released (release_env r x)
    release_env-Released (ok tt, s) h j = remove_finalizer-Released s j
    release_env-Released (err e, s) h j = absurd (ground (arith, h))

    -- Let the cluster answer for namespaces, or say that there is none, and store an environment with
    -- the finalizers that were sent, and let `RemoveFinalizer` remove. Then the deletion of an
    -- environment ends without an error and leaves it without its finalizer, whatever errors the
    -- deletion of routes and releases gives.
    pub handle_deletion-Released :
        (s : Session (World r))
        → Up s.world
        → ((handle_deletion r s).0 ≡ returned (pos 0) none)
          × (r.library.contains_finalizer
                (handle_deletion r s).1.env.metadata.finalizers
                ephemeral_env_finalizer
              ≡ false)
    unfolding handle_deletion
    handle_deletion-Released s up =
        elim (Bool-cases
          (r.library.contains_finalizer s.env.metadata.finalizers ephemeral_env_finalizer)) [
            | inr n ↦ rw n (refl, n)
            | inl y ↦
                let t = (cleanup_dependents r s).1 in
                let up' = (Keeps-cleanup_dependents r J cleans).at s up in
                rw y (
                  release_env-Released (cleanup_namespace r t) (cleanup_namespace-ok t up')
                    ((Keeps-cleanup_namespace r J cleans).at t up'))
          ]
