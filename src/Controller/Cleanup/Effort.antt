-- ===== src/Controller/Cleanup/Effort.antt =====
-- Cleanups that go on after an error.
use text.Mathlib.TextPositions.{eq_refl}
use kube_ephemerals.Prelude.{
  String, ◌==◌, Bool, true, false, ◌&&◌, ◌||◌, List, [], ◌∷◌, ◌≡◌, refl, arith,
}
use kube_ephemerals.Exec.{Result, ok, attempt, pure, ◌>>=◌}
use kube_ephemerals.Api.Types.{ComponentStatus}
use kube_ephemerals.Helm.Client.{HelmClient}
use kube_ephemerals.Kube.Trace.{Call, checked, uninstalled, Reply, accepted, Event, traced_helm}
use kube_ephemerals.Controller.Base.{Reconciler, Session, World, call}
use kube_ephemerals.Controller.Traced.{traced_reconciler}
use kube_ephemerals.Controller.Cleanup.{ignoring, uninstall_component, uninstall_components}

-- The newest call is the question whether this release is installed, with the answer that it is.
abbrev found_present : String → String → List Event → Bool
found_present release namespace [] = false
found_present release namespace (e ∷ log) = answered e.call e.reply
  where
    answered : Call → Reply → Bool
    answered (checked n ns) accepted = (n == release) && (ns == namespace)
    answered _ _ = false

-- The release was not found to be installed, or its uninstallation was the very next call.
abbrev pub settles : String → String → List Event → Bool
settles release namespace [] = false
settles release namespace (e ∷ log) = by_call e.call e.reply log || settles release namespace log
  where
    by_call : Call → Reply → List Event → Bool
    by_call (checked n ns) accepted rest = false
    by_call (checked n ns) _ rest = (n == release) && (ns == namespace)
    by_call (uninstalled n ns) _ rest =
        (n == release) && (ns == namespace) && found_present release namespace rest
    by_call _ _ rest = false

-- Each tracked component with a release has been settled.
abbrev pub settled_all : String → List ComponentStatus → List Event → Bool
settled_all namespace [] log = true
settled_all namespace (c ∷ cs) log =
    ((c.release_name == "") || settles c.release_name namespace log) && settled_all namespace cs log

module _ (r : Reconciler) (helm : HelmClient (World r) r.library.Values) (namespace : String) where
  abbrev T : Reconciler
  T = traced_reconciler r

  abbrev Settled : List ComponentStatus → Result (Unit {0}) × Session (World T) → Type 0
  Settled cs x = (x.0 ≡ ok tt) × (settled_all namespace cs x.1.world.log ≡ true)

  Settled-one :
      (c : ComponentStatus) (s : Session (World T))
      → Settled (c ∷ []) (uninstall_component T (traced_helm helm) namespace c s)
  unfolding uninstall_component ignoring attempt pure call
  Settled-one c s = (ground arith, ground (arith, eq_refl c.release_name, eq_refl namespace))

  module _ (release ns : String) where
    grows-one :
        (c : ComponentStatus) (s : Session (World T))
        → settles release ns s.world.log ≡ true
        → settles release ns (uninstall_component T (traced_helm helm) namespace c s).1.world.log
          ≡ true
    unfolding uninstall_component ignoring attempt pure call
    grows-one c s h = ground (arith, h)

    grows-all :
        (cs : List ComponentStatus) (s : Session (World T))
        → settles release ns s.world.log ≡ true
        → settles release ns (uninstall_components T (traced_helm helm) namespace cs s).1.world.log
          ≡ true
    unfolding uninstall_components ◌>>=◌ pure
    grows-all [] s h = h
    grows-all (c ∷ cs) s h =
        rw (Settled-one c s).0 (
          grows-all cs (uninstall_component T (traced_helm helm) namespace c s).1 (grows-one c s h))

  -- The uninstallation of tracked components reports no error, and for each component that has a
  -- release it asks whether that is installed; if the answer is that it is, then the very next call is
  -- to uninstall it. So it goes through all of them, whatever fails before or is not known.
  pub uninstall_components-settled :
      (cs : List ComponentStatus) (s : Session (World (traced_reconciler r)))
      → ((uninstall_components (traced_reconciler r) (traced_helm helm) namespace cs s).0 ≡ ok tt)
        × (settled_all namespace cs
              (uninstall_components
                (traced_reconciler r)
                (traced_helm helm)
                namespace
                cs
                s).1.world.log
            ≡ true)
  unfolding uninstall_components ◌>>=◌ pure
  uninstall_components-settled [] s = (refl, refl)
  uninstall_components-settled (c ∷ cs) s =
      let s' = (uninstall_component T (traced_helm helm) namespace c s).1 in
      let (done, settled) = uninstall_components-settled cs s' in
      rw (Settled-one c s).0 (
        done,
        ground (arith, (Settled-one c s).1, settled, grows-all c.release_name namespace cs s'),
      )
