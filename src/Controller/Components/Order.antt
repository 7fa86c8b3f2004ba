-- ===== src/Controller/Components/Order.antt =====
-- The order of the calls of a deployment.
use kube_ephemerals.Prelude.{String, ◌==◌, Bool, true, false, ◌&&◌, List, [], ◌∷◌, ◌≡◌, refl, arith}
use kube_ephemerals.Exec.{gets, wrapping, pure, ◌>>=◌}
use kube_ephemerals.Exec.Hoare.{Keeps, Keeps-bind, Keeps-wrapping, Keeps-pure}
use kube_ephemerals.Api.Types.{EphemeralEnv, DeployedComponentSpec}
use kube_ephemerals.Helm.Client.{HelmClient}
use kube_ephemerals.Kube.Trace.{
  Call, checked, installed, Reply, not_installed, Event, traced_helm, only_after,
}
use kube_ephemerals.Controller.Base.{Reconciler, Session, World, call, clock, set_status}
use kube_ephemerals.Controller.Traced.{traced_reconciler, on_call, fresh}
use kube_ephemerals.Controller.Components.{
  deploy_component, deploy_components, install_component, lift,
}

-- An installation of this release.
abbrev pub installs : String → String → Call → Bool
installs release namespace (installed n ns) = (n == release) && (ns == namespace)
installs release namespace _ = false

-- The newest call is the question whether this release is installed, with the answer that it is not.
abbrev pub found_missing : String → String → List Event → Bool
found_missing release namespace [] = false
found_missing release namespace (e ∷ log) = answered e.call e.reply
  where
    answered : Call → Reply → Bool
    answered (checked n ns) not_installed = (n == release) && (ns == namespace)
    answered _ _ = false

module _ (r : Reconciler) (helm : HelmClient (World r) r.library.Values)
    (release namespace : String) where
  abbrev Ordered : Session (World (traced_reconciler r)) → Type 0
  Ordered s =
      only_after (found_missing release namespace) (on_call (installs release namespace))
        s.world.log
      ≡ true

  Ordered-deploy_component :
      (ns : String) (c : DeployedComponentSpec)
      → Keeps Ordered (deploy_component (traced_reconciler r) (traced_helm helm) ns c)
  unfolding deploy_component install_component call gets ◌>>=◌ wrapping pure clock set_status lift
  Ordered-deploy_component ns c = record { at = λ s j. ground (arith, j) }

  Ordered-deploy_components :
      (ns : String) (cs : List DeployedComponentSpec)
      → Keeps Ordered (deploy_components (traced_reconciler r) (traced_helm helm) ns cs)
  unfolding deploy_components
  Ordered-deploy_components ns [] = Keeps-pure _
  Ordered-deploy_components ns (c ∷ cs) =
      Keeps-bind (Keeps-wrapping _ (Ordered-deploy_component ns c))
        λ x. Keeps-bind (Ordered-deploy_components ns cs) (λ xs. Keeps-pure _)

  -- In the log of a deployment of components the call before each installation of a release is the
  -- question whether that release is installed, answered with no: a release that is installed, or
  -- of which that is not known, is never installed.
  pub deploy_components-only_after :
      (w : r.client.World) (env : EphemeralEnv) (ns : String) (cs : List DeployedComponentSpec)
      → only_after
          (found_missing release namespace)
          (on_call (installs release namespace))
          (deploy_components
            (traced_reconciler r)
            (traced_helm helm)
            ns
            cs
            (fresh w env)).1.world.log
        ≡ true
  deploy_components-only_after w env ns cs = (Ordered-deploy_components ns cs).at (fresh w env) refl
