-- ===== src/Controller/Components/Deployed.antt =====
-- What a deployment of components reports.
use kube_ephemerals.Prelude.{String, List, [], ◌∷◌, map, ◌≡◌, ◌∙◌, refl, ap, arith}
use kube_ephemerals.Exec.Hoare.{Keeps}
use kube_ephemerals.Exec.Inversion.{bind-ok, wrapping-ok, ok-injective}
use kube_ephemerals.Controller.Components.Frame.{Keeps-deploy_component}
use kube_ephemerals.Exec.{ok, gets, wrapping, pure, ◌>>=◌}
use kube_ephemerals.Api.Types.{EphemeralEnv, ObjectMeta, DeployedComponentSpec, ComponentStatus}
use kube_ephemerals.Helm.Client.{HelmClient}
use kube_ephemerals.Controller.Base.{Reconciler, Session, World, call, clock, set_status}
use kube_ephemerals.Controller.Components.{
  release_name_of, deploy_component, deploy_components, install_component, status_deployed, lift,
}

-- The name, the release and the state that a status reports.
abbrev pub reported : ComponentStatus → String × String × String
reported st = (st.name, st.release_name, st.status)

abbrev pub deployed_as : EphemeralEnv → DeployedComponentSpec → String × String × String
deployed_as env c = (c.name, release_name_of env c, status_deployed)

same_names :
    (e f : EphemeralEnv) (cs : List DeployedComponentSpec)
    → e.metadata ≡ f.metadata
    → map (deployed_as e) cs ≡ map (deployed_as f) cs
unfolding release_name_of
same_names e f [] h = refl
same_names e f (c ∷ cs) h = ground (arith, ap (λ m. m.name) h, same_names e f cs h)

module _ (r : Reconciler) (helm : HelmClient (World r) r.library.Values) (namespace : String) where
  deploy_component-reports :
      (c : DeployedComponentSpec) (s : Session (World r)) (st : ComponentStatus)
      → (deploy_component r helm namespace c s).0 ≡ ok st
      → reported st ≡ deployed_as s.env c
  unfolding deploy_component install_component call gets ◌>>=◌ wrapping pure clock set_status lift
  deploy_component-reports c s st h = ground (arith, h)

  same_name :
      (m : ObjectMeta) (c : DeployedComponentSpec)
      → Keeps (λ t. t.env.metadata ≡ m) (deploy_component r helm namespace c)
  same_name m =
      Keeps-deploy_component r (λ t. t.env.metadata ≡ m) helm
        (record { checks = λ n ns t j. j; installs = λ o t j. j })
        (record { clocked = λ t j. j; restatus = λ f minor t j. j }) namespace

  -- If a deployment succeeds, then it reports each component once, in order: under its own name, with
  -- the release name that the environment gives it, as deployed.
  pub deploy_components-reports :
      (cs : List DeployedComponentSpec) (s : Session (World r)) (sts : List ComponentStatus)
      → (deploy_components r helm namespace cs s).0 ≡ ok sts
      → map reported sts ≡ map (deployed_as s.env) cs
  unfolding deploy_components pure
  deploy_components-reports [] s sts h = ground (arith, h)
  deploy_components-reports (c ∷ cs) s sts h =
      let (st, first, h₁) = bind-ok (wrapping _ (deploy_component r helm namespace c)) _ s sts h in
      let (first', same) = wrapping-ok _ (deploy_component r helm namespace c) s st first in
      let s' = (wrapping _ (deploy_component r helm namespace c) s).1 in
      let (sts', rest, last) =
        bind-ok (deploy_components r helm namespace cs) (λ xs. pure (st ∷ xs)) s' sts h₁ in
      let kept = ap (λ x. x.env.metadata) same ∙ (same_name s.env.metadata c).at s refl in
      rw (← ok-injective _ _ last) (
        rw (deploy_component-reports c s st first') (
          ap (λ xs. deployed_as s.env c ∷ xs)
            (deploy_components-reports cs s' sts' rest ∙ same_names s'.env s.env cs kept)))
