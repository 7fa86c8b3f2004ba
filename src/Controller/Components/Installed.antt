-- ===== src/Controller/Components/Installed.antt =====
-- After a deployment the releases are there, by what the Helm client promises.
use kube_ephemerals.Prelude.{
  ℕ, ◌<◌, String, Bool, true, false, Option, List, [], ◌∷◌, ◌≡◌, ◌∙◌, refl, ap, arith,
  if◌then◌else◌,
}
use kube_ephemerals.Exec.{ok, gets, wrapping, pure, ◌>>=◌}
use kube_ephemerals.Exec.Hoare.{Keeps, Keeps-bind, Keeps-pure}
use kube_ephemerals.Exec.Reaches.{
  Reaches, bind-reaches, Reaches-after, Reaches-then, Reaches-wrapping,
}
use kube_ephemerals.Exec.Inversion.{wrapping-ok}
use kube_ephemerals.Api.Types.{ObjectMeta, DeployedComponentSpec, ComponentStatus, EphemeralEnv}
use kube_ephemerals.Helm.Client.{HelmClient}
use kube_ephemerals.Helm.Store.{ReleaseStore}
use kube_ephemerals.Controller.Base.{Reconciler, Session, World, call}
use kube_ephemerals.Controller.Frame.{Notes, Keeps-clock, Keeps-set_status}
use kube_ephemerals.Controller.Components.{
  release_name_of, deploy_component, deploy_components, install_component, install_options,
  already_installed,
}
use kube_ephemerals.Controller.Components.Frame.{
  Deploys, Keeps-deploy_component, Keeps-deploy_components,
}

module _ (r : Reconciler) (helm : HelmClient (World r) r.library.Values)
    (revision : World r → String → String → ℕ) (store : ReleaseStore revision helm)
    (clock_reads : (w : World r) (n ns : String)
      → revision (r.client.now w).1 n ns ≡ revision w n ns)
    (namespace : String) where
  abbrev Present : String → Session (World r) → Type 0
  Present n s = 0 < revision s.world n namespace

  deploys : (n : String) → Deploys r (Present n) helm
  deploys n = record {
    checks = λ m ms s there. rw (store.checks_read m ms s.world n namespace) there;
    installs = λ o s there. store.installs_grow o s.world n namespace there;
  }

  notes : (n : String) → Notes r (Present n)
  notes n = record {
    clocked = λ s there. rw (clock_reads s.world n namespace) there;
    restatus = λ f minor s there. there;
  }

  -- A release that is there stays there.
  stays :
      (n : String) (c : DeployedComponentSpec)
      → Keeps (Present n) (deploy_component r helm namespace c)
  stays n c = Keeps-deploy_component r (Present n) helm (deploys n) (notes n) namespace c

  call_install-Reaches :
      (n : String) (c : DeployedComponentSpec) (values : Option r.library.Values)
      → Reaches (Present n) (call (helm.install (install_options r n namespace c values)))
  unfolding call
  call_install-Reaches n c values s info h =
      let added = store.installs (install_options r n namespace c values) s.world info h in
      ground (arith, added)

  install_component-Reaches :
      (n : String) (c : DeployedComponentSpec)
      → Reaches (Present n) (install_component r helm n namespace c)
  unfolding install_component
  install_component-Reaches n c = Reaches-after (Present n) _ _ (λ values.
      Reaches-then (Present n) _ _
        (Reaches-wrapping (Present n) _ _ (call_install-Reaches n c values))
        (λ info. Keeps-bind (Keeps-clock r (Present n) (notes n)) (λ now.
          Keeps-bind
            (Keeps-set_status (Present n) (notes n).restatus _
              (λ st. (ground arith, ground arith, ground arith)))
            (λ _. Keeps-pure _))))

  -- The answer that a release is installed is to be believed.
  checked-Present :
      (prefix n : String) (s : Session (World r))
      → (wrapping prefix (call (helm.is_installed n namespace)) s).0 ≡ ok true
      → Present n (wrapping prefix (call (helm.is_installed n namespace)) s).1
  unfolding call
  checked-Present prefix n s h =
      let (h', same) = wrapping-ok prefix (call (helm.is_installed n namespace)) s true h in
      let sound = store.checks_sound n namespace s.world h' in
      let read = store.checks_read n namespace s.world n namespace in rw (same, read) sound

  -- A release that was not there is installed.
  by_answer :
      (n : String) (c : DeployedComponentSpec) (installed : Bool) (s : Session (World r))
      → (installed ≡ true → Present n s)
      → (st : ComponentStatus)
      → ((if installed
            then pure (already_installed r n c)
            else install_component r helm n namespace c)
          s).0
        ≡ ok st
      → Present n
          ((if installed
              then pure (already_installed r n c)
              else install_component r helm n namespace c)
            s).1
  unfolding pure
  by_answer n c true s there st h = there refl
  by_answer n c false s there st h = install_component-Reaches n c s st h

  deploy_component-installs :
      (c : DeployedComponentSpec) (s : Session (World r)) (st : ComponentStatus)
      → (deploy_component r helm namespace c s).0 ≡ ok st
      → Present (release_name_of s.env c) (deploy_component r helm namespace c s).1
  unfolding deploy_component gets ◌>>=◌
  deploy_component-installs c s =
      let n = release_name_of s.env c in
      bind-reaches (Present n) (wrapping _ (call (helm.is_installed n namespace))) _ s
        (λ installed answered.
          by_answer n c installed _ (λ yes. checked-Present _ n s (answered ∙ ap ok yes)))

  -- The names of the releases stay, since the environment keeps its name.
  same_name :
      (m : ObjectMeta) (c : DeployedComponentSpec)
      → Keeps (λ s. s.env.metadata ≡ m) (deploy_component r helm namespace c)
  same_name m c =
      Keeps-deploy_component r (λ s. s.env.metadata ≡ m) helm
        (record { checks = λ n ns s same. same; installs = λ o s same. same })
        (record { clocked = λ s same. same; restatus = λ f minor s same. same }) namespace c

  release_name_of-metadata :
      (e f : EphemeralEnv) (c : DeployedComponentSpec)
      → e.metadata ≡ f.metadata
      → release_name_of e c ≡ release_name_of f c
  unfolding release_name_of
  release_name_of-metadata e f c same = ground (arith, ap (λ m. m.name) same)

  abbrev pub AllPresent : EphemeralEnv → List DeployedComponentSpec → World r → Type 0
  AllPresent env [] w = Unit {0}
  AllPresent env (c ∷ cs) w =
      (0 < revision w (release_name_of env c) namespace) × AllPresent env cs w

  deploy_components-stays :
      (n : String) (cs : List DeployedComponentSpec)
      → Keeps (Present n) (deploy_components r helm namespace cs)
  deploy_components-stays n cs =
      Keeps-deploy_components r (Present n) helm (deploys n) (notes n) namespace cs

  AllPresent-metadata :
      (e f : EphemeralEnv) (cs : List DeployedComponentSpec) (w : World r)
      → e.metadata ≡ f.metadata
      → AllPresent e cs w
      → AllPresent f cs w
  AllPresent-metadata e f [] w same all = tt
  AllPresent-metadata e f (c ∷ cs) w same (there, all) =
      (rw (← release_name_of-metadata e f c same) there, AllPresent-metadata e f cs w same all)

  -- After a deployment that succeeds every component's release is there, in the namespace of the
  -- deployment and under the name that the environment gives it, if the Helm client implements a store
  -- of releases and the clock does not touch them.
  pub deploy_components-AllPresent :
      (cs : List DeployedComponentSpec) (s : Session (World r)) (sts : List ComponentStatus)
      → (deploy_components r helm namespace cs s).0 ≡ ok sts
      → AllPresent s.env cs (deploy_components r helm namespace cs s).1.world
  unfolding deploy_components pure
  deploy_components-AllPresent [] s sts h = tt
  deploy_components-AllPresent (c ∷ cs) s sts h =
      bind-reaches holds (wrapping _ (deploy_component r helm namespace c)) _ s
        (λ st first.
          let s' = (wrapping _ (deploy_component r helm namespace c) s).1 in
          let (first', same) = wrapping-ok _ (deploy_component r helm namespace c) s st first in
          let there = deploy_component-installs c s st first' in
          bind-reaches holds (deploy_components r helm namespace cs) _ s' (λ statuses rest _ _. (
            (deploy_components-stays (release_name_of s.env c) cs).at s' (rw same there),
            AllPresent-metadata s'.env s.env cs _
                (ap (λ x. x.env.metadata) same ∙ (same_name s.env.metadata c).at s refl)
                (deploy_components-AllPresent cs s' statuses rest),
          )))
        sts h
    where
      holds : Session (World r) → Type 0
      holds t = AllPresent s.env (c ∷ cs) t.world
