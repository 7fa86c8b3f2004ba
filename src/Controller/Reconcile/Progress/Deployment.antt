-- ===== src/Controller/Reconcile/Progress/Deployment.antt =====
-- A deployment succeeds where the Helm client does and the values of the components parse.
use kube_ephemerals.Prelude.{
  String, Bool, true, Option, none, some, List, [], ◌∷◌, ◌&&◌, length, ◌≡◌, ◌≢◌, refl, sym, ap, ◌∙◌,
  arith,
}
use kube_ephemerals.Exec.{is_ok, Result, ok, err, ◌>>=◌}
use kube_ephemerals.Exec.Inversion.{ok-injective}
use kube_ephemerals.Exec.Works.{
  Works, Works-pure, Works-if, Works-wrapping, Works-bind, Works-gets, Works-given,
}
use kube_ephemerals.Api.Types.{DeployedComponentSpec}
use kube_ephemerals.Helm.Client.{HelmClient}
use kube_ephemerals.Controller.Base.{Reconciler, Session, World}
use kube_ephemerals.Controller.Components.{
  parse_values, lift, install_component, deploy_component, deploy_components, release_all,
  resolve_components, ensure_helm_release,
}
use kube_ephemerals.Controller.Components.Frame.{Keeps-resolve_components, Keeps-release_all}
use kube_ephemerals.Controller.Reconcile.{deploy_resolved, deploy_with, deploy}
use kube_ephemerals.Controller.Reconcile.Frame.{Keeps-deploy_resolved}
use kube_ephemerals.Controller.Reconcile.Progress.{
  Works-call, Works-clock, Works-set_status, Works-set_condition, Serves,
}

-- The values of every component are absent, empty or parse.
abbrev pub all_parse : Reconciler → List DeployedComponentSpec → Bool
all_parse r [] = true
all_parse r (c ∷ cs) = is_ok (parse_values r c.values) && all_parse r cs

module _ (r : Reconciler) (J : Session (World r) → Type 0) (serves : Serves r J)
    (helm : HelmClient (World r) r.library.Values) (is_set : r.helm_client ≡ some helm) where
  Works-lift : {A : Type 0} (x : Result A) → is_ok x ≡ true → Works J (lift r x)
  unfolding lift
  Works-lift (ok a) h = record { keeps = record { at = λ s j. j }; succeeds = λ s j. (a, refl) }
  Works-lift (err e) h = absurd (ground (arith, h))

  Works-install_component :
      (n ns : String) (c : DeployedComponentSpec)
      → is_ok (parse_values r c.values) ≡ true
      → Works J (install_component r helm n ns c)
  unfolding install_component
  Works-install_component n ns c parses =
      Works-bind (Works-lift (parse_values r c.values) parses) λ values.
        Works-bind
          (Works-wrapping _ (
            Works-call J _ ((serves.provisions.deploys helm is_set).installs _)
              (serves.installing helm is_set _)))
          λ info. Works-bind (Works-clock r J serves.provisions.notes) λ now.
            Works-bind
              (Works-set_status J _ (
                serves.provisions.notes.restatus _
                  (λ st. (ground arith, ground arith, ground arith))))
              (λ _. Works-pure _)

  Works-deploy_component :
      (ns : String) (c : DeployedComponentSpec)
      → is_ok (parse_values r c.values) ≡ true
      → Works J (deploy_component r helm ns c)
  unfolding deploy_component
  Works-deploy_component ns c parses = Works-gets _ λ env.
      Works-bind
        (Works-wrapping _ (
          Works-call J _ ((serves.provisions.deploys helm is_set).checks _ _)
            (serves.checking helm is_set _ _)))
        λ b. Works-if b (Works-pure _) (Works-install_component _ ns c parses)

  Works-deploy_components :
      (ns : String) (cs : List DeployedComponentSpec)
      → all_parse r cs ≡ true
      → Works J (deploy_components r helm ns cs)
  unfolding deploy_components
  Works-deploy_components ns [] parses = Works-pure _
  Works-deploy_components ns (c ∷ cs) parses =
      Works-bind (Works-wrapping _ (Works-deploy_component ns c (ground (arith, parses)))) λ x.
        Works-bind (Works-deploy_components ns cs (ground (arith, parses))) (λ xs. Works-pure _)

  pub Works-release_all :
      (c : DeployedComponentSpec) (cs : List DeployedComponentSpec)
      → all_parse r (c ∷ cs) ≡ true
      → Works J (release_all r helm (c ∷ cs))
  unfolding release_all
  Works-release_all c cs parses = Works-gets _ λ env.
      Works-bind (Works-deploy_components _ (c ∷ cs) parses) λ xs.
        Works-bind
          (Works-set_status J _ (serves.provisions.notes.restatus _ (λ st. (refl, refl, refl))))
          (λ _. Works-set_condition r J _ _ _ _ serves.provisions.notes)

-- The components resolve alike whenever the invariant holds, so the second resolution of a
-- deployment gives what the first gave.
module _ (r : Reconciler) (J : Session (World r) → Type 0) (serves : Serves r J)
    (components : List DeployedComponentSpec)
    (resolves : (s : Session (World r)) → J s → (resolve_components r s).0 ≡ ok components) where
  Works-resolve_components : Works J (resolve_components r)
  Works-resolve_components = record {
    keeps = Keeps-resolve_components r J serves.provisions.reads;
    succeeds = λ s j. (components, resolves s j);
  }

  resolved :
      (s : Session (World r))
      → J s
      → (cs : List DeployedComponentSpec) → (resolve_components r s).0 ≡ ok cs
      → cs ≡ components
  resolved s j cs e = ok-injective _ _ (sym e ∙ resolves s j)

  module _ (helm : HelmClient (World r) r.library.Values) (is_set : r.helm_client ≡ some helm)
      (parses : all_parse r components ≡ true) where
    Works-released :
        (cs : List DeployedComponentSpec)
        → cs ≡ components
        → (length cs ≢ 0)
        → Works J (release_all r helm cs)
    Works-released [] e n = absurd (n refl)
    Works-released (c ∷ cs) e n =
        Works-release_all r J serves helm is_set c cs (ap (all_parse r) e ∙ parses)

    Works-ensure_helm_release : length components ≢ 0 → Works J (ensure_helm_release r helm)
    unfolding ensure_helm_release
    Works-ensure_helm_release n =
        Works-given (λ cs. cs ≡ components) Works-resolve_components resolved
          (Keeps-release_all r J helm (serves.provisions.deploys helm is_set)
            serves.provisions.notes)
          (λ cs e. Works-released cs e (λ z. n (ap length (sym e) ∙ z)))

    Works-deploy_resolved :
        (cs : List DeployedComponentSpec) → cs ≡ components → Works J (deploy_resolved r helm cs)
    Works-deploy_resolved [] e = record {
      keeps = record { at = λ s j. j };
      succeeds = λ s j. (tt, refl);
    }
    Works-deploy_resolved (c ∷ cs) e =
        let works = Works-ensure_helm_release (λ z. absurd (ground (arith, ap length e ∙ z))) in
        record {
          keeps = record { at = λ s j. works.keeps.at s j };
          succeeds = λ s j. works.succeeds s j;
        }

    Works-resolve_and_deploy : Works J (do cs ← resolve_components r; deploy_resolved r helm cs)
    Works-resolve_and_deploy =
        Works-given (λ cs. cs ≡ components) Works-resolve_components resolved
          (Keeps-deploy_resolved r J serves.provisions helm is_set) Works-deploy_resolved

  Works-deploy_with :
      (o : Option (HelmClient (World r) r.library.Values))
      → r.helm_client ≡ o
      → all_parse r components ≡ true
      → Works J (deploy_with r o)
  Works-deploy_with none e parses = record {
    keeps = record { at = λ s j. j };
    succeeds = λ s j. (tt, refl);
  }
  Works-deploy_with (some helm) e parses = record {
    keeps = record { at = λ s j. (Works-resolve_and_deploy helm e parses).keeps.at s j };
    succeeds = λ s j. (Works-resolve_and_deploy helm e parses).succeeds s j;
  }

  pub Works-deploy : all_parse r components ≡ true → Works J (deploy r)
  unfolding deploy
  Works-deploy parses = Works-deploy_with r.helm_client refl parses
