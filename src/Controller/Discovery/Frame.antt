-- ===== src/Controller/Discovery/Frame.antt =====
-- Discovering a service touches the world by listing services and reading templates.
use kube_ephemerals.Prelude.{ℕ, String, Option, none, some, List, [], ◌∷◌, arith}
use kube_ephemerals.Exec.{Result, ok, err}
use kube_ephemerals.Exec.Hoare.{
  Keeps, Keeps-pure, Keeps-raise, Keeps-gets, Keeps-wrapping, Keeps-bind, Keeps-attempt,
}
use kube_ephemerals.Api.Types.{TemplateReference}
use kube_ephemerals.Api.Template.{EnvironmentTemplate}
use kube_ephemerals.Kube.Objects.{Service}
use kube_ephemerals.Controller.Base.{Reconciler, Session, World}
use kube_ephemerals.Controller.Frame.{Stable, Keeps-call}
use kube_ephemerals.Controller.Components.Frame.{ReadsTemplates, Keeps-get_template}
use kube_ephemerals.Controller.Discovery.{
  by_template, by_reference, by_primary, get_primary_component_name, shortest, or_shortest,
  first_named, select_service, choose_service, discover_service,
}

abbrev pub ListsServices : (r : Reconciler) → (Session (World r) → Type 0) → Type 0
ListsServices r J = (ns : String) → Stable J (r.client.list_services ns)

module _ (r : Reconciler) (J : Session (World r) → Type 0) (reads : ReadsTemplates r J) where
  Keeps-by_template : (x : Result EnvironmentTemplate) → Keeps J (by_template r x)
  Keeps-by_template (ok t) = record { at = λ s j. j }
  Keeps-by_template (err e) = record { at = λ s j. j }

  Keeps-by_reference : (o : Option TemplateReference) → Keeps J (by_reference r o)
  Keeps-by_reference none = record { at = λ s j. j }
  Keeps-by_reference (some _) = record {
    at = λ s j. (Keeps-attempt (Keeps-get_template r J reads) Keeps-by_template).at s j;
  }

  Keeps-by_primary : (o : Option String) → Keeps J (by_primary r o)
  Keeps-by_primary none = record { at = λ s j. (Keeps-by_reference _).at s j }
  Keeps-by_primary (some _) = record { at = λ s j. j }

  Keeps-get_primary_component_name : Keeps J (get_primary_component_name r)
  unfolding get_primary_component_name
  Keeps-get_primary_component_name = record { at = λ s j. (Keeps-by_primary _).at s j }

  Keeps-shortest : (l : List Service) → Keeps J (shortest r l)
  Keeps-shortest [] = record { at = λ s j. j }
  Keeps-shortest (_ ∷ _) = record { at = λ s j. j }

  Keeps-or_shortest : (o : Option String) (l : List Service) → Keeps J (or_shortest r o l)
  Keeps-or_shortest none l = record { at = λ s j. (Keeps-shortest l).at s j }
  Keeps-or_shortest (some _) l = record { at = λ s j. j }

  Keeps-select_service :
      (component : String) (l : List Service) → Keeps J (select_service r component l)
  unfolding select_service
  Keeps-select_service component l = record {
    at = λ s j. ground (
      arith,
      (Keeps-shortest l).at s j,
      (Keeps-or_shortest (first_named r component l) l).at s j,
    );
  }

  Keeps-choose_service :
      (port : ℕ) (ns : String) (l : List Service) → Keeps J (choose_service r port ns l)
  unfolding choose_service
  Keeps-choose_service port ns [] = Keeps-raise _
  Keeps-choose_service port ns (a ∷ []) = Keeps-pure _
  Keeps-choose_service port ns (a ∷ b ∷ l) =
      Keeps-bind Keeps-get_primary_component_name (λ c. Keeps-select_service c _)

  pub Keeps-discover_service : ListsServices r J → (port : ℕ) → Keeps J (discover_service r port)
  unfolding discover_service
  Keeps-discover_service lists port = Keeps-bind (Keeps-gets _) λ e.
      Keeps-bind (Keeps-wrapping _ (Keeps-call J _ (lists _))) (λ l. Keeps-choose_service port _ _)
