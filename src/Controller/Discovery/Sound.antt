-- ===== src/Controller/Discovery/Sound.antt =====
-- Which service is discovered.
use text.Mathlib.TextPositions.{eq_refl}
use kube_ephemerals.Prelude.{
  ℕ, String, ◌==◌, Bool, true, ◌&&◌, Option, none, some, List, [], ◌∷◌, any, Bool-cases, inl, inr,
  ◌≡◌, refl, sym, ◌∙◌, arith,
}
use kube_ephemerals.Exec.Inversion.{bind-ok, wrapping-ok, ok-injective}
use kube_ephemerals.Exec.{Result, ok, err, gets, wrapping, pure, raise, attempt, continue, ◌>>=◌}
use kube_ephemerals.Api.Types.{TemplateReference}
use kube_ephemerals.Api.Template.{EnvironmentTemplate}
use kube_ephemerals.Kube.Objects.{Service}
use kube_ephemerals.Kube.Library.{Library}
use kube_ephemerals.Controller.Base.{Reconciler, Session, World, call}
use kube_ephemerals.Controller.Components.{get_template}
use kube_ephemerals.Controller.Discovery.{
  discover_service, choose_service, select_service, matching_services, is_eligible, first_named,
  get_primary_component_name, shorter_name, or_shortest, primary_name, by_primary, by_reference,
  by_template,
}

-- `sort.Slice` keeps the elements.
abbrev pub SortKeeps : Library → Type 1
SortKeeps library =
    (A : Type 0) (less : A → A → Bool) (p : A → Bool) (xs : List A)
    → any p (library.sort_slice A less xs) ≡ any p xs

module _ (r : Reconciler) (port : ℕ) where
  -- An eligible service of this name.
  abbrev pub is_target : String → Service → Bool
  is_target name svc = is_eligible r port svc && (svc.name == name)

  abbrev has_name : String → Service → Bool
  has_name name svc = svc.name == name

  matching-target :
      (name : String) (svcs : List Service)
      → any (has_name name) (matching_services r port svcs) ≡ any (is_target name) svcs
  unfolding matching_services
  matching-target name [] = refl
  matching-target name (svc ∷ svcs) = ground (arith, matching-target name svcs)

  first_named-has :
      (component name : String) (svcs : List Service)
      → first_named r component svcs ≡ some name
      → any (has_name name) svcs ≡ true
  unfolding first_named
  first_named-has component name [] h = ground (arith, h)
  first_named-has component name (svc ∷ svcs) h =
      ground (arith, h, first_named-has component name svcs, eq_refl svc.name)

  select_service-has :
      (component name : String) (svcs : List Service) (s : Session (World r))
      → (select_service r component svcs s).0 ≡ ok name
      → any (has_name name) svcs ≡ true
  unfolding select_service
  select_service-has component name [] s h = ground (arith, h, first_named-has component name [])
  select_service-has component name (svc ∷ svcs) s h =
      ground (arith, h, first_named-has component name (svc ∷ svcs), eq_refl svc.name)

  module _ (sorts : SortKeeps r.library) where
    choose_service-has :
        (namespace name : String) (svcs : List Service) (s : Session (World r))
        → (choose_service r port namespace svcs s).0 ≡ ok name
        → any (has_name name) svcs ≡ true
    unfolding choose_service raise pure ◌>>=◌
    choose_service-has namespace name [] s h = ground (arith, h)
    choose_service-has namespace name (svc ∷ []) s h = ground (arith, h, eq_refl svc.name)
    choose_service-has namespace name (svc ∷ svc' ∷ svcs) s h =
        sym (sorts Service (shorter_name r) (has_name name) (svc ∷ svc' ∷ svcs))
        ∙ by_name (get_primary_component_name r s) h
      where
        by_name :
            (x : Result String × Session (World r))
            → (continue
                (λ component.
                  select_service r component
                    (r.library.sort_slice Service (shorter_name r) (svc ∷ svc' ∷ svcs)))
                x).0
              ≡ ok name
            → any
                (has_name name)
                (r.library.sort_slice Service (shorter_name r) (svc ∷ svc' ∷ svcs))
              ≡ true
        by_name (ok component, t) h = select_service-has component name _ t h
        by_name (err e, t) h = ground (arith, h)

    -- Where `sort.Slice` keeps the elements: if the services of the environment's namespace were listed
    -- and one is discovered, then a service of that name is among them, and it is eligible: it is not
    -- headless, not an external name, has no "metrics" in its name, and exposes the port.
    pub discover_service_sound :
        (s : Session (World r)) (services : List Service) (name : String)
        → (r.client.list_services s.env.status.active_namespace s.world).0 ≡ ok services
        → (discover_service r port s).0 ≡ ok name
        → any (is_target name) services ≡ true
    unfolding discover_service gets ◌>>=◌ call
    discover_service_sound s services name listed h =
        let namespace = s.env.status.active_namespace in
        let (found, first, chosen) =
          bind-ok (wrapping _ (call (r.client.list_services namespace))) _ s name h in
        let (first', _) = wrapping-ok _ (call (r.client.list_services namespace)) s found first in
        let same : found ≡ services = ok-injective _ _ (sym first' ∙ listed) in
        sym (matching-target name services)
        ∙ rw (← same) (choose_service-has namespace name (matching_services r port found) _ chosen)

    resolved :
        (o : Option TemplateReference) (s : Session (World r))
        → (c : String) × ((by_reference r o s).0 ≡ ok c)
    unfolding attempt
    resolved none s = (_, refl)
    resolved (some t) s = by_result (get_template r s)
      where
        by_result :
            (x : Result EnvironmentTemplate × Session (World r))
            → (c : String) × ((by_template r x.0 x.1).0 ≡ ok c)
        by_result (ok t, s) = (_, refl)
        by_result (err e, s) = (_, refl)

    -- The primary component's name is always found, if only as the empty name.
    get_primary_component_name-ok :
        (s : Session (World r)) → (c : String) × ((get_primary_component_name r s).0 ≡ ok c)
    unfolding get_primary_component_name
    get_primary_component_name-ok s = by_name (primary_name s.env.spec.components)
      where
        by_name : (o : Option String) → (c : String) × ((by_primary r o s).0 ≡ ok c)
        by_name none = resolved s.env.spec.template_ref s
        by_name (some name) = (name, refl)

    select_service-ok :
        (component : String) (svcs : List Service) (s : Session (World r))
        → any (λ _. true) svcs ≡ true
        → (name : String) × ((select_service r component svcs s).0 ≡ ok name)
    unfolding select_service
    select_service-ok component [] s h = absurd (ground (arith, h))
    select_service-ok component (svc ∷ svcs) s h = elim (Bool-cases (component == "")) [
      | inl y ↦ rw y (svc.name, refl)
      | inr n ↦ rw n (by_name (first_named r component (svc ∷ svcs)))
    ]
      where
        by_name :
            (o : Option String) → (name : String) × ((or_shortest r o (svc ∷ svcs) s).0 ≡ ok name)
        by_name none = (svc.name, refl)
        by_name (some name) = (name, refl)

    choose_service-ok :
        (namespace : String) (svcs : List Service) (s : Session (World r))
        → any (λ _. true) svcs ≡ true
        → (name : String) × ((choose_service r port namespace svcs s).0 ≡ ok name)
    unfolding choose_service pure ◌>>=◌
    choose_service-ok namespace [] s h = absurd (ground (arith, h))
    choose_service-ok namespace (svc ∷ []) s h = (svc.name, refl)
    choose_service-ok namespace (svc ∷ svc' ∷ svcs) s h =
        let (component, e) = get_primary_component_name-ok s in
        rw e (
          select_service-ok component _ (get_primary_component_name r s).1
            (sorts Service (shorter_name r) (λ _. true) (svc ∷ svc' ∷ svcs)))

    matching-any :
        (svcs : List Service)
        → any (is_eligible r port) svcs ≡ true
        → any (λ _. true) (matching_services r port svcs) ≡ true
    unfolding matching_services
    matching-any [] h = h
    matching-any (svc ∷ svcs) h = ground (arith, h, matching-any svcs)

    -- Where `sort.Slice` keeps the elements: if the services of the environment's namespace were listed
    -- and one of them is eligible, then a service is discovered, whatever becomes of the environment's
    -- template.
    pub discover_service_complete :
        (s : Session (World r)) (services : List Service)
        → (r.client.list_services s.env.status.active_namespace s.world).0 ≡ ok services
        → any (is_eligible r port) services ≡ true
        → (name : String) × ((discover_service r port s).0 ≡ ok name)
    unfolding discover_service gets ◌>>=◌ call wrapping
    discover_service_complete s services listed h = rw listed (
        choose_service-ok s.env.status.active_namespace (matching_services r port services) _
          (matching-any services h))
