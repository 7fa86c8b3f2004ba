-- ===== src/Ui/Templates/Valid.antt =====
-- The templates that `handleCreateTemplate` stores, and their answers.
use kube_ephemerals.Prelude.{
  String, ◌==◌, false, none, some, List, [], ◌∷◌, map, ◌≡◌, ◌⊎◌, ◌≢◌, refl, ap, Bool-cases, inl,
  inr, arith, eq_iff,
}
use kube_ephemerals.Prelude.Text.{not_empty}
use kube_ephemerals.Exec.Hoare.{Keeps}
use kube_ephemerals.Api.Template.{EnvironmentTemplate, ComponentSpec}
use kube_ephemerals.Ui.Http.{Request}
use kube_ephemerals.Ui.Respond.{
  Server, Exchange, CreateComponentRequest, CreateTemplateRequest, ComponentApiResponse,
  TemplateApiResponse,
}
use kube_ephemerals.Ui.Frame.{Preserves, Preserves-answer, Preserves-calling, Preserves-checked}
use kube_ephemerals.Ui.Templates.{convert_template_to_api_response, convert_component}
use kube_ephemerals.Ui.Templates.Create.{
  handle_create_template, create_with, create_components, create_checked, components_of,
  component_of, is_incomplete, cons_if, new_template, or_value,
}

pub record Complete (c : ComponentSpec) : Type 0 where
  pub has_name : c.name ≢ ""
  pub has_repository : c.repository ≢ ""
  pub has_chart : c.chart ≢ ""

abbrev pub AllComplete : List ComponentSpec → Type 0
AllComplete [] = Unit {0}
AllComplete (c ∷ cs) = Complete c × AllComplete cs

pub record Valid (t : EnvironmentTemplate) : Type 0 where
  pub has_name : t.metadata.name ≢ ""
  pub has_namespace : t.metadata.namespace ≢ ""
  pub has_display_name : t.spec.display_name ≢ ""
  pub has_ttl : t.spec.default_ttl ≢ ""
  pub has_components : t.spec.components ≢ []
  pub complete : AllComplete t.spec.components

is_incomplete-Complete :
    (c : CreateComponentRequest) → is_incomplete c ≡ false → Complete (component_of c)
is_incomplete-Complete c h = record {
  has_name = ground (arith, h, eq_iff c.name "");
  has_repository = ground (arith, h, eq_iff c.repository "");
  has_chart = ground (arith, h, eq_iff c.chart "");
}

or_value-nonempty : (default v : String) → default ≢ "" → or_value default v ≢ ""
or_value-nonempty default v h = ground (arith, h, eq_iff v "")

some_cons :
    (c : ComponentSpec) (cs : List CreateComponentRequest)
    → components_of cs ≡ some (map component_of cs)
    → cons_if c (components_of cs) ≡ some (c ∷ map component_of cs)
some_cons c cs h = rw h refl

-- The loop stops at an incomplete component, or converts all of them.
components_of-cases :
    (cs : List CreateComponentRequest)
    → (components_of cs ≡ none)
      ⊎ ((components_of cs ≡ some (map component_of cs)) × AllComplete (map component_of cs))
unfolding components_of
components_of-cases [] = inr (refl, tt)
components_of-cases (c ∷ cs) = elim (Bool-cases (is_incomplete c)) [
  | inl incomplete ↦ inl (rw incomplete refl)
  | inr full ↦ elim (components_of-cases cs) [
    | inl stopped ↦ inl (rw (full, stopped) refl)
    | inr (all, complete) ↦
        inr (rw full (some_cons (component_of c) cs all), (is_incomplete-Complete c full, complete))
  ]
]

new_template-Valid :
    (req : CreateTemplateRequest) (c : CreateComponentRequest) (cs : List CreateComponentRequest)
    → (req.name == "") ≡ false
    → AllComplete (map component_of (c ∷ cs))
    → Valid (new_template req (map component_of (c ∷ cs)))
unfolding new_template
new_template-Valid req c cs named complete =
    let has_name : req.name ≢ "" = not_empty req.name named in
    record {
      has_name = has_name;
      has_namespace =
          or_value-nonempty "ephemeral-system" req.namespace (not_empty "ephemeral-system" refl);
      has_display_name = or_value-nonempty req.name req.display_name has_name;
      has_ttl = or_value-nonempty "1h" req.default_ttl (not_empty "1h" refl);
      has_components = ground arith;
      complete = complete;
    }

module _ (s : Server) (holds : s.World → Type 0)
    (on_create : (t : EnvironmentTemplate)
      → Valid t
      → Keeps holds (s.client.create_template t)) where
  create_with-keeps :
      (req : CreateTemplateRequest) (c : CreateComponentRequest) (cs : List CreateComponentRequest)
      → (req.name == "") ≡ false
      → Preserves holds (create_with s req (components_of (c ∷ cs)))
  create_with-keeps req c cs named = elim (components_of-cases (c ∷ cs)) [
    | inl stopped ↦ rw stopped (Preserves-answer _)
    | inr (all, complete) ↦ rw all (
        Preserves-calling (on_create _ (new_template-Valid req c cs named complete))
          (λ _. Preserves-answer _) (λ stored. Preserves-answer _))
  ]

  create_components-keeps :
      (req : CreateTemplateRequest) (cs : List CreateComponentRequest)
      → (req.name == "") ≡ false
      → Preserves holds (create_components s req cs)
  create_components-keeps req [] named = Preserves-answer _
  create_components-keeps req (c ∷ cs) named = create_with-keeps req c cs named

  create_checked-keeps : (req : CreateTemplateRequest) → Preserves holds (create_checked s req)
  create_checked-keeps req = elim (Bool-cases (req.name == "")) [
    | inl unnamed ↦ rw unnamed (Preserves-answer _)
    | inr named ↦ rw named (create_components-keeps req req.components named)
  ]

-- What is kept by the creation of each valid template, one with a name, a namespace, a display name,
-- a lifetime and at least one component, each with a name, a repository and a chart, is kept by the
-- handler that creates templates, whatever the request's body: it creates no other.
pub handle_create_template-Valid :
    (s : Server) (holds : s.World → Type 0)
    → ((t : EnvironmentTemplate) → Valid t → Keeps holds (s.client.create_template t))
    → (r : Request) (x : Exchange s.World) → holds x.world
    → holds (handle_create_template s r x).world
unfolding handle_create_template
handle_create_template-Valid s holds on_create r =
    (Preserves-checked (s.decode_template r.body) (λ _. Preserves-answer _)
      (λ req _. create_checked-keeps s holds on_create req)).at

-- The request that a response would answer.
abbrev pub request_component : ComponentApiResponse → CreateComponentRequest
request_component c = record {
  name = c.name;
  repository = c.repository;
  chart = c.chart;
  version = c.version;
  service_name = c.service_name;
  service_port = c.service_port;
  primary = c.primary;
}

abbrev pub as_request : TemplateApiResponse → CreateTemplateRequest
as_request t = record {
  name = t.id;
  namespace = t.namespace;
  display_name = t.display_name;
  description = t.description;
  icon = t.icon;
  tags = t.tags;
  default_ttl = t.default_ttl;
  components = map request_component t.components;
}

abbrev pub with_defaults : CreateTemplateRequest → CreateTemplateRequest
with_defaults req = record req {
  namespace = or_value "ephemeral-system" req.namespace;
  display_name = or_value req.name req.display_name;
  default_ttl = or_value "1h" req.default_ttl;
}

request_component-convert :
    (cs : List CreateComponentRequest)
    → map request_component (map convert_component (map component_of cs)) ≡ cs
unfolding convert_component
request_component-convert [] = refl
request_component-convert (c ∷ cs) = ap (λ rest. c ∷ rest) (request_component-convert cs)

-- The template that a complete request creates is shown with all that the request had, with the
-- defaults for what it left empty: the request can be read back from the response.
pub convert_template_to_api_response-new_template :
    (req : CreateTemplateRequest) (components : List ComponentSpec)
    → components_of req.components ≡ some components
    → as_request (convert_template_to_api_response (new_template req components))
      ≡ with_defaults req
unfolding new_template convert_template_to_api_response
convert_template_to_api_response-new_template req components h =
    elim (components_of-cases req.components) [
      | inl stopped ↦ absurd (ground (arith, h, stopped))
      | inr (all, _) ↦
          let same : components ≡ map component_of req.components = ground (arith, h, all) in
          rw same (
            ap (λ cs. record (with_defaults req) { components = cs })
              (request_component-convert req.components))
    ]
