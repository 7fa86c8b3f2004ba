-- ===== src/Ui/Templates.antt =====
-- internal/ui/templates.go: the handlers for templates, and the registry.
pub mod Create
pub mod Valid
pub mod Lookup
use kube_ephemerals.Prelude.{
  ℕ, zero, suc, String, ◌<>◌, ◌==◌, Bool, true, false, Option, none, some, List, [], ◌∷◌, map, ltb,
  if◌then◌else◌,
}
use kube_ephemerals.Exec.{Failure, Result, ok, err}
use kube_ephemerals.Api.Types.{Json}
use kube_ephemerals.Api.Template.{EnvironmentTemplate, ComponentSpec}
use kube_ephemerals.Kube.Objects.{ObjectKey}
use kube_ephemerals.Controller.Sanitize.{codes}
use kube_ephemerals.Ui.Http.{
  Request, value_at, write_header, status_no_content, status_not_found,
  status_internal_server_error,
}
use kube_ephemerals.Ui.Services.{UiClient}
use kube_ephemerals.Ui.Respond.{
  Server, Handler, Exchange, ComponentApiResponse, TemplateApiResponse, template, templates, answer,
  calling, settle, json_response, json_error,
}

-- `c.Values.Raw` if there is one that is not empty
abbrev raw_values : Json → Option String
raw_values none = none
raw_values (some raw) = if raw == "" then none else some raw

unfoldable pub convert_component : ComponentSpec → ComponentApiResponse
convert_component c = record {
  name = c.name;
  repository = c.repository;
  chart = c.chart;
  version = c.version;
  service_name = c.service_name;
  service_port = c.service_port;
  values = raw_values c.values;
  primary = c.primary;
}

unfoldable pub convert_template_to_api_response : EnvironmentTemplate → TemplateApiResponse
unfolding convert_component
convert_template_to_api_response t = record {
  id = t.metadata.name;
  display_name = t.spec.display_name;
  description = t.spec.description;
  namespace = t.metadata.namespace;
  components = map convert_component t.spec.components;
  default_ttl = t.spec.default_ttl;
  icon = t.spec.icon;
  tags = t.spec.tags;
  usage_count = t.status.usage_count;
}

-- `<` on texts: the order of UTF-8 bytes is that of the code points.
abbrev pub less_codes : List ℕ → List ℕ → Bool
less_codes [] [] = false
less_codes [] (d ∷ ds) = true
less_codes (c ∷ cs) [] = false
less_codes (c ∷ cs) (d ∷ ds) =
    let rest = less_codes cs ds in if ltb c d then true else if ltb d c then false else rest

abbrev pub by_display_name : TemplateApiResponse → TemplateApiResponse → Bool
by_display_name a b = less_codes (codes a.display_name) (codes b.display_name)

-- The namespace of a listing: all of them for the empty text.
abbrev pub in_namespace : String → Option String
in_namespace namespace = if namespace == "" then none else some namespace

-- The first of a listing that has the name
unfoldable pub find_named : String → List EnvironmentTemplate → Option EnvironmentTemplate
find_named id [] = none
find_named id (t ∷ ts) = if t.metadata.name == id then some t else find_named id ts

abbrev pub as_response : Option EnvironmentTemplate → Option TemplateApiResponse
as_response none = none
as_response (some t) = some (convert_template_to_api_response t)

module _ (s : Server) where
  unfoldable pub handle_list_templates : Request → Handler s.World
  handle_list_templates r =
      calling (s.client.list_templates (in_namespace (value_at "namespace" r.query)))
        (λ e. answer (json_error "Failed to list templates" status_internal_server_error))
        (λ items. answer (
          json_response (
            templates (
              s.library.sort_slice TemplateApiResponse by_display_name
                (map convert_template_to_api_response items)))))

  abbrev pub template_not_found : Handler s.World
  template_not_found = answer (json_error "Template not found" status_not_found)

  abbrev pub answer_template : EnvironmentTemplate → Handler s.World
  answer_template t = answer (json_response (template (convert_template_to_api_response t)))

  abbrev pub answer_found : Option EnvironmentTemplate → Handler s.World
  answer_found none = template_not_found
  answer_found (some t) = answer_template t

  unfoldable pub handle_get_template : Request → Handler s.World
  handle_get_template r =
      let id = value_at "id" r.vars in
      let namespace = value_at "namespace" r.query in
      if namespace == ""
      then calling (s.client.list_templates none)
          (λ _. answer (json_error "Failed to search templates" status_internal_server_error))
          (λ items. answer_found (find_named id items))
      else calling (s.client.get_template (record { name = id; namespace = namespace }))
          (λ _. template_not_found) answer_template

  abbrev or_system : String → String
  or_system namespace = if namespace == "" then "ephemeral-system" else namespace

  unfoldable pub handle_delete_template : Request → Handler s.World
  handle_delete_template r =
      calling
        (s.client.delete_template (record {
          name = value_at "id" r.vars;
          namespace = or_system (value_at "namespace" r.query);
        }))
        (λ e.
          answer
            (json_error ("Failed to delete template: " <> e.text) status_internal_server_error))
        (λ _. answer (write_header status_no_content))

pub record TemplateRegistry (World : Type 0) : Type 0 where
  pub client : Option (UiClient World)
  pub namespace : String

module _ {World : Type 0} where
  unfoldable pub new_template_registry : TemplateRegistry World
  new_template_registry = record { client = none; namespace = "" }

  unfoldable pub set_client :
      UiClient World → String → TemplateRegistry World → TemplateRegistry World
  set_client client namespace r = record r { client = some client; namespace = namespace }

  abbrev converted : Result (List EnvironmentTemplate) × World → List TemplateApiResponse × World
  converted (ok items, w) = (map convert_template_to_api_response items, w)
  converted (err _, w) = ([], w)

  -- Not sorted
  unfoldable pub registry_list : TemplateRegistry World → World → List TemplateApiResponse × World
  registry_list r w = elim r.client [
    | none ↦ ([], w)
    | some client ↦ converted (client.list_templates (in_namespace r.namespace) w)
  ]

  abbrev pub searched :
      String → Result (List EnvironmentTemplate) × World → Option TemplateApiResponse × World
  searched id (ok items, w) = (as_response (find_named id items), w)
  searched id (err _, w) = (none, w)

  -- All namespaces are searched, whichever the registry has.
  unfoldable pub registry_get :
      String → TemplateRegistry World → World → Option TemplateApiResponse × World
  registry_get id r w = elim r.client [
    | none ↦ (none, w)
    | some client ↦ searched id (client.list_templates none w)
  ]
