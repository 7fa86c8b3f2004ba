-- ===== src/Ui/Templates/Create.antt =====
-- `handleCreateTemplate` of internal/ui/templates.go.
use kube_ephemerals.Prelude.{
  String, ◌<>◌, ◌==◌, Bool, ◌||◌, Option, none, some, List, [], ◌∷◌, pos, if◌then◌else◌,
}
use kube_ephemerals.Api.Template.{EnvironmentTemplate, ComponentSpec}
use kube_ephemerals.Ui.Http.{
  Request, write_header, status_created, status_bad_request, status_internal_server_error,
}
use kube_ephemerals.Ui.Respond.{
  Server, Handler, CreateComponentRequest, CreateTemplateRequest, template, answer, calling,
  checked, json_response, json_error,
}
use kube_ephemerals.Ui.Templates.{convert_template_to_api_response}

abbrev pub or_value : String → String → String
or_value default v = if v == "" then default else v

abbrev pub is_incomplete : CreateComponentRequest → Bool
is_incomplete c = c.name == "" || c.repository == "" || c.chart == ""

abbrev pub component_of : CreateComponentRequest → ComponentSpec
component_of c = record {
  name = c.name;
  repository = c.repository;
  chart = c.chart;
  version = c.version;
  service_name = c.service_name;
  service_port = c.service_port;
  values = none;
  primary = c.primary;
}

abbrev pub cons_if : ComponentSpec → Option (List ComponentSpec) → Option (List ComponentSpec)
cons_if c none = none
cons_if c (some cs) = some (c ∷ cs)

-- The loop over the components; `none` where it returns at an incomplete one.
unfoldable pub components_of : List CreateComponentRequest → Option (List ComponentSpec)
components_of [] = some []
components_of (c ∷ cs) =
    let rest = components_of cs in if is_incomplete c then none else cons_if (component_of c) rest

-- A create reads the name, the namespace and the spec.
unfoldable pub new_template : CreateTemplateRequest → List ComponentSpec → EnvironmentTemplate
new_template req components = record {
  metadata = record {
    name = req.name;
    namespace = or_value "ephemeral-system" req.namespace;
    resource_version = "";
    labels = [];
    creation_timestamp = pos 0;
    deletion_timestamp = none;
    finalizers = [];
  };
  spec = record {
    display_name = or_value req.name req.display_name;
    description = req.description;
    icon = req.icon;
    tags = req.tags;
    components = components;
    default_ttl = or_value "1h" req.default_ttl;
    default_gateway = none;
  };
  status = record { usage_count = 0; last_used_time = none; conditions = [] };
}

module _ (s : Server) where
  abbrev pub refuse : String → Handler s.World
  refuse message = answer (json_error message status_bad_request)

  -- The status is written before the header's field is set.
  abbrev pub create_with : CreateTemplateRequest → Option (List ComponentSpec) → Handler s.World
  create_with req none = refuse "component name, repository, and chart are required"
  create_with req (some components) =
      calling (s.client.create_template (new_template req components))
        (λ e.
          answer
            (json_error ("Failed to create template: " <> e.text) status_internal_server_error))
        (λ stored. answer (λ w.
          json_response (template (convert_template_to_api_response stored))
            (write_header status_created w)))

  abbrev pub create_components :
      CreateTemplateRequest → List CreateComponentRequest → Handler s.World
  create_components req [] = refuse "at least one component is required"
  create_components req (c ∷ cs) = create_with req (components_of (c ∷ cs))

  abbrev pub create_checked : CreateTemplateRequest → Handler s.World
  create_checked req =
      if req.name == "" then refuse "name is required" else create_components req req.components

  unfoldable pub handle_create_template : Request → Handler s.World
  handle_create_template r =
      checked (s.decode_template r.body) (λ e. refuse ("Invalid request body: " <> e.text))
        create_checked
