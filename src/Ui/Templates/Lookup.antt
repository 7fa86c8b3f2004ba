-- ===== src/Ui/Templates/Lookup.antt =====
-- The handler and the registry look the same template up.
use kube_ephemerals.Prelude.{
  String, ◌==◌, Option, none, some, List, [], ◌∷◌, ◌≡◌, refl, Bool-cases, inl, ◌⊎◌, inr, arith,
  eq_iff,
}
use kube_ephemerals.Exec.{Result, ok, err}
use kube_ephemerals.Api.Template.{EnvironmentTemplate}
use kube_ephemerals.Ui.Http.{
  Request, Writer, value_at, status_not_found, status_internal_server_error,
}
use kube_ephemerals.Ui.Respond.{
  Server, Exchange, Value, TemplateApiResponse, template, answer, settle, calling, json_response,
  json_error,
}
use kube_ephemerals.Ui.Templates.{
  convert_template_to_api_response, find_named, handle_get_template, answer_found, as_response,
  searched, registry_get, set_client, new_template_registry,
}

-- What the handler and the registry make of one search: the same world and, for a template that is
-- found, the response with it, whose id is the one that was asked for.
abbrev pub Agrees :
    {World : Type 0}
    → String
    → Writer Value
    → Exchange World
    → Option TemplateApiResponse × World
    → Type 0
Agrees id out x (none, w) =
    (x.world ≡ w)
    × ((x.writer ≡ json_error "Template not found" status_not_found out)
        ⊎ (x.writer ≡ json_error "Failed to search templates" status_internal_server_error out))
Agrees id out x (some t, w) =
    (x.world ≡ w) × (x.writer ≡ json_response (template t) out) × (t.id ≡ id)

abbrev IsNamed : String → Option EnvironmentTemplate → Type 0
IsNamed id none = Unit {0}
IsNamed id (some t) = t.metadata.name ≡ id

find_named-IsNamed : (id : String) (ts : List EnvironmentTemplate) → IsNamed id (find_named id ts)
unfolding find_named
find_named-IsNamed id [] = tt
find_named-IsNamed id (u ∷ us) = elim (Bool-cases (u.metadata.name == id)) [
  | inl same ↦ rw same (ground (arith, same, eq_iff u.metadata.name id))
  | inr other ↦ rw other (find_named-IsNamed id us)
]

module _ (s : Server) (id : String) (out : Writer Value) where
  found-Agrees :
      (o : Option EnvironmentTemplate) (w : s.World)
      → IsNamed id o
      → Agrees id out (answer_found s o (record { world = w; writer = out })) (as_response o, w)
  unfolding answer convert_template_to_api_response
  found-Agrees none w h = (refl, inl refl)
  found-Agrees (some t) w h = (refl, refl, h)

  searched-Agrees :
      (x : Result (List EnvironmentTemplate) × s.World)
      → Agrees id out
          (settle
            (λ _. answer (json_error "Failed to search templates" status_internal_server_error))
            (λ items. answer_found s (find_named id items))
            out
            x)
          (searched id x)
  unfolding answer
  searched-Agrees (ok items, w) = found-Agrees (find_named id items) w (find_named-IsNamed id items)
  searched-Agrees (err e, w) = (refl, inr refl)

-- A request for a template with no namespace in its query, and the registry with the server's client,
-- whatever namespace it was given, agree: they leave the same world, and what the registry finds is
-- what the handler answers, with the id that was asked for; where the registry finds nothing, the
-- answer is an error.
pub handle_get_template-registry_get :
    (s : Server) (r : Request) (x : Exchange s.World) (namespace : String)
    → value_at "namespace" r.query ≡ ""
    → Agrees (value_at "id" r.vars) x.writer (handle_get_template s r x) (
        registry_get
          (value_at "id" r.vars)
          (set_client s.client namespace new_template_registry)
          x.world)
unfolding handle_get_template registry_get set_client calling
handle_get_template-registry_get s r x namespace h =
    rw h (searched-Agrees s (value_at "id" r.vars) x.writer (s.client.list_templates none x.world))
