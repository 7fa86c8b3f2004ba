-- ===== src/Ui/Http.antt =====
-- What the handlers use of Go's net/http: the request, and the response writer with its rule that
-- the first status that is written is sent, with the headers as they stand then.
use kube_ephemerals.Prelude.{
  ℕ, String, Bool, true, false, Option, none, some, List, [], ◌∷◌, ◌++◌, Labels, set_label,
  get_label,
}

-- `vars` is what `mux.Vars` gives, `env_name` the value of the context under `envContextKey`.
pub record Request : Type 0 where
  pub host : String
  pub vars : Labels
  pub query : Labels
  pub body : String
  pub env_name : Option String

-- A map's value at a key, or the empty text: `vars["name"]`, `Query().Get("namespace")`
abbrev pub or_empty : Option String → String
or_empty none = ""
or_empty (some v) = v

abbrev pub value_at : String → Labels → String
value_at key m = or_empty (get_label key m)

-- A header as it is sent: the fields that the handler set, and whether net/http adds the content type
-- that it detects from the first bytes of the body. It does so where no type was set when the status
-- was written. The other fields that it adds by itself, such as the date, are left out.
pub record Header : Type 0 where
  pub status : ℕ
  pub fields : Labels
  pub detected : Bool

-- `sent` is the status line and the header once they are out. A body is a list of the values that
-- were written, in the handlers' own type.
pub record Writer (Value : Type 0) : Type 0 where
  pub fields : Labels
  pub sent : Option Header
  pub body : List Value

abbrev send : ℕ → Labels → Option Header → Option Header
send status fields none = some (record { status = status; fields = fields; detected = false })
send status fields (some h) = some h

abbrev is_absent : Option String → Bool
is_absent none = true
is_absent (some _) = false

-- What the first write of a body does to the header.
abbrev detect_type : {Value : Type 0} → List Value → Option Header → Option Header
detect_type body none = none
detect_type (_ ∷ _) (some h) = some h
detect_type [] (some h) =
    some (record h { detected = is_absent (get_label "Content-Type" h.fields) })

module _ {Value : Type 0} where
  -- `w.Header().Set(key, value)`: of no effect on a header that is out.
  unfoldable pub set_field : String → String → Writer Value → Writer Value
  set_field key value w = record w { fields = set_label key value w.fields }

  -- `w.WriteHeader(status)`
  unfoldable pub write_header : ℕ → Writer Value → Writer Value
  write_header status w = record w { sent = send status w.fields w.sent }

  -- `w.Write(…)`: a status that is still to be sent is 200, and the content type is detected from the
  -- first bytes if none was set.
  unfoldable pub write : Value → Writer Value → Writer Value
  unfolding write_header
  write v w =
      let w' = write_header 200 w in
      record w' { sent = detect_type w.body w'.sent; body = w.body ++ v ∷ [] }

  -- What is sent when the handler returns.
  unfoldable pub finished : Writer Value → Writer Value
  unfolding write_header
  finished w = write_header 200 w

  abbrev pub new_writer : Writer Value
  new_writer = record { fields = []; sent = none; body = [] }

abbrev pub status_ok : ℕ
status_ok = 200

abbrev pub status_created : ℕ
status_created = 201

abbrev pub status_no_content : ℕ
status_no_content = 204

abbrev pub status_bad_request : ℕ
status_bad_request = 400

abbrev pub status_not_found : ℕ
status_not_found = 404

abbrev pub status_internal_server_error : ℕ
status_internal_server_error = 500

abbrev pub status_service_unavailable : ℕ
status_service_unavailable = 503
