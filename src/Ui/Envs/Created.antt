-- ===== src/Ui/Envs/Created.antt =====
-- The header of the answer to a creation.
use kube_ephemerals.Prelude.{ℕ, true, false, Option, some, [], ◌∷◌, ◌⊎◌, ◌≡◌}
use kube_ephemerals.Ui.Http.{
  Header, status_created, status_bad_request, status_internal_server_error,
}

abbrev pub json_header : ℕ → Header
json_header status = record {
  status = status;
  fields = ("Content-Type", "application/json") ∷ [];
  detected = false;
}

-- The header that is sent with a success has no field of the handler's and a content type that is
-- detected from the body, and that of an error has its type.
abbrev pub CreationHeader : Option Header → Type 0
CreationHeader h =
    (h ≡ some (record { status = status_created; fields = []; detected = true }))
    ⊎ ((h ≡ some (json_header status_bad_request))
        ⊎ (h ≡ some (json_header status_internal_server_error)))
