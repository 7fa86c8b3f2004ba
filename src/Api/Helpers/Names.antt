-- ===== src/Api/Helpers/Names.antt =====
-- The names of an environment's objects, compared between environments.
use text.Mathlib.TextLemmas.{append_cancel_left}
use kube_ephemerals.Prelude.{◌<>◌, ◌≡◌, ap, ◌↔◌}
use kube_ephemerals.Api.Types.{EphemeralEnv}
use kube_ephemerals.Api.Helpers.{get_namespace_name, namespace_prefix}

-- Two environments share a namespace exactly when they have the same name, in whichever namespaces
-- the two resources stand.
pub get_namespace_name_iff :
    (e f : EphemeralEnv)
    → (get_namespace_name e ≡ get_namespace_name f) ↔ (e.metadata.name ≡ f.metadata.name)
unfolding get_namespace_name
get_namespace_name_iff e f =
    (append_cancel_left namespace_prefix _ _, λ p. ap (λ n. namespace_prefix <> n) p)
