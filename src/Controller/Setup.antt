-- ===== src/Controller/Setup.antt =====
-- `SetupWithManager`: what the controller is told to watch. The builder of controller-runtime is an
-- argument, which completes the controller of a specification for a reconciler.
use kube_ephemerals.Prelude.{String, List, [], ◌∷◌}
use kube_ephemerals.Exec.{Exec}

-- The objects by their kinds: `For`, `Owns` and `Named`.
pub record ControllerSpec : Type 0 where
  pub watched : String
  pub owned : List String
  pub name : String

-- The fields of an `EphemeralEnvReconciler`, whose clients are given with it.
pub record ReconcilerFields (Client Scheme HelmClient : Type 0) : Type 0 where
  pub client : Client
  pub scheme : Scheme
  pub helm_client : HelmClient
  pub operator_service : String
  pub operator_namespace : String

unfoldable pub setup_with_manager :
    {W Manager Fields : Type 0}
    → (Manager → ControllerSpec → Fields → Exec W (Unit {0}))
    → Fields
    → Manager
    → Exec W (Unit {0})
setup_with_manager complete fields mgr =
    complete mgr
      (record {
        watched = "EphemeralEnv";
        owned = "Namespace" ∷ "NetworkPolicy" ∷ [];
        name = "ephemeralenv";
      })
      fields
