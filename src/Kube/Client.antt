-- ===== src/Kube/Client.antt =====
-- `client.Client` of controller-runtime as the controller calls it: a parameter of the model. Its
-- world is the cluster with all that happens in it between two calls.
use kube_ephemerals.Prelude.{String, List}
use kube_ephemerals.Exec.{Exec}
use kube_ephemerals.Api.Types.{Time, EphemeralEnv}
use kube_ephemerals.Api.Template.{EnvironmentTemplate}
use kube_ephemerals.Kube.Objects.{ObjectKey, Kind, Object, Service}

pub record Client : Type 1 where
  pub World : Type 0
  -- `Get`, `Update` and `Status().Update` of an environment. A write that succeeds returns what the
  -- server stored, which the client decodes into its argument.
  pub get_env : ObjectKey → Exec World EphemeralEnv
  pub update_env : EphemeralEnv → Exec World EphemeralEnv
  pub update_env_status : EphemeralEnv → Exec World EphemeralEnv
  pub get_template : ObjectKey → Exec World EnvironmentTemplate
  pub get_object : Kind → ObjectKey → Exec World Object
  -- `controllerutil.CreateOrUpdate`, with the object and the mutate function, which never fails
  pub create_or_update : Object → (Object → Object) → Exec World (Unit {0})
  pub delete_object : Kind → ObjectKey → Exec World (Unit {0})
  -- `List` of services in a namespace
  pub list_services : String → Exec World (List Service)
  -- `time.Now()`, which does not fail
  pub now : World → Time × World
