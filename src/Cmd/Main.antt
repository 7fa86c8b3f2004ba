-- ===== src/Cmd/Main.antt =====
-- `main` of cmd/main.go. controller-runtime, client-go and the process's environment are a parameter.
use kube_ephemerals.Prelude.{ℕ, String, some}
use kube_ephemerals.Exec.{Result, ok, err, Exec}
use kube_ephemerals.Ui.Config.{RestConfig}
use kube_ephemerals.Ui.Services.{UiClient}
use kube_ephemerals.Ui.Setup.{PageFiles, NewUiServer, new_server}
use kube_ephemerals.Controller.Setup.{ControllerSpec, ReconcilerFields, setup_with_manager}
use kube_ephemerals.Helm.Sdk.{SdkClient, new_sdk_client}
use kube_ephemerals.Cmd.Flags.{Flags}
use kube_ephemerals.Cmd.Options.{WebhookOptions, ManagerOptions, manager_options, ui_config}

-- `get_client` is a manager's client, as the server of the UI uses it, on the world
-- that the manager serves. `get_config` is
-- `ctrl.GetConfigOrDie`, whose failure ends the process with the status 1.
pub record Runtime : Type 1 where
  pub World : Type 0
  pub ClientWorld : Type 0
  pub Manager : Type 0
  pub WebhookServer : Type 0
  pub Scheme : Type 0
  pub Settings : Type 0
  pub Kube : Type 0
  pub files : PageFiles
  pub scheme : Scheme
  pub settings : Settings
  pub new_webhook_server : WebhookOptions → WebhookServer
  pub getenv : World → String → String
  pub get_config : Exec World RestConfig
  pub new_manager : RestConfig → ManagerOptions Scheme WebhookServer → Exec World Manager
  pub get_client : Manager → UiClient ClientWorld
  pub complete :
      Manager
      → ControllerSpec
      → ReconcilerFields (UiClient ClientWorld) Scheme (SdkClient Settings)
      → Exec World (Unit {0})
  pub add_healthz_check : Manager → String → Exec World (Unit {0})
  pub add_readyz_check : Manager → String → Exec World (Unit {0})
  pub new_for_config : RestConfig → Exec World Kube
  pub add : Manager → NewUiServer files.Templates ClientWorld Kube → Exec World (Unit {0})
  pub start : Manager → Exec World (Unit {0})

-- How the process ends.
pub data Exit : Type 0 where
  finished : Exit
  exited : ℕ → Exit

module _ {W A : Type 0} where
  abbrev pub exit_on_error : (A → W → Exit × W) → Result A × W → Exit × W
  exit_on_error k (ok a, w) = k a w
  exit_on_error k (err _, w) = (exited 1, w)

  -- `if err != nil { setupLog.Error(…); os.Exit(1) }`
  unfoldable pub or_exit : Exec W A → (A → W → Exit × W) → W → Exit × W
  or_exit m k w = exit_on_error k (m w)

module _ (r : Runtime) (flags : Flags) where
  abbrev pub reconciler_fields :
      r.Manager → ReconcilerFields (UiClient r.ClientWorld) r.Scheme (SdkClient r.Settings)
  reconciler_fields mgr = record {
    client = r.get_client mgr;
    scheme = r.scheme;
    helm_client = new_sdk_client r.settings;
    operator_service = flags.operator_service;
    operator_namespace = flags.operator_namespace;
  }

  -- The server of the UI, which is run by the manager.
  abbrev with_ui_server : r.Manager → r.Kube → RestConfig → r.World → Exit × r.World
  with_ui_server mgr kube rest_config w =
      let config = ui_config (r.getenv w) flags rest_config in
      or_exit (λ w'. (new_server r.files config (r.get_client mgr) (some kube), w'))
        (λ server. or_exit (r.add mgr server) (λ _. or_exit (r.start mgr) (λ _ w'. (finished, w'))))
        w

  unfoldable pub main : r.World → Exit × r.World
  unfolding or_exit
  main = or_exit r.get_config λ config.
      or_exit (r.new_manager config (manager_options r.scheme r.new_webhook_server flags)) λ mgr.
        or_exit (setup_with_manager r.complete (reconciler_fields mgr) mgr) λ _.
          or_exit (r.add_healthz_check mgr "healthz") λ _.
            or_exit (r.add_readyz_check mgr "readyz") λ _. or_exit r.get_config λ kube_config.
              or_exit (r.new_for_config kube_config)
                λ kube. or_exit r.get_config (with_ui_server mgr kube)
