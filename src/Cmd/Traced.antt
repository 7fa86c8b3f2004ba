-- ===== src/Cmd/Traced.antt =====
-- The operator's start, with the calls that it makes noted.
use kube_ephemerals.Prelude.{ℕ, Bool, true, false, ◌&&◌, List, [], ◌∷◌, ◌++◌, if◌then◌else◌}
use kube_ephemerals.Prelude.Tests
use kube_ephemerals.Exec.{is_ok, Exec}
use kube_ephemerals.Cmd.Main.{Runtime}

-- The calls of controller-runtime and client-go that may fail.
pub data StartCall : Type 0 where
  got_config created_manager completed_controller added_healthz added_readyz created_kube
        added_server started :
      StartCall

pub record StartEvent : Type 0 where
  pub call : StartCall
  pub succeeded : Bool

pub record Started (World : Type 0) : Type 0 where
  pub world : World
  pub log : List StartEvent

module _ {W A : Type 0} where
  unfoldable pub noting : StartCall → Exec W A → Exec (Started W) A
  noting c m s =
      let (x, w) = m s.world in
      (x, record { world = w; log = s.log ++ record { call = c; succeeded = is_ok x } ∷ [] })

-- The runtime that notes its calls, the newest last, and changes none of their answers.
abbrev pub traced_runtime : Runtime → Runtime
traced_runtime r = record {
  World = Started r.World;
  ClientWorld = r.ClientWorld;
  Manager = r.Manager;
  WebhookServer = r.WebhookServer;
  Scheme = r.Scheme;
  Settings = r.Settings;
  Kube = r.Kube;
  files = r.files;
  scheme = r.scheme;
  settings = r.settings;
  new_webhook_server = r.new_webhook_server;
  getenv = λ s. r.getenv s.world;
  get_config = noting got_config r.get_config;
  new_manager = λ c o. noting created_manager (r.new_manager c o);
  get_client = r.get_client;
  complete = λ m c f. noting completed_controller (r.complete m c f);
  add_healthz_check = λ m n. noting added_healthz (r.add_healthz_check m n);
  add_readyz_check = λ m n. noting added_readyz (r.add_readyz_check m n);
  new_for_config = λ c. noting created_kube (r.new_for_config c);
  add = λ m s. noting added_server (r.add m s);
  start = λ m. noting started (r.start m);
}

-- The calls in their order.
abbrev pub start_order : List StartCall
start_order =
    got_config ∷ created_manager ∷ completed_controller ∷ added_healthz ∷ added_readyz ∷ got_config
    ∷ created_kube ∷ got_config ∷ added_server ∷ started ∷ []

abbrev pub number : StartCall → ℕ
number got_config = 0
number created_manager = 1
number completed_controller = 2
number added_healthz = 3
number added_readyz = 4
number created_kube = 5
number added_server = 6
number started = 7

-- The log has the calls of a beginning of the plan, each once, and all but the last succeeded.
abbrev pub begins : List StartCall → List StartEvent → Bool
begins plan [] = true
begins [] (e ∷ log) = false
begins (c ∷ plan) (e ∷ log) =
    Tests.◌==◌ (number c) (number e.call) && (if e.succeeded then begins plan log else is_empty log)
  where
    is_empty : List StartEvent → Bool
    is_empty [] = true
    is_empty (_ ∷ _) = false

-- The log has all calls of the plan, and they succeeded.
abbrev pub completes : List StartCall → List StartEvent → Bool
completes [] [] = true
completes [] (e ∷ log) = false
completes (c ∷ plan) [] = false
completes (c ∷ plan) (e ∷ log) =
    Tests.◌==◌ (number c) (number e.call) && e.succeeded && completes plan log
