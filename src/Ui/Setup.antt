-- ===== src/Ui/Setup.antt =====
-- `NewServer` and `Start` of internal/ui/server.go. The embedded files, html/template and net/http are
-- arguments.
pub mod Parsed
use kube_ephemerals.Prelude.{String, ◌<>◌, Bool, true, false, Option, none, some, List, [], ◌∷◌}
use kube_ephemerals.Exec.{Failure, Result, ok, err, wrap, Exec, pure, wrapping, ◌>>=◌, ◌>>◌}
use kube_ephemerals.Ui.Config.{Config}
use kube_ephemerals.Ui.Router.{Route, setup_router}
use kube_ephemerals.Ui.Services.{UiClient}
use kube_ephemerals.Ui.Templates.{TemplateRegistry, new_template_registry}

pub record DirEntry : Type 0 where
  pub name : String
  pub is_dir : Bool

-- `templateFS` and html/template: the set of templates is changed by each parse, which may have
-- changed it also when it fails.
pub record PageFiles : Type 1 where
  pub Templates : Type 0
  pub read_dir : String → Result (List DirEntry)
  pub read_file : String → Result String
  pub new_templates : Templates
  pub parse : String → String → Exec Templates (Unit {0})

-- The fields of `Server` that `NewServer` sets, but for the upgrader, which accepts every origin.
pub record NewUiServer (Templates World Kube : Type 0) : Type 0 where
  pub config : Config
  pub client : UiClient World
  pub kube_client : Option Kube
  pub template_registry : TemplateRegistry World
  pub router : List Route
  pub templates : Templates

-- `if entry.IsDir() { continue }`
abbrev pub unless_dir : {A : Type 0} → Bool → A → A → A
unless_dir true skipped taken = skipped
unless_dir false skipped taken = taken

module _ (files : PageFiles) where
  unfoldable pub reading : String → Exec files.Templates String
  reading path s = (files.read_file path, s)

  -- The body of the loop for an entry that is a file.
  unfoldable pub parse_entry : String → Exec files.Templates (Unit {0})
  unfolding reading
  parse_entry name = do
    content ← wrapping ("failed to read template " <> name <> ": ") (reading ("templates/" <> name))
    wrapping ("failed to parse template " <> name <> ": ") (files.parse name content)

  -- The loop over the entries, which passes over directories.
  unfoldable pub parse_entries : List DirEntry → Exec files.Templates (Unit {0})
  parse_entries [] = pure tt
  parse_entries (e ∷ es) =
      let rest = parse_entries es in unless_dir e.is_dir rest (parse_entry e.name >> rest)

  module _ {World Kube : Type 0} (cfg : Config) (client : UiClient World)
      (kube_client : Option Kube) where
    abbrev with_templates :
        Result (Unit {0}) × files.Templates → Result (NewUiServer files.Templates World Kube)
    with_templates (err e, t) = err e
    with_templates (ok _, t) = ok (record {
      config = cfg;
      client = client;
      kube_client = kube_client;
      template_registry = new_template_registry;
      router = setup_router cfg;
      templates = t;
    })

    abbrev with_entries : Result (List DirEntry) → Result (NewUiServer files.Templates World Kube)
    with_entries (err e) = err (wrap "failed to read templates directory: " e)
    with_entries (ok entries) = with_templates (parse_entries entries files.new_templates)

    unfoldable pub new_server : Result (NewUiServer files.Templates World Kube)
    unfolding parse_entries
    new_server = with_entries (files.read_dir "templates")

-- How `ListenAndServe` ends: with `http.ErrServerClosed`, with another error, or with none.
pub data Listened : Type 0 where
  server_closed : Listened
  stopped : Failure → Listened
  ended : Listened

abbrev served : Listened → Result (Unit {0})
served server_closed = ok tt
served (stopped e) = err (wrap "UI server error: " e)
served ended = ok tt

-- `Start`, without the goroutine that shuts the server down when the context is done. `listen` is
-- `ListenAndServe` at an address with the routes.
unfoldable pub start :
    {Templates World Kube W : Type 0}
    → (String → List Route → W → Listened × W)
    → NewUiServer Templates World Kube
    → Exec W (Unit {0})
start listen s w = let (l, w') = listen s.config.listen_addr s.router w in (served l, w')
