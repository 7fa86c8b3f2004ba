-- ===== src/Tests/Startup.antt =====
-- The operator's start on a small site.
use kube_ephemerals.Prelude.{
  String, ◌==◌, Bool, true, false, some, List, [], ◌∷◌, ◌≡◌, refl, if◌then◌else◌, arith, eq_iff,
  Bool-cases, inl, inr,
}
use kube_ephemerals.Exec.{ok, err}
use kube_ephemerals.Ui.Router.{setup_router}
use kube_ephemerals.Ui.Templates.{new_template_registry}
use kube_ephemerals.Ui.Setup.{DirEntry, PageFiles, new_server}
use kube_ephemerals.Ui.Setup.Parsed.{file_names, AllParse, with_all, new_server-parses}
use kube_ephemerals.Cmd.Flags.{default_flags}
use kube_ephemerals.Cmd.Options.{
  TlsConfig, webhook_options, metrics_options, with_authentication_and_authorization,
}
use kube_ephemerals.Cmd.Secured.{applied, options-next_protos}
use kube_ephemerals.Cmd.Main.{Runtime, main}
use kube_ephemerals.Cmd.Traced.{traced_runtime, start_order}
use kube_ephemerals.Cmd.Order.{Accounts, main-Accounts}
use kube_ephemerals.Tests.Cluster.{missing}
use kube_ephemerals.Tests.Site.{Site, client, config, kube_client, rest}

abbrev entries : List DirEntry
entries =
    record { name = "base.html"; is_dir = false }
    ∷ record { name = "old"; is_dir = true }
    ∷ record { name = "env.html"; is_dir = false }
    ∷ []

abbrev is_page : String → Bool
is_page path = if path == "templates/base.html" then true else path == "templates/env.html"

-- The pages are read, and a template is kept by its name. The directory cannot be read.
abbrev files : PageFiles
files = record {
  Templates = List String;
  read_dir = λ dir. ok entries;
  read_file = λ path. if is_page path then ok "page" else err missing;
  new_templates = [];
  parse = λ name content ts. (ok tt, name ∷ ts);
}

abbrev page : String → String
page name = "page"

entries-AllParse : AllParse files page (file_names entries)
entries-AllParse name h = elim (Bool-cases ("base.html" == name)) [
  | inl first ↦ rw (← (eq_iff "base.html" name).0 first) (refl, λ t. refl)
  | inr other ↦ rw (← (eq_iff "env.html" name).0 (ground (arith, h, other))) (refl, λ t. refl)
]

new_server-parses_example :
    new_server files config client (some kube_client)
    ≡ ok (record {
      config = config;
      client = client;
      kube_client = some kube_client;
      template_registry = new_template_registry;
      router = setup_router config;
      templates = with_all files page (file_names entries) [];
    })
new_server-parses_example =
    new_server-parses files page config client (some kube_client) entries refl entries-AllParse

-- A manager that is a text, on a site whose second check is refused.
abbrev runtime : Runtime
runtime = record {
  World = Unit {0};
  ClientWorld = Site;
  Manager = String;
  WebhookServer = Unit {0};
  Scheme = Unit {0};
  Settings = Unit {0};
  Kube = Unit {0};
  files = files;
  scheme = tt;
  settings = tt;
  new_webhook_server = λ o. tt;
  getenv = λ w name. "";
  get_config = λ w. (ok rest, w);
  new_manager = λ c o w. (ok "manager", w);
  get_client = λ m. client;
  complete = λ m c f w. (ok tt, w);
  add_healthz_check = λ m n w. (ok tt, w);
  add_readyz_check = λ m n w. (err missing, w);
  new_for_config = λ c w. (ok tt, w);
  add = λ m s w. (ok tt, w);
  start = λ m w. (ok tt, w);
}

main-Accounts_example :
    Accounts start_order
      (main (traced_runtime runtime) default_flags (record { world = tt; log = [] }))
main-Accounts_example = main-Accounts runtime default_flags tt

abbrev both_protocols : TlsConfig
both_protocols = record { next_protos = "h2" ∷ "http/1.1" ∷ [] }

options-next_protos_example :
    ((applied (webhook_options default_flags).tls_opts both_protocols).next_protos
      ≡ "http/1.1" ∷ [])
    × ((applied (metrics_options default_flags).tls_opts both_protocols).next_protos
        ≡ "http/1.1" ∷ [])
    × ((metrics_options default_flags).filter_provider ≡ some with_authentication_and_authorization)
options-next_protos_example = options-next_protos default_flags both_protocols
