-- ===== src/Ui/Setup/Parsed.antt =====
-- Which templates a new server has.
use text.Mathlib.TextPositions.{eq_refl}
use kube_ephemerals.Prelude.{
  String, ◌<>◌, ◌==◌, any, Bool, true, false, Option, List, [], ◌∷◌, ◌≡◌, refl, ap, ◌∙◌, arith,
}
use kube_ephemerals.Exec.{ok, pure, wrapping, continue, ◌>>=◌, ◌>>◌}
use kube_ephemerals.Ui.Config.{Config}
use kube_ephemerals.Ui.Router.{setup_router}
use kube_ephemerals.Ui.Services.{UiClient}
use kube_ephemerals.Ui.Templates.{new_template_registry}
use kube_ephemerals.Ui.Setup.{
  DirEntry, unless_dir, PageFiles, reading, parse_entry, parse_entries, new_server,
}

-- The names of the entries that are files, in order.
abbrev pub file_names : List DirEntry → List String
file_names [] = []
file_names (e ∷ es) = unless_dir e.is_dir (file_names es) (e.name ∷ file_names es)

module _ (files : PageFiles) (content : String → String) where
  -- The set of templates after the parse of each of these files in turn.
  abbrev pub with_all : List String → files.Templates → files.Templates
  with_all [] t = t
  with_all (n ∷ ns) t = with_all ns (files.parse n (content n) t).1

  -- Each of these files is read and parses.
  abbrev pub AllParse : List String → Type 0
  AllParse names =
      (name : String)
      → any (λ n. n == name) names ≡ true
      → (files.read_file ("templates/" <> name) ≡ ok (content name))
        × ((t : files.Templates) → (files.parse name (content name) t).0 ≡ ok tt)

  parse_entry-ok :
      (name : String) (t : files.Templates)
      → files.read_file ("templates/" <> name) ≡ ok (content name)
      → ((t : files.Templates) → (files.parse name (content name) t).0 ≡ ok tt)
      → parse_entry files name t ≡ (ok tt, (files.parse name (content name) t).1)
  unfolding parse_entry reading wrapping ◌>>=◌
  parse_entry-ok name t read parses = rw read (ground (arith, parses t))

  parse_entries-all :
      (es : List DirEntry)
      → AllParse (file_names es)
      → (t : files.Templates) → parse_entries files es t ≡ (ok tt, with_all (file_names es) t)
  unfolding parse_entries pure ◌>>=◌
  parse_entries-all [] all t = refl
  parse_entries-all (e ∷ es) all t = by_kind e.is_dir all (parse_entries-all es)
    where
      by_kind :
          (b : Bool)
          → AllParse (unless_dir b (file_names es) (e.name ∷ file_names es))
          → (AllParse (file_names es)
              → (t : files.Templates)
              → parse_entries files es t ≡ (ok tt, with_all (file_names es) t))
          → unless_dir b
              (parse_entries files es)
              (parse_entry files e.name >> parse_entries files es)
              t
            ≡ (ok tt, with_all (unless_dir b (file_names es) (e.name ∷ file_names es)) t)
      by_kind true all rest = rest all t
      by_kind false all rest =
          let (read, parses) = all e.name (ground (arith, eq_refl e.name)) in
          ap (continue (λ _. parse_entries files es)) (parse_entry-ok e.name t read parses)
          ∙ rest (λ name h. all name (ground (arith, h))) _

  module _ {World Kube : Type 0} (cfg : Config) (client : UiClient World)
      (kube_client : Option Kube) where
    -- If the directory of templates is listed, and each file in it is read and parses, then a server is
    -- built with the configuration and the clients that were given, an empty registry, all routes, and
    -- the templates of all files, and only of files, in the order of the listing.
    pub new_server-parses :
        (entries : List DirEntry)
        → files.read_dir "templates" ≡ ok entries
        → AllParse (file_names entries)
        → new_server files cfg client kube_client
          ≡ ok (record {
            config = cfg;
            client = client;
            kube_client = kube_client;
            template_registry = new_template_registry;
            router = setup_router cfg;
            templates = with_all (file_names entries) files.new_templates;
          })
    unfolding new_server
    new_server-parses entries listed all =
        rw listed (rw (parse_entries-all entries all files.new_templates) refl)
