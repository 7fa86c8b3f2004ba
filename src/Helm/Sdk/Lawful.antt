-- ===== src/Helm/Sdk/Lawful.antt =====
-- What the Helm SDK documents, and what the steps of `SDKClient` do to the releases by it.
use kube_ephemerals.Prelude.{
  ℕ, suc, ◌<◌, String, false, Option, none, some, ◌≡◌, refl, ap, ◌∙◌, arith,
}
use kube_ephemerals.Exec.{Result, ok, err, Exec, continue, pure, raise, wrapping, attempt, ◌>>=◌}
use kube_ephemerals.Exec.Hoare.{Keeps, Keeps-bind, Keeps-wrapping}
use kube_ephemerals.Exec.Inversion.{wrapping-ok}
use kube_ephemerals.Helm.Client.{InstallOptions}
use kube_ephemerals.Helm.Store.{Reads, ReadsOthers, Grows, Turns}
use kube_ephemerals.Helm.Sdk.{
  Sdk, Install, Upgrade, Pull, get_action_config, download_chart, loaded_chart, chart_path,
  first_chart_file,
}

-- What the SDK documents: a configuration works on one namespace, a history is found only for a
-- release that exists, an installation or an upgrade that succeeds adds a revision, an uninstallation
-- that keeps no history takes the release away, and nothing else touches the releases.
pub record Lawful {World Values : Type 0} (sdk : Sdk World Values)
    (revision : World → String → String → ℕ) (scope : sdk.Config → String) : Type 0 where
  pub init_reads : (ns : String) → Reads revision (sdk.init_config ns)
  pub init_scope :
      (ns : String) (w : World) (c : sdk.Config) → (sdk.init_config ns w).0 ≡ ok c → scope c ≡ ns
  pub history_reads : (c : sdk.Config) (n : String) (k : ℕ) → Reads revision (sdk.run_history c n k)
  pub history_finds :
      (c : sdk.Config) (n : String) (k : ℕ) (w : World)
      → (sdk.run_history c n k w).0 ≡ ok tt
      → 0 < revision w n (scope c)
  pub status_reads : (c : sdk.Config) (n : String) → Reads revision (sdk.run_status c n)
  pub install_adds :
      (c : sdk.Config) (i : Install) (ch : sdk.Chart) (v : Values)
      → Turns revision suc i.release_name (scope c) (sdk.run_install c i ch v)
  pub install_others :
      (c : sdk.Config) (i : Install) (ch : sdk.Chart) (v : Values)
      → ReadsOthers revision i.release_name (scope c) (sdk.run_install c i ch v)
  pub install_grows :
      (c : sdk.Config) (i : Install) (ch : sdk.Chart) (v : Values)
      → Grows revision (sdk.run_install c i ch v)
  pub upgrade_adds :
      (c : sdk.Config) (u : Upgrade) (n : String) (ch : sdk.Chart) (v : Values)
      → Turns revision suc n (scope c) (sdk.run_upgrade c u n ch v)
  pub upgrade_others :
      (c : sdk.Config) (u : Upgrade) (n : String) (ch : sdk.Chart) (v : Values)
      → ReadsOthers revision n (scope c) (sdk.run_upgrade c u n ch v)
  pub upgrade_grows :
      (c : sdk.Config) (u : Upgrade) (n : String) (ch : sdk.Chart) (v : Values)
      → Grows revision (sdk.run_upgrade c u n ch v)
  pub uninstall_removes :
      (c : sdk.Config) (n : String)
      → Turns revision (λ _. 0) n (scope c) (sdk.run_uninstall c false n)
  pub uninstall_others :
      (c : sdk.Config) (n : String) → ReadsOthers revision n (scope c) (sdk.run_uninstall c false n)
  pub temp_reads : (p : String) → Reads revision (sdk.mkdir_temp p)
  pub pull_reads : (p : Pull) (n : String) → Reads revision (sdk.run_pull p n)
  pub dir_reads : (d : String) → Reads revision (sdk.read_dir d)
  pub load_reads : (p : String) → Reads revision (sdk.load_chart p)

module _ {World A B : Type 0} (revision : World → String → String → ℕ) (f : ℕ → ℕ)
    (release namespace : String) where
  -- An action that only reads goes before one that changes the release.
  pub Turns-after :
      {m : Exec World A} {k : A → Exec World B}
      → Reads revision m
      → ((w : World) (a : A) → (m w).0 ≡ ok a → Turns revision f release namespace (k a))
      → Turns revision f release namespace (m >>= k)
  unfolding ◌>>=◌
  Turns-after {m} {k} reads each w b h = by_result (m w) (reads w release namespace) (each w) h
    where
      by_result :
          (x : Result A × World)
          → revision x.1 release namespace ≡ revision w release namespace
          → ((a : A) → x.0 ≡ ok a → Turns revision f release namespace (k a))
          → (continue k x).0 ≡ ok b
          → revision (continue k x).1 release namespace ≡ f (revision w release namespace)
      by_result (ok a, w') same turns h = turns a refl w' b h ∙ ap f same
      by_result (err e, w') same turns h = absurd (ground (arith, h))

  pub Turns-attempt :
      (m : Exec World A) {k : Result A → Exec World B}
      → Reads revision m
      → ((x : Result A) → Turns revision f release namespace (k x))
      → Turns revision f release namespace (attempt m k)
  unfolding attempt
  Turns-attempt m reads each w b h = each (m w).0 (m w).1 b h ∙ ap f (reads w release namespace)

  -- What follows a change without an action of its own.
  pub Turns-pure :
      {m : Exec World A} (g : A → B)
      → Turns revision f release namespace m
      → Turns revision f release namespace (m >>= λ a. pure (g a))
  unfolding ◌>>=◌ pure
  Turns-pure {m} g turns w b h = by_result (m w) (turns w) h
    where
      by_result :
          (x : Result A × World)
          → ((a : A)
              → x.0 ≡ ok a
              → revision x.1 release namespace ≡ f (revision w release namespace))
          → (continue (λ a. pure (g a)) x).0 ≡ ok b
          → revision (continue (λ a. pure (g a)) x).1 release namespace
            ≡ f (revision w release namespace)
      by_result (ok a, w') changed h = changed a refl
      by_result (err e, w') changed h = absurd (ground (arith, h))

module _ {World A : Type 0} (revision : World → String → String → ℕ) (f : ℕ → ℕ)
    (release namespace : String) where
  pub Turns-wrapping :
      (prefix : String) {m : Exec World A}
      → Turns revision f release namespace m
      → Turns revision f release namespace (wrapping prefix m)
  Turns-wrapping prefix {m} turns w a h =
      let (h', same) = wrapping-ok prefix m w a h in
      ap (λ v. revision v release namespace) same ∙ turns w a h'

module _ {World A : Type 0} (revision : World → String → String → ℕ) (n ns : String)
    (P : ℕ → Type 0) where
  pub Keeps-Reads : {m : Exec World A} → Reads revision m → Keeps (λ w. P (revision w n ns)) m
  Keeps-Reads reads = record { at = λ w before. rw (reads w n ns) before }

module _ {World A : Type 0} (revision : World → String → String → ℕ) where
  pub Reads-Keeps :
      {m : Exec World A}
      → ((n ns : String) (v : ℕ) → Keeps (λ w. revision w n ns ≡ v) m)
      → Reads revision m
  Reads-Keeps kept w n ns = (kept n ns (revision w n ns)).at w refl

module _ {World Values : Type 0} (sdk : Sdk World Values) (revision : World → String → String → ℕ)
    (scope : sdk.Config → String) (lawful : Lawful sdk revision scope) where
  pub wrapped-Reads :
      {A : Type 0} (prefix : String) (m : Exec World A)
      → Reads revision m
      → Reads revision (wrapping prefix m)
  wrapped-Reads prefix m reads =
      Reads-Keeps revision
        (λ n ns v. Keeps-wrapping prefix (Keeps-Reads revision n ns (λ k. k ≡ v) reads))

  pub bound-Reads :
      {A B : Type 0} (m : Exec World A) (k : A → Exec World B)
      → Reads revision m
      → ((a : A) → Reads revision (k a))
      → Reads revision (m >>= k)
  bound-Reads m k reads each = Reads-Keeps revision (λ n ns v.
      Keeps-bind (Keeps-Reads revision n ns (λ k. k ≡ v) reads)
        (λ a. Keeps-Reads revision n ns (λ k. k ≡ v) (each a)))

  pub action_config-Reads : (ns : String) → Reads revision (get_action_config sdk ns)
  unfolding get_action_config
  action_config-Reads ns = wrapped-Reads _ (sdk.init_config ns) (lawful.init_reads ns)

  chart_path-Reads : (d : String) (o : Option String) → Reads revision (chart_path sdk d o)
  unfolding raise pure
  chart_path-Reads d none w n ns = refl
  chart_path-Reads d (some name) w n ns = refl

  download_chart-Reads : (u c v : String) → Reads revision (download_chart sdk u c v)
  unfolding download_chart
  download_chart-Reads u c v =
      bound-Reads _ _ (wrapped-Reads _ (sdk.mkdir_temp _) (lawful.temp_reads _)) (λ dir.
        bound-Reads _ _ (wrapped-Reads _ (sdk.run_pull _ c) (lawful.pull_reads _ c)) (λ _.
          bound-Reads _ _ (wrapped-Reads _ (sdk.read_dir dir) (lawful.dir_reads dir))
            (λ files. chart_path-Reads dir (first_chart_file c v files))))

  pub loaded_chart-Reads : (o : InstallOptions Values) → Reads revision (loaded_chart sdk o)
  unfolding loaded_chart
  loaded_chart-Reads o =
      bound-Reads _ _ (wrapped-Reads _ (download_chart sdk _ _ _) (download_chart-Reads _ _ _))
        (λ path. wrapped-Reads _ (sdk.load_chart path) (lawful.load_reads path))

  -- A configuration that is got works on the namespace that it was got for.
  pub action_config-scope :
      (ns : String) (w : World) (c : sdk.Config)
      → (get_action_config sdk ns w).0 ≡ ok c
      → scope c ≡ ns
  unfolding get_action_config
  action_config-scope ns w c h =
      let (h', _) = wrapping-ok _ (sdk.init_config ns) w c h in lawful.init_scope ns w c h'
