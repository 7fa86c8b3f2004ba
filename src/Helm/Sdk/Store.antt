-- ===== src/Helm/Sdk/Store.antt =====
-- `SDKClient` implements a store of releases.
use kube_ephemerals.Prelude.{ℕ, suc, ◌<◌, String, true, ◌≡◌, refl, ap, ◌∙◌, arith}
use kube_ephemerals.Exec.{Result, ok, err, Exec, continue, pure, attempt, ◌>>=◌}
use kube_ephemerals.Exec.Hoare.{Keeps, Keeps-pure, Keeps-bind, Keeps-wrapping, Keeps-attempt}
use kube_ephemerals.Exec.Inversion.{bind-ok, ok-injective}
use kube_ephemerals.Helm.Client.{InstallOptions}
use kube_ephemerals.Helm.Store.{Reads, ReadsOthers, Grows, Turns, ReleaseStore}
use kube_ephemerals.Helm.Sdk.{
  Sdk, Install, Upgrade, sdk_client, sdk_install, sdk_uninstall, sdk_status, sdk_is_installed,
  get_action_config, upgrade, install_new, by_history, release_to_info, succeeded,
}
use kube_ephemerals.Helm.Sdk.Lawful.{
  Lawful, Turns-after, Turns-attempt, Turns-pure, Turns-wrapping, Keeps-Reads, Reads-Keeps,
  wrapped-Reads, bound-Reads, action_config-Reads, loaded_chart-Reads, action_config-scope,
}

module _ {World Values : Type 0} (sdk : Sdk World Values) (revision : World → String → String → ℕ)
    (scope : sdk.Config → String) (lawful : Lawful sdk revision scope) where
  module _ (opts : InstallOptions Values) where
    by_history-Turns :
        (c : sdk.Config) (x : Result (Unit {0}))
        → scope c ≡ opts.namespace
        → Turns revision suc opts.release_name opts.namespace (by_history sdk c opts x)
    unfolding install_new upgrade
    by_history-Turns c (ok _) at_scope =
        Turns-after revision suc opts.release_name opts.namespace
          (loaded_chart-Reads sdk revision scope lawful opts)
          (λ w ch got. Turns-pure revision suc _ _ release_to_info (
            Turns-wrapping revision suc _ _ _
              (rw (← at_scope) (lawful.upgrade_adds c _ opts.release_name ch _))))
    by_history-Turns c (err e) at_scope =
        Turns-after revision suc opts.release_name opts.namespace
          (loaded_chart-Reads sdk revision scope lawful opts)
          (λ w ch got.
            Turns-pure revision suc _ _ release_to_info
              (Turns-wrapping revision suc _ _ _ (rw (← at_scope) (lawful.install_adds c _ ch _))))

    sdk_install-Turns : Turns revision suc opts.release_name opts.namespace (sdk_install sdk opts)
    unfolding sdk_install
    sdk_install-Turns =
        Turns-after revision suc _ _ (action_config-Reads sdk revision scope lawful opts.namespace)
          (λ w c got.
            Turns-attempt revision suc _ _ (sdk.run_history c opts.release_name 1)
              (lawful.history_reads c opts.release_name 1)
              (λ x.
                by_history-Turns c x
                  (action_config-scope sdk revision scope lawful opts.namespace w c got)))

  -- A statement of one release's revision is kept after a configuration is got, if each that works
  -- on the namespace keeps it.
  Keeps-scoped :
      {B : Type 0} (n ns : String) (P : ℕ → Type 0) (namespace : String)
      (k : sdk.Config → Exec World B)
      → ((c : sdk.Config) → scope c ≡ namespace → Keeps (λ w. P (revision w n ns)) (k c))
      → Keeps (λ w. P (revision w n ns)) (get_action_config sdk namespace >>= k)
  unfolding ◌>>=◌
  Keeps-scoped {B} n ns P namespace k each = record {
    at = λ w before.
        by_result (get_action_config sdk namespace w)
          (action_config-scope sdk revision scope lawful namespace w)
          (rw (action_config-Reads sdk revision scope lawful namespace w n ns) before);
  }
    where
      by_result :
          (x : Result sdk.Config × World)
          → ((c : sdk.Config) → x.0 ≡ ok c → scope c ≡ namespace)
          → P (revision x.1 n ns)
          → P (revision (continue k x).1 n ns)
      by_result (ok c, w) at_scope before = (each c (at_scope c refl)).at w before
      by_result (err e, w) at_scope before = before

  module _ (opts : InstallOptions Values) (n ns : String) (P : ℕ → Type 0)
      (on_install : (c : sdk.Config)
        → scope c ≡ opts.namespace
        → (i : Install) → i.release_name ≡ opts.release_name
        → (ch : sdk.Chart) (v : Values)
        → Keeps (λ w. P (revision w n ns)) (sdk.run_install c i ch v))
      (on_upgrade : (c : sdk.Config)
        → scope c ≡ opts.namespace
        → (u : Upgrade) (ch : sdk.Chart) (v : Values)
        → Keeps (λ w. P (revision w n ns)) (sdk.run_upgrade c u opts.release_name ch v)) where
    by_history-Keeps :
        (c : sdk.Config) (x : Result (Unit {0}))
        → scope c ≡ opts.namespace
        → Keeps (λ w. P (revision w n ns)) (by_history sdk c opts x)
    unfolding install_new upgrade
    by_history-Keeps c (ok _) at_scope =
        Keeps-bind (Keeps-Reads revision n ns P (loaded_chart-Reads sdk revision scope lawful opts))
          (λ ch. Keeps-bind (Keeps-wrapping _ (on_upgrade c at_scope _ ch _)) (λ rel. Keeps-pure _))
    by_history-Keeps c (err e) at_scope =
        Keeps-bind (Keeps-Reads revision n ns P (loaded_chart-Reads sdk revision scope lawful opts))
          (λ ch.
            Keeps-bind (Keeps-wrapping _ (on_install c at_scope _ refl ch _)) (λ rel. Keeps-pure _))

    sdk_install-Keeps : Keeps (λ w. P (revision w n ns)) (sdk_install sdk opts)
    unfolding sdk_install
    sdk_install-Keeps = Keeps-scoped n ns P opts.namespace _ (λ c at_scope.
        Keeps-attempt (Keeps-Reads revision n ns P (lawful.history_reads c opts.release_name 1))
          (λ x. by_history-Keeps c x at_scope))

  sdk_install-others :
      (opts : InstallOptions Values)
      → ReadsOthers revision opts.release_name opts.namespace (sdk_install sdk opts)
  sdk_install-others opts w n ns other =
      (sdk_install-Keeps opts n ns (λ k. k ≡ revision w n ns)
          (λ c at_scope i same ch v. record {
            at = λ w' before.
                lawful.install_others c i ch v w' n ns (rw (same, at_scope) other) ∙ before;
          })
          (λ c at_scope u ch v. record {
            at = λ w' before.
                lawful.upgrade_others c u opts.release_name ch v w' n ns (rw at_scope other)
                ∙ before;
          })).at
        w refl

  sdk_install-Grows : (opts : InstallOptions Values) → Grows revision (sdk_install sdk opts)
  sdk_install-Grows opts w n ns =
      (sdk_install-Keeps opts n ns (λ k. 0 < k)
          (λ c at_scope i same ch v. record { at = λ w'. lawful.install_grows c i ch v w' n ns })
          (λ c at_scope u ch v. record {
            at = λ w'. lawful.upgrade_grows c u opts.release_name ch v w' n ns;
          })).at
        w

  sdk_uninstall-Turns : (n ns : String) → Turns revision (λ _. 0) n ns (sdk_uninstall sdk n ns)
  unfolding sdk_uninstall
  sdk_uninstall-Turns n ns =
      Turns-after revision (λ _. 0) n ns (action_config-Reads sdk revision scope lawful ns)
        (λ w c got.
          Turns-wrapping revision (λ _. 0) n ns _
            (rw (← action_config-scope sdk revision scope lawful ns w c got)
              (lawful.uninstall_removes c n)))

  sdk_uninstall-others : (n ns : String) → ReadsOthers revision n ns (sdk_uninstall sdk n ns)
  unfolding sdk_uninstall
  sdk_uninstall-others n ns w m ms other =
      (Keeps-scoped m ms (λ k. k ≡ revision w m ms) ns _
          (λ c at_scope. Keeps-wrapping _ (record {
            at = λ w' before. lawful.uninstall_others c n w' m ms (rw at_scope other) ∙ before;
          }))).at
        w refl

  sdk_is_installed-Reads : (n ns : String) → Reads revision (sdk_is_installed sdk n ns)
  unfolding sdk_is_installed
  sdk_is_installed-Reads n ns =
      bound-Reads sdk revision scope lawful _ _ (action_config-Reads sdk revision scope lawful ns)
        (λ c. Reads-Keeps revision (λ m ms v.
          Keeps-attempt (Keeps-Reads revision m ms (λ k. k ≡ v) (lawful.history_reads c n 1))
            (λ x. Keeps-pure _)))

  sdk_status-Reads : (n ns : String) → Reads revision (sdk_status sdk n ns)
  unfolding sdk_status pure
  sdk_status-Reads n ns =
      bound-Reads sdk revision scope lawful _ _ (action_config-Reads sdk revision scope lawful ns)
        (λ c.
          bound-Reads sdk revision scope lawful _ _
            (wrapped-Reads sdk revision scope lawful _ (sdk.run_status c n)
              (lawful.status_reads c n))
            (λ rel w m ms. refl))

  succeeded-ok : (x : Result (Unit {0})) → succeeded sdk x ≡ true → x ≡ ok tt
  succeeded-ok (ok _) h = refl
  succeeded-ok (err e) h = absurd (ground (arith, h))

  succeeded-history :
      (c : sdk.Config) (n : String) (w : World)
      → succeeded sdk (sdk.run_history c n 1 w).0 ≡ true
      → 0 < revision w n (scope c)
  succeeded-history c n w h =
      lawful.history_finds c n 1 w (succeeded-ok (sdk.run_history c n 1 w).0 h)

  sdk_is_installed_sound :
      (n ns : String) (w : World) → (sdk_is_installed sdk n ns w).0 ≡ ok true → 0 < revision w n ns
  unfolding sdk_is_installed attempt pure
  sdk_is_installed_sound n ns w h =
      let (c, got, answered) = bind-ok (get_action_config sdk ns) _ w true h in
      let w' = (get_action_config sdk ns w).1 in
      let found = succeeded-history c n w' (ok-injective _ _ answered) in
      let same_revision : revision w' n (scope c) ≡ revision w n ns =
        ap (revision w' n) (action_config-scope sdk revision scope lawful ns w c got)
        ∙ action_config-Reads sdk revision scope lawful ns w n ns in
      ground (arith, found, same_revision)

  -- The client of the Helm SDK implements a store of releases, if the SDK does what it documents: a
  -- release that it reports as installed is there, an installation that succeeds adds a revision, an
  -- uninstallation that succeeds takes the release away, an installation loses no release, and all
  -- that is not the operation's own release stays as it is, also when the operation fails.
  pub sdk_client-ReleaseStore : ReleaseStore revision (sdk_client sdk)
  sdk_client-ReleaseStore = record {
    checks_read = sdk_is_installed-Reads;
    checks_sound = sdk_is_installed_sound;
    status_reads = sdk_status-Reads;
    installs = sdk_install-Turns;
    installs_others = sdk_install-others;
    installs_grow = sdk_install-Grows;
    uninstalls = sdk_uninstall-Turns;
    uninstalls_others = sdk_uninstall-others;
  }
