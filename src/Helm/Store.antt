-- ===== src/Helm/Store.antt =====
-- What a Helm client promises of the releases it manages, which its callers rely on.
use kube_ephemerals.Prelude.{ℕ, suc, ◌<◌, String, true, ◌≡◌, ◌≢◌, ◌⊎◌}
use kube_ephemerals.Exec.{ok, Exec}
use kube_ephemerals.Helm.Client.{InstallOptions, HelmClient}

module _ {World : Type 0} (revision : World → String → String → ℕ) where
  -- An action that leaves all releases as they are.
  abbrev pub Reads : {A : Type 0} → Exec World A → Type 0
  Reads m = (w : World) (n ns : String) → revision (m w).1 n ns ≡ revision w n ns

  -- An action that leaves all releases but one as they are.
  abbrev pub ReadsOthers : {A : Type 0} → String → String → Exec World A → Type 0
  ReadsOthers release namespace m =
      (w : World) (n ns : String)
      → (release ≢ n) ⊎ (namespace ≢ ns)
      → revision (m w).1 n ns ≡ revision w n ns

  -- An action after which no release is lost.
  abbrev pub Grows : {A : Type 0} → Exec World A → Type 0
  Grows m = (w : World) (n ns : String) → 0 < revision w n ns → 0 < revision (m w).1 n ns

  -- A success changes the revision of a release in this way.
  abbrev pub Turns : {A : Type 0} → (ℕ → ℕ) → String → String → Exec World A → Type 0
  Turns {A} f release namespace m =
      (w : World) (a : A)
      → (m w).0 ≡ ok a
      → revision (m w).1 release namespace ≡ f (revision w release namespace)

module _ {World Values : Type 0} (revision : World → String → String → ℕ) where
  -- `revision` is that of a release of this name in this namespace, and 0 where there is none: a
  -- client that implements a store of releases.
  pub record ReleaseStore (client : HelmClient World Values) : Type 0 where
    pub checks_read : (n ns : String) → Reads revision (client.is_installed n ns)
    pub checks_sound :
        (n ns : String) (w : World) → (client.is_installed n ns w).0 ≡ ok true → 0 < revision w n ns
    pub status_reads : (n ns : String) → Reads revision (client.release_status n ns)
    pub installs :
        (o : InstallOptions Values)
        → Turns revision suc o.release_name o.namespace (client.install o)
    pub installs_others :
        (o : InstallOptions Values)
        → ReadsOthers revision o.release_name o.namespace (client.install o)
    pub installs_grow : (o : InstallOptions Values) → Grows revision (client.install o)
    pub uninstalls : (n ns : String) → Turns revision (λ _. 0) n ns (client.uninstall n ns)
    pub uninstalls_others : (n ns : String) → ReadsOthers revision n ns (client.uninstall n ns)
