-- ===== src/Controller/Cleanup/Frame.antt =====
-- The functions of the cleanup touch the world by their own calls only.
use kube_ephemerals.Prelude.{
  String, Bool, true, false, Option, none, some, List, [], ◌∷◌, ◌==◌, refl, ◌≡◌, arith,
}
use kube_ephemerals.Exec.{Result, ok, err, Exec}
use kube_ephemerals.Exec.Hoare.{
  Keeps, Keeps-pure, Keeps-gets, Keeps-if, Keeps-wrapping, Keeps-bind, Keeps-attempt,
}
use kube_ephemerals.Api.Types.{ComponentStatus, expired}
use kube_ephemerals.Kube.Objects.{Object, Kind, ObjectKey, namespace_kind, httproute_kind}
use kube_ephemerals.Helm.Client.{HelmClient}
use kube_ephemerals.Controller.Base.{Reconciler, Session, World}
use kube_ephemerals.Controller.Frame.{
  Stable, Notes, Keeps-call, Keeps-set_status_any, Restatus, Keeps-set_condition,
}
use kube_ephemerals.Controller.Cleanup.{
  delete_object, unless_not_found, delete_unless_terminating, delete_found, cleanup_namespace,
  cleanup_httproute, cleanup_admin_httproute, ignoring, uninstall_if, uninstall_component,
  uninstall_components, uninstall_legacy, uninstall_tracked, uninstall_with, uninstall_helm_release,
  cleanup_dependents, mark_expired, expire_dependents,
}

-- The calls of the cleanup.
pub record Cleans (r : Reconciler) (J : Session (World r) → Type 0) : Type 0 where
  pub gets_object : (d : Kind) (k : ObjectKey) → Stable J (r.client.get_object d k)
  pub deletes_object : (d : Kind) (k : ObjectKey) → Stable J (r.client.delete_object d k)
  pub checks :
      (h : HelmClient (World r) r.library.Values) (n ns : String)
      → r.helm_client ≡ some h
      → Stable J (h.is_installed n ns)
  pub uninstalls :
      (h : HelmClient (World r) r.library.Values) (n ns : String)
      → r.helm_client ≡ some h
      → Stable J (h.uninstall n ns)

module _ (r : Reconciler) (J : Session (World r) → Type 0) where
  pub Keeps-ignoring :
      (m : Exec (Session (World r)) (Unit {0})) → Keeps J m → Keeps J (ignoring r m)
  unfolding ignoring
  Keeps-ignoring m km = Keeps-attempt km (λ x. Keeps-pure tt)

module _ (r : Reconciler) (J : Session (World r) → Type 0) (c : Cleans r J) where
  Keeps-unless_not_found :
      (prefix : String) (x : Result (Unit {0})) → Keeps J (unless_not_found r prefix x)
  Keeps-unless_not_found prefix (ok _) = record { at = λ s j. j }
  Keeps-unless_not_found prefix (err e) = record { at = λ s j. ground arith }

  Keeps-delete_object :
      (d : Kind) (k : ObjectKey) (what : String) → Keeps J (delete_object r d k what)
  unfolding delete_object
  Keeps-delete_object d k what =
      Keeps-attempt (Keeps-call J _ (c.deletes_object d k)) (Keeps-unless_not_found _)

  Keeps-delete_unless_terminating :
      (k : ObjectKey) (what : String) (x : Result Object)
      → Keeps J (delete_unless_terminating r k what x)
  Keeps-delete_unless_terminating k what (ok o) = record {
    at = λ s j. ground (arith, (Keeps-delete_object namespace_kind k what).at s j);
  }
  Keeps-delete_unless_terminating k what (err e) = record { at = λ s j. ground arith }

  pub Keeps-cleanup_namespace : Keeps J (cleanup_namespace r)
  unfolding cleanup_namespace
  Keeps-cleanup_namespace =
      Keeps-bind (Keeps-gets _) λ e.
        Keeps-attempt (Keeps-call J _ (c.gets_object _ _)) (Keeps-delete_unless_terminating _ _)

  Keeps-delete_found :
      (k : ObjectKey) (what : String) (x : Result Object) → Keeps J (delete_found r k what x)
  Keeps-delete_found k what (ok o) = record {
    at = λ s j. (Keeps-delete_object httproute_kind k what).at s j;
  }
  Keeps-delete_found k what (err e) = record { at = λ s j. ground arith }

  pub Keeps-cleanup_httproute : Keeps J (cleanup_httproute r)
  unfolding cleanup_httproute
  Keeps-cleanup_httproute =
      Keeps-bind (Keeps-gets _)
        λ e. Keeps-attempt (Keeps-call J _ (c.gets_object _ _)) (Keeps-delete_found _ _)

  pub Keeps-cleanup_admin_httproute : Keeps J (cleanup_admin_httproute r)
  unfolding cleanup_admin_httproute
  Keeps-cleanup_admin_httproute =
      Keeps-bind (Keeps-gets _)
        λ e. Keeps-attempt (Keeps-call J _ (c.gets_object _ _)) (Keeps-delete_found _ _)

  module _ (helm : HelmClient (World r) r.library.Values) (e : r.helm_client ≡ some helm) where
    Keeps-uninstall_if : (n ns : String) (x : Result Bool) → Keeps J (uninstall_if r helm n ns x)
    Keeps-uninstall_if n ns (ok true) = record {
      at = λ s j. (Keeps-ignoring r J _ (Keeps-call J _ (c.uninstalls helm n ns e))).at s j;
    }
    Keeps-uninstall_if n ns (ok false) = record { at = λ s j. j }
    Keeps-uninstall_if n ns (err _) = record { at = λ s j. j }

    Keeps-uninstall_component :
        (ns : String) (k : ComponentStatus) → Keeps J (uninstall_component r helm ns k)
    unfolding uninstall_component
    Keeps-uninstall_component ns k =
        Keeps-if (k.release_name == "") (Keeps-pure tt)
          (Keeps-attempt (Keeps-call J _ (c.checks helm _ ns e)) (Keeps-uninstall_if _ ns))

    Keeps-uninstall_components :
        (ns : String) (ks : List ComponentStatus) → Keeps J (uninstall_components r helm ns ks)
    unfolding uninstall_components
    Keeps-uninstall_components ns [] = Keeps-pure tt
    Keeps-uninstall_components ns (k ∷ ks) =
        Keeps-bind (Keeps-uninstall_component ns k) (λ _. Keeps-uninstall_components ns ks)

    Keeps-uninstall_legacy : Keeps J (uninstall_legacy r helm)
    unfolding uninstall_legacy
    Keeps-uninstall_legacy = Keeps-bind (Keeps-gets _) λ env.
        Keeps-bind (Keeps-wrapping _ (Keeps-call J _ (c.checks helm _ _ e))) λ b.
          Keeps-if b (Keeps-wrapping _ (Keeps-call J _ (c.uninstalls helm _ _ e))) (Keeps-pure tt)

    Keeps-uninstall_tracked : (ks : List ComponentStatus) → Keeps J (uninstall_tracked r helm ks)
    Keeps-uninstall_tracked [] = record { at = λ s j. Keeps-uninstall_legacy.at s j }
    Keeps-uninstall_tracked (k ∷ ks) = record {
      at = λ s j. (Keeps-uninstall_components _ (k ∷ ks)).at s j;
    }

  Keeps-uninstall_with :
      (h : Option (HelmClient (World r) r.library.Values))
      → r.helm_client ≡ h
      → Keeps J (uninstall_with r h)
  Keeps-uninstall_with none e = record { at = λ s j. j }
  Keeps-uninstall_with (some helm) e = record {
    at = λ s j. (Keeps-uninstall_tracked helm e s.env.status.component_statuses).at s j;
  }

  pub Keeps-uninstall_helm_release : Keeps J (uninstall_helm_release r)
  unfolding uninstall_helm_release
  Keeps-uninstall_helm_release = Keeps-uninstall_with r.helm_client refl

  pub Keeps-cleanup_dependents : Keeps J (cleanup_dependents r)
  unfolding cleanup_dependents
  Keeps-cleanup_dependents = Keeps-bind (Keeps-ignoring r J _ Keeps-cleanup_admin_httproute) λ _.
      Keeps-bind (Keeps-ignoring r J _ Keeps-cleanup_httproute)
        λ _. Keeps-ignoring r J _ Keeps-uninstall_helm_release

  pub Keeps-expire_dependents :
      Notes r J
      → ((message : String) → Restatus J (λ st. record st { phase = expired; message = message }))
      → Keeps J (expire_dependents r)
  unfolding expire_dependents mark_expired
  Keeps-expire_dependents notes expires =
      Keeps-bind
        (Keeps-bind (Keeps-set_status_any J _ (expires _))
          (λ _. Keeps-set_condition r J _ _ _ _ notes))
        λ _.
          Keeps-bind (Keeps-ignoring r J _ Keeps-cleanup_httproute)
            λ _. Keeps-ignoring r J _ Keeps-uninstall_helm_release
