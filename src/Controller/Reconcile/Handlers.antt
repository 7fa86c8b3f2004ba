-- ===== src/Controller/Reconcile/Handlers.antt =====
-- What the handlers of a reconciliation leave alone: a statement that their calls and their changes of
-- the status keep holds when they end.
use kube_ephemerals.Prelude.{ℕ, pos, String, Option, none, some, refl}
use kube_ephemerals.Exec.{Failure, Result, ok, err, Exec, ◌>>◌}
use kube_ephemerals.Exec.Hoare.{Keeps, Keeps-bind, Keeps-wrapping}
use kube_ephemerals.Api.Types.{Time, active, failed, expired}
use kube_ephemerals.Controller.Base.{
  Reconciler, Session, World, Handler, returned, failed_with, update_status, or_return,
  return_error_after, reconcile_step_on_error,
}
use kube_ephemerals.Controller.Frame.{
  Restatus, Notes, Keeps-clock, Keeps-set_status_any, Keeps-set_status, Keeps-set_condition,
}
use kube_ephemerals.Controller.Resources.Frame.{
  Enters, Keeps-ensure_namespace, Keeps-ensure_developer_access_rbac, Keeps-ensure_network_policy,
}
use kube_ephemerals.Controller.Routes.Frame.{Keeps-ensure_httproute, Keeps-ensure_reference_grant}
use kube_ephemerals.Controller.Discovery.Frame.{Keeps-discover_service}
use kube_ephemerals.Controller.Cleanup.{
  handle_expiration, expiration_done, expire_dependents, cleanup_namespace, record_reconcile_time,
  store_status,
}
use kube_ephemerals.Controller.Cleanup.Frame.{
  Cleans, Keeps-cleanup_namespace, Keeps-expire_dependents,
}
use kube_ephemerals.Controller.Reconcile.{
  step, after_step, after_helm, finish, requeue, requeue_at, activate, deploy,
  reconcile_helm_failed, mark_helm_failed, provision, publish, deploy_last, route, route_by,
  discover_and_publish, after_discovery,
}
use kube_ephemerals.Controller.Reconcile.Frame.{Provisions, Keeps-deploy, Keeps-ensure_admin}

module _ (r : Reconciler) (J : Session (World r) → Type 0) where
  -- A handler at whose end the statement holds, if it did at the start.
  abbrev pub Leads : Handler (World r) → Type 0
  Leads k = (s : Session (World r)) → J s → J (k s).1

  pub Leads-or_return :
      (m : Exec (Session (World r)) (Unit {0})) (k : Handler (World r))
      → Keeps J m
      → Leads k
      → Leads (or_return m k)
  unfolding or_return
  Leads-or_return m k keeps leads s j = by_result (m s) (keeps.at s j)
    where
      by_result : (x : Result (Unit {0}) × Session (World r)) → J x.1 → J (return_error_after k x).1
      by_result (ok tt, t) i = leads t i
      by_result (err e, t) i = i

  -- Writing the status that was noted in a run.
  Keeps-written :
      Notes r J → Keeps J (update_status r) → Keeps J (do record_reconcile_time r; store_status r)
  unfolding record_reconcile_time store_status
  Keeps-written notes saves =
      Keeps-bind
        (Keeps-bind (Keeps-clock r J notes)
          (λ t. Keeps-set_status J notes.restatus _ (λ st. (refl, refl, refl))))
        (λ _. Keeps-wrapping _ saves)

  -- The calls of a provisioning, and what it makes of the status.
  pub record Provides : Type 0 where
    pub provisions : Provisions r J
    pub enters : Enters r J
    pub saves : Keeps J (update_status r)
    pub fails : (message : String) → Restatus J (failed_with r message)
    pub helm_fails :
        (message : String) → Restatus J (λ st. record st { phase = failed; message = message })
    pub activates :
        (message : String) → Restatus J (λ st. record st { phase = active; message = message })

  module _ (p : Provides) where
    Leads-step :
        (m : Exec (Session (World r)) (Unit {0})) (message : String) (k : Handler (World r))
        → Keeps J m
        → Leads k
        → Leads (step r m message k)
    unfolding step reconcile_step_on_error
    Leads-step m message k keeps leads s j = by_result (m s) (keeps.at s j)
      where
        by_result :
            (x : Result (Unit {0}) × Session (World r)) → J x.1 → J (after_step r message k x).1
        by_result (ok tt, t) i = leads t i
        by_result (err e, t) i = p.saves.at _ ((Keeps-set_status_any J _ (p.fails _)).at t i)

    Keeps-mark_helm_failed : (e : Failure) → Keeps J (mark_helm_failed r e)
    unfolding mark_helm_failed
    Keeps-mark_helm_failed e =
        Keeps-bind (Keeps-set_status_any J _ (p.helm_fails _))
          (λ _. Keeps-set_condition r J _ _ _ _ p.provisions.notes)

    Leads-after_helm :
        (k : Handler (World r)) (x : Result (Unit {0}) × Session (World r))
        → Leads k
        → J x.1
        → J (after_helm r k x).1
    unfolding reconcile_helm_failed
    Leads-after_helm k (ok tt, t) leads i = leads t i
    Leads-after_helm k (err e, t) leads i = p.saves.at _ ((Keeps-mark_helm_failed e).at t i)

    Leads-deploy : (k : Handler (World r)) → Leads k → Leads (λ s. after_helm r k (deploy r s))
    Leads-deploy k leads s j =
        Leads-after_helm k (deploy r s) leads ((Keeps-deploy r J p.provisions).at s j)

    Leads-requeue : Leads (requeue r)
    unfolding requeue
    Leads-requeue s j = by_time s.env.status.expiration_time
      where
        by_time : (o : Option Time) → J (requeue_at r o s).1
        by_time none = j
        by_time (some t) = p.provisions.notes.clocked s j

    Leads-finish : Leads (finish r)
    unfolding finish activate
    Leads-finish =
        Leads-or_return _ (requeue r)
          (Keeps-bind (Keeps-set_status_any J _ (p.activates _))
            (λ _. Keeps-written p.provisions.notes p.saves))
          Leads-requeue

    Leads-deploy_last : (o : Option ℕ) → Leads (deploy_last r o)
    Leads-deploy_last none = Leads-deploy (finish r) Leads-finish
    Leads-deploy_last (some _) = Leads-finish

    Leads-publish : (name : String) → Leads (publish r name)
    unfolding publish
    Leads-publish name =
        Leads-step _ _ _ (Keeps-ensure_httproute r J p.provisions.creates name p.provisions.notes)
          (λ s j. Leads-deploy_last _ _ ((Keeps-ensure_admin r J p.provisions).at s j))

    Leads-after_discovery :
        (x : Result String × Session (World r)) → J x.1 → J (after_discovery r x).1
    Leads-after_discovery (ok name, t) i = Leads-publish name t i
    Leads-after_discovery (err e, t) i =
        p.saves.at _
          ((Keeps-set_status J p.provisions.notes.restatus _ (λ st. (refl, refl, refl))).at t i)

    Leads-route : Leads (route r)
    unfolding route discover_and_publish
    Leads-route s j = by_port s.env.spec.service_port
      where
        by_port : (o : Option ℕ) → J (route_by r o s).1
        by_port none = Leads-publish _ s j
        by_port (some port) =
            Leads-deploy _
              (λ t i.
                Leads-after_discovery _
                  ((Keeps-discover_service r J p.provisions.reads p.provisions.lists port).at t i))
              s j

    pub Leads-provision : Leads (provision r)
    unfolding provision
    Leads-provision =
        Leads-step _ _ _
          (Keeps-ensure_namespace r J p.provisions.creates p.provisions.notes p.enters)
          (Leads-step _ _ _
            (Keeps-ensure_developer_access_rbac r J p.provisions.creates p.provisions.notes)
            (Leads-step _ _ _
              (Keeps-ensure_network_policy r J p.provisions.creates p.provisions.notes)
              (Leads-step _ _ _ (Keeps-ensure_reference_grant r J p.provisions.creates)
                Leads-route)))

  -- The calls of an expiration, and what it makes of the status.
  pub record Expires : Type 0 where
    pub cleans : Cleans r J
    pub notes : Notes r J
    pub saves : Keeps J (update_status r)
    pub expires :
        (message : String) → Restatus J (λ st. record st { phase = expired; message = message })

  module _ (x : Expires) where
    Leads-expiration_done :
        (y : Result (Unit {0}) × Session (World r)) → J y.1 → J (expiration_done r y).1
    Leads-expiration_done (ok tt, t) i =
        Leads-or_return _ (λ s'. (returned (pos 0) none, s')) (Keeps-written x.notes x.saves)
          (λ s j. j) t i
    Leads-expiration_done (err e, t) i =
        x.saves.at _ ((Keeps-set_status J x.notes.restatus _ (λ st. (refl, refl, refl))).at t i)

    pub Leads-handle_expiration : Leads (handle_expiration r)
    unfolding handle_expiration
    Leads-handle_expiration s j =
        Leads-expiration_done (cleanup_namespace r (expire_dependents r s).1) (
          (Keeps-cleanup_namespace r J x.cleans).at (expire_dependents r s).1
            ((Keeps-expire_dependents r J x.cleans x.notes x.expires).at s j))
