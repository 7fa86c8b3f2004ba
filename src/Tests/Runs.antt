-- ===== src/Tests/Runs.antt =====
-- The theorems at the small cluster.
use kube_ephemerals.Prelude.{
  String, true, none, some, [], ◌∷◌, map, any, ◌≡◌, ◌≢◌, refl, pos, ◌≤ℤ◌, ◌≤◌, length, arith, ◌⊎◌,
}
use kube_ephemerals.Prelude.Text.{contains_text}
use kube_ephemerals.Prelude.Int.{◌-ℤ◌, ◌+ℤ◌, ltb_ℤ}
use kube_ephemerals.Exec.{ok, ◌>>=◌, wrapping, gets, pure, attempt}
use kube_ephemerals.Api.Types.{EphemeralEnv, ComponentStatus, active, pending}
use kube_ephemerals.Api.Helpers.{get_namespace_name, is_expired}
use kube_ephemerals.Kube.Trace.{traced_helm, only_after}
use kube_ephemerals.Helm.Mock.{mock, mock_install, mock_is_installed}
use kube_ephemerals.Controller.Base.{
  returned, second, call, clock, set_status, set_condition, update_status, or_return,
}
use kube_ephemerals.Controller.Sanitize.{codes, sanitize_name}
use kube_ephemerals.Controller.Sanitize.Bounds.{all, is_name_code}
use kube_ephemerals.Controller.Sanitize.Fragment.{sanitize_name-fragment}
use kube_ephemerals.Controller.Components.{
  release_name_of, deploy_component, parse_values, deploy_components, resolve_components,
}
use kube_ephemerals.Controller.Components.Deployed.{
  reported, deployed_as, deploy_components-reports,
}
use kube_ephemerals.Controller.Components.Order.{
  found_missing, installs, deploy_components-only_after,
}
use kube_ephemerals.Controller.Components.Releases.{chosen, resolve_components-chosen}
use kube_ephemerals.Controller.Discovery.{
  discover_service, is_eligible, choose_service, matching_services,
}
use kube_ephemerals.Controller.Discovery.Sound.{
  SortKeeps, is_target, discover_service_sound, discover_service_complete,
}
use kube_ephemerals.Controller.Cleanup.{
  handle_deletion, handle_expiration, uninstall_components, expire_dependents, mark_expired,
  cleanup_httproute, cleanup_namespace, uninstall_helm_release, record_reconcile_time, store_status,
}
use kube_ephemerals.Controller.Cleanup.Order.{gone, is_env_update, handle_deletion-only_after}
use kube_ephemerals.Controller.Cleanup.Safety.{
  never, makes, makes_or_updates, handle_deletion-never, handle_expiration-never,
  handle_expiration-gone,
}
use kube_ephemerals.Controller.Cleanup.Effort.{settled_all, uninstall_components-settled}
use kube_ephemerals.Controller.Traced.{traced_reconciler, on_call, fresh}
use kube_ephemerals.Controller.Reconcile.{requeue_delay, max_duration, reconcile_live}
use kube_ephemerals.Controller.Reconcile.Requeue.{is_expired-requeue_delay}
use kube_ephemerals.Controller.Reconcile.Activation.{ensured_all, is_activation}
use kube_ephemerals.Controller.Reconcile.Activation.Live.{reconcile_live-only_after}
use kube_ephemerals.Controller.Reconcile.Guarded.{AddsFinalizer, stores_finalizer}
use kube_ephemerals.Controller.Reconcile.Finalizer.{guard_finalizer-only_after}
use kube_ephemerals.Controller.Reconcile.{guard_finalizer}
use text.Mathlib.TextPositions.{eq_refl}
use kube_ephemerals.Tests.Cluster.{
  library, reconciler, client, start, component, shop, session, services,
}

pending-inactive : pending ≢ active
pending-inactive h = ground (arith, h)

reconcile_live-only_after_example :
    only_after
      (ensured_all shop)
      (on_call is_activation)
      (reconcile_live (traced_reconciler reconciler) (fresh start shop)).1.world.log
    ≡ true
reconcile_live-only_after_example = reconcile_live-only_after reconciler start shop pending-inactive

handle_deletion-only_after_example :
    only_after
      (gone (get_namespace_name shop))
      (on_call is_env_update)
      (handle_deletion (traced_reconciler reconciler) (fresh start shop)).1.world.log
    ≡ true
handle_deletion-only_after_example = handle_deletion-only_after reconciler start shop

handle_deletion-never_example :
    never makes (handle_deletion (traced_reconciler reconciler) (fresh start shop)).1.world.log
    ≡ true
handle_deletion-never_example = handle_deletion-never reconciler start shop

handle_expiration-never_example :
    never makes_or_updates
      (handle_expiration (traced_reconciler reconciler) (fresh start shop)).1.world.log
    ≡ true
handle_expiration-never_example = handle_expiration-never reconciler start shop

expiration_succeeds :
    (handle_expiration (traced_reconciler reconciler) (fresh start shop)).0 ≡ returned (pos 0) none
unfolding handle_expiration expire_dependents mark_expired set_status set_condition clock ◌>>=◌
    attempt gets call pure wrapping cleanup_httproute cleanup_namespace uninstall_helm_release
    record_reconcile_time store_status update_status or_return mock_is_installed
expiration_succeeds = refl

handle_expiration-gone_example :
    gone
      (get_namespace_name shop)
      (handle_expiration (traced_reconciler reconciler) (fresh start shop)).1.world.log
    ≡ true
handle_expiration-gone_example =
    handle_expiration-gone reconciler start shop (pos 0) expiration_succeeds

deployed_web : ComponentStatus
deployed_web = record {
  name = "web";
  release_name = "env-shop-web";
  status = "Deployed";
  last_deployed = some (pos 1000);
  message = "Helm release env-shop-web installed successfully";
}

deploys_web :
    (deploy_components reconciler mock "env-shop" (component "web" ∷ []) session).0
    ≡ ok (deployed_web ∷ [])
unfolding deploy_components deployed_web ◌>>=◌ wrapping deploy_component gets call mock_is_installed
    parse_values mock_install clock set_status pure release_name_of sanitize_name
deploys_web = refl

deploy_components-reports_example :
    map reported (deployed_web ∷ []) ≡ map (deployed_as shop) (component "web" ∷ [])
deploy_components-reports_example =
    deploy_components-reports reconciler mock "env-shop" (component "web" ∷ []) session
      (deployed_web ∷ []) deploys_web

deploy_components-only_after_example :
    only_after
      (found_missing "env-shop-web" "env-shop")
      (on_call (installs "env-shop-web" "env-shop"))
      (deploy_components
        (traced_reconciler reconciler)
        (traced_helm mock)
        "env-shop"
        (component "web" ∷ component "db" ∷ [])
        (fresh start shop)).1.world.log
    ≡ true
deploy_components-only_after_example =
    deploy_components-only_after reconciler mock "env-shop-web" "env-shop" start shop "env-shop"
      (component "web" ∷ component "db" ∷ [])

pub library-SortKeeps : SortKeeps library
library-SortKeeps A less p xs = refl

discovers_web : (discover_service reconciler 8080 session).0 ≡ ok "shop-web"
unfolding discover_service ◌>>=◌ gets wrapping call choose_service matching_services is_eligible
    contains_text pure
discovers_web = refl

discover_service_sound_example : any (is_target reconciler 8080 "shop-web") services ≡ true
discover_service_sound_example =
    discover_service_sound reconciler 8080 library-SortKeeps session services "shop-web" refl
      discovers_web

pub has_eligible : any (is_eligible reconciler 8080) services ≡ true
unfolding is_eligible contains_text
has_eligible = refl

discover_service_complete_example :
    (name : String) × ((discover_service reconciler 8080 session).0 ≡ ok name)
discover_service_complete_example =
    discover_service_complete reconciler 8080 library-SortKeeps session services refl has_eligible

uninstall_components-settled_example :
    ((uninstall_components
        (traced_reconciler reconciler)
        (traced_helm mock)
        "env-shop"
        (deployed_web ∷ [])
        (fresh start shop)).0
      ≡ ok tt)
    × (settled_all "env-shop"
          (deployed_web ∷ [])
          (uninstall_components
            (traced_reconciler reconciler)
            (traced_helm mock)
            "env-shop"
            (deployed_web ∷ [])
            (fresh start shop)).1.world.log
        ≡ true)
uninstall_components-settled_example =
    uninstall_components-settled reconciler mock "env-shop" (deployed_web ∷ []) (fresh start shop)

resolve_components-chosen_example :
    (resolve_components reconciler session).0
    ≡ ok (chosen (λ key. (client.get_template key start).0) shop)
resolve_components-chosen_example = resolve_components-chosen reconciler session

soon : pos 2000 -ℤ pos 1000 ≤ℤ max_duration
unfolding ◌-ℤ◌
soon = ground arith

delayed : ltb_ℤ (pos 1000 +ℤ requeue_delay (pos 2000) (pos 1000)) (pos 2001) ≡ true
unfolding ◌-ℤ◌ ◌+ℤ◌ requeue_delay
delayed = refl

is_expired-requeue_delay_example :
    (is_expired (pos 2001) shop ≡ true)
    × (pos 0 ≤ℤ requeue_delay (pos 2000) (pos 1000))
    × ((pos 1000 +ℤ requeue_delay (pos 2000) (pos 1000) ≤ℤ pos 2000)
        ⊎ ((ltb_ℤ (pos 2000) (pos 1000) ≡ true) × (requeue_delay (pos 2000) (pos 1000) ≡ second)))
is_expired-requeue_delay_example =
    is_expired-requeue_delay (pos 2000) (pos 1000) (pos 2001) shop refl soon delayed

sanitize_name-fragment_example :
    (1 ≤ length (codes (sanitize_name "My App")))
    × (length (codes (sanitize_name "My App")) ≤ 20)
    × (all is_name_code (codes (sanitize_name "My App")) ≡ true)
sanitize_name-fragment_example = sanitize_name-fragment "My App"

abbrev unguarded : EphemeralEnv
unguarded = record shop { metadata = record shop.metadata { finalizers = [] } }

library-AddsFinalizer : AddsFinalizer library
library-AddsFinalizer fs f = ground (arith, eq_refl f)

guard_finalizer-only_after_example :
    only_after
      (any (stores_finalizer library))
      (on_call makes)
      (guard_finalizer
        (traced_reconciler reconciler)
        (record { name = "shop"; namespace = "default" })
        (fresh start unguarded)).1.world.log
    ≡ true
guard_finalizer-only_after_example =
    guard_finalizer-only_after reconciler (record { name = "shop"; namespace = "default" }) start
      unguarded library-AddsFinalizer refl
