-- ===== src/Controller/Resources/Isolated.antt =====
-- What `ensureNetworkPolicy` leaves in the cluster.
use kube_ephemerals.Prelude.{
  String, ◌==◌, Bool, true, false, not, ◌&&◌, Option, none, some, List, [], ◌∷◌, any, Labels, ◌≡◌,
  refl, ◌∙◌, arith, get_label, get_label-set_label, set_label,
}
use kube_ephemerals.Exec.{Result, ok, err, is_ok, gets, wrapping, ◌>>=◌, ◌>>◌}
use kube_ephemerals.Api.Types.{EphemeralEnv, condition_true, condition_type_network_policy_applied}
use kube_ephemerals.Api.Helpers.{is_isolation_enabled}
use kube_ephemerals.Kube.Objects.{
  ObjectKey, Kind, Object, Body, kind_of, NetworkPolicySpec, network_policy_body,
  network_policy_kind, PolicyType, ingress_type, egress_type,
}
use kube_ephemerals.Controller.Base.{
  Reconciler, Session, World, label_owner, label_managed_by, managed_by_value, own, call, clock,
  set_status, set_condition,
}
use kube_ephemerals.Controller.Resources.{
  new_object, deny_all, create_or_update, apply_network_policy, ensure_network_policy,
}

-- The object that a mutate function is given: the one that was found, or else the literal.
abbrev pub found_or : Object → Option Object → Object
found_or o none = o
found_or o (some found) = found

-- A cluster with the objects that are in it, where `CreateOrUpdate` does as controller-runtime says:
-- when it succeeds, the object of its key is the one that was found, or else the literal, as the
-- mutate function changed it.
pub record Upserts (r : Reconciler) (find : World r → Kind → ObjectKey → Option Object)
    : Type 0 where
  pub on_upsert :
      (o : Object) (f : Object → Object) (w : World r)
      → is_ok (r.client.create_or_update o f w).0 ≡ true
      → find (r.client.create_or_update o f w).1 (kind_of o.body) o.key
        ≡ some (f (found_or o (find w (kind_of o.body) o.key)))
  pub on_now :
      (w : World r) (kind : Kind) (key : ObjectKey)
      → find (r.client.now w).1 kind key ≡ find w kind key

-- Traffic to or from a pod with these labels, and the rules that it matches.
pub record Traffic : Type 0 where
  pub direction : PolicyType
  pub pod : Labels
  pub matches : String → Bool

abbrev has_value : String → Option String → Bool
has_value v none = false
has_value v (some u) = u == v

-- Whether a selector selects a pod: the empty one selects all.
abbrev selects : Labels → Labels → Bool
selects [] pod = true
selects ((k, v) ∷ selector) pod = has_value v (get_label k pod) && selects selector pod

abbrev is_same : PolicyType → PolicyType → Bool
is_same ingress_type ingress_type = true
is_same egress_type egress_type = true
is_same _ _ = false

abbrev rules_of : PolicyType → NetworkPolicySpec → List String
rules_of ingress_type spec = spec.ingress
rules_of egress_type spec = spec.egress

-- The meaning of a network policy by the Kubernetes API: it isolates the pods that it selects in the
-- directions that it names, and lets through what one of its rules matches.
abbrev pub denies : Traffic → Body → Bool
denies t (network_policy_body spec) =
    selects spec.pod_selector t.pod
    && any (is_same t.direction) spec.policy_types
    && not (any t.matches (rules_of t.direction spec))
denies t _ = false

-- A policy that was not there before denies all traffic; one that was there is as it was.
abbrev pub Guards : Option Object → Object → Type 0
Guards none o = (t : Traffic) → denies t o.body ≡ true
Guards (some before) o = o.body ≡ before.body

abbrev pub policy_key : EphemeralEnv → ObjectKey
policy_key env = record { name = "deny-all"; namespace = env.status.active_namespace }

module _ (r : Reconciler) (find : World r → Kind → ObjectKey → Option Object)
    (upserts : Upserts r find) where
  abbrev pub policy : World r → EphemeralEnv → Option Object
  policy w env = find w network_policy_kind (policy_key env)

  -- After a success the namespace has its policy, which the environment owns; after an error the
  -- environment's status claims nothing that it did not claim before.
  abbrev pub Applied : Session (World r) → Result (Unit {0}) × Session (World r) → Type 0
  Applied s (ok u, s') =
      (o : Object) × (policy s'.world s.env ≡ some o)
      × (get_label label_owner o.labels ≡ some s.env.metadata.name)
      × Guards (policy s.world s.env) o
  Applied s (err f, s') = s'.env ≡ s.env

  denies-deny_all :
      (direction : PolicyType) (pod : Labels) (matches : String → Bool)
      → denies
          (record { direction = direction; pod = pod; matches = matches })
          (network_policy_body deny_all)
        ≡ true
  denies-deny_all ingress_type pod matches = refl
  denies-deny_all egress_type pod matches = refl

  apply_network_policy-Applied : (s : Session (World r)) → Applied s (apply_network_policy r s)
  unfolding apply_network_policy create_or_update call gets ◌>>=◌ wrapping set_condition clock
      set_status own
  apply_network_policy-Applied s =
      by_answer (r.client.create_or_update literal (own owner) s.world)
        (upserts.on_upsert literal (own owner) s.world)
    where
      owner : String
      owner = s.env.metadata.name

      literal : Object
      literal =
          new_object owner "deny-all" s.env.status.active_namespace (network_policy_body deny_all)

      guards : (before : Option Object) → Guards before (own owner (found_or literal before))
      guards none = λ t. denies-deny_all t.direction t.pod t.matches
      guards (some before) = refl

      then_condition : Result (Unit {0}) × World r → Result (Unit {0}) × Session (World r)
      then_condition x =
          (do
            wrapping "failed to create/update NetworkPolicy: "
                (λ v. (x.0, record s { world = x.1 }))
            set_condition r condition_type_network_policy_applied condition_true
                "NetworkPolicyCreated" "Deny-all NetworkPolicy has been applied")
            s

      by_answer :
          (x : Result (Unit {0}) × World r)
          → (is_ok x.0 ≡ true
              → find x.1 network_policy_kind literal.key
                ≡ some (own owner (found_or literal (policy s.world s.env))))
          → Applied s (then_condition x)
      by_answer (ok u, w) h = (
        own owner (found_or literal (policy s.world s.env)),
        upserts.on_now w network_policy_kind literal.key ∙ h refl,
        ground (
          arith,
          get_label-set_label label_owner label_owner owner (
              set_label label_managed_by managed_by_value
                (found_or literal (policy s.world s.env)).labels),
        ),
        guards (policy s.world s.env),
      )
      by_answer (err f, w) h = refl

  -- Let an environment with isolation be given, in a cluster that keeps objects as they are written.
  -- After `ensureNetworkPolicy` has succeeded, the environment's namespace has a policy deny-all that
  -- is labelled with the environment as its owner. If there was none before, it denies all traffic of
  -- every pod in both directions; if there was one, its specification is what it was. If
  -- `ensureNetworkPolicy` has failed, it has not changed the environment, conditions included.
  pub ensure_network_policy-Applied :
      (s : Session (World r))
      → is_isolation_enabled s.env.spec ≡ true
      → Applied s (ensure_network_policy r s)
  unfolding ensure_network_policy ◌>>=◌ gets
  ensure_network_policy-Applied s h = rw h (apply_network_policy-Applied s)
