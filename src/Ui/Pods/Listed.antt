-- ===== src/Ui/Pods/Listed.antt =====
-- The list of pods that is shown.
use kube_ephemerals.Prelude.{
  ℕ, ◌+◌, ◌%◌, ◌^◌, ◌<◌, String, Bool, List, [], ◌∷◌, map, any, ◌≡◌, refl, ◌∙◌, arith,
}
use kube_ephemerals.Api.Types.{Time}
use kube_ephemerals.Ui.Services.{Pod, PodCondition}
use kube_ephemerals.Ui.Respond.{Server, PodInfo}
use kube_ephemerals.Ui.Pods.{
  pod_info, pod_infos, is_pod_ready, ready_condition, is_ready_condition, get_pod_restarts,
  add_restarts,
}

abbrev pub sum : List ℕ → ℕ
sum [] = 0
sum (n ∷ ns) = n + sum ns

add_restarts-sum : (ns : List ℕ) (n : ℕ) → n < 2 ^ 32 → add_restarts n ns ≡ (n + sum ns) % 2 ^ 32
unfolding add_restarts
add_restarts-sum [] n h = ground arith
add_restarts-sum (m ∷ ms) n h = add_restarts-sum ms ((n + m) % 2 ^ 32) (ground arith) ∙ ground arith

add_restarts-total : (ns : List ℕ) → add_restarts 0 ns ≡ sum ns % 2 ^ 32
add_restarts-total ns = add_restarts-sum ns 0 (ground arith) ∙ ground arith

ready_condition-any : (cs : List PodCondition) → ready_condition cs ≡ any is_ready_condition cs
unfolding ready_condition
ready_condition-any [] = refl
ready_condition-any (c ∷ cs) = ground (arith, ready_condition-any cs)

-- What is shown of a pod, but for its age.
pub record Row : Type 0 where
  pub name : String
  pub namespace : String
  pub status : String
  pub ready : Bool
  pub restarts : ℕ

abbrev pub row_of : PodInfo → Row
row_of i = record {
  name = i.name;
  namespace = i.namespace;
  status = i.status;
  ready = i.ready;
  restarts = i.restarts;
}

abbrev pub row : Pod → Row
row p = record {
  name = p.name;
  namespace = p.namespace;
  status = p.phase;
  ready = any is_ready_condition p.conditions;
  restarts = sum p.restart_counts % 2 ^ 32;
}

pod_info-row : (s : Server) (p : Pod) (now : Time) → row_of (pod_info s now p) ≡ row p
unfolding is_pod_ready get_pod_restarts
pod_info-row s p now =
    rw (ready_condition-any p.conditions, add_restarts-total p.restart_counts) refl

-- The list shows every pod of the listing once and in its order: ready exactly when one of its
-- conditions is that it is ready, and with the sum of its containers' restarts, as 32 bits.
pub pod_infos-row :
    (s : Server) (items : List Pod) (w : s.World)
    → map row_of (pod_infos s items w).0 ≡ map row items
unfolding pod_infos
pod_infos-row s [] w = refl
pod_infos-row s (p ∷ ps) w = rw (pod_info-row s p (s.now w).0, pod_infos-row s ps (s.now w).1) refl
