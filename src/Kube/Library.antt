-- ===== src/Kube/Library.antt =====
-- Functions that the controller calls and that are not in this repository, as a parameter.
use kube_ephemerals.Prelude.{ℕ, String, Bool, Option, List}
use kube_ephemerals.Exec.{Result}
use kube_ephemerals.Api.Types.{Duration, Condition}

pub record Library : Type 1 where
  -- `time.ParseDuration`, `strings.ToLower`, `%d` of a number, `sort.Slice` by a comparison
  pub parse_duration : String → Option Duration
  pub to_lower : String → String
  pub format_int : ℕ → String
  pub sort_slice : (A : Type 0) → (A → A → Bool) → List A → List A
  -- `json.Unmarshal` of raw bytes into a `map[string]any`
  pub Values : Type 0
  pub unmarshal : String → Result Values
  -- `meta.SetStatusCondition`
  pub set_status_condition : List Condition → Condition → List Condition
  -- `controllerutil.ContainsFinalizer`, `AddFinalizer`, `RemoveFinalizer`
  pub contains_finalizer : List String → String → Bool
  pub add_finalizer : List String → String → List String
  pub remove_finalizer : List String → String → List String
