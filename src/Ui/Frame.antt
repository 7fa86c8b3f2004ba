-- ===== src/Ui/Frame.antt =====
-- What a handler keeps of the world, whatever it answers.
use kube_ephemerals.Prelude.{Bool, true, false, String, if◌then◌else◌, ◌≡◌, refl}
use kube_ephemerals.Exec.{Failure, Result, ok, err, Exec}
use kube_ephemerals.Exec.Hoare.{Keeps}
use kube_ephemerals.Api.Types.{EphemeralEnv}
use kube_ephemerals.Ui.Http.{Writer}
use kube_ephemerals.Ui.Respond.{
  Server, Handler, Exchange, Value, answer, settle, calling, checked, with_env, default_key,
}

pub record Preserves {World : Type 0} (holds : World → Type 0) (h : Handler World) : Type 0 where
  pub at : (x : Exchange World) → holds x.world → holds (h x).world

module _ {World : Type 0} {holds : World → Type 0} where
  pub Preserves-answer : (f : Writer Value → Writer Value) → Preserves holds (answer f)
  unfolding answer
  Preserves-answer f = record { at = λ x before. before }

  pub Preserves-if :
      {g h : Handler World} (test : Bool)
      → Preserves holds g
      → Preserves holds h
      → Preserves holds (if test then g else h)
  Preserves-if true on_yes on_no = on_yes
  Preserves-if false on_yes on_no = on_no

  module _ {A : Type 0} where
    settled :
        (failed : Failure → Handler World) (done : A → Handler World) (out : Writer Value)
        (x : Result A × World)
        → ((e : Failure) → Preserves holds (failed e))
        → ((a : A) → Preserves holds (done a))
        → holds x.1
        → holds (settle failed done out x).world
    settled failed done out (ok a, w) on_error on_success before = (on_success a).at _ before
    settled failed done out (err e, w) on_error on_success before = (on_error e).at _ before

    pub Preserves-calling :
        {m : Exec World A} {failed : Failure → Handler World} {done : A → Handler World}
        → Keeps holds m
        → ((e : Failure) → Preserves holds (failed e))
        → ((a : A) → Preserves holds (done a))
        → Preserves holds (calling m failed done)
    unfolding calling
    Preserves-calling {m} {failed} {done} kept on_error on_success = record {
      at = λ x before.
          settled failed done x.writer (m x.world) on_error on_success (kept.at x.world before);
    }

    pub Preserves-checked :
        {failed : Failure → Handler World} {done : A → Handler World} (x : Result A)
        → ((e : Failure) → Preserves holds (failed e))
        → ((a : A) → x ≡ ok a → Preserves holds (done a))
        → Preserves holds (checked x failed done)
    Preserves-checked (ok a) on_error on_success = record { at = λ x. (on_success a refl).at x }
    Preserves-checked (err e) on_error on_success = record { at = λ x. (on_error e).at x }

pub Preserves-with_env :
    (s : Server) {keeps : s.World → Type 0} (name : String) {done : EphemeralEnv → Handler s.World}
    → Keeps keeps (s.client.get_env (default_key s name))
    → ((e : EphemeralEnv) → Preserves keeps (done e))
    → Preserves keeps (with_env s name done)
unfolding with_env
Preserves-with_env s name kept each = Preserves-calling kept (λ e. Preserves-answer _) each
