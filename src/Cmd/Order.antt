-- ===== src/Cmd/Order.antt =====
-- The order of the operator's start.
use kube_ephemerals.Prelude.{ℕ, true, false, List, [], ◌∷◌, ◌++◌, ◌≡◌, refl, ap, ◌∙◌, arith}
use kube_ephemerals.Prelude.Tests
use kube_ephemerals.Exec.{Result, ok, err, Exec}
use kube_ephemerals.Cmd.Flags.{Flags}
use kube_ephemerals.Controller.Setup.{setup_with_manager}
use kube_ephemerals.Cmd.Main.{Runtime, Exit, finished, exited, or_exit, exit_on_error, main}
use kube_ephemerals.Cmd.Traced.{
  StartCall, StartEvent, Started, noting, traced_runtime, start_order, number, begins, completes,
}

same_number : (n : ℕ) → Tests.◌==◌ n n ≡ true
same_number n = ground arith

-- A plan that was gone through, and one more call.
completes-succeeded :
    (c : StartCall) (plan : List StartCall) (log : List StartEvent)
    → completes plan log ≡ true
    → completes (plan ++ c ∷ []) (log ++ record { call = c; succeeded = true } ∷ []) ≡ true
completes-succeeded c [] [] h = rw (same_number (number c)) refl
completes-succeeded c [] (e ∷ log) h = absurd (ground (arith, h))
completes-succeeded c (d ∷ plan) [] h = absurd (ground (arith, h))
completes-succeeded c (d ∷ plan) (e ∷ log) h = ground (arith, h, completes-succeeded c plan log)

-- A run that ended with an error: it made a beginning of the calls and not all of them.
abbrev Broke : List StartCall → List StartEvent → Type 0
Broke plan log = (begins plan log ≡ true) × (completes plan log ≡ false)

Broke-failed :
    (c : StartCall) (rest plan : List StartCall) (log : List StartEvent)
    → completes plan log ≡ true
    → Broke (plan ++ c ∷ rest) (log ++ record { call = c; succeeded = false } ∷ [])
Broke-failed c rest [] [] h = (rw (same_number (number c)) refl, rw (same_number (number c)) refl)
Broke-failed c rest [] (e ∷ log) h = absurd (ground (arith, h))
Broke-failed c rest (d ∷ plan) [] h = absurd (ground (arith, h))
Broke-failed c rest (d ∷ plan) (e ∷ log) h =
    let (b, n) = Broke-failed c rest plan log (ground (arith, h)) in
    (ground (arith, h, b), ground (arith, h, n))

Broke-before :
    (c : StartCall) (rest plan : List StartCall) (log : List StartEvent)
    → completes plan log ≡ true
    → Broke (plan ++ c ∷ rest) log
Broke-before c rest [] [] h = (refl, refl)
Broke-before c rest [] (e ∷ log) h = absurd (ground (arith, h))
Broke-before c rest (d ∷ plan) [] h = absurd (ground (arith, h))
Broke-before c rest (d ∷ plan) (e ∷ log) h =
    let (b, n) = Broke-before c rest plan log (ground (arith, h)) in
    (ground (arith, h, b), ground (arith, h, n))

module _ {W : Type 0} where
  -- What a run's log tells when the process ends.
  abbrev pub Accounts : List StartCall → Exit × Started W → Type 0
  Accounts plan (finished, s) = completes plan s.log ≡ true
  Accounts plan (exited n, s) = (n ≡ 1) × Broke plan s.log

-- What is left of a plan.
record Left (plan rest : List StartCall) (log : List StartEvent) : Type 0 where
  pub done : List StartCall
  pub whole : done ++ rest ≡ plan
  pub went : completes done log ≡ true

again : (c : StartCall) (done rest : List StartCall) → (done ++ c ∷ []) ++ rest ≡ done ++ c ∷ rest
again c [] rest = refl
again c (d ∷ done) rest = ap (λ l. d ∷ l) (again c done rest)

-- What follows, after the calls that are not left.
record Tells {W : Type 0} (plan rest : List StartCall) (k : Started W → Exit × Started W)
    : Type 0 where
  pub at : (s : Started W) → Left plan rest s.log → Accounts plan (k s)

module _ {W A : Type 0} {plan rest : List StartCall} {c : StartCall} where
  Tells-noted :
      (m : Exec W A) {k : A → Started W → Exit × Started W}
      → ((a : A) → Tells plan rest (k a))
      → Tells plan (c ∷ rest) (or_exit (noting c m) k)
  unfolding or_exit noting
  Tells-noted m {k} each = record { at = λ s left. by_result s left (m s.world) }
    where
      by_result :
          (s : Started W)
          → Left plan (c ∷ rest) s.log
          → (x : Result A × W) → Accounts plan (exit_on_error k (noting c (λ _. x) s))
      by_result s left (ok a, w) = (each a).at _ (record {
        done = left.done ++ c ∷ [];
        whole = again c left.done rest ∙ left.whole;
        went = completes-succeeded c left.done s.log left.went;
      })
      by_result s left (err e, w) =
          (refl, rw (← left.whole) (Broke-failed c rest left.done s.log left.went))

  -- A failure of the code's own, between two calls.
  Tells-unnoted :
      (x : Result A) {k : A → Started W → Exit × Started W}
      → ((a : A) → Tells plan (c ∷ rest) (k a))
      → Tells plan (c ∷ rest) (or_exit (λ s. (x, s)) k)
  unfolding or_exit
  Tells-unnoted (ok a) each = record { at = λ s left. (each a).at s left }
  Tells-unnoted (err e) each = record {
    at = λ s left. (refl, rw (← left.whole) (Broke-before c rest left.done s.log left.went));
  }

completed : (done : List StartCall) → done ++ [] ≡ done
completed [] = refl
completed (d ∷ done) = ap (λ l. d ∷ l) (completed done)

module _ {W : Type 0} {plan : List StartCall} where
  Tells-finished : Tells plan [] (λ (s : Started W). (finished, s))
  Tells-finished = record { at = λ s left. rw (← left.whole) (rw (completed left.done) left.went) }

-- When the operator's process ends, then either it ends by itself, and the configuration was read,
-- the manager was created, the controller and both checks were added, the client was created and the
-- server of the UI was added, in this order and each with success, before the manager was started
-- and ended without an error; or it exits with the status 1, and the calls that it made are a
-- beginning of that sequence in which at most the last one failed, and not all of it.
pub main-Accounts :
    (r : Runtime) (flags : Flags) (w : r.World)
    → Accounts start_order (main (traced_runtime r) flags (record { world = w; log = [] }))
unfolding main setup_with_manager
main-Accounts r flags w = whole.at _ (record { done = []; whole = refl; went = refl })
  where
    whole : Tells start_order start_order (main (traced_runtime r) flags)
    whole = Tells-noted r.get_config λ config. Tells-noted (r.new_manager config _) λ mgr.
        Tells-noted (r.complete mgr _ _) λ _. Tells-noted (r.add_healthz_check mgr _) λ _.
          Tells-noted (r.add_readyz_check mgr _) λ _. Tells-noted r.get_config λ kube_config.
            Tells-noted (r.new_for_config kube_config) λ kube.
              Tells-noted r.get_config λ rest_config. record {
                at = λ s left.
                    (Tells-unnoted _ λ server.
                        Tells-noted (r.add mgr server)
                          (λ _. Tells-noted (r.start mgr) (λ _. Tells-finished))).at
                      s left;
              }
