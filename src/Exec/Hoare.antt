-- ===== src/Exec/Hoare.antt =====
-- Statements about the state that an action finds and leaves.
use kube_ephemerals.Prelude.{String, Bool, true, false, ◌≡◌, refl, if◌then◌else◌}
use kube_ephemerals.Exec.{
  Failure, Result, ok, err, wrap, Exec, on_error, continue, pure, raise, gets, wrapping, attempt,
  ◌>>=◌,
}

-- One statement for an action's success, with its value, and one for its failure.
abbrev pub Ending : {S A : Type 0} → (A → S → Type 0) → (S → Type 0) → Result A × S → Type 0
Ending succeeds fails (ok a, s) = succeeds a s
Ending succeeds fails (err _, s) = fails s

-- What was changed before an error stays changed, so a statement has to survive a failure too: it
-- holds of the state that is left, whichever way the action ends.
pub record Keeps {S A : Type 0} (holds : S → Type 0) (action : Exec S A) : Type 0 where
  pub at : (s : S) → holds s → holds (action s).1

module _ {S A : Type 0} (holds : S → Type 0) where
  either_way : (x : Result A × S) → Ending (λ _. holds) holds x → holds x.1
  either_way (ok _, s) h = h
  either_way (err _, s) h = h

  told : (x : Result A × S) → holds x.1 → Ending (λ _. holds) holds x
  told (ok _, s) h = h
  told (err _, s) h = h

  rewrapped :
      (f : Failure → Failure) (x : Result A × S)
      → Ending (λ _. holds) holds x
      → holds (on_error f x).1
  rewrapped f (ok _, s) h = h
  rewrapped f (err _, s) h = h

module _ {S A B : Type 0} (holds : S → Type 0) where
  -- A success goes on with what follows, and a failure is the end.
  followed :
      (rest : A → Exec S B) (x : Result A × S)
      → Ending (λ a s. holds (rest a s).1) holds x
      → holds (continue rest x).1
  followed rest (ok a, s) h = h
  followed rest (err _, s) h = h

  entered :
      (rest : A → Exec S B) (x : Result A × S)
      → ((a : A) → Keeps holds (rest a))
      → Ending (λ _. holds) holds x
      → Ending (λ a s. holds (rest a s).1) holds x
  entered rest (ok a, s) each h = (each a).at s h
  entered rest (err _, s) each h = h

module _ {S A : Type 0} {holds : S → Type 0} where
  pub Keeps-pure : (a : A) → Keeps holds (pure a)
  unfolding pure
  Keeps-pure a = record { at = λ s before. before }

  pub Keeps-raise : (failure : Failure) → Keeps holds (raise {A = A} failure)
  unfolding raise
  Keeps-raise failure = record { at = λ s before. before }

  pub Keeps-gets : (read : S → A) → Keeps holds (gets read)
  unfolding gets
  Keeps-gets read = record { at = λ s before. before }

  pub Keeps-if :
      {yes_branch no_branch : Exec S A} (test : Bool)
      → Keeps holds yes_branch
      → Keeps holds no_branch
      → Keeps holds (if test then yes_branch else no_branch)
  Keeps-if true on_yes on_no = on_yes
  Keeps-if false on_yes on_no = on_no

  pub Keeps-wrapping :
      (prefix : String) {action : Exec S A}
      → Keeps holds action
      → Keeps holds (wrapping prefix action)
  unfolding wrapping
  Keeps-wrapping prefix {action} kept = record {
    at = λ s before.
        rewrapped holds (wrap prefix) (action s) (told holds (action s) (kept.at s before));
  }

module _ {S A B : Type 0} {holds : S → Type 0} where
  pub Keeps-bind :
      {first : Exec S A} {rest : A → Exec S B}
      → Keeps holds first
      → ((a : A) → Keeps holds (rest a))
      → Keeps holds (first >>= rest)
  unfolding ◌>>=◌
  Keeps-bind {first} {rest} kept each = record {
    at = λ s before.
        followed holds rest (first s)
          (entered holds rest (first s) each (told holds (first s) (kept.at s before)));
  }

  -- The code that tests an error itself goes on either way.
  pub Keeps-attempt :
      {first : Exec S A} {handler : Result A → Exec S B}
      → Keeps holds first
      → ((x : Result A) → Keeps holds (handler x))
      → Keeps holds (attempt first handler)
  unfolding attempt
  Keeps-attempt {first} kept each = record {
    at = λ s before. (each (first s).0).at (first s).1 (kept.at s before);
  }

module _ {S A : Type 0} where
  -- What is known of the state by how the action ended.
  pub ending :
      (P E : S → Type 0) (Q : A → S → Type 0) (m : Exec S A) (s : S)
      → Keeps P m
      → P s
      → ((a : A) → (m s).0 ≡ ok a → P (m s).1 → Q a (m s).1)
      → ((t : S) → P t → E t)
      → Ending Q E (m s)
  ending P E Q m s k p q e = by_result (m s) (k.at s p) q
    where
      by_result :
          (x : Result A × S) → P x.1 → ((a : A) → x.0 ≡ ok a → P x.1 → Q a x.1) → Ending Q E x
      by_result (ok a, t) p q = q a refl p
      by_result (err _, t) p q = e t p
