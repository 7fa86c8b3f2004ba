-- ===== src/Exec/Works.antt =====
-- Actions that succeed, and lead from states of which a statement holds to such states.
use kube_ephemerals.Prelude.{String, Bool, true, false, ◌≡◌, refl, arith, if◌then◌else◌}
use kube_ephemerals.Exec.{
  Result, ok, err, wrap, Exec, on_error, continue, pure, gets, wrapping, ◌>>=◌,
}
use kube_ephemerals.Exec.Hoare.{Keeps, Keeps-pure, Keeps-gets, Keeps-wrapping, Keeps-bind}

pub record Works {S A : Type 0} (holds : S → Type 0) (action : Exec S A) : Type 0 where
  pub keeps : Keeps holds action
  pub succeeds : (s : S) → holds s → (a : A) × ((action s).0 ≡ ok a)

module _ {S A : Type 0} where
  unwrapped :
      (prefix : String) (x : Result A × S)
      → (a : A) × (x.0 ≡ ok a)
      → (a : A) × ((on_error (wrap prefix) x).0 ≡ ok a)
  unwrapped prefix (ok a, s) h = h
  unwrapped prefix (err e, s) (a, h) = absurd (ground (arith, h))

module _ {S A B : Type 0} where
  followed :
      (rest : A → Exec S B) (x : Result A × S)
      → (a : A) × (x.0 ≡ ok a)
      → ((a : A) → x.0 ≡ ok a → (b : B) × ((rest a x.1).0 ≡ ok b))
      → (b : B) × ((continue rest x).0 ≡ ok b)
  followed rest (ok a, s) h each = each a refl
  followed rest (err e, s) (a, h) each = absurd (ground (arith, h))

module _ {S A : Type 0} {holds : S → Type 0} where
  pub Works-pure : (a : A) → Works holds (pure a)
  unfolding pure
  Works-pure a = record { keeps = Keeps-pure a; succeeds = λ s before. (a, refl) }

  pub Works-if :
      {yes_branch no_branch : Exec S A} (test : Bool)
      → Works holds yes_branch
      → Works holds no_branch
      → Works holds (if test then yes_branch else no_branch)
  Works-if true on_yes on_no = on_yes
  Works-if false on_yes on_no = on_no

  pub Works-wrapping :
      (prefix : String) {action : Exec S A}
      → Works holds action
      → Works holds (wrapping prefix action)
  unfolding wrapping
  Works-wrapping prefix {action} works = record {
    keeps = Keeps-wrapping prefix works.keeps;
    succeeds = λ s before. unwrapped prefix (action s) (works.succeeds s before);
  }

module _ {S A B : Type 0} {holds : S → Type 0} where
  -- What follows has to work for the values that the first action gives.
  pub Works-given :
      (Q : A → Type 0) {first : Exec S A} {rest : A → Exec S B}
      → Works holds first
      → ((s : S) → holds s → (a : A) → (first s).0 ≡ ok a → Q a)
      → ((a : A) → Keeps holds (rest a))
      → ((a : A) → Q a → Works holds (rest a))
      → Works holds (first >>= rest)
  unfolding ◌>>=◌
  Works-given Q {first} {rest} works gives kept each = record {
    keeps = Keeps-bind works.keeps kept;
    succeeds = λ s before.
        followed rest (first s) (works.succeeds s before)
          (λ a e. (each a (gives s before a e)).succeeds (first s).1 (works.keeps.at s before));
  }

  pub Works-bind :
      {first : Exec S A} {rest : A → Exec S B}
      → Works holds first
      → ((a : A) → Works holds (rest a))
      → Works holds (first >>= rest)
  unfolding ◌>>=◌
  Works-bind {first} {rest} works each = record {
    keeps = Keeps-bind works.keeps (λ a. (each a).keeps);
    succeeds = λ s before.
        followed rest (first s) (works.succeeds s before)
          (λ a e. (each a).succeeds (first s).1 (works.keeps.at s before));
  }

  -- Code that reads the state it starts from.
  pub Works-gets :
      (read : S → A) {rest : A → Exec S B}
      → ((a : A) → Works holds (rest a))
      → Works holds (gets read >>= rest)
  unfolding gets
  Works-gets read each =
      Works-bind (record { keeps = Keeps-gets read; succeeds = λ s before. (read s, refl) }) each
