-- ===== src/Exec.antt =====
-- Go functions that mutate state and return `(T, error)`: what was written before an error stays
-- written, so the state comes back beside the error too.
pub mod Hoare
pub mod Inversion
pub mod Reaches
pub mod Works
use kube_ephemerals.Prelude.{String, ◌<>◌, Bool, true, false}

-- Go's `error`: its text, and the answer of `apierrors.IsNotFound`, which looks through `%w`.
pub record Failure : Type 0 where
  pub text : String
  pub is_not_found : Bool

pub data Result {ℓ} (A : Type ℓ) : Type ℓ where
  ok : A → Result A
  err : Failure → Result A

abbrev pub is_ok : {A : Type 0} → Result A → Bool
is_ok (ok _) = true
is_ok (err _) = false

-- `fmt.Errorf("… %w", err)`, where the error is the last argument
abbrev pub wrap : String → Failure → Failure
wrap prefix e = record e { text = prefix <> e.text }

-- `fmt.Errorf` with no error among its arguments, and `errors.New`
abbrev pub new_error : String → Failure
new_error text = record { text = text; is_not_found = false }

abbrev pub Exec {ℓ} : Type ℓ → Type ℓ → Type ℓ
Exec S A = S → Result A × S

module _ {ℓ} {S A : Type ℓ} where
  unfoldable pub pure : A → Exec S A
  pure a s = (ok a, s)

  unfoldable pub raise : Failure → Exec S A
  raise e s = (err e, s)

  unfoldable pub gets : (S → A) → Exec S A
  gets f s = (ok (f s), s)

  abbrev pub on_error : (Failure → Failure) → Result A × S → Result A × S
  on_error f (ok a, s) = (ok a, s)
  on_error f (err e, s) = (err (f e), s)

  -- `if err != nil { return fmt.Errorf("…: %w", err) }`
  unfoldable pub wrapping : String → Exec S A → Exec S A
  wrapping prefix m s = on_error (wrap prefix) (m s)

  -- `err := …` whose error the code tests itself: the result as a value
  unfoldable pub attempt : {B : Type ℓ} → Exec S A → (Result A → Exec S B) → Exec S B
  attempt m k s = let (r, s') = m s in k r s'

module _ {ℓ} {S A B : Type ℓ} where
  abbrev pub continue : (A → Exec S B) → Result A × S → Result B × S
  continue f (ok a, s) = f a s
  continue f (err e, s) = (err e, s)

  infixl 10 ◌>>=◌
  unfoldable pub ◌>>=◌ : Exec S A → (A → Exec S B) → Exec S B
  ◌>>=◌ m f s = continue f (m s)

module _ {S : Type 0} {B : Type 0} where
  infixl 10 ◌>>◌
  abbrev pub ◌>>◌ : Exec S (Unit {0}) → Exec S B → Exec S B
  m >> k = m >>= λ _. k
