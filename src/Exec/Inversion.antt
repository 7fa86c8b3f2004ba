-- ===== src/Exec/Inversion.antt =====
-- What a success of a composed action says of its parts.
use kube_ephemerals.Prelude.{String, ◌≡◌, refl, ap, arith}
use kube_ephemerals.Exec.{Failure, Result, ok, err, Exec, wrap, wrapping, continue, on_error, ◌>>=◌}

module _ {S A B : Type 0} where
  continue-ok :
      (f : A → Exec S B) (x : Result A × S) (b : B)
      → (continue f x).0 ≡ ok b
      → (a : A) × (x.0 ≡ ok a) × ((f a x.1).0 ≡ ok b)
  continue-ok f (ok a, s) b h = (a, refl, h)
  continue-ok f (err e, s) b h = absurd (ground (arith, h))

  pub bind-ok :
      (m : Exec S A) (f : A → Exec S B) (s : S) (b : B)
      → ((m >>= f) s).0 ≡ ok b
      → (a : A) × ((m s).0 ≡ ok a) × ((f a (m s).1).0 ≡ ok b)
  unfolding ◌>>=◌
  bind-ok m f s b h = continue-ok f (m s) b h

module _ {S A : Type 0} where
  on_error-ok :
      (g : Failure → Failure) (x : Result A × S) (a : A)
      → (on_error g x).0 ≡ ok a
      → (x.0 ≡ ok a) × ((on_error g x).1 ≡ x.1)
  on_error-ok g (ok a', s) a h = (h, refl)
  on_error-ok g (err e, s) a h = absurd (ground (arith, h))

  pub wrapping-ok :
      (prefix : String) (m : Exec S A) (s : S) (a : A)
      → (wrapping prefix m s).0 ≡ ok a
      → ((m s).0 ≡ ok a) × ((wrapping prefix m s).1 ≡ (m s).1)
  unfolding wrapping
  wrapping-ok prefix m s a h = on_error-ok (wrap prefix) (m s) a h

module _ {A : Type 0} where
  value_or : A → Result A → A
  value_or d (ok a) = a
  value_or d (err _) = d

  pub ok-injective : (a b : A) → ok a ≡ ok b → a ≡ b
  unfolding value_or
  ok-injective a b h = ap (value_or a) h
