-- ===== src/Exec/Reaches.antt =====
-- What an action that succeeds has brought about.
use kube_ephemerals.Prelude.{String, ◌≡◌, refl, arith}
use kube_ephemerals.Exec.{Result, ok, err, Exec, continue, wrapping, ◌>>=◌}
use kube_ephemerals.Exec.Hoare.{Keeps}
use kube_ephemerals.Exec.Inversion.{wrapping-ok}

-- A success leaves a state of which the statement holds, whatever state it found.
abbrev pub Reaches : {S A : Type 0} → (S → Type 0) → Exec S A → Type 0
Reaches {S} {A} holds m = (s : S) (a : A) → (m s).0 ≡ ok a → holds (m s).1

module _ {S A B : Type 0} (holds : S → Type 0) where
  -- By what the first action did to a state, and then the second.
  pub bind-reaches :
      (m : Exec S A) (k : A → Exec S B) (s : S)
      → ((a : A) → (m s).0 ≡ ok a → (b : B) → (k a (m s).1).0 ≡ ok b → holds (k a (m s).1).1)
      → (b : B) → ((m >>= k) s).0 ≡ ok b
      → holds ((m >>= k) s).1
  unfolding ◌>>=◌
  bind-reaches m k s each b h = by_result (m s) each h
    where
      by_result :
          (x : Result A × S)
          → ((a : A) → x.0 ≡ ok a → (b : B) → (k a x.1).0 ≡ ok b → holds (k a x.1).1)
          → (continue k x).0 ≡ ok b
          → holds (continue k x).1
      by_result (ok a, s') each h = each a refl b h
      by_result (err e, s') each h = absurd (ground (arith, h))

  pub Reaches-after :
      (m : Exec S A) (k : A → Exec S B) → ((a : A) → Reaches holds (k a)) → Reaches holds (m >>= k)
  Reaches-after m k each = λ s. bind-reaches m k s (λ a _ b h. each a (m s).1 b h)

  pub Reaches-then :
      (m : Exec S A) (k : A → Exec S B)
      → Reaches holds m
      → ((a : A) → Keeps holds (k a))
      → Reaches holds (m >>= k)
  Reaches-then m k reached kept =
      λ s. bind-reaches m k s (λ a first b h. (kept a).at (m s).1 (reached s a first))

module _ {S A : Type 0} (holds : S → Type 0) where
  pub Reaches-wrapping :
      (prefix : String) (m : Exec S A) → Reaches holds m → Reaches holds (wrapping prefix m)
  Reaches-wrapping prefix m reached s a h =
      let (h', same) = wrapping-ok prefix m s a h in rw same (reached s a h')
