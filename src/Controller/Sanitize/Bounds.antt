-- ===== src/Controller/Sanitize/Bounds.antt =====
-- What `sanitizeName` returns, as codes.
use kube_ephemerals.Prelude.{
  ℕ, zero, suc, ◌≤◌, Bool, true, false, ◌&&◌, ◌||◌, List, [], ◌∷◌, ◌≡◌, refl, arith, length, ap,
}
use kube_ephemerals.Prelude.Tests.{◌==◌}
use kube_ephemerals.Controller.Sanitize.{
  kept, strip_first, strip_last, take, sanitize_codes, is_lower_or_digit, or_component,
}

abbrev pub is_name_code : ℕ → Bool
is_name_code c = is_lower_or_digit c || c == b'-'

abbrev pub all : (ℕ → Bool) → List ℕ → Bool
all p [] = true
all p (c ∷ cs) = p c && all p cs

kept-all : (cs : List ℕ) → all is_name_code (kept cs) ≡ true
unfolding kept
kept-all [] = refl
kept-all (c ∷ cs) = ground (arith, kept-all cs)

strip_first-all : (p : ℕ → Bool) (cs : List ℕ) → all p cs ≡ true → all p (strip_first cs) ≡ true
unfolding strip_first
strip_first-all p [] h = refl
strip_first-all p (c ∷ cs) h = ground (arith, h)

strip_last-all : (p : ℕ → Bool) (cs : List ℕ) → all p cs ≡ true → all p (strip_last cs) ≡ true
unfolding strip_last
strip_last-all p [] h = refl
strip_last-all p (c ∷ []) h = ground (arith, h)
strip_last-all p (c ∷ d ∷ cs) h = ground (arith, h, strip_last-all p (d ∷ cs))

take-all : (p : ℕ → Bool) (n : ℕ) (cs : List ℕ) → all p cs ≡ true → all p (take n cs) ≡ true
unfolding take
take-all p zero cs h = refl
take-all p (suc n) [] h = refl
take-all p (suc n) (c ∷ cs) h = ground (arith, h, take-all p n cs)

or_component-all :
    (cs : List ℕ) → all is_name_code cs ≡ true → all is_name_code (or_component cs) ≡ true
or_component-all [] h = refl
or_component-all (c ∷ cs) h = h

-- Every character that is returned is a lower-case letter, a digit or a dash.
pub sanitize_codes-all : (cs : List ℕ) → all is_name_code (sanitize_codes cs) ≡ true
unfolding sanitize_codes
sanitize_codes-all cs = or_component-all (take 20 (strip_last (strip_first (kept cs)))) (
    take-all is_name_code 20 (strip_last (strip_first (kept cs))) (
      strip_last-all is_name_code (strip_first (kept cs))
        (strip_first-all is_name_code (kept cs) (kept-all cs))))

length-take : (n : ℕ) (cs : List ℕ) → length (take n cs) ≤ n
unfolding take
length-take zero cs = ground arith
length-take (suc n) [] = ground arith
length-take (suc n) (c ∷ cs) = ground (arith, length-take n cs)

length-or_component :
    (cs : List ℕ)
    → length cs ≤ 20
    → (1 ≤ length (or_component cs)) × (length (or_component cs) ≤ 20)
length-or_component [] h = (ground arith, ground arith)
length-or_component (c ∷ cs) h = (ground arith, h)

-- The result has at least one character and at most 20.
pub length-sanitize_codes :
    (cs : List ℕ) → (1 ≤ length (sanitize_codes cs)) × (length (sanitize_codes cs) ≤ 20)
unfolding sanitize_codes
length-sanitize_codes cs = length-or_component _ (length-take 20 _)

kept-id : (cs : List ℕ) → all is_name_code cs ≡ true → kept cs ≡ cs
unfolding kept
kept-id [] h = refl
kept-id (c ∷ cs) h = ground (arith, h, kept-id cs)

-- A list that ends in a letter or a digit.
abbrev pub ends_well : List ℕ → Bool
ends_well [] = false
ends_well (c ∷ []) = is_lower_or_digit c
ends_well (c ∷ d ∷ cs) = ends_well (d ∷ cs)

strip_last-id : (cs : List ℕ) → ends_well cs ≡ true → strip_last cs ≡ cs
unfolding strip_last
strip_last-id [] h = refl
strip_last-id (c ∷ []) h = ground (arith, h)
strip_last-id (c ∷ d ∷ cs) h = ap (λ x. c ∷ x) (strip_last-id (d ∷ cs) h)

take-id : (n : ℕ) (cs : List ℕ) → length cs ≤ n → take n cs ≡ cs
unfolding take
take-id zero [] h = refl
take-id zero (c ∷ cs) h = absurd (ground arith)
take-id (suc n) [] h = refl
take-id (suc n) (c ∷ cs) h = ap (λ x. c ∷ x) (take-id n cs (ground arith))

strip_first-id : (c : ℕ) (cs : List ℕ) → is_lower_or_digit c ≡ true → strip_first (c ∷ cs) ≡ c ∷ cs
unfolding strip_first
strip_first-id c cs h = ground (arith, h)

-- A label of at most 20 lower-case letters, digits and dashes that starts and ends with a letter or
-- a digit is not changed.
pub sanitize_codes-id :
    (c : ℕ) (cs : List ℕ)
    → is_lower_or_digit c ≡ true
    → ends_well (c ∷ cs) ≡ true
    → all is_name_code (c ∷ cs) ≡ true
    → length (c ∷ cs) ≤ 20
    → sanitize_codes (c ∷ cs) ≡ c ∷ cs
unfolding sanitize_codes
sanitize_codes-id c cs first last valid short = rw (kept-id (c ∷ cs) valid) (
    rw (strip_first-id c cs first)
      (rw (strip_last-id (c ∷ cs) last) (rw (take-id 20 (c ∷ cs) short))))
