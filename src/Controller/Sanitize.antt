-- ===== src/Controller/Sanitize.antt =====
-- `sanitizeName`. A text is walked by its code points: a character that is not ASCII is dropped, as
-- each of its bytes is in Go, and all that is kept is ASCII.
pub mod Bounds
pub mod Fragment
use Prim.Native.Nat.{compare, Ordering}
use Prim.Native.Char.{Char, char, code, nul, IsScalar}
use mathlib.Core.Logic.{dite}
use native.Mathlib.Decide.{dec_lt}
use kube_ephemerals.Prelude.{
  ℕ, zero, suc, ◌+◌, ◌<◌, String, Bool, ◌&&◌, ◌||◌, List, [], ◌∷◌, ltb, leb, if◌then◌else◌, ◌≡◌,
  refl, arith,
}
use kube_ephemerals.Prelude.Tests.{◌==◌}

abbrev pub codes : String → List ℕ
codes String.[] = []
codes (String.◌∷◌ c s) = code c ∷ codes s

pub IsScalar_of_lt : (n : ℕ) → n < 128 → IsScalar n
IsScalar_of_lt n h = let e : compare n 55296 ≡ Ordering.lt = ground arith in rw e tt

abbrev pub ascii : ℕ → Char
ascii n = dite (dec_lt n 128) (λ h. char n (IsScalar_of_lt n h)) (λ _. nul)

-- `string(result)`, for bytes that are ASCII
abbrev pub text : List ℕ → String
text [] = String.[]
text (c ∷ cs) = String.◌∷◌ (ascii c) (text cs)

abbrev pub is_lower_or_digit : ℕ → Bool
is_lower_or_digit c = (leb b'a' c && leb c b'z') || (leb b'0' c && leb c b'9')

-- The loop: what is kept, lowered or replaced, in order.
unfoldable pub kept : List ℕ → List ℕ
kept [] = []
kept (c ∷ cs) =
    let rest = kept cs in
    if is_lower_or_digit c || c == b'-'
    then c ∷ rest
    else if leb b'A' c && leb c b'Z'
    then (c + 32) ∷ rest
    else if c == b' ' || c == b'_'
    then b'-' ∷ rest
    else rest

-- `if len(result) > 0 && result[0] == '-' { result = result[1:] }`
unfoldable pub strip_first : List ℕ → List ℕ
strip_first [] = []
strip_first (c ∷ cs) = if c == b'-' then cs else c ∷ cs

-- The same at the end.
unfoldable pub strip_last : List ℕ → List ℕ
strip_last [] = []
strip_last (c ∷ []) = if c == b'-' then [] else c ∷ []
strip_last (c ∷ d ∷ cs) = c ∷ strip_last (d ∷ cs)

-- `result[:n]`, or all of a shorter list
unfoldable pub take : ℕ → List ℕ → List ℕ
take zero cs = []
take (suc n) [] = []
take (suc n) (c ∷ cs) = c ∷ take n cs

abbrev pub max_fragment : ℕ
max_fragment = 20

abbrev or_component : List ℕ → List ℕ
or_component [] = codes "component"
or_component (c ∷ cs) = c ∷ cs

unfoldable pub sanitize_codes : List ℕ → List ℕ
unfolding kept strip_first strip_last take
sanitize_codes cs = or_component (take max_fragment (strip_last (strip_first (kept cs))))

unfoldable pub sanitize_name : String → String
unfolding sanitize_codes dec_lt
sanitize_name name = text (sanitize_codes (codes name))

mixed_case : sanitize_name "My_App v2!" ≡ "my-app-v2"
unfolding sanitize_name
mixed_case = refl
