-- ===== src/Controller/Sanitize/Fragment.antt =====
-- What `sanitizeName` returns, as a text.
use Prim.Native.Char.{char, code, nul}
use mathlib.Core.Logic.{dite}
use native.Mathlib.Decide.{dec_lt}
use kube_ephemerals.Prelude.{ℕ, ◌<◌, ◌≤◌, String, true, List, [], ◌∷◌, ◌≡◌, refl, arith, length}
use kube_ephemerals.Controller.Sanitize.{
  sanitize_codes, sanitize_name, is_lower_or_digit, codes, text, ascii, IsScalar_of_lt,
}
use kube_ephemerals.Controller.Sanitize.Bounds.{
  is_name_code, all, ends_well, sanitize_codes-all, length-sanitize_codes, sanitize_codes-id,
}

code-chosen :
    (n : ℕ) (d : Dec (n < 128))
    → n < 128
    → code (dite d (λ h. char n (IsScalar_of_lt n h)) (λ _. nul)) ≡ n
code-chosen n (yes h) l = refl
code-chosen n (no h) l = absurd (h l)

code-ascii : (n : ℕ) → is_name_code n ≡ true → code (ascii n) ≡ n
code-ascii n h = code-chosen n (dec_lt n 128) (ground arith)

codes-text : (cs : List ℕ) → all is_name_code cs ≡ true → codes (text cs) ≡ cs
codes-text [] h = refl
codes-text (c ∷ cs) h = ground (arith, code-ascii c, codes-text cs, h)

codes-sanitize_name : (name : String) → codes (sanitize_name name) ≡ sanitize_codes (codes name)
unfolding sanitize_name
codes-sanitize_name name = codes-text _ (sanitize_codes-all (codes name))

-- The result has at least one character and at most 20, and each is a lower-case letter, a digit or
-- a dash.
pub sanitize_name-fragment :
    (name : String)
    → (1 ≤ length (codes (sanitize_name name)))
      × (length (codes (sanitize_name name)) ≤ 20)
      × (all is_name_code (codes (sanitize_name name)) ≡ true)
sanitize_name-fragment name = rw (codes-sanitize_name name) (
  (length-sanitize_codes (codes name)).0,
  (length-sanitize_codes (codes name)).1,
  sanitize_codes-all (codes name),
)

-- A name of at most 20 lower-case letters, digits and dashes that starts and ends with a letter or
-- a digit keeps its characters.
pub sanitize_name-id :
    (name : String) (c : ℕ) (cs : List ℕ)
    → codes name ≡ c ∷ cs
    → is_lower_or_digit c ≡ true
    → ends_well (c ∷ cs) ≡ true
    → all is_name_code (c ∷ cs) ≡ true
    → length (c ∷ cs) ≤ 20
    → codes (sanitize_name name) ≡ codes name
sanitize_name-id name c cs e first last valid short =
    rw (codes-sanitize_name name) (rw e (sanitize_codes-id c cs first last valid short))
