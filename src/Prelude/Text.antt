-- ===== src/Prelude/Text.antt =====
-- What the program uses of Go's `strings` and of `map[string]string`.
use Prim.Native.String.{String}
use mathlib.Core.Path.{◌≡◌, refl}
use mathlib.Core.Logic.{◌≢◌}
use mathlib.Core.Bool.{Bool, true, false}
use mathlib.Core.Option.{Option, none, some}
use mathlib.Core.List.{List, [], ◌∷◌}
use native.Mathlib.Omega.{arith}
use text.Mathlib.Text.{◌==◌, find?}
use text.Mathlib.TextEquality.{eq_iff}
use kube_ephemerals.Prelude.Tests.{if◌then◌else◌}

-- `strings.Contains(s, t)`
unfoldable pub contains_text : String → String → Bool
contains_text s t = elim (find? s t) [ none ↦ false | some _ ↦ true ]

pub not_empty : (s : String) → (s == "") ≡ false → s ≢ ""
not_empty s h = ground (arith, h, eq_iff s "")

-- `map[string]string`; a nil map and an empty one are both `[]`, since only lookups and
-- assignments after `make` are made.
abbrev pub Labels : Type 0
Labels = List (String × String)

-- `m[k] = v`
unfoldable pub set_label : String → String → Labels → Labels
set_label k v [] = (k, v) ∷ []
set_label k v ((j, w) ∷ m) = if j == k then (k, v) ∷ m else (j, w) ∷ set_label k v m

-- `m[k]`, with the test whether the key is there.
unfoldable pub get_label : String → Labels → Option String
get_label k [] = none
get_label k ((j, v) ∷ m) = if j == k then some v else get_label k m

pub get_label-set_label :
    (k j : String) (v : String) (m : Labels)
    → get_label j (set_label k v m) ≡ (if k == j then some v else get_label j m)
unfolding get_label set_label
get_label-set_label k j v [] = refl
get_label-set_label k j v ((i, w) ∷ m) =
    ground (arith, eq_iff k j, eq_iff i k, eq_iff i j, get_label-set_label k j v m)

-- An assignment that is made twice is made once.
pub set_label-set_label :
    (k : String) (v w : String) (m : Labels) → set_label k v (set_label k w m) ≡ set_label k v m
unfolding set_label
set_label-set_label k v w [] = ground (arith, eq_iff k k)
set_label-set_label k v w ((i, u) ∷ m) =
    ground (arith, eq_iff i k, eq_iff k k, set_label-set_label k v w m)

-- An assignment of the value that a label has changes nothing.
pub set_label-id :
    (k : String) (v : String) (m : Labels) → get_label k m ≡ some v → set_label k v m ≡ m
unfolding get_label set_label
set_label-id k v [] h = ground (arith, h)
set_label-id k v ((i, u) ∷ m) h = ground (arith, h, eq_iff i k, set_label-id k v m)
