-- ===== src/Helm/Sdk/Charts.antt =====
-- Which file of the download directory is taken for the chart.
use kube_ephemerals.Prelude.{
  ℕ, ◌+◌, ◌-◌, ◌<◌, String, ◌<>◌, ◌==◌, len, true, not, ◌&&◌, Option, none, some, List, [], ◌∷◌,
  ltb, ◌≡◌, refl, ap, sym, ◌∙◌, if◌then◌else◌, arith, eq_iff, Bool-cases, inl, inr,
}
use text.Mathlib.TextPositions.{slice-append_right, len-append}
use text.Mathlib.TextLemmas.{append_assoc}
use kube_ephemerals.Helm.Sdk.{DirEntry, is_chart_file, has_tgz, first_chart_file}

minus_same : (a : ℕ) → a + 4 - 4 ≡ a
minus_same a = ground arith

longer : (a : ℕ) → 0 < a → ltb 4 (a + 4) ≡ true
longer a h = ground (arith, h)

-- A longer text that ends in ".tgz" passes the test of the last four bytes.
has_tgz-append : (s : String) → 0 < len s → has_tgz (s <> ".tgz") ≡ true
unfolding has_tgz
has_tgz-append s h =
    rw (len-append s ".tgz", minus_same (len s), longer (len s) h, slice-append_right s ".tgz") refl

some_dash : (c v : String) → 0 < len (c <> "-" <> v)
some_dash c v = ground (arith, len-append c ("-" <> v), len-append "-" v)

has_tgz-named : (c v : String) → has_tgz (c <> "-" <> v <> ".tgz") ≡ true
has_tgz-named c v =
    ap has_tgz
      (ap (λ s. c <> s) (sym (append_assoc "-" v ".tgz")) ∙ sym (append_assoc c ("-" <> v) ".tgz"))
    ∙ has_tgz-append (c <> "-" <> v) (some_dash c v)

-- The chart's own file name has the ending, so the test of the name adds nothing.
is_chart_file-tgz :
    (c v : String) (f : DirEntry) → is_chart_file c v f ≡ (not f.is_dir && has_tgz f.name)
unfolding is_chart_file
is_chart_file-tgz c v f = elim (Bool-cases (f.name == c <> "-" <> v <> ".tgz")) [
  | inl same ↦
      let named : f.name ≡ c <> "-" <> v <> ".tgz" =
        ground (arith, same, eq_iff f.name (c <> "-" <> v <> ".tgz")) in
      let ends : has_tgz f.name ≡ true = ap has_tgz named ∙ has_tgz-named c v in
      rw (same, ends) refl
  | inr other ↦ rw other refl
]

abbrev pub first_tgz : List DirEntry → Option String
first_tgz [] = none
first_tgz (f ∷ fs) =
    let rest = first_tgz fs in if not f.is_dir && has_tgz f.name then some f.name else rest

-- The file that is taken is the first one with the ending ".tgz", whatever the chart and the version.
pub first_chart_file-tgz :
    (chart_name version : String) (files : List DirEntry)
    → first_chart_file chart_name version files ≡ first_tgz files
unfolding first_chart_file
first_chart_file-tgz c v [] = refl
first_chart_file-tgz c v (f ∷ fs) = rw (is_chart_file-tgz c v f, first_chart_file-tgz c v fs) refl
