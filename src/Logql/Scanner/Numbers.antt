-- ===== src/Logql/Scanner/Numbers.antt =====
-- internal/logql/scanner.go, `scanNumberOrDuration`: a sequence of values with units is one token.
use loki_vl_proxy.Prelude.{
  ℕ, zero, suc, ◌≤◌, ◌<◌, ◌≡◌, refl, ap, ◌∙◌, Bool, true, false, ◌&&◌, not, List, [], ◌∷◌, ◌++◌,
  length, length-append, arith,
}
use mathlib.Core.List.{append_assoc}
use loki_vl_proxy.Logql.Text.{Wide, is_letter, utf8, span}
use loki_vl_proxy.Logql.Token.{duration}
use loki_vl_proxy.Logql.Scanner.{token, is_empty, value_rune, segments, scan_number_or_duration}

-- A value and a unit, such as `30` and `m`.
abbrev pub Pair : Type 0
Pair = List ℕ × List ℕ

unfoldable pub all_runes : (ℕ → Bool) → List ℕ → Bool
all_runes p [] = true
all_runes p (r ∷ rs) = p r && all_runes p rs

-- What the text starts with does not pass the test.
unfoldable pub stops : (ℕ → Bool) → List ℕ → Bool
stops p [] = true
stops p (r ∷ rs) = not (p r)

not-true : (b : Bool) → not b ≡ true → b ≡ false
not-true b h = ground arith

and-true : (a b : Bool) → (a && b) ≡ true → (a ≡ true) × (b ≡ true)
and-true a b h = ground arith

pub span-stops :
    (p : ℕ → Bool) (xs rest : List ℕ)
    → all_runes p xs ≡ true
    → stops p rest ≡ true
    → span p (xs ++ rest) ≡ (xs, rest)
unfolding span all_runes stops
span-stops p [] [] a s = refl
span-stops p [] (r ∷ rest) a s = simp (not-true (p r) s) refl
span-stops p (x ∷ xs) rest a s =
    let (px, pxs) = and-true (p x) (all_runes p xs) a in simp (px, span-stops p xs rest pxs s) refl

-- The text of the pairs.
unfoldable pub join : List Pair → List ℕ
join [] = []
join ((value, unit) ∷ ps) = value ++ (unit ++ join ps)

-- A value of digits and dots, then a unit of letters; neither is empty, and a letter is no digit.
unfoldable pub is_pair : Wide → Pair → Bool
is_pair u (value, unit) =
    (not (is_empty value) && (all_runes (value_rune u) value && stops (is_letter u) value))
    && (not (is_empty unit) && (all_runes (is_letter u) unit && stops (value_rune u) unit))

unfoldable pub are_pairs : Wide → List Pair → Bool
are_pairs u [] = true
are_pairs u (p ∷ ps) = is_pair u p && are_pairs u ps

saw_after : Bool → List Pair → Bool
saw_after saw [] = saw
saw_after saw (p ∷ ps) = true

is_pair_parts :
    (u : Wide) (value unit : List ℕ)
    → is_pair u (value, unit) ≡ true
    → (is_empty value ≡ false)
      × (all_runes (value_rune u) value ≡ true)
      × (stops (is_letter u) value ≡ true)
      × (is_empty unit ≡ false)
      × (all_runes (is_letter u) unit ≡ true)
      × (stops (value_rune u) unit ≡ true)
unfolding is_pair
is_pair_parts u value unit h = ground arith

stops-append :
    (p : ℕ → Bool) (xs rest : List ℕ)
    → is_empty xs ≡ false
    → stops p xs ≡ true
    → stops p (xs ++ rest) ≡ true
unfolding stops is_empty
stops-append p [] rest e s = ground arith
stops-append p (x ∷ xs) rest e s = s

stops-join :
    (u : Wide) (ps : List Pair) (rest : List ℕ)
    → are_pairs u ps ≡ true
    → stops (is_letter u) rest ≡ true
    → stops (is_letter u) (join ps ++ rest) ≡ true
unfolding join are_pairs
stops-join u [] rest a s = s
stops-join u ((value, unit) ∷ ps) rest a s =
    let (ok, oks) = and-true (is_pair u (value, unit)) (are_pairs u ps) a in
    let (full, _, start, _, _, _) = is_pair_parts u value unit ok in
    simp (append_assoc value (unit ++ join ps) rest)
      (stops-append (is_letter u) value ((unit ++ join ps) ++ rest) full start)

not_empty-lt : (xs : List ℕ) → is_empty xs ≡ false → 0 < length xs
unfolding is_empty
not_empty-lt [] e = ground arith
not_empty-lt (x ∷ xs) e = omega arith

saw_after-true : (ps : List Pair) → saw_after true ps ≡ true
unfolding saw_after
saw_after-true [] = refl
saw_after-true (p ∷ ps) = refl

segments-join :
    (u : Wide) (fuel : ℕ) (saw : Bool) (ps : List Pair) (rest : List ℕ)
    → length (join ps) ≤ fuel
    → are_pairs u ps ≡ true
    → stops (value_rune u) rest ≡ true
    → stops (is_letter u) rest ≡ true
    → segments u fuel saw (join ps ++ rest) ≡ (join ps, (saw_after saw ps, rest))
unfolding segments join are_pairs saw_after all_runes
segments-join u zero saw [] rest le a v l = refl
segments-join u (suc fuel) saw [] rest le a v l =
    simp (span-stops (value_rune u) [] rest refl v) refl
segments-join u zero saw ((value, unit) ∷ ps) rest le a v l =
    let (ok, oks) = and-true (is_pair u (value, unit)) (are_pairs u ps) a in
    let (full, _, _, _, _, _) = is_pair_parts u value unit ok in
    let size = length-append value (unit ++ join ps) in
    let size' = not_empty-lt value full in absurd (omega arith)
segments-join u (suc fuel) saw ((value, unit) ∷ ps) rest le a v l =
    let (ok, oks) = and-true (is_pair u (value, unit)) (are_pairs u ps) a in
    let (full, values, start, full', units, start') = is_pair_parts u value unit ok in
    let tail = join ps ++ rest in
    let whole : (value ++ (unit ++ join ps)) ++ rest ≡ value ++ (unit ++ tail) =
      append_assoc value (unit ++ join ps) rest
      ∙ ap (λ xs. value ++ xs) (append_assoc unit (join ps) rest) in
    let digits =
      span-stops (value_rune u) value (unit ++ tail) values
        (stops-append (value_rune u) unit tail full' start') in
    let letters = span-stops (is_letter u) unit tail units (stops-join u ps rest oks l) in
    let size = length-append value (unit ++ join ps) in
    let size' = not_empty-lt value full in
    let size'' = length-append unit (join ps) in
    let ih = segments-join u fuel true ps rest (omega arith) oks v l in
    simp (whole, digits, letters, full, full', ih, saw_after-true ps) refl

-- A value and a unit, repeated, is one duration: a text that consists of such pairs (each a
-- value of digits and dots with a unit of letters after it) and goes on with neither a digit, a dot
-- nor a letter is one token of type duration, with all of that text and no more.
pub scan_number_or_duration-join :
    (u : Wide) (p : Pair) (ps : List Pair) (rest : List ℕ)
    → are_pairs u (p ∷ ps) ≡ true
    → stops (value_rune u) rest ≡ true
    → stops (is_letter u) rest ≡ true
    → scan_number_or_duration u (join (p ∷ ps) ++ rest)
      ≡ (token duration (utf8 (join (p ∷ ps))), rest)
unfolding scan_number_or_duration saw_after
scan_number_or_duration-join u p ps rest a v l =
    let size = length-append (join (p ∷ ps)) rest in
    simp (segments-join u (length (join (p ∷ ps) ++ rest)) false (p ∷ ps) rest (omega arith) a v l)
      refl
