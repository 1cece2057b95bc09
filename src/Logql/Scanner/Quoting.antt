-- ===== src/Logql/Scanner/Quoting.antt =====
-- internal/logql/scanner.go, `scanQuotedString` and `scanRawString`: literals give back the text
-- that was written into them.
use loki_vl_proxy.Prelude.{
  ℕ, zero, suc, ◌≤◌, ◌<◌, ◌≡◌, subst, sym, refl, inl, inr, true, false, some, List, [], ◌∷◌, ◌++◌,
  if◌then◌else◌, ◌==◌, ==_iff, length, arith, Bool-cases,
}
use loki_vl_proxy.Logql.Text.{utf8_encode, utf8}
use loki_vl_proxy.Logql.Unquote.{unquote, escape_value, simple_escape, prepend}
use loki_vl_proxy.Logql.Token.{string, raw_string}
use loki_vl_proxy.Logql.Scanner.{
  token, advance, quoted, quoted_token, unquoted_token, scan_quoted_string, scan_raw_string,
  not_backquote,
}
use loki_vl_proxy.Logql.Scanner.Numbers.{all_runes, stops, span-stops}

-- A text as it is written between double quotes.
unfoldable pub escape : List ℕ → List ℕ
escape [] = []
escape (r ∷ rs) =
    let more = escape rs in
    if r == 92
    then 92 ∷ 92 ∷ more
    else if r == 34
    then 92 ∷ 34 ∷ more
    else if r == 10
    then 92 ∷ b'n' ∷ more
    else r ∷ more

quoted-escape :
    (text rest : List ℕ) → quoted false (escape text ++ (34 ∷ rest)) ≡ some (escape text, rest)
unfolding quoted escape
quoted-escape [] rest = refl
quoted-escape (r ∷ rs) rest = elim (Bool-cases (r == 92)) [
  | inl b ↦ simp (b, quoted-escape rs rest) refl
  | inr b ↦ elim (Bool-cases (r == 34)) [
    | inl q ↦ simp (b, q, quoted-escape rs rest) refl
    | inr q ↦ elim (Bool-cases (r == 10)) [
      | inl n ↦ simp (b, q, n, quoted-escape rs rest) refl
      | inr n ↦ simp (b, q, n, quoted-escape rs rest) refl
    ]
  ]
]

length-escape-lt : (r : ℕ) (rs : List ℕ) → length (escape rs) < length (escape (r ∷ rs))
unfolding escape
length-escape-lt r rs = ground arith

unquote-escape :
    (fuel : ℕ) (text : List ℕ)
    → length (escape text) ≤ fuel
    → unquote fuel (escape text) ≡ some (utf8 text)
unfolding unquote escape escape_value simple_escape prepend utf8 utf8_encode
unquote-escape fuel [] le = nothing fuel
  where
    nothing : (n : ℕ) → unquote n [] ≡ some []
    nothing zero = refl
    nothing (suc n) = refl
unquote-escape zero (r ∷ rs) le = let shorter = length-escape-lt r rs in absurd (omega arith)
unquote-escape (suc fuel) (r ∷ rs) le =
    let shorter = length-escape-lt r rs in
    let ih = unquote-escape fuel rs (omega arith) in
    let at : ℕ → Type 0 = λ c. unquote (suc fuel) (escape (c ∷ rs)) ≡ some (utf8 (c ∷ rs)) in
    elim (Bool-cases (r == 92)) [
      | inl b ↦ subst at (sym ((==_iff r 92).0 b)) (simp ih refl)
      | inr b ↦ elim (Bool-cases (r == 34)) [
        | inl q ↦ subst at (sym ((==_iff r 34).0 q)) (simp ih refl)
        | inr q ↦ elim (Bool-cases (r == 10)) [
          | inl n ↦ subst at (sym ((==_iff r 10).0 n)) (simp ih refl)
          | inr n ↦ simp (b, q, n, ih) refl
        ]
      ]
    ]

-- A text written between double quotes, with a backslash before each quote and backslash and a
-- line feed written `\n`, is scanned as one string token that holds the text again, and what
-- follows the closing quote is left.
pub scan_quoted_string-escape :
    (text rest : List ℕ)
    → scan_quoted_string (34 ∷ (escape text ++ (34 ∷ rest))) ≡ (token string (utf8 text), rest)
unfolding scan_quoted_string advance quoted_token unquoted_token
scan_quoted_string-escape text rest =
    simp (quoted-escape text rest, unquote-escape (length (escape text)) text (omega arith)) refl

-- A text without a backquote, written between backquotes, is scanned as one raw string token that
-- holds it byte by byte, and what follows the closing backquote is left.
pub scan_raw_string-append :
    (text rest : List ℕ)
    → all_runes not_backquote text ≡ true
    → scan_raw_string (96 ∷ (text ++ (96 ∷ rest))) ≡ (token raw_string (utf8 text), rest)
unfolding scan_raw_string advance not_backquote stops
scan_raw_string-append text rest h = simp (span-stops not_backquote text (96 ∷ rest) h refl) refl
