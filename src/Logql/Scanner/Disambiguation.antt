-- ===== src/Logql/Scanner/Disambiguation.antt =====
-- internal/logql/scanner.go: `!=` and `!~` stand for two tokens each, told apart by the nesting of
-- braces.
use loki_vl_proxy.Prelude.{
  ℕ, suc, ◌-◌, ◌≡◌, refl, Bool, true, false, Option, none, some, List, [], ◌∷◌, ◌||◌, if◌then◌else◌,
  length, sym, inl, inr, Bool-cases, ltb, ◌==◌, arith,
}
use loki_vl_proxy.Logql.Text.{Wide, is_letter, is_digit, span}
use loki_vl_proxy.Logql.Token.{
  TokType, neq, re_not_match, bang_eq, bang_tilde, l_brace, r_brace, duration, number,
}
use loki_vl_proxy.Logql.Unquote.{unquote}
use loki_vl_proxy.Logql.Scanner.{
  Scanner, advance, segments, ident_rune, peek, token, next, dispatch, skip_ws, punctuation,
  operator, pipe_token, bang_token, eq_token, scan_fixed, scan_operator, scan_word,
  scan_quoted_string, quoted_token, unquoted_token, quoted, scan_raw_string, scan_ident, keyword,
  scan_number_or_duration,
}

-- The nesting after the tokens, counted from their types alone: a closing brace outside is ignored.
unfoldable pub depth_after : ℕ → TokType → ℕ
depth_after depth l_brace = suc depth
depth_after depth r_brace = depth - 1
depth_after depth _ = depth

-- Whether a type can come up at a nesting.
unfoldable pub stands : ℕ → TokType → Bool
stands depth neq = ltb 0 depth
stands depth re_not_match = ltb 0 depth
stands depth bang_eq = depth == 0
stands depth bang_tilde = depth == 0
stands depth _ = true

-- A type that can come up at a nesting and keeps it.
Fits : ℕ → TokType → Type 0
Fits depth t = (stands depth t ≡ true) × (depth_after depth t ≡ depth)

OptionFits : ℕ → Option TokType → Type 0
OptionFits depth none = true ≡ true
OptionFits depth (some t) = Fits depth t

punctuation-Fits : (depth r : ℕ) → OptionFits depth (punctuation r)
unfolding punctuation OptionFits Fits stands depth_after
punctuation-Fits depth r = ground arith

keyword-Fits : (depth : ℕ) (val : List ℕ) → Fits depth (keyword val)
unfolding keyword Fits stands depth_after
keyword-Fits depth val = ground arith

OperatorFits : ℕ → Option (TokType × Bool) → Type 0
OperatorFits depth none = true ≡ true
OperatorFits depth (some (t, two)) = Fits depth t

operator-Fits : (depth r r2 : ℕ) → OperatorFits depth (operator depth r r2)
unfolding operator pipe_token bang_token eq_token OperatorFits Fits stands depth_after
operator-Fits depth r r2 = ground arith

scan_quoted_string-Fits : (depth : ℕ) (rs : List ℕ) → Fits depth (scan_quoted_string rs).0.typ
unfolding scan_quoted_string token Fits stands depth_after quoted_token unquoted_token
scan_quoted_string-Fits depth rs = go (quoted false (advance rs))
  where
    inside : (o : Option (List ℕ)) → Fits depth (unquoted_token o).typ
    inside none = (refl, refl)
    inside (some v) = (refl, refl)

    go : (o : Option (List ℕ × List ℕ)) → Fits depth (quoted_token o).0.typ
    go none = (refl, refl)
    go (some (cs, after)) = inside (unquote (length cs) cs)

number-Fits : (u : Wide) (depth : ℕ) (rs : List ℕ) → Fits depth (scan_number_or_duration u rs).0.typ
unfolding scan_number_or_duration token Fits stands depth_after
number-Fits u depth rs = go (segments u (length rs) false rs).1.0
  where
    go : (saw : Bool) → Fits depth (if saw then duration else number)
    go true = (refl, refl)
    go false = (refl, refl)

scan_word-Fits : (u : Wide) (depth r : ℕ) (rs : List ℕ) → Fits depth (scan_word u r rs).0.typ
unfolding scan_word scan_raw_string scan_ident token Fits stands depth_after
scan_word-Fits u depth r rs = elim (Bool-cases (r == 34)) [
  | inl q ↦ simp q (scan_quoted_string-Fits depth (r ∷ rs))
  | inr q ↦ elim (Bool-cases (r == 96)) [
    | inl b ↦ simp (q, b) (refl, refl)
    | inr b ↦ elim (Bool-cases (is_letter u r || r == b'_')) [
      | inl l ↦ simp (q, b, l) (keyword-Fits depth (span (ident_rune u) (r ∷ rs)).0)
      | inr l ↦ elim (Bool-cases (is_digit u r)) [
        | inl d ↦ simp (q, b, l, d) (number-Fits u depth (r ∷ rs))
        | inr d ↦ simp (q, b, l, d) (refl, refl)
      ]
    ]
  ]
]

scan_operator-Fits :
    (u : Wide) (depth r : ℕ) (rs : List ℕ) (o : Option (TokType × Bool))
    → OperatorFits depth o
    → Fits depth (scan_operator u r rs o).0.typ
unfolding scan_operator OperatorFits token
scan_operator-Fits u depth r rs none f = scan_word-Fits u depth r rs
scan_operator-Fits u depth r rs (some (t, true)) f = f
scan_operator-Fits u depth r rs (some (t, false)) f = f

scan_fixed-Fits :
    (u : Wide) (depth r : ℕ) (rs : List ℕ) (o : Option TokType)
    → OptionFits depth o
    → Fits depth (scan_fixed u depth r rs o).0.typ
unfolding scan_fixed OptionFits token
scan_fixed-Fits u depth r rs (some t) f = f
scan_fixed-Fits u depth r rs none f =
    scan_operator-Fits u depth r rs (operator depth r (peek rs)) (operator-Fits depth r (peek rs))

dispatch-depth :
    (u : Wide) (depth : ℕ) (rs : List ℕ)
    → (stands depth (dispatch u depth rs).0.typ ≡ true)
      × ((dispatch u depth rs).1.brace_depth ≡ depth_after depth (dispatch u depth rs).0.typ)
unfolding dispatch stands depth_after token Fits
dispatch-depth u depth [] = (refl, refl)
dispatch-depth u depth (r ∷ rs) =
    let (stand, keep) = scan_fixed-Fits u depth r rs (punctuation r) (punctuation-Fits depth r) in
    elim (Bool-cases (r == b'{')) [
      | inl o ↦ simp o (refl, refl)
      | inr o ↦ elim (Bool-cases (r == b'}')) [
        | inl c ↦ simp (o, c) (refl, refl)
        | inr c ↦ simp (o, c) (stand, sym keep)
      ]
    ]

-- Every token that `next` returns can stand at the nesting of braces before it: a label matcher's
-- `!=` and `!~` come up only inside braces, a line filter's only outside. And `next` keeps count:
-- the nesting after the token is one more after an opening brace, one less after a closing one
-- (none outside) and the same after every other token, whatever the text of strings holds.
pub next-depth_after :
    (u : Wide) (s : Scanner)
    → (stands s.brace_depth (next u s).0.typ ≡ true)
      × ((next u s).1.brace_depth ≡ depth_after s.brace_depth (next u s).0.typ)
unfolding next
next-depth_after u s = dispatch-depth u s.brace_depth (skip_ws u s.rest)
