-- ===== src/Logql/Scanner/Progress.antt =====
-- internal/logql/scanner.go: every token takes text, so that a query has finitely many tokens.
use loki_vl_proxy.Prelude.{
  ℕ, zero, suc, ◌+◌, ◌≤◌, ◌<◌, ◌≡◌, refl, sym, ap, ◌∙◌, ◌⊎◌, inl, inr, Bool, true, false, ◌||◌,
  Option, none, some, List, [], ◌∷◌, ◌++◌, if◌then◌else◌, ◌==◌, length, length-append, arith,
  Bool-cases,
}
use loki_vl_proxy.Logql.Text.{Wide, is_letter, is_digit, is_space, span}
use loki_vl_proxy.Logql.Token.{TokType, Token, eof}
use loki_vl_proxy.Logql.Scanner.{
  Scanner, token, peek, advance, quoted, quoted_token, scan_quoted_string, not_backquote,
  scan_raw_string, is_empty, punctuation, operator, skip_ws, ident_rune, scan_ident, value_rune,
  segments, scan_number_or_duration, scan_word, scan_operator, scan_fixed, dispatch, next,
}

pub span-append : (p : ℕ → Bool) (rs : List ℕ) → (span p rs).0 ++ (span p rs).1 ≡ rs
unfolding span
span-append p [] = refl
span-append p (r ∷ rs) = elim (Bool-cases (p r)) [
  | inl e ↦ simp (e, span-append p rs)
  | inr e ↦ simp (e)
]

pub length-span :
    (p : ℕ → Bool) (rs : List ℕ) → length (span p rs).0 + length (span p rs).1 ≡ length rs
length-span p rs = sym (length-append (span p rs).0 (span p rs).1) ∙ ap length (span-append p rs)

pub length-span-le : (p : ℕ → Bool) (rs : List ℕ) → length (span p rs).1 ≤ length rs
length-span-le p rs = let e = length-span p rs in omega arith

pub length-span-lt :
    (p : ℕ → Bool) (r : ℕ) (rs : List ℕ) → p r ≡ true → length (span p (r ∷ rs)).1 ≤ length rs
unfolding span
length-span-lt p r rs pr = simp pr (length-span-le p rs)

pub length-advance-le : (rs : List ℕ) → length (advance rs) ≤ length rs
unfolding advance
length-advance-le [] = omega arith
length-advance-le (r ∷ rs) = omega arith

-- What stands from the closing quote on.
left_over : Option (List ℕ × List ℕ) → ℕ
left_over none = 0
left_over (some (cs, after)) = suc (length after)

step-le :
    (r n : ℕ) (o : Option (List ℕ × List ℕ))
    → left_over o ≤ n
    → left_over (elim o [ none ↦ none | some (cs, after) ↦ some (r ∷ cs, after) ]) ≤ suc n
unfolding left_over
step-le r n none h = omega arith
step-le r n (some (cs, after)) h = omega arith

quoted-le : (skip : Bool) (rs : List ℕ) → left_over (quoted skip rs) ≤ length rs
unfolding quoted left_over
quoted-le true [] = omega arith
quoted-le false [] = omega arith
quoted-le true (r ∷ rs) = step-le r (length rs) (quoted false rs) (quoted-le false rs)
quoted-le false (r ∷ rs) = elim (Bool-cases (r == 34)) [
  | inl e ↦ simp e (omega arith)
  | inr e ↦ simp e (step-le r (length rs) (quoted (r == 92) rs) (quoted-le (r == 92) rs))
]

segments-le :
    (u : Wide) (fuel : ℕ) (saw : Bool) (rs : List ℕ)
    → length (segments u fuel saw rs).1.1 ≤ length rs
unfolding segments
segments-le u zero saw rs = omega arith
segments-le u (suc fuel) saw rs =
    let at_unit = (span (value_rune u) rs).1 in
    let after = (span (is_letter u) at_unit).1 in
    let digits_le = length-span-le (value_rune u) rs in
    let unit_le = length-span-le (is_letter u) at_unit in
    let ih = segments-le u fuel true after in
    elim (Bool-cases (is_empty (span (value_rune u) rs).0)) [
      | inl e ↦ simp e (omega arith)
      | inr e ↦ elim (Bool-cases (is_empty (span (is_letter u) at_unit).0)) [
        | inl e' ↦ simp (e, e') digits_le
        | inr e' ↦ simp (e, e') (omega arith)
      ]
    ]

segments-lt :
    (u : Wide) (r : ℕ) (rs : List ℕ)
    → value_rune u r ≡ true
    → length (segments u (suc (length rs)) false (r ∷ rs)).1.1 ≤ length rs
unfolding segments span is_empty
segments-lt u r rs pr =
    let at_unit = (span (value_rune u) rs).1 in
    let after = (span (is_letter u) at_unit).1 in
    let digits_le = length-span-le (value_rune u) rs in
    let unit_le = length-span-le (is_letter u) at_unit in
    let ih = segments-le u (length rs) true after in
    elim (Bool-cases (is_empty (span (is_letter u) at_unit).0)) [
      | inl e' ↦ simp (pr, e') digits_le
      | inr e' ↦ simp (pr, e') (omega arith)
    ]

quoted_string-le : (r : ℕ) (rs : List ℕ) → length (scan_quoted_string (r ∷ rs)).1 ≤ length rs
unfolding scan_quoted_string advance quoted_token left_over
quoted_string-le r rs = go (quoted false rs) (quoted-le false rs)
  where
    go :
        (o : Option (List ℕ × List ℕ))
        → left_over o ≤ length rs
        → length (quoted_token o).1 ≤ length rs
    go none h = omega arith
    go (some (cs, after)) h = omega arith

raw_string-le : (r : ℕ) (rs : List ℕ) → length (scan_raw_string (r ∷ rs)).1 ≤ length rs
unfolding scan_raw_string advance
raw_string-le r rs =
    let le = length-span-le not_backquote rs in
    let le' = length-advance-le (span not_backquote rs).1 in omega arith

ident-le :
    (u : Wide) (r : ℕ) (rs : List ℕ)
    → (is_letter u r || r == b'_') ≡ true
    → length (scan_ident u (r ∷ rs)).1 ≤ length rs
unfolding scan_ident ident_rune
ident-le u r rs h = length-span-lt (ident_rune u) r rs ident
  where
    ident : ident_rune u r ≡ true
    ident = grind arith

number-le :
    (u : Wide) (r : ℕ) (rs : List ℕ)
    → is_digit u r ≡ true
    → length (scan_number_or_duration u (r ∷ rs)).1 ≤ length rs
unfolding scan_number_or_duration value_rune
number-le u r rs h = segments-lt u r rs value
  where
    value : value_rune u r ≡ true
    value = simp h

word-le : (u : Wide) (r : ℕ) (rs : List ℕ) → length (scan_word u r rs).1 ≤ length rs
unfolding scan_word
word-le u r rs = elim (Bool-cases (r == 34)) [
  | inl q ↦ simp q (quoted_string-le r rs)
  | inr q ↦ elim (Bool-cases (r == 96)) [
    | inl b ↦ simp (q, b) (raw_string-le r rs)
    | inr b ↦ elim (Bool-cases (is_letter u r || r == b'_')) [
      | inl l ↦ simp (q, b, l) (ident-le u r rs l)
      | inr l ↦ elim (Bool-cases (is_digit u r)) [
        | inl d ↦ simp (q, b, l, d) (number-le u r rs d)
        | inr d ↦ simp (q, b, l, d) (omega arith)
      ]
    ]
  ]
]

operator-le :
    (u : Wide) (r : ℕ) (rs : List ℕ) (o : Option (TokType × Bool))
    → length (scan_operator u r rs o).1 ≤ length rs
unfolding scan_operator
operator-le u r rs none = word-le u r rs
operator-le u r rs (some (t, true)) = length-advance-le rs
operator-le u r rs (some (t, false)) = omega arith

fixed-le :
    (u : Wide) (depth r : ℕ) (rs : List ℕ) (t : Option TokType)
    → length (scan_fixed u depth r rs t).1 ≤ length rs
unfolding scan_fixed
fixed-le u depth r rs (some t) = omega arith
fixed-le u depth r rs none = operator-le u r rs (operator depth r (peek rs))

dispatch-le :
    (u : Wide) (depth r : ℕ) (rs : List ℕ) → length (dispatch u depth (r ∷ rs)).1.rest ≤ length rs
unfolding dispatch
dispatch-le u depth r rs = elim (Bool-cases (r == b'{')) [
  | inl o ↦ simp o (omega arith)
  | inr o ↦ elim (Bool-cases (r == b'}')) [
    | inl c ↦ simp (o, c) (omega arith)
    | inr c ↦ simp (o, c) (fixed-le u depth r rs (punctuation r))
  ]
]

-- Whether a token ends the query.
unfoldable pub is_eof : TokType → Bool
is_eof eof = true
is_eof _ = false

-- The tokens up to the end of the query, by the calls of `next` that the parser makes, on fuel.
unfoldable pub tokens : Wide → ℕ → Scanner → Option (List Token)
unfolding is_eof
tokens u zero s = none
tokens u (suc fuel) s =
    let (t, s') = next u s in
    let more : Option (List Token) = elim (tokens u fuel s') [
      | none ↦ none
      | some ts ↦ some (t ∷ ts)
    ] in
    if is_eof t.typ then some (t ∷ []) else more

-- Whatever the query, `next` reaches its end: the calls up to the end of the query return a list
-- of tokens, at most one more than the code points that the scanner has left, and fuel above that
-- number is enough.
pub tokens-next :
    (u : Wide) (fuel : ℕ) (s : Scanner)
    → length s.rest < fuel
    → (ts : List Token) × (tokens u fuel s ≡ some ts) × (length ts ≤ suc (length s.rest))
unfolding tokens next dispatch skip_ws token is_eof
tokens-next u zero s h = ground arith
tokens-next u (suc fuel) s h =
    go (λ s' lt. tokens-next u fuel s' (omega arith)) (skip_ws u s.rest) refl
  where
    go :
        ((s' : Scanner)
          → length s'.rest < length s.rest
          → (ts : List Token) × (tokens u fuel s' ≡ some ts) × (length ts ≤ suc (length s'.rest)))
        → (rs : List ℕ) → skip_ws u s.rest ≡ rs
        → (ts : List Token) × (tokens u (suc fuel) s ≡ some ts) × (length ts ≤ suc (length s.rest))
    go ih [] e = (token eof [] ∷ [], simp e, omega arith)
    go ih (r ∷ rs) e =
        let d = dispatch u s.brace_depth (r ∷ rs) in
        let le = dispatch-le u s.brace_depth r rs in
        let skip = ap length e in
        let skip_le = length-span-le (is_space u) s.rest in
        let (ts, found, few) = ih d.1 (omega arith) in
        elim (Bool-cases (is_eof d.0.typ)) [
          | inl end ↦ (d.0 ∷ [], simp (e, end), omega arith)
          | inr end ↦ (d.0 ∷ ts, simp (e, end, found), omega arith)
        ]

pub next-lt :
    (u : Wide) (s : Scanner)
    → ((next u s).0 ≡ token eof []) ⊎ (length (next u s).1.rest < length s.rest)
unfolding next dispatch skip_ws
next-lt u s = go (skip_ws u s.rest) refl
  where
    go :
        (rs : List ℕ)
        → skip_ws u s.rest ≡ rs
        → ((dispatch u s.brace_depth rs).0 ≡ token eof [])
          ⊎ (length (dispatch u s.brace_depth rs).1.rest < length s.rest)
    go [] e = inl refl
    go (r ∷ rs) e =
        let le = dispatch-le u s.brace_depth r rs in
        let skip = ap length e in
        let skip_le = length-span-le (is_space u) s.rest in inr (omega arith)
