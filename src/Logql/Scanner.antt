-- ===== src/Logql/Scanner.antt =====
-- internal/logql/scanner.go: the scanner. Its state is the text that is still to be read, as code
-- points, and the nesting of braces; `s.src[start:s.pos]` is the text taken in between. The query
-- is taken to be valid UTF-8.
pub mod Progress
pub mod Disambiguation
pub mod Numbers
pub mod Quoting
pub mod Printing
pub mod Tests
use loki_vl_proxy.Prelude.{
  ℕ, zero, suc, ◌-◌, Bool, true, false, ◌&&◌, ◌||◌, not, Option, none, some, List, [], ◌∷◌, ◌++◌,
  if◌then◌else◌, ltb, ◌==◌, length,
}
use loki_vl_proxy.Logql.Text.{
  Wide, is_letter, is_digit, is_space, utf8_encode, utf8, codes, span, runes_eq,
}
use loki_vl_proxy.Logql.Unquote.{unquote}
use loki_vl_proxy.Logql.Token.{
  TokType, Token, eof, error, l_brace, r_brace, l_paren, r_paren, l_bracket, r_bracket, comma, pipe,
  at_sign, eq, neq, re_match, re_not_match, pipe_eq, bang_eq, pipe_tilde, bang_tilde, pipe_gt,
  bang_gt, ident, string, raw_string, duration, number, plus, minus, star, slash, percent, caret,
  lt, gt, lt_eq, gt_eq, eq_eq, by, without, on, ignoring, group_left, group_right, and_, or_,
  unless,
}

pub record Scanner : Type 0 where
  pub rest : List ℕ
  pub brace_depth : ℕ

unfoldable pub new_scanner : List ℕ → Scanner
new_scanner src = record { rest = src; brace_depth = 0 }

unfoldable pub token : TokType → List ℕ → Token
token t v = record { typ = t; val = v }

-- The next code point, 0 at the end.
unfoldable pub peek : List ℕ → ℕ
peek [] = 0
peek (r ∷ rs) = r

-- `read` moves past it.
unfoldable pub advance : List ℕ → List ℕ
advance [] = []
advance (r ∷ rs) = rs

-- What follows the opening quote of a literal: its inside and what follows the closing quote.
-- `skip` says that a backslash stands before.
unfoldable pub quoted : Bool → List ℕ → Option (List ℕ × List ℕ)
quoted skip [] = none
quoted true (r ∷ rs) = elim (quoted false rs) [
  | none ↦ none
  | some (cs, after) ↦ some (r ∷ cs, after)
]
quoted false (r ∷ rs) =
    let longer : Option (List ℕ × List ℕ) = elim (quoted (r == 92) rs) [
      | none ↦ none
      | some (cs, after) ↦ some (r ∷ cs, after)
    ] in
    if r == 34 then some ([], rs) else longer

unfoldable pub unquoted_token : Option (List ℕ) → Token
unfolding token
unquoted_token none = token error (codes "invalid quoted string")
unquoted_token (some v) = token string v

unfoldable pub quoted_token : Option (List ℕ × List ℕ) → Token × List ℕ
unfolding token
quoted_token none = (token error (codes "unterminated quoted string"), [])
quoted_token (some (cs, after)) = (unquoted_token (unquote (length cs) cs), after)

-- From the opening quote on.
unfoldable pub scan_quoted_string : List ℕ → Token × List ℕ
unfolding advance quoted_token unquoted_token
scan_quoted_string rs = quoted_token (quoted false (advance rs))

unfoldable pub not_backquote : ℕ → Bool
not_backquote r = not (r == 96)

unfoldable pub scan_raw_string : List ℕ → Token × List ℕ
scan_raw_string rs =
    let (val, after) = span not_backquote (advance rs) in
    (token raw_string (utf8 val), advance after)

unfoldable pub keyword : List ℕ → TokType
keyword val =
    if runes_eq val (codes "by")
    then by
    else if runes_eq val (codes "without")
    then without
    else if runes_eq val (codes "on")
    then on
    else if runes_eq val (codes "ignoring")
    then ignoring
    else if runes_eq val (codes "group_left")
    then group_left
    else if runes_eq val (codes "group_right")
    then group_right
    else if runes_eq val (codes "and")
    then and_
    else if runes_eq val (codes "or")
    then or_
    else if runes_eq val (codes "unless")
    then unless
    else ident

unfoldable pub is_empty : List ℕ → Bool
is_empty [] = true
is_empty (r ∷ rs) = false

-- `( ) [ ] , @ + - * / % ^`
unfoldable pub punctuation : ℕ → Option TokType
punctuation r =
    if r == b'('
    then some l_paren
    else if r == b')'
    then some r_paren
    else if r == b'['
    then some l_bracket
    else if r == b']'
    then some r_bracket
    else if r == b','
    then some comma
    else if r == b'@'
    then some at_sign
    else if r == b'+'
    then some plus
    else if r == b'-'
    then some minus
    else if r == b'*'
    then some star
    else if r == b'/'
    then some slash
    else if r == b'%'
    then some percent
    else if r == b'^'
    then some caret
    else none

-- The token that an operator starts, by the code point after it, and whether it takes that too.
unfoldable pub pipe_token : ℕ → TokType × Bool
pipe_token r2 =
    if r2 == b'='
    then (pipe_eq, true)
    else if r2 == b'~'
    then (pipe_tilde, true)
    else if r2 == b'>'
    then (pipe_gt, true)
    else (pipe, false)

unfoldable pub bang_token : ℕ → ℕ → TokType × Bool
bang_token depth r2 =
    if r2 == b'='
    then (if ltb 0 depth then neq else bang_eq, true)
    else if r2 == b'~'
    then (if ltb 0 depth then re_not_match else bang_tilde, true)
    else if r2 == b'>'
    then (bang_gt, true)
    else (error, false)

unfoldable pub eq_token : ℕ → TokType × Bool
eq_token r2 =
    if r2 == b'~' then (re_match, true) else if r2 == b'=' then (eq_eq, true) else (eq, false)

unfoldable pub operator : ℕ → ℕ → ℕ → Option (TokType × Bool)
unfolding pipe_token bang_token eq_token
operator depth r r2 =
    if r == b'|'
    then some (pipe_token r2)
    else if r == b'!'
    then some (bang_token depth r2)
    else if r == b'<'
    then some (if r2 == b'=' then (lt_eq, true) else (lt, false))
    else if r == b'>'
    then some (if r2 == b'=' then (gt_eq, true) else (gt, false))
    else if r == b'='
    then some (eq_token r2)
    else none

module _ (u : Wide) where
  unfoldable pub skip_ws : List ℕ → List ℕ
  skip_ws rs = (span (is_space u) rs).1

  unfoldable pub ident_rune : ℕ → Bool
  ident_rune r = (is_letter u r || is_digit u r) || (r == b'_' || r == b'.')

  unfoldable pub scan_ident : List ℕ → Token × List ℕ
  unfolding ident_rune keyword
  scan_ident rs = let (val, after) = span ident_rune rs in (token (keyword val) (utf8 val), after)

  unfoldable pub value_rune : ℕ → Bool
  value_rune r = is_digit u r || r == b'.'

  -- The pairs of a value and a unit, on fuel: what they take, whether there was a unit, the rest.
  unfoldable pub segments : ℕ → Bool → List ℕ → List ℕ × (Bool × List ℕ)
  unfolding value_rune is_empty
  segments zero saw_unit rs = ([], (saw_unit, rs))
  segments (suc fuel) saw_unit rs =
      let (digits, at_unit) = span value_rune rs in
      let (unit, after) = span (is_letter u) at_unit in
      let (more, stop) = segments fuel true after in
      if is_empty digits
      then ([], (saw_unit, rs))
      else if is_empty unit
      then (digits, (saw_unit, at_unit))
      else (digits ++ (unit ++ more), stop)

  unfoldable pub scan_number_or_duration : List ℕ → Token × List ℕ
  scan_number_or_duration rs =
      let (val, (saw_unit, after)) = segments (length rs) false rs in
      (token (if saw_unit then duration else number) (utf8 val), after)

  -- After the fixed tokens: strings, words and numbers.
  unfoldable pub scan_word : ℕ → List ℕ → Token × List ℕ
  scan_word r rs =
      if r == 34
      then scan_quoted_string (r ∷ rs)
      else if r == 96
      then scan_raw_string (r ∷ rs)
      else if is_letter u r || r == b'_'
      then scan_ident (r ∷ rs)
      else if is_digit u r
      then scan_number_or_duration (r ∷ rs)
      else (token error (utf8_encode r), rs)

  unfoldable pub scan_operator : ℕ → List ℕ → Option (TokType × Bool) → Token × List ℕ
  scan_operator r rs none = scan_word r rs
  scan_operator r rs (some (t, true)) = (token t (r ∷ peek rs ∷ []), advance rs)
  scan_operator r rs (some (t, false)) = (token t (r ∷ []), rs)

  unfoldable pub scan_fixed : ℕ → ℕ → List ℕ → Option TokType → Token × List ℕ
  scan_fixed depth r rs (some t) = (token t (r ∷ []), rs)
  scan_fixed depth r rs none = scan_operator r rs (operator depth r (peek rs))

  -- The switch of `next`, after the spaces.
  unfoldable pub dispatch : ℕ → List ℕ → Token × Scanner
  dispatch depth [] = (token eof [], record { rest = []; brace_depth = depth })
  dispatch depth (r ∷ rs) =
      let (t, after) = scan_fixed depth r rs (punctuation r) in
      if r == b'{'
      then (token l_brace (r ∷ []), record { rest = rs; brace_depth = suc depth })
      else if r == b'}'
      then (token r_brace (r ∷ []), record { rest = rs; brace_depth = depth - 1 })
      else (t, record { rest = after; brace_depth = depth })

  unfoldable pub next : Scanner → Token × Scanner
  next s = dispatch s.brace_depth (skip_ws s.rest)
