-- ===== src/Logql/Parser/State.antt =====
-- internal/logql/parser.go: the state of the parser and its steps over the tokens. A speculative
-- parse works on a state of its own, so `mark` and `reset` are the old value of the state.
use loki_vl_proxy.Prelude.{ℕ, suc, ◌-◌, Bool, ◌&&◌, List, [], if◌then◌else◌, ◌==◌, length, take}
use loki_vl_proxy.Logql.Text.{utf8, runes_eq}
use loki_vl_proxy.Logql.Env.{Env}
use loki_vl_proxy.Logql.Token.{
  TokType, Token, eof, error, l_brace, r_brace, l_paren, r_paren, l_bracket, r_bracket, comma, pipe,
  at_sign, eq, neq, re_match, re_not_match, pipe_eq, bang_eq, pipe_tilde, bang_tilde, pipe_gt,
  bang_gt, ident, string, raw_string, duration, number, plus, minus, star, slash, percent, caret,
  lt, gt, lt_eq, gt_eq, eq_eq, by, without, on, ignoring, group_left, group_right, and_, or_,
  unless,
}
use loki_vl_proxy.Logql.Scanner.{Scanner, new_scanner, next}
use loki_vl_proxy.Logql.Result.{Result, ok, failed, expected}

-- The order of the constants.
unfoldable pub tok_code : TokType → ℕ
tok_code eof = 0
tok_code error = 1
tok_code l_brace = 2
tok_code r_brace = 3
tok_code l_paren = 4
tok_code r_paren = 5
tok_code l_bracket = 6
tok_code r_bracket = 7
tok_code comma = 8
tok_code pipe = 9
tok_code at_sign = 10
tok_code eq = 11
tok_code neq = 12
tok_code re_match = 13
tok_code re_not_match = 14
tok_code pipe_eq = 15
tok_code bang_eq = 16
tok_code pipe_tilde = 17
tok_code bang_tilde = 18
tok_code pipe_gt = 19
tok_code bang_gt = 20
tok_code ident = 21
tok_code string = 22
tok_code raw_string = 23
tok_code duration = 24
tok_code number = 25
tok_code plus = 26
tok_code minus = 27
tok_code star = 28
tok_code slash = 29
tok_code percent = 30
tok_code caret = 31
tok_code lt = 32
tok_code gt = 33
tok_code lt_eq = 34
tok_code gt_eq = 35
tok_code eq_eq = 36
tok_code by = 37
tok_code without = 38
tok_code on = 39
tok_code ignoring = 40
tok_code group_left = 41
tok_code group_right = 42
tok_code and_ = 43
tok_code or_ = 44
tok_code unless = 45

unfoldable pub same_type : TokType → TokType → Bool
unfolding tok_code
same_type t t' = tok_code t == tok_code t'

-- `Token{}`
abbrev pub zero_token : Token
zero_token = record { typ = eof; val = [] }

pub record ParserState : Type 0 where
  pub sc : Scanner
  pub cur : Token
  pub input : List ℕ

-- `p.cur.Typ == typ`
unfoldable pub at : TokType → ParserState → Bool
unfolding same_type
at t p = same_type p.cur.typ t

-- `p.cur.Typ == TokIdent && p.cur.Val == s`
unfoldable pub at_word : List ℕ → ParserState → Bool
unfolding at
at_word s p = at ident p && runes_eq p.cur.val s

-- `p.sc.pos`
unfoldable pub pos : ParserState → ℕ
pos p = length (utf8 p.input) - length (utf8 p.sc.rest)

-- The text between two positions of the scanner, the first by what follows it.
unfoldable pub between : List ℕ → List ℕ → List ℕ
between from to = take (length from - length to) from

-- How much is left to read: nothing at the end of the query.
unfoldable pub measure : ParserState → ℕ
unfolding at same_type tok_code
measure p = if at eof p then 0 else suc (length p.sc.rest)

module _ {F : Type 0} (env : Env F) where
  unfoldable pub advance : ParserState → ParserState
  advance p = let (tok, sc) = next env.classes p.sc in record p { sc = sc; cur = tok }

  unfoldable pub peek_typ : ParserState → TokType
  unfolding advance
  peek_typ p = (advance p).cur.typ

  unfoldable pub expect : TokType → ParserState → Result (Token × ParserState)
  unfolding advance at
  expect t p = if at t p then ok (p.cur, advance p) else failed (expected t p.cur)

  -- `&parser{sc: newScanner(input), input: input}`
  unfoldable pub new_parser : List ℕ → ParserState
  unfolding advance
  new_parser input = record { sc = new_scanner input; cur = zero_token; input = input }
