-- ===== src/Logql/Parser/Strings.antt =====
-- internal/logql/parser.go, ip_filter.go: string operands and the line filters.
use loki_vl_proxy.Prelude.{
  ℕ, zero, suc, ◌-◌, Bool, true, false, ◌&&◌, ◌||◌, not, Option, none, some, List, [], ◌∷◌, ◌++◌,
  if◌then◌else◌, leb, ◌==◌, length, take, drop,
}
use loki_vl_proxy.Logql.Text.{codes, runes_eq}
use loki_vl_proxy.Logql.Env.{Env}
use loki_vl_proxy.Logql.Token.{
  TokType, l_paren, r_paren, ident, string, raw_string, or_, pipe_eq, bang_eq, pipe_tilde,
  bang_tilde, pipe_gt, bang_gt,
}
use loki_vl_proxy.Logql.Result.{
  Result, ok, failed, out_of_fuel, ◌>>=◌, expected_string, expected_string_got_ident,
  invalid_ip_pattern, invalid_ip_operation,
}
use loki_vl_proxy.Logql.Ast.{
  LineFilterOp, contains, excludes, match_regexp, exclude_regexp, contains_pattern, exclude_pattern,
  Stage, line_filter,
}
use loki_vl_proxy.Logql.Parser.State.{
  ParserState, at, at_word, advance, peek_typ, expect, measure, same_type,
}

-- `strings.Cut(s, "-")`: what stands before the first one and after it.
unfoldable pub cut : List ℕ → Option (List ℕ × List ℕ)
cut [] = none
cut (c ∷ cs) =
    let longer : Option (List ℕ × List ℕ) = elim (cut cs) [
      | none ↦ none
      | some (from, to) ↦ some (c ∷ from, to)
    ] in
    if c == b'-' then some ([], cs) else longer

-- `strings.TrimPrefix(s, "ip(")`, then `strings.TrimSuffix(s, ")")`.
unfoldable pub trim_prefix : List ℕ → List ℕ → List ℕ
trim_prefix prefix s =
    if runes_eq (take (length prefix) s) prefix then drop (length prefix) s else s

unfoldable pub trim_suffix : List ℕ → List ℕ → List ℕ
trim_suffix suffix s =
    let n = length s - length suffix in
    if leb (length suffix) (length s) && runes_eq (drop n s) suffix then take n s else s

unfoldable pub is_line_filter_operator : TokType → Bool
is_line_filter_operator pipe_eq = true
is_line_filter_operator bang_eq = true
is_line_filter_operator pipe_tilde = true
is_line_filter_operator bang_tilde = true
is_line_filter_operator pipe_gt = true
is_line_filter_operator bang_gt = true
is_line_filter_operator _ = false

unfoldable pub line_filter_op : TokType → LineFilterOp
line_filter_op bang_eq = excludes
line_filter_op pipe_tilde = match_regexp
line_filter_op bang_tilde = exclude_regexp
line_filter_op pipe_gt = contains_pattern
line_filter_op bang_gt = exclude_pattern
line_filter_op _ = contains

-- `TokString, TokRawString`
unfoldable pub is_string : TokType → Bool
unfolding same_type
is_string t = same_type t string || same_type t raw_string

unfoldable pub same_family : Option (ℕ × ℕ) → Option (ℕ × ℕ) → Bool
same_family (some (bits, lo)) (some (bits', hi)) = bits == bits' && leb lo hi
same_family (some a) none = false
same_family none _ = false

module _ {F : Type 0} (env : Env F) where
  unfoldable pub valid_ip_range : Option (List ℕ × List ℕ) → Bool
  unfolding same_family
  valid_ip_range none = false
  valid_ip_range (some (from, to)) = same_family (env.parse_addr from) (env.parse_addr to)

  unfoldable pub valid_ip_pattern : List ℕ → Bool
  unfolding valid_ip_range cut
  valid_ip_pattern pattern = elim (env.parse_addr pattern) [
    | some a ↦ true
    | none ↦ if env.parse_prefix pattern then true else valid_ip_range (cut pattern)
  ]

  -- What follows a name: its argument in parentheses, read by the parser of string operands.
  unfoldable pub call_operand :
      (ParserState → Result (List ℕ × ParserState))
      → List ℕ
      → ParserState
      → Result (List ℕ × ParserState)
  unfolding at advance expect valid_ip_pattern
  call_operand operand name p =
      if not (at l_paren p) then failed (expected_string_got_ident name) else do
        (val, p1) ← operand (advance env p)
        (tok, p2) ← expect env r_paren p1
        if runes_eq name (codes "ip") && not (valid_ip_pattern val)
            then failed (invalid_ip_pattern val)
            else ok (name ++ (codes "(" ++ (val ++ codes ")")), p2)

  unfoldable pub string_operand : ℕ → ParserState → Result (List ℕ × ParserState)
  unfolding call_operand at advance is_string
  string_operand zero p = out_of_fuel
  string_operand (suc fuel) p =
      if is_string p.cur.typ
      then ok (p.cur.val, advance env p)
      else if at ident p
      then call_operand (string_operand fuel) p.cur.val (advance env p)
      else failed (expected_string p.cur)

  unfoldable pub expect_string_or_raw : ParserState → Result (List ℕ × ParserState)
  unfolding string_operand measure
  expect_string_or_raw p = string_operand (suc (measure p)) p

  unfoldable pub or_operands : ℕ → ParserState → Result (List (List ℕ) × ParserState)
  unfolding at advance peek_typ is_string expect_string_or_raw
  or_operands zero p = out_of_fuel
  or_operands (suc fuel) p = if not (at or_ p && is_string (peek_typ env p)) then ok ([], p) else do
    (val, p1) ← expect_string_or_raw (advance env p)
    (vals, p2) ← or_operands fuel p1
    ok (val ∷ vals, p2)

  unfoldable pub parse_line_filter_or_list : ParserState → Result (List (List ℕ) × ParserState)
  unfolding or_operands measure
  parse_line_filter_or_list p = or_operands (suc (measure p)) p

  -- The operand: with `ip` its argument, and otherwise the other values too.
  unfoldable pub line_filter_operand :
      Bool → ParserState → Result ((List ℕ × List (List ℕ)) × ParserState)
  unfolding expect_string_or_raw parse_line_filter_or_list trim_prefix trim_suffix
  line_filter_operand true p = do
    (value, p1) ← expect_string_or_raw p
    ok ((trim_suffix (codes ")") (trim_prefix (codes "ip(") value), []), p1)
  line_filter_operand false p = do
    (value, p1) ← expect_string_or_raw p
    (alts, p2) ← parse_line_filter_or_list p1
    ok ((value, alts), p2)

  unfoldable pub parse_line_filter_stage : ParserState → Result (Stage × ParserState)
  unfolding advance at_word at same_type line_filter_operand line_filter_op
  parse_line_filter_stage p =
      let p1 = advance env p in
      let ip = at_word (codes "ip") p1 in
      if ip && not (at pipe_eq p || at bang_eq p) then failed invalid_ip_operation else do
        ((value, alts), p2) ← line_filter_operand ip p1
        ok (
          line_filter
              (record { op = line_filter_op p.cur.typ; value = value; ip = ip; or_list = alts }),
          p2,
        )
