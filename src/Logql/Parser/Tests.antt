-- ===== src/Logql/Parser/Tests.antt =====
-- Runs of the parser.
use loki_vl_proxy.Prelude.{
  ℕ, suc, ◌≡◌, ◌≢◌, refl, ◌⊎◌, List, [], ◌∷◌, ◌++◌, none, some, if◌then◌else◌, true, false, length,
  arith,
}
use loki_vl_proxy.Logql.Text.{
  codes, is_letter, is_digit, is_space, utf8_encode, utf8, span, runes_eq,
}
use loki_vl_proxy.Logql.Env.{Env}
use loki_vl_proxy.Logql.Token.{plus, star, caret, eof, to_string}
use loki_vl_proxy.Logql.Unquote.{unquote}
use loki_vl_proxy.Logql.Scanner.{
  new_scanner, token, peek, unquoted_token, quoted_token, quoted, scan_quoted_string, keyword,
  is_empty, punctuation, operator, skip_ws, ident_rune, scan_ident, value_rune, segments,
  scan_number_or_duration, scan_word, scan_operator, scan_fixed, dispatch, next,
}
use loki_vl_proxy.Logql.Scanner
use loki_vl_proxy.Logql.Scanner.Progress.{tokens}
use loki_vl_proxy.Logql.Result.{ok, out_of_fuel}
use loki_vl_proxy.Logql.Ast.{
  Expr, vector_aggregation, topk, opaque_metric, LineFilterStage, contains, excludes, line_filter,
  LogQuery, unwrap, decolorize, strip_incomplete_unwrap_stubs,
}
use loki_vl_proxy.Logql.Ast.Stubs.{Stripped, strip_incomplete_unwrap_stubs-idempotent}
use loki_vl_proxy.Logql.Parser.State.{ParserState, tok_code, same_type, new_parser}
use loki_vl_proxy.Logql.Parser.State
use loki_vl_proxy.Logql.Parser.Strings.{parse_line_filter_stage, valid_ip_pattern}
use loki_vl_proxy.Logql.Parser.Expr.{parse}
use loki_vl_proxy.Logql.Parser.Progress.Expr.{parse-total}
use loki_vl_proxy.Logql.Parser.Precedence.{Infix, operand, apply, written, to_expr, IsCanonical}
use loki_vl_proxy.Logql.Parser.Precedence.Loop.{parse-written}
use loki_vl_proxy.Logql.Parser.IpFilter.{parse_line_filter_stage-ip}
use loki_vl_proxy.Logql.Parser.Params.{HasParams, parse-HasParams}

-- Only ASCII, numbers that are their text, and one address, `::`, of 128 bits.
abbrev text_env : Env (List ℕ)
text_env = record {
  classes = record { letter = λ r. false; digit = λ r. false; space = λ r. false };
  printable = λ r. true;
  parse_float = λ s. some s;
  negate = λ s. 45 ∷ s;
  of_int = λ n. n ∷ [];
  format = λ s. s;
  parse_addr = λ s. if runes_eq s (codes "::") then some (128, 0) else none;
  parse_prefix = λ s. false;
}

abbrev query_text : List ℕ
query_text =
    codes "sum by(app) (rate({app=\"x\"} |= \"e\" or \"f\" | json | status!=200[5m])) * 2 + 1"

parse-total_example : parse text_env query_text ≢ out_of_fuel
parse-total_example = parse-total text_env query_text

abbrev number_of : List ℕ → Infix (List ℕ)
number_of s = operand s s

-- 1+2*3^4^5
abbrev powers : Infix (List ℕ)
powers = apply plus (number_of (codes "1")) (
    apply star (number_of (codes "2")) (
      apply caret (number_of (codes "3"))
        (apply caret (number_of (codes "4")) (number_of (codes "5")))))

powers-IsCanonical : IsCanonical text_env powers
unfolding IsCanonical
powers-IsCanonical = (
  omega arith,
  tt,
  omega arith,
  refl,
  (
    omega arith,
    tt,
    omega arith,
    refl,
    (omega arith, tt, omega arith, refl, (omega arith, tt, tt, refl, refl)),
  ),
)

powers-tokens :
    tokens text_env.classes (suc (length (codes "1+2*3^4^5"))) (new_scanner (codes "1+2*3^4^5"))
    ≡ some (written powers ++ token eof [] ∷ [])
unfolding tokens written next dispatch skip_ws span new_scanner is_space scan_fixed punctuation
    scan_operator operator scan_word is_letter is_digit scan_number_or_duration token segments utf8
    to_string utf8_encode
powers-tokens = refl

parse-written_example : parse text_env (codes "1+2*3^4^5") ≡ ok (to_expr powers)
parse-written_example =
    parse-written text_env (codes "1+2*3^4^5") powers powers-IsCanonical powers-tokens

-- `| unwrap [5m]` between two other stages.
abbrev stub_query : LogQuery
stub_query = record {
  selector = record { matchers = [] };
  pipeline = decolorize ∷ unwrap [] [] ∷ unwrap (codes "latency") [] ∷ [];
}

strip_incomplete_unwrap_stubs-idempotent_example :
    Stripped stub_query.pipeline (strip_incomplete_unwrap_stubs stub_query).pipeline
    × (strip_incomplete_unwrap_stubs (strip_incomplete_unwrap_stubs stub_query)
        ≡ strip_incomplete_unwrap_stubs stub_query)
    × ((strip_incomplete_unwrap_stubs stub_query).selector ≡ stub_query.selector)
strip_incomplete_unwrap_stubs-idempotent_example =
    strip_incomplete_unwrap_stubs-idempotent stub_query

-- `!= ip("::")`
abbrev at_filter : ParserState
at_filter = State.advance text_env (new_parser text_env (codes "!= ip(\"::\")"))

abbrev after_filter : ParserState
after_filter = record {
  sc = record { rest = []; brace_depth = 0 };
  cur = record { typ = eof; val = [] };
  input = codes "!= ip(\"::\")";
}

abbrev address_filter : LineFilterStage
address_filter = record { op = excludes; value = codes "::"; ip = true; or_list = [] }

at_filter-parsed :
    parse_line_filter_stage text_env at_filter ≡ ok (line_filter address_filter, after_filter)
unfolding parse_line_filter_stage new_parser next dispatch skip_ws span new_scanner is_space
    scan_fixed punctuation scan_operator operator scan_word is_letter is_digit token utf8
    utf8_encode runes_eq peek Scanner.advance scan_ident scan_quoted_string quoted unquote
at_filter-parsed = refl

parse_line_filter_stage-ip_example :
    ((address_filter.op ≡ contains) ⊎ (address_filter.op ≡ excludes))
    × (valid_ip_pattern text_env address_filter.value ≡ true)
    × (address_filter.or_list ≡ [])
parse_line_filter_stage-ip_example =
    parse_line_filter_stage-ip text_env at_filter after_filter address_filter at_filter-parsed refl

-- topk(2,f(x))
abbrev top_two : Expr (List ℕ)
top_two = vector_aggregation topk none (some (2 ∷ [])) (opaque_metric (codes "f(x)"))

top_two-parsed : parse text_env (codes "topk(2,f(x))") ≡ ok top_two
unfolding parse new_parser next dispatch skip_ws span new_scanner is_space scan_fixed punctuation
    scan_operator operator scan_word is_letter is_digit token utf8 utf8_encode runes_eq scan_ident
    scan_number_or_duration segments
top_two-parsed = refl

parse-HasParams_example : HasParams text_env top_two
parse-HasParams_example = parse-HasParams text_env (codes "topk(2,f(x))") top_two top_two-parsed
