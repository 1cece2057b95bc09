-- ===== src/Logql/Scanner/Tests.antt =====
-- internal/logql/scanner.go: runs of the scanner.
use loki_vl_proxy.Prelude.{ℕ, ◌≡◌, ◌≤◌, refl, true, false, some, List, [], ◌∷◌, ◌++◌, length, arith}
use loki_vl_proxy.Logql.Text.{Wide, codes, utf8, is_letter, is_digit}
use loki_vl_proxy.Logql.Token.{Token, to_string, neq, string, raw_string, duration}
use loki_vl_proxy.Logql.Scanner.{
  new_scanner, token, next, scan_quoted_string, scan_raw_string, scan_number_or_duration,
  value_rune, is_empty, not_backquote,
}
use loki_vl_proxy.Logql.Scanner.Progress.{tokens, tokens-next}
use loki_vl_proxy.Logql.Scanner.Disambiguation.{stands, depth_after, next-depth_after}
use loki_vl_proxy.Logql.Scanner.Printing.{prints, next-to_string}
use loki_vl_proxy.Logql.Scanner.Numbers.{
  Pair, join, are_pairs, is_pair, all_runes, stops, scan_number_or_duration-join,
}
use loki_vl_proxy.Logql.Scanner.Quoting.{escape, scan_quoted_string-escape, scan_raw_string-append}

-- A reading that knows ASCII only.
abbrev narrow : Wide
narrow = record { letter = λ r. false; digit = λ r. false; space = λ r. false }

abbrev selector : List ℕ
selector = codes "{app!=\"x\"} != `y`"

next-depth_after_example :
    (stands 1 (next narrow (record { rest = codes "!= x"; brace_depth = 1 })).0.typ ≡ true)
    × ((next narrow (record { rest = codes "!= x"; brace_depth = 1 })).1.brace_depth
        ≡ depth_after 1 (next narrow (record { rest = codes "!= x"; brace_depth = 1 })).0.typ)
next-depth_after_example = next-depth_after narrow (record { rest = codes "!= x"; brace_depth = 1 })

tokens-next_example :
    (ts : List Token) × (tokens narrow 18 (new_scanner selector) ≡ some ts) × (length ts ≤ 18)
unfolding new_scanner
tokens-next_example = tokens-next narrow 18 (new_scanner selector) (omega arith)

next-to_string_example :
    ((next narrow (record { rest = to_string neq ++ (32 ∷ codes "x"); brace_depth = 1 })).0
      ≡ token neq (to_string neq))
    × ((next narrow (record { rest = to_string neq ++ (32 ∷ codes "x"); brace_depth = 1 })).1.rest
        ≡ 32 ∷ codes "x")
unfolding prints
next-to_string_example = next-to_string narrow 1 neq (codes "x") refl

abbrev hours_and_minutes : List Pair
hours_and_minutes = (codes "4", codes "h") ∷ (codes "30", codes "m") ∷ []

scan_number_or_duration-join_example :
    scan_number_or_duration narrow (join hours_and_minutes ++ codes "]")
    ≡ (token duration (utf8 (join hours_and_minutes)), codes "]")
unfolding are_pairs is_pair is_empty all_runes value_rune is_digit stops is_letter
scan_number_or_duration-join_example =
    scan_number_or_duration-join narrow (codes "4", codes "h") ((codes "30", codes "m") ∷ [])
      (codes "]") refl refl refl

scan_quoted_string-escape_example :
    scan_quoted_string (34 ∷ (escape (codes "a\"b\\") ++ (34 ∷ codes "}")))
    ≡ (token string (utf8 (codes "a\"b\\")), codes "}")
scan_quoted_string-escape_example = scan_quoted_string-escape (codes "a\"b\\") (codes "}")

scan_raw_string-append_example :
    scan_raw_string (96 ∷ (codes "a\\d" ++ (96 ∷ codes " x")))
    ≡ (token raw_string (utf8 (codes "a\\d")), codes " x")
unfolding all_runes not_backquote
scan_raw_string-append_example = scan_raw_string-append (codes "a\\d") (codes " x") refl
