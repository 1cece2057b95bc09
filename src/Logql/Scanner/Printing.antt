-- ===== src/Logql/Scanner/Printing.antt =====
-- internal/logql/scanner.go: the texts by which messages name the fixed tokens, read back.
use loki_vl_proxy.Prelude.{
  ℕ, zero, suc, ◌≡◌, refl, Bool, true, false, List, ◌∷◌, ◌++◌, ltb, ◌==◌, lt→ltb, arith,
}
use loki_vl_proxy.Logql.Text.{
  Wide, is_letter, is_digit, is_space, utf8_encode, utf8, span, runes_eq,
}
use loki_vl_proxy.Logql.Token.{
  TokType, l_brace, r_brace, l_paren, r_paren, l_bracket, r_bracket, comma, pipe, at_sign, eq,
  re_match, pipe_eq, pipe_tilde, pipe_gt, bang_gt, plus, minus, star, slash, percent, caret, lt, gt,
  lt_eq, gt_eq, eq_eq, by, without, on, ignoring, group_left, group_right, and_, or_, unless, neq,
  re_not_match, bang_eq, bang_tilde, eof, error, ident, string, raw_string, duration, number,
  to_string,
}
use loki_vl_proxy.Logql.Scanner.{
  token, advance, peek, keyword, punctuation, operator, skip_ws, ident_rune, scan_ident, scan_word,
  scan_operator, scan_fixed, dispatch, next,
}

-- The types with a text of their own, where they can stand: the operators on labels inside braces,
-- those on lines outside.
unfoldable pub prints : ℕ → TokType → Bool
prints depth neq = ltb 0 depth
prints depth re_not_match = ltb 0 depth
prints depth bang_eq = depth == 0
prints depth bang_tilde = depth == 0
prints depth eof = false
prints depth error = false
prints depth ident = false
prints depth string = false
prints depth raw_string = false
prints depth duration = false
prints depth number = false
prints depth _ = true

-- The scanner reads back the text that `TokType.String` gives a token with a text of its own, where
-- such a token can stand (`!=` and `!~` are two tokens each, one inside braces and one outside).
-- For each of these 39 types, wherever it stands and whatever comes after a space, `next` returns
-- a token of that type with that text and stops before the space.
pub next-to_string :
    (u : Wide) (depth : ℕ) (t : TokType) (rest : List ℕ)
    → prints depth t ≡ true
    → ((next u (record { rest = to_string t ++ (32 ∷ rest); brace_depth = depth })).0
        ≡ token t (to_string t))
      × ((next u (record { rest = to_string t ++ (32 ∷ rest); brace_depth = depth })).1.rest
          ≡ 32 ∷ rest)
unfolding prints to_string next skip_ws span is_space dispatch punctuation operator scan_fixed
    scan_operator scan_word scan_ident ident_rune is_letter is_digit keyword advance peek token utf8
    utf8_encode runes_eq
next-to_string u depth l_brace rest h = (refl, refl)
next-to_string u depth r_brace rest h = (refl, refl)
next-to_string u depth l_paren rest h = (refl, refl)
next-to_string u depth r_paren rest h = (refl, refl)
next-to_string u depth l_bracket rest h = (refl, refl)
next-to_string u depth r_bracket rest h = (refl, refl)
next-to_string u depth comma rest h = (refl, refl)
next-to_string u depth pipe rest h = (refl, refl)
next-to_string u depth at_sign rest h = (refl, refl)
next-to_string u depth eq rest h = (refl, refl)
next-to_string u depth re_match rest h = (refl, refl)
next-to_string u depth pipe_eq rest h = (refl, refl)
next-to_string u depth pipe_tilde rest h = (refl, refl)
next-to_string u depth pipe_gt rest h = (refl, refl)
next-to_string u depth bang_gt rest h = (refl, refl)
next-to_string u depth plus rest h = (refl, refl)
next-to_string u depth minus rest h = (refl, refl)
next-to_string u depth star rest h = (refl, refl)
next-to_string u depth slash rest h = (refl, refl)
next-to_string u depth percent rest h = (refl, refl)
next-to_string u depth caret rest h = (refl, refl)
next-to_string u depth lt rest h = (refl, refl)
next-to_string u depth gt rest h = (refl, refl)
next-to_string u depth lt_eq rest h = (refl, refl)
next-to_string u depth gt_eq rest h = (refl, refl)
next-to_string u depth eq_eq rest h = (refl, refl)
next-to_string u depth by rest h = (refl, refl)
next-to_string u depth without rest h = (refl, refl)
next-to_string u depth on rest h = (refl, refl)
next-to_string u depth ignoring rest h = (refl, refl)
next-to_string u depth group_left rest h = (refl, refl)
next-to_string u depth group_right rest h = (refl, refl)
next-to_string u depth and_ rest h = (refl, refl)
next-to_string u depth or_ rest h = (refl, refl)
next-to_string u depth unless rest h = (refl, refl)
next-to_string u zero neq rest h = ground arith
next-to_string u (suc depth) neq rest h = (simp (lt→ltb 0 (suc depth) (omega arith)), refl)
next-to_string u zero re_not_match rest h = ground arith
next-to_string u (suc depth) re_not_match rest h = (simp (lt→ltb 0 (suc depth) (omega arith)), refl)
next-to_string u zero bang_eq rest h = (refl, refl)
next-to_string u (suc depth) bang_eq rest h = ground arith
next-to_string u zero bang_tilde rest h = (refl, refl)
next-to_string u (suc depth) bang_tilde rest h = ground arith
next-to_string u depth eof rest h = ground arith
next-to_string u depth error rest h = ground arith
next-to_string u depth ident rest h = ground arith
next-to_string u depth string rest h = ground arith
next-to_string u depth raw_string rest h = ground arith
next-to_string u depth duration rest h = ground arith
next-to_string u depth number rest h = ground arith
