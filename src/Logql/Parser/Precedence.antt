-- ===== src/Logql/Parser/Precedence.antt =====
-- internal/logql/parser.go: the tree that the grammar of Loki gives operators without parentheses.
pub mod Levels
pub mod Reads
pub mod Loop
use loki_vl_proxy.Prelude.{
  ℕ, zero, suc, ◌+◌, ◌-◌, ◌≤◌, ◌<◌, ◌≡◌, ◌≢◌, ◌⊎◌, refl, sym, ap, subst, ◌∙◌, inl, inr, Bool, true,
  false, ◌&&◌, ◌||◌, not, ltb, Option, none, some, List, [], ◌∷◌, ◌++◌, length, if◌then◌else◌,
  arith, Bool-cases,
}
use loki_vl_proxy.Logql.Text.{codes, runes_eq}
use loki_vl_proxy.Logql.Env.{Env}
use loki_vl_proxy.Logql.Token.{
  TokType, Token, to_string, eof, number, ident, plus, minus, star, slash, percent, caret, lt, gt,
  lt_eq, gt_eq, eq_eq, bang_eq, and_, or_, unless, on, ignoring,
}
use loki_vl_proxy.Logql.Scanner.{token, next, new_scanner}
use loki_vl_proxy.Logql.Scanner.Progress.{is_eof, tokens}
use loki_vl_proxy.Logql.Result.{Result, ok, failed, trailing_token, ◌>>=◌, bind_assoc}
use loki_vl_proxy.Logql.Ast.{Expr, bin_op, literal}
use loki_vl_proxy.Logql.Parser.State.{
  ParserState, pos, at, at_word, same_type, tok_code, measure, advance, new_parser,
}
use loki_vl_proxy.Logql.Parser.Progress.Steps.{advance-suc}
use loki_vl_proxy.Logql.Parser.Expr.{
  binary_precedence, next_precedence, literal_value, number_literal, primary_step, vector_matching,
  skip_bool, binary_step, parse_expr, parse_primary, parse_binary_rhs, expr_fuel, parse_to_end,
  parse,
}

-- The operators from the loosest to the tightest, as the grammar of Loki declares them.
abbrev pub levels : List (List TokType)
levels =
    (or_ ∷ [])
    ∷ (and_ ∷ unless ∷ [])
    ∷ (eq_eq ∷ bang_eq ∷ lt ∷ lt_eq ∷ gt ∷ gt_eq ∷ [])
    ∷ (plus ∷ minus ∷ [])
    ∷ (star ∷ slash ∷ percent ∷ [])
    ∷ (caret ∷ [])
    ∷ []

unfoldable pub one_of : TokType → List TokType → Bool
unfolding same_type
one_of t [] = false
one_of t (u ∷ us) = same_type t u || one_of t us

-- The place of the first list that has the operator, from 1, or 0.
unfoldable pub place : TokType → List (List TokType) → ℕ
unfolding one_of
place t [] = 0
place t (us ∷ uss) =
    let later = place t uss in if one_of t us then 1 else if ltb 0 later then suc later else 0

unfoldable pub level : TokType → ℕ
unfolding place
level t = place t levels

-- Operators over numbers: the texts of the numbers and their values.
pub data Infix (F : Type 0) : Type 0 where
  operand : List ℕ → F → Infix F
  apply : TokType → Infix F → Infix F → Infix F

unfoldable pub written : {F : Type 0} → Infix F → List Token
written (operand s x) = token number s ∷ []
written (apply t l r) = written l ++ token t (to_string t) ∷ written r

-- The least level of an operator at the top of an operand: `^` associates to the right, the others
-- to the left.
unfoldable pub left_level : TokType → ℕ
unfolding level same_type
left_level t = if same_type t caret then suc (level t) else level t

unfoldable pub right_level : TokType → ℕ
unfolding level same_type
right_level t = if same_type t caret then level t else suc (level t)

module _ {F : Type 0} where
  unfoldable pub BindsAt : ℕ → Infix F → Type 0
  unfolding level
  BindsAt k (operand s x) = Unit
  BindsAt k (apply t l r) = k ≤ level t

  unfoldable pub to_expr : Infix F → Expr F
  unfolding to_string
  to_expr (operand s x) = literal x
  to_expr (apply t l r) = bin_op (to_expr l) (to_expr r) (to_string t) false none

module _ {F : Type 0} (env : Env F) where
  -- Of a tree: every operator is one, its operands have the operators that need no parentheses, and
  -- the numbers have their values.
  unfoldable pub IsCanonical : Infix F → Type 0
  unfolding level BindsAt left_level right_level
  IsCanonical (operand s x) = env.parse_float s ≡ some x
  IsCanonical (apply t l r) =
      (1 ≤ level t)
      × BindsAt (left_level t) l
      × BindsAt (right_level t) r
      × IsCanonical l
      × IsCanonical r
