-- ===== src/Logql/Parser/Precedence/Levels.antt =====
-- internal/logql/parser.go: the levels of the operators, as the parser has them.
use loki_vl_proxy.Prelude.{
  ℕ, suc, ◌≤◌, ◌<◌, ◌≡◌, refl, ap, ◌∙◌, Bool, true, false, if◌then◌else◌, arith,
}
use loki_vl_proxy.Logql.Text.{runes_eq}
use loki_vl_proxy.Logql.Token.{TokType, to_string, eof, caret}
use loki_vl_proxy.Logql.Parser.State.{same_type, tok_code}
use loki_vl_proxy.Logql.Parser.Expr.{binary_precedence, next_precedence}
use loki_vl_proxy.Logql.Parser.Precedence.{one_of, place, level, left_level, right_level}

pub binary_precedence-level : (t : TokType) → binary_precedence t ≡ level t
unfolding binary_precedence level place one_of same_type tok_code
binary_precedence-level eof = refl
binary_precedence-level _ = refl

next_precedence-caret :
    (t : TokType) (k : ℕ)
    → next_precedence (to_string t) k ≡ (if same_type t caret then k else suc k)
unfolding next_precedence to_string runes_eq same_type tok_code
next_precedence-caret eof k = refl
next_precedence-caret _ k = refl

pub level_eof : level eof < 1
unfolding level place one_of same_type tok_code
level_eof = omega arith

level_caret : (t : TokType) → same_type t caret ≡ true → level t ≡ 6
unfolding level place one_of same_type tok_code
level_caret caret e = refl
level_caret _ e = ground arith

level_not_caret : (t : TokType) → same_type t caret ≡ false → level t ≤ 5
unfolding level place one_of same_type tok_code
level_not_caret caret e = ground arith
level_not_caret _ e = ground arith

looser_than_right :
    (b b' : Bool) (k k' : ℕ)
    → (if b then suc k else k) ≤ k'
    → (b ≡ false → k ≤ 5)
    → (b' ≡ true → k' ≡ 6)
    → k < (if b' then k' else suc k')
looser_than_right true true k k' le low top = omega arith
looser_than_right true false k k' le low top = omega arith
looser_than_right false true k k' le low top = let a = low refl in let b = top refl in omega arith
looser_than_right false false k k' le low top = omega arith

pub right_level-left_level : (t t' : TokType) → left_level t ≤ level t' → level t < right_level t'
unfolding left_level right_level
right_level-left_level t t' le =
    looser_than_right (same_type t caret) (same_type t' caret) (level t) (level t') le
      (level_not_caret t) (level_caret t')

pub left_level-le : (t : TokType) (k : ℕ) → k ≤ level t → k ≤ left_level t
unfolding left_level
left_level-le t k le = go (same_type t caret)
  where
    go : (b : Bool) → k ≤ (if b then suc (level t) else level t)
    go true = omega arith
    go false = le

pub right_level-pos : (t : TokType) → 1 ≤ level t → 1 ≤ right_level t
unfolding right_level
right_level-pos t le = go (same_type t caret)
  where
    go : (b : Bool) → 1 ≤ (if b then level t else suc (level t))
    go true = le
    go false = omega arith

pub next_precedence-right_level :
    (t : TokType) → next_precedence (to_string t) (binary_precedence t) ≡ right_level t
unfolding right_level
next_precedence-right_level t =
    next_precedence-caret t (binary_precedence t)
    ∙ ap (λ n. if same_type t caret then n else suc n) (binary_precedence-level t)
