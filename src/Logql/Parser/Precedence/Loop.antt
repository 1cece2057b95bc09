-- ===== src/Logql/Parser/Precedence/Loop.antt =====
-- internal/logql/parser.go: operators are read as the tree that their levels give.
use loki_vl_proxy.Prelude.{
  ℕ, zero, suc, ◌+◌, ◌-◌, ◌≤◌, ◌<◌, ◌≡◌, sym, ap, subst, ◌∙◌, true, false, ltb, none, some, List,
  [], ◌∷◌, ◌++◌, length, if◌then◌else◌, arith,
}
use loki_vl_proxy.Logql.Text.{codes}
use loki_vl_proxy.Logql.Env.{Env}
use loki_vl_proxy.Logql.Token.{TokType, to_string, eof, number}
use loki_vl_proxy.Logql.Scanner.{token, new_scanner}
use loki_vl_proxy.Logql.Scanner.Progress.{tokens}
use loki_vl_proxy.Logql.Result.{Result, ok, failed, trailing_token, ◌>>=◌, bind_assoc}
use loki_vl_proxy.Logql.Ast.{Expr, bin_op, literal}
use loki_vl_proxy.Logql.Parser.State.{
  ParserState, pos, at, same_type, tok_code, measure, advance, new_parser,
}
use loki_vl_proxy.Logql.Parser.Expr.{
  binary_precedence, next_precedence, literal_value, number_literal, primary_step, binary_step,
  parse_expr, parse_primary, parse_binary_rhs, expr_fuel, parse_to_end, parse,
}
use loki_vl_proxy.Logql.Parser.Precedence.{
  level, Infix, written, left_level, right_level, BindsAt, to_expr, IsCanonical, operand, apply,
}
use loki_vl_proxy.Logql.Parser.Precedence.Levels.{
  binary_precedence-level, level_eof, right_level-left_level, left_level-le, right_level-pos,
  next_precedence-right_level,
}
use loki_vl_proxy.Logql.Parser.Precedence.Reads.{
  Reads, Reads-append, first_number, at_word_number, vector_matching_number, size, size-measure,
  Reads-tokens,
}

module _ {F : Type 0} where
  -- The operators on the way to the leftmost number.
  spine : Infix F → ℕ
  spine (operand s x) = 0
  spine (apply t l r) = suc (spine l)

  -- The fuel that the loop needs after them.
  weight : Infix F → ℕ
  weight (operand s x) = 1
  weight (apply t l r) = suc (spine r + (weight r + weight l))

module _ {F : Type 0} (env : Env F) where
  -- An operator before a number, at a level that the loop takes.
  binary_step-number :
      (primary : ParserState → Result (Expr F × ParserState))
      (rhs : Expr F → ℕ → ParserState → Result (Expr F × ParserState)) (lhs : Expr F) (least : ℕ)
      (p : ParserState)
      → least ≤ binary_precedence p.cur.typ
      → (advance env p).cur.typ ≡ number
      → binary_step env primary rhs lhs least p ≡ (
          primary (advance env p) >>= λ (x, p3).
          rhs x (next_precedence p.cur.val (binary_precedence p.cur.typ)) p3 >>= λ (r, p4).
          rhs (bin_op lhs r p.cur.val false none) least p4)
  unfolding binary_step
  binary_step-number primary rhs lhs least p le e =
      let q = advance env p in
      let takes : ltb (binary_precedence p.cur.typ) least ≡ false = ground arith in
      simp (takes, vector_matching_number env q e, at_word_number (codes "bool") q e)

  primary_number :
      (k : ℕ) (s : List ℕ) (x : F) (p : ParserState)
      → p.cur ≡ token number s
      → env.parse_float s ≡ some x
      → parse_primary env (suc k) p ≡ ok (literal x, advance env p)
  unfolding parse_primary primary_step number_literal literal_value at token same_type tok_code
  primary_number k s x p e v = simp (e, v)

  -- The loop stops before an operator that binds less.
  loop_stops :
      (f least : ℕ) (lhs : Expr F) (p : ParserState)
      → 1 ≤ f
      → level p.cur.typ < least
      → parse_binary_rhs env f lhs least p ≡ ok (lhs, p)
  unfolding parse_binary_rhs binary_step
  loop_stops zero least lhs p pos less = ground arith
  loop_stops (suc f) least lhs p pos less =
      let stops : ltb (binary_precedence p.cur.typ) least ≡ true =
        subst (λ n. ltb n least ≡ true) (sym (binary_precedence-level p.cur.typ)) (ground arith) in
      simp stops

  -- What follows a tree does not belong to its last operand.
  Follows : ℕ → Infix F → Type 0
  Follows k (operand s x) = Unit
  Follows k (apply t l r) = (k < right_level t) × Follows k r

  Follows-looser :
      (k least : ℕ) (t : Infix F) → k < least → BindsAt least t → IsCanonical env t → Follows k t
  unfolding Follows BindsAt IsCanonical right_level
  Follows-looser k least (operand s x) less b c = tt
  Follows-looser k least (apply t l r) less b (op, cl, cr, l_ok, r_ok) =
      let looser : k < right_level t = ground arith in
      (looser, Follows-looser k (right_level t) r looser cr r_ok)

  Follows-left :
      (t : TokType) (l : Infix F)
      → BindsAt (left_level t) l
      → IsCanonical env l
      → Follows (level t) l
  unfolding Follows BindsAt IsCanonical
  Follows-left t (operand s x) b c = tt
  Follows-left t (apply t' l r) b (op, cl, cr, l_ok, r_ok) =
      let looser = right_level-left_level t t' b in
      (looser, Follows-looser (level t) (right_level t') r looser cr r_ok)

  BindsAt-mono : (k k' : ℕ) (t : Infix F) → k' ≤ k → BindsAt k t → BindsAt k' t
  unfolding BindsAt
  BindsAt-mono k k' (operand s x) le b = tt
  BindsAt-mono k k' (apply t l r) le b = omega arith

  BindsAt-left_level :
      (t : TokType) (k : ℕ) (l : Infix F) → k ≤ level t → BindsAt (left_level t) l → BindsAt k l
  unfolding left_level
  BindsAt-left_level t k l le b = BindsAt-mono (left_level t) k l (left_level-le t k le) b

  -- The loop takes an operator and the operand after it.
  binary_operator :
      (j : ℕ) (lhs : Expr F) (least : ℕ) (t : TokType) (m : ParserState)
      → m.cur ≡ token t (to_string t)
      → least ≤ level t
      → (advance env m).cur.typ ≡ number
      → parse_binary_rhs env (suc (suc j)) lhs least m ≡ (
          parse_primary env (suc j) (advance env m) >>= λ (x, p3).
          parse_binary_rhs env (suc j) x (right_level t) p3 >>= λ (r, p4).
          parse_binary_rhs env (suc j) (bin_op lhs r (to_string t) false none) least p4)
  unfolding parse_binary_rhs token
  binary_operator j lhs least t m c le e =
      let takes =
        subst (λ u. least ≤ binary_precedence u.typ) (sym c)
          (subst (λ n. least ≤ n) (sym (binary_precedence-level t)) le) in
      binary_step-number (parse_primary env (suc j)) (parse_binary_rhs env (suc j)) lhs least m
        takes e
      ∙ ap (λ u. operand_after u.val (next_precedence u.val (binary_precedence u.typ))) c
      ∙ ap (operand_after (to_string t)) (next_precedence-right_level t)
    where
      operand_after : List ℕ → ℕ → Result (Expr F × ParserState)
      operand_after op n = parse_primary env (suc j) (advance env m) >>= λ (x, p3).
          parse_binary_rhs env (suc j) x n p3 >>= λ (r, p4).
          parse_binary_rhs env (suc j) (bin_op lhs r op false none) least p4

  BindsAt-one : (t : Infix F) → IsCanonical env t → BindsAt 1 t
  unfolding BindsAt IsCanonical
  BindsAt-one (operand s x) v = tt
  BindsAt-one (apply t l r) (op, bl, br, vl, vr) = op

  -- A tree's tokens take the loop to the tree, with what is left of its fuel.
  infix_loop :
      (t : Infix F) (k least f g : ℕ) (p q : ParserState)
      → f ≡ spine t + g
      → weight t ≤ g
      → IsCanonical env t
      → 1 ≤ least
      → BindsAt least t
      → Follows (level q.cur.typ) t
      → Reads env p (written t) q
      → (parse_primary env (suc k) p >>= λ (x, p1). parse_binary_rhs env f x least p1)
        ≡ parse_binary_rhs env g (to_expr t) least q
  unfolding spine weight IsCanonical BindsAt Follows written Reads to_expr token
  infix_loop (operand s x) k least f g p q e w v positive b fs (c, r) =
      let same : f ≡ g = omega arith in simp (primary_number k s x p c v, same, r)
  infix_loop (apply t l r) k least f zero p q e w v positive b fs h = ground arith
  infix_loop (apply t l r) k least f (suc j) p q e w (op, bl, br, vl, vr) positive b (fr, frr) h =
      let (m, hl, (c, hr)) = Reads-append env (written l) _ p q h in
      let follows_l = subst (λ u. Follows (level u.typ) l) (sym c) (Follows-left t l bl vl) in
      let left =
        infix_loop l k least f (suc (suc j)) p m (omega arith) (omega arith) vl positive
          (BindsAt-left_level t least l b bl) follows_l hl in
      let right =
        infix_loop r j (right_level t) (suc j) (suc j - spine r) (advance env m) q (omega arith)
          (omega arith) vr (right_level-pos t op) br frr hr in
      let stop = loop_stops (suc j - spine r) (right_level t) (to_expr r) q (omega arith) fr in
      let number_next = first_number env r (advance env m) q hr in
      let first = parse_primary env (suc j) (advance env m) in
      let applied : Expr F × ParserState → Result (Expr F × ParserState) = λ (e, p4).
        parse_binary_rhs env (suc j) (bin_op (to_expr l) e (to_string t) false none) least p4 in
      left
      ∙ binary_operator j (to_expr l) least t m c b number_next
      ∙ sym
          (bind_assoc first (λ (x, p1). parse_binary_rhs env (suc j) x (right_level t) p1) applied)
      ∙ ap (λ z. z >>= applied) (right ∙ stop)

  spine-weight-le : (t : Infix F) → spine t + weight t ≤ size t + size t
  unfolding spine weight size
  spine-weight-le (operand s x) = omega arith
  spine-weight-le (apply t l r) =
      let a = spine-weight-le l in let b = spine-weight-le r in omega arith

  parse_to_end-written :
      (t : Infix F) (p q : ParserState)
      → IsCanonical env t
      → Reads env p (written t) q
      → q.cur ≡ token eof []
      → parse_to_end env p ≡ ok (to_expr t)
  unfolding parse_to_end expr_fuel parse_expr token
  parse_to_end-written t p q v r end =
      let fuel = measure p + measure p in
      let large = spine-weight-le t in
      let small = size-measure env t p q v r in
      let bound : level q.cur.typ < 1 = subst (λ u. level u.typ < 1) (sym end) level_eof in
      let binds = BindsAt-one t v in
      let loop =
        infix_loop t fuel 1 (suc fuel) (suc fuel - spine t) p q (omega arith) (omega arith) v
          (omega arith) binds (Follows-looser (level q.cur.typ) 1 t bound binds v) r in
      let stop = loop_stops (suc fuel - spine t) 1 (to_expr t) q (omega arith) bound in
      ap
        (λ z.
          z >>= λ (e, p1). if at eof p1 then ok e else failed (trailing_token p1.cur.val (pos p1)))
        (loop ∙ stop)
      ∙ ap
          (λ u.
            if same_type u.typ eof
            then ok (to_expr t)
            else failed (trailing_token q.cur.val (pos q)))
          end

  -- An expression of operators and numbers that has no other token, written without parentheses as
  -- a tree allows, is read as that tree: the levels of the grammar of Loki decide, operators of one
  -- level associate to the left, and `^` to the right.
  pub parse-written :
      (input : List ℕ) (t : Infix F)
      → IsCanonical env t
      → tokens env.classes (suc (length input)) (new_scanner input)
        ≡ some (written t ++ token eof [] ∷ [])
      → parse env input ≡ ok (to_expr t)
  unfolding parse new_parser
  parse-written input t v e =
      let (q, r, end) =
        Reads-tokens env (suc (length input)) (written t) (token eof []) (new_parser env input) e in
      parse_to_end-written t (advance env (new_parser env input)) q v r end
