-- ===== src/Logql/Parser/Precedence/Reads.antt =====
-- internal/logql/parser.go: the tokens that the parser sees, one `advance` after the other.
use loki_vl_proxy.Prelude.{
  ℕ, zero, suc, ◌+◌, ◌≤◌, ◌≡◌, ◌≢◌, ◌⊎◌, refl, sym, ap, subst, inl, inr, Bool, true, false, Option,
  none, some, List, [], ◌∷◌, ◌++◌, if◌then◌else◌, arith,
}
use loki_vl_proxy.Logql.Env.{Env}
use loki_vl_proxy.Logql.Token.{TokType, Token, eof, number, ident, on, ignoring}
use loki_vl_proxy.Logql.Scanner.{token, next}
use loki_vl_proxy.Logql.Scanner.Progress.{is_eof, tokens}
use loki_vl_proxy.Logql.Result.{ok}
use loki_vl_proxy.Logql.Parser.State.{
  ParserState, at, at_word, same_type, tok_code, measure, advance,
}
use loki_vl_proxy.Logql.Parser.Progress.Steps.{advance-suc}
use loki_vl_proxy.Logql.Parser.Expr.{vector_matching}
use loki_vl_proxy.Logql.Parser.Precedence.{
  one_of, place, level, Infix, written, IsCanonical, operand, apply,
}

first_token :
    (t : Token) (b : Bool) (rest : Option (List Token)) (u : Token) (us : List Token)
    → (if b then some (t ∷ []) else (elim rest [ none ↦ none | some ts ↦ some (t ∷ ts) ]))
      ≡ some (u ∷ us)
    → (t ≡ u) × ((us ≡ []) ⊎ (rest ≡ some us))
first_token t true rest u us e = (cc, inl cc)
first_token t false none u us e = cc
first_token t false (some ts) u us e = (cc, inr cc)

append_not_nil : (ts : List Token) (last : Token) → ts ++ last ∷ [] ≢ []
append_not_nil [] last e = cc
append_not_nil (t ∷ ts) last e = cc

number_at :
    (t : TokType) (q : ParserState)
    → q.cur.typ ≡ number
    → same_type number t ≡ false
    → at t q ≡ false
unfolding at
number_at t q e d = simp e d

pub at_word_number : (s : List ℕ) (q : ParserState) → q.cur.typ ≡ number → at_word s q ≡ false
unfolding at_word
at_word_number s q e = simp (number_at ident q e refl)

-- The number of tokens, and that the fuel of a whole query covers them.
unfoldable pub size : {F : Type 0} → Infix F → ℕ
size (operand s x) = 1
size (apply t l r) = size l + suc (size r)

level_not_eof : (p : ParserState) → 1 ≤ level p.cur.typ → at eof p ≡ false
unfolding level place one_of at same_type tok_code
level_not_eof p le = go p.cur.typ le
  where
    go : (t : TokType) → 1 ≤ level t → same_type t eof ≡ false
    go eof le = ground arith
    go _ le = refl

module _ {F : Type 0} (env : Env F) where
  -- From one state to another the parser sees the tokens.
  unfoldable pub Reads : ParserState → List Token → ParserState → Type 0
  Reads p [] q = p ≡ q
  Reads p (t ∷ ts) q = (p.cur ≡ t) × Reads (advance env p) ts q

  pub Reads-append :
      (ts us : List Token) (p q : ParserState)
      → Reads p (ts ++ us) q
      → (m : ParserState) × Reads p ts m × Reads m us q
  unfolding Reads
  Reads-append [] us p q h = (p, refl, h)
  Reads-append (t ∷ ts) us p q (e, h) =
      let (m, first, rest) = Reads-append ts us (advance env p) q h in (m, (e, first), rest)

  pub first_number : (t : Infix F) (p q : ParserState) → Reads p (written t) q → p.cur.typ ≡ number
  unfolding Reads written token
  first_number (operand s x) p q (e, h) = ap (λ t. t.typ) e
  first_number (apply t l r) p q h =
      let (m, first, rest) = Reads-append (written l) _ p q h in first_number l p m first

  pub vector_matching_number :
      (q : ParserState) → q.cur.typ ≡ number → vector_matching env q ≡ ok (none, q)
  unfolding vector_matching
  vector_matching_number q e = simp (number_at on q e refl, number_at ignoring q e refl)

  pub size-measure :
      (t : Infix F) (p q : ParserState)
      → IsCanonical env t
      → Reads p (written t) q
      → size t + measure q ≤ measure p
  unfolding size IsCanonical Reads written token
  size-measure (operand s x) p q v (c, r) =
      let less = advance-suc env p (number_at eof p (ap (λ u. u.typ) c) refl) in
      let rest : suc (measure q) ≤ measure p = subst (λ z. suc (measure z) ≤ measure p) r less in
      omega arith
  size-measure (apply t l r) p q (op, bl, br, vl, vr) h =
      let (m, hl, (c, hr)) = Reads-append (written l) _ p q h in
      let a = size-measure l p m vl hl in
      let b = size-measure r (advance env m) q vr hr in
      let less = advance-suc env m (level_not_eof m (subst (λ u. 1 ≤ level u.typ) (sym c) op)) in
      omega arith

  -- The tokens of a scanner are what the parser sees from its first `advance` on.
  pub Reads-tokens :
      (fuel : ℕ) (ts : List Token) (last : Token) (p : ParserState)
      → tokens env.classes fuel p.sc ≡ some (ts ++ last ∷ [])
      → (q : ParserState) × Reads (advance env p) ts q × (q.cur ≡ last)
  unfolding tokens Reads advance
  Reads-tokens zero ts last p e = cc
  Reads-tokens (suc fuel) [] last p e =
      let (head, tail) =
        first_token (next env.classes p.sc).0 (is_eof (next env.classes p.sc).0.typ) _ last [] e in
      (advance env p, refl, head)
  Reads-tokens (suc fuel) (t ∷ ts) last p e =
      let (head, tail) =
        first_token (next env.classes p.sc).0 (is_eof (next env.classes p.sc).0.typ) _ t
          (ts ++ last ∷ []) e in
      elim tail [
        | inl z ↦ absurd (append_not_nil ts last z)
        | inr more ↦
            let (q, r, end) = Reads-tokens fuel ts last (advance env p) more in (q, (head, r), end)
      ]
