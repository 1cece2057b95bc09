-- ===== src/Logql/Parser/Progress/Steps.antt =====
-- internal/logql/parser.go: what a token taken does to the measure.
use loki_vl_proxy.Prelude.{ℕ, suc, ◌≤◌, ◌≡◌, inl, inr, true, false, length, arith, Bool-cases}
use loki_vl_proxy.Logql.Env.{Env}
use loki_vl_proxy.Logql.Token.{TokType, eof}
use loki_vl_proxy.Logql.Scanner.{token}
use loki_vl_proxy.Logql.Scanner.Progress.{next-lt}
use loki_vl_proxy.Logql.Result.{Result, Yields, Yields_bind, Yields_mono, ◌>>=◌}
use loki_vl_proxy.Logql.Parser.State.{
  ParserState, at, same_type, tok_code, measure, advance, expect,
}

-- The parser is where at most `n` is left to read.
abbrev pub Within {ℓ} : {A : Type ℓ} → ℕ → A × ParserState → Type 0
Within n (a, p) = measure p ≤ n

abbrev pub Rest : ℕ → ParserState → Type 0
Rest n p = measure p ≤ n

pub measure-le : (p : ParserState) → measure p ≤ suc (length p.sc.rest)
unfolding measure
measure-le p = ground arith

pub measure_of_not_eof : (p : ParserState) → at eof p ≡ false → measure p ≡ suc (length p.sc.rest)
unfolding measure
measure_of_not_eof p e = simp e

pub at_not_eof :
    (t : TokType) (p : ParserState) → at t p ≡ true → same_type t eof ≡ false → at eof p ≡ false
unfolding at same_type
at_not_eof t p e d = ground arith

module _ {F : Type 0} (env : Env F) where
  pub advance-measure : (p : ParserState) → measure (advance env p) ≤ length p.sc.rest
  unfolding measure advance at same_type tok_code token
  advance-measure p = elim (next-lt env.classes p.sc) [
    | inl e ↦ simp e (omega arith)
    | inr lt ↦ ground arith
  ]

  pub advance-lt :
      (p : ParserState) (n : ℕ) → at eof p ≡ false → measure p ≤ suc n → measure (advance env p) ≤ n
  advance-lt p n e h = let m = measure_of_not_eof p e in let le = advance-measure p in omega arith

  pub advance-suc : (p : ParserState) → at eof p ≡ false → suc (measure (advance env p)) ≤ measure p
  advance-suc p e = let m = measure_of_not_eof p e in let le = advance-measure p in omega arith

  pub expect-Within :
      (t : TokType) (p : ParserState) (n : ℕ)
      → same_type t eof ≡ false
      → measure p ≤ suc n
      → Yields (Within n) (expect env t p)
  unfolding expect Yields
  expect-Within t p n d h = elim (Bool-cases (at t p)) [
    | inl e ↦ simp e (advance-lt p n (at_not_eof t p e d) h)
    | inr e ↦ simp e tt
  ]

module _ {ℓ κ} {A : Type ℓ} {B : Type κ} where
  -- A step that leaves at most `k`, then one from there on.
  pub step :
      (k n : ℕ) (r : Result (A × ParserState)) (f : A × ParserState → Result (B × ParserState))
      → Yields (Within k) r
      → ((a : A) (p : ParserState) → measure p ≤ k → Yields (Within n) (f (a, p)))
      → Yields (Within n) (r >>= f)
  step k n r f y g = Yields_bind (Within k) (Within n) r f y (λ (a, p) h. g a p h)

pub relax {ℓ} :
    {A : Type ℓ} (k n : ℕ) (r : Result (A × ParserState))
    → k ≤ n
    → Yields (Within k) r
    → Yields (Within n) r
relax k n r le y = Yields_mono (Within k) (Within n) r (λ (a, p) h. omega arith) y

module _ {κ} {B : Type κ} where
  -- The same after a step that returns the state alone.
  pub step_rest :
      (k n : ℕ) (r : Result ParserState) (f : ParserState → Result (B × ParserState))
      → Yields (Rest k) r
      → ((p : ParserState) → measure p ≤ k → Yields (Within n) (f p))
      → Yields (Within n) (r >>= f)
  step_rest k n r f y g = Yields_bind (Rest k) (Within n) r f y g
