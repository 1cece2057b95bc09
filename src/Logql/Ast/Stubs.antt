-- ===== src/Logql/Ast/Stubs.antt =====
-- internal/logql/ast.go: what is left of a query without its incomplete `unwrap` stages.
use loki_vl_proxy.Prelude.{
  ℕ, ◌≡◌, ◌≢◌, ◌⊎◌, subst, refl, sym, ap, ◌∙◌, inl, inr, Bool, true, false, not, List, [], ◌∷◌,
  keep, arith, Bool-cases,
}
use loki_vl_proxy.Logql.Ast.{
  Stage, unwrap, LogQuery, is_stub, has_stub, strip_incomplete_unwrap_stubs,
}

abbrev whole_stages : List Stage → List Stage
whole_stages ss = keep (λ s. not (is_stub s)) ss

has_stub-keep : (ss : List Stage) → has_stub (whole_stages ss) ≡ false
unfolding has_stub
has_stub-keep [] = refl
has_stub-keep (s ∷ ss) = elim (Bool-cases (is_stub s)) [
  | inl e ↦ simp (e, has_stub-keep ss)
  | inr e ↦ simp (e, has_stub-keep ss)
]

keep_without_stub : (ss : List Stage) → has_stub ss ≡ false → whole_stages ss ≡ ss
unfolding has_stub
keep_without_stub [] h = refl
keep_without_stub (s ∷ ss) h =
    let rest : has_stub ss ≡ false = ground arith in
    both (is_stub s) refl (keep_without_stub ss rest)
  where
    both : (b : Bool) → is_stub s ≡ b → whole_stages ss ≡ ss → whole_stages (s ∷ ss) ≡ s ∷ ss
    both true e ih = let stubs : true ≡ false = simp e at h in cc
    both false e ih = simp (e, ih)

strip_incomplete_unwrap_stubs-pipeline :
    (lq : LogQuery) → (strip_incomplete_unwrap_stubs lq).pipeline ≡ whole_stages lq.pipeline
unfolding strip_incomplete_unwrap_stubs
strip_incomplete_unwrap_stubs-pipeline lq = elim (Bool-cases (has_stub lq.pipeline)) [
  | inl e ↦ simp e
  | inr e ↦ simp e (sym (keep_without_stub lq.pipeline e))
]

strip_incomplete_unwrap_stubs-selector :
    (lq : LogQuery) → (strip_incomplete_unwrap_stubs lq).selector ≡ lq.selector
unfolding strip_incomplete_unwrap_stubs
strip_incomplete_unwrap_stubs-selector lq = elim (Bool-cases (has_stub lq.pipeline)) [
  | inl e ↦ simp e
  | inr e ↦ simp e
]

strip_incomplete_unwrap_stubs_of_none :
    (lq : LogQuery) → has_stub lq.pipeline ≡ false → strip_incomplete_unwrap_stubs lq ≡ lq
unfolding strip_incomplete_unwrap_stubs
strip_incomplete_unwrap_stubs_of_none lq e = simp e

-- A stage other than an `unwrap` without a label.
unfoldable pub IsWhole : Stage → Type 0
IsWhole s = (converter : List ℕ) → s ≢ unwrap [] converter

-- The second list is the first less its `unwrap` stages without a label.
unfoldable pub Stripped : List Stage → List Stage → Type 0
Stripped [] ts = ts ≡ []
Stripped (s ∷ ss) ts =
    ((converter : List ℕ) × (s ≡ unwrap [] converter) × Stripped ss ts)
    ⊎ (IsWhole s × (rest : List Stage) × (ts ≡ s ∷ rest) × Stripped ss rest)

stub_form : (s : Stage) → is_stub s ≡ true → (converter : List ℕ) × (s ≡ unwrap [] converter)
unfolding is_stub
stub_form (unwrap [] converter) h = (converter, refl)
stub_form (unwrap (c ∷ cs) converter) h = absurd (ground arith)
stub_form s h = absurd (ground arith)

stub-IsWhole : (s : Stage) → is_stub s ≡ false → IsWhole s
unfolding is_stub IsWhole
stub-IsWhole s h converter e =
    let stub : is_stub s ≡ true = ap is_stub e in
    let same : true ≡ false = sym stub ∙ h in absurd (ground arith)

whole_stages-Stripped : (ss : List Stage) → Stripped ss (whole_stages ss)
unfolding Stripped
whole_stages-Stripped [] = refl
whole_stages-Stripped (s ∷ ss) = elim (Bool-cases (is_stub s)) [
  | inl e ↦
      let (converter, form) = stub_form s e in
      simp e (inl (converter, form, whole_stages-Stripped ss))
  | inr e ↦ simp e (inr (stub-IsWhole s e, whole_stages ss, refl, whole_stages-Stripped ss))
]

-- Exactly the `unwrap` stages without a label are taken out; the others stay as they are and in
-- their order, and so does the selector. Stripping again changes nothing.
pub strip_incomplete_unwrap_stubs-idempotent :
    (lq : LogQuery)
    → Stripped lq.pipeline (strip_incomplete_unwrap_stubs lq).pipeline
      × (strip_incomplete_unwrap_stubs (strip_incomplete_unwrap_stubs lq)
          ≡ strip_incomplete_unwrap_stubs lq)
      × ((strip_incomplete_unwrap_stubs lq).selector ≡ lq.selector)
strip_incomplete_unwrap_stubs-idempotent lq =
    let stages = strip_incomplete_unwrap_stubs-pipeline lq in
    let none_left = ap has_stub stages ∙ has_stub-keep lq.pipeline in
    (
      subst (Stripped lq.pipeline) (sym stages) (whole_stages-Stripped lq.pipeline),
      strip_incomplete_unwrap_stubs_of_none (strip_incomplete_unwrap_stubs lq) none_left,
      strip_incomplete_unwrap_stubs-selector lq,
    )
