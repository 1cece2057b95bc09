-- ===== src/Cache/Sweep.antt =====
-- The removal loops of cache.go: what survives each removal survives the loop, and what the loop
-- leaves is what does not pass its test, whatever the order of the iteration.
use loki_vl_proxy.Prelude.{
  ℕ, ◌+◌, ◌≡◌, refl, ap, ◌∙◌, Bool, true, false, Option, none, some, List, [], ◌∷◌, arith,
  if◌then◌else◌, All,
}
use loki_vl_proxy.Cache.Assoc.{lookup, Distinct, lookup-remove, remove-Distinct}
use loki_vl_proxy.Cache.State.{Key, key_dec, Entry, Cache}
use loki_vl_proxy.Cache.Store.{drop_entry, sweep}

-- What holds of a cache and survives the removal of an entry survives a loop that removes some.
-- `keeps` may use that the entry is there and passes the test.
abbrev pub Listed : List (Key × Entry) → Cache → Type 0
Listed es c = All (λ (p : Key × Entry). lookup key_dec p.0 c.entries ≡ some p.1) es

abbrev pub dropped : ℕ → Key → Entry → Cache → Cache
dropped count k e c = let c' = drop_entry k e c in record c' { evictions = c.evictions + count }

Listed-dropped :
    (count : ℕ) (k : Key) (e : Entry) (es : List (Key × Entry)) (c : Cache)
    → Distinct key_dec c.entries
    → lookup key_dec k es ≡ none
    → Listed es c
    → Listed es (dropped count k e c)
unfolding drop_entry
Listed-dropped count k e [] c d n l = tt
Listed-dropped count k e ((j, f) ∷ es) c d n l =
    let rest = Listed-dropped count k e es c d in
    (
      ground (arith, lookup-remove key_dec j k c.entries d, differ),
      rest (unfold lookup in ground arith) l.1,
    )
  where
    differ : ¬ (j ≡ k)
    differ e = unfold lookup in ground arith

Distinct-dropped :
    (count : ℕ) (k : Key) (e : Entry) (c : Cache)
    → Distinct key_dec c.entries
    → Distinct key_dec (dropped count k e c).entries
unfolding drop_entry
Distinct-dropped count k e c d = remove-Distinct key_dec k c.entries d

pub sweep_inv {ℓ} :
    (P : Cache → Type ℓ) (drop : Key → Entry → Bool) (count : ℕ)
    → ((k : Key) (e : Entry) (c : Cache)
        → lookup key_dec k c.entries ≡ some e
        → P c
        → P (dropped count k e c))
    → (es : List (Key × Entry)) (c : Cache) → Distinct key_dec es
    → Distinct key_dec c.entries
    → Listed es c
    → P c
    → P (sweep drop count es c)
unfolding sweep
sweep_inv P drop count keeps [] c d dc l p = p
sweep_inv P drop count keeps ((k, e) ∷ es) c d dc l p =
    both (drop k e) (sweep_inv P drop count keeps es)
  where
    both :
        (b : Bool)
        → ((c' : Cache)
            → Distinct key_dec es
            → Distinct key_dec c'.entries
            → Listed es c'
            → P c'
            → P (sweep drop count es c'))
        → P (sweep drop count es (if b then dropped count k e c else c))
    both true next =
        next (dropped count k e c) d.1 (Distinct-dropped count k e c dc)
          (Listed-dropped count k e es c dc d.0 l.1) (keeps k e c l.0 p)
    both false next = next c d.1 dc l.1 p

Listed-self :
    (es : List (Key × Entry))
    → Distinct key_dec es
    → All (λ (p : Key × Entry). lookup key_dec p.0 es ≡ some p.1) es
Listed-self [] d = tt
Listed-self ((k, e) ∷ es) d = (unfold lookup in ground arith, weaken es d.0 (Listed-self es d.1))
  where
    weaken :
        (fs : List (Key × Entry))
        → lookup key_dec k fs ≡ none
        → All (λ (p : Key × Entry). lookup key_dec p.0 es ≡ some p.1) fs
        → All (λ (p : Key × Entry). lookup key_dec p.0 ((k, e) ∷ es) ≡ some p.1) fs
    weaken [] n l = tt
    weaken ((j, f) ∷ fs) n l =
        (unfold lookup in ground arith, weaken fs (unfold lookup in ground arith) l.1)

pub sweep_all {ℓ} :
    (P : Cache → Type ℓ) (drop : Key → Entry → Bool) (count : ℕ)
    → ((k : Key) (e : Entry) (c : Cache)
        → lookup key_dec k c.entries ≡ some e
        → P c
        → P (dropped count k e c))
    → (c : Cache) → Distinct key_dec c.entries
    → P c
    → P (sweep drop count c.entries c)
sweep_all P drop count keeps c d p =
    sweep_inv P drop count keeps c.entries c d d (Listed-self c.entries d) p

-- What a loop makes of the entry under a key.
abbrev pub survivor : (Key → Entry → Bool) → Key → Option Entry → Option Entry
survivor drop j none = none
survivor drop j (some e) = if drop j e then none else some e

abbrev after_sweep : (Key → Entry → Bool) → Key → List (Key × Entry) → Cache → Option Entry
after_sweep drop j es c = elim (lookup key_dec j es) [
  | none ↦ lookup key_dec j c.entries
  | some e ↦ survivor drop j (some e)
]

lookup-sweep_from :
    (drop : Key → Entry → Bool) (count : ℕ) (j : Key) (es : List (Key × Entry)) (c : Cache)
    → Distinct key_dec es
    → Distinct key_dec c.entries
    → Listed es c
    → lookup key_dec j (sweep drop count es c).entries ≡ after_sweep drop j es c
unfolding sweep lookup
lookup-sweep_from drop count j [] c d dc l = refl
lookup-sweep_from drop count j ((k, e) ∷ es) c d dc l =
    both (drop k e) refl (lookup-sweep_from drop count j es)
  where
    both :
        (b : Bool)
        → drop k e ≡ b
        → ((c' : Cache)
            → Distinct key_dec es
            → Distinct key_dec c'.entries
            → Listed es c'
            → lookup key_dec j (sweep drop count es c').entries ≡ after_sweep drop j es c')
        → lookup key_dec j (sweep drop count es (if b then dropped count k e c else c)).entries
          ≡ after_sweep drop j ((k, e) ∷ es) c
    both true h next =
        next (dropped count k e c) d.1 (Distinct-dropped count k e c dc)
          (Listed-dropped count k e es c dc d.0 l.1)
        ∙ (unfold drop_entry in ground (arith, lookup-remove key_dec j k c.entries dc, agree))
      where
        agree : k ≡ j → drop k e ≡ drop j e
        agree p = ap (λ x. drop x e) p
    both false h next = next c d.1 dc l.1 ∙ ground (arith, agree)
      where
        agree : k ≡ j → drop k e ≡ drop j e
        agree p = ap (λ x. drop x e) p

-- An entry is left by the loop exactly if it does not pass the test.
pub lookup-sweep :
    (drop : Key → Entry → Bool) (count : ℕ) (j : Key) (c : Cache)
    → Distinct key_dec c.entries
    → lookup key_dec j (sweep drop count c.entries c).entries
      ≡ survivor drop j (lookup key_dec j c.entries)
lookup-sweep drop count j c d =
    lookup-sweep_from drop count j c.entries c d d (Listed-self c.entries d) ∙ ground arith
