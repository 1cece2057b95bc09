-- ===== src/Cache/Assoc.antt =====
-- Go maps as association lists with distinct keys, and lists of distinct keys.
use loki_vl_proxy.Prelude.{
  ℕ, ◌+◌, ◌≤◌, ◌≡◌, refl, Bool, true, false, Option, none, some, List, [], ◌∷◌, ◌++◌, ite, arith,
  length, sum_by,
}

abbrev pub is_some {ℓ} : {A : Type ℓ} → Option A → Bool
is_some none = false
is_some (some a) = true

-- What `f` counts for a value that may be there.
abbrev pub count_at : {V : Type 0} → (V → ℕ) → Option V → ℕ
count_at f none = 0
count_at f (some v) = f v

module _ {K : Type 0} (dec : Discrete K) where
  module _ {V : Type 0} where
    unfoldable pub lookup : K → List (K × V) → Option V
    lookup k [] = none
    lookup k ((j, v) ∷ m) = ite (dec j k) (some v) (lookup k m)

    -- `m[k] = v`
    unfoldable pub put : K → V → List (K × V) → List (K × V)
    put k v [] = (k, v) ∷ []
    put k v ((j, w) ∷ m) = ite (dec j k) ((j, v) ∷ m) ((j, w) ∷ put k v m)

    -- `delete(m, k)`
    unfoldable pub remove : K → List (K × V) → List (K × V)
    remove k [] = []
    remove k ((j, w) ∷ m) = ite (dec j k) m ((j, w) ∷ remove k m)

    -- No key stands twice.
    abbrev pub Distinct : List (K × V) → Type 0
    Distinct [] = Unit
    Distinct ((k, v) ∷ m) = (lookup k m ≡ none) × Distinct m

    pub lookup-put :
        (j k : K) (v : V) (m : List (K × V))
        → lookup j (put k v m) ≡ ite (dec k j) (some v) (lookup j m)
    unfolding lookup put
    lookup-put j k v [] = refl
    lookup-put j k v ((i, w) ∷ m) = ground (arith, lookup-put j k v m)

    pub lookup-remove :
        (j k : K) (m : List (K × V))
        → Distinct m
        → lookup j (remove k m) ≡ ite (dec k j) none (lookup j m)
    unfolding lookup remove
    lookup-remove j k [] d = ground arith
    lookup-remove j k ((i, w) ∷ m) d = ground (arith, lookup-remove j k m)

    pub remove-Distinct : (k : K) (m : List (K × V)) → Distinct m → Distinct (remove k m)
    unfolding remove
    remove-Distinct k [] d = tt
    remove-Distinct k ((i, w) ∷ m) d = ground (arith, remove-Distinct k m, lookup-remove i k m)

    pub put-Distinct : (k : K) (v : V) (m : List (K × V)) → Distinct m → Distinct (put k v m)
    unfolding put lookup
    put-Distinct k v [] d = (refl, tt)
    put-Distinct k v ((i, w) ∷ m) d = ground (arith, put-Distinct k v m, lookup-put i k v m)

    pub sum_by-remove :
        (f : V → ℕ) (k : K) (m : List (K × V))
        → sum_by (λ e. f e.1) (remove k m) + count_at f (lookup k m) ≡ sum_by (λ e. f e.1) m
    unfolding lookup remove
    sum_by-remove f k [] = omega arith
    sum_by-remove f k ((i, w) ∷ m) = ground (arith, sum_by-remove f k m)

    pub sum_by-put :
        (f : V → ℕ) (k : K) (v : V) (m : List (K × V))
        → sum_by (λ e. f e.1) (put k v m) + count_at f (lookup k m) ≡ sum_by (λ e. f e.1) m + f v
    unfolding lookup put
    sum_by-put f k v [] = omega arith
    sum_by-put f k v ((i, w) ∷ m) = ground (arith, sum_by-put f k v m)

    pub length-put-le : (k : K) (v : V) (m : List (K × V)) → length (put k v m) ≤ length m + 1
    unfolding put
    length-put-le k v [] = omega arith
    length-put-le k v ((i, w) ∷ m) = ground (arith, length-put-le k v m)

    pub length-put_new : (k : K) (v : V) (m : List (K × V)) → length m ≤ length (put k v m)
    unfolding put
    length-put_new k v [] = omega arith
    length-put_new k v ((i, w) ∷ m) = ground (arith, length-put_new k v m)

    pub length-remove-le : (k : K) (m : List (K × V)) → length (remove k m) ≤ length m
    unfolding remove
    length-remove-le k [] = omega arith
    length-remove-le k ((i, w) ∷ m) = ground (arith, length-remove-le k m)

  unfoldable pub has : K → List K → Bool
  has k [] = false
  has k (j ∷ ks) = ite (dec j k) true (has k ks)

  unfoldable pub erase : K → List K → List K
  erase k [] = []
  erase k (j ∷ ks) = ite (dec j k) ks (j ∷ erase k ks)

  abbrev pub Once : List K → Type 0
  Once [] = Unit
  Once (k ∷ ks) = (has k ks ≡ false) × Once ks

  pub has-erase :
      (j k : K) (ks : List K) → Once ks → has j (erase k ks) ≡ ite (dec k j) false (has j ks)
  unfolding has erase
  has-erase j k [] o = ground arith
  has-erase j k (i ∷ ks) o = ground (arith, has-erase j k ks)

  pub erase-Once : (k : K) (ks : List K) → Once ks → Once (erase k ks)
  unfolding erase
  erase-Once k [] o = tt
  erase-Once k (i ∷ ks) o = ground (arith, erase-Once k ks, has-erase i k ks)

  pub has-snoc : (j k : K) (ks : List K) → has j (ks ++ k ∷ []) ≡ ite (dec k j) true (has j ks)
  unfolding has
  has-snoc j k [] = refl
  has-snoc j k (i ∷ ks) = ground (arith, has-snoc j k ks)

  pub snoc-Once : (k : K) (ks : List K) → has k ks ≡ false → Once ks → Once (ks ++ k ∷ [])
  unfolding has
  snoc-Once k [] h o = (refl, tt)
  snoc-Once k (i ∷ ks) h o = ground (arith, snoc-Once k ks, has-snoc i k ks)
