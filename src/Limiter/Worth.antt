-- ===== src/Limiter/Worth.antt =====
-- internal/middleware/ratelimiter.go: what a bucket is worth, through the requests that use it.
use loki_vl_proxy.Prelude.{
  ℕ, zero, suc, ◌+◌, ◌-◌, ◌*◌, ◌≤◌, ◌≡◌, refl, ap, ◌⊎◌, inl, inr, Bool, false, Option, none, some,
  List, [], ◌∷◌, ◌++◌, if◌then◌else◌, ltb, ◌==◌, arith, Bool-cases,
}
use loki_vl_proxy.Limiter.Bucket.{
  TokenBucket, one_token, refill, take_token, take_from, full_bucket, bucket_at, set_bucket,
}
use loki_vl_proxy.Limiter.Burst.{price, take_from-tokens, mul_add}

-- The tokens that a bucket could have by now, were there no cap.
unfoldable pub worth : ℕ → ℕ → ℕ → Option TokenBucket → ℕ
worth rate burst now none = burst * one_token
worth rate burst now (some b) = b.tokens + (now - b.last_time) * rate

unfoldable pub IsPast : ℕ → Option TokenBucket → Type 0
IsPast now none = 0 ≤ now
IsPast now (some b) = b.last_time ≤ now

pub later :
    (rate burst now gap : ℕ) (o : Option TokenBucket)
    → IsPast now o
    → (worth rate burst (now + gap) o ≤ worth rate burst now o + gap * rate) × IsPast (now + gap) o
unfolding worth IsPast
later rate burst now gap none p = (omega arith, omega arith)
later rate burst now gap (some b) p =
    let apart : now + gap - b.last_time ≡ (now - b.last_time) + gap = omega arith in
    let e = ap (λ n. n * rate) apart in
    let e' = mul_add (now - b.last_time) gap rate in (omega arith, omega arith)

refill-worth :
    (rate burst now : ℕ) (b : TokenBucket) → refill rate burst now b ≤ worth rate burst now (some b)
unfolding refill worth
refill-worth rate burst now b = small (b.tokens + (now - b.last_time) * rate) (burst * one_token)
  where
    small : (t cap : ℕ) → (if ltb cap t then cap else t) ≤ t
    small t cap = ground arith

take_from-last_time : (t now : ℕ) → (take_from t now).1.last_time ≡ now
unfolding take_from
take_from-last_time t now = elim (Bool-cases (ltb t one_token)) [
  | inl few ↦ simp few refl
  | inr enough ↦ simp enough refl
]

take_from-worth :
    (t now rate : ℕ)
    → price (take_from t now).0
        + ((take_from t now).1.tokens + (now - (take_from t now).1.last_time) * rate)
      ≡ t
take_from-worth t now rate =
    let last = take_from-last_time t now in
    let no_time : now - (take_from t now).1.last_time ≡ 0 = omega arith in
    let nothing = ap (λ n. n * rate) no_time in let paid = take_from-tokens t now in omega arith

-- A step that may let a request in through a bucket, at `now`: what the bucket is worth goes down by
-- the price.
unfoldable pub Pays : ℕ → ℕ → ℕ → Bool → Option TokenBucket → Option TokenBucket → Type 0
Pays rate burst now ok o o' =
    (price ok + worth rate burst now o' ≤ worth rate burst now o) × IsPast now o'

pub same-Pays :
    (rate burst now : ℕ) (o : Option TokenBucket) → IsPast now o → Pays rate burst now false o o
unfolding Pays price
same-Pays rate burst now o p = (omega arith, p)

pub full_bucket-Pays :
    (rate burst now : ℕ) → Pays rate burst now false none (some (full_bucket burst now))
unfolding Pays price worth IsPast full_bucket
full_bucket-Pays rate burst now =
    let no_time : now - now ≡ 0 = omega arith in
    let nothing = ap (λ n. n * rate) no_time in (omega arith, omega arith)

pub take_token-Pays :
    (rate burst now : ℕ) (b : TokenBucket)
    → Pays rate burst now
        (take_token rate burst now b).0
        (some b)
        (some (take_token rate burst now b).1)
unfolding Pays take_token worth IsPast
take_token-Pays rate burst now b =
    let t = refill rate burst now b in
    let last = take_from-last_time t now in
    let paid = take_from-worth t now rate in
    let le = refill-worth rate burst now b in (omega arith, omega arith)

-- A bucket, after one is added or changed.
pub bucket_at-append :
    (i : ℕ) (bs : List TokenBucket) (b : TokenBucket)
    → (bucket_at i (bs ++ b ∷ []) ≡ bucket_at i bs)
      ⊎ ((bucket_at i bs ≡ none) × (bucket_at i (bs ++ b ∷ []) ≡ some b))
unfolding bucket_at
bucket_at-append zero [] b = inr (refl, refl)
bucket_at-append (suc i) [] b = inl refl
bucket_at-append zero (c ∷ bs) b = inl refl
bucket_at-append (suc i) (c ∷ bs) b = bucket_at-append i bs b

pub bucket_at-set_bucket :
    (i j : ℕ) (b old : TokenBucket) (bs : List TokenBucket)
    → bucket_at j bs ≡ some old
    → ((i ≡ j) × (bucket_at i (set_bucket j b bs) ≡ some b))
      ⊎ (((i == j) ≡ false) × (bucket_at i (set_bucket j b bs) ≡ bucket_at i bs))
unfolding bucket_at set_bucket
bucket_at-set_bucket i j b old [] h = absurd (ground arith)
bucket_at-set_bucket zero zero b old (c ∷ bs) h = inl (refl, refl)
bucket_at-set_bucket zero (suc j) b old (c ∷ bs) h = inr (ground arith, refl)
bucket_at-set_bucket (suc i) zero b old (c ∷ bs) h = inr (ground arith, refl)
bucket_at-set_bucket (suc i) (suc j) b old (c ∷ bs) h = elim (bucket_at-set_bucket i j b old bs h) [
  | inl (e, g) ↦ inl (ap suc e, g)
  | inr (n, g) ↦ inr (ground arith, g)
]
