-- ===== src/Limiter/Burst.antt =====
-- internal/middleware/ratelimiter.go: the price of a request, and the tokens that are due to a client that waits.
use loki_vl_proxy.Prelude.{
  ℕ, suc, ◌+◌, ◌-◌, ◌*◌, ◌≤◌, ◌<◌, ◌≡◌, refl, inl, inr, Bool, true, false, if◌then◌else◌, ltb,
  ltb→le, le→ltb, arith, Bool-cases,
}
use loki_vl_proxy.Limiter.Bucket.{TokenBucket, one_token, refill, take_token, take_from}

refill-due :
    (rate burst gap : ℕ) (b : TokenBucket)
    → 0 < burst
    → one_token ≤ gap * rate
    → one_token ≤ refill rate burst (b.last_time + gap) b
unfolding refill
refill-due rate burst gap b p due =
    let g : b.last_time + gap - b.last_time ≡ gap = omega arith in
    let full : one_token ≤ burst * one_token = omega arith in
    simp g (enough (b.tokens + gap * rate) (burst * one_token) (omega arith) full)
  where
    enough :
        (t cap : ℕ) → one_token ≤ t → one_token ≤ cap → one_token ≤ (if ltb cap t then cap else t)
    enough t cap ht hc = ground arith

unfoldable pub price : Bool → ℕ
price ok = if ok then one_token else 0

pub take_from-tokens : (t now : ℕ) → price (take_from t now).0 + (take_from t now).1.tokens ≡ t
unfolding take_from price
take_from-tokens t now = elim (Bool-cases (ltb t one_token)) [
  | inl few ↦ simp few (omega arith)
  | inr enough ↦ let le = ltb→le t one_token enough in simp enough (omega arith)
]

pub price-mul :
    (ok : Bool) (n : ℕ) → (if ok then suc n else n) * one_token ≡ price ok + n * one_token
unfolding price
price-mul true n = omega arith
price-mul false n = omega arith

pub mul_add : (a b c : ℕ) → (a + b) * c ≡ a * c + b * c
mul_add a b c = grind arith

-- A client that has waited for a whole token since its last request, and whose burst is at least
-- one, is let in, whatever its bucket held.
pub take_token-due :
    (rate burst gap : ℕ) (b : TokenBucket)
    → 0 < burst
    → one_token ≤ gap * rate
    → (take_token rate burst (b.last_time + gap) b).0 ≡ true
unfolding take_token take_from
take_token-due rate burst gap b p due =
    simp
      (le→ltb (refill rate burst (b.last_time + gap) b) one_token
        (refill-due rate burst gap b p due))
      refl
