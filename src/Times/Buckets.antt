-- ===== src/Times/Buckets.antt =====
-- internal/proxy/time_utils.go: the buckets into which counts are collected. Times are whole
-- seconds from 1970 on.
use native.Mathlib.Nat.{mod-lt, div-add-mod', le-div_iff_mul-le}
use loki_vl_proxy.Prelude.{
  ℕ, ◌+◌, ◌-◌, ◌*◌, ◌/◌, ◌≤◌, ◌<◌, ◌≡◌, refl, subst, ◌⊎◌, inl, inr, true, false, ◌||◌, Option, none,
  some, if◌then◌else◌, ltb, ltb→le, le→ltb, ◌==◌, arith, Bool-cases,
}

abbrev pub max_zero_fill_buckets : ℕ
max_zero_fill_buckets = 32768

pub record RequestedBucketRange : Type 0 where
  pub start : ℕ
  pub end : ℕ
  pub step : ℕ
  pub count : ℕ

-- `parseRequestedBucketRange`, after its three texts are parsed (`none` for one that is not).
unfoldable pub parse_requested_bucket_range :
    Option ℕ → Option ℕ → Option ℕ → Option RequestedBucketRange
parse_requested_bucket_range none end step = none
parse_requested_bucket_range (some start_seconds) none step = none
parse_requested_bucket_range (some start_seconds) (some end_seconds) none = none
parse_requested_bucket_range (some start_seconds) (some end_seconds) (some step_seconds) =
    let count = (end_seconds - start_seconds) / step_seconds + 1 in
    if ltb end_seconds start_seconds || (step_seconds == 0)
    then none
    else if ltb max_zero_fill_buckets count
    then none
    else some
        (record { start = start_seconds; end = end_seconds; step = step_seconds; count = count })

unfoldable pub bucket_for : RequestedBucketRange → ℕ → Option ℕ
bucket_for br ts =
    if ltb ts br.start || ltb br.end ts
    then none
    else some (br.start + (ts - br.start) / br.step * br.step)

-- The i-th bucket of a range.
unfoldable pub bucket : RequestedBucketRange → ℕ → ℕ
bucket br i = br.start + i * br.step

IsParsed : Option RequestedBucketRange → ℕ → Type 0
IsParsed none ts = ℕ
IsParsed (some br) ts =
    br.start ≤ ts
    → ts ≤ br.end
    → (i : ℕ) × (i < br.count)
      × (br.count ≤ max_zero_fill_buckets)
      × (bucket_for br ts ≡ some (bucket br i))
      × (bucket br i ≤ ts)
      × (ts < bucket br i + br.step)

div_mono : (a b k : ℕ) → 0 < k → a ≤ b → a / k ≤ b / k
div_mono a b k p le = let parts = div-add-mod' a k in (le-div_iff_mul-le p).1 (omega arith)

bucketed :
    (s e w ts : ℕ)
    → 0 < w
    → s ≤ e
    → (e - s) / w + 1 ≤ max_zero_fill_buckets
    → IsParsed (some (record { start = s; end = e; step = w; count = (e - s) / w + 1 })) ts
unfolding IsParsed bucket_for bucket
bucketed s e w ts p le few low high =
    let i = (ts - s) / w in
    let before = div_mono (ts - s) (e - s) w p (omega arith) in
    let parts = div-add-mod' (ts - s) w in
    let small = mod-lt (ts - s) p in
    (i, omega arith, few, simp (le→ltb ts s low, le→ltb e ts high) refl, omega arith, omega arith)

parse-IsParsed :
    (s e w ts : ℕ) → IsParsed (parse_requested_bucket_range (some s) (some e) (some w)) ts
unfolding parse_requested_bucket_range IsParsed
parse-IsParsed s e w ts = by_bounds (Bool-cases (ltb e s || (w == 0)))
  where
    proper : (a b c : ℕ) → (ltb b a || (c == 0)) ≡ false → (0 < c) × (a ≤ b)
    proper a b c h = ground arith

    nothing : IsParsed none ts
    nothing = 0

    by_bounds :
        ((ltb e s || (w == 0)) ≡ true) ⊎ ((ltb e s || (w == 0)) ≡ false)
        → IsParsed (parse_requested_bucket_range (some s) (some e) (some w)) ts
    by_bounds (inl off) = simp off nothing
    by_bounds (inr on) =
        let (p, le) = proper s e w on in
        elim (Bool-cases (ltb max_zero_fill_buckets ((e - s) / w + 1))) [
          | inl many ↦ simp (on, many) nothing
          | inr few ↦
              simp (on, few)
                (bucketed s e w ts p le (ltb→le max_zero_fill_buckets ((e - s) / w + 1) few))
        ]

-- Of a range that is accepted: every time in it has a bucket, which is one of its `count` buckets,
-- at most 32768, and the time lies in the step that starts there.
pub bucket_for-parse_requested_bucket_range :
    (start_seconds end_seconds step_seconds ts : ℕ) (br : RequestedBucketRange)
    → parse_requested_bucket_range (some start_seconds) (some end_seconds) (some step_seconds)
      ≡ some br
    → br.start ≤ ts
    → ts ≤ br.end
    → (i : ℕ) × (i < br.count)
      × (br.count ≤ max_zero_fill_buckets)
      × (bucket_for br ts ≡ some (bucket br i))
      × (bucket br i ≤ ts)
      × (ts < bucket br i + br.step)
unfolding IsParsed
bucket_for-parse_requested_bucket_range start_seconds end_seconds step_seconds ts br h low high =
    let parsed : IsParsed (some br) ts =
      subst (λ o. IsParsed o ts) h (parse-IsParsed start_seconds end_seconds step_seconds ts) in
    parsed low high
