-- ===== src/Cache/HotBound.antt =====
-- The size of the hot-key index.
use loki_vl_proxy.Prelude.{
  ℕ, zero, suc, ◌+◌, ◌-◌, ◌≤◌, ◌≡◌, refl, ap, ◌∙◌, Bool, true, false, none, some, List, [], ◌∷◌,
  arith, ite, if◌then◌else◌, leb, leb→le, length, take, All,
}
use loki_vl_proxy.Cache.Assoc.{
  lookup, put, remove, Distinct, lookup-remove, put-Distinct, remove-Distinct,
}
use loki_vl_proxy.Cache.State.{Key, key_dec, HotStat, Cache}
use loki_vl_proxy.Cache.Hot.{
  insert_cold, sort_cold, remove_all, prune_hot, touch_stat, stat_or_zero, record_hot,
}

abbrev Stats : Type 0
Stats = List (Key × HotStat)

lookup-insert_cold :
    (j : Key) (p : Key × HotStat) (qs : Stats)
    → lookup key_dec p.0 qs ≡ none
    → lookup key_dec j (insert_cold p qs) ≡ ite (key_dec p.0 j) (some p.1) (lookup key_dec j qs)
unfolding insert_cold lookup
lookup-insert_cold j p [] h = refl
lookup-insert_cold j p (q ∷ qs) h = ground (arith, lookup-insert_cold j p qs)

insert_cold-Distinct :
    (p : Key × HotStat) (qs : Stats)
    → lookup key_dec p.0 qs ≡ none
    → Distinct key_dec qs
    → Distinct key_dec (insert_cold p qs)
unfolding insert_cold lookup
insert_cold-Distinct p [] h d = (refl, tt)
insert_cold-Distinct p (q ∷ qs) h d =
    ground (arith, insert_cold-Distinct p qs, lookup-insert_cold q.0 p qs)

lookup-sort_cold :
    (j : Key) (ps : Stats)
    → Distinct key_dec ps
    → lookup key_dec j (sort_cold ps) ≡ lookup key_dec j ps
unfolding sort_cold lookup
lookup-sort_cold j [] d = refl
lookup-sort_cold j (p ∷ ps) d =
    ground
      (arith, lookup-insert_cold j p (sort_cold ps), lookup-sort_cold j ps, lookup-sort_cold p.0 ps)

sort_cold-Distinct : (ps : Stats) → Distinct key_dec ps → Distinct key_dec (sort_cold ps)
unfolding sort_cold
sort_cold-Distinct [] d = tt
sort_cold-Distinct (p ∷ ps) d =
    insert_cold-Distinct p (sort_cold ps) (lookup-sort_cold p.0 ps d.1 ∙ d.0)
      (sort_cold-Distinct ps d.1)

length-insert_cold : (p : Key × HotStat) (qs : Stats) → length (insert_cold p qs) ≡ suc (length qs)
unfolding insert_cold
length-insert_cold p [] = refl
length-insert_cold p (q ∷ qs) = ground (arith, length-insert_cold p qs)

length-sort_cold : (ps : Stats) → length (sort_cold ps) ≡ length ps
unfolding sort_cold
length-sort_cold [] = refl
length-sort_cold (p ∷ ps) = length-insert_cold p (sort_cold ps) ∙ ap suc (length-sort_cold ps)

-- Every pair of the first list is in the second.
abbrev Listed : Stats → Stats → Type 0
Listed ps m = All (λ (p : Key × HotStat). lookup key_dec p.0 m ≡ some p.1) ps

length-remove :
    (k : Key) (s : HotStat) (m : Stats)
    → lookup key_dec k m ≡ some s
    → length (remove key_dec k m) + 1 ≡ length m
unfolding lookup remove
length-remove k s [] h = ground arith
length-remove k s (q ∷ m) h = ground (arith, length-remove k s m)

Listed-remove :
    (k : Key) (ps m : Stats)
    → Distinct key_dec m
    → lookup key_dec k ps ≡ none
    → Listed ps m
    → Listed ps (remove key_dec k m)
unfolding lookup
Listed-remove k [] m d h l = tt
Listed-remove k (p ∷ ps) m d h l =
    ground (arith, lookup-remove key_dec p.0 k m d, Listed-remove k ps m d)

-- Removing `n` distinct keys that are there leaves `n` fewer.
length-remove_all :
    (cs m : Stats)
    → Distinct key_dec cs
    → Distinct key_dec m
    → Listed cs m
    → length (remove_all cs m) + length cs ≡ length m
unfolding remove_all
length-remove_all [] m dc dm l = omega arith
length-remove_all (c ∷ cs) m dc dm l =
    let rest =
      length-remove_all cs (remove key_dec c.0 m) dc.1 (remove-Distinct key_dec c.0 m dm)
        (Listed-remove c.0 cs m dm dc.0 l.1) in
    omega (arith, rest, length-remove c.0 c.1 m l.0)

Listed-weaken :
    (p : Key × HotStat) (qs m : Stats)
    → lookup key_dec p.0 qs ≡ none
    → Listed qs m
    → Listed qs (p ∷ m)
unfolding lookup
Listed-weaken p [] m h l = tt
Listed-weaken p (q ∷ qs) m h l = ground (arith, Listed-weaken p qs m)

Listed-self : (ps : Stats) → Distinct key_dec ps → Listed ps ps
Listed-self [] d = tt
Listed-self (p ∷ ps) d =
    (unfold lookup in ground arith, Listed-weaken p ps ps d.0 (Listed-self ps d.1))

take-Listed : (n : ℕ) (ps m : Stats) → Listed ps m → Listed (take n ps) m
take-Listed zero ps m l = tt
take-Listed (suc n) [] m l = tt
take-Listed (suc n) (p ∷ ps) m l = (l.0, take-Listed n ps m l.1)

lookup-take_of_none :
    (n : ℕ) (k : Key) (ps : Stats)
    → lookup key_dec k ps ≡ none
    → lookup key_dec k (take n ps) ≡ none
unfolding lookup
lookup-take_of_none zero k ps h = refl
lookup-take_of_none (suc n) k [] h = refl
lookup-take_of_none (suc n) k (p ∷ ps) h = ground (arith, lookup-take_of_none n k ps)

take-Distinct : (n : ℕ) (ps : Stats) → Distinct key_dec ps → Distinct key_dec (take n ps)
take-Distinct zero ps d = tt
take-Distinct (suc n) [] d = tt
take-Distinct (suc n) (p ∷ ps) d = (lookup-take_of_none n p.0 ps d.0, take-Distinct n ps d.1)

length-take : (n : ℕ) (ps : Stats) → n ≤ length ps → length (take n ps) ≡ n
length-take zero ps h = refl
length-take (suc n) [] h = absurd (omega arith)
length-take (suc n) (p ∷ ps) h = ap suc (length-take n ps (omega arith))

same-Listed :
    (ps m m' : Stats)
    → ((j : Key) → lookup key_dec j m ≡ lookup key_dec j m')
    → Listed ps m
    → Listed ps m'
same-Listed [] m m' h l = tt
same-Listed (p ∷ ps) m m' h l = (ground (arith, h p.0, l.0), same-Listed ps m m' h l.1)

length-prune_hot :
    (n : ℕ) (m : Stats) → n ≤ length m → Distinct key_dec m → length (prune_hot n m) + n ≡ length m
unfolding prune_hot
length-prune_hot n m h d =
    let sorted = sort_cold m in
    let removed =
      length-remove_all (take n sorted) m (take-Distinct n sorted (sort_cold-Distinct m d)) d (
        take-Listed n sorted m (
          same-Listed sorted sorted m (λ j. lookup-sort_cold j m d)
            (Listed-self sorted (sort_cold-Distinct m d)))) in
    omega (arith, removed, length-take n sorted (omega (arith, length-sort_cold m)))

remove_all-Distinct : (cs m : Stats) → Distinct key_dec m → Distinct key_dec (remove_all cs m)
unfolding remove_all
remove_all-Distinct [] m d = d
remove_all-Distinct (c ∷ cs) m d =
    remove_all-Distinct cs (remove key_dec c.0 m) (remove-Distinct key_dec c.0 m d)

-- The index of hot keys holds no key twice, and never more keys than its cap after one more
-- access is recorded.
pub record_hot-bound :
    (now : ℕ) (k : Key) (c : Cache)
    → Distinct key_dec c.hot
    → Distinct key_dec (record_hot now k c).hot × (length (record_hot now k c).hot ≤ c.hot_max)
unfolding record_hot
record_hot-bound now k c d = both (leb (length hot) c.hot_max) refl
  where
    hot : Stats
    hot = put key_dec k (touch_stat now k (stat_or_zero (lookup key_dec k c.hot))) c.hot

    d' : Distinct key_dec hot
    d' = put-Distinct key_dec k (touch_stat now k (stat_or_zero (lookup key_dec k c.hot))) c.hot d

    pruned : Stats
    pruned = prune_hot (length hot - c.hot_max) hot

    both :
        (b : Bool)
        → leb (length hot) c.hot_max ≡ b
        → Distinct key_dec (if b then hot else pruned)
          × (length (if b then hot else pruned) ≤ c.hot_max)
    both true h = (d', leb→le (length hot) c.hot_max h)
    both false h = (
      unfold prune_hot in
          remove_all-Distinct (take (length hot - c.hot_max) (sort_cold hot)) hot d',
      ground (arith, length-prune_hot (length hot - c.hot_max) hot (omega arith) d', h),
    )
