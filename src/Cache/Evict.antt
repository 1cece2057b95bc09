-- ===== src/Cache/Evict.antt =====
-- What an eviction leaves: each key keeps its entry or loses it, the settings stay, and there is
-- room or nothing is left.
use loki_vl_proxy.Prelude.{
  ℕ, ◌≡◌, refl, ◌∙◌, ◌⊎◌, inl, inr, Bool, true, false, Option, none, some, List, [], ◌∷◌, arith,
  if◌then◌else◌, Bool-cases, length,
}
use loki_vl_proxy.Cache.Assoc.{lookup, lookup-remove}
use loki_vl_proxy.Cache.State.{Key, Value, key_dec, Entry, Cache}
use loki_vl_proxy.Cache.Store.{
  drop_entry, sweep, is_expired, needs_room, evict_back, evict_lru, evict_expired, evict_if_needed,
  uncount_old, insert_entry, store_local_locked,
}
use loki_vl_proxy.Cache.Sweep.{dropped, sweep_all, survivor, lookup-sweep}
use loki_vl_proxy.Cache.Sync.{
  InSync, uncount_old-InSync, evict_back-InSync, lru-evict_back, evict_expired-InSync,
}

-- Under `j`, the second cache holds what the first one holds, or nothing.
abbrev pub Kept : Key → Cache → Cache → Type 0
Kept j c c' =
    (lookup key_dec j c'.entries ≡ none)
    ⊎ (lookup key_dec j c'.entries ≡ lookup key_dec j c.entries)

Kept-trans : (j : Key) (a b c : Cache) → Kept j a b → Kept j b c → Kept j a c
Kept-trans j a b c (inl p) (inl q) = inl q
Kept-trans j a b c (inl p) (inr q) = inl (q ∙ p)
Kept-trans j a b c (inr p) (inl q) = inl q
Kept-trans j a b c (inr p) (inr q) = inr (q ∙ p)

survivor-cases :
    (drop : Key → Entry → Bool) (j : Key) (o : Option Entry)
    → (survivor drop j o ≡ none) ⊎ (survivor drop j o ≡ o)
survivor-cases drop j none = inl refl
survivor-cases drop j (some e) = elim (Bool-cases (drop j e)) [
  | inl h ↦ rw h (inl refl)
  | inr h ↦ rw h (inr refl)
]

evict_back-Kept : (j k : Key) (ks : List Key) (c : Cache) → InSync c → Kept j c (evict_back k ks c)
unfolding evict_back
evict_back-Kept j k ks c s = ground (arith, lookup-remove key_dec j k c.entries s.distinct)

evict_lru-Kept :
    (j : Key) (incoming : ℕ) (ks : List Key) (c : Cache)
    → c.lru ≡ ks
    → InSync c
    → Kept j c (evict_lru incoming ks c)
unfolding evict_lru
evict_lru-Kept j incoming [] c l s = inr refl
evict_lru-Kept j incoming (k ∷ ks) c l s = elim (Bool-cases (needs_room incoming c)) [
  | inl h ↦ rw h (
      Kept-trans j c (evict_back k ks c) (evict_lru incoming ks (evict_back k ks c))
        (evict_back-Kept j k ks c s)
        (evict_lru-Kept j incoming ks (evict_back k ks c) (lru-evict_back k ks c)
          (evict_back-InSync k ks c l s)))
  | inr h ↦ rw h (inr refl)
]

-- What the first pass leaves under a key.
pub lookup-evict_expired :
    (j : Key) (now incoming : ℕ) (c : Cache)
    → InSync c
    → lookup key_dec j (evict_expired now incoming c).entries ≡ (
        if needs_room incoming c
        then survivor (λ _ e. is_expired now e) j (lookup key_dec j c.entries)
        else lookup key_dec j c.entries)
unfolding evict_expired
lookup-evict_expired j now incoming c s = elim (Bool-cases (needs_room incoming c)) [
  | inl h ↦ rw h (lookup-sweep _ 1 j c s.distinct)
  | inr h ↦ rw h refl
]

evict_expired-Kept :
    (j : Key) (now incoming : ℕ) (c : Cache) → InSync c → Kept j c (evict_expired now incoming c)
evict_expired-Kept j now incoming c s =
    elim (survivor-cases (λ _ e. is_expired now e) j (lookup key_dec j c.entries)) [
      | inl h ↦ ground (arith, lookup-evict_expired j now incoming c s, h)
      | inr h ↦ ground (arith, lookup-evict_expired j now incoming c s, h)
    ]

pub evict_if_needed-Kept :
    (j : Key) (now incoming : ℕ) (c : Cache) → InSync c → Kept j c (evict_if_needed now incoming c)
unfolding evict_if_needed
evict_if_needed-Kept j now incoming c s =
    Kept-trans j c first (evict_lru incoming first.lru first)
      (evict_expired-Kept j now incoming c s)
      (evict_lru-Kept j incoming first.lru first refl (evict_expired-InSync now incoming c s))
  where
    first : Cache
    first = evict_expired now incoming c

-- An entry that has expired is gone if room is needed.
pub evict_if_needed-expired :
    (j : Key) (e : Entry) (now incoming : ℕ) (c : Cache)
    → InSync c
    → lookup key_dec j c.entries ≡ some e
    → is_expired now e ≡ true
    → needs_room incoming c ≡ true
    → lookup key_dec j (evict_if_needed now incoming c).entries ≡ none
unfolding evict_if_needed
evict_if_needed-expired j e now incoming c s h x n =
    elim (evict_lru-Kept j incoming first.lru first refl (evict_expired-InSync now incoming c s)) [
      | inl gone ↦ gone
      | inr same ↦ same ∙ lookup-evict_expired j now incoming c s ∙ rw (n, h, x)
    ]
  where
    first : Cache
    first = evict_expired now incoming c

-- The fields that stores and removals leave alone are those of `b`.
pub record Frame (b c : Cache) : Type 0 where
  pub same_ttl : c.default_ttl ≡ b.default_ttl
  pub entries_limit : c.max_entries ≡ b.max_entries
  pub bytes_limit : c.max_bytes ≡ b.max_bytes
  pub same_disabled : c.disabled ≡ b.disabled
  pub same_hot_max : c.hot_max ≡ b.hot_max
  pub same_hot_on : c.hot_on ≡ b.hot_on
  pub same_promotions : c.promote_buf ≡ b.promote_buf
  pub same_hits : c.hits ≡ b.hits
  pub same_misses : c.misses ≡ b.misses
  pub same_l0 : c.l0_stats ≡ b.l0_stats
  pub same_l1 : c.l1_stats ≡ b.l1_stats
  pub same_l2 : c.l2_stats ≡ b.l2_stats
  pub same_l3 : c.l3_stats ≡ b.l3_stats
  pub same_fallthrough : c.backend_fallthrough ≡ b.backend_fallthrough

pub Frame-refl : (c : Cache) → Frame c c
Frame-refl c = ground arith

evict_back-Frame :
    (b : Cache) (k : Key) (ks : List Key) (c : Cache) → Frame b c → Frame b (evict_back k ks c)
evict_back-Frame b k ks c t = there (lookup key_dec k c.entries) refl
  where
    there :
        (found : Option Entry) → lookup key_dec k c.entries ≡ found → Frame b (evict_back k ks c)
    there none h = unfold evict_back in rw (h, evict_back) (ground arith)
    there (some e) h = unfold evict_back in rw (h, evict_back) (ground arith)

dropped-Frame :
    (b : Cache) (count : ℕ) (k : Key) (e : Entry) (c : Cache)
    → Frame b c
    → Frame b (dropped count k e c)
unfolding drop_entry
dropped-Frame b count k e c t = ground arith

pub sweep-Frame :
    (b : Cache) (drop : Key → Entry → Bool) (count : ℕ) (c : Cache)
    → InSync c
    → Frame b c
    → Frame b (sweep drop count c.entries c)
sweep-Frame b drop count c s t =
    sweep_all (Frame b) drop count (λ k e c' _ t'. dropped-Frame b count k e c' t') c s.distinct t

-- After the second pass there is room, or the LRU list is empty.
evict_lru-room :
    (b : Cache) (incoming : ℕ) (ks : List Key) (c : Cache)
    → c.lru ≡ ks
    → Frame b c
    → let c' = evict_lru incoming ks c in
      Frame b c' × ((needs_room incoming c' ≡ false) ⊎ (c'.lru ≡ []))
unfolding evict_lru
evict_lru-room b incoming [] c l t = (t, inr l)
evict_lru-room b incoming (k ∷ ks) c l t = elim (Bool-cases (needs_room incoming c)) [
  | inl h ↦ rw h (
      evict_lru-room b incoming ks (evict_back k ks c) (lru-evict_back k ks c)
        (evict_back-Frame b k ks c t))
  | inr h ↦ rw h (t, inl h)
]

evict_expired-Frame :
    (b : Cache) (now incoming : ℕ) (c : Cache)
    → InSync c
    → Frame b c
    → Frame b (evict_expired now incoming c)
unfolding evict_expired
evict_expired-Frame b now incoming c s t = elim (Bool-cases (needs_room incoming c)) [
  | inl h ↦ rw h (sweep-Frame b _ 1 c s t)
  | inr h ↦ rw h t
]

pub evict_if_needed-room :
    (b : Cache) (now incoming : ℕ) (c : Cache)
    → InSync c
    → Frame b c
    → let c' = evict_if_needed now incoming c in
      Frame b c' × ((needs_room incoming c' ≡ false) ⊎ (c'.lru ≡ []))
unfolding evict_if_needed
evict_if_needed-room b now incoming c s t =
    evict_lru-room b incoming (evict_expired now incoming c).lru (evict_expired now incoming c) refl
      (evict_expired-Frame b now incoming c s t)

pub uncount_old-Frame : (b : Cache) (k : Key) (c : Cache) → Frame b c → Frame b (uncount_old k c)
uncount_old-Frame b k c t = there (lookup key_dec k c.entries) refl
  where
    there : (found : Option Entry) → lookup key_dec k c.entries ≡ found → Frame b (uncount_old k c)
    there none h = unfold uncount_old in rw (h, uncount_old) t
    there (some e) h = unfold uncount_old in rw (h, uncount_old) (ground arith)

pub store_local_locked-Frame :
    (now : ℕ) (k : Key) (v : Value) (ttl : ℕ) (c : Cache)
    → InSync c
    → Frame c (store_local_locked now k v ttl c)
unfolding store_local_locked insert_entry
store_local_locked-Frame now k v ttl c s =
    let made =
      evict_if_needed-room c now (length v) (uncount_old k c) (uncount_old-InSync k c s)
        (uncount_old-Frame c k c (Frame-refl c)) in
    let t = made.0 in ground arith
