-- ===== src/Cache/LruOrder.antt =====
-- internal/cache/cache.go, `evictIfNeeded`: the second pass takes out the least recently used keys,
-- and no more of them than it needs.
use loki_vl_proxy.Prelude.{
  ℕ, zero, suc, ◌+◌, ◌≤◌, ◌≡◌, refl, sym, ap, ◌∙◌, subst, ◌⊎◌, inl, inr, Bool, true, false, ◌||◌,
  Option, none, some, List, [], ◌∷◌, arith, if◌then◌else◌, ite, leb, length, take, drop, sum_by,
  Bool-cases,
}
use loki_vl_proxy.Prelude.Int.{
  ℤ, pos, ◌+ℤ◌, ◌-ℤ◌, ltb_ℤ, pos_part, neg_part, int_laws, +ℤ_parts, -ℤ_parts, eq_of_parts,
}
use loki_vl_proxy.Cache.Assoc.{lookup, remove, has, Once, is_some, count_at, lookup-remove}
use loki_vl_proxy.Cache.State.{Key, key_dec, Entry, Cache}
use loki_vl_proxy.Cache.Store.{needs_room, evict_back, evict_lru}
use loki_vl_proxy.Cache.Sync.{InSync, evict_back-InSync, lru-evict_back}
use loki_vl_proxy.Cache.Account.{size_at}

-- The bytes that go with the keys.
unfoldable pub freed : List Key → Cache → ℕ
freed ks c = sum_by (λ k. size_at k c) ks

-- Whether a value of `incoming` bytes still has no room when the keys, all of them stored, are gone.
unfoldable pub is_full : ℕ → List Key → Cache → Bool
unfolding freed
is_full incoming ks c =
    leb (c.max_entries + length ks) (length c.entries)
    || ltb_ℤ (pos (c.max_bytes + freed ks c)) (c.cur_bytes +ℤ pos incoming)

-- The cache less one key that it holds.
record Lost (k : Key) (c c' : Cache) : Type 0 where
  lookups :
      (j : Key) → lookup key_dec j c'.entries ≡ ite (key_dec k j) none (lookup key_dec j c.entries)
  one_less : length c.entries ≡ suc (length c'.entries)
  bytes : c'.cur_bytes ≡ c.cur_bytes -ℤ pos (size_at k c)
  same_max_entries : c'.max_entries ≡ c.max_entries
  same_max_bytes : c'.max_bytes ≡ c.max_bytes

length-remove :
    (k : Key) (e : Entry) (m : List (Key × Entry))
    → lookup key_dec k m ≡ some e
    → length m ≡ suc (length (remove key_dec k m))
unfolding lookup remove
length-remove k e [] h = absurd (ground arith)
length-remove k e ((j, w) ∷ m) h = ground (arith, length-remove k e m)

evict_back-Lost :
    (k : Key) (ks : List Key) (c : Cache) → c.lru ≡ k ∷ ks → InSync c → Lost k c (evict_back k ks c)
evict_back-Lost k ks c l s = there (lookup key_dec k c.entries) refl
  where
    member : has key_dec k (k ∷ ks) ≡ is_some (lookup key_dec k c.entries)
    member = subst (λ x. has key_dec k x ≡ is_some (lookup key_dec k c.entries)) l (s.in_sync k)

    there :
        (found : Option Entry) → lookup key_dec k c.entries ≡ found → Lost k c (evict_back k ks c)
    there none h = absurd (unfold has in ground (arith, member))
    there (some e) h =
        unfold evict_back in
        rw (h, evict_back)
          (record {
            lookups = λ j. lookup-remove key_dec j k c.entries s.distinct;
            one_less = length-remove k e c.entries h;
            bytes = ap (λ o. c.cur_bytes -ℤ pos (count_at (λ (x : Entry). x.size_bytes) o)) (sym h);
            same_max_entries = refl;
            same_max_bytes = refl;
          })

-- Other keys keep their sizes.
freed-Lost :
    (k : Key) (c c' : Cache) (xs : List Key)
    → Lost k c c'
    → has key_dec k xs ≡ false
    → freed xs c' ≡ freed xs c
unfolding freed has
freed-Lost k c c' [] t h = refl
freed-Lost k c c' (x ∷ xs) t h = ground (arith, freed-Lost k c c' xs t, t.lookups x)

fewer :
    (most most' n size size' : ℕ)
    → most' ≡ most
    → size ≡ suc size'
    → leb (most' + n) size' ≡ leb (most + suc n) size
fewer most most' n size size' e h = ground arith

lighter :
    (most most' held one incoming : ℕ) (a a' : ℤ)
    → most' ≡ most
    → a' ≡ a -ℤ pos one
    → ltb_ℤ (pos (most' + held)) (a' +ℤ pos incoming)
      ≡ ltb_ℤ (pos (most + (one + held))) (a +ℤ pos incoming)
lighter most most' held one incoming a a' e h = ground (
  arith,
  +ℤ_parts a' (pos incoming),
  +ℤ_parts a (pos incoming),
  -ℤ_parts a (pos one),
  ap pos_part h,
  ap neg_part h,
)

is_full-Lost :
    (k : Key) (incoming : ℕ) (c c' : Cache) (xs : List Key)
    → Lost k c c'
    → has key_dec k xs ≡ false
    → is_full incoming xs c' ≡ is_full incoming (k ∷ xs) c
unfolding is_full freed
is_full-Lost k incoming c c' xs t h =
    let entries =
      fewer c.max_entries c'.max_entries (length xs) (length c.entries) (length c'.entries)
        t.same_max_entries t.one_less in
    let bytes =
      lighter c.max_bytes c'.max_bytes (freed xs c) (size_at k c) incoming c.cur_bytes c'.cur_bytes
        t.same_max_bytes t.bytes in
    simp (freed-Lost k c c' xs t h, entries, bytes) refl

-- The last of the first `n` keys has to go: there is no room without the others.
unfoldable pub IsNeeded : ℕ → List Key → Cache → ℕ → Type 0
IsNeeded incoming ks c zero = Unit
IsNeeded incoming ks c (suc m) = is_full incoming (take m ks) c ≡ true

-- The second cache is the first less the first `n` of the keys: their entries are gone and no
-- others, their bytes are no longer counted, and the last of them had to go.
pub record Evicted (incoming : ℕ) (ks : List Key) (n : ℕ) (c c' : Cache) : Type 0 where
  pub lru_left : c'.lru ≡ drop n ks
  pub gone :
      (k : Key)
      → lookup key_dec k c'.entries
        ≡ (if has key_dec k (take n ks) then none else lookup key_dec k c.entries)
  pub bytes_left : c'.cur_bytes +ℤ pos (freed (take n ks) c) ≡ c.cur_bytes
  pub needed : IsNeeded incoming ks c n
  pub enough : (is_full incoming (take n ks) c ≡ false) ⊎ (n ≡ length ks)

has-take :
    (k : Key) (n : ℕ) (ks : List Key) → has key_dec k ks ≡ false → has key_dec k (take n ks) ≡ false
unfolding has
has-take k zero ks h = refl
has-take k (suc n) [] h = refl
has-take k (suc n) (j ∷ ks) h = ground (arith, has-take k n ks)

nothing : (a : ℤ) → a +ℤ pos 0 ≡ a
nothing a = grind int_laws

is_full-needs_room : (incoming : ℕ) (c : Cache) → is_full incoming [] c ≡ needs_room incoming c
unfolding is_full needs_room freed
is_full-needs_room incoming c = ground arith

none-Evicted :
    (incoming : ℕ) (ks : List Key) (c : Cache)
    → c.lru ≡ ks
    → (needs_room incoming c ≡ false) ⊎ (0 ≡ length ks)
    → Evicted incoming ks 0 c c
unfolding freed has IsNeeded
none-Evicted incoming ks c l room = record {
  lru_left = l;
  gone = λ k. refl;
  bytes_left = nothing c.cur_bytes;
  needed = tt;
  enough = elim room [ inl e ↦ inl (is_full-needs_room incoming c ∙ e) | inr e ↦ inr e ];
}

both_bytes :
    (one rest : ℕ) (x y z : ℤ) → y ≡ x -ℤ pos one → z +ℤ pos rest ≡ y → z +ℤ pos (one + rest) ≡ x
both_bytes one rest x y z h h' = eq_of_parts (z +ℤ pos (one + rest)) x (
    omega (
      arith,
      +ℤ_parts z (pos (one + rest)),
      +ℤ_parts z (pos rest),
      -ℤ_parts x (pos one),
      ap pos_part h,
      ap neg_part h,
      ap pos_part h',
      ap neg_part h',
    ))

more-Evicted :
    (incoming n : ℕ) (k : Key) (ks : List Key) (c c' c'' : Cache)
    → Lost k c c'
    → has key_dec k ks ≡ false
    → needs_room incoming c ≡ true
    → Evicted incoming ks n c' c''
    → Evicted incoming (k ∷ ks) (suc n) c c''
unfolding has IsNeeded freed
more-Evicted incoming n k ks c c' c'' t h full v = record {
  lru_left = v.lru_left;
  gone = λ j. ground (arith, v.gone j, t.lookups j);
  bytes_left =
      both_bytes (size_at k c) (freed (take n ks) c) c.cur_bytes c'.cur_bytes c''.cur_bytes t.bytes
        (subst (λ f. c''.cur_bytes +ℤ pos f ≡ c'.cur_bytes)
          (freed-Lost k c c' (take n ks) t (has-take k n ks h)) v.bytes_left);
  needed = last n v.needed;
  enough = elim v.enough [
    | inl e ↦ inl (sym (is_full-Lost k incoming c c' (take n ks) t (has-take k n ks h)) ∙ e)
    | inr e ↦ inr (ap suc e)
  ];
}
  where
    last : (m : ℕ) → IsNeeded incoming ks c' m → is_full incoming (take m (k ∷ ks)) c ≡ true
    last zero o = is_full-needs_room incoming c ∙ full
    last (suc m) o = sym (is_full-Lost k incoming c c' (take m ks) t (has-take k m ks h)) ∙ o

evict_lru-from :
    (incoming : ℕ) (ks : List Key) (c : Cache)
    → c.lru ≡ ks
    → InSync c
    → (n : ℕ) × (n ≤ length ks) × Evicted incoming ks n c (evict_lru incoming ks c)
unfolding evict_lru
evict_lru-from incoming [] c l s = (0, omega arith, none-Evicted incoming [] c l (inr refl))
evict_lru-from incoming (k ∷ ks) c l s = elim (Bool-cases (needs_room incoming c)) [
  | inl full ↦
      let once : Once key_dec (k ∷ ks) = subst (Once key_dec) l s.once in
      let (n, le, v) =
        evict_lru-from incoming ks (evict_back k ks c) (lru-evict_back k ks c)
          (evict_back-InSync k ks c l s) in
      (
        suc n,
        omega arith,
        rw full (
            more-Evicted incoming n k ks c (evict_back k ks c)
              (evict_lru incoming ks (evict_back k ks c)) (evict_back-Lost k ks c l s) once.0 full
              v),
      )
  | inr room ↦ (0, omega arith, rw room (none-Evicted incoming (k ∷ ks) c l (inl room)))
]

-- In a cache whose LRU list and entries agree, the second pass takes out the `n` least recently used
-- keys: their entries are gone, and every other key keeps its own; `cur_bytes` is less by their
-- sizes; the LRU list is what comes after them. Before the last of them there was no room, by the
-- number of entries or by the bytes, and now there is, or no key is left.
pub evict_lru-Evicted :
    (incoming : ℕ) (c : Cache)
    → InSync c
    → (n : ℕ) × (n ≤ length c.lru) × Evicted incoming c.lru n c (evict_lru incoming c.lru c)
evict_lru-Evicted incoming c s = evict_lru-from incoming c.lru c refl s
