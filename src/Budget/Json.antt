-- ===== src/Budget/Json.antt =====
-- internal/proxy/binary_budget.go: the count agrees with the arrays of a JSON document, nested or
-- not, whatever its strings hold.
use mathlib.Core.List.{append_assoc, append-nil}
use loki_vl_proxy.Prelude.{
  ℕ, zero, suc, ◌+◌, ◌-◌, ◌≤◌, ◌≡◌, refl, sym, ap, ◌∙◌, inl, inr, Bool, true, false, not, ◌&&◌,
  List, [], ◌∷◌, ◌++◌, if◌then◌else◌, ltb, ◌==◌, length, arith, Bool-cases, ltb→lt, ltb→le, lt→ltb,
  le→ltb,
}
use loki_vl_proxy.Budget.Decode.{
  Decoded, left, refused, exceeds_array_budget, count_arrays, check_binary_decode_budget,
  max_buffered_backend_body_bytes,
}
use loki_vl_proxy.Budget.Document.{
  Piece, plain, escaped, spell, spaced, is_space, is_string, Value, scalar, text, array, object,
  Items, no_items, item, Fields, no_fields, field, quote, encode, encode_items, encode_fields,
  arrays, arrays_items, arrays_fields, is_plain, is_json, are_json, are_fields,
}

-- What the count is after `k` arrays.
unfoldable pub spend : ℕ → ℕ → List ℕ → Decoded
spend k n rest =
    if ltb n k then refused exceeds_array_budget else count_arrays false false (n - k) rest

and-parts : (a b : Bool) → (a && b) ≡ true → (a ≡ true) × (b ≡ true)
and-parts a b h = ground arith

plain-parts :
    (a b c : Bool) → ((not a && not b) && c) ≡ true → (a ≡ false) × (b ≡ false) × (c ≡ true)
plain-parts a b c h = ground arith

count_plain :
    (s : List ℕ) (n : ℕ) (rest : List ℕ)
    → is_plain s ≡ true
    → count_arrays false false n (s ++ rest) ≡ count_arrays false false n rest
unfolding is_plain count_arrays
count_plain [] n rest h = refl
count_plain (c ∷ cs) n rest h =
    let (q, b, h') = plain-parts (c == 34) (c == b'[') (is_plain cs) h in
    simp (q, b) (count_plain cs n rest h')

count_inside :
    (c n : ℕ) (cs : List ℕ)
    → (c == 92) ≡ false
    → (c == 34) ≡ false
    → count_arrays true false n (c ∷ cs) ≡ count_arrays true false n cs
unfolding count_arrays
count_inside c n cs b q = simp (b, q) refl

spaces-plain : (s : List ℕ) → is_space s ≡ true → is_plain s ≡ true
unfolding is_space is_plain
spaces-plain [] h = refl
spaces-plain (c ∷ cs) h = let rest = spaces-plain cs in ground arith

count_space :
    (s : List ℕ) (n : ℕ) (rest : List ℕ)
    → is_space s ≡ true
    → count_arrays false false n (s ++ rest) ≡ count_arrays false false n rest
count_space s n rest h = count_plain s n rest (spaces-plain s h)

count_string :
    (s : List Piece) (n : ℕ) (rest : List ℕ)
    → is_string s ≡ true
    → count_arrays true false n (spell s ++ (34 ∷ rest)) ≡ count_arrays false false n rest
unfolding spell is_string count_arrays
count_string [] n rest h = refl
count_string (plain c ∷ ps) n rest h =
    let (b, q, h') = plain-parts (c == 92) (c == 34) (is_string ps) h in
    count_inside c n (spell ps ++ (34 ∷ rest)) b q ∙ count_string ps n rest h'
count_string (escaped c ∷ ps) n rest h = count_string ps n rest h

count_quote :
    (s : List Piece) (n : ℕ) (rest : List ℕ)
    → is_string s ≡ true
    → count_arrays false false n (quote s ++ rest) ≡ count_arrays false false n rest
unfolding quote count_arrays
count_quote s n rest h = simp (append_assoc (spell s) (34 ∷ []) rest) (count_string s n rest h)

spend-zero_arrays : (n : ℕ) (rest : List ℕ) → count_arrays false false n rest ≡ spend 0 n rest
unfolding spend
spend-zero_arrays n rest = simp (le→ltb n 0 (omega arith), less) refl
  where
    less : n - 0 ≡ n
    less = omega arith

count_open : (n : ℕ) (rest : List ℕ) → count_arrays false false n (b'[' ∷ rest) ≡ spend 1 n rest
unfolding count_arrays spend
count_open zero rest = refl
count_open (suc n) rest = simp (le→ltb (suc n) 1 (omega arith), some_left) refl
  where
    some_left : (suc n == 0) ≡ false
    some_left = ground arith

-- A text that holds `b` arrays, after `a` of them.
spend_add :
    (a b n : ℕ) (xs rest : List ℕ)
    → ((m : ℕ) → count_arrays false false m (xs ++ rest) ≡ spend b m rest)
    → spend a n (xs ++ rest) ≡ spend (a + b) n rest
unfolding spend
spend_add a b n xs rest h = elim (Bool-cases (ltb n a)) [
  | inl short ↦ let l = ltb→lt n a short in simp (short, lt→ltb n (a + b) (omega arith)) refl
  | inr enough ↦
      let l = ltb→le n a enough in
      let less : n - a - b ≡ n - (a + b) = omega arith in
      elim (Bool-cases (ltb n (a + b))) [
        | inl s ↦
            let l' = ltb→lt n (a + b) s in
            simp (enough, h (n - a), s, lt→ltb (n - a) b (omega arith)) refl
        | inr s ↦
            let l' = ltb→le n (a + b) s in
            simp (enough, h (n - a), s, le→ltb (n - a) b (omega arith), less) refl
      ]
]

-- A text without arrays before one with `b`.
skip_to :
    (b n : ℕ) (xs ys rest : List ℕ)
    → ((zs : List ℕ) → count_arrays false false n (xs ++ zs) ≡ count_arrays false false n zs)
    → count_arrays false false n (ys ++ rest) ≡ spend b n rest
    → count_arrays false false n ((xs ++ ys) ++ rest) ≡ spend b n rest
skip_to b n xs ys rest h e = simp (append_assoc xs ys rest) (h (ys ++ rest) ∙ e)

-- A text with `a` arrays before one with `b`.
join_to :
    (a b n : ℕ) (xs ys rest : List ℕ)
    → ((zs : List ℕ) → count_arrays false false n (xs ++ zs) ≡ spend a n zs)
    → ((m : ℕ) → count_arrays false false m (ys ++ rest) ≡ spend b m rest)
    → count_arrays false false n ((xs ++ ys) ++ rest) ≡ spend (a + b) n rest
join_to a b n xs ys rest h e =
    simp (append_assoc xs ys rest) (h (ys ++ rest) ∙ spend_add a b n ys rest e)

ends_in :
    (k n : ℕ) (xs space rest : List ℕ)
    → is_space space ≡ true
    → ((zs : List ℕ) → count_arrays false false n (xs ++ zs) ≡ spend k n zs)
    → count_arrays false false n ((xs ++ space) ++ rest) ≡ spend k n rest
unfolding spend
ends_in k n xs space rest p h = simp (append_assoc xs space rest) (
    h (space ++ rest)
    ∙ ap (λ d. if ltb n k then refused exceeds_array_budget else d)
        (count_space space (n - k) rest p))

skip_both :
    (xs ys : List ℕ) (n : ℕ) (rest : List ℕ)
    → is_plain xs ≡ true
    → is_plain ys ≡ true
    → count_arrays false false n ((xs ++ ys) ++ rest) ≡ count_arrays false false n rest
skip_both xs ys n rest p q =
    simp (append_assoc xs ys rest) (count_plain xs n (ys ++ rest) p ∙ count_plain ys n rest q)

closes :
    (c k n : ℕ) (xs rest : List ℕ)
    → is_plain (c ∷ []) ≡ true
    → ((zs : List ℕ) → count_arrays false false n (xs ++ zs) ≡ spend k n zs)
    → count_arrays false false n ((xs ++ (c ∷ [])) ++ rest) ≡ spend k n rest
unfolding spend
closes c k n xs rest p h = simp (append_assoc xs (c ∷ []) rest) (
    h (c ∷ rest)
    ∙ ap (λ d. if ltb n k then refused exceeds_array_budget else d)
        (count_plain (c ∷ []) (n - k) rest p))

mutual
  unfolding encode arrays is_json is_plain is_space

  encode-spend :
      (j : Value) (n : ℕ) (rest : List ℕ)
      → is_json j ≡ true
      → count_arrays false false n (encode j ++ rest) ≡ spend (arrays j) n rest
  encode-spend (scalar s) n rest h = count_plain s n rest h ∙ spend-zero_arrays n rest
  encode-spend (text s) n rest h = count_quote s n rest h ∙ spend-zero_arrays n rest
  encode-spend (array xs) n rest h =
      join_to 1 (arrays_items xs) n (b'[' ∷ []) (encode_items [] xs ++ (b']' ∷ [])) rest
        (count_open n)
        (λ m.
          closes b']' (arrays_items xs) m (encode_items [] xs) rest refl
            (λ zs. items-spend [] xs m zs refl h))
      ∙ ap (λ k. spend k n rest) (omega arith)
  encode-spend (object fs) n rest h =
      skip_to (arrays_fields fs) n (b'{' ∷ []) (encode_fields [] fs ++ (b'}' ∷ [])) rest
        (λ zs. count_plain (b'{' ∷ []) n zs refl)
        (closes b'}' (arrays_fields fs) n (encode_fields [] fs) rest refl
          (λ zs. fields-spend [] fs n zs refl h))
  encode-spend (spaced before x after) n rest h =
      let (spaces, hx) = and-parts (is_space before && is_space after) (is_json x) h in
      let (hb, ha) = and-parts (is_space before) (is_space after) spaces in
      skip_to (arrays x) n before (encode x ++ after) rest (λ zs. count_space before n zs hb)
        (ends_in (arrays x) n (encode x) after rest ha (λ zs. encode-spend x n zs hx))

  items-spend :
      (sep : List ℕ) (xs : Items) (n : ℕ) (rest : List ℕ)
      → is_plain sep ≡ true
      → are_json xs ≡ true
      → count_arrays false false n (encode_items sep xs ++ rest) ≡ spend (arrays_items xs) n rest
  items-spend sep (no_items space) n rest p h =
      count_space space n rest h ∙ spend-zero_arrays n rest
  items-spend sep (item x xs) n rest p h =
      let (hx, hxs) = and-parts (is_json x) (are_json xs) h in
      skip_to (arrays x + arrays_items xs) n sep (encode x ++ encode_items (b',' ∷ []) xs) rest
        (λ zs. count_plain sep n zs p)
        (join_to (arrays x) (arrays_items xs) n (encode x) (encode_items (b',' ∷ []) xs) rest
          (λ zs. encode-spend x n zs hx) (λ m. items-spend (b',' ∷ []) xs m rest refl hxs))

  fields-spend :
      (sep : List ℕ) (fs : Fields) (n : ℕ) (rest : List ℕ)
      → is_plain sep ≡ true
      → are_fields fs ≡ true
      → count_arrays false false n (encode_fields sep fs ++ rest) ≡ spend (arrays_fields fs) n rest
  fields-spend sep (no_fields space) n rest p h =
      count_space space n rest h ∙ spend-zero_arrays n rest
  fields-spend sep (field before k after x fs) n rest p h =
      let (key, values) =
        and-parts ((is_space before && is_space after) && is_string k) (is_json x && are_fields fs)
          h in
      let (spaces, hk) = and-parts (is_space before && is_space after) (is_string k) key in
      let (hb, ha) = and-parts (is_space before) (is_space after) spaces in
      let (hx, hfs) = and-parts (is_json x) (are_fields fs) values in
      let value = encode x ++ encode_fields (b',' ∷ []) fs in
      let colon = after ++ (b':' ∷ []) in
      let b = arrays x + arrays_fields fs in
      skip_to b n (sep ++ before) (quote k ++ (colon ++ value)) rest
        (λ zs. skip_both sep before n zs p (spaces-plain before hb))
        (skip_to b n (quote k) (colon ++ value) rest (λ zs. count_quote k n zs hk)
          (skip_to b n colon value rest
            (λ zs. skip_both after (b':' ∷ []) n zs (spaces-plain after ha) refl)
            (join_to (arrays x) (arrays_fields fs) n (encode x) (encode_fields (b',' ∷ []) fs) rest
              (λ zs. encode-spend x n zs hx) (λ m. fields-spend (b',' ∷ []) fs m rest refl hfs))))

-- For any text of a JSON document within the byte limit, spaced in any way and with any escapes, the
-- check counts its arrays exactly, however they are nested and whatever quotes, backslashes and
-- brackets its strings and keys hold: it leaves the budget less that number, and refuses when there
-- are more arrays than the budget.
pub check_binary_decode_budget-encode :
    (n : ℕ) (j : Value)
    → is_json j ≡ true
    → length (encode j) ≤ max_buffered_backend_body_bytes
    → check_binary_decode_budget n (encode j)
      ≡ (if ltb n (arrays j) then refused exceeds_array_budget else left (n - arrays j))
unfolding check_binary_decode_budget spend count_arrays
check_binary_decode_budget-encode n j h le =
    simp (le→ltb max_buffered_backend_body_bytes (length (encode j)) le)
      (ap (count_arrays false false n) (sym (append-nil (encode j))) ∙ encode-spend j n [] h)
