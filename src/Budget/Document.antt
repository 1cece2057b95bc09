-- ===== src/Budget/Document.antt =====
-- The texts of JSON documents, as any encoder may write them, and their arrays.
use loki_vl_proxy.Prelude.{ℕ, suc, ◌+◌, Bool, true, not, ◌&&◌, ◌||◌, List, [], ◌∷◌, ◌++◌, ◌==◌}

-- A part of a string: a character, or a backslash with the character after it. The four digits
-- after `\u` are characters.
pub data Piece : Type 0 where
  plain : ℕ → Piece
  escaped : ℕ → Piece

-- Space is kept: around a value, before and after a key, and at the end of what an array or an
-- object holds.
mutual
  pub data Value : Type 0 where
    scalar : List ℕ → Value
    text : List Piece → Value
    array : Items → Value
    object : Fields → Value
    spaced : List ℕ → Value → List ℕ → Value

  pub data Items : Type 0 where
    no_items : List ℕ → Items
    item : Value → Items → Items

  pub data Fields : Type 0 where
    no_fields : List ℕ → Fields
    field : List ℕ → List Piece → List ℕ → Value → Fields → Fields

unfoldable pub spell : List Piece → List ℕ
spell [] = []
spell (plain c ∷ ps) = c ∷ spell ps
spell (escaped c ∷ ps) = 92 ∷ c ∷ spell ps

unfoldable pub quote : List Piece → List ℕ
unfolding spell
quote s = 34 ∷ (spell s ++ (34 ∷ []))

-- The document's text; `sep` is the comma before an item that is not the first.
unfoldable mutual
  unfolding quote

  pub encode : Value → List ℕ
  encode (scalar s) = s
  encode (text s) = quote s
  encode (array xs) = b'[' ∷ (encode_items [] xs ++ (b']' ∷ []))
  encode (object fs) = b'{' ∷ (encode_fields [] fs ++ (b'}' ∷ []))
  encode (spaced before x after) = before ++ (encode x ++ after)

  pub encode_items : List ℕ → Items → List ℕ
  encode_items sep (no_items space) = space
  encode_items sep (item x xs) = sep ++ (encode x ++ encode_items (b',' ∷ []) xs)

  pub encode_fields : List ℕ → Fields → List ℕ
  encode_fields sep (no_fields space) = space
  encode_fields sep (field before k after x fs) =
      (sep ++ before)
      ++ (quote k ++ ((after ++ (b':' ∷ [])) ++ (encode x ++ encode_fields (b',' ∷ []) fs)))

-- The arrays in the document.
unfoldable mutual
  pub arrays : Value → ℕ
  arrays (scalar s) = 0
  arrays (text s) = 0
  arrays (array xs) = suc (arrays_items xs)
  arrays (object fs) = arrays_fields fs
  arrays (spaced before x after) = arrays x

  pub arrays_items : Items → ℕ
  arrays_items (no_items space) = 0
  arrays_items (item x xs) = arrays x + arrays_items xs

  pub arrays_fields : Fields → ℕ
  arrays_fields (no_fields space) = 0
  arrays_fields (field before k after x fs) = arrays x + arrays_fields fs

-- Numbers, `true`, `false` and `null` hold neither a quote nor a bracket.
unfoldable pub is_plain : List ℕ → Bool
is_plain [] = true
is_plain (c ∷ cs) = (not (c == 34) && not (c == b'[')) && is_plain cs

-- Blanks, tabs and the ends of lines.
unfoldable pub is_space : List ℕ → Bool
is_space [] = true
is_space (c ∷ cs) = (((c == 32) || (c == 9)) || ((c == 10) || (c == 13))) && is_space cs

unfoldable pub is_string : List Piece → Bool
is_string [] = true
is_string (plain c ∷ ps) = (not (c == 92) && not (c == 34)) && is_string ps
is_string (escaped c ∷ ps) = is_string ps

unfoldable mutual
  unfolding is_plain is_space is_string

  pub is_json : Value → Bool
  is_json (scalar s) = is_plain s
  is_json (text s) = is_string s
  is_json (array xs) = are_json xs
  is_json (object fs) = are_fields fs
  is_json (spaced before x after) = (is_space before && is_space after) && is_json x

  pub are_json : Items → Bool
  are_json (no_items space) = is_space space
  are_json (item x xs) = is_json x && are_json xs

  pub are_fields : Fields → Bool
  are_fields (no_fields space) = is_space space
  are_fields (field before k after x fs) =
      ((is_space before && is_space after) && is_string k) && (is_json x && are_fields fs)
