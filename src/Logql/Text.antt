-- ===== src/Logql/Text.antt =====
-- Texts of queries as lists of code points, their UTF-8 bytes, and the character classes of Go's
-- package unicode. Beyond ASCII the classes are a parameter.
use Prim.Native.Char.{code}
use Prim.Native.String.{String}
use loki_vl_proxy.Prelude.{
  ℕ, ◌+◌, ◌/◌, ◌%◌, Bool, true, false, ◌&&◌, ◌||◌, List, [], ◌∷◌, ◌++◌, if◌then◌else◌, ltb, leb,
  ◌==◌,
}

abbrev pub codes : String → List ℕ
codes String.[] = []
codes (String.◌∷◌ c s) = code c ∷ codes s

-- The classes of the code points from 128 on.
pub record Wide : Type 0 where
  pub letter : ℕ → Bool
  pub digit : ℕ → Bool
  pub space : ℕ → Bool

abbrev pub ascii_letter : ℕ → Bool
ascii_letter r = (leb b'a' r && leb r b'z') || (leb b'A' r && leb r b'Z')

abbrev pub ascii_digit : ℕ → Bool
ascii_digit r = leb b'0' r && leb r b'9'

-- Tab, line feed, vertical tab, form feed, carriage return and the space.
abbrev pub ascii_space : ℕ → Bool
ascii_space r = (leb 9 r && leb r 13) || r == 32

module _ (u : Wide) where
  unfoldable pub is_letter : ℕ → Bool
  is_letter r = if ltb r 128 then ascii_letter r else u.letter r

  unfoldable pub is_digit : ℕ → Bool
  is_digit r = if ltb r 128 then ascii_digit r else u.digit r

  unfoldable pub is_space : ℕ → Bool
  is_space r = if ltb r 128 then ascii_space r else u.space r

-- The UTF-8 encoding of one code point.
unfoldable pub utf8_encode : ℕ → List ℕ
utf8_encode r =
    if ltb r 128
    then r ∷ []
    else if ltb r 2048
    then (192 + r / 64) ∷ (128 + r % 64) ∷ []
    else if ltb r 65536
    then (224 + r / 4096) ∷ (128 + r / 64 % 64) ∷ (128 + r % 64) ∷ []
    else (240 + r / 262144) ∷ (128 + r / 4096 % 64) ∷ (128 + r / 64 % 64) ∷ (128 + r % 64) ∷ []

-- The bytes of a text.
unfoldable pub utf8 : List ℕ → List ℕ
utf8 [] = []
utf8 (r ∷ rs) = utf8_encode r ++ utf8 rs

-- The longest start of a text that passes a test, and the rest.
unfoldable pub span : (ℕ → Bool) → List ℕ → List ℕ × List ℕ
span p [] = ([], [])
span p (r ∷ rs) = let (xs, ys) = span p rs in if p r then (r ∷ xs, ys) else ([], r ∷ rs)

unfoldable pub runes_eq : List ℕ → List ℕ → Bool
runes_eq [] [] = true
runes_eq [] (y ∷ ys) = false
runes_eq (x ∷ xs) [] = false
runes_eq (x ∷ xs) (y ∷ ys) = (x == y) && runes_eq xs ys
