-- ===== src/Logql/Unquote.antt =====
-- What `strconv.Unquote` makes of a double-quoted literal, as the scanner calls it. The input is
-- what stands between the quotes; the result is bytes, and `none` is a syntax error.
use loki_vl_proxy.Prelude.{
  ℕ, zero, suc, ◌+◌, ◌-◌, ◌*◌, Bool, ◌&&◌, ◌||◌, Option, none, some, List, [], ◌∷◌, ◌++◌,
  if◌then◌else◌, ltb, leb, ◌==◌,
}
use loki_vl_proxy.Logql.Text.{utf8_encode}

unfoldable pub hex_value : ℕ → Option ℕ
hex_value c =
    if leb b'0' c && leb c b'9'
    then some (c - b'0')
    else if leb b'a' c && leb c b'f'
    then some (c - b'a' + 10)
    else if leb b'A' c && leb c b'F'
    then some (c - b'A' + 10)
    else none

unfoldable pub octal_value : ℕ → Option ℕ
octal_value c = if leb b'0' c && leb c b'7' then some (c - b'0') else none

-- `n` digits in a base, after the value of those before.
unfoldable pub digits_value : (ℕ → Option ℕ) → ℕ → ℕ → ℕ → List ℕ → Option (ℕ × List ℕ)
digits_value value base zero acc cs = some (acc, cs)
digits_value value base (suc n) acc [] = none
digits_value value base (suc n) acc (c ∷ cs) = elim (value c) [
  | none ↦ none
  | some v ↦ digits_value value base n (acc * base + v) cs
]

-- `utf8.ValidRune`
unfoldable pub valid_rune : ℕ → Bool
valid_rune r = ltb r 0xD800 || (ltb 0xDFFF r && leb r 0x10FFFF)

-- The escapes of one letter.
unfoldable pub simple_escape : ℕ → Option ℕ
simple_escape c =
    if c == b'a'
    then some 7
    else if c == b'b'
    then some 8
    else if c == b'f'
    then some 12
    else if c == b'n'
    then some 10
    else if c == b'r'
    then some 13
    else if c == b't'
    then some 9
    else if c == b'v'
    then some 11
    else if c == 92
    then some 92
    else if c == 34
    then some 34
    else none

as_byte : Option (ℕ × List ℕ) → Option (List ℕ × List ℕ)
as_byte none = none
as_byte (some (v, cs)) = if ltb v 256 then some (v ∷ [], cs) else none

as_rune : Option (ℕ × List ℕ) → Option (List ℕ × List ℕ)
as_rune none = none
as_rune (some (v, cs)) = if valid_rune v then some (utf8_encode v, cs) else none

-- After a backslash: the bytes that the escape stands for, and what follows it.
unfoldable pub escape_value : List ℕ → Option (List ℕ × List ℕ)
unfolding simple_escape digits_value hex_value octal_value as_byte as_rune
escape_value [] = none
escape_value (c ∷ cs) = elim (simple_escape c) [
  | some b ↦ some (b ∷ [], cs)
  | none ↦
      if c == b'x'
      then as_byte (digits_value hex_value 16 2 0 cs)
      else if c == b'u'
      then as_rune (digits_value hex_value 16 4 0 cs)
      else if c == b'U'
      then as_rune (digits_value hex_value 16 8 0 cs)
      else as_byte (digits_value octal_value 8 3 0 (c ∷ cs))
]

unfoldable pub prepend : List ℕ → Option (List ℕ) → Option (List ℕ)
prepend bs none = none
prepend bs (some rest) = some (bs ++ rest)

-- The loop over the characters; each round takes at least one. A raw line feed is refused, and so
-- is a quote, which the scanner never leaves unescaped inside.
unfoldable pub unquote : ℕ → List ℕ → Option (List ℕ)
unfolding escape_value prepend
unquote fuel [] = some []
unquote zero (c ∷ cs) = none
unquote (suc fuel) (c ∷ cs) =
    let plain = prepend (utf8_encode c) (unquote fuel cs) in
    let escaped : Option (List ℕ) = elim (escape_value cs) [
      | none ↦ none
      | some (bs, rest) ↦ prepend bs (unquote fuel rest)
    ] in
    if c == 92 then escaped else if c == 10 then none else if c == 34 then none else plain
