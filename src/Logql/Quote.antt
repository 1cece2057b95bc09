-- ===== src/Logql/Quote.antt =====
-- `strconv.Quote` and `strconv.CanBackquote` on the bytes of a text, as the LogQL printer and
-- parser call them.
use loki_vl_proxy.Prelude.{
  ℕ, zero, suc, ◌+◌, ◌-◌, ◌*◌, ◌/◌, ◌%◌, Bool, true, false, ◌&&◌, ◌||◌, not, Option, none, some,
  List, [], ◌∷◌, ◌++◌, if◌then◌else◌, ltb, leb, ◌==◌, length,
}
use loki_vl_proxy.Logql.Text.{utf8_encode}

abbrev between : ℕ → ℕ → ℕ → Bool
between lo hi b = leb lo b && leb b hi

-- A code point of two, three or four bytes after the first byte; `none` when they are no UTF-8.
unfoldable pub decode_two : ℕ → List ℕ → Option (ℕ × List ℕ)
decode_two b [] = none
decode_two b (c ∷ cs) =
    if between 194 223 b && between 128 191 c then some ((b - 192) * 64 + (c - 128), cs) else none

unfoldable pub decode_three : ℕ → List ℕ → Option (ℕ × List ℕ)
decode_three b [] = none
decode_three b (c ∷ []) = none
decode_three b (c ∷ d ∷ cs) =
    let lo = if b == 224 then 160 else 128 in
    let hi = if b == 237 then 159 else 191 in
    if between 224 239 b && between lo hi c && between 128 191 d
    then some (((b - 224) * 64 + (c - 128)) * 64 + (d - 128), cs)
    else none

unfoldable pub decode_four : ℕ → List ℕ → Option (ℕ × List ℕ)
decode_four b [] = none
decode_four b (c ∷ []) = none
decode_four b (c ∷ d ∷ []) = none
decode_four b (c ∷ d ∷ e ∷ cs) =
    let lo = if b == 240 then 144 else 128 in
    let hi = if b == 244 then 143 else 191 in
    if between 240 244 b && between lo hi c && between 128 191 d && between 128 191 e
    then some ((((b - 240) * 64 + (c - 128)) * 64 + (d - 128)) * 64 + (e - 128), cs)
    else none

-- The first code point of a text that starts with the byte `b`, and the rest.
unfoldable pub decode : ℕ → List ℕ → Option (ℕ × List ℕ)
unfolding decode_two decode_three decode_four
decode b bs =
    if ltb b 128
    then some (b, bs)
    else if ltb b 224
    then decode_two b bs
    else if ltb b 240
    then decode_three b bs
    else decode_four b bs

unfoldable pub hex_digit : ℕ → ℕ
hex_digit n = if ltb n 10 then b'0' + n else b'a' + (n - 10)

-- `n` hexadecimal digits of a number.
unfoldable pub hex : ℕ → ℕ → List ℕ
unfolding hex_digit
hex zero v = []
hex (suc n) v = hex n (v / 16) ++ hex_digit (v % 16) ∷ []

unfoldable pub control_escape : ℕ → Option ℕ
control_escape r =
    if r == 7
    then some b'a'
    else if r == 8
    then some b'b'
    else if r == 12
    then some b'f'
    else if r == 10
    then some b'n'
    else if r == 13
    then some b'r'
    else if r == 9
    then some b't'
    else if r == 11
    then some b'v'
    else none

module _ (printable : ℕ → Bool) where
  unfoldable pub is_print : ℕ → Bool
  is_print r = if ltb r 128 then leb 32 r && leb r 126 else printable r

  -- A code point inside a quoted text.
  unfoldable pub escaped_rune : ℕ → List ℕ
  unfolding is_print hex control_escape
  escaped_rune r =
      if (r == 34) || (r == 92)
      then 92 ∷ r ∷ []
      else if is_print r
      then utf8_encode r
      else elim (control_escape r) [
        | some e ↦ 92 ∷ e ∷ []
        | none ↦
            if ltb r 32 || (r == 127)
            then 92 ∷ b'x' ∷ hex 2 r
            else if ltb r 65536
            then 92 ∷ b'u' ∷ hex 4 r
            else 92 ∷ b'U' ∷ hex 8 r
      ]

  -- The text between the quotes; a byte that starts no code point is written in hexadecimal.
  unfoldable pub quote_inside : ℕ → List ℕ → List ℕ
  unfolding escaped_rune decode hex
  quote_inside fuel [] = []
  quote_inside zero (b ∷ bs) = []
  quote_inside (suc fuel) (b ∷ bs) = elim (decode b bs) [
    | none ↦ 92 ∷ b'x' ∷ (hex 2 b ++ quote_inside fuel bs)
    | some (r, rest) ↦ escaped_rune r ++ quote_inside fuel rest
  ]

  unfoldable pub quote : List ℕ → List ℕ
  unfolding quote_inside
  quote s = 34 ∷ (quote_inside (length s) s ++ 34 ∷ [])

-- The byte order mark and, but for the tab, the control codes may not stand between backquotes.
unfoldable pub backquotable_rune : ℕ → Bool
backquotable_rune r =
    if ltb 127 r
    then not (r == 65279)
    else (r == 9) || (leb 32 r && not (r == 96) && not (r == 127))

unfoldable pub can_backquote : ℕ → List ℕ → Bool
unfolding decode backquotable_rune
can_backquote fuel [] = true
can_backquote zero (b ∷ bs) = false
can_backquote (suc fuel) (b ∷ bs) = elim (decode b bs) [
  | none ↦ false
  | some (r, rest) ↦ backquotable_rune r && can_backquote fuel rest
]
