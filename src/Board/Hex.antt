-- ===== src/Board/Hex.antt =====
-- The hexadecimal text of the boards' option memories: what `_netclient_cmd_WriteEEPRom` sends and
-- what `ReadOptionBufferIndex` reads back.
use softupdate.Prelude.{
  ℕ, ◌+◌, ◌-◌, ◌*◌, ◌/◌, ◌%◌, ◌≤◌, ◌<◌, ◌≡◌, refl, ap, Bool, true, false, ◌&&◌, ◌||◌, List, [], ◌∷◌,
  ◌++◌, arith, ltb, leb, ◌==◌, if◌then◌else◌, length, take, replicate, take-all, take-append_ge,
}
use softupdate.Md5.Codec.{AllLt}

-- A character of `%02X`.
unfoldable pub hex_char : ℕ → ℕ
hex_char n = if ltb n 10 then 48 + n else 55 + n

-- `sprintf(buff + i * 2, "%02X", pBuff[i])` for each byte
unfoldable pub hex_encode : List ℕ → List ℕ
unfolding hex_char
hex_encode [] = []
hex_encode (b ∷ bs) = hex_char (b / 16) ∷ hex_char (b % 16) ∷ hex_encode bs

-- `'0'` to `'9'`, `'a'` to `'f'`, `'A'` to `'F'`
abbrev pub is_hex : ℕ → Bool
is_hex c = (leb 48 c && leb c 57) || (leb 97 c && leb c 102) || (leb 65 c && leb c 70)

-- The value that `sscanf("%x")` gives such a character.
hex_value : ℕ → ℕ
hex_value c = if leb c 57 then c - 48 else if leb c 70 then c - 55 else c - 87

-- `strlen`: the text ends at its first NUL.
unfoldable pub c_str : List ℕ → List ℕ
c_str [] = []
c_str (c ∷ cs) = let more = c ∷ c_str cs in if c == 0 then [] else more

-- `pBuff[j++] = pBuff[i]` for the hexadecimal characters: the copy runs behind the reading index.
unfoldable pub hex_only : List ℕ → List ℕ
hex_only [] = []
hex_only (c ∷ cs) = let more = hex_only cs in if is_hex c then c ∷ more else more

-- Two characters make a byte; a single one at the end makes one too.
unfoldable pub hex_pairs : List ℕ → List ℕ
unfolding hex_value
hex_pairs [] = []
hex_pairs (c ∷ []) = hex_value c ∷ []
hex_pairs (c ∷ d ∷ cs) = (hex_value c * 16 + hex_value d) ∷ hex_pairs cs

-- `temp_data`: at most 255 bytes from at most 510 characters, and zeros behind them.
unfoldable pub parse_options : List ℕ → List ℕ
unfolding c_str hex_only hex_pairs
parse_options text =
    let bytes = hex_pairs (take 510 (hex_only (c_str text))) in take 255 (bytes ++ replicate 255 0)

hex_value-hex_char : (n : ℕ) → n < 16 → hex_value (hex_char n) ≡ n
unfolding hex_value hex_char
hex_value-hex_char n h = ground arith

-- Reading pairs undoes writing them.
pub hex_pairs-hex_encode : (bs : List ℕ) → AllLt 256 bs → hex_pairs (hex_encode bs) ≡ bs
unfolding hex_pairs hex_encode
hex_pairs-hex_encode [] h = refl
hex_pairs-hex_encode (b ∷ bs) h =
    ground
      (arith, hex_value-hex_char (b / 16), hex_value-hex_char (b % 16), hex_pairs-hex_encode bs h.1)

length-hex_encode : (bs : List ℕ) → length (hex_encode bs) ≡ 2 * length bs
unfolding hex_encode
length-hex_encode [] = refl
length-hex_encode (b ∷ bs) = omega (arith, length-hex_encode bs)

hex_char-is_hex : (n : ℕ) → n < 16 → (is_hex (hex_char n) ≡ true) × ((hex_char n == 0) ≡ false)
unfolding hex_char
hex_char-is_hex n h = ground arith

-- An encoded text is hexadecimal throughout.
pub hex_only-hex_encode :
    (bs : List ℕ) → AllLt 256 bs → hex_only (c_str (hex_encode bs)) ≡ hex_encode bs
unfolding hex_only hex_encode c_str
hex_only-hex_encode [] h = refl
hex_only-hex_encode (b ∷ bs) h =
    let (x, x') = hex_char-is_hex (b / 16) (omega arith) in
    let (y, y') = hex_char-is_hex (b % 16) (omega arith) in
    rw (x', y')
      (rw (x, y) (ap (λ t. hex_char (b / 16) ∷ hex_char (b % 16) ∷ t) (hex_only-hex_encode bs h.1)))

-- A text whose hexadecimal characters are those of at most 255 bytes is read as these bytes, and
-- zeros up to 255.
pub parse_options-hex_encode :
    (text bs : List ℕ)
    → AllLt 256 bs
    → length bs ≤ 255
    → hex_only (c_str text) ≡ hex_encode bs
    → parse_options text ≡ bs ++ take (255 - length bs) (replicate 255 0)
unfolding parse_options
parse_options-hex_encode text bs small fits shown =
    rw
      (
        shown,
        take-all (hex_encode bs) 510 (omega (arith, length-hex_encode bs)),
        hex_pairs-hex_encode bs small,
      )
      (take-append_ge bs (replicate 255 0) 255 (255 - length bs) (omega arith))
