-- ===== src/Md5/Codec.antt =====
-- md5checksum.cpp, `Encode` and `Decode`: words to little-endian bytes and back.
use softupdate.Prelude.{
  ℕ, ◌+◌, ◌*◌, ◌/◌, ◌%◌, ◌^◌, ◌<◌, ◌≡◌, refl, List, [], ◌∷◌, bit_or, arith, length,
}
use softupdate.Bits.{bit_or-eq-add}

-- The four output bytes of one word: `(unsigned char)((w >> k) & 0xff)`.
unfoldable pub encode : List ℕ → List ℕ
encode [] = []
encode (w ∷ ws) =
    w % 2 ^ 8 ∷ (w / 2 ^ 8) % 2 ^ 8 ∷ (w / 2 ^ 16) % 2 ^ 8 ∷ (w / 2 ^ 24) % 2 ^ 8 ∷ encode ws

-- `input[j] | input[j + 1] << 8 | input[j + 2] << 16 | input[j + 3] << 24`
unfoldable pub join4 : ℕ → ℕ → ℕ → ℕ → ℕ
join4 b0 b1 b2 b3 = bit_or (bit_or (bit_or b0 (b1 * 2 ^ 8)) (b2 * 2 ^ 16)) (b3 * 2 ^ 24)

-- The source's lengths are multiples of 4; a shorter rest is not read.
unfoldable pub decode : List ℕ → List ℕ
unfolding join4
decode (b0 ∷ b1 ∷ b2 ∷ b3 ∷ bs) = join4 b0 b1 b2 b3 ∷ decode bs
decode _ = []

-- Every entry fits `2 ^ k`.
abbrev pub AllLt : ℕ → List ℕ → Type 0
AllLt m [] = Unit {0}
AllLt m (x ∷ xs) = (x < m) × AllLt m xs

join4-eq-sum :
    (b0 b1 b2 b3 : ℕ)
    → b0 < 2 ^ 8
    → b1 < 2 ^ 8
    → b2 < 2 ^ 8
    → join4 b0 b1 b2 b3 ≡ b0 + b1 * 2 ^ 8 + b2 * 2 ^ 16 + b3 * 2 ^ 24
unfolding join4
join4-eq-sum b0 b1 b2 b3 h0 h1 h2 =
    rw
      (
        bit_or-eq-add 8 b0 b1 h0,
        bit_or-eq-add 16 (b0 + b1 * 2 ^ 8) b2 (omega arith),
        bit_or-eq-add 24 (b0 + b1 * 2 ^ 8 + b2 * 2 ^ 16) b3 (omega arith),
      )
      refl

-- `Decode` undoes `Encode` on 32-bit words.
pub decode-encode : (ws : List ℕ) → AllLt (2 ^ 32) ws → decode (encode ws) ≡ ws
unfolding encode decode
decode-encode [] h = refl
decode-encode (w ∷ ws) h = ground (
  arith,
  join4-eq-sum (w % 2 ^ 8) (w / 2 ^ 8 % 2 ^ 8) (w / 2 ^ 16 % 2 ^ 8) (w / 2 ^ 24 % 2 ^ 8),
  decode-encode ws h.1,
)

pub length-encode : (ws : List ℕ) → length (encode ws) ≡ 4 * length ws
unfolding encode
length-encode [] = refl
length-encode (w ∷ ws) = omega (arith, length-encode ws)

-- `Encode` writes bytes.
pub encode-AllLt : (ws : List ℕ) → AllLt (2 ^ 8) (encode ws)
unfolding encode
encode-AllLt [] = tt
encode-AllLt (w ∷ ws) = (omega arith, (omega arith, (omega arith, (omega arith, encode-AllLt ws))))
