-- ===== src/Board/Bit.antt =====
-- `BitOptionDeal`: set or clear one bit of an option byte.
use softupdate.Prelude.{
  ℕ, zero, suc, ◌/◌, ◌%◌, ◌^◌, ◌<◌, ◌≡◌, refl, Bool, true, ◌&&◌, arith, ◌==◌, ltb, if◌then◌else◌,
  bit_and, bit_or,
}
use softupdate.Prelude.Int.{ℤ, pos, negsuc}

-- The `switch` of each branch: a bit from 0 to 7 has its mask, any other leaves the byte.
clear_bit : ℕ → ℕ → ℕ
clear_bit src zero = bit_and src 0xFE
clear_bit src (suc zero) = bit_and src 0xFD
clear_bit src (suc (suc zero)) = bit_and src 0xFB
clear_bit src (suc (suc (suc zero))) = bit_and src 0xF7
clear_bit src (suc (suc (suc (suc zero)))) = bit_and src 0xEF
clear_bit src (suc (suc (suc (suc (suc zero))))) = bit_and src 0xDF
clear_bit src (suc (suc (suc (suc (suc (suc zero)))))) = bit_and src 0xBF
clear_bit src (suc (suc (suc (suc (suc (suc (suc zero))))))) = bit_and src 0x7F
clear_bit src _ = src

set_bit : ℕ → ℕ → ℕ
set_bit src zero = bit_or src 0x01
set_bit src (suc zero) = bit_or src 0x02
set_bit src (suc (suc zero)) = bit_or src 0x04
set_bit src (suc (suc (suc zero))) = bit_or src 0x08
set_bit src (suc (suc (suc (suc zero)))) = bit_or src 0x10
set_bit src (suc (suc (suc (suc (suc zero))))) = bit_or src 0x20
set_bit src (suc (suc (suc (suc (suc (suc zero)))))) = bit_or src 0x40
set_bit src (suc (suc (suc (suc (suc (suc (suc zero))))))) = bit_or src 0x80
set_bit src _ = src

-- A negative bit number or a value that is neither 0 nor 1 changes nothing.
unfoldable pub bit_option_deal : ℕ → ℤ → ℤ → ℕ
unfolding clear_bit set_bit
bit_option_deal src (negsuc b) d = src
bit_option_deal src (pos b) (pos zero) = clear_bit src b
bit_option_deal src (pos b) (pos (suc zero)) = set_bit src b
bit_option_deal src (pos b) (pos (suc (suc d))) = src
bit_option_deal src (pos b) (negsuc d) = src

-- Bit `j` of `x`.
abbrev pub bit : ℕ → ℕ → ℕ
bit x j = x / 2 ^ j % 2

-- The test holds of the first `k` numbers.
every : (ℕ → Bool) → ℕ → Bool
every test zero = true
every test (suc k) = every test k && test k

every_at : (test : ℕ → Bool) (k i : ℕ) → i < k → every test k ≡ true → test i ≡ true
unfolding every
every_at test zero i low all = elim low [ ]
every_at test (suc k) i low all = ground (arith, every_at test k i)

-- The bit asked for has the value, the others keep theirs, and the result is a byte.
right_at : ℕ → ℕ → ℕ → ℕ → Bool
right_at d x b j =
    let y = bit_option_deal x (pos b) (pos d) in
    (bit y j == (if b == j then d else bit x j)) && ltb y 256

right_everywhere : ℕ → Bool
right_everywhere d = every (λ x. every (λ b. every (λ j. right_at d x b j) 8) 8) 256

cleared_table : right_everywhere 0 ≡ true
unfolding right_everywhere right_at every bit_option_deal
cleared_table = refl

set_table : right_everywhere 1 ≡ true
unfolding right_everywhere right_at every bit_option_deal
set_table = refl

table : (d : ℕ) → d < 2 → right_everywhere d ≡ true
table zero h = cleared_table
table (suc zero) h = set_table
table (suc (suc d)) h = absurd (omega arith)

-- On a byte, with a bit from 0 to 7 and a value 0 or 1: that bit gets the value, every other bit
-- keeps its own, and the result is a byte.
pub bit_option_deal_lem :
    (x b d j : ℕ)
    → x < 256
    → b < 8
    → d < 2
    → j < 8
    → (bit (bit_option_deal x (pos b) (pos d)) j ≡ (if b == j then d else bit x j))
      × (bit_option_deal x (pos b) (pos d) < 256)
unfolding right_everywhere right_at
bit_option_deal_lem x b d j hx hb hd hj = ground (arith, here)
  where
    here : right_at d x b j ≡ true
    here = every_at _ 8 j hj (every_at _ 8 b hb (every_at _ 256 x hx (table d hd)))
