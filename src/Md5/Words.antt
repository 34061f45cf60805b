-- ===== src/Md5/Words.antt =====
-- md5checksum.h: 32-bit words, and the step macros of the four rounds.
use softupdate.Prelude.{ℕ, ◌+◌, ◌-◌, ◌*◌, ◌/◌, ◌%◌, ◌^◌, bit_and, bit_or, bit_xor}

-- `UINT4` arithmetic wraps.
abbrev pub u32 : ℕ → ℕ
u32 n = n % 2 ^ 32

-- `~x`
unfoldable pub not32 : ℕ → ℕ
not32 x = bit_xor x 0xffff_ffff

-- `#define F(x, y, z)` to `#define I(x, y, z)`
unfoldable pub f_basic : ℕ → ℕ → ℕ → ℕ
unfolding not32
f_basic x y z = bit_or (bit_and x y) (bit_and (not32 x) z)

unfoldable pub g_basic : ℕ → ℕ → ℕ → ℕ
unfolding not32
g_basic x y z = bit_or (bit_and x z) (bit_and y (not32 z))

unfoldable pub h_basic : ℕ → ℕ → ℕ → ℕ
h_basic x y z = bit_xor (bit_xor x y) z

unfoldable pub i_basic : ℕ → ℕ → ℕ → ℕ
unfolding not32
i_basic x y z = bit_xor y (bit_or x (not32 z))

-- `#define ROTATE_LEFT(x, n)`
unfoldable pub rotate_left : ℕ → ℕ → ℕ
rotate_left x n = bit_or (u32 (x * 2 ^ n)) (x / 2 ^ (32 - n))

-- The body that `FF`, `GG`, `HH` and `II` share, with the basic function as an argument: the
-- value that the macro leaves in its first argument `a`.
unfoldable pub step_word : (ℕ → ℕ → ℕ → ℕ) → ℕ → ℕ → ℕ → ℕ → ℕ → ℕ → ℕ → ℕ
unfolding rotate_left
step_word basic a b c d x s ac =
    let sum = u32 (a + (basic b c d + x + ac)) in u32 (rotate_left sum s + b)
