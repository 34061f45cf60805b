-- ===== src/Md5/Transform.antt =====
-- md5checksum.cpp, `MD5Transform`: one 64-byte block through the 64 steps.
use softupdate.Prelude.{ℕ, ◌+◌, List, [], ◌∷◌, get_or}
use softupdate.Md5.Words.{u32, f_basic, g_basic, h_basic, i_basic, step_word}
use softupdate.Md5.Codec.{decode}

-- `UINT4 state[4]`
pub record State : Type 0 where
  pub a : ℕ
  pub b : ℕ
  pub c : ℕ
  pub d : ℕ

-- One line of the source: the index of `x`, the rotation and the additive constant.
pub record Step : Type 0 where
  pub index : ℕ
  pub shift : ℕ
  pub const : ℕ

abbrev s : ℕ → ℕ → ℕ → Step
s i n k = record { index = i; shift = n; const = k }

-- The source calls the macros with `(a, b, c, d)`, `(d, a, b, c)`, `(c, d, a, b)`,
-- `(b, c, d, a)` in turn: the new word becomes `b` of the next call, and the others move on.
run_round : (ℕ → ℕ → ℕ → ℕ) → List ℕ → List Step → State → State
run_round basic x [] r = r
run_round basic x (t ∷ ts) r = run_round basic x ts (record {
  a = r.d;
  b = step_word basic r.a r.b r.c r.d (get_or x t.index 0) t.shift t.const;
  c = r.b;
  d = r.c;
})

abbrev round1 : List Step
round1 =
    s 0 7 0xd76aa478
    ∷ s 1 12 0xe8c7b756
    ∷ s 2 17 0x242070db
    ∷ s 3 22 0xc1bdceee
    ∷ s 4 7 0xf57c0faf
    ∷ s 5 12 0x4787c62a
    ∷ s 6 17 0xa8304613
    ∷ s 7 22 0xfd469501
    ∷ s 8 7 0x698098d8
    ∷ s 9 12 0x8b44f7af
    ∷ s 10 17 0xffff5bb1
    ∷ s 11 22 0x895cd7be
    ∷ s 12 7 0x6b901122
    ∷ s 13 12 0xfd987193
    ∷ s 14 17 0xa679438e
    ∷ s 15 22 0x49b40821
    ∷ []

abbrev round2 : List Step
round2 =
    s 1 5 0xf61e2562
    ∷ s 6 9 0xc040b340
    ∷ s 11 14 0x265e5a51
    ∷ s 0 20 0xe9b6c7aa
    ∷ s 5 5 0xd62f105d
    ∷ s 10 9 0x2441453
    ∷ s 15 14 0xd8a1e681
    ∷ s 4 20 0xe7d3fbc8
    ∷ s 9 5 0x21e1cde6
    ∷ s 14 9 0xc33707d6
    ∷ s 3 14 0xf4d50d87
    ∷ s 8 20 0x455a14ed
    ∷ s 13 5 0xa9e3e905
    ∷ s 2 9 0xfcefa3f8
    ∷ s 7 14 0x676f02d9
    ∷ s 12 20 0x8d2a4c8a
    ∷ []

abbrev round3 : List Step
round3 =
    s 5 4 0xfffa3942
    ∷ s 8 11 0x8771f681
    ∷ s 11 16 0x6d9d6122
    ∷ s 14 23 0xfde5380c
    ∷ s 1 4 0xa4beea44
    ∷ s 4 11 0x4bdecfa9
    ∷ s 7 16 0xf6bb4b60
    ∷ s 10 23 0xbebfbc70
    ∷ s 13 4 0x289b7ec6
    ∷ s 0 11 0xeaa127fa
    ∷ s 3 16 0xd4ef3085
    ∷ s 6 23 0x4881d05
    ∷ s 9 4 0xd9d4d039
    ∷ s 12 11 0xe6db99e5
    ∷ s 15 16 0x1fa27cf8
    ∷ s 2 23 0xc4ac5665
    ∷ []

abbrev round4 : List Step
round4 =
    s 0 6 0xf4292244
    ∷ s 7 10 0x432aff97
    ∷ s 14 15 0xab9423a7
    ∷ s 5 21 0xfc93a039
    ∷ s 12 6 0x655b59c3
    ∷ s 3 10 0x8f0ccc92
    ∷ s 10 15 0xffeff47d
    ∷ s 1 21 0x85845dd1
    ∷ s 8 6 0x6fa87e4f
    ∷ s 15 10 0xfe2ce6e0
    ∷ s 6 15 0xa3014314
    ∷ s 13 21 0x4e0811a1
    ∷ s 4 6 0xf7537e82
    ∷ s 11 10 0xbd3af235
    ∷ s 2 15 0x2ad7d2bb
    ∷ s 9 21 0xeb86d391
    ∷ []

unfoldable pub transform : State → List ℕ → State
unfolding run_round step_word f_basic g_basic h_basic i_basic decode
transform st block =
    let x = decode block in
    let r1 = run_round f_basic x round1 st in
    let r2 = run_round g_basic x round2 r1 in
    let r3 = run_round h_basic x round3 r2 in
    let r = run_round i_basic x round4 r3 in
    record {
      a = u32 (st.a + r.a);
      b = u32 (st.b + r.b);
      c = u32 (st.c + r.c);
      d = u32 (st.d + r.d);
    }
