-- ===== src/Md5/Context.antt =====
-- md5checksum.cpp: `MD5Init`, `MD5Update`, `MD5Final`, `MDBytes` and `MD5Data`.
use softupdate.Prelude.{
  ℕ, zero, suc, ◌+◌, ◌-◌, ◌*◌, ◌/◌, ◌%◌, ◌^◌, List, [], ◌∷◌, true, false, ltb, leb, if◌then◌else◌,
  length, take, drop, replicate, overwrite,
}
use softupdate.Md5.Words.{u32}
use softupdate.Md5.Codec.{encode}
use softupdate.Md5.Transform.{State, transform}

-- `MD5_CTX`; `lo` and `hi` are `count[0]` and `count[1]`.
pub record Context : Type 0 where
  pub state : State
  pub lo : ℕ
  pub hi : ℕ
  pub buffer : List ℕ

abbrev pub initial : State
initial = record { a = 0x67452301; b = 0xefcdab89; c = 0x98badcfe; d = 0x10325476 }

-- The buffer is left as it lay on the stack.
unfoldable pub init : List ℕ → Context
init stack = record { state = initial; lo = 0; hi = 0; buffer = stack }

-- `for (i = partLen; i + 63 < inputLen; i += 64) MD5Transform(state, &input[i])`, on fuel; the
-- sum wraps as `unsigned int` does. The result is the last `i` and the state.
unfoldable pub transform_blocks : ℕ → List ℕ → ℕ → State → ℕ × State
transform_blocks zero input i st = (i, st)
transform_blocks (suc k) input i st = elim (ltb (u32 (i + 63)) (length input)) [
  | true ↦ transform_blocks k input (i + 64) (transform st (take 64 (drop i input)))
  | false ↦ (i, st)
]

-- `count[0] += len << 3`, with the carry into `count[1]`, and `count[1] += len >> 29`.
unfoldable pub count_lo : ℕ → ℕ → ℕ
count_lo lo len = u32 (lo + u32 (len * 8))

unfoldable pub count_hi : ℕ → ℕ → ℕ → ℕ
unfolding count_lo
count_hi lo hi len =
    let bumped = if ltb (count_lo lo len) (u32 (len * 8)) then u32 (hi + 1) else hi in
    u32 (bumped + len / 2 ^ 29)

unfoldable pub update : Context → List ℕ → Context
update ctx input =
    let len = length input in
    let index = ctx.lo / 8 % 64 in
    let lo = count_lo ctx.lo len in
    let hi = count_hi ctx.lo ctx.hi len in
    let part = 64 - index in
    let filled = overwrite ctx.buffer index (take part input) in
    let (i, st) = transform_blocks len input part (transform ctx.state filled) in
    if leb part len
    then record { state = st; lo = lo; hi = hi; buffer = overwrite filled 0 (drop i input) }
    else record { state = ctx.state; lo = lo; hi = hi; buffer = overwrite ctx.buffer index input }

-- `PADDING`
abbrev pub padding : List ℕ
padding = 0x80 ∷ replicate 63 0

abbrev pub state_words : State → List ℕ
state_words st = st.a ∷ st.b ∷ st.c ∷ st.d ∷ []

-- `MD5_memset(context, 0, sizeof(MD5_CTX))`
abbrev pub zeroed : Context
zeroed = record {
  state = record { a = 0; b = 0; c = 0; d = 0 };
  lo = 0;
  hi = 0;
  buffer = replicate 64 0;
}

unfoldable pub pad_len : ℕ → ℕ
pad_len index = if ltb index 56 then 56 - index else 120 - index

-- The digest, and what is left of the context.
unfoldable pub final : Context → List ℕ × Context
unfolding pad_len
final ctx =
    let bits = encode (ctx.lo ∷ ctx.hi ∷ []) in
    let padded = update ctx (take (pad_len (ctx.lo / 8 % 64)) padding) in
    let done = update padded bits in (encode (state_words done.state), zeroed)

-- `stack` is what the context's buffer held before.
unfoldable pub md_bytes : List ℕ → List ℕ → List ℕ
md_bytes stack input = (final (update (init stack) input)).0

-- `MD5Data` has the same body.
unfoldable pub md5_data : List ℕ → List ℕ → List ℕ
md5_data stack input = (final (update (init stack) input)).0
