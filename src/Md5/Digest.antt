-- ===== src/Md5/Digest.antt =====
-- `MD5Final`, `MDBytes` and `MD5Data` against the definition of MD5 on whole messages (RFC 1321,
-- sections 3.1 to 3.5): pad to whole blocks, run over the blocks, write the state.
use softupdate.Prelude.{
  ℕ, zero, suc, ◌+◌, ◌-◌, ◌*◌, ◌/◌, ◌%◌, ◌^◌, ◌≤◌, ◌≡◌, refl, ap, ◌∙◌, List, [], ◌∷◌, ◌++◌, arith,
  length, take, replicate, length-append, length-replicate,
}
use softupdate.Md5.Codec.{encode, length-encode, encode-AllLt, AllLt}
use softupdate.Md5.Context.{
  Context, initial, init, update, final, md_bytes, md5_data, padding, state_words, pad_len,
}
use softupdate.Md5.Blocks.{absorb}
use softupdate.Md5.Streaming.{Represents, update-Represents}

-- The `k` low bytes of `n`, the lowest first.
abbrev pub le_bytes : ℕ → ℕ → List ℕ
le_bytes zero n = []
le_bytes (suc k) n = n % 2 ^ 8 ∷ le_bytes k (n / 2 ^ 8)

-- One bit, zeros up to 8 bytes before the end of a block, and the bit count in 8 bytes.
abbrev pub zeros_for : ℕ → ℕ
zeros_for n = (119 - n % 64) % 64

unfoldable pub padded : List ℕ → List ℕ
padded m = m ++ (0x80 ∷ replicate (zeros_for (length m)) 0) ++ le_bytes 8 (8 * length m)

unfoldable pub rfc_md5 : List ℕ → List ℕ
rfc_md5 m = encode (state_words (absorb (length (padded m) / 64) initial (padded m)))

-- A padded message is whole blocks, and the message is its beginning.
pub length-padded : (m : List ℕ) → length (padded m) % 64 ≡ 0
unfolding padded
length-padded m = omega (
  arith,
  length-append (m ++ (0x80 ∷ replicate (zeros_for (length m)) 0)) (le_bytes 8 (8 * length m)),
  length-append m (0x80 ∷ replicate (zeros_for (length m)) 0),
  length-replicate {A = ℕ} (zeros_for (length m)) 0,
)

take-replicate : (k n a : ℕ) → k ≤ n → take k (replicate n a) ≡ replicate k a
take-replicate zero n a h = refl
take-replicate (suc k) zero a h = absurd (omega arith)
take-replicate (suc k) (suc n) a h = ap (λ t. a ∷ t) (take-replicate k n a (omega arith))

padding_bytes : (n : ℕ) → take (pad_len (n % 64)) padding ≡ 0x80 ∷ replicate (zeros_for n) 0
unfolding pad_len
padding_bytes n =
    ap (λ k. take k padding) whole
    ∙ ap (λ t. 0x80 ∷ t) (take-replicate (zeros_for n) 63 0 (omega arith))
  where
    whole : pad_len (n % 64) ≡ suc (zeros_for n)
    whole = ground arith

count_bytes :
    (n lo hi : ℕ)
    → lo ≡ n % 2 ^ 32
    → hi ≡ n / 2 ^ 32 % 2 ^ 32
    → encode (lo ∷ hi ∷ []) ≡ le_bytes 8 n
unfolding encode
count_bytes n lo hi p q = ground arith

-- A new context stands for the empty message, whatever its buffer held.
pub init-Represents : (stack : List ℕ) → length stack ≡ 64 → Represents [] (init stack)
unfolding init absorb
init-Represents stack h = record {
  state = refl;
  room = h;
  tail = refl;
  lo = omega arith;
  hi = omega arith;
}

final_lem : (m : List ℕ) (c : Context) → Represents m c → (final c).0 ≡ rfc_md5 m
unfolding final rfc_md5 padded
final_lem m c r =
    ap (λ st. encode (state_words st))
      (rw (bytes, index, padding_bytes (length m))
        (update-Represents (m ++ pad) (le_bytes 8 (8 * length m)) (update c pad)
          (update-Represents m pad c r
            (omega (arith, length-replicate {A = ℕ} (zeros_for (length m)) 0)))
          (omega arith)).state)
  where
    pad : List ℕ
    pad = 0x80 ∷ replicate (zeros_for (length m)) 0

    index : c.lo / 8 % 64 ≡ length m % 64
    index = omega (arith, r.lo)

    bytes : encode (c.lo ∷ c.hi ∷ []) ≡ le_bytes 8 (8 * length m)
    bytes = count_bytes (8 * length m) c.lo c.hi r.lo r.hi

-- `MDBytes` and `MD5Data` compute the MD5 digest of every message whose length plus 64 fits 32
-- bits, whatever the 64 bytes of the context's buffer held.
pub md_bytes-eq-rfc :
    (stack m : List ℕ)
    → length stack ≡ 64
    → length m + 64 ≤ 2 ^ 32
    → (md_bytes stack m ≡ rfc_md5 m) × (md5_data stack m ≡ rfc_md5 m)
unfolding md_bytes md5_data
md_bytes-eq-rfc stack m room small = (digest, digest)
  where
    digest : (final (update (init stack) m)).0 ≡ rfc_md5 m
    digest =
        final_lem m (update (init stack) m)
          (update-Represents [] m (init stack) (init-Represents stack room) small)

-- A digest is 16 bytes.
pub md_bytes_shape :
    (stack m : List ℕ) → (length (md_bytes stack m) ≡ 16) × AllLt 256 (md_bytes stack m)
unfolding md_bytes final
md_bytes_shape stack m = (length-encode _, encode-AllLt _)
