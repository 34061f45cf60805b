-- ===== src/Md5/Tests.antt =====
-- RFC 1321's test suite, run on the model.
use softupdate.Prelude.{◌≡◌, refl, List, ℕ, ◌%◌, [], ◌∷◌, ◌++◌, replicate, arith, length}
use softupdate.Md5.Context.{
  md_bytes, md5_data, init, update, final, transform_blocks, count_hi, count_lo,
}
use softupdate.Md5.Codec.{encode}
use softupdate.Md5.Transform.{transform}
use softupdate.Md5.Streaming.{Represents, update-Represents}
use softupdate.Md5.Digest.{rfc_md5, padded, length-padded, md_bytes-eq-rfc, init-Represents}

abbrev junk : List ℕ
junk = replicate 64 7

md_bytes_empty :
    md_bytes junk []
    ≡ 0xd4 ∷ 0x1d ∷ 0x8c ∷ 0xd9 ∷ 0x8f ∷ 0x00 ∷ 0xb2 ∷ 0x04 ∷ 0xe9 ∷ 0x80 ∷ 0x09 ∷ 0x98 ∷ 0xec
      ∷ 0xf8 ∷ 0x42 ∷ 0x7e ∷ []
unfolding md_bytes init update final transform_blocks count_hi count_lo encode transform
md_bytes_empty = refl

md_bytes_abc :
    md_bytes junk (b'a' ∷ b'b' ∷ b'c' ∷ [])
    ≡ 0x90 ∷ 0x01 ∷ 0x50 ∷ 0x98 ∷ 0x3c ∷ 0xd2 ∷ 0x4f ∷ 0xb0 ∷ 0xd6 ∷ 0x96 ∷ 0x3f ∷ 0x7d ∷ 0x28
      ∷ 0xe1 ∷ 0x7f ∷ 0x72 ∷ []
unfolding md_bytes init update final transform_blocks count_hi count_lo encode transform
md_bytes_abc = refl

-- The theorems at inputs.
update-Represents_example :
    Represents ([] ++ (b'a' ∷ b'b' ∷ [])) (update (init junk) (b'a' ∷ b'b' ∷ []))
update-Represents_example =
    update-Represents [] (b'a' ∷ b'b' ∷ []) (init junk) (init-Represents junk refl) (omega arith)

md_bytes-eq-rfc_example :
    (md_bytes junk (b'a' ∷ []) ≡ rfc_md5 (b'a' ∷ []))
    × (md5_data junk (b'a' ∷ []) ≡ rfc_md5 (b'a' ∷ []))
md_bytes-eq-rfc_example = md_bytes-eq-rfc junk (b'a' ∷ []) refl (omega arith)

length-padded_example : length (padded (b'a' ∷ [])) % 64 ≡ 0
length-padded_example = length-padded (b'a' ∷ [])
