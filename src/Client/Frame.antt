-- ===== src/Client/Frame.antt =====
-- `FrameHeader` and `ClientBase::CreateFrame`: 16 bytes of hash, 8 of application flag, the data's
-- length and the type in 4 bytes each with the lowest first, and the data.
use softupdate.Prelude.{
  ℕ, zero, suc, ◌+◌, ◌*◌, ◌/◌, ◌%◌, ◌^◌, ◌<◌, ◌≡◌, refl, ap, ◌∙◌, Option, none, some, List, [], ◌∷◌,
  ◌++◌, arith, length, take, drop, overwrite, replicate, drop-append, take-append, take-all,
  drop-drop,
}
use softupdate.Text.{codes}
use softupdate.Md5.Context.{md_bytes}
use softupdate.Md5.Digest.{md_bytes_shape}

-- A 4-byte number in memory, and its value.
unfoldable pub le4 : ℕ → List ℕ
le4 n = n % 256 ∷ n / 256 % 256 ∷ n / 65536 % 256 ∷ n / 16777216 % 256 ∷ []

unfoldable pub le4_value : List ℕ → ℕ
le4_value (a ∷ b ∷ c ∷ d ∷ _) = a + b * 256 + c * 65536 + d * 16777216
le4_value _ = 0

-- "CX180" in a field of 8 zeros.
abbrev pub app_flag : List ℕ
app_flag = codes "CX180"

abbrev pub frame_header : List ℕ → ℕ → ℕ → List ℕ
frame_header hash data_length type =
    hash ++ (app_flag ++ (0 ∷ 0 ∷ 0 ∷ (le4 data_length ++ le4 type)))

-- The fields of 32 bytes.
abbrev pub md5_hash : List ℕ → List ℕ
md5_hash frame = take 16 frame

unfoldable pub data_length_of : List ℕ → ℕ
unfolding le4_value
data_length_of frame = le4_value (drop 24 frame)

unfoldable pub type_of : List ℕ → ℕ
unfolding le4_value
type_of frame = le4_value (drop 28 frame)

-- The data is copied behind the header, the 16 bytes of the hash over everything behind them come
-- last. `stack` is what the MD5 context holds before its first use.
filled : List ℕ → List ℕ → List ℕ
filled stack buffer = overwrite buffer 0 (md_bytes stack (drop 16 buffer))

unfoldable pub create_frame : List ℕ → Option (List ℕ) → ℕ → ℕ → Option (List ℕ)
unfolding filled
create_frame stack none zero type = some (filled stack (frame_header (replicate 16 0) 0 type))
create_frame stack none (suc length) type = none
create_frame stack (some bytes) length type =
    some (filled stack (frame_header (replicate 16 0) length type ++ take length bytes))

le4_value-le4 : (n : ℕ) (rest : List ℕ) → n < 2 ^ 32 → le4_value (le4 n ++ rest) ≡ n
unfolding le4_value le4
le4_value-le4 n rest h = omega arith

-- What is hashed: the header behind the hash, and the data.
abbrev pub hashed : ℕ → ℕ → List ℕ → List ℕ
hashed data_length type bytes = app_flag ++ (0 ∷ 0 ∷ 0 ∷ (le4 data_length ++ (le4 type ++ bytes)))

-- A frame with its hash.
abbrev pub sealed : List ℕ → ℕ → ℕ → List ℕ → List ℕ
sealed hash data_length type bytes = hash ++ hashed data_length type bytes

-- `CreateFrame` gives the hash of the rest of the frame, the flag, the length, the type and the
-- data.
pub create_frame-sealed :
    (stack bytes : List ℕ) (type : ℕ)
    → create_frame stack (some bytes) (length bytes) type
      ≡ some (sealed (md_bytes stack (hashed (length bytes) type bytes)) (length bytes) type bytes)
unfolding create_frame filled le4
create_frame-sealed stack bytes type =
    rw
      (
        take-all bytes (length bytes) (omega arith),
        (md_bytes_shape stack (hashed (length bytes) type bytes)).0,
      )
      refl

module _ (hash bytes : List ℕ) (n type : ℕ) (sixteen : length hash ≡ 16) where
  pub md5_hash-sealed : md5_hash (sealed hash n type bytes) ≡ hash
  md5_hash-sealed = take-append hash (hashed n type bytes) 16 sixteen

  pub drop-sealed : drop 16 (sealed hash n type bytes) ≡ hashed n type bytes
  drop-sealed = drop-append hash (hashed n type bytes) 16 sixteen

  behind : (j k : ℕ) → k ≡ 16 + j → drop k (sealed hash n type bytes) ≡ drop j (hashed n type bytes)
  behind j k h = drop-drop 16 j k (sealed hash n type bytes) h ∙ ap (drop j) drop-sealed

  pub data_length_of-sealed : n < 2 ^ 32 → data_length_of (sealed hash n type bytes) ≡ n
  unfolding data_length_of le4
  data_length_of-sealed small =
      ap le4_value (behind 8 24 refl) ∙ le4_value-le4 n (le4 type ++ bytes) small

  pub type_of-sealed : type < 2 ^ 32 → type_of (sealed hash n type bytes) ≡ type
  unfolding type_of le4
  type_of-sealed small = ap le4_value (behind 12 28 refl) ∙ le4_value-le4 type bytes small
