-- ===== src/Board/Password.antt =====
-- `CheckPwd`: an option's password comes from its offset and the board's MAC and serial number.
use softupdate.Prelude.{
  ℕ, zero, suc, ◌+◌, ◌-◌, ◌^◌, ◌≤◌, ◌*◌, ◌%◌, ◌<◌, ◌≡◌, ◌↔◌, refl, ap, sym, ◌∙◌, Bool, true, Option,
  none, some, List, [], ◌∷◌, ◌++◌, arith, ltb, if◌then◌else◌, length, take, replicate, bytes_eq,
  bytes_eq_refl, bytes_eq_sound,
}
use mathlib.Core.Path.{subst}
use softupdate.Prelude.Int.{ℤ, pos, negsuc}
use softupdate.Md5.Context.{md5_data, md_bytes}
use softupdate.Md5.Digest.{md_bytes_shape, md_bytes-eq-rfc, rfc_md5}
use softupdate.Board.Usb.{is_alnum}
use softupdate.Board.Hex.{c_str}
pub mod Accepted

-- A letter or a digit for a number below 62.
unfoldable pub password_char : ℕ → ℕ
password_char tmp = if ltb tmp 26 then 65 + tmp else if ltb tmp 36 then 22 + tmp else 61 + tmp

-- The loop over the pairs of checksum bytes.
unfoldable pub password_chars : List ℕ → List ℕ
unfolding password_char
password_chars (lo ∷ hi ∷ rest) = password_char ((hi * 256 + lo) % 62) ∷ password_chars rest
password_chars _ = []

-- `offset % 62` as a byte: C's remainder has the sign of the offset.
abbrev pub fill_byte : ℤ → ℕ
fill_byte (pos n) = n % 62
fill_byte (negsuc n) = (256 - (n + 1) % 62) % 256

-- `offset + 10` bytes; below 0 the `memset` gets a huge size.
abbrev pub fill_count : ℤ → Option ℕ
fill_count (pos n) = some (n + 10)
fill_count (negsuc n) = if ltb n 10 then some (9 - n) else none

-- What is hashed: the MAC, the fill, the serial number.
abbrev pub password_text : ℕ → ℤ → List ℕ → List ℕ → List ℕ
password_text count offset mac sn = mac ++ (replicate count (fill_byte offset) ++ sn)

-- `stack` is what the MD5 context holds before its first use.
unfoldable pub password : List ℕ → ℕ → ℤ → List ℕ → List ℕ → List ℕ
unfolding password_chars
password stack count offset mac sn =
    password_chars (md5_data stack (password_text count offset mac sn))

-- `memcmp(password, stOptTbl.sz_pwd, 8)`; the serial number ends at its NUL.
unfoldable pub check_pwd : List ℕ → ℤ → List ℕ → List ℕ → List ℕ → Option Bool
unfolding password c_str
check_pwd stack offset pwd mac ser_all = elim (fill_count offset) [
  | none ↦ none
  | some count ↦ some (bytes_eq (password stack count offset mac (c_str ser_all)) (take 8 pwd))
]
