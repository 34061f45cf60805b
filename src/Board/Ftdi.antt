-- ===== src/Board/Ftdi.antt =====
-- The option bytes of the 40G boards in the FTDI chip's EEPROM: `ft2232_checksum`, `read_options`,
-- `write_options` and `sys_init`.
use softupdate.Prelude.{
  ℕ, zero, suc, ◌+◌, ◌*◌, ◌/◌, ◌%◌, ◌<◌, ◌≡◌, Bool, true, false, Option, none, some, List, [], ◌∷◌,
  ◌==◌, if◌then◌else◌, bit_xor, bit_or, length, take, drop, get_or, overwrite,
}
use softupdate.Prelude.Int.{ℤ, pos, negsuc}
use softupdate.Md5.Codec.{AllLt}
use softupdate.Eeprom.{Reply, reply}
pub mod Options

-- The calls of libftdi on the global context, over the state `W` of the machine. A negative result
-- is `false` or `none`.
pub record Ftdi (W : Type 0) : Type 0 where
  pub init : W → Bool × W
  pub open_desc : List ℕ → W → Bool × W
  pub read_eeprom : W → Option (List ℕ) × W
  pub write_eeprom : List ℕ → W → Bool × W
  pub deinit : W → W

-- The chip's memory: 128 bytes that a read copies and a write replaces, and that opening and
-- closing the chip leave alone.
pub record Holds {W : Type 0} (ftdi : Ftdi W) (mem : W → List ℕ) : Type 0 where
  pub reads :
      (e : List ℕ) (w w1 : W) → ftdi.read_eeprom w ≡ (some e, w1) → (e ≡ mem w) × (mem w1 ≡ mem w)
  pub writes : (e : List ℕ) (w w1 : W) → ftdi.write_eeprom e w ≡ (true, w1) → mem w1 ≡ e
  pub size : (w : W) → length (mem w) ≡ 128

abbrev pub eeprom_size : ℕ
eeprom_size = 128

abbrev pub option_offset_ftdi : ℕ
option_offset_ftdi = 0x70

abbrev pub option_size_ftdi : ℕ
option_size_ftdi = 14

-- One round of the loop, on the 16 bits of `checksum`.
unfoldable pub mix_word : ℕ → ℕ → ℕ → ℕ
mix_word checksum lo hi =
    let value = (lo + hi * 256) % 65536 in
    let x = bit_xor value checksum in bit_or (x * 2) (x / 32768) % 65536

-- `n` rounds from the front of the bytes.
unfoldable pub checksum_words : ℕ → ℕ → List ℕ → ℕ
checksum_words zero c bytes = c
checksum_words (suc n) c (lo ∷ hi ∷ bytes) = checksum_words n (mix_word c lo hi) bytes
checksum_words (suc n) c _ = c

-- The last word holds the checksum itself.
unfoldable pub ft2232_checksum : List ℕ → ℕ
unfolding checksum_words
ft2232_checksum eeprom = checksum_words 63 0xAAAA eeprom

module _ {W : Type 0} (ftdi : Ftdi W) where
  -- `-1` for a checksum that differs, `EXIT_FAILURE` where the chip cannot be read.
  check_options : Option (List ℕ) × W → Reply W
  check_options (none, w) = reply (pos 1) [] w
  check_options (some eeprom, w) =
      let checksum = ft2232_checksum eeprom in
      let oldchecksum = bit_or (get_or eeprom 127 0 * 256) (get_or eeprom 126 0) in
      if checksum == oldchecksum
      then reply (pos 0) (take option_size_ftdi (drop option_offset_ftdi eeprom)) w
      else reply (negsuc 0) [] w

  unfoldable pub read_options : W → Reply W
  unfolding check_options
  read_options w = check_options (ftdi.read_eeprom w)

  -- The options, then the checksum of what has become of the first 126 bytes.
  unfoldable pub with_options : List ℕ → List ℕ → List ℕ
  with_options options eeprom =
      let changed = overwrite eeprom option_offset_ftdi options in
      let checksum = ft2232_checksum changed in
      overwrite changed 126 (checksum % 256 ∷ checksum / 256 % 256 ∷ [])

  write_status : Bool × W → ℤ × W
  write_status (true, w) = (pos 0, w)
  write_status (false, w) = (pos 1, w)

  replace_options : List ℕ → Option (List ℕ) × W → ℤ × W
  unfolding write_status
  replace_options options (none, w) = (pos 1, w)
  replace_options options (some eeprom, w) =
      write_status (ftdi.write_eeprom (with_options options eeprom) w)

  unfoldable pub write_options : List ℕ → W → ℤ × W
  unfolding replace_options write_status
  write_options options w = replace_options options (ftdi.read_eeprom w)

  open_status : Bool × W → ℤ × W
  open_status (true, w) = (pos 0, w)
  open_status (false, w) = (pos 4, w)

  opened : List ℕ → Bool × W → ℤ × W
  unfolding open_status
  opened sn (true, w) = open_status (ftdi.open_desc sn w)
  opened sn (false, w) = (pos 4, w)

  unfoldable pub sys_init : List ℕ → W → ℤ × W
  unfolding opened open_status
  sys_init sn w = opened sn (ftdi.init w)
