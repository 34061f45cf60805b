-- ===== src/Eeprom.antt =====
-- v400eeprom/v400eeprom.c: the panel's EEPROM behind the SUSI library's SMBus calls.
pub mod Smbus
pub mod Safety
pub mod Contents
pub mod Tests
use softupdate.Prelude.{
  ℕ, ◌+◌, ◌-◌, ◌≤◌, Bool, true, false, ◌&&◌, Option, none, some, List, [], ◌∷◌, ltb, ◌==◌,
  if◌then◌else◌, leb, min, length, take, overwrite, slice?, replicate,
}
use softupdate.Prelude.Int.{ℤ, pos, negsuc}
use Smbus.{Susi}

abbrev pub eeprom_i2c_addr : ℕ
eeprom_i2c_addr = 0xAE

abbrev pub eeprom_maxsize : ℕ
eeprom_maxsize = 255

-- The return codes 0 and -1.
abbrev pub success : ℤ
success = pos 0

abbrev pub failed : ℤ
failed = negsuc 0

-- What a call gives back: its code, the bytes that it wrote to the caller's buffer, the device.
pub record Reply (W : Type 0) : Type 0 where
  pub code : ℤ
  pub bytes : List ℕ
  pub after : W

abbrev pub reply : {W : Type 0} → ℤ → List ℕ → W → Reply W
reply c b w = record { code = c; bytes = b; after = w }

module _ {W : Type 0} (susi : Susi W) where
  unfoldable pub eeprom_open : W → ℤ × W
  eeprom_open w =
      let (up, w1) = susi.dll_init w in
      let (ready, w2) = susi.smbus_available w1 in
      let (_, w3) = susi.dll_uninit w2 in
      if up then if ready then (success, w2) else (failed, w3) else (failed, w1)

  unfoldable pub eeprom_close : W → ℤ × W
  eeprom_close w =
      let (down, w1) = susi.dll_uninit w in if down then (success, w1) else (failed, w1)

  unfoldable pub eeprom_read_byte : ℕ → W → Reply W
  eeprom_read_byte addr w =
      let (r, w1) = susi.read_byte eeprom_i2c_addr addr w in
      elim r [ some b ↦ reply success (b ∷ []) w1 | none ↦ reply failed [] w1 ]

  unfoldable pub eeprom_write_byte : ℕ → ℕ → W → ℤ × W
  eeprom_write_byte addr b w =
      let (done, w1) = susi.write_byte eeprom_i2c_addr addr b w in
      if done then (success, w1) else (failed, w1)

  -- The whole memory into the local `pBuf`.
  unfoldable pub read_all : W → Option (List ℕ) × W
  read_all w = susi.read_multi eeprom_i2c_addr 0 eeprom_maxsize w

  -- `none` is a copy that runs past the local buffer.
  copy_out : ℕ → ℕ → Option (List ℕ) × W → Option (Reply W)
  copy_out start len (none, w) = some (reply failed [] w)
  copy_out start len (some block, w) = elim (slice? block start len) [
    | none ↦ none
    | some bytes ↦ some (reply success bytes w)
  ]

  direct_read : Option (List ℕ) × W → Reply W
  direct_read (none, w) = reply failed [] w
  direct_read (some block, w) = reply success block w

  unfoldable pub eeprom_read_buf : ℕ → ℕ → W → Option (Reply W)
  unfolding copy_out direct_read read_all
  eeprom_read_buf start len0 w =
      let len = min len0 eeprom_maxsize in
      if (start == 0) && (len == eeprom_maxsize)
      then some (direct_read (susi.read_multi eeprom_i2c_addr start len w))
      else copy_out start len (read_all w)

  write_code : Bool × W → ℤ × W
  write_code (true, w) = (success, w)
  write_code (false, w) = (failed, w)

  -- `none` is a copy that runs past `pBuf`.
  splice : ℕ → List ℕ → List ℕ → W → Option (ℤ × W)
  unfolding write_code
  splice start bytes block w =
      if leb (start + length bytes) (length block)
      then some (write_code (susi.write_multi eeprom_i2c_addr 0 (overwrite block start bytes) w))
      else none

  -- Read, change and write back; `none` also stands for a read past the caller's buffer.
  rewrite : ℕ → ℕ → List ℕ → Option (List ℕ) × W → Option (ℤ × W)
  unfolding splice write_code
  rewrite start len buf (none, w) = some (failed, w)
  rewrite start len buf (some block, w) = elim (slice? buf 0 len) [
    | none ↦ none
    | some bytes ↦ splice start bytes block w
  ]

  direct_write : ℕ → Option (List ℕ) → W → Option (ℤ × W)
  unfolding write_code
  direct_write start none w = none
  direct_write start (some bytes) w =
      some (write_code (susi.write_multi eeprom_i2c_addr start bytes w))

  unfoldable pub eeprom_write_buf : ℕ → ℕ → List ℕ → W → Option (ℤ × W)
  unfolding rewrite direct_write read_all
  eeprom_write_buf start len0 buf w =
      let len = min len0 eeprom_maxsize in
      if (start == 0) && (len == eeprom_maxsize)
      then direct_write start (slice? buf 0 len) w
      else rewrite start len buf (read_all w)
