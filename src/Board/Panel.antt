-- ===== src/Board/Panel.antt =====
-- The panel's own options: `ReadOptionBuffer`, `WriteOptionBuffer`, and the MAC and the serial
-- number that lie among them.
use softupdate.Prelude.{
  ℕ, zero, suc, ◌+◌, ◌-◌, ◌%◌, ◌^◌, Bool, true, false, ◌||◌, not, Option, none, some, List, [], ◌∷◌,
  if◌then◌else◌, replicate,
}
use softupdate.Prelude.Int.{ℤ, pos, negsuc, ltb_ℤ}
use softupdate.Eeprom.{Reply, reply, eeprom_open, eeprom_close, eeprom_read_buf, eeprom_write_buf}
use softupdate.Eeprom.Smbus.{Susi}
pub mod Identity

abbrev pub e2prom_option_size : ℕ
e2prom_option_size = 256

-- `(iLen > E2PROM_OPTION_SIZE) || (iLen <= 0)`
bad_length : ℤ → Bool
bad_length len = ltb_ℤ (pos e2prom_option_size) len || not (ltb_ℤ (pos 0) len)

-- The conversion of an `int` to `unsigned int`.
unfoldable pub to_uint : ℤ → ℕ
to_uint (pos n) = n % 2 ^ 32
to_uint (negsuc n) = (2 ^ 32 - 1 - n % 2 ^ 32)

module _ {W : Type 0} (susi : Susi W) where
  read_code : ℤ → ℤ
  read_code (pos zero) = pos 0
  read_code _ = pos 5

  write_code : ℤ → ℤ
  write_code (pos zero) = pos 0
  write_code _ = pos 19

  closed_read : Option (Reply W) → Option (Reply W)
  unfolding read_code eeprom_close
  closed_read none = none
  closed_read (some r) = some (reply (read_code r.code) r.bytes (eeprom_close susi r.after).1)

  read_open : ℤ → ℤ → ℤ × W → Option (Reply W)
  unfolding closed_read eeprom_read_buf
  read_open start len (negsuc zero, w) = some (reply (pos 4) [] w)
  read_open start len (code, w) = closed_read (eeprom_read_buf susi (to_uint start) (to_uint len) w)

  unfoldable pub read_option_buffer : ℤ → ℤ → W → Option (Reply W)
  unfolding bad_length read_open eeprom_open
  read_option_buffer start len w =
      if bad_length len then some (reply (pos 3) [] w) else read_open start len (eeprom_open susi w)

  closed_write : Option (ℤ × W) → Option (ℤ × W)
  unfolding write_code eeprom_close
  closed_write none = none
  closed_write (some (code, w)) = some (write_code code, (eeprom_close susi w).1)

  write_open : List ℕ → ℤ → ℤ → ℤ × W → Option (ℤ × W)
  unfolding closed_write eeprom_write_buf
  write_open bytes start len (negsuc zero, w) = some (pos 4, w)
  write_open bytes start len (code, w) =
      closed_write (eeprom_write_buf susi (to_uint start) (to_uint len) bytes w)

  unfoldable pub write_option_buffer : List ℕ → ℤ → ℤ → W → Option (ℤ × W)
  unfolding bad_length write_open eeprom_open
  write_option_buffer bytes start len w =
      if bad_length len then some (pos 3, w) else write_open bytes start len (eeprom_open susi w)

  -- `none` for a NULL buffer is `NULL_POINTER_ERR`; else what the cleared buffer holds at the end.
  identity_bytes : ℕ → Option (Reply W) → Option (Reply W)
  identity_bytes n none = none
  identity_bytes n (some r) = elim r.code [
    | pos zero ↦ some r
    | _ ↦ some (reply r.code (replicate n 0) r.after)
  ]

  unfoldable pub read_mac : Bool → W → Option (Reply W)
  unfolding identity_bytes read_option_buffer
  read_mac false w = some (reply (negsuc 100) [] w)
  read_mac true w = identity_bytes 6 (read_option_buffer (pos 0) (pos 6) w)

  unfoldable pub read_serial_number : Bool → W → Option (Reply W)
  unfolding identity_bytes read_option_buffer
  read_serial_number false w = some (reply (negsuc 100) [] w)
  read_serial_number true w = identity_bytes 14 (read_option_buffer (pos 16) (pos 14) w)

  unfoldable pub write_mac : List ℕ → W → Option (ℤ × W)
  unfolding write_option_buffer
  write_mac mac w = write_option_buffer mac (pos 0) (pos 6) w

  unfoldable pub write_serial_number : List ℕ → W → Option (ℤ × W)
  unfolding write_option_buffer
  write_serial_number ser_no w = write_option_buffer ser_no (pos 16) (pos 14) w
