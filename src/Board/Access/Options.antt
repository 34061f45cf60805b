-- ===== src/Board/Access/Options.antt =====
-- `WriteOptionBit`: one bit of an option memory, for who knows the option's password.
use softupdate.Prelude.{
  ℕ, zero, suc, ◌+◌, ◌%◌, Bool, true, false, ◌||◌, not, Option, none, some, List, [], ◌∷◌, ◌++◌,
  if◌then◌else◌, length, take, drop, replicate, get_or, set,
}
use softupdate.Prelude.Int.{ℤ, pos, negsuc, ◌+ℤ◌, ltb_ℤ}
use softupdate.Eeprom.{Reply, reply}
use softupdate.Board.Bit.{bit_option_deal}
use softupdate.Board.Usb.{ind2sn, get_boardres_type}
use softupdate.Board.Net.{read_option_buffer_index, write_option_buffer_index}
use softupdate.Board.Panel.{read_option_buffer, write_option_buffer}
use softupdate.Board.Password.{check_pwd}
use softupdate.Board.Access.{
  Machine, option_start, index_valid, div8, mod8, by_ftdi, read_option_buffer_index_40g,
  write_option_buffer_index_40g,
}
pub mod Panels

pub record OptionInfo : Type 0 where
  pub offset : ℤ
  pub sz_pwd : List ℕ
  pub value : ℤ
  pub index : ℤ

-- The byte of the buffer with the bit changed, cast to `UCHAR`.
pub changed_byte : List ℕ → ℕ → OptionInfo → ℕ
unfolding bit_option_deal
changed_byte buf count o = bit_option_deal (get_or buf count 0) (mod8 o.offset) o.value % 256

-- What follows the test of the password, if that comes to its end.
pub if_accepted : {W : Type 0} → Option Bool → Option (ℤ × W) → W → Option (ℤ × W)
if_accepted none changed w = none
if_accepted (some true) changed w = changed
if_accepted (some false) changed w = some (pos 21, w)

module _ {W : Type 0} (m : Machine W) where
  accepts : OptionInfo → List ℕ → List ℕ → Option Bool
  unfolding check_pwd
  accepts o mac ser_all = check_pwd m.stack o.offset o.sz_pwd mac ser_all

  -- A board behind the FTDI chip: the MAC is all zeros, the serial number the USB one.
  change_ftdi : OptionInfo → ℕ → Option (Reply W) → Option (ℤ × W)
  unfolding changed_byte
  change_ftdi o count none = none
  change_ftdi o count (some r) = elim r.code [
    | pos zero ↦
        write_option_buffer_index_40g m (changed_byte r.bytes count o ∷ []) (pos count) (pos 1)
          o.index r.after
    | _ ↦ some (r.code, r.after)
  ]

  ftdi_bit : OptionInfo → ℕ → (ℤ × List ℕ) × W → Option (ℤ × W)
  unfolding accepts change_ftdi if_accepted
  ftdi_bit o count ((pos zero, sn), w) =
      if_accepted (accepts o (replicate 6 0) (take 15 sn ++ (0 ∷ [])))
        (change_ftdi o count (read_option_buffer_index_40g m (pos 0) (pos 14) o.index w)) w
  ftdi_bit o count ((code, sn), w) = some (code, w)

  ftdi_count : OptionInfo → ℤ → W → Option (ℤ × W)
  unfolding ftdi_bit
  ftdi_count o (pos count) w =
      if ltb_ℤ (pos count) (pos 14)
      then ftdi_bit o count (ind2sn m.host o.index w)
      else some (pos 1, w)
  ftdi_count o (negsuc n) w = some (pos 1, w)

  -- Any other board: both lie in its option memory.
  net_bit : OptionInfo → ℕ → Option (Reply W) → Option (ℤ × W)
  unfolding accepts changed_byte if_accepted
  net_bit o count none = none
  net_bit o count (some r) = elim r.code [
    | pos zero ↦
        if_accepted (accepts o (take 6 r.bytes) (take 15 (drop 32 r.bytes) ++ (0 ∷ [])))
          (write_option_buffer_index m.host (changed_byte r.bytes count o ∷ []) (pos count) (pos 1)
            o.index r.after)
          r.after
    | _ ↦ some (r.code, r.after)
  ]

  -- The panel: the whole memory is written back.
  panel_bit : OptionInfo → ℕ → Option (Reply W) → Option (ℤ × W)
  unfolding accepts changed_byte if_accepted
  panel_bit o count none = none
  panel_bit o count (some r) = elim r.code [
    | pos zero ↦
        if_accepted (accepts o (take 6 r.bytes) (take 14 (drop 16 r.bytes) ++ (0 ∷ 0 ∷ [])))
          (write_option_buffer m.susi (set r.bytes count (changed_byte r.bytes count o)) (pos 0)
            (pos 255) r.after)
          r.after
    | _ ↦ some (r.code, r.after)
  ]

  board_bit : OptionInfo → ℕ → W → Option (ℤ × W)
  unfolding ftdi_count net_bit
  board_bit o count w =
      let (kind, w1) = get_boardres_type m.host o.index w in
      if by_ftdi kind
      then ftdi_count o (div8 o.offset) w1
      else net_bit o count (read_option_buffer_index m.host (pos 0) (pos 255) o.index w1)

  option_bit_at : OptionInfo → ℤ → W → Option (ℤ × W)
  unfolding board_bit panel_bit
  option_bit_at o (pos count) w =
      if ltb_ℤ (pos count) (pos option_start) || not (ltb_ℤ (pos count) (pos 255))
      then some (pos 1, w)
      else if index_valid o.index
      then board_bit o count w
      else panel_bit o count (read_option_buffer m.susi (pos 0) (pos 255) w)
  option_bit_at o (negsuc n) w = some (pos 1, w)

  -- `iCount` is the byte of the bit, from 0x30 on.
  unfoldable pub write_option_bit : OptionInfo → W → Option (ℤ × W)
  unfolding option_bit_at ◌+ℤ◌
  write_option_bit o w = option_bit_at o (div8 o.offset +ℤ pos option_start) w
