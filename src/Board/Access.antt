-- ===== src/Board/Access.antt =====
-- `ReadModuleBuf`, `WriteModuleBuf` and `WriteOptionBit`: the module memories behind their three
-- ways of access (the 40G boards' FTDI chip, the other boards' network interface, the panel).
use softupdate.Prelude.{
  ℕ, zero, suc, ◌+◌, ◌/◌, ◌%◌, Bool, true, false, ◌&&◌, ◌||◌, not, Option, none, some, List, [],
  ◌∷◌, ◌++◌, leb, ltb, ◌==◌, if◌then◌else◌, length, take, drop, replicate, get_or, set, overwrite,
}
use softupdate.Prelude.Int.{ℤ, pos, negsuc, ◌+ℤ◌, ltb_ℤ}
use softupdate.Text.{negate}
use softupdate.Eeprom.{Reply, reply}
use softupdate.Eeprom.Smbus.{Susi}
use softupdate.Board.Host.{Host}
use softupdate.Board.Hex.{c_str}
use softupdate.Board.Bit.{bit_option_deal}
use softupdate.Board.Ftdi.{Ftdi, read_options, write_options, sys_init}
use softupdate.Board.Usb.{
  BoardType, unknown, board_40g, board_40ge, board_10g, board_2g5, board_1ge, board_100ge,
  board_16g, ind2sn, get_boardres_type,
}
use softupdate.Board.Net.{read_option_buffer_index, write_option_buffer_index}
use softupdate.Board.Panel.{read_option_buffer, write_option_buffer}
use softupdate.Board.Password.{check_pwd}
pub mod Options

-- The libraries that the server is linked with, and what the stack holds where MD5 runs.
pub record Machine (W : Type 0) : Type 0 where
  pub host : Host W
  pub ftdi : Ftdi W
  pub susi : Susi W
  pub stack : List ℕ

abbrev pub option_start : ℕ
option_start = 0x30

-- `IndexValid`
abbrev pub index_valid : ℤ → Bool
index_valid (pos n) = leb n 5
index_valid (negsuc n) = false

-- C's division and remainder by 8.
abbrev pub div8 : ℤ → ℤ
div8 (pos n) = pos (n / 8)
div8 (negsuc n) = negate (suc n / 8)

abbrev pub mod8 : ℤ → ℤ
mod8 (pos n) = pos (n % 8)
mod8 (negsuc n) = negate (suc n % 8)

-- The types that are reached through the FTDI chip.
abbrev pub by_ftdi : BoardType → Bool
by_ftdi board_40g = true
by_ftdi board_2g5 = true
by_ftdi _ = false

module _ {W : Type 0} (m : Machine W) where
  deinit_with : ℤ → W → Option (Reply W)
  deinit_with code w = some (reply code [] (m.ftdi.deinit w))

  -- `memcpy(buff, temp + start, iLen)`; a negative start or length leaves `temp`.
  options_part : ℤ → ℤ → Reply W → Option (Reply W)
  unfolding deinit_with
  options_part (pos start) (pos len) r = elim r.code [
    | pos zero ↦ some (reply (pos 0) (take len (drop start r.bytes)) (m.ftdi.deinit r.after))
    | _ ↦ deinit_with r.code r.after
  ]
  options_part start len r = elim r.code [ pos zero ↦ none | _ ↦ deinit_with r.code r.after ]

  -- A failed `sys_init` returns without `ftdi_deinit`.
  read_started : ℤ → ℤ → ℤ × W → Option (Reply W)
  unfolding options_part read_options
  read_started start len (pos zero, w) = options_part start len (read_options m.ftdi w)
  read_started start len (code, w) = some (reply code [] w)

  read_serial_at : ℤ → ℤ → (ℤ × List ℕ) × W → Option (Reply W)
  unfolding read_started sys_init
  read_serial_at start len ((pos zero, sn), w) =
      read_started start len (sys_init m.ftdi (c_str sn) w)
  read_serial_at start len ((code, sn), w) = some (reply code [] w)

  unfoldable pub read_option_buffer_index_40g : ℤ → ℤ → ℤ → W → Option (Reply W)
  unfolding read_serial_at ind2sn
  read_option_buffer_index_40g start len index w =
      if ltb_ℤ (pos 14) (start +ℤ len)
      then some (reply (pos 1) [] w)
      else read_serial_at start len (ind2sn m.host index w)

  closed_write : ℤ × W → Option (ℤ × W)
  closed_write (code, w) = some (code, m.ftdi.deinit w)

  put_options : List ℕ → ℤ → ℤ → List ℕ → W → Option (ℤ × W)
  unfolding closed_write write_options
  put_options bytes (pos start) (pos len) temp w =
      if leb len (length bytes)
      then closed_write (write_options m.ftdi (overwrite temp start (take len bytes)) w)
      else none
  put_options bytes start len temp w = none

  -- The options are read first unless all of them are given.
  merge_options : List ℕ → ℤ → ℤ → Reply W → Option (ℤ × W)
  unfolding put_options
  merge_options bytes start len r = elim r.code [
    | pos zero ↦ put_options bytes start len r.bytes r.after
    | _ ↦ some (r.code, m.ftdi.deinit r.after)
  ]

  is_whole : ℤ → ℤ → Bool
  is_whole (pos start) (pos len) = (start == 0) && (len == 14)
  is_whole start len = false

  write_started : List ℕ → ℤ → ℤ → ℤ × W → Option (ℤ × W)
  unfolding merge_options put_options is_whole
  write_started bytes start len (pos zero, w) =
      if is_whole start len
      then put_options bytes start len (replicate 14 0) w
      else merge_options bytes start len (read_options m.ftdi w)
  write_started bytes start len (code, w) = some (code, w)

  write_serial_at : List ℕ → ℤ → ℤ → (ℤ × List ℕ) × W → Option (ℤ × W)
  unfolding write_started sys_init
  write_serial_at bytes start len ((pos zero, sn), w) =
      write_started bytes start len (sys_init m.ftdi (c_str sn) w)
  write_serial_at bytes start len ((code, sn), w) = some (code, w)

  unfoldable pub write_option_buffer_index_40g : List ℕ → ℤ → ℤ → ℤ → W → Option (ℤ × W)
  unfolding write_serial_at ind2sn
  write_option_buffer_index_40g bytes start len index w =
      if ltb_ℤ (pos 14) (start +ℤ len)
      then some (pos 1, w)
      else write_serial_at bytes start len (ind2sn m.host index w)

  -- `pModuleInfo` is the start, the length and the index; the `Bool` says that the buffer is there.
  unfoldable pub read_module_buf : Bool → ℤ → ℤ → ℤ → W → Option (Reply W)
  read_module_buf false start len index w = some (reply (pos 2) [] w)
  read_module_buf true start len index w =
      let (kind, w1) = get_boardres_type m.host index w in
      if index_valid index
      then (if by_ftdi kind
          then read_option_buffer_index_40g start len index w1
          else read_option_buffer_index m.host start len index w1)
      else read_option_buffer m.susi start len w

  unfoldable pub write_module_buf : Option (List ℕ) → ℤ → ℤ → ℤ → W → Option (ℤ × W)
  write_module_buf none start len index w = some (pos 2, w)
  write_module_buf (some bytes) start len index w =
      let (kind, w1) = get_boardres_type m.host index w in
      if index_valid index
      then (if by_ftdi kind
          then write_option_buffer_index_40g bytes start len index w1
          else write_option_buffer_index m.host bytes start len index w1)
      else write_option_buffer m.susi bytes start len w
