-- ===== src/Board/Runs.antt =====
-- Runs of the panel's and the boards' memories on the machine of the tests.
use softupdate.Prelude.{
  ℕ, ◌+◌, ◌-◌, ◌≤◌, ◌<◌, ◌≡◌, ◌↔◌, ◌⊎◌, refl, true, false, none, some, List, [], ◌∷◌, ◌++◌, arith,
  take, drop, replicate, overwrite, set,
}
use softupdate.Prelude.Int.{pos, ltb_ℤ, ◌+ℤ◌}
use softupdate.Text.{codes, dec_int}
use softupdate.Eeprom.{reply, eeprom_open, eeprom_close, eeprom_read_buf, eeprom_write_buf}
use softupdate.Eeprom.Tests.{chip, cells, blank, chip-Reaches}
use softupdate.Md5.Context.{md5_data, init, update, final, transform_blocks, count_hi, count_lo}
use softupdate.Md5.Codec.{encode}
use softupdate.Md5.Transform.{transform}
use softupdate.Board.Tests.{host, machine, keeps, junk, answer, mac}
use softupdate.Board.Hex.{c_str, hex_only, hex_encode}
use softupdate.Board.Bit.{bit_option_deal}
use softupdate.Board.Usb.{ind2usbpath}
use softupdate.Board.Usb.Netif.{ind2netif, find_path, pick_name}
use softupdate.Board.Password.{password, check_pwd}
use softupdate.Board.Net.{
  cmd_opt, cmd_read_eeprom, cmd_write_eeprom, create_module_socket_client, read_option_buffer_index,
  close_socket, recv_timeout,
}
use softupdate.Board.Net.Options.{
  GoodAnswer, cmd_opt-GoodAnswer, cmd_write_eeprom-fault, read_option_buffer_index_lem,
}
use softupdate.Board.Panel.{
  to_uint, read_option_buffer, write_option_buffer, read_mac, read_serial_number, write_mac,
}
use softupdate.Board.Panel.Identity.{write_mac-read_mac}
use softupdate.Board.Memory.{
  Memory, MemData, refused, poke, write_memory, read_memory, write_memory-read_memory,
}
use softupdate.Board.Access.{option_start, div8}
use softupdate.Board.Access.Options.{OptionInfo, write_option_bit}
use softupdate.Board.Access.Options.Panels.{panel_password_ok, with_option, write_option_bit_lem}

-- The network.
cmd_opt-GoodAnswer_example :
    GoodAnswer
      (cmd_opt host 3 (some (codes "opthex")) true false []).code
      (cmd_opt host 3 (some (codes "opthex")) true false []).bytes
cmd_opt-GoodAnswer_example = cmd_opt-GoodAnswer host 3 (some (codes "opthex")) true false []

cmd_write_eeprom-fault_example :
    ((cmd_write_eeprom host 3 (pos 0) (pos 2) (7 ∷ 0xAB ∷ []) [] ≡ none) ↔ (
      (ltb_ℤ (pos 2) (pos 0) ≡ true)
      ⊎ ((ltb_ℤ (pos 254) (pos 2) ≡ true) ⊎ (ltb_ℤ (pos 2) (pos 2) ≡ true))))
    × ((n : ℕ)
        → pos 2 ≡ pos n
        → n ≤ 254
        → n ≤ 2
        → cmd_write_eeprom host 3 (pos 0) (pos 2) (7 ∷ 0xAB ∷ []) []
          ≡ some (
              cmd_opt host 3
                (some (
                  codes "optfill --begin "
                  ++ (dec_int (pos 0) ++ (codes " " ++ hex_encode (take n (7 ∷ 0xAB ∷ []))))))
                true
                true
                []))
cmd_write_eeprom-fault_example = cmd_write_eeprom-fault host 3 (pos 0) (pos 2) (7 ∷ 0xAB ∷ []) []

found : ind2netif host (pos 0) [] ≡ ((pos 0, codes "eth7"), [])
unfolding ind2netif find_path pick_name ind2usbpath
found = refl

made : create_module_socket_client host (codes "eth7") [] ≡ ((pos 0, 3), [])
unfolding create_module_socket_client
made = refl

reads : cmd_read_eeprom host 3 [] ≡ reply (pos 0) (answer ++ (0 ∷ [])) []
unfolding cmd_read_eeprom cmd_opt recv_timeout
reads = refl

shown_nul : hex_only (c_str (answer ++ (0 ∷ []))) ≡ hex_encode (0x0A ∷ 0x1B ∷ 0x2C ∷ [])
unfolding hex_only c_str hex_encode
shown_nul = refl

read_option_buffer_index_lem_example :
    read_option_buffer_index host (pos 1) (pos 2) (pos 0) []
    ≡ some (reply (pos 0) ((0x1B ∷ 0x2C ∷ []) ++ replicate (255 - 2) 0) (close_socket host 3 []))
read_option_buffer_index_lem_example =
    read_option_buffer_index_lem host 1 2 3 (pos 0) b'e' (codes "th7") (answer ++ (0 ∷ []))
      (0x0A ∷ 0x1B ∷ 0x2C ∷ []) [] [] [] [] found made reads shown_nul (omega arith) (omega arith)
      (omega arith)

-- The panel.
abbrev named : List ℕ
named = overwrite blank 0 mac

writes_mac : write_mac chip mac blank ≡ some (pos 0, named)
unfolding write_mac write_option_buffer to_uint eeprom_open eeprom_close eeprom_write_buf
writes_mac = refl

reads_mac : read_mac chip true named ≡ some (reply (pos 0) mac named)
unfolding read_mac read_option_buffer to_uint eeprom_open eeprom_close eeprom_read_buf
reads_mac = refl

reads_serial : read_serial_number chip true named ≡ some (reply (pos 0) (replicate 14 0) named)
unfolding read_serial_number read_option_buffer to_uint eeprom_open eeprom_close eeprom_read_buf
reads_serial = refl

write_mac-read_mac_example : (mac ≡ mac) × (replicate 14 0 ≡ take 14 (drop 16 (cells blank)))
write_mac-read_mac_example =
    write_mac-read_mac chip cells chip-Reaches keeps mac blank named (reply (pos 0) mac named)
      (reply (pos 0) (replicate 14 0) named) refl writes_mac reads_mac refl reads_serial refl

writes_options : write_option_buffer chip mac (pos 0) (pos 6) blank ≡ some (pos 0, named)
unfolding write_option_buffer to_uint eeprom_open eeprom_close eeprom_write_buf
writes_options = refl

reads_options : read_option_buffer chip (pos 0) (pos 6) named ≡ some (reply (pos 0) mac named)
unfolding read_option_buffer to_uint eeprom_open eeprom_close eeprom_read_buf
reads_options = refl

-- One option.
abbrev wanted : OptionInfo
wanted = record {
  offset = pos 3;
  sz_pwd = password junk 13 (pos 3) (replicate 6 0) (c_str (replicate 16 0));
  value = pos 1;
  index = pos 9;
}

abbrev changed : List ℕ
changed = set blank 0x30 8

changes : write_option_bit machine wanted blank ≡ some (pos 0, changed)
unfolding write_option_bit read_option_buffer write_option_buffer to_uint eeprom_open eeprom_close
    eeprom_read_buf eeprom_write_buf check_pwd password md5_data init update final transform_blocks
    count_hi count_lo encode transform c_str bit_option_deal ◌+ℤ◌
changes = refl

write_option_bit_lem_example :
    (count : ℕ) × (div8 wanted.offset +ℤ pos option_start ≡ pos count)
    × (option_start ≤ count)
    × (count < 255)
    × (panel_password_ok junk wanted (cells blank) ≡ some true)
    × (cells changed ≡ with_option wanted count (cells blank))
write_option_bit_lem_example =
    write_option_bit_lem machine cells chip-Reaches keeps wanted blank changed refl changes

-- The memory of the process.
abbrev block : MemData
block = record { ul_start_addr = 0xC000_0010; ul_length = 2; puc_buf = 5 ∷ 6 ∷ 7 ∷ [] }

abbrev empty : Memory
empty = λ a. 0

stored : write_memory (some block) empty ≡ some (pos 0, poke 0xC000_0010 (5 ∷ 6 ∷ []) empty)
unfolding write_memory refused poke
stored = refl

write_memory-read_memory_example :
    (read_memory (some block) (poke 0xC000_0010 (5 ∷ 6 ∷ []) empty) ≡ (pos 0, 5 ∷ 6 ∷ []))
    × ((a : ℕ)
        → (a < 0xC000_0010) ⊎ (0xC000_0010 + 2 ≤ a)
        → poke 0xC000_0010 (5 ∷ 6 ∷ []) empty a ≡ 0)
write_memory-read_memory_example =
    write_memory-read_memory block empty (poke 0xC000_0010 (5 ∷ 6 ∷ []) empty) (omega arith) stored
