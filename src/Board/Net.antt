-- ===== src/Board/Net.antt =====
-- The boards that are reached over their USB network interface: the commands `opthex` and
-- `optfill`, and the reading and writing of option memories through them.
use softupdate.Prelude.{
  get_elem?, ℕ, zero, suc, ◌+◌, ◌*◌, ◌/◌, ◌%◌, ◌≤◌, ◌<◌, ◌≡◌, Bool, true, false, ◌&&◌, ◌||◌, not,
  Option, none, some, List, [], ◌∷◌, ◌++◌, leb, ltb, if◌then◌else◌, length, take, drop, replicate,
  overwrite, slice?, bytes_eq,
}
use softupdate.Prelude.Int.{ℤ, pos, negsuc, ◌+ℤ◌, ltb_ℤ}
use softupdate.Text.{codes, dec_int}
use softupdate.Eeprom.{Reply, reply}
use softupdate.Board.Host.{Host}
use softupdate.Board.Hex.{c_str, hex_encode, parse_options}
use softupdate.Board.Usb.Netif.{ind2netif}
pub mod HexText
pub mod Options

-- A write into a buffer; `none` where it would run past the end.
abbrev pub put : List ℕ → ℕ → List ℕ → Option (List ℕ)
put buff at xs = if leb (at + length xs) (length buff) then some (overwrite buff at xs) else none

-- `sprintf(buff + i * 2, "%02X", pBuff[i])` for the bytes from the `i`-th on: two characters and a
-- NUL for each.
unfoldable pub hex_rounds : ℕ → ℕ → List ℕ → List ℕ → Option (List ℕ)
unfolding hex_encode
hex_rounds zero i bytes buff = some buff
hex_rounds (suc left) i bytes buff = elim (get_elem? bytes i) [
  | none ↦ none
  | some b ↦ elim (put buff (i * 2) (hex_encode (b ∷ []) ++ (0 ∷ []))) [
    | none ↦ none
    | some written ↦ hex_rounds left (i + 1) bytes written
  ]
]

-- `buff[EEPROM_MAXSIZE * 2]` after the loop and the NUL behind it.
unfoldable pub hex_text : ℕ → List ℕ → Option (List ℕ)
unfolding hex_rounds
hex_text len bytes = elim (hex_rounds len 0 bytes (replicate 510 0)) [
  | none ↦ none
  | some buff ↦ put buff (len * 2) (0 ∷ [])
]

module _ {W : Type 0} (host : Host W) where
  -- So many microseconds; `none` where nothing comes or the call fails.
  unfoldable pub recv_timeout : ℕ → ℕ → ℕ → W → Option (List ℕ) × W
  recv_timeout sk size usecs w =
      let (ready, w1) = host.select sk (usecs / 1000000) (usecs % 1000000) w in
      if ready then host.recv sk size w1 else (none, w1)

  -- What is received counts where it is not empty and not an error message.
  answered : Option (List ℕ) × W → Reply W
  answered (none, w) = reply (pos 17) (0 ∷ []) w
  answered (some [], w) = reply (pos 17) (0 ∷ []) w
  answered (some (b ∷ bs), w) =
      if bytes_eq (take 4 (b ∷ bs)) (codes "ERR:")
      then reply (pos 18) ((b ∷ bs) ++ (0 ∷ [])) w
      else reply (pos 0) ((b ∷ bs) ++ (0 ∷ [])) w

  sent : ℕ → Bool → Bool × W → Reply W
  unfolding answered recv_timeout
  sent sk is_write (false, w) = reply (pos 16) (0 ∷ []) w
  sent sk is_write (true, w) =
      answered (recv_timeout sk 4095 (if is_write then 60000000 else 1000000) w)

  -- The command, `none` for NULL, and whether there is a buffer for the answer.
  unfoldable pub cmd_opt : ℕ → Option (List ℕ) → Bool → Bool → W → Reply W
  unfolding sent answered
  cmd_opt sk cmd false is_write w = reply (pos 15) [] w
  cmd_opt sk none true is_write w = reply (pos 20) (0 ∷ []) w
  cmd_opt sk (some cmd) true is_write w = sent sk is_write (host.send_to sk cmd w)

  unfoldable pub cmd_read_eeprom : ℕ → W → Reply W
  unfolding cmd_opt
  cmd_read_eeprom sk w = cmd_opt sk (some (codes "opthex")) true false w

  -- `none` is a read or a write outside a buffer; `buff[iLen * 2]` lies in front of it for a
  -- negative length.
  unfoldable pub cmd_write_eeprom : ℕ → ℤ → ℤ → List ℕ → W → Option (Reply W)
  unfolding cmd_opt hex_text c_str
  cmd_write_eeprom sk start (negsuc len) bytes w = none
  cmd_write_eeprom sk start (pos len) bytes w = elim (hex_text len bytes) [
    | none ↦ none
    | some buff ↦ some (
        cmd_opt sk (some (codes "optfill --begin " ++ (dec_int start ++ (codes " " ++ c_str buff))))
          true true w)
  ]

  socket_made : List ℕ → Option ℕ × W → (ℤ × ℕ) × W
  socket_made netif (none, w) = ((pos 13, 0), w)
  socket_made netif (some sk, w) =
      ((pos 0, sk), host.bind_to_device sk netif (host.set_broadcast sk w))

  -- The code and the socket, for the interface in `g_szArg_netif`.
  unfoldable pub create_module_socket_client : List ℕ → W → (ℤ × ℕ) × W
  unfolding socket_made
  create_module_socket_client [] w = ((pos 11, 0), w)
  create_module_socket_client (c ∷ cs) w =
      let (present, w1) = host.exists (codes "/sys/class/net/" ++ (c ∷ cs)) w in
      let made = socket_made (c ∷ cs) (host.socket w1) in
      if present then made else ((pos 12, 0), w1)

  -- `if (skClient > 0) close(skClient)`
  pub close_socket : ℕ → W → W
  close_socket zero w = w
  close_socket (suc sk) w = host.close (suc sk) w

  -- The bytes that are asked for, in front of zeros; nothing where they do not fit. A negative
  -- start or length makes the `memcpy` run outside `temp_data`.
  copy_options : ℤ → ℤ → List ℕ → Option (List ℕ)
  copy_options (pos start) (pos len) temp =
      some (overwrite (replicate 255 0) 0 (take len (drop start temp)))
  copy_options start len temp = none

  fill_options : ℤ → ℤ → List ℕ → Option (List ℕ)
  unfolding copy_options ◌+ℤ◌
  fill_options start len temp =
      if ltb_ℤ (pos 255) (start +ℤ len) then some [] else copy_options start len temp

  with_code : ℤ → W → Option (List ℕ) → Option (Reply W)
  with_code code w none = none
  with_code code w (some bytes) = some (reply code bytes w)

  -- The answer is taken apart whatever the code.
  read_answer : ℕ → ℤ → ℤ → Reply W → Option (Reply W)
  unfolding fill_options parse_options with_code close_socket
  read_answer sk start len r =
      with_code r.code (close_socket sk r.after) (fill_options start len (parse_options r.bytes))

  read_over : ℤ → ℤ → (ℤ × ℕ) × W → Option (Reply W)
  unfolding read_answer cmd_read_eeprom
  read_over start len ((pos zero, sk), w) = read_answer sk start len (cmd_read_eeprom sk w)
  read_over start len ((code, sk), w) = some (reply code [] w)

  read_at : ℤ → ℤ → (ℤ × List ℕ) × W → Option (Reply W)
  unfolding read_over create_module_socket_client
  read_at start len ((pos zero, []), w) = some (reply (pos 11) [] w)
  read_at start len ((pos zero, c ∷ cs), w) =
      read_over start len (create_module_socket_client (c ∷ cs) w)
  read_at start len ((code, name), w) = some (reply code [] w)

  unfoldable pub read_option_buffer_index : ℤ → ℤ → ℤ → W → Option (Reply W)
  unfolding read_at ind2netif
  read_option_buffer_index start len index w = read_at start len (ind2netif host index w)

  closed : ℕ → Option (Reply W) → Option (ℤ × W)
  unfolding close_socket
  closed sk none = none
  closed sk (some r) = some (r.code, close_socket sk r.after)

  write_over : ℤ → ℤ → List ℕ → (ℤ × ℕ) × W → Option (ℤ × W)
  unfolding closed cmd_write_eeprom
  write_over start len bytes ((pos zero, sk), w) = closed sk (cmd_write_eeprom sk start len bytes w)
  write_over start len bytes ((code, sk), w) = some (code, w)

  write_at : ℤ → ℤ → List ℕ → (ℤ × List ℕ) × W → Option (ℤ × W)
  unfolding write_over create_module_socket_client
  write_at start len bytes ((pos zero, []), w) = some (pos 11, w)
  write_at start len bytes ((pos zero, c ∷ cs), w) =
      write_over start len bytes (create_module_socket_client (c ∷ cs) w)
  write_at start len bytes ((code, name), w) = some (code, w)

  unfoldable pub write_option_buffer_index : List ℕ → ℤ → ℤ → ℤ → W → Option (ℤ × W)
  unfolding write_at ind2netif
  write_option_buffer_index bytes start len index w =
      write_at start len bytes (ind2netif host index w)
