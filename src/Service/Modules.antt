-- ===== src/Service/Modules.antt =====
-- The requests on the panel's and the modules' memories: addresses, serial numbers, options.
use softupdate.Prelude.{
  ℕ, zero, suc, ◌+◌, Bool, true, false, ◌&&◌, ◌||◌, not, Option, none, some, List, [], ◌∷◌, ◌++◌,
  ltb, leb, ◌==◌, if◌then◌else◌, length, take, drop, replicate,
}
use softupdate.Prelude.Int.{ℤ, pos, negsuc, ◌+ℤ◌, ltb_ℤ}
use softupdate.Text.{dec, dec_int, atoi}
use softupdate.Eeprom.{Reply}
use softupdate.Board.Hex.{c_str}
use softupdate.Board.Usb.{
  BoardType, unknown, board_40g, board_40ge, board_10g, board_2g5, board_1ge, board_100ge,
  board_16g, ind2sn, get_boardres_type,
}
use softupdate.Board.Net.{read_option_buffer_index}
use softupdate.Board.Panel.{read_mac, read_serial_number, write_mac, write_serial_number}
use softupdate.Board.Access.{Machine, read_module_buf, write_module_buf}
use softupdate.Board.Access.Options.{OptionInfo, write_option_bit}
use softupdate.Service.State.{System, Server, Handled, done, undefined, answer, int_at}
pub mod Addresses
pub mod Info
pub mod Buffers
pub mod Safe

abbrev pub msg_getserialnumber : ℕ
msg_getserialnumber = 0x109

abbrev pub msg_setserialnumber : ℕ
msg_setserialnumber = 0x110

abbrev pub msg_getmac : ℕ
msg_getmac = 0x111

abbrev pub msg_setmac : ℕ
msg_setmac = 0x112

abbrev pub msg_getboardtype : ℕ
msg_getboardtype = 0x122

abbrev pub msg_readmodulebuf : ℕ
msg_readmodulebuf = 0x123

abbrev pub msg_writemodulebuf : ℕ
msg_writemodulebuf = 0x124

abbrev pub msg_writeoption : ℕ
msg_writeoption = 0x125

abbrev pub msg_getserialnumberall : ℕ
msg_getserialnumberall = 0x127

-- The first `n` bytes of a cleared buffer that these were written into.
abbrev pub cleared : ℕ → List ℕ → List ℕ
cleared n bytes = take n (bytes ++ replicate n 0)

-- `memcpy` byte by byte; `none` where it reads behind its source.
unfoldable pub copy_bytes : ℕ → List ℕ → Option (List ℕ)
copy_bytes zero source = some []
copy_bytes (suc n) [] = none
copy_bytes (suc n) (b ∷ source) = elim (copy_bytes n source) [
  | none ↦ none
  | some copied ↦ some (b ∷ copied)
]

-- `eV400_board_type`
unfoldable pub type_code : BoardType → ℕ
type_code unknown = 0
type_code board_40g = 1
type_code board_40ge = 2
type_code board_10g = 3
type_code board_2g5 = 4
type_code board_1ge = 5
type_code board_100ge = 6
type_code board_16g = 7

unfoldable pub has_mac : BoardType → Bool
has_mac board_40g = false
has_mac board_2g5 = false
has_mac kind = true

module _ {W : Type 0} (sys : System W) where
  -- The serial numbers of `n` boards from `index` on, each in the form `form`.
  unfoldable pub board_serials : (List ℕ → List ℕ) → ℕ → ℕ → W → List ℕ × W
  unfolding ind2sn
  board_serials form zero index w = ([], w)
  board_serials form (suc n) index w =
      let (answered, w1) = ind2sn sys.machine.host (pos index) w in
      let (more, w2) = board_serials form n (index + 1) w1 in (form answered.1 ++ more, w2)

  serials : ℕ → (List ℕ → List ℕ) → List ℕ → Option (Reply W) → Server → Handled W
  unfolding board_serials
  serials type form after none s = undefined
  serials type form after (some r) s =
      let (boards, w) = board_serials form 6 0 r.after in
      answer sys type (cleared 14 r.bytes ++ (after ++ boards)) s w

  -- 14 bytes for each, with no sign between them.
  unfoldable pub get_serial_number : Server → W → Handled W
  unfolding serials read_serial_number
  get_serial_number s w =
      serials msg_getserialnumber (cleared 14) [] (read_serial_number sys.machine.susi true w) s

  -- "\r" behind each.
  unfoldable pub get_serial_number_all : Server → W → Handled W
  unfolding serials read_serial_number c_str
  get_serial_number_all s w =
      serials msg_getserialnumberall (λ sn. c_str sn ++ (13 ∷ [])) (13 ∷ [])
        (read_serial_number sys.machine.susi true w) s

  -- A result code as a number in text.
  coded : ℕ → Option (ℤ × W) → Server → Handled W
  unfolding dec_int
  coded type none s = undefined
  coded type (some (code, w)) s = answer sys type (dec_int code) s w

  unfoldable pub set_serial_number : List ℕ → Server → W → Handled W
  unfolding coded write_serial_number
  set_serial_number bytes s w =
      coded msg_setserialnumber (write_serial_number sys.machine.susi bytes w) s

  unfoldable pub set_mac : List ℕ → Server → W → Handled W
  unfolding coded write_mac
  set_mac bytes s w = coded msg_setmac (write_mac sys.machine.susi bytes w) s

  -- Zeros for a board that has no address.
  board_mac : Bool → ℕ → W → Option (List ℕ × W)
  unfolding read_option_buffer_index
  board_mac false index w = some (replicate 6 0, w)
  board_mac true index w =
      elim (read_option_buffer_index sys.machine.host (pos 0) (pos 6) (pos index) w) [
        | none ↦ none
        | some r ↦ some (cleared 6 r.bytes, r.after)
      ]

  unfoldable pub board_macs : ℕ → ℕ → W → Option (List ℕ × W)
  unfolding board_mac has_mac get_boardres_type
  board_macs zero index w = some ([], w)
  board_macs (suc n) index w =
      let (kind, w1) = get_boardres_type sys.machine.host (pos index) w in
      elim (board_mac (has_mac kind) index w1) [
        | none ↦ none
        | some read ↦ elim (board_macs n (index + 1) read.1) [
          | none ↦ none
          | some more ↦ some (read.0 ++ more.0, more.1)
        ]
      ]

  macs : List ℕ → Option (List ℕ × W) → Server → Handled W
  macs own none s = undefined
  macs own (some (boards, w)) s = answer sys msg_getmac (own ++ boards) s w

  panel_and_boards : Option (Reply W) → Server → Handled W
  unfolding macs board_macs
  panel_and_boards none s = undefined
  panel_and_boards (some r) s = macs (cleared 6 r.bytes) (board_macs 6 0 r.after) s

  unfoldable pub get_mac : Server → W → Handled W
  unfolding panel_and_boards read_mac
  get_mac s w = panel_and_boards (read_mac sys.machine.susi true w) s

  unfoldable pub get_board_type : List ℕ → Server → W → Handled W
  unfolding c_str atoi get_boardres_type type_code dec
  get_board_type bytes s w =
      let (kind, w1) = get_boardres_type sys.machine.host (atoi (c_str bytes)) w in
      answer sys msg_getboardtype (dec (type_code kind)) s w1

  -- The number, and as many bytes of `pBuff` as were asked for. Of its 255 they fit `strTemp`.
  buffer_answer : ℤ → Option (Reply W) → Server → Handled W
  unfolding dec_int copy_bytes
  buffer_answer len none s = undefined
  buffer_answer (negsuc n) (some r) s = undefined
  buffer_answer (pos n) (some r) s = elim (copy_bytes n (cleared 255 r.bytes)) [
    | none ↦ undefined
    | some copied ↦ answer sys msg_readmodulebuf (dec_int r.code ++ (b',' ∷ copied)) s r.after
  ]

  read_parsed : ℤ → ℤ → ℤ → Server → W → Handled W
  unfolding buffer_answer read_module_buf ◌+ℤ◌
  read_parsed start len index s w =
      buffer_answer len
        (if ltb_ℤ (pos 255) (start +ℤ len)
          then some (record { code = pos 1; bytes = []; after = w })
          else read_module_buf sys.machine true start len index w)
        s

  -- `MODULEINFO`: a start, a length, an index.
  unfoldable pub read_module : List ℕ → Server → W → Handled W
  unfolding read_parsed int_at
  read_module bytes s w =
      if ltb (length bytes) 12
      then undefined
      else read_parsed (int_at 0 bytes) (int_at 1 bytes) (int_at 2 bytes) s w

  -- `iLength + sizeof(MODULEINFO)` is unsigned: only -12 to -1 come out small, and then the
  -- buffer cannot be had.
  module_bytes : List ℕ → ℤ → ℤ → ℤ → Server → W → Handled W
  unfolding coded write_module_buf
  module_bytes bytes start (pos n) index s w =
      coded msg_writemodulebuf
        (if leb (n + 12) (length bytes)
          then write_module_buf sys.machine (some (take n (drop 12 bytes))) start (pos n) index w
          else some (pos 1, w))
        s
  module_bytes bytes start (negsuc n) index s w =
      if ltb n 12 then undefined else coded msg_writemodulebuf (some (pos 1, w)) s

  write_parsed : List ℕ → ℤ → ℤ → ℤ → Server → W → Handled W
  unfolding coded module_bytes ◌+ℤ◌
  write_parsed bytes start len index s w =
      if ltb_ℤ (pos 255) (start +ℤ len)
      then coded msg_writemodulebuf (some (pos 1, w)) s
      else module_bytes bytes start len index s w

  unfoldable pub write_module : List ℕ → Server → W → Handled W
  unfolding write_parsed int_at
  write_module bytes s w =
      if ltb (length bytes) 12
      then undefined
      else write_parsed bytes (int_at 0 bytes) (int_at 1 bytes) (int_at 2 bytes) s w

  -- `OPTIONINFO`: an offset, nine bytes of password, three of padding, a value, an index.
  unfoldable pub write_option : List ℕ → Server → W → Handled W
  unfolding coded int_at write_option_bit
  write_option bytes s w =
      if ltb (length bytes) 24
      then undefined
      else coded msg_writeoption
          (write_option_bit sys.machine
            (record {
              offset = int_at 0 bytes;
              sz_pwd = take 9 (drop 4 bytes);
              value = int_at 4 bytes;
              index = int_at 5 bytes;
            })
            w)
          s
