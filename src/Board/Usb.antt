-- ===== src/Board/Usb.antt =====
-- Where a board sits on the USB bus, its serial number, and its type.
use softupdate.Prelude.{
  ℕ, zero, suc, ◌+◌, ◌-◌, Bool, true, false, ◌&&◌, ◌||◌, Option, none, some, List, [], ◌∷◌, ◌++◌,
  leb, ltb, if◌then◌else◌, length, take, replicate, bytes_eq,
}
use softupdate.Prelude.Int.{ℤ, pos, negsuc, ltb_ℤ}
use softupdate.Text.{codes, dec_int}
use softupdate.Board.Host.{Host}
pub mod Serial
pub mod Length
pub mod Netif

-- Bus, port and sub port of an index; -1 for one that there is not.
unfoldable pub ind2usbpath : ℤ → ℤ × (ℤ × ℤ × ℤ)
ind2usbpath (pos zero) = (pos 0, (pos 1, pos 1, pos 2))
ind2usbpath (pos (suc zero)) = (pos 0, (pos 1, pos 5, negsuc 0))
ind2usbpath (pos (suc (suc zero))) = (pos 0, (pos 1, pos 1, pos 3))
ind2usbpath (pos (suc (suc (suc zero)))) = (pos 0, (pos 1, pos 3, negsuc 0))
ind2usbpath (pos (suc (suc (suc (suc zero))))) = (pos 0, (pos 1, pos 1, pos 4))
ind2usbpath (pos (suc (suc (suc (suc (suc zero)))))) = (pos 0, (pos 1, pos 1, pos 1))
ind2usbpath _ = (negsuc 0, (negsuc 0, negsuc 0, negsuc 0))

-- "1-5" or "1-1.2"
abbrev pub port_name : ℤ × ℤ × ℤ → List ℕ
port_name (bus, top, pos sub) =
    dec_int bus ++ (codes "-" ++ (dec_int top ++ (codes "." ++ dec_int (pos sub))))
port_name (bus, top, negsuc sub) = dec_int bus ++ (codes "-" ++ dec_int top)

abbrev pub usb_path : ℤ × ℤ × ℤ → List ℕ
usb_path p = codes "/sys/bus/usb/devices/" ++ port_name p

-- `isalnum`
abbrev pub is_alnum : ℕ → Bool
is_alnum c = (leb 48 c && leb c 57) || ((leb 65 c && leb c 90) || (leb 97 c && leb c 122))

-- From the first character that is no letter or digit, the buffer is cleared.
unfoldable pub regulate : List ℕ → List ℕ
regulate [] = []
regulate (c ∷ cs) =
    let rest = regulate cs in if is_alnum c then c ∷ rest else replicate (suc (length cs)) 0

-- `szBoardSN`, 32 zeros before the read
serial_buffer : Option (List ℕ) → List ℕ
serial_buffer none = replicate 32 0
serial_buffer (some bytes) = take 32 (bytes ++ replicate 32 0)

module _ {W : Type 0} (host : Host W) where
  -- The device's absence leaves `ret_val` at 0, and so the function goes on.
  read_serial : ℤ × ℤ × ℤ → W → (ℤ × List ℕ) × W
  unfolding regulate serial_buffer
  read_serial p w =
      let (present, w1) = host.exists (usb_path p) w in
      let (read, w2) = host.read_file (usb_path p ++ codes "/serial") 16 w1 in
      ((pos 0, take 16 (regulate (serial_buffer read)) ++ (0 ∷ [])), w2)

  found_path : ℤ × (ℤ × ℤ × ℤ) → W → (ℤ × List ℕ) × W
  unfolding read_serial
  found_path (pos zero, p) w = read_serial p w
  found_path (_, p) w = ((pos 21, 0 ∷ []), w)

  -- The code, and what the caller's buffer starts with.
  unfoldable pub ind2sn : ℤ → W → (ℤ × List ℕ) × W
  unfolding found_path read_serial ind2usbpath
  ind2sn index w =
      if ltb_ℤ index (pos 0) || ltb_ℤ (pos 6) index
      then ((pos 11, 0 ∷ []), w)
      else found_path (ind2usbpath index) w

pub data BoardType : Type 0 where
  unknown : BoardType
  board_40g : BoardType
  board_40ge : BoardType
  board_10g : BoardType
  board_2g5 : BoardType
  board_1ge : BoardType
  board_100ge : BoardType
  board_16g : BoardType

-- `memcmp(sn, "BVUX", 4)` and so on
unfoldable pub head_type : List ℕ → BoardType
head_type head =
    if bytes_eq head (codes "BVUX")
    then board_40g
    else if bytes_eq head (codes "BVUM")
    then board_40ge
    else if bytes_eq head (codes "BVUP")
    then board_16g
    else if bytes_eq head (codes "BVUK")
    then board_10g
    else if bytes_eq head (codes "BVUJ")
    then board_2g5
    else if bytes_eq head (codes "BVUL")
    then board_1ge
    else if bytes_eq head (codes "BVUH")
    then board_100ge
    else unknown

unfoldable pub sn2type : List ℕ → BoardType
unfolding head_type
sn2type sn = head_type (take 4 sn)

module _ {W : Type 0} (host : Host W) where
  typed : (ℤ × List ℕ) × W → BoardType × W
  unfolding sn2type
  typed ((pos zero, sn), w) = (sn2type sn, w)
  typed ((_, sn), w) = (unknown, w)

  unfoldable pub get_boardres_type : ℤ → W → BoardType × W
  unfolding typed
  get_boardres_type index w = typed (ind2sn host index w)
