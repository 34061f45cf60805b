-- ===== src/Board/Tests.antt =====
-- A machine that always answers, with the panel's memory for its state, and runs on it.
use softupdate.Prelude.{
  drop, get_elem?, zero, suc, none, ◌%◌, ℕ, ◌+◌, ◌-◌, ◌<◌, ◌≡◌, ◌↔◌, refl, ap, sym, true, false,
  some, List, [], ◌∷◌, ◌++◌, arith, ◌==◌, if◌then◌else◌, length, take, replicate, Bool-cases, inl,
  inr, take-append, some_inj, ==_iff, ◌∙◌, length-take, length-append, length-replicate,
}
use softupdate.Prelude.Int.{pos, negsuc}
use softupdate.Text.{codes}
use softupdate.Eeprom.{reply}
use softupdate.Eeprom.Tests.{chip, cells}
use softupdate.Md5.Digest.{rfc_md5}
use softupdate.Md5.Context.{md5_data, init, update, final, transform_blocks, count_hi, count_lo}
use softupdate.Md5.Codec.{encode}
use softupdate.Md5.Transform.{transform}
use softupdate.Board.Host.{Host}
use softupdate.Board.Hex.{c_str, hex_only, hex_encode, parse_options, parse_options-hex_encode}
use softupdate.Board.Bit.{bit, bit_option_deal, bit_option_deal_lem}
use softupdate.Board.Ftdi.{Ftdi, Holds, with_options, read_options, write_options}
use softupdate.Board.Ftdi.Options.{read_options-write_options}
use softupdate.Board.Usb.{ind2sn}
use softupdate.Board.Usb.Serial.{GoodSerial, ind2sn-GoodSerial}
use softupdate.Board.Usb.Netif.{GoodNetif, ind2netif, ind2netif-GoodNetif}
use softupdate.Board.Password.{check_pwd, password}
use softupdate.Board.Password.Accepted.{picked, check_pwd_iff}
use softupdate.Board.Panel.Identity.{Keeps}
use softupdate.Board.Access.{Machine}

abbrev pub answer : List ℕ
answer = codes "0A 1B 2C"

abbrev pub host : Host (List ℕ)
host = record {
  exists = λ path w. (true, w);
  is_dir = λ path w. (true, w);
  read_file = λ path size w. (some (codes "BVUX12\n"), w);
  list_dir = λ path w. (some (codes "." ∷ codes "eth7" ∷ []), w);
  socket = λ w. (some 3, w);
  close = λ sk w. w;
  set_broadcast = λ sk w. w;
  bind_to_device = λ sk name w. w;
  send_to = λ sk bytes w. (true, w);
  select = λ sk sec usec w. (true, w);
  recv = λ sk size w. (some answer, w);
}

abbrev ftdi_cells : List ℕ → List ℕ
ftdi_cells w = take 128 (w ++ replicate 128 0)

abbrev ftdi : Ftdi (List ℕ)
ftdi = record {
  init = λ w. (true, w);
  open_desc = λ sn w. (true, w);
  read_eeprom = λ w. (some (ftdi_cells w), w);
  write_eeprom = λ e w. if length e == 128 then (true, e) else (false, w);
  deinit = λ w. w;
}

pub keeps : Keeps chip cells
keeps = record { init = λ w. refl; uninit = λ w. refl; available = λ w. refl }

abbrev pub junk : List ℕ
junk = replicate 64 7

abbrev pub machine : Machine (List ℕ)
machine = record { host = host; ftdi = ftdi; susi = chip; stack = junk }

-- The bits.
bit_option_deal_lem_example :
    (bit (bit_option_deal 5 (pos 1) (pos 1)) 2 ≡ (if 1 == 2 then 1 else bit 5 2))
    × (bit_option_deal 5 (pos 1) (pos 1) < 256)
bit_option_deal_lem_example =
    bit_option_deal_lem 5 1 1 2 (omega arith) (omega arith) (omega arith) (omega arith)

pub shown : hex_only (c_str answer) ≡ hex_encode (0x0A ∷ 0x1B ∷ 0x2C ∷ [])
unfolding hex_only c_str hex_encode
shown = refl

parse_options-hex_encode_example :
    parse_options answer ≡ (0x0A ∷ 0x1B ∷ 0x2C ∷ []) ++ take (255 - 3) (replicate 255 0)
parse_options-hex_encode_example =
    parse_options-hex_encode answer (0x0A ∷ 0x1B ∷ 0x2C ∷ []) (omega arith) (omega arith) shown

-- The FTDI chip.
ftdi-Holds : Holds ftdi ftdi_cells
ftdi-Holds = record {
  reads = λ e w w1 h. (sym (some_inj (ap (λ t. t.0) h)), ap ftdi_cells (sym (ap (λ t. t.1) h)));
  writes = λ e w w1 h. put e w w1 h;
  size = λ w. omega (
    arith,
    length-take 128 (w ++ replicate 128 0),
    length-append w (replicate 128 0),
    length-replicate {A = ℕ} 128 0,
  );
}
  where
    put : (e w w1 : List ℕ) → ftdi.write_eeprom e w ≡ (true, w1) → ftdi_cells w1 ≡ e
    put e w w1 h = elim (Bool-cases (length e == 128)) [
      | inl right ↦
          ap ftdi_cells (sym (ap (λ t. t.1) (rw right at h)))
          ∙ take-append e (replicate 128 0) 128 ((==_iff (length e) 128).0 right)
      | inr other ↦ cc (ap (λ t. t.0) (rw other at h))
    ]

abbrev new_options : List ℕ
new_options = replicate 14 9

abbrev burnt : List ℕ
burnt = (write_options ftdi new_options []).1

burns : write_options ftdi new_options [] ≡ (pos 0, burnt)
unfolding write_options with_options
burns = refl

read_options-write_options_example : read_options ftdi burnt ≡ reply (pos 0) new_options burnt
read_options-write_options_example =
    read_options-write_options ftdi ftdi_cells ftdi-Holds new_options [] burnt refl burns
      (ftdi_cells burnt) burnt refl

-- Serial numbers, types and interfaces.
ind2sn-GoodSerial_example : GoodSerial host (pos 6) (ind2sn host (pos 6) []).0
ind2sn-GoodSerial_example = ind2sn-GoodSerial host (pos 6) []

ind2netif-GoodNetif_example : GoodNetif (ind2netif host (pos 2) []).0
ind2netif-GoodNetif_example = ind2netif-GoodNetif host (pos 2) []

-- Passwords.
abbrev pub mac : List ℕ
mac = 1 ∷ 2 ∷ 3 ∷ 4 ∷ 5 ∷ 6 ∷ []

-- The MAC, 80 bytes 8, "SN1".
abbrev text : List ℕ
text = mac ++ (replicate 80 8 ++ codes "SN1")

eights : (j : ℕ) → j < 70 + 10 → get_elem? (drop 6 text) j ≡ some (70 % 62)
eights j low = filled 80 j low
  where
    filled : (n j : ℕ) → j < n → get_elem? (replicate n 8 ++ codes "SN1") j ≡ some 8
    filled zero j h = absurd (omega arith)
    filled (suc n) zero h = refl
    filled (suc n) (suc j) h = filled n j (omega arith)

serial_end : drop (70 + 10) (drop 6 text) ≡ c_str (codes "SN1")
unfolding c_str
serial_end = refl

check_pwd_iff_example :
    (check_pwd junk (pos 70) (codes "password") mac (codes "SN1") ≡ some true)
    ↔ ((i : ℕ) → i < 8 → get_elem? (codes "password") i ≡ some (picked (rfc_md5 text) i))
check_pwd_iff_example =
    check_pwd_iff junk 70 (codes "password") mac (codes "SN1") text refl (omega arith) refl eights
      serial_end

right : check_pwd junk (pos 0) (password junk 10 (pos 0) mac (c_str [])) mac [] ≡ some true
unfolding check_pwd password md5_data init update final transform_blocks count_hi count_lo encode
    transform c_str
right = refl

-- An offset below -10 runs past the text.
out_of_range : check_pwd junk (negsuc 10) (codes "password") mac [] ≡ none
unfolding check_pwd
out_of_range = refl
