-- ===== src/Eeprom/Tests.antt =====
-- A device that always answers, with its memory for its state, and runs on it.
use softupdate.Prelude.{
  ℕ, ◌+◌, ◌≤◌, ◌<◌, ◌≡◌, ◌↔◌, refl, inl, inr, ap, sym, true, false, some, none, List, [], ◌∷◌,
  arith, leb, leb→le, if◌then◌else◌, Bool-cases, length, take, drop, overwrite, replicate, min,
  length-overwrite, some_inj,
}
use softupdate.Eeprom.{reply, success, eeprom_i2c_addr, eeprom_read_buf, eeprom_write_buf, read_all}
use softupdate.Eeprom.Smbus.{Susi, Reaches}
use softupdate.Eeprom.Contents.{eeprom_write-read}
use softupdate.Eeprom.Safety.{eeprom_read_buf-fault, Answered}

abbrev pub cells : List ℕ → List ℕ
cells w = if leb 255 (length w) then w else replicate 255 0

abbrev pub chip : Susi (List ℕ)
chip = record {
  dll_init = λ w. (true, w);
  dll_uninit = λ w. (true, w);
  smbus_available = λ w. (true, w);
  read_byte = λ slave addr w. (none, w);
  write_byte = λ slave addr b w. (false, w);
  read_multi = λ slave start len w. (some (take len (drop start (cells w))), w);
  write_multi = λ slave start bytes w.
      if leb (start + length bytes) (length (cells w))
      then (true, overwrite (cells w) start bytes)
      else (false, w);
}

room : (w : List ℕ) → 255 ≤ length (cells w)
room w = elim (Bool-cases (leb 255 (length w))) [
  | inl big ↦ rw big (leb→le _ _ big)
  | inr small ↦ rw small (omega arith)
]

cells_of : (w : List ℕ) → 255 ≤ length w → cells w ≡ w
cells_of w h = ground (arith, h)

pub chip-Reaches : Reaches chip eeprom_i2c_addr cells
chip-Reaches = record {
  reads = λ start len bytes w w1 e.
      (sym (some_inj (ap (λ t. t.0) e)), ap cells (sym (ap (λ t. t.1) e)));
  writes = λ start bytes w w1 e. put start bytes w w1 e;
  size = room;
}
  where
    put :
        (start : ℕ) (bytes w w1 : List ℕ)
        → chip.write_multi eeprom_i2c_addr start bytes w ≡ (true, w1)
        → cells w1 ≡ overwrite (cells w) start bytes
    put start bytes w w1 e = elim (Bool-cases (leb (start + length bytes) (length (cells w)))) [
      | inl fits ↦
          let out : overwrite (cells w) start bytes ≡ w1 = ap (λ t. t.1) (rw fits at e) in
          rw (← out) (
            cells_of (overwrite (cells w) start bytes)
              (omega (arith, room w, leb→le _ _ fits, length-overwrite (cells w) bytes start)))
      | inr over ↦ cc (ap (λ t. t.0) (rw over at e))
    ]

abbrev pub blank : List ℕ
blank = replicate 255 0

abbrev word : List ℕ
word = 7 ∷ 8 ∷ 9 ∷ []

abbrev written : List ℕ
written = overwrite blank 2 word

write_word : eeprom_write_buf chip 2 3 word blank ≡ some (success, written)
unfolding eeprom_write_buf
write_word = refl

read_word : eeprom_read_buf chip 2 3 written ≡ some (reply success word written)
unfolding eeprom_read_buf
read_word = refl

eeprom_write-read_example : word ≡ take (min 3 255) word
eeprom_write-read_example =
    eeprom_write-read chip cells chip-Reaches 2 3 word blank written (reply success word written)
      (omega arith) (omega arith) write_word read_word refl

eeprom_read_buf-fault_example :
    (eeprom_read_buf chip 250 10 blank ≡ none)
    ↔ ((255 < 250 + min 10 255) × Answered (read_all chip blank))
eeprom_read_buf-fault_example = eeprom_read_buf-fault chip cells chip-Reaches 250 10 blank
