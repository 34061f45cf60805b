-- ===== src/Eeprom/Safety.antt =====
-- When the copies of `eeprom_read_buf` and `eeprom_write_buf` stay inside their local buffer.
use softupdate.Prelude.{
  ℕ, ◌+◌, ◌<◌, ◌≡◌, refl, ap, inl, inr, ◌↔◌, ◌&&◌, Option, none, some, List, arith, ◌==◌,
  Bool-cases, min, length, length-take,
}
use softupdate.Eeprom.{eeprom_i2c_addr, read_all, copy_out, eeprom_read_buf}
use softupdate.Eeprom.Smbus.{Susi, Reaches}

-- The block read was answered with the memory's bytes.
abbrev pub Answered : {W : Type 0} → Option (List ℕ) × W → Type 0
Answered (none, w) = ⊥
Answered (some block, w) = Unit {0}

module _ {W : Type 0} (susi : Susi W) (mem : W → List ℕ)
    (law : Reaches susi eeprom_i2c_addr mem) where
  length-read_all :
      (block : List ℕ) (w w1 : W) → read_all susi w ≡ (some block, w1) → length block ≡ 255
  unfolding read_all
  length-read_all block w w1 e =
      let (same, kept) = law.reads 0 255 block w w1 e in
      omega (arith, ap length same, length-take 255 (mem w), law.size w)

  copy_out-fault :
      (start n : ℕ) (w : W) (x : Option (List ℕ) × W)
      → read_all susi w ≡ x
      → (copy_out susi start n x ≡ none) ↔ ((255 < start + n) × Answered x)
  unfolding copy_out
  copy_out-fault start n w (none, w1) e = ((λ h. cc), (λ h. absurd h.1))
  copy_out-fault start n w (some block, w1) e =
      let size = length-read_all block w w1 e in ground (arith, size)

  -- `eeprom_read_buf` reads past its local buffer exactly when the range asked for, clamped to
  -- 255 bytes, ends behind the memory's last byte and the device has answered.
  pub eeprom_read_buf-fault :
      (start len : ℕ) (w : W)
      → (eeprom_read_buf susi start len w ≡ none)
        ↔ ((255 < start + min len 255) × Answered (read_all susi w))
  unfolding eeprom_read_buf
  eeprom_read_buf-fault start len w = elim (Bool-cases ((start == 0) && (min len 255 == 255))) [
    | inl whole ↦ rw (whole, eeprom_read_buf) ((λ h. cc), (λ h. absurd (ground arith)))
    | inr part ↦
        rw (part, eeprom_read_buf) (copy_out-fault start (min len 255) w (read_all susi w) refl)
  ]
