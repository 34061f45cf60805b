-- ===== src/Board/Access/Options/Panels.antt =====
-- What `WriteOptionBit` does to the panel's memory.
use softupdate.Prelude.{
  ℕ, zero, suc, ◌≤◌, ◌<◌, ◌≡◌, refl, ap, ◌∙◌, Bool, true, false, ◌||◌, not, Option, none, some,
  List, [], ◌∷◌, ◌++◌, arith, Bool-cases, inl, inr, length, take, drop, set, overwrite, some_inj,
  length-set, length-take, take-all,
}
use softupdate.Prelude.Int.{ℤ, pos, negsuc, ◌+ℤ◌, ltb_ℤ}
use softupdate.Eeprom.{Reply, eeprom_i2c_addr}
use softupdate.Eeprom.Smbus.{Reaches}
use softupdate.Board.Panel.{to_uint, read_option_buffer, write_option_buffer}
use softupdate.Board.Panel.Identity.{Keeps, write_option_buffer_lem, read_option_buffer_lem}
use softupdate.Board.Password.{check_pwd}
use softupdate.Board.Access.{Machine, option_start, index_valid, div8}
use softupdate.Board.Access.Options.{
  OptionInfo, changed_byte, if_accepted, accepts, panel_bit, option_bit_at, write_option_bit,
}

-- The password of the panel, whose memory is given.
abbrev pub panel_password_ok : List ℕ → OptionInfo → List ℕ → Option Bool
panel_password_ok stack o memory =
    check_pwd stack o.offset o.sz_pwd (take 6 (take 255 memory))
      (take 14 (drop 16 (take 255 memory)) ++ (0 ∷ 0 ∷ []))

-- The memory with the option's byte changed.
abbrev pub with_option : OptionInfo → ℕ → List ℕ → List ℕ
with_option o count memory =
    overwrite memory 0 (set (take 255 memory) count (changed_byte (take 255 memory) count o))

module _ {W : Type 0} (m : Machine W) (mem : W → List ℕ) (law : Reaches m.susi eeprom_i2c_addr mem)
    (keeps : Keeps m.susi mem) where
  stored :
      (o : OptionInfo) (count : ℕ) (buf : List ℕ) (w w1 w2 : W)
      → buf ≡ take 255 (mem w)
      → mem w1 ≡ mem w
      → if_accepted
          (accepts m o (take 6 buf) (take 14 (drop 16 buf) ++ (0 ∷ 0 ∷ [])))
          (write_option_buffer m.susi
            (set buf count (changed_byte buf count o))
            (pos 0)
            (pos 255)
            w1)
          w1
        ≡ some (pos 0, w2)
      → (panel_password_ok m.stack o (mem w) ≡ some true) × (mem w2 ≡ with_option o count (mem w))
  unfolding accepts to_uint if_accepted
  stored o count buf w w1 w2 read kept done =
      go (accepts m o (take 6 buf) (take 14 (drop 16 buf) ++ (0 ∷ 0 ∷ []))) refl done
    where
      short :
          (xs : List ℕ) → length xs ≤ 255 → length (set xs count (changed_byte xs count o)) ≤ 255
      short xs h = omega (arith, length-set xs count (changed_byte xs count o))

      go :
          (x : Option Bool)
          → accepts m o (take 6 buf) (take 14 (drop 16 buf) ++ (0 ∷ 0 ∷ [])) ≡ x
          → if_accepted x
              (write_option_buffer m.susi
                (set buf count (changed_byte buf count o))
                (pos 0)
                (pos 255)
                w1)
              w1
            ≡ some (pos 0, w2)
          → (panel_password_ok m.stack o (mem w) ≡ some true)
            × (mem w2 ≡ with_option o count (mem w))
      go none e d = cc
      go (some false) e d = cc (ap (λ (x : ℤ × W). x.0) (some_inj d))
      go (some true) right d = (
        rw (← read) right,
        write_option_buffer_lem m.susi mem law keeps _ (pos 0) (pos 255) w1 w2 d
            ∙ rw
                (
                  read,
                  kept,
                  take-all (set (take 255 (mem w)) count (changed_byte (take 255 (mem w)) count o))
                      255 (short (take 255 (mem w)) (omega (arith, length-take 255 (mem w)))),
                )
                refl,
      )

  panel_bit_lem :
      (o : OptionInfo) (count : ℕ) (w w1 : W) (x : Option (Reply W))
      → read_option_buffer m.susi (pos 0) (pos 255) w ≡ x
      → panel_bit m o count x ≡ some (pos 0, w1)
      → (panel_password_ok m.stack o (mem w) ≡ some true) × (mem w1 ≡ with_option o count (mem w))
  unfolding panel_bit to_uint
  panel_bit_lem o count w w1 none e done = cc
  panel_bit_lem o count w w1 (some r) e done = go r.code refl
    where
      go :
          (c : ℤ)
          → r.code ≡ c
          → (panel_password_ok m.stack o (mem w) ≡ some true)
            × (mem w1 ≡ with_option o count (mem w))
      go (pos zero) h =
          let (got, kept) = read_option_buffer_lem m.susi mem law keeps (pos 0) (pos 255) w r e h in
          stored o count r.bytes w r.after w1 got kept (rw (h, panel_bit) at done)
      go (pos (suc n)) h = cc (ap (λ (x : ℤ × W). x.0) (some_inj (rw (h, panel_bit) at done)))
      go (negsuc n) h = cc (ap (λ (x : ℤ × W). x.0) (some_inj (rw (h, panel_bit) at done)))

  in_range :
      (o : OptionInfo) (count : ℕ) (w w1 : W)
      → index_valid o.index ≡ false
      → option_bit_at m o (pos count) w ≡ some (pos 0, w1)
      → (option_start ≤ count)
        × (count < 255)
        × (panel_bit m o count (read_option_buffer m.susi (pos 0) (pos 255) w) ≡ some (pos 0, w1))
  unfolding option_bit_at
  in_range o count w w1 panel d =
      elim (Bool-cases
        (ltb_ℤ (pos count) (pos option_start) || not (ltb_ℤ (pos count) (pos 255)))) [
          | inl out ↦ cc (ap (λ (x : ℤ × W). x.0) (some_inj (rw (out, option_bit_at) at d)))
          | inr inside ↦ (
            ground (arith, inside),
            ground (arith, inside),
            rw (inside, panel, option_bit_at) at d,
          )
        ]

  -- For an index that names no board: when `WriteOptionBit` reports success, the password was the
  -- one for the panel's MAC and serial number, the byte was one from 0x30 to 254, and the memory
  -- has changed in the option's byte alone.
  pub write_option_bit_lem :
      (o : OptionInfo) (w w1 : W)
      → index_valid o.index ≡ false
      → write_option_bit m o w ≡ some (pos 0, w1)
      → (count : ℕ) × (div8 o.offset +ℤ pos option_start ≡ pos count)
        × (option_start ≤ count)
        × (count < 255)
        × (panel_password_ok m.stack o (mem w) ≡ some true)
        × (mem w1 ≡ with_option o count (mem w))
  unfolding write_option_bit
  write_option_bit_lem o w w1 panel done = go (div8 o.offset +ℤ pos option_start) refl done
    where
      go :
          (c : ℤ)
          → div8 o.offset +ℤ pos option_start ≡ c
          → option_bit_at m o c w ≡ some (pos 0, w1)
          → (count : ℕ) × (div8 o.offset +ℤ pos option_start ≡ pos count)
            × (option_start ≤ count)
            × (count < 255)
            × (panel_password_ok m.stack o (mem w) ≡ some true)
            × (mem w1 ≡ with_option o count (mem w))
      go (pos count) e d =
          let (low, high, ran) = in_range o count w w1 panel d in
          let (ok, changed) = panel_bit_lem o count w w1 _ refl ran in
          (count, e, low, high, ok, changed)
      go (negsuc n) e d = cc (ap (λ (x : ℤ × W). x.0) (some_inj d))
