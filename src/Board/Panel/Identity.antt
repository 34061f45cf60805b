-- ===== src/Board/Panel/Identity.antt =====
-- The MAC and the serial number in the panel's EEPROM: what is written is read back.
use softupdate.Prelude.{
  ℕ, zero, suc, ◌≡◌, refl, ap, sym, ◌∙◌, true, Option, none, some, List, ◌++◌, drop-drop,
  drop-append_ge, arith, Bool-cases, inl, inr, min, length, take, drop, overwrite, take-all,
  take-append, some_inj,
}
use softupdate.Prelude.Int.{ℤ, pos, negsuc}
use softupdate.Eeprom.{
  Reply, success, eeprom_i2c_addr, eeprom_open, eeprom_close, eeprom_read_buf, eeprom_write_buf,
}
use softupdate.Eeprom.Smbus.{Susi, Reaches}
use softupdate.Eeprom.Contents.{eeprom_write_buf_lem, eeprom_read_buf_lem}
use softupdate.Board.Panel.{
  bad_length, to_uint, write_code, read_code, closed_read, read_open, read_option_buffer,
  closed_write, write_open, write_option_buffer, identity_bytes, read_mac, read_serial_number,
  write_mac,
}

-- Starting and stopping the library leaves the memory as it is.
pub record Keeps {W : Type 0} (susi : Susi W) (mem : W → List ℕ) : Type 0 where
  pub init : (w : W) → mem (susi.dll_init w).1 ≡ mem w
  pub uninit : (w : W) → mem (susi.dll_uninit w).1 ≡ mem w
  pub available : (w : W) → mem (susi.smbus_available w).1 ≡ mem w

module _ {W : Type 0} (susi : Susi W) (mem : W → List ℕ) (law : Reaches susi eeprom_i2c_addr mem)
    (keeps : Keeps susi mem) where
  open_keeps : (w : W) → mem (eeprom_open susi w).1 ≡ mem w
  unfolding eeprom_open
  open_keeps w = elim (Bool-cases (susi.dll_init w).0) [
    | inl up ↦ rw up (elim (Bool-cases (susi.smbus_available (susi.dll_init w).1).0) [
      | inl ready ↦ rw ready (keeps.available _ ∙ keeps.init w)
      | inr busy ↦ rw busy (keeps.uninit _ ∙ keeps.available _ ∙ keeps.init w)
    ])
    | inr down ↦ rw down (keeps.init w)
  ]

  close_keeps : (w : W) → mem (eeprom_close susi w).1 ≡ mem w
  unfolding eeprom_close
  close_keeps w = elim (Bool-cases (susi.dll_uninit w).0) [
    | inl down ↦ rw down (keeps.uninit w)
    | inr up ↦ rw up (keeps.uninit w)
  ]

  closed_write_lem :
      (start len : ℕ) (bytes : List ℕ) (w w1 : W) (o : Option (ℤ × W))
      → eeprom_write_buf susi start len bytes w ≡ o
      → closed_write susi o ≡ some (pos 0, w1)
      → mem w1 ≡ overwrite (mem w) start (take (min len 255) bytes)
  unfolding closed_write write_code
  closed_write_lem start len bytes w w1 none e done = cc
  closed_write_lem start len bytes w w1 (some (pos zero, w')) e done =
      ap (λ (x : ℤ × W). mem x.1) (sym (some_inj done))
      ∙ close_keeps w'
      ∙ eeprom_write_buf_lem susi mem law start len bytes w w' e
  closed_write_lem start len bytes w w1 (some (pos (suc n), w')) e done =
      cc (ap (λ (x : ℤ × W). x.0) (some_inj done))
  closed_write_lem start len bytes w w1 (some (negsuc n, w')) e done =
      cc (ap (λ (x : ℤ × W). x.0) (some_inj done))

  write_open_lem :
      (start len : ℤ) (bytes : List ℕ) (w w1 : W) (x : ℤ × W)
      → mem x.1 ≡ mem w
      → write_open susi bytes start len x ≡ some (pos 0, w1)
      → mem w1 ≡ overwrite (mem w) (to_uint start) (take (min (to_uint len) 255) bytes)
  unfolding write_open
  write_open_lem start len bytes w w1 (negsuc zero, w') same done =
      cc (ap (λ (x : ℤ × W). x.0) (some_inj done))
  write_open_lem start len bytes w w1 (negsuc (suc n), w') same done =
      closed_write_lem (to_uint start) (to_uint len) bytes w' w1 _ refl done
      ∙ ap (λ m. overwrite m (to_uint start) (take (min (to_uint len) 255) bytes)) same
  write_open_lem start len bytes w w1 (pos n, w') same done =
      closed_write_lem (to_uint start) (to_uint len) bytes w' w1 _ refl done
      ∙ ap (λ m. overwrite m (to_uint start) (take (min (to_uint len) 255) bytes)) same

  -- When `WriteOptionBuffer` reports success the memory holds the first `len` bytes given, at most
  -- 255, at `start`, and else what it held before.
  pub write_option_buffer_lem :
      (bytes : List ℕ) (start len : ℤ) (w w1 : W)
      → write_option_buffer susi bytes start len w ≡ some (pos 0, w1)
      → mem w1 ≡ overwrite (mem w) (to_uint start) (take (min (to_uint len) 255) bytes)
  unfolding write_option_buffer
  write_option_buffer_lem bytes start len w w1 done = elim (Bool-cases (bad_length len)) [
    | inl bad ↦ cc (ap (λ (x : ℤ × W). x.0) (some_inj (rw (bad, write_option_buffer) at done)))
    | inr good ↦
        write_open_lem start len bytes w w1 (eeprom_open susi w) (open_keeps w)
          (rw (good, write_option_buffer) at done)
  ]

  success_of : (c : ℤ) → read_code susi c ≡ pos 0 → c ≡ success
  unfolding read_code
  success_of (pos zero) h = refl
  success_of (pos (suc n)) h = cc
  success_of (negsuc n) h = cc

  closed_read_lem :
      (start len : ℕ) (w : W) (r : Reply W) (o : Option (Reply W))
      → eeprom_read_buf susi start len w ≡ o
      → closed_read susi o ≡ some r
      → r.code ≡ pos 0
      → (r.bytes ≡ take (min len 255) (drop start (mem w))) × (mem r.after ≡ mem w)
  unfolding closed_read
  closed_read_lem start len w r none e done ok = cc
  closed_read_lem start len w r (some inner) e done ok =
      let good = success_of inner.code (ap (λ (t : Reply W). t.code) (some_inj done) ∙ ok) in
      let (got, kept) = eeprom_read_buf_lem susi mem law start len w inner e good in
      (
        ap (λ (t : Reply W). t.bytes) (sym (some_inj done)) ∙ got,
        ap (λ (t : Reply W). mem t.after) (sym (some_inj done)) ∙ close_keeps inner.after ∙ kept,
      )

  read_open_lem :
      (start len : ℤ) (w : W) (r : Reply W) (x : ℤ × W)
      → mem x.1 ≡ mem w
      → read_open susi start len x ≡ some r
      → r.code ≡ pos 0
      → (r.bytes ≡ take (min (to_uint len) 255) (drop (to_uint start) (mem w)))
        × (mem r.after ≡ mem w)
  unfolding read_open
  read_open_lem start len w r (negsuc zero, w') same done ok =
      cc (ap (λ (t : Reply W). t.code) (some_inj done))
  read_open_lem start len w r (negsuc (suc n), w') same done ok =
      rw (← same) (closed_read_lem (to_uint start) (to_uint len) w' r _ refl done ok)
  read_open_lem start len w r (pos n, w') same done ok =
      rw (← same) (closed_read_lem (to_uint start) (to_uint len) w' r _ refl done ok)

  -- When `ReadOptionBuffer` reports success it has copied `len` bytes from `start`, at most 255, and
  -- the memory is as before.
  pub read_option_buffer_lem :
      (start len : ℤ) (w : W) (r : Reply W)
      → read_option_buffer susi start len w ≡ some r
      → r.code ≡ pos 0
      → (r.bytes ≡ take (min (to_uint len) 255) (drop (to_uint start) (mem w)))
        × (mem r.after ≡ mem w)
  unfolding read_option_buffer
  read_option_buffer_lem start len w r done ok = elim (Bool-cases (bad_length len)) [
    | inl bad ↦ cc (ap (λ (t : Reply W). t.code) (some_inj (rw (bad, read_option_buffer) at done)))
    | inr good ↦
        read_open_lem start len w r (eeprom_open susi w) (open_keeps w)
          (rw (good, read_option_buffer) at done) ok
  ]

  identity_lem :
      (n : ℕ) (o : Option (Reply W)) (r : Reply W)
      → identity_bytes susi n o ≡ some r
      → r.code ≡ pos 0
      → o ≡ some r
  unfolding identity_bytes
  identity_lem n none r e ok = cc
  identity_lem n (some inner) r e ok = go inner.code refl
    where
      go : (c : ℤ) → inner.code ≡ c → some inner ≡ some r
      go (pos zero) h = rw (h, identity_bytes) at e
      go (pos (suc m)) h = cc
      go (negsuc m) h = cc

  -- A MAC of six bytes that `WriteMAC` reports as written is what `ReadMAC` gives when it reports
  -- success, and the serial number that `ReadSerialNumber` then gives is the one from before.
  pub write_mac-read_mac :
      (mac : List ℕ) (w w1 : W) (r s : Reply W)
      → length mac ≡ 6
      → write_mac susi mac w ≡ some (pos 0, w1)
      → read_mac susi true w1 ≡ some r
      → r.code ≡ pos 0
      → read_serial_number susi true w1 ≡ some s
      → s.code ≡ pos 0
      → (r.bytes ≡ mac) × (s.bytes ≡ take 14 (drop 16 (mem w)))
  unfolding write_mac read_mac read_serial_number to_uint
  write_mac-read_mac mac w w1 r s six wrote got_r ok_r got_s ok_s = (
    (read_option_buffer_lem (pos 0) (pos 6) w1 r (identity_lem 6 _ r got_r ok_r) ok_r).0
        ∙ ap (take 6) holds
        ∙ take-append mac _ 6 six,
    (read_option_buffer_lem (pos 16) (pos 14) w1 s (identity_lem 14 _ s got_s ok_s) ok_s).0
        ∙ ap (λ m. take 14 (drop 16 m)) holds
        ∙ ap (take 14) (
            drop-append_ge mac (drop 6 (mem w)) 16 10 (omega (arith, six))
            ∙ sym (drop-drop 6 10 16 (mem w) refl)),
  )
    where
      holds : mem w1 ≡ mac ++ drop 6 (mem w)
      holds =
          write_option_buffer_lem mac (pos 0) (pos 6) w w1 wrote
          ∙ (rw (take-all mac 6 (omega arith), six) refl)
