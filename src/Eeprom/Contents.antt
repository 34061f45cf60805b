-- ===== src/Eeprom/Contents.antt =====
-- What the EEPROM holds after `eeprom_read_buf` and `eeprom_write_buf`.
use softupdate.Prelude.{
  ℕ, ◌+◌, ◌≤◌, ◌≡◌, refl, ap, sym, ◌∙◌, inl, inr, Bool, true, false, ◌&&◌, Option, none, some, List,
  arith, leb, ◌==◌, Bool-cases, min, length, take, drop, overwrite, slice?, leb→le, take-drop-take,
  some_inj, slice-overwrite, overwrite-block, length-take,
}
use mathlib.Core.Path.{ap₂}
use softupdate.Eeprom.{
  Reply, reply, success, eeprom_i2c_addr, read_all, copy_out, direct_read, eeprom_read_buf,
  eeprom_write_buf, rewrite, direct_write, splice, write_code,
}
use softupdate.Eeprom.Smbus.{Susi, Reaches}

module _ {W : Type 0} (susi : Susi W) (mem : W → List ℕ)
    (law : Reaches susi eeprom_i2c_addr mem) where
  write_code_lem : (x : Bool × W) (w1 : W) → write_code susi x ≡ (success, w1) → x ≡ (true, w1)
  unfolding write_code
  write_code_lem (true, w) w1 e = ap (λ t. (true, t.1)) e
  write_code_lem (false, w) w1 e = cc (ap (λ t. t.0) e)

  splice_lem :
      (start : ℕ) (bytes block : List ℕ) (w w' w1 : W)
      → read_all susi w ≡ (some block, w')
      → splice susi start bytes block w' ≡ some (success, w1)
      → mem w1 ≡ overwrite (mem w) start bytes
  unfolding splice read_all
  splice_lem start bytes block w w' w1 e done =
      elim (Bool-cases (leb (start + length bytes) (length block))) [
        | inl fits ↦
            let (same, kept) = law.reads 0 255 block w w' e in
            let put : mem w1 ≡ overwrite (mem w') 0 (overwrite block start bytes) =
              law.writes 0 (overwrite block start bytes) w' w1
                (write_code_lem _ w1 (some_inj (rw (fits, splice) at done))) in
            let size : length block ≡ 255 =
              omega (arith, ap length same, length-take 255 (mem w), law.size w) in
            put
            ∙ ap₂ (λ m b. overwrite m 0 (overwrite b start bytes)) kept same
            ∙ overwrite-block (mem w) bytes start 255 (omega (arith, leb→le _ _ fits, size))
                (law.size w)
        | inr over ↦ cc (rw (over, splice) at done)
      ]

  slice_lem :
      (buf bytes : List ℕ) (n : ℕ)
      → slice? buf 0 n ≡ some bytes
      → (take n buf ≡ bytes) × (n ≤ length buf)
  slice_lem buf bytes n e = ground arith

  rewrite_lem :
      (start len : ℕ) (buf : List ℕ) (w w1 : W) (x : Option (List ℕ) × W)
      → read_all susi w ≡ x
      → rewrite susi start len buf x ≡ some (success, w1)
      → mem w1 ≡ overwrite (mem w) start (take len buf)
  unfolding rewrite
  rewrite_lem start len buf w w1 (none, w') e done = cc (ap (λ t. t.0) (some_inj done))
  rewrite_lem start len buf w w1 (some block, w') e done = go (slice? buf 0 len) refl
    where
      go :
          (o : Option (List ℕ))
          → slice? buf 0 len ≡ o
          → mem w1 ≡ overwrite (mem w) start (take len buf)
      go none h = cc (rw (h, rewrite) at done)
      go (some bytes) h =
          rw (slice_lem buf bytes len h).0
            (splice_lem start bytes block w w' w1 e (rw (h, rewrite) at done))

  direct_write_lem :
      (start len : ℕ) (buf : List ℕ) (w w1 : W) (o : Option (List ℕ))
      → slice? buf 0 len ≡ o
      → direct_write susi start o w ≡ some (success, w1)
      → mem w1 ≡ overwrite (mem w) start (take len buf)
  unfolding direct_write
  direct_write_lem start len buf w w1 none h done = cc
  direct_write_lem start len buf w w1 (some bytes) h done =
      rw (slice_lem buf bytes len h).0
        (law.writes start bytes w w1 (write_code_lem _ w1 (some_inj done)))

  -- When `eeprom_write_buf` reports success, the memory holds the bytes given, at most 255 of them,
  -- at `start`, and else what it held before.
  pub eeprom_write_buf_lem :
      (start len : ℕ) (buf : List ℕ) (w w1 : W)
      → eeprom_write_buf susi start len buf w ≡ some (success, w1)
      → mem w1 ≡ overwrite (mem w) start (take (min len 255) buf)
  unfolding eeprom_write_buf
  eeprom_write_buf_lem start len buf w w1 done =
      elim (Bool-cases ((start == 0) && (min len 255 == 255))) [
        | inl whole ↦
            direct_write_lem start (min len 255) buf w w1 (slice? buf 0 (min len 255)) refl
              (rw (whole, eeprom_write_buf) at done)
        | inr part ↦
            rewrite_lem start (min len 255) buf w w1 (read_all susi w) refl
              (rw (part, eeprom_write_buf) at done)
      ]

  direct_read_lem :
      (start len : ℕ) (w : W) (x : Option (List ℕ) × W)
      → susi.read_multi eeprom_i2c_addr start len w ≡ x
      → (direct_read susi x).code ≡ success
      → ((direct_read susi x).bytes ≡ take len (drop start (mem w)))
        × (mem (direct_read susi x).after ≡ mem w)
  unfolding direct_read
  direct_read_lem start len w (none, w') e done = cc
  direct_read_lem start len w (some block, w') e done = law.reads start len block w w' e

  copy_out_lem :
      (start n : ℕ) (w : W) (x : Option (List ℕ) × W) (r : Reply W)
      → read_all susi w ≡ x
      → copy_out susi start n x ≡ some r
      → r.code ≡ success
      → (r.bytes ≡ take n (drop start (mem w))) × (mem r.after ≡ mem w)
  unfolding copy_out read_all
  copy_out_lem start n w (none, w') r e h done = cc (ap (λ (t : Reply W). t.code) (some_inj h))
  copy_out_lem start n w (some block, w') r e h done =
      let (same, kept) = law.reads 0 255 block w w' e in
      let size : length block ≡ 255 =
        omega (arith, ap length same, length-take 255 (mem w), law.size w) in
      elim (Bool-cases (leb (start + n) (length block))) [
        | inl fits ↦
            let out : reply success (take n (drop start block)) w' ≡ r =
              some_inj (rw (fits, copy_out) at h) in
            (
              ap (λ (t : Reply W). t.bytes) (sym out)
                  ∙ ap (λ b. take n (drop start b)) same
                  ∙ take-drop-take start n 255 (mem w) (omega (arith, leb→le _ _ fits, size)),
              ap (λ (t : Reply W). mem t.after) (sym out) ∙ kept,
            )
        | inr over ↦ cc (rw (over, copy_out) at h)
      ]

  -- A read that reports success has copied the bytes asked for, at most 255 of them, and has
  -- changed none.
  pub eeprom_read_buf_lem :
      (start len : ℕ) (w : W) (r : Reply W)
      → eeprom_read_buf susi start len w ≡ some r
      → r.code ≡ success
      → (r.bytes ≡ take (min len 255) (drop start (mem w))) × (mem r.after ≡ mem w)
  unfolding eeprom_read_buf
  eeprom_read_buf_lem start len w r h done =
      elim (Bool-cases ((start == 0) && (min len 255 == 255))) [
        | inl whole ↦
            let out : direct_read susi (susi.read_multi eeprom_i2c_addr start (min len 255) w) ≡ r =
              some_inj (rw (whole, eeprom_read_buf) at h) in
            rw (← out) (direct_read_lem start (min len 255) w _ refl (rw (← out) at done))
        | inr part ↦
            copy_out_lem start (min len 255) w (read_all susi w) r refl
              (rw (part, eeprom_read_buf) at h) done
      ]

  -- What was written reads back, where it lies inside the memory: both calls report success, and
  -- the second one copies the bytes that the first one was given.
  pub eeprom_write-read :
      (start len : ℕ) (buf : List ℕ) (w w1 : W) (r : Reply W)
      → start + min len 255 ≤ 255
      → min len 255 ≤ length buf
      → eeprom_write_buf susi start len buf w ≡ some (success, w1)
      → eeprom_read_buf susi start len w1 ≡ some r
      → r.code ≡ success
      → r.bytes ≡ take (min len 255) buf
  eeprom_write-read start len buf w w1 r inside enough written read done =
      (eeprom_read_buf_lem start len w1 r read done).0
      ∙ ap (λ m. take (min len 255) (drop start m))
          (eeprom_write_buf_lem start len buf w w1 written)
      ∙ ap (λ n. take n (drop start (overwrite (mem w) start (take (min len 255) buf)))) (sym size)
      ∙ slice-overwrite (mem w) (take (min len 255) buf) start (omega (arith, size, law.size w))
    where
      size : length (take (min len 255) buf) ≡ min len 255
      size = omega (arith, length-take (min len 255) buf)
