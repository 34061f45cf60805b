-- ===== src/Eeprom/Smbus.antt =====
-- The calls of the SUSI library that v400eeprom.c makes (v400eeprom/SUSI.h), over the state `W` of
-- the machine. A `FALSE` result is `false` or `none`.
use softupdate.Prelude.{ℕ, ◌≤◌, ◌≡◌, Bool, true, Option, some, List, length, take, drop, overwrite}

pub record Susi (W : Type 0) : Type 0 where
  pub dll_init : W → Bool × W
  pub dll_uninit : W → Bool × W
  pub smbus_available : W → Bool × W
  pub read_byte : ℕ → ℕ → W → Option ℕ × W
  pub write_byte : ℕ → ℕ → ℕ → W → Bool × W
  -- slave address, first register, length
  pub read_multi : ℕ → ℕ → ℕ → W → Option (List ℕ) × W
  pub write_multi : ℕ → ℕ → List ℕ → W → Bool × W

-- The block calls reach a memory behind one slave address: a block read that succeeds gives the
-- bytes that lie there and changes none, a block write that succeeds puts its bytes there.
pub record Reaches {W : Type 0} (susi : Susi W) (slave : ℕ) (mem : W → List ℕ) : Type 0 where
  pub reads :
      (start len : ℕ) (bytes : List ℕ) (w w1 : W)
      → susi.read_multi slave start len w ≡ (some bytes, w1)
      → (bytes ≡ take len (drop start (mem w))) × (mem w1 ≡ mem w)
  pub writes :
      (start : ℕ) (bytes : List ℕ) (w w1 : W)
      → susi.write_multi slave start bytes w ≡ (true, w1)
      → mem w1 ≡ overwrite (mem w) start bytes
  pub size : (w : W) → 255 ≤ length (mem w)
