-- ===== src/Md5/Streaming.antt =====
-- `MD5Update` fed in pieces: the context always stands for the whole message so far.
use softupdate.Prelude.{
  ℕ, suc, ◌+◌, ◌-◌, ◌*◌, ◌/◌, ◌%◌, ◌^◌, ◌≤◌, ◌<◌, ◌≡◌, refl, ap, ◌∙◌, sym, inl, inr, List, ◌++◌,
  arith, length, take, drop, leb, Bool-cases, drop-append_le, drop-append_ge, take-append_ge,
  length-append, length-take, length-drop, overwrite, take-overwrite, overwrite_to_end,
  length-overwrite,
}
use softupdate.Md5.Transform.{transform}
use softupdate.Md5.Context.{Context, initial, update, count_lo, count_hi}
use softupdate.Md5.Blocks.{absorb, absorb-append, absorb-split, transform_blocks-eq-absorb}

-- `c` is what the calls of `MD5Update` on the pieces of `m` leave behind.
pub record Represents (m : List ℕ) (c : Context) : Type 0 where
  pub state : c.state ≡ absorb (length m / 64) initial m
  pub room : length c.buffer ≡ 64
  pub tail : take (length m % 64) c.buffer ≡ drop (64 * (length m / 64)) m
  pub lo : c.lo ≡ (8 * length m) % 2 ^ 32
  pub hi : c.hi ≡ (8 * length m) / 2 ^ 32 % 2 ^ 32

-- The bit count is kept modulo 2 ^ 64 over the two words.
counts :
    (n len lo hi : ℕ)
    → len + 64 ≤ 2 ^ 32
    → lo ≡ (8 * n) % 2 ^ 32
    → hi ≡ (8 * n) / 2 ^ 32 % 2 ^ 32
    → (count_lo lo len ≡ (8 * (n + len)) % 2 ^ 32)
      × (count_hi lo hi len ≡ (8 * (n + len)) / 2 ^ 32 % 2 ^ 32)
unfolding count_lo count_hi
counts n len lo hi small p q = (omega arith, ground arith)

module _ (m input : List ℕ) (c : Context) (r : Represents m c)
    (small : length input + 64 ≤ 2 ^ 32) where
  index : c.lo / 8 % 64 ≡ length m % 64
  index = omega (arith, r.lo)

  total : length (m ++ input) ≡ length m + length input
  total = length-append m input

  lo_counts : count_lo c.lo (length input) ≡ (8 * length (m ++ input)) % 2 ^ 32
  lo_counts = omega (arith, total, counts (length m) (length input) c.lo c.hi small r.lo r.hi)

  hi_counts : count_hi c.lo c.hi (length input) ≡ (8 * length (m ++ input)) / 2 ^ 32 % 2 ^ 32
  hi_counts = omega (arith, total, counts (length m) (length input) c.lo c.hi small r.lo r.hi)

  -- The input does not fill the block: it is only copied.
  short :
      length m % 64 + length input < 64
      → Represents (m ++ input) (record {
        state = c.state;
        lo = count_lo c.lo (length input);
        hi = count_hi c.lo c.hi (length input);
        buffer = overwrite c.buffer (length m % 64) input;
      })
  short h = record {
    state =
        r.state
        ∙ sym (absorb-append (length m / 64) initial m input (omega arith))
        ∙ ap (λ k. absorb k initial (m ++ input)) same_blocks;
    room = omega (arith, r.room, length-overwrite c.buffer input (length m % 64));
    tail =
        take-overwrite c.buffer input (length m % 64) (length (m ++ input) % 64)
          (omega (arith, r.room)) (omega (arith, total))
        ∙ ap (λ t. t ++ input) r.tail
        ∙ sym (drop-append_le m input (64 * (length m / 64)) (omega arith))
        ∙ ap (λ k. drop (64 * k) (m ++ input)) same_blocks;
    lo = lo_counts;
    hi = hi_counts;
  }
    where
      same_blocks : length m / 64 ≡ length (m ++ input) / 64
      same_blocks = omega (arith, total)

  -- The buffer filled up to its end is the next block of the message.
  filled : ℕ → List ℕ
  filled p = overwrite c.buffer (length m % 64) (take p input)

  module _ (p : ℕ) (fits : length m % 64 + p ≡ 64) (reaches : p ≤ length input) where
    filled-block : filled p ≡ take 64 (drop (64 * (length m / 64)) (m ++ input))
    unfolding filled
    filled-block =
        overwrite_to_end c.buffer (take p input) (length m % 64)
          (omega (arith, r.room, length-take p input))
        ∙ ap (λ t. t ++ take p input) r.tail
        ∙ sym (
            take-append_ge (drop (64 * (length m / 64)) m) input 64 p
              (omega (arith, length-drop (64 * (length m / 64)) m)))
        ∙ ap (take 64) (sym (drop-append_le m input (64 * (length m / 64)) (omega arith)))

    length-filled : length (filled p) ≡ 64
    unfolding filled
    length-filled = omega (
      arith,
      r.room,
      length-take p input,
      length-overwrite c.buffer (take p input) (length m % 64),
    )

    first_block : transform c.state (filled p) ≡ absorb (suc (length m / 64)) initial (m ++ input)
    unfolding absorb
    first_block =
        ap (λ b. transform c.state b) filled-block
        ∙ ap (λ st. transform st (take 64 (drop (64 * (length m / 64)) (m ++ input))))
            (r.state ∙ sym (absorb-append (length m / 64) initial m input (omega arith)))
        ∙ sym (
            absorb-split (length m / 64) 1 (suc (length m / 64)) initial (m ++ input) (omega arith))

    rest_of_message :
        (k n : ℕ)
        → n ≡ suc (length m / 64) + k
        → drop (p + 64 * k) input ≡ drop (64 * n) (m ++ input)
    rest_of_message k n e = sym (drop-append_ge m input (64 * n) (p + 64 * k) (omega arith))

    -- The block is filled, the whole blocks of the rest are taken, and what is left is copied.
    long :
        (k : ℕ)
        → k ≡ (length input - p) / 64
        → Represents (m ++ input) (record {
          state = absorb k (transform c.state (filled p)) (drop p input);
          lo = count_lo c.lo (length input);
          hi = count_hi c.lo c.hi (length input);
          buffer = overwrite (filled p) 0 (drop (p + 64 * k) input);
        })
    long k e = record {
      state =
          ap (λ st. absorb k st (drop p input)) first_block
          ∙ ap (absorb k (absorb (suc (length m / 64)) initial (m ++ input))) (
              ap (λ j. drop j input) (omega arith)
              ∙ rest_of_message 0 (suc (length m / 64)) (omega arith))
          ∙ sym (
              absorb-split (suc (length m / 64)) k (length (m ++ input) / 64) initial (m ++ input)
                blocks);
      room = omega (
        arith,
        length-filled,
        length-drop (p + 64 * k) input,
        length-overwrite (filled p) (drop (p + 64 * k) input) 0,
      );
      tail =
          take-overwrite (filled p) (drop (p + 64 * k) input) 0 (length (m ++ input) % 64)
            (omega arith) (omega (arith, total, length-drop (p + 64 * k) input))
          ∙ rest_of_message k (length (m ++ input) / 64) blocks;
      lo = lo_counts;
      hi = hi_counts;
    }
      where
        blocks : length (m ++ input) / 64 ≡ suc (length m / 64) + k
        blocks = omega (arith, total)

  -- A call of `MD5Update` appends its input to the message, whatever the lengths, as long as the
  -- input leaves the `unsigned int` index room to step past its end.
  pub update-Represents : Represents (m ++ input) (update c input)
  unfolding update filled
  update-Represents = rw index (elim (Bool-cases (leb (64 - length m % 64) (length input))) [
    | inl full ↦
        rw
          (
            full,
            transform_blocks-eq-absorb (length input) ((length input - (64 - length m % 64)) / 64)
                input (64 - length m % 64) (transform c.state (filled (64 - length m % 64))) small
                (ground arith) refl (ground arith),
          )
          (long (64 - length m % 64) (omega arith) (ground arith) _ refl)
    | inr open_block ↦ rw open_block (short (ground arith))
  ])
