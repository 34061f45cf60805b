-- ===== src/Md5/Blocks.antt =====
-- The block loop of `MD5Update` against a run over the first `k` blocks of a message.
use softupdate.Prelude.{
  ℕ, zero, suc, ◌+◌, ◌-◌, ◌*◌, ◌/◌, ◌^◌, ◌≤◌, ◌<◌, ◌≡◌, refl, ap, ◌∙◌, sym, inl, inr, List, ◌++◌,
  arith, length, take, drop, ltb, Bool-cases, take-append_le, drop-append_le, drop-drop,
  length-drop,
}
use softupdate.Md5.Words.{u32}
use softupdate.Md5.Transform.{State, transform}
use softupdate.Md5.Context.{transform_blocks}

-- The state after the first `k` blocks of `xs`, begun in `st`.
unfoldable pub absorb : ℕ → State → List ℕ → State
absorb zero st xs = st
absorb (suc k) st xs = absorb k (transform st (take 64 xs)) (drop 64 xs)

-- What follows the blocks does not matter.
pub absorb-append :
    (k : ℕ) (st : State) (xs ys : List ℕ)
    → 64 * k ≤ length xs
    → absorb k st (xs ++ ys) ≡ absorb k st xs
unfolding absorb
absorb-append zero st xs ys h = refl
absorb-append (suc k) st xs ys h =
    rw (take-append_le xs ys 64 (omega arith), drop-append_le xs ys 64 (omega arith))
      (absorb-append k (transform st (take 64 xs)) (drop 64 xs) ys
        (omega (arith, length-drop 64 xs)))

-- A run of `j` blocks and then of `k` more.
pub absorb-split :
    (j k n : ℕ) (st : State) (xs : List ℕ)
    → n ≡ j + k
    → absorb n st xs ≡ absorb k (absorb j st xs) (drop (64 * j) xs)
unfolding absorb
absorb-split zero k n st xs h = let e : n ≡ k = omega arith in rw e
absorb-split (suc j) k zero st xs h = absurd (omega arith)
absorb-split (suc j) k (suc n) st xs h =
    absorb-split j k n (transform st (take 64 xs)) (drop 64 xs) (omega arith)
    ∙ ap (absorb k (absorb j (transform st (take 64 xs)) (drop 64 xs)))
        (sym (drop-drop 64 (64 * j) (64 * suc j) xs (omega arith)))

-- The loop takes every whole block from `i` on, and stops by its test.
pub transform_blocks-eq-absorb :
    (fuel k : ℕ) (input : List ℕ) (i : ℕ) (st : State)
    → length input + 64 ≤ 2 ^ 32
    → i ≤ length input
    → k ≡ (length input - i) / 64
    → k < fuel
    → transform_blocks fuel input i st ≡ (i + 64 * k, absorb k st (drop i input))
unfolding transform_blocks absorb
transform_blocks-eq-absorb zero k input i st small h e enough = elim enough [ ]
transform_blocks-eq-absorb (suc f) zero input i st small h e enough =
    elim (Bool-cases (ltb (u32 (i + 63)) (length input))) [
      | inl more ↦ absurd (ground arith)
      | inr done ↦ rw (done, transform_blocks) (ground arith)
    ]
transform_blocks-eq-absorb (suc f) (suc k) input i st small h e enough =
    elim (Bool-cases (ltb (u32 (i + 63)) (length input))) [
      | inl more ↦
          rw (more, transform_blocks)
            (transform_blocks-eq-absorb f k input (i + 64) (transform st (take 64 (drop i input)))
                small (omega arith) (omega arith) (omega arith)
              ∙ ground (arith, drop-drop i 64 (i + 64) input))
      | inr done ↦ absurd (ground arith)
    ]
