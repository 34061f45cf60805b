-- ===== src/Board/Memory.antt =====
-- `WriteMemory` and `ReadMemory`: bytes at 32-bit addresses of the process.
use softupdate.Prelude.{
  ℕ, zero, suc, ◌+◌, ◌%◌, ◌^◌, ◌≤◌, ◌<◌, ◌≡◌, ◌≢◌, ◌⊎◌, inl, inr, refl, ap, sym, ◌∙◌, ◌||◌, Option,
  none, some, List, [], ◌∷◌, arith, ltb, leb, ◌==◌, if◌then◌else◌, Bool-cases, length, take,
  some_inj, length-take, leb→le,
}
use mathlib.Core.Path.{ap₂}
use softupdate.Prelude.Int.{ℤ, pos, negsuc}

abbrev pub Memory : Type 0
Memory = ℕ → ℕ

-- `MEMDATA`
pub record MemData : Type 0 where
  pub ul_start_addr : ℕ
  pub ul_length : ℕ
  pub puc_buf : List ℕ

pub store : ℕ → ℕ → Memory → Memory
store at b mem a = if a == at then b else mem a

-- The loop with `pVirAdd++`, which wraps at 32 bits.
unfoldable pub poke : ℕ → List ℕ → Memory → Memory
unfolding store
poke at [] mem = mem
poke at (b ∷ bs) mem = poke (suc at % 2 ^ 32) bs (store at b mem)

unfoldable pub peek : ℕ → ℕ → Memory → List ℕ
peek at zero mem = []
peek at (suc n) mem = mem at ∷ peek (suc at % 2 ^ 32) n mem

-- NULL_POINTER_ERR, INVALID_ARG_ERR and INVALID_PHY_ADD
abbrev pub null_pointer_err : ℤ
null_pointer_err = negsuc 100

abbrev pub invalid_arg_err : ℤ
invalid_arg_err = negsuc 103

abbrev pub invalid_phy_add : ℤ
invalid_phy_add = negsuc 105

-- The guards that both calls share: none, or an error.
unfoldable pub refused : MemData → Option ℤ
refused d =
    if (d.ul_length == 0) || ltb 256 d.ul_length
    then some invalid_arg_err
    else if ltb d.ul_start_addr 0xC000_0000
    then some invalid_phy_add
    else none

-- `none` is a read past `puc_buf`.
unfoldable pub write_memory : Option MemData → Memory → Option (ℤ × Memory)
unfolding poke
write_memory none mem = some (null_pointer_err, mem)
write_memory (some d) mem = elim (refused d) [
  | some code ↦ some (code, mem)
  | none ↦
      if leb d.ul_length (length d.puc_buf)
      then some (pos 0, poke d.ul_start_addr (take d.ul_length d.puc_buf) mem)
      else none
]

-- The code, and the bytes that are put into `puc_buf`.
unfoldable pub read_memory : Option MemData → Memory → ℤ × List ℕ
unfolding peek
read_memory none mem = (null_pointer_err, [])
read_memory (some d) mem = elim (refused d) [
  | some code ↦ (code, [])
  | none ↦ (pos 0, peek d.ul_start_addr d.ul_length mem)
]

store_other : (at b a : ℕ) (mem : Memory) → a ≢ at → store at b mem a ≡ mem a
unfolding store
store_other at b a mem h = ground (arith, h)

store_same : (at b : ℕ) (mem : Memory) → store at b mem at ≡ b
unfolding store
store_same at b mem = ground arith

poke_outside :
    (at : ℕ) (bs : List ℕ) (mem : Memory) (a : ℕ)
    → at + length bs ≤ 2 ^ 32
    → (a < at) ⊎ (at + length bs ≤ a)
    → poke at bs mem a ≡ mem a
unfolding poke
poke_outside at [] mem a room out = refl
poke_outside at (b ∷ []) mem a room out = store_other at b a mem (ground arith)
poke_outside at (b ∷ c ∷ bs) mem a room out =
    let step : suc at % 2 ^ 32 ≡ suc at = omega arith in
    rw step (
      poke_outside (suc at) (c ∷ bs) (store at b mem) a (omega arith) (ground arith)
      ∙ store_other at b a mem (ground arith))

peek-poke :
    (at : ℕ) (bs : List ℕ) (mem : Memory)
    → at + length bs ≤ 2 ^ 32
    → peek at (length bs) (poke at bs mem) ≡ bs
unfolding peek poke
peek-poke at [] mem room = refl
peek-poke at (b ∷ []) mem room = ap (λ t. t ∷ []) (store_same at b mem)
peek-poke at (b ∷ c ∷ bs) mem room =
    let step : suc at % 2 ^ 32 ≡ suc at = omega arith in
    rw step (
      ap₂ (λ x xs. x ∷ xs)
        (poke_outside (suc at) (c ∷ bs) (store at b mem) at (omega arith) (inl (omega arith))
          ∙ store_same at b mem)
        (peek-poke (suc at) (c ∷ bs) (store at b mem) (omega arith)))

refused_code : (d : MemData) (code : ℤ) → refused d ≡ some code → code ≢ pos 0
unfolding refused
refused_code d code e is_zero = elim (Bool-cases ((d.ul_length == 0) || ltb 256 d.ul_length)) [
  | inl bad ↦ cc (some_inj (rw bad at e))
  | inr good ↦
      let e1 = rw good at e in
      elim (Bool-cases (ltb d.ul_start_addr 0xC000_0000)) [
        | inl low ↦ cc (some_inj (rw low at e1))
        | inr high ↦ cc (rw high at e1)
      ]
]

-- What `WriteMemory` reports as written is what `ReadMemory` of the same address and length gives,
-- and every other address keeps its byte, for a block that ends within 32 bits.
pub write_memory-read_memory :
    (d : MemData) (mem mem1 : Memory)
    → d.ul_start_addr + d.ul_length ≤ 2 ^ 32
    → write_memory (some d) mem ≡ some (pos 0, mem1)
    → (read_memory (some d) mem1 ≡ (pos 0, take d.ul_length d.puc_buf))
      × ((a : ℕ) → (a < d.ul_start_addr) ⊎ (d.ul_start_addr + d.ul_length ≤ a) → mem1 a ≡ mem a)
unfolding write_memory read_memory
write_memory-read_memory d mem mem1 room done = go (refused d) refl
  where
    go :
        (x : Option ℤ)
        → refused d ≡ x
        → (read_memory (some d) mem1 ≡ (pos 0, take d.ul_length d.puc_buf))
          × ((a : ℕ) → (a < d.ul_start_addr) ⊎ (d.ul_start_addr + d.ul_length ≤ a) → mem1 a ≡ mem a)
    go (some code) e = absurd (
        refused_code d code e
          (ap (λ (x : ℤ × Memory). x.0) (some_inj (rw (e, write_memory) at done))))
    go none e = elim (Bool-cases (leb d.ul_length (length d.puc_buf))) [
      | inl fits ↦
          let out : poke d.ul_start_addr (take d.ul_length d.puc_buf) mem ≡ mem1 =
            ap (λ (x : ℤ × Memory). x.1) (some_inj (rw (e, fits, write_memory) at done)) in
          let size : length (take d.ul_length d.puc_buf) ≡ d.ul_length =
            omega (arith, length-take d.ul_length d.puc_buf, leb→le _ _ fits) in
          rw (e, read_memory, ← out)
            (
              ap (λ t. (pos 0, t))
                  (ap
                      (λ n.
                        peek d.ul_start_addr n
                          (poke d.ul_start_addr (take d.ul_length d.puc_buf) mem))
                      (sym size)
                    ∙ peek-poke d.ul_start_addr (take d.ul_length d.puc_buf) mem
                        (omega (arith, size))),
              λ a h.
                  poke_outside d.ul_start_addr (take d.ul_length d.puc_buf) mem a
                    (omega (arith, size)) (rw size h),
            )
      | inr short ↦ cc (rw (e, short, write_memory) at done)
    ]
