-- ===== src/Text.antt =====
-- The C library's `sprintf("%d")` and `atoi`, as far as the program uses them, over character codes.
use softupdate.Prelude.{
  ℕ, zero, suc, ◌+◌, ◌-◌, ◌*◌, ◌/◌, ◌%◌, ◌≤◌, ◌<◌, ◌≡◌, refl, ap, sym, ◌∙◌, Bool, ◌&&◌, ◌||◌, List,
  [], ◌∷◌, ◌++◌, append_assoc, append-nil, arith, ltb, leb, ◌==◌, if◌then◌else◌, Bool-cases, inl,
  inr,
}
use Prim.Native.Char.{code}
use Prim.Native.String.{String}
use softupdate.Prelude.Int.{ℤ, pos, negsuc}

-- Decimal digits, `k` at most.
digits : ℕ → ℕ → List ℕ
digits zero n = []
digits (suc k) n =
    let more = digits k (n / 10) in if ltb n 10 then (48 + n) ∷ [] else more ++ ((48 + n % 10) ∷ [])

-- `%d` of a number that is not negative, and of any `int`.
unfoldable pub dec : ℕ → List ℕ
unfolding digits
dec n = digits (suc n) n

unfoldable pub dec_int : ℤ → List ℕ
unfolding dec
dec_int (pos n) = dec n
dec_int (negsuc n) = b'-' ∷ dec (suc n)

abbrev pub is_digit : ℕ → Bool
is_digit c = leb 48 c && leb c 57

-- `atoi` from its digits on, with the value read so far.
unfoldable pub read_digits : ℕ → List ℕ → ℕ
read_digits v [] = v
read_digits v (c ∷ cs) =
    let more = read_digits (v * 10 + (c - 48)) cs in if is_digit c then more else v

-- The bytes of a literal.
abbrev pub codes : String → List ℕ
codes String.[] = []
codes (String.◌∷◌ c s) = code c ∷ codes s

abbrev pub negate : ℕ → ℤ
negate zero = pos 0
negate (suc n) = negsuc n

-- White space, a sign, and digits.
unfoldable pub atoi : List ℕ → ℤ
atoi [] = pos 0
atoi (c ∷ cs) =
    let skipped = atoi cs in
    if (c == 32) || (leb 9 c && leb c 13)
    then skipped
    else if c == b'-'
    then negate (read_digits 0 cs)
    else if c == b'+'
    then pos (read_digits 0 cs)
    else pos (read_digits 0 (c ∷ cs))

read_digits-digits :
    (k n : ℕ) (ys : List ℕ) → n < k → read_digits 0 (digits k n ++ ys) ≡ read_digits n ys
unfolding digits read_digits
read_digits-digits zero n ys h = elim h [ ]
read_digits-digits (suc k) n ys h = elim (Bool-cases (ltb n 10)) [
  | inl one ↦ rw one (ground arith)
  | inr more ↦ rw more (
      ap (read_digits 0) (append_assoc (digits k (n / 10)) ((48 + n % 10) ∷ []) ys)
      ∙ read_digits-digits k (n / 10) ((48 + n % 10) ∷ ys) (ground arith)
      ∙ ground arith)
]

digits-head :
    (k n : ℕ) → n < k → (c : ℕ) × (cs : List ℕ) × (digits k n ≡ c ∷ cs) × (48 ≤ c) × (c ≤ 57)
unfolding digits
digits-head zero n h = elim h [ ]
digits-head (suc k) n h = elim (Bool-cases (ltb n 10)) [
  | inl one ↦ (48 + n, [], rw one, ground arith, ground arith)
  | inr more ↦
      let (c, cs, e, low, high) = digits-head k (n / 10) (ground arith) in
      (c, cs ++ ((48 + n % 10) ∷ []), rw (more, e), low, high)
]

read_digits-dec : (n : ℕ) → read_digits 0 (digits (suc n) n) ≡ n
unfolding read_digits
read_digits-dec n =
    ap (read_digits 0) (sym (append-nil (digits (suc n) n)))
    ∙ read_digits-digits (suc n) n [] (omega arith)

atoi_of_digits :
    (c : ℕ) (cs : List ℕ) → 48 ≤ c → c ≤ 57 → atoi (c ∷ cs) ≡ pos (read_digits 0 (c ∷ cs))
unfolding atoi
atoi_of_digits c cs low high = ground arith

atoi-dec : (n : ℕ) → atoi (dec n) ≡ pos n
unfolding dec
atoi-dec n =
    let (c, cs, e, low, high) = digits-head (suc n) n (omega arith) in
    ap atoi e
    ∙ atoi_of_digits c cs low high
    ∙ ap (λ t. pos (read_digits 0 t)) (sym e)
    ∙ ap pos (read_digits-dec n)

atoi-minus : (cs : List ℕ) → atoi (b'-' ∷ cs) ≡ negate (read_digits 0 cs)
unfolding atoi
atoi-minus cs = refl

-- What `%d` prints, `atoi` reads.
pub atoi-dec_int : (z : ℤ) → atoi (dec_int z) ≡ z
unfolding dec_int
atoi-dec_int (pos n) = atoi-dec n
atoi-dec_int (negsuc n) =
    atoi-minus (digits (suc (suc n)) (suc n)) ∙ ap negate (read_digits-dec (suc n))
