-- ===== src/Prelude/Arrays.antt =====
-- Byte buffers as lists: `memcpy` into a buffer, and the laws of splitting and joining.
use Prim.Native.Nat.{ℕ, zero, suc, ◌+◌, ◌≤◌}
use mathlib.Core.Path.{◌≡◌, refl, ap, ap₂, ◌∙◌}
use mathlib.Core.Bool.{Bool, true, false, ◌&&◌}
use mathlib.Core.List.{List, [], ◌∷◌, ◌++◌, append-nil, append_assoc}
use mathlib.Core.Option.{Option, none, some}
use native.Mathlib.Omega.{arith}
use softupdate.Prelude.Tests.{leb, ◌==◌, if◌then◌else◌}
use softupdate.Prelude.Lists.{length, take, drop, length-append, length-take, length-drop}

module _ {ℓ} {A : Type ℓ} where
  -- `memcpy(buf + at, xs, length xs)` where the destination fits.
  abbrev pub overwrite : List A → ℕ → List A → List A
  overwrite buf at xs = take at buf ++ (xs ++ drop (at + length xs) buf)

  -- `memcpy` of `n` bytes from `src + from`; `none` where it would read past the end.
  abbrev pub slice? : List A → ℕ → ℕ → Option (List A)
  slice? src from n = if leb (from + n) (length src) then some (take n (drop from src)) else none

  pub take-all : (xs : List A) (n : ℕ) → length xs ≤ n → take n xs ≡ xs
  take-all [] zero h = refl
  take-all [] (suc n) h = refl
  take-all (x ∷ xs) zero h = absurd (omega arith)
  take-all (x ∷ xs) (suc n) h = ap (λ t. x ∷ t) (take-all xs n (omega arith))

  pub drop-all : (xs : List A) (n : ℕ) → length xs ≤ n → drop n xs ≡ []
  drop-all [] zero h = refl
  drop-all [] (suc n) h = refl
  drop-all (x ∷ xs) zero h = absurd (omega arith)
  drop-all (x ∷ xs) (suc n) h = drop-all xs n (omega arith)

  pub take-append : (xs ys : List A) (n : ℕ) → length xs ≡ n → take n (xs ++ ys) ≡ xs
  take-append [] ys zero h = refl
  take-append [] ys (suc n) h = absurd (omega arith)
  take-append (x ∷ xs) ys zero h = absurd (omega arith)
  take-append (x ∷ xs) ys (suc n) h = ap (λ t. x ∷ t) (take-append xs ys n (omega arith))

  pub drop-append : (xs ys : List A) (n : ℕ) → length xs ≡ n → drop n (xs ++ ys) ≡ ys
  drop-append [] ys zero h = refl
  drop-append [] ys (suc n) h = absurd (omega arith)
  drop-append (x ∷ xs) ys zero h = absurd (omega arith)
  drop-append (x ∷ xs) ys (suc n) h = drop-append xs ys n (omega arith)

  pub length-overwrite :
      (buf xs : List A) (at : ℕ)
      → at + length xs ≤ length buf
      → length (overwrite buf at xs) ≡ length buf
  length-overwrite buf xs at h = omega (
    arith,
    length-append (take at buf) (xs ++ drop (at + length xs) buf),
    length-append xs (drop (at + length xs) buf),
    length-take at buf,
    length-drop (at + length xs) buf,
  )

-- `memcmp(xs, ys, n) == 0` on whole buffers.
abbrev pub bytes_eq : List ℕ → List ℕ → Bool
bytes_eq [] [] = true
bytes_eq [] (y ∷ ys) = false
bytes_eq (x ∷ xs) [] = false
bytes_eq (x ∷ xs) (y ∷ ys) = (x == y) && bytes_eq xs ys

pub bytes_eq_refl : (xs : List ℕ) → bytes_eq xs xs ≡ true
bytes_eq_refl [] = refl
bytes_eq_refl (x ∷ xs) = ground (arith, bytes_eq_refl xs)

pub bytes_eq_sound : (xs ys : List ℕ) → bytes_eq xs ys ≡ true → xs ≡ ys
bytes_eq_sound [] [] h = refl
bytes_eq_sound [] (y ∷ ys) h = ground arith
bytes_eq_sound (x ∷ xs) [] h = ground arith
bytes_eq_sound (x ∷ xs) (y ∷ ys) h = ground (arith, bytes_eq_sound xs ys)

module _ {ℓ} {A : Type ℓ} where
  pub drop-drop : (i j n : ℕ) (xs : List A) → n ≡ i + j → drop n xs ≡ drop j (drop i xs)
  drop-drop zero j n xs h = let e : n ≡ j = omega arith in ap (λ t. drop t xs) e
  drop-drop (suc i) j zero xs h = absurd (omega arith)
  drop-drop (suc i) zero (suc n) [] h = refl
  drop-drop (suc i) (suc j) (suc n) [] h = refl
  drop-drop (suc i) j (suc n) (x ∷ xs) h = drop-drop i j n xs (omega arith)

  pub drop-append_le :
      (xs ys : List A) (n : ℕ) → n ≤ length xs → drop n (xs ++ ys) ≡ drop n xs ++ ys
  drop-append_le xs ys zero h = refl
  drop-append_le [] ys (suc n) h = absurd (omega arith)
  drop-append_le (x ∷ xs) ys (suc n) h = drop-append_le xs ys n (omega arith)

  pub take-append_le : (xs ys : List A) (n : ℕ) → n ≤ length xs → take n (xs ++ ys) ≡ take n xs
  take-append_le xs ys zero h = refl
  take-append_le [] ys (suc n) h = absurd (omega arith)
  take-append_le (x ∷ xs) ys (suc n) h = ap (λ t. x ∷ t) (take-append_le xs ys n (omega arith))

  -- A prefix that ends inside the second list.
  pub take-append_ge :
      (xs ys : List A) (n k : ℕ) → n ≡ length xs + k → take n (xs ++ ys) ≡ xs ++ take k ys
  take-append_ge [] ys n k h = let e : n ≡ k = omega arith in ap (λ t. take t ys) e
  take-append_ge (x ∷ xs) ys zero k h = absurd (omega arith)
  take-append_ge (x ∷ xs) ys (suc n) k h = ap (λ t. x ∷ t) (take-append_ge xs ys n k (omega arith))

  pub drop-append_ge :
      (xs ys : List A) (n k : ℕ) → n ≡ length xs + k → drop n (xs ++ ys) ≡ drop k ys
  drop-append_ge [] ys n k h = let e : n ≡ k = omega arith in ap (λ t. drop t ys) e
  drop-append_ge (x ∷ xs) ys zero k h = absurd (omega arith)
  drop-append_ge (x ∷ xs) ys (suc n) k h = drop-append_ge xs ys n k (omega arith)

  -- What has been written up to the end of the copied bytes.
  pub take-overwrite :
      (buf xs : List A) (at n : ℕ)
      → at ≤ length buf
      → n ≡ at + length xs
      → take n (overwrite buf at xs) ≡ take at buf ++ xs
  take-overwrite buf xs at n h e =
      take-append_ge (take at buf) (xs ++ drop (at + length xs) buf) n (length xs)
        (omega (arith, length-take at buf))
      ∙ ap (λ t. take at buf ++ t) (take-append xs (drop (at + length xs) buf) (length xs) refl)

  -- A copy that reaches the end of the buffer leaves nothing behind it.
  pub overwrite_to_end :
      (buf xs : List A) (at : ℕ)
      → at + length xs ≡ length buf
      → overwrite buf at xs ≡ take at buf ++ xs
  overwrite_to_end buf xs at h =
      ap (λ t. take at buf ++ t)
        (ap (λ t. xs ++ t) (drop-all buf (at + length xs) (omega arith)) ∙ append-nil xs)

module _ {ℓ} {A : Type ℓ} where
  pub take-take : (i j : ℕ) (xs : List A) → i ≤ j → take i (take j xs) ≡ take i xs
  take-take zero j xs h = refl
  take-take (suc i) zero xs h = absurd (omega arith)
  take-take (suc i) (suc j) [] h = refl
  take-take (suc i) (suc j) (x ∷ xs) h = ap (λ t. x ∷ t) (take-take i j xs (omega arith))

  pub drop-take-append :
      (i j : ℕ) (xs : List A) → i ≤ j → drop i (take j xs) ++ drop j xs ≡ drop i xs
  drop-take-append zero zero xs h = refl
  drop-take-append zero (suc j) [] h = refl
  drop-take-append zero (suc j) (x ∷ xs) h =
      ap (λ t. x ∷ t) (drop-take-append zero j xs (omega arith))
  drop-take-append (suc i) zero xs h = absurd (omega arith)
  drop-take-append (suc i) (suc j) [] h = refl
  drop-take-append (suc i) (suc j) (x ∷ xs) h = drop-take-append i j xs (omega arith)

  -- A block read out, changed inside and put back is a change in place.
  pub overwrite-block :
      (m b : List A) (at k : ℕ)
      → at + length b ≤ k
      → k ≤ length m
      → overwrite m 0 (overwrite (take k m) at b) ≡ overwrite m at b
  overwrite-block m b at k inside fits =
      ap (λ n. overwrite (take k m) at b ++ drop n m)
        (omega (
          arith,
          length-overwrite (take k m) b at (omega (arith, length-take k m)),
          length-take k m,
        ))
      ∙ append_assoc (take at (take k m)) (b ++ drop (at + length b) (take k m)) (drop k m)
      ∙ ap₂ (λ s t. s ++ t) (take-take at k m (omega arith))
          (append_assoc b (drop (at + length b) (take k m)) (drop k m)
            ∙ ap (λ t. b ++ t) (drop-take-append (at + length b) k m inside))

  -- Reading back what was written.
  pub slice-overwrite :
      (m b : List A) (at : ℕ)
      → at + length b ≤ length m
      → take (length b) (drop at (overwrite m at b)) ≡ b
  slice-overwrite m b at h =
      ap (take (length b))
        (drop-append (take at m) (b ++ drop (at + length b) m) at (omega (arith, length-take at m)))
      ∙ take-append b (drop (at + length b) m) (length b) refl

module _ {ℓ} {A : Type ℓ} where
  -- A window inside a prefix.
  pub take-drop-take :
      (i n k : ℕ) (xs : List A) → i + n ≤ k → take n (drop i (take k xs)) ≡ take n (drop i xs)
  take-drop-take zero n k xs h = take-take n k xs (omega arith)
  take-drop-take (suc i) n zero xs h = absurd (omega arith)
  take-drop-take (suc i) n (suc k) [] h = refl
  take-drop-take (suc i) n (suc k) (x ∷ xs) h = take-drop-take i n k xs (omega arith)
