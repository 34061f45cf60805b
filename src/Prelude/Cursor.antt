-- ===== src/Prelude/Cursor.antt =====
-- A position in a buffer that is read forwards: `drop i xs` is what is still to be read.
use Prim.Native.Nat.{ℕ, zero, suc, ◌+◌, ◌<◌}
use mathlib.Core.Path.{◌≡◌, ap, ◌∙◌}
use mathlib.Core.List.{List, [], ◌∷◌, ◌++◌}
use native.Mathlib.Omega.{arith}
use softupdate.Prelude.Lists.{length, get_or, take, drop}
use softupdate.Prelude.Arrays.{take-append}

module _ {ℓ} {A : Type ℓ} where
  pub drop_in_range :
      (xs : List A) (i : ℕ) (c : A) (rest : List A) → drop i xs ≡ c ∷ rest → i < length xs
  drop_in_range [] zero c rest h = cc
  drop_in_range [] (suc i) c rest h = cc
  drop_in_range (x ∷ xs) zero c rest h = omega arith
  drop_in_range (x ∷ xs) (suc i) c rest h = omega (arith, drop_in_range xs i c rest h)

  pub drop_next :
      (xs : List A) (i : ℕ) (c : A) (rest : List A) → drop i xs ≡ c ∷ rest → drop (suc i) xs ≡ rest
  drop_next [] zero c rest h = cc
  drop_next [] (suc i) c rest h = cc
  drop_next (x ∷ xs) zero c rest h = cc
  drop_next (x ∷ xs) (suc i) c rest h = drop_next xs i c rest h

  pub get_or-drop :
      (xs : List A) (i : ℕ) (c d : A) (rest : List A) → drop i xs ≡ c ∷ rest → get_or xs i d ≡ c
  get_or-drop [] zero c d rest h = cc
  get_or-drop [] (suc i) c d rest h = cc
  get_or-drop (x ∷ xs) zero c d rest h = cc
  get_or-drop (x ∷ xs) (suc i) c d rest h = get_or-drop xs i c d rest h

  pub drop_end : (xs : List A) (i : ℕ) → drop i xs ≡ [] → length xs < suc i
  drop_end [] i h = omega arith
  drop_end (x ∷ xs) zero h = cc
  drop_end (x ∷ xs) (suc i) h = omega (arith, drop_end xs i h)

  pub drop_past :
      (xs : List A) (i n : ℕ) (ys rest : List A)
      → drop i xs ≡ ys ++ rest
      → n ≡ i + length ys
      → drop n xs ≡ rest
  drop_past xs i n [] rest h e = let k : n ≡ i = omega arith in ap (λ t. drop t xs) k ∙ h
  drop_past xs i n (y ∷ ys) rest h e =
      drop_past xs (suc i) n ys rest (drop_next xs i y (ys ++ rest) h) (omega arith)

  pub take-drop_here :
      (xs : List A) (i n : ℕ) (ys rest : List A)
      → drop i xs ≡ ys ++ rest
      → n ≡ length ys
      → take n (drop i xs) ≡ ys
  take-drop_here xs i n ys rest h e = ap (take n) h ∙ take-append ys rest n (omega arith)
