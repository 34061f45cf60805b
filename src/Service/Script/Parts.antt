-- ===== src/Service/Script/Parts.antt =====
-- What `GetMemoryScriptCMD` cuts a command into.
use softupdate.Prelude.{
  ℕ, suc, ◌+◌, ◌-◌, ◌≤◌, ◌<◌, ◌≡◌, ◌≢◌, refl, sym, ap, ◌∙◌, Option, none, some, List, [], ◌∷◌, ◌++◌,
  ◌⊎◌, inl, inr, arith, length, take, drop, length-append, drop_past, take-drop_here, length-drop,
}
use softupdate.Service.Script.Words.{Cut, cut_part, cut_at, cut_char, cut_from}

-- At most three parts, so the array of three pointers holds them.
cut_at_at_most :
    (line : List ℕ) (i c : ℕ) (start : Option ℕ) (parts : List (List ℕ))
    → length parts ≤ 2
    → length (cut_at line i c start parts).parts ≤ 3
unfolding cut_at cut_part
cut_at_at_most line i c none parts h = grind (arith, length-append)
cut_at_at_most line i c (some start) parts h = grind (arith, length-append)

cut_char_at_most :
    (line : List ℕ) (i c : ℕ) (s : Cut)
    → length s.parts ≤ 2
    → length (cut_char line i c s).parts ≤ 3
unfolding cut_char
cut_char_at_most line i c s h = cut_at_at_most line i c s.start_bit s.parts h

cut_from_at_most :
    (line : List ℕ) (i : ℕ) (rest : List ℕ) (s : Cut)
    → length s.parts ≤ 2
    → length (cut_from line i rest s).parts ≤ 3
unfolding cut_from
cut_from_at_most line i [] s h = omega (arith, h)
cut_from_at_most line i (c ∷ rest) s h = ground (
  arith,
  cut_char_at_most line i c s h,
  λ (k : length (cut_char line i c s).parts ≤ 2).
      cut_from_at_most line (i + 1) rest (cut_char line i c s) k,
)

abbrev pub NoBlank : List ℕ → Type 0
NoBlank [] = ◌≡◌ {A = ℕ} 0 0
NoBlank (c ∷ cs) = (c ≢ 32) × NoBlank cs

abbrev pub waiting : List (List ℕ) → Cut
waiting parts = record { start_bit = none; parts = parts }

abbrev pub started : ℕ → List (List ℕ) → Cut
started start parts = record { start_bit = some start; parts = parts }

pub rest_lengths :
    (line : List ℕ) (i : ℕ) (rest : List ℕ) → drop i line ≡ rest → length line - i ≡ length rest
rest_lengths line i rest h = sym (length-drop i line) ∙ ap length h

module _ (line : List ℕ) (i : ℕ) (c : ℕ) (rest : List ℕ) where
  -- A byte that leaves fewer than three parts, and one that completes the third.
  pub from_next :
      (s t : Cut)
      → cut_char line i c s ≡ t
      → length t.parts ≤ 2
      → cut_from line i (c ∷ rest) s ≡ cut_from line (i + 1) rest t
  unfolding cut_from
  from_next s t e few = rw e (ground arith)

  pub from_third :
      (s t : Cut) → cut_char line i c s ≡ t → 3 ≤ length t.parts → cut_from line i (c ∷ rest) s ≡ t
  unfolding cut_from
  from_third s t e many = rw e (ground arith)

  module _ (parts : List (List ℕ)) (h : drop i line ≡ c ∷ rest) where
    pub char_start : c ≢ 32 → 0 < length rest → cut_char line i c (waiting parts) ≡ started i parts
    unfolding cut_char cut_at
    char_start k more = ground (arith, rest_lengths line i (c ∷ rest) h)

    char_keep :
        (start : ℕ)
        → c ≢ 32
        → 0 < length rest
        → length parts ≤ 1
        → cut_char line i c (started start parts) ≡ started start parts
    unfolding cut_char cut_at
    char_keep start k more few = ground (arith, rest_lengths line i (c ∷ rest) h)

    char_blank :
        (start : ℕ) (all : List ℕ)
        → c ≡ 32
        → 0 < length rest
        → length parts ≤ 1
        → take (i - start) (drop start line) ≡ all
        → cut_char line i c (started start parts) ≡ waiting (parts ++ (all ∷ []))
    unfolding cut_char cut_at cut_part
    char_blank start all k more few e = ground (arith, rest_lengths line i (c ∷ rest) h)

    -- The last byte of the line, and any byte of a third part but its first.
    pub char_last :
        (start : ℕ)
        → (rest ≡ []) ⊎ (length parts ≡ 2)
        → cut_char line i c (started start parts)
          ≡ waiting (parts ++ (take (length line - start) (drop start line) ∷ []))
    unfolding cut_char cut_at cut_part
    char_last start (inl k) = ground (arith, rest_lengths line i (c ∷ rest) h, ap length k)
    char_last start (inr k) = ground arith

  pub char_single :
      (parts : List (List ℕ))
      → drop i line ≡ c ∷ []
      → c ≢ 32
      → cut_char line i c (waiting parts) ≡ waiting (parts ++ ((c ∷ []) ∷ []))
  unfolding cut_char cut_at
  char_single parts h k =
      ground (arith, rest_lengths line i (c ∷ []) h, take-drop_here line i 1 (c ∷ []) [] h refl)

pub length-snoc : (xs : List (List ℕ)) (x : List ℕ) → length (xs ++ (x ∷ [])) ≡ suc (length xs)
length-snoc xs x = omega (arith, length-append xs (x ∷ []))

pub drop_one :
    (line : List ℕ) (i : ℕ) (c : ℕ) (rest : List ℕ)
    → drop i line ≡ c ∷ rest
    → drop (i + 1) line ≡ rest
drop_one line i c rest h = drop_past line i (i + 1) (c ∷ []) rest h (omega arith)

module _ (line : List ℕ) (parts : List (List ℕ)) (few : length parts ≤ 1) where
  -- A part that a blank ends, from its second byte on.
  pub cut_word :
      (w rest : List ℕ) (start i : ℕ) (all : List ℕ)
      → NoBlank w
      → 0 < length rest
      → drop i line ≡ w ++ 32 ∷ rest
      → take (i + length w - start) (drop start line) ≡ all
      → cut_from line i (w ++ 32 ∷ rest) (started start parts)
        ≡ cut_from line (i + length w + 1) rest (waiting (parts ++ (all ∷ [])))
  cut_word [] rest start i all k more h e =
      from_next line i 32 rest (started start parts) (waiting (parts ++ (all ∷ [])))
        (char_blank line i 32 rest parts h start all refl more few
          (ap (λ n. take n (drop start line)) (omega arith) ∙ e))
        (omega (arith, length-snoc parts all))
      ∙ ap (λ n. cut_from line n rest (waiting (parts ++ (all ∷ [])))) (omega arith)
  cut_word (c ∷ w) rest start i all k more h e =
      from_next line i c (w ++ 32 ∷ rest) (started start parts) (started start parts)
        (char_keep line i c (w ++ 32 ∷ rest) parts h start k.0
          (omega (arith, length-append w (32 ∷ rest))) few)
        (omega (arith, few))
      ∙ cut_word w rest start (i + 1) all k.1 more (drop_one line i c (w ++ 32 ∷ rest) h)
          (ap (λ n. take n (drop start line)) (omega arith) ∙ e)
      ∙ ap (λ n. cut_from line n rest (waiting (parts ++ (all ∷ [])))) (omega arith)

  -- The part that ends with the line, from its second byte on.
  pub cut_last :
      (c : ℕ) (w : List ℕ) (start i : ℕ)
      → NoBlank (c ∷ w)
      → drop i line ≡ c ∷ w
      → cut_from line i (c ∷ w) (started start parts)
        ≡ waiting (parts ++ (take (length line - start) (drop start line) ∷ []))
  unfolding cut_from
  cut_last c [] start i k h =
      from_next line i c [] (started start parts)
        (waiting (parts ++ (take (length line - start) (drop start line) ∷ [])))
        (char_last line i c [] parts h start (inl refl))
        (omega (arith, length-snoc parts (take (length line - start) (drop start line))))
  cut_last c (d ∷ w) start i k h =
      from_next line i c (d ∷ w) (started start parts) (started start parts)
        (char_keep line i c (d ∷ w) parts h start k.0 (omega arith) few) (omega (arith, few))
      ∙ cut_last d w start (i + 1) k.1 (drop_one line i c (d ∷ w) h)
