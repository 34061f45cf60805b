-- ===== src/Service/Script/Commands.antt =====
-- `GetMemoryScriptCMD` on the two shapes of a command, `S 5` and `W 10 1 2 3`.
use softupdate.Prelude.{
  ℕ, ◌+◌, ◌-◌, ◌≤◌, ◌<◌, ◌≡◌, ◌≢◌, refl, sym, ap, ◌∙◌, List, [], ◌∷◌, ◌++◌, append_assoc, arith,
  length, take, drop, length-append, drop_past, take-drop_here, take-all, inr,
}
use softupdate.Service.Script.Words.{cut_from, get_memory_script_cmd}
use softupdate.Service.Script.Parts.{
  NoBlank, waiting, started, rest_lengths, from_next, from_third, char_start, char_single,
  char_last, cut_word, cut_last, drop_one, length-snoc,
}

module _ (line : List ℕ) (parts : List (List ℕ)) where
  whole_word :
      (c : ℕ) (w rest : List ℕ) (i : ℕ)
      → length parts ≤ 1
      → NoBlank (c ∷ w)
      → 0 < length rest
      → drop i line ≡ c ∷ (w ++ 32 ∷ rest)
      → cut_from line i (c ∷ (w ++ 32 ∷ rest)) (waiting parts)
        ≡ cut_from line (i + 1 + length w + 1) rest (waiting (parts ++ ((c ∷ w) ∷ [])))
  whole_word c w rest i few k more h =
      from_next line i c (w ++ 32 ∷ rest) (waiting parts) (started i parts)
        (char_start line i c (w ++ 32 ∷ rest) parts h k.0
          (omega (arith, length-append w (32 ∷ rest))))
        (omega (arith, few))
      ∙ cut_word line parts few w rest i (i + 1) (c ∷ w) k.1 more
          (drop_one line i c (w ++ 32 ∷ rest) h)
          (take-drop_here line i (i + 1 + length w - i) (c ∷ w) (32 ∷ rest) h (omega arith))

  all_left : (i : ℕ) (w : List ℕ) → drop i line ≡ w → take (length line - i) (drop i line) ≡ w
  all_left i w h =
      ap (take (length line - i)) h
      ∙ take-all w (length line - i) (omega (arith, rest_lengths line i w h))

  whole_last :
      (c : ℕ) (w : List ℕ) (i : ℕ)
      → length parts ≤ 1
      → NoBlank (c ∷ w)
      → drop i line ≡ c ∷ w
      → cut_from line i (c ∷ w) (waiting parts) ≡ waiting (parts ++ ((c ∷ w) ∷ []))
  unfolding cut_from
  whole_last c [] i few k h =
      from_next line i c [] (waiting parts) (waiting (parts ++ ((c ∷ []) ∷ [])))
        (char_single line i c [] parts h k.0) (omega (arith, length-snoc parts (c ∷ [])))
  whole_last c (d ∷ w) i few k h =
      from_next line i c (d ∷ w) (waiting parts) (started i parts)
        (char_start line i c (d ∷ w) parts h k.0 (omega arith)) (omega (arith, few))
      ∙ cut_last line parts few d w i (i + 1) k.1 (drop_one line i c (d ∷ w) h)
      ∙ ap (λ t. waiting (parts ++ (t ∷ []))) (all_left i (c ∷ d ∷ w) h)

  whole_third :
      (c : ℕ) (w : List ℕ) (i : ℕ)
      → length parts ≡ 2
      → c ≢ 32
      → drop i line ≡ c ∷ w
      → cut_from line i (c ∷ w) (waiting parts) ≡ waiting (parts ++ ((c ∷ w) ∷ []))
  whole_third c [] i two k h =
      from_third line i c [] (waiting parts) (waiting (parts ++ ((c ∷ []) ∷ [])))
        (char_single line i c [] parts h k) (omega (arith, length-snoc parts (c ∷ [])))
  whole_third c (d ∷ w) i two k h =
      from_next line i c (d ∷ w) (waiting parts) (started i parts)
        (char_start line i c (d ∷ w) parts h k (omega arith)) (omega (arith, two))
      ∙ from_third line (i + 1) d w (started i parts)
          (waiting (parts ++ (take (length line - i) (drop i line) ∷ [])))
          (char_last line (i + 1) d w parts (drop_one line i c (d ∷ w) h) i (inr two))
          (omega (arith, length-snoc parts (take (length line - i) (drop i line))))
      ∙ ap (λ t. waiting (parts ++ (t ∷ []))) (all_left i (c ∷ d ∷ w) h)

-- A command of two parts, and one of three, whose third part may hold blanks.
pub data Command : Type 0 where
  short : List ℕ → List ℕ → Command
  long : List ℕ → List ℕ → List ℕ → Command

abbrev pub command_text : Command → List ℕ
command_text (short a b) = a ++ 32 ∷ b
command_text (long a b c) = a ++ 32 ∷ (b ++ 32 ∷ c)

abbrev pub command_parts : Command → List (List ℕ)
command_parts (short a b) = a ∷ b ∷ []
command_parts (long a b c) = a ∷ b ∷ c ∷ []

abbrev pub IsWord : List ℕ → Type 0
IsWord w = (w ≢ []) × NoBlank w

abbrev pub StartsPart : List ℕ → Type 0
StartsPart [] = ◌≡◌ {A = ℕ} 0 1
StartsPart (c ∷ cs) = c ≢ 32

abbrev pub IsCommand : Command → Type 0
IsCommand (short a b) = IsWord a × IsWord b
IsCommand (long a b c) = IsWord a × IsWord b × StartsPart c

-- A command whose parts have one blank between them is cut into those parts: the first two are not
-- empty and hold no blank, and the third, where there is one, is not empty and does not begin with
-- one.
pub get_memory_script_cmd-command_text :
    (c : Command) → IsCommand c → get_memory_script_cmd (command_text c) ≡ command_parts c
unfolding get_memory_script_cmd
get_memory_script_cmd-command_text (short [] b) k = absurd (k.0.0 refl)
get_memory_script_cmd-command_text (short (x ∷ a) []) k = absurd (k.1.0 refl)
get_memory_script_cmd-command_text (short (x ∷ a) (y ∷ b)) k =
    let line : List ℕ = x ∷ (a ++ 32 ∷ y ∷ b) in
    ap (λ s. s.parts)
      (whole_word line [] x a (y ∷ b) 0 (omega arith) k.0.1 (omega arith) refl
        ∙ whole_last line ((x ∷ a) ∷ []) y b (0 + 1 + length a + 1) (omega arith) k.1.1 (
            drop_past line 0 (0 + 1 + length a + 1) ((x ∷ a) ++ (32 ∷ [])) (y ∷ b)
              (ap (λ t. x ∷ t) (sym (append_assoc a (32 ∷ []) (y ∷ b))))
              (omega (arith, length-append a (32 ∷ [])))))
get_memory_script_cmd-command_text (long [] b c) k = absurd (k.0.0 refl)
get_memory_script_cmd-command_text (long (x ∷ a) [] c) k = absurd (k.1.0 refl)
get_memory_script_cmd-command_text (long (x ∷ a) (y ∷ b) []) k = absurd (omega (arith, k.2))
get_memory_script_cmd-command_text (long (x ∷ a) (y ∷ b) (z ∷ c)) k =
    ap (λ s. s.parts)
      (whole_word line [] x a (y ∷ (b ++ 32 ∷ z ∷ c)) 0 (omega arith) k.0.1 (omega arith) refl
        ∙ whole_word line ((x ∷ a) ∷ []) y b (z ∷ c) (0 + 1 + length a + 1) (omega arith) k.1.1
            (omega arith) second
        ∙ whole_third line ((x ∷ a) ∷ (y ∷ b) ∷ []) z c (0 + 1 + length a + 1 + 1 + length b + 1)
            (omega arith) k.2
            (drop_past line (0 + 1 + length a + 1) (0 + 1 + length a + 1 + 1 + length b + 1)
              ((y ∷ b) ++ (32 ∷ [])) (z ∷ c)
              (second ∙ ap (λ t. y ∷ t) (sym (append_assoc b (32 ∷ []) (z ∷ c))))
              (omega (arith, length-append b (32 ∷ [])))))
  where
    line : List ℕ
    line = x ∷ (a ++ 32 ∷ y ∷ (b ++ 32 ∷ z ∷ c))

    second : drop (0 + 1 + length a + 1) line ≡ y ∷ (b ++ 32 ∷ z ∷ c)
    second =
        drop_past line 0 (0 + 1 + length a + 1) ((x ∷ a) ++ (32 ∷ [])) (y ∷ (b ++ 32 ∷ z ∷ c))
          (ap (λ t. x ∷ t) (sym (append_assoc a (32 ∷ []) (y ∷ (b ++ 32 ∷ z ∷ c)))))
          (omega (arith, length-append a (32 ∷ [])))
