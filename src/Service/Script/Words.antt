-- ===== src/Service/Script/Words.antt =====
-- `GetMemoryScriptCMD`: a command is cut into at most three parts.
use softupdate.Prelude.{
  ℕ, suc, ◌+◌, ◌-◌, ◌||◌, Option, none, some, List, [], ◌∷◌, ◌++◌, leb, ◌==◌, if◌then◌else◌, length,
  take, drop,
}

-- `iStartBit`, with `none` for -1, and the parts so far.
pub record Cut : Type 0 where
  pub start_bit : Option ℕ
  pub parts : List (List ℕ)

-- The part ends at `i`, at a blank, or with the line; the third takes all that is left.
unfoldable pub cut_part : List ℕ → ℕ → ℕ → List (List ℕ) → Cut
cut_part line start i parts =
    let len =
      if (suc i == length line) || (length parts == 2) then length line - start else i - start in
    record { start_bit = none; parts = parts ++ (take len (drop start line) ∷ []) }

unfoldable pub cut_at : List ℕ → ℕ → ℕ → Option ℕ → List (List ℕ) → Cut
unfolding cut_part
cut_at line i c none parts =
    if c == 32
    then record { start_bit = none; parts = parts }
    else if suc i == length line
    then record { start_bit = none; parts = parts ++ (take 1 (drop i line) ∷ []) }
    else record { start_bit = some i; parts = parts }
cut_at line i c (some start) parts =
    if (c == 32) || ((suc i == length line) || (length parts == 2))
    then cut_part line start i parts
    else record { start_bit = some start; parts = parts }

unfoldable pub cut_char : List ℕ → ℕ → ℕ → Cut → Cut
unfolding cut_at
cut_char line i c s = cut_at line i c s.start_bit s.parts

-- The bytes from `i` on; the loop is left after the third part.
unfoldable pub cut_from : List ℕ → ℕ → List ℕ → Cut → Cut
unfolding cut_char
cut_from line i [] s = s
cut_from line i (c ∷ rest) s =
    let further = cut_from line (i + 1) rest (cut_char line i c s) in
    if leb 3 (length (cut_char line i c s).parts) then cut_char line i c s else further

unfoldable pub get_memory_script_cmd : List ℕ → List (List ℕ)
unfolding cut_from
get_memory_script_cmd line = (cut_from line 0 line (record { start_bit = none; parts = [] })).parts
