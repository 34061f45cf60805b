-- ===== src/Service/Script.antt =====
-- The memory script: `ScriptToLine` of common/CommonServer.cpp cuts its text into commands.
use softupdate.Prelude.{
  ℕ, zero, suc, ◌+◌, ◌-◌, ◌*◌, Bool, true, false, ◌&&◌, ◌||◌, Option, none, some, List, [], ◌∷◌,
  ◌++◌, ltb, leb, ◌==◌, if◌then◌else◌, length, get_or, take, drop,
}
pub mod Words
pub mod Parts
pub mod Commands
pub mod Execute
pub mod Ends
pub mod Pieces
pub mod Lines
mod Tests

-- A byte of the buffer. The one behind the last is the NUL that ends the received text.
abbrev pub at : List ℕ → ℕ → ℕ
at text i = get_or text i 0

-- The variables of the loop; `capacity` is the length of the pointer array.
pub record Scan : Type 0 where
  pub i_bit : ℕ
  pub star_flag : ℕ
  pub line_start_bit : ℕ
  pub is_new_line : Bool
  pub lines : List (List ℕ)
  pub capacity : ℕ

abbrev pub two : List ℕ → ℕ → ℕ → ℕ → Bool
two script i a b = (at script i == a) && (at script (i + 1) == b)

-- Inside `/*`, where another one counts too.
unfoldable pub in_comment : List ℕ → Scan → Scan
in_comment script s =
    if two script s.i_bit b'/' b'*'
    then record s { star_flag = s.star_flag + 1; i_bit = s.i_bit + 1; is_new_line = true }
    else if two script s.i_bit b'*' b'/'
    then record s { star_flag = s.star_flag - 1; i_bit = s.i_bit + 1; is_new_line = true }
    else record s { is_new_line = true }

-- The first '\n' of the `n` bytes from `i` on.
unfoldable pub find_newline : ℕ → List ℕ → ℕ → Option ℕ
find_newline zero script i = none
find_newline (suc n) script i =
    let further = find_newline n script (i + 1) in if at script i == 10 then some i else further

-- Without a '\n' the position stays where it is.
unfoldable pub past_comment : Option ℕ → Scan → Scan
past_comment none s = record s { is_new_line = true }
past_comment (some i) s = record s { i_bit = i; is_new_line = true }

unfoldable pub line_comment : List ℕ → Scan → Scan
unfolding find_newline past_comment
line_comment script s =
    past_comment (find_newline (length script - (s.i_bit + 2)) script (s.i_bit + 2)) s

unfoldable pub line_start : Scan → Scan
line_start s =
    if s.is_new_line then record s { line_start_bit = s.i_bit; is_new_line = false } else s

-- `MagnifyArray` doubles a full array.
unfoldable pub store_line : List ℕ → Scan → Scan
store_line script s = record s {
  lines = s.lines ++ (take (s.i_bit - s.line_start_bit) (drop s.line_start_bit script) ∷ []);
  capacity = if leb s.capacity (length s.lines) then s.capacity * 2 else s.capacity;
  is_new_line = true;
}

unfoldable pub line_end : List ℕ → Scan → Scan
unfolding store_line
line_end script s =
    if at script s.i_bit == b';'
    then (if ltb 0 (s.i_bit - s.line_start_bit) then store_line script s else s)
    else s

unfoldable pub out_of_comment : List ℕ → Scan → Scan
unfolding line_comment line_start line_end
out_of_comment script s =
    if two script s.i_bit b'/' b'*'
    then record s { is_new_line = true; star_flag = s.star_flag + 1; i_bit = s.i_bit + 1 }
    else if two script s.i_bit b'/' b'/'
    then line_comment script s
    else line_end script (line_start s)

abbrev pub advanced : Scan → Scan
advanced s = record s { i_bit = s.i_bit + 1 }

-- One round; `none` at a NUL.
unfoldable pub scan_round : List ℕ → Scan → Option Scan
unfolding in_comment out_of_comment
scan_round script s =
    if at script s.i_bit == 0
    then none
    else if (at script s.i_bit == 13) || (at script s.i_bit == 10)
    then some (advanced s)
    else if s.star_flag == 0
    then some (advanced (out_of_comment script s))
    else some (advanced (in_comment script s))

-- The loop, with `none` out of fuel, and in its result `none` for the null pointer. `cancelled`
-- says what the flag is when it is read at a position.
unfoldable pub scan : (ℕ → Bool) → List ℕ → ℕ → Scan → Option (Option (List (List ℕ)))
unfolding scan_round
scan cancelled script zero s = none
scan cancelled script (suc fuel) s = elim (ltb s.i_bit (length script)) [
  | false ↦ some (some s.lines)
  | true ↦ elim (cancelled s.i_bit) [
    | true ↦ some (some s.lines)
    | false ↦ elim (scan_round script s) [
      | none ↦ some none
      | some t ↦ scan cancelled script fuel t
    ]
  ]
]

abbrev pub scan_start : Scan
scan_start = record {
  i_bit = 0;
  star_flag = 0;
  line_start_bit = 0;
  is_new_line = true;
  lines = [];
  capacity = 200;
}

-- A round for each byte, and one more for the test that ends the loop.
unfoldable pub script_to_line : (ℕ → Bool) → List ℕ → Option (Option (List (List ℕ)))
unfolding scan
script_to_line cancelled script = scan cancelled script (suc (length script)) scan_start
