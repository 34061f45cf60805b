-- ===== src/Service/Script/Tests.antt =====
-- A script with comments between its commands.
use softupdate.Prelude.{
  leb, none, ℕ, ◌≡◌, refl, Bool, true, false, Option, some, List, [], ◌∷◌, arith,
}
use softupdate.Text.{codes, atoi, read_digits}
use softupdate.Board.Panel.{to_uint}
use softupdate.Service.Script.{
  Scan, scan, scan_round, script_to_line, in_comment, out_of_comment, line_start, line_end,
  store_line,
}
use softupdate.Service.Script.Ends.{script_to_line_ends, Fits, scan_round-Fits}
use softupdate.Service.Script.Pieces.{
  Piece, command, newline, remark, block, render, commands, AllPieces,
}
use softupdate.Service.Script.Lines.{script_to_line-render}
use softupdate.Service.Script.Words.{get_memory_script_cmd}
use softupdate.Service.Script.Commands.{
  Command, short, long, command_text, command_parts, IsCommand, get_memory_script_cmd-command_text,
}
use softupdate.Service.Script.Execute.{block_length, run_parts, Flags}

abbrev never : ℕ → Bool
never i = false

abbrev pieces : List Piece
pieces =
    remark (codes "wait; then write")
    ∷ command (codes "S 5")
    ∷ newline
    ∷ block (codes "ten; bytes")
    ∷ command (codes "W 10 1 2")
    ∷ []

pieces_good : AllPieces pieces
pieces_good =
    (omega arith, (((cc), omega arith), (refl, (omega arith, (((cc), omega arith), refl)))))

script_to_line-render_example : script_to_line never (render pieces) ≡ some (some (commands pieces))
script_to_line-render_example = script_to_line-render never pieces (λ i. refl) pieces_good

script_to_line_ends_example :
    (r : Option (List (List ℕ))) × (script_to_line never (codes "/* S 5;") ≡ some r)
script_to_line_ends_example = script_to_line_ends never (codes "/* S 5;")

-- A comment that no line end closes is read as commands.
open_comment : script_to_line never (codes "//a;b;") ≡ some (some (codes "/a" ∷ codes "b" ∷ []))
unfolding script_to_line scan scan_round in_comment out_of_comment line_start line_end store_line
open_comment = refl

abbrev full : Scan
full = record {
  i_bit = 2;
  star_flag = 0;
  line_start_bit = 0;
  is_new_line = false;
  lines = [];
  capacity = 200;
}

abbrev stored : Scan
stored = record {
  i_bit = 3;
  star_flag = 0;
  line_start_bit = 0;
  is_new_line = true;
  lines = codes "ab" ∷ [];
  capacity = 200;
}

stores : scan_round (codes "ab;") full ≡ some stored
unfolding scan_round out_of_comment line_start line_end store_line
stores = refl

scan_round-Fits_example : Fits (codes "ab;") stored
scan_round-Fits_example =
    scan_round-Fits (codes "ab;") full stored (omega arith) (omega arith) stores

abbrev write_command : Command
write_command = long (codes "W") (codes "10") (codes "1 2")

abbrev wait_command : Command
wait_command = short (codes "S") (codes "5")

write_good : IsCommand write_command
write_good = (((cc), omega arith), ((cc), omega arith), omega arith)

get_memory_script_cmd-command_text_example :
    get_memory_script_cmd (command_text write_command) ≡ command_parts write_command
get_memory_script_cmd-command_text_example =
    get_memory_script_cmd-command_text write_command write_good

-- No block of more than 1000 bytes can be had.
abbrev flags : Flags
flags = record {
  cancelled_at = never;
  cancelled_before = never;
  cancelled_end = false;
  allocates = λ i n. leb n 1000;
}

-- A negative length for E.
erase_too_much : run_parts (λ n. leb n 1000) (codes "E" ∷ codes "0" ∷ codes "-1" ∷ []) false ≡ none
unfolding run_parts block_length atoi to_uint read_digits
erase_too_much = refl
