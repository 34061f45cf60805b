-- ===== src/Service/Script/Execute.antt =====
-- `MemoryScript_DoWork`: the commands of a script one after another, and the result that is sent.
-- The accesses to memory themselves are commented out in the source.
use softupdate.Prelude.{
  ℕ, ◌≤◌, length, ◌+◌, ◌≡◌, Bool, true, false, ◌||◌, Option, none, some, List, [], ◌∷◌, ◌==◌,
  if◌then◌else◌, get_or,
}
use softupdate.Text.{atoi}
use softupdate.Board.Panel.{to_uint}
use softupdate.Service.Script.{script_to_line}
use softupdate.Service.Script.Words.{get_memory_script_cmd}
use softupdate.Service.Script.Commands.{Command, short, long, command_text, IsCommand}

-- `E`, `e`, `W` and `w` need a third part.
abbrev pub wants_three : List ℕ → Bool
wants_three part =
    let c = get_or part 0 0 in (c == b'E') || (c == b'e') || (c == b'W') || (c == b'w')

abbrev pub is_erase : List ℕ → Bool
is_erase part = let c = get_or part 0 0 in (c == b'E') || (c == b'e')

-- How many bytes a command of three parts has allocated: `E` as many as its third part says, as
-- `ULONG`, `W` the length of its third part.
unfoldable pub block_length : List ℕ → List ℕ → ℕ
unfolding atoi to_uint
block_length a c = if is_erase a then to_uint (atoi c) else if wants_three a then length c else 0

-- `memset` of a block that `malloc` may not have given: no bytes may be written through NULL.
abbrev pub cleared_block : (ℕ → Bool) → ℕ → Option Bool
cleared_block allocates n = if (n == 0) || allocates n then some true else none

-- `bIsSuccess` after a command; `none` where a pointer is read that nothing has set, or NULL is
-- written through. `allocates` says which lengths `malloc` gives.
unfoldable pub run_parts : (ℕ → Bool) → List (List ℕ) → Bool → Option Bool
unfolding block_length
run_parts allocates [] success = some success
run_parts allocates (a ∷ []) success = some success
run_parts allocates (a ∷ b ∷ []) success = if wants_three a then none else some true
run_parts allocates (a ∷ b ∷ c ∷ more) success = cleared_block allocates (block_length a c)

-- The commands from the `i`-th on; `cancelled` says what the flag is before each.
unfoldable pub run_lines : (ℕ → Bool) → (ℕ → ℕ → Bool) → ℕ → List (List ℕ) → Bool → Option Bool
unfolding run_parts get_memory_script_cmd
run_lines cancelled allocates i [] success = some success
run_lines cancelled allocates i (l ∷ ls) success = elim (cancelled i) [
  | true ↦ some success
  | false ↦ elim (run_parts (allocates i) (get_memory_script_cmd l) success) [
    | none ↦ none
    | some after ↦ run_lines cancelled allocates (i + 1) ls after
  ]
]

-- What the cancel flag is when it is read: by `ScriptToLine`, before the commands, at the end; and
-- which lengths `malloc` gives for each command.
pub record Flags : Type 0 where
  pub cancelled_at : ℕ → Bool
  pub cancelled_before : ℕ → Bool
  pub cancelled_end : Bool
  pub allocates : ℕ → ℕ → Bool

-- No lines, be it the null pointer or an empty array, are a failure.
unfoldable pub run_script : Flags → Option (Option (List (List ℕ))) → Option Bool
unfolding run_lines
run_script flags none = none
run_script flags (some none) = some false
run_script flags (some (some ls)) = run_lines flags.cancelled_before flags.allocates 0 ls false

abbrev pub result_text : Bool → Bool → List ℕ
result_text true success = b'1' ∷ []
result_text false success = if success then b'0' ∷ [] else b'1' ∷ []

unfoldable pub report : Flags → Option Bool → Option (List ℕ)
report flags none = none
report flags (some success) = some (result_text flags.cancelled_end success)

-- The text that goes out as MSG_MEMORYSCRIPT_FINISH.
unfoldable pub memory_script_do_work : Flags → List ℕ → Option (List ℕ)
unfolding script_to_line run_script report
memory_script_do_work flags script =
    report flags (run_script flags (script_to_line flags.cancelled_at script))

-- A command of two parts has to be one that needs no third, and one of three parts needs no block
-- longer than `limit`.
abbrev pub Complete : ℕ → Command → Type 0
Complete limit (short a b) = IsCommand (short a b) × (wants_three a ≡ false)
Complete limit (long a b c) = IsCommand (long a b c) × (block_length a c ≤ limit)

abbrev pub AllComplete : ℕ → List Command → Type 0
AllComplete limit [] = ◌≡◌ {A = ℕ} 0 0
AllComplete limit (c ∷ cs) = Complete limit c × AllComplete limit cs

abbrev pub texts : List Command → List (List ℕ)
texts [] = []
texts (c ∷ cs) = command_text c ∷ texts cs
