-- ===== src/Service/Catalog.antt =====
-- `MSG_GETCATALOG`: the names in a directory, in as many frames as they need.
use softupdate.Prelude.{
  ℕ, ◌+◌, Bool, true, false, ◌||◌, Option, none, some, List, [], ◌∷◌, ◌++◌, ltb, leb, ◌==◌,
  if◌then◌else◌, length, bytes_eq,
}
use softupdate.Board.Hex.{c_str}
use softupdate.Board.Host.{Host}
use softupdate.Service.State.{System, Server, Handled, done, undefined, nr_maxpacklen}
pub mod Names
pub mod Frames
pub mod Whole

abbrev pub msg_getcatalog : ℕ
msg_getcatalog = 0x100

abbrev pub is_dots : List ℕ → Bool
is_dots name = bytes_eq name (b'.' ∷ []) || bytes_eq name (b'.' ∷ b'.' ∷ [])

-- What stands before a name in a list that is not empty.
abbrev pub separated : List ℕ → List ℕ
separated buf = if ltb 0 (length buf) then buf ++ (b':' ∷ []) else buf

abbrev pub kind_mark : Bool → ℕ
kind_mark is_folder = if is_folder then b'1' else b'0'

-- `IsFolder` puts the path together.
abbrev pub inside_path : List ℕ → List ℕ → List ℕ
inside_path path name = path ++ (b'/' ∷ name)

abbrev pub name_size : ℕ
name_size = 800

module _ {W : Type 0} (sys : System W) (path : List ℕ) where
  -- A send that fails is followed by the "?" that says so.
  unfoldable pub send_or_give_up : List ℕ → W → Bool × W
  send_or_give_up text w = elim (sys.send_data msg_getcatalog text w).0 [
    | true ↦ (true, (sys.send_data msg_getcatalog text w).1)
    | false ↦ (
      false,
      (sys.send_data msg_getcatalog (b'?' ∷ []) (sys.send_data msg_getcatalog text w).1).1,
    )
  ]

  -- `IsFolder`: the path is put together in `name[800]`.
  looked_up : List ℕ → W → Option (Bool × W)
  looked_up name w =
      if ltb (length (inside_path path name)) name_size
      then some (sys.is_folder (inside_path path name) w)
      else none

  -- `none` where the path or the text with its NUL runs past its buffer.
  marked : List ℕ → List ℕ → Option (Bool × W) → Option (List ℕ × W)
  marked buf name none = none
  marked buf name (some (is_folder, w)) =
      let text = separated buf ++ (kind_mark is_folder ∷ name) in
      if ltb (length text) nr_maxpacklen then some (text, w) else none

  unfoldable pub add_name : List ℕ → List ℕ → W → Option (List ℕ × W)
  unfolding looked_up marked
  add_name buf name w = marked buf name (looked_up name w)

  -- The "?" behind the last names, with its NUL.
  unfoldable pub end_list : List ℕ → W → Option W
  unfolding send_or_give_up
  end_list buf w =
      if ltb (length buf + 1) nr_maxpacklen
      then some (send_or_give_up (buf ++ (b'?' ∷ [])) w).1
      else none

  abbrev pub is_full : List ℕ → List ℕ → Bool
  is_full buf name = leb nr_maxpacklen (length buf + 1 + 1 + length name)

  unfoldable pub then_list : Option (List ℕ × W) → (List ℕ → W → Option W) → Option W
  then_list none rest = none
  then_list (some (buf, w)) rest = rest buf w

  -- The names that `readdir` gives one after another, with the text in `strTemp`; `none` where one
  -- of the buffers is overrun.
  unfoldable pub list_names : List ℕ → List (List ℕ) → W → Option W
  unfolding send_or_give_up add_name end_list then_list
  list_names buf [] w = end_list buf w
  list_names buf (name ∷ names) w = elim (is_dots name) [
    | true ↦ list_names buf names w
    | false ↦ elim (is_full buf name) [
      | false ↦ then_list (add_name buf name w) (λ text w'. list_names text names w')
      | true ↦ elim (send_or_give_up buf w).0 [
        | false ↦ some (send_or_give_up buf w).1
        | true ↦
            then_list (add_name [] name (send_or_give_up buf w).1)
              (λ text w'. list_names text names w')
      ]
    ]
  ]

  -- The first name is taken without a look at the room.
  opened : Option (List (List ℕ)) × W → Option W
  unfolding list_names add_name then_list
  opened (none, w) = some (sys.send_data msg_getcatalog (b'?' ∷ []) w).1
  opened (some [], w) = some (sys.send_data msg_getcatalog (b'?' ∷ []) w).1
  opened (some (name ∷ names), w) = elim (is_dots name) [
    | true ↦ list_names [] names w
    | false ↦ then_list (add_name [] name w) (λ text w'. list_names text names w')
  ]

abbrev pub ended : {W : Type 0} → Server → Option W → Handled W
ended s none = undefined
ended s (some w) = done s w

-- An empty path is not opened.
unfoldable pub get_catalog : {W : Type 0} → System W → List ℕ → Server → W → Handled W
unfolding opened c_str
get_catalog sys bytes s w = ended s (
    opened sys (c_str bytes)
      (if length (c_str bytes) == 0 then (none, w) else sys.machine.host.list_dir (c_str bytes) w))
