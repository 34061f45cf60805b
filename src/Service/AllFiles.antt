-- ===== src/Service/AllFiles.antt =====
-- `MSG_GETALLFILEINFO`: what is known of each file in some directories.
use softupdate.Prelude.{
  ℕ, zero, suc, ◌+◌, ◌-◌, Bool, true, false, ◌&&◌, ◌||◌, Option, none, some, List, [], ◌∷◌, ◌++◌,
  ltb, leb, ◌==◌, if◌then◌else◌, length, replicate,
}
use softupdate.Prelude.Int.{ℤ, pos, negsuc}
use softupdate.Text.{dec, dec_int}
use softupdate.Board.Hex.{c_str}
use softupdate.Service.State.{System, FileStat, Server, Handled, done, undefined, nr_maxpacklen}
use softupdate.Service.Catalog.{is_dots, inside_path}
pub mod Pairs
pub mod Safe

abbrev pub msg_getallfileinfo : ℕ
msg_getallfileinfo = 0x129

abbrev pub max_filename_len : ℕ
max_filename_len = 256

-- A path and a type for the files in it.
pub record FilePair : Type 0 where
  pub path : List ℕ
  pub file_type : List ℕ

abbrev pub and_pair : FilePair → Option (List FilePair) → Option (List FilePair)
and_pair p none = none
and_pair p (some ps) = some (p ∷ ps)

-- `path:type?path:type?...`; `none` where a text fills its buffer and so has no NUL behind it.
-- While a path is read, the type is `none`.
unfoldable pub file_pairs : List ℕ → Option (List ℕ) → List ℕ → Option (List FilePair)
file_pairs p none [] = some (record { path = p; file_type = [] } ∷ [])
file_pairs p (some t) [] = some (record { path = p; file_type = t } ∷ [])
file_pairs p none (c ∷ text) = elim (c == b':') [
  | true ↦ file_pairs p (some []) text
  | false ↦ elim (leb max_filename_len (length p + 1)) [
    | true ↦ none
    | false ↦ file_pairs (p ++ (c ∷ [])) none text
  ]
]
file_pairs p (some t) (c ∷ text) = elim (c == b'?') [
  | true ↦ and_pair (record { path = p; file_type = t }) (file_pairs [] none text)
  | false ↦ elim (leb max_filename_len (length t + 1)) [
    | true ↦ none
    | false ↦ file_pairs p (some (t ++ (c ∷ []))) text
  ]
]

-- `%0kd`
unfoldable pub padded : ℕ → ℤ → List ℕ
unfolding dec
padded k (pos n) = replicate (k - length (dec n)) b'0' ++ dec n
padded k (negsuc n) = b'-' ∷ (replicate (k - 1 - length (dec (suc n))) b'0' ++ dec (suc n))

abbrev pub dashed : List ℕ → List ℕ → List ℕ
dashed field more = field ++ (b'-' ∷ more)

-- `name:type:YYYY-MM-DD-HH-MM-SS:length\r`
unfoldable pub file_info : List ℕ → List ℕ → FileStat → List ℕ
unfolding padded dec_int
file_info name file_type t =
    name
    ++ (b':'
        ∷ (file_type
            ++ (b':'
                ∷ dashed (padded 4 t.year) (
                    dashed (padded 2 t.month) (
                      dashed (padded 2 t.day) (
                        dashed (padded 2 t.hour) (
                          dashed (padded 2 t.minute)
                            (padded 2 t.second ++ (b':' ∷ (dec_int t.size ++ (13 ∷ [])))))))))))

-- The text in `strTemp` goes on, or the request has been given up, or it reads what nothing has
-- set, or runs past a buffer.
pub data Listing (W : Type 0) : Type 0 where
  going : List ℕ → W → Listing W
  given_up : W → Listing W
  broken : Listing W

module _ {W : Type 0} (sys : System W) where
  send_all : List ℕ → W → Listing W
  send_all text w = elim (sys.send_data msg_getallfileinfo text w).0 [
    | true ↦ going [] (sys.send_data msg_getallfileinfo text w).1
    | false ↦
        given_up
          (sys.send_data msg_getallfileinfo (b'?' ∷ [])
            (sys.send_data msg_getallfileinfo text w).1).1
  ]

  -- The text has to leave a byte of `strTemp` for its NUL.
  then_append : List ℕ → Listing W → Listing W
  then_append info (going buf w) =
      if ltb (length (buf ++ info)) nr_maxpacklen then going (buf ++ info) w else broken
  then_append info (given_up w) = given_up w
  then_append info broken = broken

  -- What does not fit any more goes out first.
  unfoldable pub add_info : List ℕ → List ℕ → W → Listing W
  unfolding send_all then_append
  add_info info buf w =
      then_append info
        (if ltb nr_maxpacklen (length buf + length info) then send_all buf w else going buf w)

  -- A folder is passed over. Of a file that `stat` does not find the record is not filled.
  add_file : FilePair → List ℕ → List ℕ → Bool × W → Option FileStat × W → Listing W
  unfolding add_info file_info
  add_file p name buf (true, w) info = going buf w
  add_file p name buf (false, w) (none, w1) = broken
  add_file p name buf (false, w) (some t, w1) = add_info (file_info name p.file_type t) buf w1

  unfoldable pub then_files : FilePair → List (List ℕ) → Listing W → Listing W
  unfolding add_file
  then_files p [] l = l
  then_files p (name ∷ names) (given_up w) = given_up w
  then_files p (name ∷ names) broken = broken
  then_files p (name ∷ names) (going buf w) = then_files p names (
      if is_dots name
      then going buf w
      else if leb max_filename_len (length (inside_path p.path name))
      then broken
      else add_file p name buf (sys.is_folder (inside_path p.path name) w)
          (sys.stat (inside_path p.path name) (sys.is_folder (inside_path p.path name) w).1))

  opened_directory : FilePair → List ℕ → Option (List (List ℕ)) × W → Listing W
  unfolding then_files
  opened_directory p buf (none, w) = going buf w
  opened_directory p buf (some names, w) = then_files p names (going buf w)

  unfoldable pub then_pairs : List FilePair → Listing W → Listing W
  unfolding opened_directory
  then_pairs [] l = l
  then_pairs (p ∷ ps) (given_up w) = given_up w
  then_pairs (p ∷ ps) broken = broken
  then_pairs (p ∷ ps) (going buf w) = then_pairs ps (
      if ltb 0 (length p.path) && ltb 0 (length p.file_type)
      then opened_directory p buf (sys.machine.host.list_dir p.path w)
      else going buf w)

  -- The "?" at the end.
  pub closed : Server → Listing W → Handled W
  closed s (going buf w) = done s w
  closed s (given_up w) = done s w
  closed s broken = undefined

  finish : Listing W → Listing W
  unfolding add_info send_all
  finish (going buf w) = last (add_info (b'?' ∷ []) buf w)
    where
      last : Listing W → Listing W
      last (going text w1) = send_all text w1
      last (given_up w1) = given_up w1
      last broken = broken
  finish (given_up w) = given_up w
  finish broken = broken

  pub all_pairs : Option (List FilePair) → Server → W → Handled W
  unfolding then_pairs closed finish
  all_pairs none s w = undefined
  all_pairs (some ps) s w = closed s (finish (then_pairs ps (going [] w)))

  unfoldable pub get_all_file_info : List ℕ → Server → W → Handled W
  unfolding c_str file_pairs all_pairs
  get_all_file_info bytes s w = all_pairs (file_pairs [] none (c_str bytes)) s w
