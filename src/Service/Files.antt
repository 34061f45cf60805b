-- ===== src/Service/Files.antt =====
-- The requests that ask about a file, and those that need no more than a line.
use softupdate.Prelude.{
  ℕ, true, false, Option, none, some, List, [], ◌∷◌, ◌++◌, if◌then◌else◌, replicate, ltb, length,
  take,
}
use softupdate.Prelude.Int.{ℤ, pos}
use softupdate.Text.{dec, dec_int}
use softupdate.Board.Hex.{c_str}
use softupdate.Service.State.{
  System, FileStat, Server, read_memory, Handled, done, waits, undefined, answer, int_bytes,
}

abbrev pub msg_checkfileexists : ℕ
msg_checkfileexists = 0x101

abbrev pub msg_getfilelength : ℕ
msg_getfilelength = 0x104

abbrev pub msg_getfilecreatedate : ℕ
msg_getfilecreatedate = 0x108

abbrev pub msg_getfileinfo : ℕ
msg_getfileinfo = 0x126

abbrev pub msg_getversion : ℕ
msg_getversion = 0x128

abbrev pub version : ℕ
version = 20130508

-- `TIME`, and `FILEINFO` with the length behind it, both cleared where there is no file.
unfoldable pub time_bytes : Option FileStat → List ℕ
unfolding int_bytes
time_bytes none = replicate 24 0
time_bytes (some t) =
    int_bytes t.year
    ++ (int_bytes t.month
        ++ (int_bytes t.day ++ (int_bytes t.hour ++ (int_bytes t.minute ++ int_bytes t.second))))

unfoldable pub file_info_bytes : Option FileStat → List ℕ
unfolding time_bytes int_bytes
file_info_bytes none = replicate 28 0
file_info_bytes (some t) = time_bytes (some t) ++ int_bytes t.size

unfoldable pub size_of : Option FileStat → ℤ
size_of none = pos 0
size_of (some t) = t.size

module _ {W : Type 0} (sys : System W) where
  unfoldable pub check_file_exists : List ℕ → Server → W → Handled W
  unfolding c_str
  check_file_exists bytes s w =
      let (found, w1) = sys.access (c_str bytes) w in
      answer sys msg_checkfileexists (if found then b'1' ∷ [] else b'0' ∷ []) s w1

  unfoldable pub get_file_length : List ℕ → Server → W → Handled W
  unfolding c_str size_of dec_int
  get_file_length bytes s w =
      let (info, w1) = sys.stat (c_str bytes) w in
      answer sys msg_getfilelength (dec_int (size_of info)) s w1

  unfoldable pub get_file_create_date : List ℕ → Server → W → Handled W
  unfolding c_str time_bytes
  get_file_create_date bytes s w =
      let (info, w1) = sys.stat (c_str bytes) w in
      answer sys msg_getfilecreatedate (time_bytes info) s w1

  unfoldable pub get_file_info : List ℕ → Server → W → Handled W
  unfolding c_str file_info_bytes
  get_file_info bytes s w =
      let (info, w1) = sys.stat (c_str bytes) w in
      answer sys msg_getfileinfo (file_info_bytes info) s w1

  unfoldable pub get_version : Server → W → Handled W
  unfolding dec
  get_version s w = answer sys msg_getversion (dec version) s w

  -- `MSG_READMEMORY` keeps the eight bytes of a `MEMINFO` and starts a thread.
  unfoldable pub read_memory_request : List ℕ → Server → W → Handled W
  read_memory_request bytes s w = elim s.thread_read_memory [
    | true ↦ waits
    | false ↦
        let (created, w1) = sys.pthread_create read_memory w in
        if ltb (length bytes) 8
        then undefined
        else done (record s { mem_info_read = take 8 bytes; thread_read_memory = created }) w1
  ]

  -- `MSG_WRITEMEMORY` writes through a pointer that nothing has set.
  unfoldable pub write_memory_request : List ℕ → Server → W → Handled W
  write_memory_request bytes s w = undefined

  -- An unknown request is answered with no data.
  unfoldable pub unknown_request : ℕ → Server → W → Handled W
  unknown_request type s w = answer sys type [] s w

unfoldable pub read_memory_cancel : {W : Type 0} → Server → W → Handled W
read_memory_cancel s w = done (record s { is_read_memory_cancel = true }) w
