-- ===== src/Service/Upload.antt =====
-- A file from the client: `MSG_SENDFILENAME` opens it, `MSG_SENDFILE` brings its bytes, an empty
-- one ends it.
use softupdate.Prelude.{
  ℕ, zero, suc, ◌+◌, ◌-◌, Bool, true, false, Option, none, some, List, [], ◌∷◌, ltb, ◌==◌,
  if◌then◌else◌, length, get_or, take,
}
use softupdate.Board.Hex.{c_str}
use softupdate.Service.State.{
  System, FileStat, Server, Handled, done, undefined, answer, close_send_file,
}
use softupdate.Service.Directory.{create_dir}
pub mod Received
pub mod Safe

abbrev pub msg_sendfile : ℕ
msg_sendfile = 0x105

abbrev pub msg_sendfile_cancel : ℕ
msg_sendfile_cancel = 0x106

-- The last '/' of the `n` bytes behind the first.
unfoldable pub last_slash : ℕ → List ℕ → Option ℕ
last_slash zero bytes = none
last_slash (suc n) bytes =
    let before = last_slash n bytes in
    if get_or bytes (suc n) 0 == b'/' then some (suc n) else before

-- The bytes up to it; without one, all of them.
unfoldable pub up_to : Option ℕ → List ℕ → List ℕ
up_to none bytes = bytes
up_to (some i) bytes = take i bytes

unfoldable pub directory_of : List ℕ → List ℕ
unfolding last_slash up_to c_str
directory_of bytes = c_str (up_to (last_slash (length bytes - 1) bytes) bytes)

module _ {W : Type 0} (sys : System W) where
  -- The answer is "1" for a file that is open.
  name_answer : List ℕ → Option ℕ × W → Server → Handled W
  name_answer bytes (fp, w) s =
      answer sys msg_sendfile (elim fp [ none ↦ b'0' ∷ [] | some p ↦ b'1' ∷ [] ])
        (record s { fp_send_file = fp; send_file_path = some bytes; is_send_file_cancel = false }) w

  with_directory : List ℕ → Option (Bool × W) → Server → Handled W
  unfolding name_answer
  with_directory bytes none s = undefined
  with_directory bytes (some (false, w)) s = name_answer bytes (none, w) s
  with_directory bytes (some (true, w)) s =
      name_answer bytes (sys.fopen_append (c_str bytes) (sys.remove (c_str bytes) w)) s

  unfoldable pub send_file_name : List ℕ → Server → W → Handled W
  unfolding close_send_file directory_of create_dir with_directory
  send_file_name bytes s w =
      with_directory bytes
        (create_dir sys (directory_of bytes) (close_send_file sys s.fp_send_file w)) s

  remove_path : Option (List ℕ) → W → W
  remove_path none w = w
  remove_path (some bytes) w = sys.remove (c_str bytes) w

  -- A write that comes out short gives the file up and tells the client.
  written : ℕ → ℕ → Server → ℕ × W → Handled W
  unfolding remove_path
  written fp len s (n, w) =
      if ltb n len
      then done (record s { fp_send_file = none; send_file_path = none })
          (remove_path s.send_file_path (sys.fclose fp (sys.send_data msg_sendfile_cancel [] w).1))
      else done s w

  stat_path : Option (List ℕ) → W → W
  stat_path none w = w
  stat_path (some bytes) w = (sys.stat (c_str bytes) w).1

  -- The end of the data, or the client's cancellation.
  finished : ℕ → Server → W → Handled W
  unfolding remove_path stat_path
  finished fp s w =
      let closed = sys.fclose fp w in
      done (record s { fp_send_file = none; send_file_path = none })
        (if s.is_send_file_cancel
          then remove_path s.send_file_path closed
          else stat_path s.send_file_path closed)

  received : Option ℕ → List ℕ → Server → W → Handled W
  unfolding written finished
  received none bytes s w = done s w
  received (some fp) [] s w = finished fp s w
  received (some fp) (b ∷ bytes) s w = elim s.is_send_file_cancel [
    | true ↦ finished fp s w
    | false ↦ written fp (length (b ∷ bytes)) s (sys.fwrite fp (b ∷ bytes) w)
  ]

  unfoldable pub send_file : List ℕ → Server → W → Handled W
  unfolding received
  send_file bytes s w = received s.fp_send_file bytes s w

unfoldable pub send_file_cancel : {W : Type 0} → Server → W → Handled W
send_file_cancel s w = done (record s { is_send_file_cancel = true }) w
