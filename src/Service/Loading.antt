-- ===== src/Service/Loading.antt =====
-- A memory script from the client: `MSG_MEMORYSCRIPT_START` makes room for its text,
-- `MSG_MEMORYSCRIPT` brings it, and the last of it starts the thread.
use softupdate.Prelude.{
  ℕ, zero, suc, ◌+◌, Bool, true, false, Option, none, some, List, [], ◌∷◌, ◌++◌, ltb, ◌==◌,
  if◌then◌else◌, length, max,
}
use softupdate.Prelude.Int.{ℤ, pos, negsuc}
use softupdate.Text.{atoi}
use softupdate.Board.Hex.{c_str}
use softupdate.Service.State.{System, Server, memory_script, Handled, done, undefined, answer}
pub mod Whole
pub mod Safe

abbrev pub msg_memoryscript_start : ℕ
msg_memoryscript_start = 0x119

module _ {W : Type 0} (sys : System W) where
  -- `malloc` of so many bytes, and a NUL in the first. There is no first of 0, and no memory for
  -- what a negative number is as `ULONG`.
  room : ℤ → Server → W → Handled W
  room (pos zero) s w = undefined
  room (pos (suc n)) s w =
      answer sys msg_memoryscript_start (b'0' ∷ [])
        (record s {
          is_memory_script_cancel = false;
          memory_script_length = suc n;
          memory_script_text = some [];
          memory_script_written = 1;
        })
        w
  room (negsuc n) s w = undefined

  unfoldable pub memory_script_start : List ℕ → Server → W → Handled W
  unfolding room c_str atoi
  memory_script_start bytes s w =
      if s.is_memory_script_finish
      then room (atoi (c_str bytes)) s w
      else answer sys msg_memoryscript_start (b'1' ∷ []) s w

  -- The thread runs when the text has the length that was announced.
  unfoldable pub start_thread : ℕ → Server → W → Handled W
  start_thread len s w =
      let (created, w1) = sys.pthread_create memory_script w in
      if len == s.memory_script_length
      then done (record s { thread_memory_script = created }) w1
      else done s w

  -- `strcat` with its NUL, and a NUL `length` bytes behind the old text. Nothing compares them with
  -- the length that was announced: the code goes on, and what lies behind the buffer is taken to
  -- bear it. `memory_script_written` keeps the end of these writes.
  unfoldable pub append_text : List ℕ → Option (List ℕ) → Server → W → Handled W
  unfolding start_thread c_str
  append_text bytes none s w = done s w
  append_text bytes (some text) s w =
      start_thread (length text + length bytes)
        (record s {
          memory_script_text = some (text ++ c_str bytes);
          memory_script_written = max s.memory_script_written (length text + length bytes + 1);
        })
        w

  unfoldable pub memory_script_part : List ℕ → Server → W → Handled W
  unfolding append_text
  memory_script_part bytes s w =
      if s.is_memory_script_cancel
      then done (record s { is_memory_script_finish = true }) w
      else append_text bytes s.memory_script_text (record s { is_memory_script_finish = false }) w

unfoldable pub memory_script_cancel : {W : Type 0} → Server → W → Handled W
memory_script_cancel s w =
    done (record s { is_memory_script_cancel = true; is_memory_script_finish = true }) w
