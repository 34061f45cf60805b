-- ===== src/Service/State.antt =====
-- `CCommonServer` of common/CommonServer.h: its fields, and the calls that its handlers make.
use softupdate.Prelude.{
  ℕ, ◌-◌, ◌*◌, ◌^◌, Bool, true, false, Option, none, some, List, [], ltb, if◌then◌else◌, take, drop,
}
use softupdate.Prelude.Int.{ℤ, pos, negsuc}
use softupdate.Client.Frame.{le4, le4_value}
use softupdate.Board.Access.{Machine}

-- `st_size`, and the local time of `st_atime` in the six fields of `TIME`.
pub record FileStat : Type 0 where
  pub size : ℤ
  pub year : ℤ
  pub month : ℤ
  pub day : ℤ
  pub hour : ℤ
  pub minute : ℤ
  pub second : ℤ

-- The work that a thread is created for.
pub data Job : Type 0 where
  down_file : Job
  read_memory : Job
  cmd : Job
  memory_script : Job

-- The calls of the operating system over the state `W` of the machine; a failure is `false` or
-- `none`.
pub record System (W : Type 0) : Type 0 where
  pub machine : Machine W
  -- `access`, `mkdir`, `remove`, `stat`
  pub access : List ℕ → W → Bool × W
  pub mkdir : List ℕ → W → Bool × W
  pub remove : List ℕ → W → W
  pub stat : List ℕ → W → Option FileStat × W
  -- `stat` with `st_mode & S_IFDIR`
  pub is_folder : List ℕ → W → Bool × W
  -- `fopen(path, "r")` with what `fread` goes on to give, and `fclose`
  pub fopen_read : List ℕ → W → Option (List ℕ) × W
  -- `fopen(path, "a")`, `fwrite` with the count of the bytes it wrote, `fclose`
  pub fopen_append : List ℕ → W → Option ℕ × W
  pub fwrite : ℕ → List ℕ → W → ℕ × W
  pub fclose : ℕ → W → W
  -- `popen(command, "r")` with the lines that `fgets` goes on to give, and `pclose`
  pub popen : List ℕ → W → Option (List (List ℕ)) × W
  pub pclose : W → W
  -- `CCommonServer::SendData`: a frame through `ClientBase::Send`, one at a time
  pub send_data : ℕ → List ℕ → W → Bool × W
  pub pthread_create : Job → W → Bool × W

-- The threads are the handles that are not 0. `memory_script_written` is no member: it says how many
-- bytes from `m_MemoryScript` on have been written to since its `malloc`.
pub record Server : Type 0 where
  pub is_get_file_cancel : Bool
  pub is_send_file_cancel : Bool
  pub is_read_memory_cancel : Bool
  pub is_cmd_cancel : Bool
  pub is_memory_script_cancel : Bool
  pub is_memory_script_finish : Bool
  pub fp_send_file : Option ℕ
  pub send_file_path : Option (List ℕ)
  pub get_file_path : Option (List ℕ)
  pub cmd_text : Option (List ℕ)
  pub mem_info_read : List ℕ
  pub memory_script_text : Option (List ℕ)
  pub memory_script_length : ℕ
  pub memory_script_written : ℕ
  pub thread_down_file : Bool
  pub thread_read_memory : Bool
  pub thread_cmd : Bool
  pub thread_memory_script : Bool

-- The constructor. It leaves the command, the memory range and the length of the script unset.
unfoldable pub common_server : Server
common_server = record {
  is_get_file_cancel = false;
  is_send_file_cancel = false;
  is_read_memory_cancel = false;
  is_cmd_cancel = false;
  is_memory_script_cancel = false;
  is_memory_script_finish = true;
  fp_send_file = none;
  send_file_path = none;
  get_file_path = none;
  cmd_text = none;
  mem_info_read = [];
  memory_script_text = none;
  memory_script_length = 0;
  memory_script_written = 0;
  thread_down_file = false;
  thread_read_memory = false;
  thread_cmd = false;
  thread_memory_script = false;
}

-- A handler is done; or it sleeps and looks again, until another thread has ended; or it reads or
-- writes outside what it owns.
pub data Handled (W : Type 0) : Type 0 where
  done : Server → W → Handled W
  waits : Handled W
  undefined : Handled W

-- The destructor closes the file that is being received.
unfoldable pub close_send_file : {W : Type 0} → System W → Option ℕ → W → W
close_send_file sys none w = w
close_send_file sys (some fp) w = sys.fclose fp w

abbrev pub nr_maxpacklen : ℕ
nr_maxpacklen = 2048

-- An `int` in memory, and the `int` that four bytes hold.
unfoldable pub int_bytes : ℤ → List ℕ
unfolding le4
int_bytes (pos n) = le4 n
int_bytes (negsuc n) = le4 (2 ^ 32 - 1 - n)

unfoldable pub int_value : List ℕ → ℤ
unfolding le4_value
int_value bytes =
    let n = le4_value bytes in if ltb n (2 ^ 31) then pos n else negsuc (2 ^ 32 - 1 - n)

-- The `i`-th `int` of a structure.
unfoldable pub int_at : ℕ → List ℕ → ℤ
unfolding int_value
int_at i bytes = int_value (take 4 (drop (4 * i) bytes))

-- An answer whose outcome only a log line tells.
abbrev pub answer : {W : Type 0} → System W → ℕ → List ℕ → Server → W → Handled W
answer sys type bytes s w = done s (sys.send_data type bytes w).1
