-- ===== src/Board/Host.antt =====
-- The calls of the operating system that VControlServer.cpp makes, over the state `W` of the
-- machine. A failure is `false` or `none`.
use softupdate.Prelude.{ℕ, Bool, Option, List}

pub record Host (W : Type 0) : Type 0 where
  -- `access(path, F_OK)`, and `stat` with `S_ISDIR`
  pub exists : List ℕ → W → Bool × W
  pub is_dir : List ℕ → W → Bool × W
  -- `open`, one `read` of at most so many bytes, `close`
  pub read_file : List ℕ → ℕ → W → Option (List ℕ) × W
  -- `opendir`, with the names that `readdir` goes on to give
  pub list_dir : List ℕ → W → Option (List (List ℕ)) × W
  -- `socket(AF_INET, SOCK_DGRAM, 0)`, `close`, and the two `setsockopt` calls
  pub socket : W → Option ℕ × W
  pub close : ℕ → W → W
  pub set_broadcast : ℕ → W → W
  pub bind_to_device : ℕ → List ℕ → W → W
  -- `sendto` the broadcast address: whether it sent anything
  pub send_to : ℕ → List ℕ → W → Bool × W
  -- `select` for so many seconds and microseconds, and `recv` of at most so many bytes
  pub select : ℕ → ℕ → ℕ → W → Bool × W
  pub recv : ℕ → ℕ → W → Option (List ℕ) × W
