-- ===== src/Service/Safety.antt =====
-- What holds of the server's fields between two requests.
use softupdate.Prelude.{
  ℕ, ◌<◌, ◌≡◌, refl, Bool, true, false, Option, none, some, List, length, if◌then◌else◌,
}
use softupdate.Service.State.{Server, Handled, done, waits, undefined, common_server}

-- A file that is being received has its path, which the end of the upload needs.
abbrev pub PathSet : Option ℕ → Option (List ℕ) → Type 0
PathSet none path = ◌≡◌ {A = ℕ} 0 0
PathSet (some fp) none = ◌≡◌ {A = ℕ} 0 1
PathSet (some fp) (some path) = ◌≡◌ {A = ℕ} 0 0

-- A script that was cancelled counts as finished, so that the next can be announced.
abbrev pub CancelledIsFinished : Bool → Bool → Type 0
CancelledIsFinished true finished = finished ≡ true
CancelledIsFinished false finished = ◌≡◌ {A = ℕ} 0 0

-- The writes to the script's buffer have been counted: its text and the NUL behind it lie in them.
abbrev pub TextCounted : Option (List ℕ) → ℕ → Type 0
TextCounted none end = ◌≡◌ {A = ℕ} 0 0
TextCounted (some text) end = length text < end

abbrev pub IsSafe : Server → Type 0
IsSafe s =
    PathSet s.fp_send_file s.send_file_path
    × CancelledIsFinished s.is_memory_script_cancel s.is_memory_script_finish
    × TextCounted s.memory_script_text s.memory_script_written

abbrev pub SafeAfter : {W : Type 0} → Handled W → Type 0
SafeAfter (done s w) = IsSafe s
SafeAfter waits = ◌≡◌ {A = ℕ} 0 0
SafeAfter undefined = ◌≡◌ {A = ℕ} 0 0

pub common_server-IsSafe : IsSafe common_server
unfolding common_server
common_server-IsSafe = (refl, refl, refl)

module _ {W : Type 0} where
  pub if-SafeAfter :
      (b : Bool) (x y : Handled W) → SafeAfter x → SafeAfter y → SafeAfter (if b then x else y)
  if-SafeAfter true x y h k = h
  if-SafeAfter false x y h k = k

  pub elim-SafeAfter :
      (b : Bool) (x y : Handled W)
      → SafeAfter x
      → SafeAfter y
      → SafeAfter (elim b [ true ↦ x | false ↦ y ])
  elim-SafeAfter true x y h k = h
  elim-SafeAfter false x y h k = k
