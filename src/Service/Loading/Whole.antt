-- ===== src/Service/Loading/Whole.antt =====
-- A script that comes in parts, and one that nobody announced.
use softupdate.Prelude.{
  ℕ, ◌+◌, ◌≡◌, ◌≢◌, sym, ap, Bool, false, none, some, List, [], ◌∷◌, if◌then◌else◌, length,
}
use softupdate.Text.{atoi}
use softupdate.Board.Hex.{c_str}
use softupdate.Service.State.{
  System, Server, memory_script, Handled, done, waits, undefined, answer,
}
use softupdate.Service.Loading.{
  memory_script_start, memory_script_part, room, append_text, msg_memoryscript_start,
}

module _ {W : Type 0} (sys : System W) where
  unfoldable pub then_part : List ℕ → Handled W → Handled W
  unfolding memory_script_part
  then_part bytes (done s w) = memory_script_part sys bytes s w
  then_part bytes waits = waits
  then_part bytes undefined = undefined

  unfoldable pub parts_in_order : List (List ℕ) → Handled W → Handled W
  unfolding then_part
  parts_in_order [] h = h
  parts_in_order (b ∷ bs) h = parts_in_order bs (then_part b h)

-- Text, without a NUL.
abbrev pub NoNul : List ℕ → Type 0
NoNul [] = ◌≡◌ {A = ℕ} 0 0
NoNul (c ∷ cs) = (c ≢ 0) × NoNul cs

abbrev pub AllText : List (List ℕ) → Type 0
AllText [] = ◌≡◌ {A = ℕ} 0 0
AllText (b ∷ bs) = (b ≢ []) × NoNul b × AllText bs

-- The state while a script of `n` bytes comes in: the bytes written so far are the text and a NUL.
abbrev pub loading : ℕ → List ℕ → Bool → Server → Server
loading n text finish s = record s {
  is_memory_script_cancel = false;
  memory_script_length = n;
  memory_script_text = some text;
  memory_script_written = length text + 1;
  is_memory_script_finish = finish;
}

-- The state once the thread has been asked for: the last byte written is the one behind `n`.
abbrev pub running : {W : Type 0} → System W → ℕ → List ℕ → Server → W → Handled W
running sys n text s w =
    done
      (record s {
        is_memory_script_cancel = false;
        memory_script_length = n;
        memory_script_text = some text;
        memory_script_written = n + 1;
        is_memory_script_finish = false;
        thread_memory_script = (sys.pthread_create memory_script w).0;
      })
      (sys.pthread_create memory_script w).1

finish_of : {W : Type 0} → Bool → Handled W → Bool
finish_of other (done s w) = s.is_memory_script_finish
finish_of other waits = other
finish_of other undefined = other

-- A part that comes while no script has been announced and none cancelled makes the server refuse
-- the announcement that follows.
pub memory_script_part-memory_script_start :
    {W : Type 0} (sys : System W) (b announced : List ℕ) (s s' : Server) (w w' now : W)
    → s.memory_script_text ≡ none
    → s.is_memory_script_cancel ≡ false
    → memory_script_part sys b s w ≡ done s' w'
    → memory_script_start sys announced s' now
      ≡ answer sys msg_memoryscript_start (b'1' ∷ []) s' now
unfolding memory_script_part memory_script_start append_text finish_of
memory_script_part-memory_script_start sys b announced s s' w w' now empty on h =
    ap
      (λ f.
        if f
        then room sys (atoi (c_str announced)) s' now
        else answer sys msg_memoryscript_start (b'1' ∷ []) s' now)
      (sym (ap (finish_of false) (rw (on, empty) at h)))
