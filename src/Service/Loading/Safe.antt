-- ===== src/Service/Loading/Safe.antt =====
-- The requests of a memory script keep the server safe.
use softupdate.Prelude.{
  ℕ, Bool, true, max, if_both, zero, suc, ◌+◌, ◌≡◌, refl, false, Option, none, some, List, ◌++◌,
  ◌==◌, length, length-append, arith,
}
use softupdate.Prelude.Int.{ℤ, pos, negsuc}
use softupdate.Text.{atoi}
use softupdate.Board.Hex.{c_str}
use softupdate.Service.State.{System, Server}
use softupdate.Service.Loading.{
  memory_script_start, memory_script_part, room, append_text, start_thread, memory_script_cancel,
}
use softupdate.Service.Modules.Addresses.{length-c_str}
use softupdate.Service.Safety.{IsSafe, SafeAfter, CancelledIsFinished, if-SafeAfter}

module _ {W : Type 0} (sys : System W) where
  room-SafeAfter : (z : ℤ) (s : Server) (w : W) → IsSafe s → SafeAfter (room sys z s w)
  unfolding room
  room-SafeAfter (pos zero) s w h = refl
  room-SafeAfter (pos (suc n)) s w h = (h.0, refl, omega arith)
  room-SafeAfter (negsuc n) s w h = refl

  pub memory_script_start-SafeAfter :
      (bytes : List ℕ) (s : Server) (w : W)
      → IsSafe s
      → SafeAfter (memory_script_start sys bytes s w)
  unfolding memory_script_start
  memory_script_start-SafeAfter bytes s w h =
      if-SafeAfter s.is_memory_script_finish _ _ (room-SafeAfter (atoi (c_str bytes)) s w h) h

  start_thread-SafeAfter :
      (len : ℕ) (s : Server) (w : W) → IsSafe s → SafeAfter (start_thread sys len s w)
  unfolding start_thread
  start_thread-SafeAfter len s w h = if-SafeAfter (len == s.memory_script_length) _ _ h h

  append_text-SafeAfter :
      (bytes : List ℕ) (text : Option (List ℕ)) (s : Server) (w : W)
      → IsSafe s
      → SafeAfter (append_text sys bytes text s w)
  unfolding append_text
  append_text-SafeAfter bytes none s w h = h
  append_text-SafeAfter bytes (some text) s w h =
      start_thread-SafeAfter (length text + length bytes)
        (record s {
          memory_script_text = some (text ++ c_str bytes);
          memory_script_written = max s.memory_script_written (length text + length bytes + 1);
        })
        w (h.0, h.1, omega (arith, length-append text (c_str bytes), length-c_str bytes))

  pub memory_script_cancel-SafeAfter :
      (s : Server) (w : W) → IsSafe s → SafeAfter (memory_script_cancel s w)
  unfolding memory_script_cancel
  memory_script_cancel-SafeAfter s w h = (h.0, refl, h.2)

  pub memory_script_part-SafeAfter :
      (bytes : List ℕ) (s : Server) (w : W)
      → IsSafe s
      → SafeAfter (memory_script_part sys bytes s w)
  unfolding memory_script_part
  memory_script_part-SafeAfter bytes s w h =
      if_both SafeAfter s.is_memory_script_cancel _ _
        (λ on. (h.0, finished s.is_memory_script_cancel, h.2))
        (λ off.
          append_text-SafeAfter bytes s.memory_script_text
            (record s { is_memory_script_finish = false }) w
            (h.0, going_on s.is_memory_script_cancel off, h.2))
    where
      finished : (cancel : Bool) → CancelledIsFinished cancel true
      finished true = refl
      finished false = refl

      going_on : (cancel : Bool) → cancel ≡ false → CancelledIsFinished cancel false
      going_on true off = cc
      going_on false off = refl
