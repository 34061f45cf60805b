-- ===== src/Service/Upload/Safe.antt =====
-- The requests of an upload keep the server safe.
use softupdate.Prelude.{ℕ, refl, Bool, true, false, Option, none, some, List, [], ◌∷◌, ltb, length}
use softupdate.Service.State.{System, Server}
use softupdate.Service.Upload.{
  send_file, send_file_name, received, written, finished, name_answer, with_directory,
}
use softupdate.Service.Safety.{PathSet, IsSafe, SafeAfter, if-SafeAfter, elim-SafeAfter}

module _ {W : Type 0} (sys : System W) where
  with_directory-SafeAfter :
      (bytes : List ℕ) (o : Option (Bool × W)) (s : Server)
      → IsSafe s
      → SafeAfter (with_directory sys bytes o s)
  unfolding with_directory name_answer
  with_directory-SafeAfter bytes none s h = refl
  with_directory-SafeAfter bytes (some (false, w)) s h = (refl, h.1, h.2)
  with_directory-SafeAfter bytes (some (true, w)) s h = (named _, h.1, h.2)
    where
      named : (fp : Option ℕ) → PathSet fp (some bytes)
      named none = refl
      named (some fp) = refl

  pub send_file_name-SafeAfter :
      (bytes : List ℕ) (s : Server) (w : W) → IsSafe s → SafeAfter (send_file_name sys bytes s w)
  unfolding send_file_name
  send_file_name-SafeAfter bytes s w h = with_directory-SafeAfter bytes _ s h

  written-SafeAfter :
      (fp len : ℕ) (s : Server) (p : ℕ × W) → IsSafe s → SafeAfter (written sys fp len s p)
  unfolding written
  written-SafeAfter fp len s (n, w) h = if-SafeAfter (ltb n len) _ _ (refl, h.1, h.2) h

  received-SafeAfter :
      (fp : Option ℕ) (bytes : List ℕ) (s : Server) (w : W)
      → IsSafe s
      → SafeAfter (received sys fp bytes s w)
  unfolding received finished
  received-SafeAfter none bytes s w h = h
  received-SafeAfter (some fp) [] s w h = (refl, h.1, h.2)
  received-SafeAfter (some fp) (b ∷ bytes) s w h =
      elim-SafeAfter s.is_send_file_cancel _ _ (refl, h.1, h.2)
        (written-SafeAfter fp (length (b ∷ bytes)) s (sys.fwrite fp (b ∷ bytes) w) h)

  pub send_file-SafeAfter :
      (bytes : List ℕ) (s : Server) (w : W) → IsSafe s → SafeAfter (send_file sys bytes s w)
  unfolding send_file
  send_file-SafeAfter bytes s w h = received-SafeAfter s.fp_send_file bytes s w h
