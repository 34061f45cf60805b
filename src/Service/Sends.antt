-- ===== src/Service/Sends.antt =====
-- What goes out through `SendData`.
use softupdate.Prelude.{ℕ, ◌≡◌, ap, ◌∙◌, List, [], ◌∷◌, ◌++◌, append_assoc, ◌⊎◌}
use softupdate.Service.State.{System}

-- For a machine that keeps a record `sent` of the frames; the files and pipes do not touch it.
pub record Sends {W : Type 0} (sys : System W) (sent : W → List (ℕ × List ℕ)) : Type 0 where
  pub logs :
      (type : ℕ) (bytes : List ℕ) (w : W)
      → sent (sys.send_data type bytes w).1 ≡ sent w ++ ((type, bytes) ∷ [])
  pub reading : (path : List ℕ) (w : W) → sent (sys.fopen_read path w).1 ≡ sent w
  pub piping : (command : List ℕ) (w : W) → sent (sys.popen command w).1 ≡ sent w
  pub piped : (w : W) → sent (sys.pclose w) ≡ sent w

abbrev pub packet : ℕ → List ℕ → ℕ × List ℕ
packet type bytes = (type, bytes)

abbrev pub concat : List (List ℕ) → List ℕ
concat [] = []
concat (b ∷ bs) = b ++ concat bs

-- What goes out at the end: nothing, or the empty answer.
abbrev pub AtEnd : ℕ → List (ℕ × List ℕ) → Type 0
AtEnd type last = (last ≡ []) ⊎ (last ≡ (type, []) ∷ [])

module _ {W : Type 0} (sys : System W) (sent : W → List (ℕ × List ℕ)) (sends : Sends sys sent) where
  pub log_next :
      (type : ℕ) (block : List ℕ) (w w' : W) (more : List (ℕ × List ℕ))
      → sent w' ≡ sent (sys.send_data type block w).1 ++ more
      → sent w' ≡ sent w ++ ((type, block) ∷ more)
  log_next type block w w' more h =
      h
      ∙ ap (λ t. t ++ more) (sends.logs type block w)
      ∙ append_assoc (sent w) ((type, block) ∷ []) more
