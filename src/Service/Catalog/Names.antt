-- ===== src/Service/Catalog/Names.antt =====
-- The text of a list of names.
use softupdate.Prelude.{
  ℕ, ◌≤◌, ◌≡◌, sym, ap, ◌∙◌, Bool, true, List, [], ◌∷◌, ◌++◌, append_assoc, append-nil, arith, ltb,
  if◌then◌else◌, length,
}
use softupdate.Service.State.{System}
use softupdate.Service.Sends.{packet}
use softupdate.Service.Catalog.{msg_getcatalog, is_dots, separated, kind_mark, inside_path}

-- A machine that keeps a record of the frames, accepts each, and on which looking at a directory
-- or at a path's kind, which `folder` tells, sends none.
pub record Listed {W : Type 0} (sys : System W) (sent : W → List (ℕ × List ℕ))
    (folder : List ℕ → Bool) : Type 0 where
  pub logs :
      (bytes : List ℕ) (w : W)
      → sent (sys.send_data msg_getcatalog bytes w).1 ≡ sent w ++ (packet msg_getcatalog bytes ∷ [])
  pub accepts : (bytes : List ℕ) (w : W) → (sys.send_data msg_getcatalog bytes w).0 ≡ true
  pub kind : (p : List ℕ) (w : W) → (sys.is_folder p w).0 ≡ folder p
  pub looking : (p : List ℕ) (w : W) → sent (sys.is_folder p w).1 ≡ sent w
  pub listing : (p : List ℕ) (w : W) → sent (sys.machine.host.list_dir p w).1 ≡ sent w

module _ (folder : List ℕ → Bool) (path : List ℕ) where
  abbrev pub entry : List ℕ → List ℕ
  entry name = kind_mark (folder (inside_path path name)) ∷ name

  abbrev pub others_text : List (List ℕ) → List ℕ
  others_text [] = []
  others_text (name ∷ names) = b':' ∷ (entry name ++ others_text names)

  -- The names with their marks, and ':' between them.
  abbrev pub names_text : List (List ℕ) → List ℕ
  names_text [] = []
  names_text (name ∷ names) = entry name ++ others_text names

  pub others_text-snoc :
      (names : List (List ℕ)) (name : List ℕ)
      → others_text (names ++ (name ∷ [])) ≡ others_text names ++ (b':' ∷ entry name)
  others_text-snoc [] name = ap (λ t. b':' ∷ t) (append-nil (entry name))
  others_text-snoc (first ∷ names) name =
      ap (λ t. b':' ∷ (entry first ++ t)) (others_text-snoc names name)
      ∙ ap (λ t. b':' ∷ t)
          (sym (append_assoc (entry first) (others_text names) (b':' ∷ entry name)))

  pub names_text-snoc :
      (names : List (List ℕ)) (name : List ℕ)
      → separated (names_text names) ++ entry name ≡ names_text (names ++ (name ∷ []))
  names_text-snoc [] name = sym (append-nil (entry name))
  names_text-snoc (first ∷ names) name =
      let some_text : ltb 0 (length (names_text (first ∷ names))) ≡ true = ground arith in
      rw some_text (
        append_assoc (names_text (first ∷ names)) (b':' ∷ []) (entry name)
        ∙ append_assoc (entry first) (others_text names) (b':' ∷ entry name)
        ∙ ap (λ t. entry first ++ t) (sym (others_text-snoc names name)))

-- The names but for "." and "..".
abbrev pub shown : List (List ℕ) → List (List ℕ)
shown [] = []
shown (name ∷ names) = if is_dots name then shown names else name ∷ shown names

abbrev pub flat : List (List (List ℕ)) → List (List ℕ)
flat [] = []
flat (g ∷ gs) = g ++ flat gs

abbrev pub AllShort : List (List ℕ) → Type 0
AllShort [] = ◌≡◌ {A = ℕ} 0 0
AllShort (name ∷ names) = (length name ≤ 255) × AllShort names
