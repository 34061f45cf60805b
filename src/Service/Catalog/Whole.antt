-- ===== src/Service/Catalog/Whole.antt =====
-- The answer to a request for a catalogue.
use softupdate.Prelude.{
  Option, ◌≤◌, ℕ, ◌<◌, ◌≡◌, refl, sym, ap, ◌∙◌, Bool, false, some, List, [], ◌∷◌, inl, inr, arith,
  ◌==◌, if◌then◌else◌, Bool-cases, length, length-append,
}
use softupdate.Board.Hex.{c_str}
use softupdate.Service.State.{System, Server}
use softupdate.Service.Catalog.Names.{Listed, entry, others_text, shown, AllShort}
use softupdate.Service.Catalog.{is_dots, opened, ended, get_catalog}
use softupdate.Service.Catalog.Frames.{along, list_names_lem, after_name, Split}

-- A directory whose path has at most 543 bytes, that opens and has a name in it, "." and ".." among
-- them and each of at most 255 bytes, is answered with all its names but those two, in order and
-- each with the mark of its kind, where every frame is accepted: each frame has a list of names with
-- ':' between them, shorter than 2048 bytes, and the last a "?" behind it. The one exception is a last
-- list of 2047 bytes: with its "?" the NUL falls behind the buffer, and the request is undefined.
pub get_catalog-names_text :
    {W : Type 0} (sys : System W) (sent : W → List (ℕ × List ℕ)) (folder : List ℕ → Bool)
    (listed : Listed sys sent folder) (bytes name : List ℕ) (names : List (List ℕ)) (s : Server)
    (w w1 : W)
    → 0 < length (c_str bytes)
    → length (c_str bytes) ≤ 543
    → sys.machine.host.list_dir (c_str bytes) w ≡ (some (name ∷ names), w1)
    → AllShort (name ∷ names)
    → (r : Option W) × (get_catalog sys bytes s w ≡ ended s r)
      × Split sys sent folder listed (c_str bytes) (sent w) r (shown (name ∷ names))
unfolding get_catalog opened
get_catalog-names_text {W = W} sys sent folder listed bytes name names s w w1 some_path room opens
      (short, shorts) =
    (
      opened sys path (some (name ∷ names), w1),
      rw not_empty (ap (λ o. ended s (opened sys path o)) opens),
      elim (Bool-cases (is_dots name)) [
        | inl dots ↦
            along sys sent folder listed path same_log (rw (opened, dots) refl)
              (ap (λ (b : Bool). if b then shown names else name ∷ shown names) (sym dots))
              (list_names_lem sys sent folder listed path room names shorts [] w1 (omega arith))
        | inr other ↦
            along sys sent folder listed path same_log (rw (opened, other) refl)
              (ap (λ (b : Bool). if b then shown names else name ∷ shown names) (sym other))
              (after_name sys sent folder listed path room names [] name w1
                (list_names_lem sys sent folder listed path room names shorts) short
                (omega
                  (arith, length-append (entry folder path name) (others_text folder path []))))
      ],
    )
  where
    path : List ℕ
    path = c_str bytes

    not_empty : (length path == 0) ≡ false
    not_empty = ground arith

    same_log : sent w ≡ sent w1
    same_log = sym (listed.listing path w) ∙ ap sent (ap (λ t. t.1) opens)
