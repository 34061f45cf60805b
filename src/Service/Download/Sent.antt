-- ===== src/Service/Download/Sent.antt =====
-- What `DownFile_DoWork` sends.
use softupdate.Prelude.{
  ℕ, zero, suc, ◌+◌, ◌≤◌, ◌<◌, ◌≡◌, refl, sym, ap, ◌∙◌, Bool, true, false, some, List, [], ◌∷◌,
  ◌++◌, map, append_assoc, append-nil, take-append-drop, inl, inr, arith, Bool-cases, length, take,
  drop, length-take, length-drop,
}
use softupdate.Service.State.{System, nr_maxpacklen}
use softupdate.Service.Sends.{Sends, packet, concat, AtEnd, log_next}
use softupdate.Service.Download.{
  msg_getfile, send_blocks, opened, down_file_do_work, sent_block, failed_block, cancelled_block,
}

abbrev pub AllBlocks : List (List ℕ) → Type 0
AllBlocks [] = ◌≡◌ {A = ℕ} 0 0
AllBlocks (b ∷ bs) = (0 < length b) × (length b ≤ nr_maxpacklen) × AllBlocks bs

module _ {W : Type 0} (sys : System W) (sent : W → List (ℕ × List ℕ)) (sends : Sends sys sent) where
  block_sizes :
      (c : ℕ) (file : List ℕ)
      → (0 < length (take nr_maxpacklen (c ∷ file)))
        × (length (take nr_maxpacklen (c ∷ file)) ≤ nr_maxpacklen)
        × (length (drop nr_maxpacklen (c ∷ file)) ≤ length file)
  block_sizes c file =
      omega (arith, length-take nr_maxpacklen (c ∷ file), length-drop nr_maxpacklen (c ∷ file))

  module _ (cancelled : ℕ → Bool) where
    send_blocks_all :
        (fuel i : ℕ) (file : List ℕ) (w : W)
        → length file < fuel
        → ((i : ℕ) → cancelled i ≡ false)
        → ((bytes : List ℕ) (w : W) → (sys.send_data msg_getfile bytes w).0 ≡ true)
        → (w' : W) × (bs : List (List ℕ)) × (send_blocks sys cancelled fuel i file w ≡ some w')
          × (sent w' ≡ sent w ++ map (packet msg_getfile) bs)
          × (concat bs ≡ file)
          × AllBlocks bs
    send_blocks_all zero i file w h never accepts = absurd (omega arith)
    send_blocks_all (suc fuel) i [] w h never accepts =
        (w, [], unfold send_blocks in refl, sym (append-nil (sent w)), refl, refl)
    send_blocks_all (suc fuel) i (c ∷ file) w h never accepts =
        let block = take nr_maxpacklen (c ∷ file) in
        let (some_left, fits, shorter) = block_sizes c file in
        let (w', bs, ends, logged, whole, sizes) =
          send_blocks_all fuel (i + 1) (drop nr_maxpacklen (c ∷ file))
            (sys.send_data msg_getfile block w).1 (omega arith) never accepts in
        (
          w',
          block ∷ bs,
          sent_block sys cancelled fuel i c file w (never i) (accepts block w) ∙ ends,
          log_next sys sent sends msg_getfile block w w' (map (packet msg_getfile) bs) logged,
          ap (λ t. block ++ t) whole ∙ take-append-drop nr_maxpacklen (c ∷ file),
          (some_left, fits, sizes),
        )

    send_blocks_ends :
        (fuel i : ℕ) (file : List ℕ) (w : W)
        → length file < fuel
        → (w' : W) × (bs : List (List ℕ)) × (left : List ℕ) × (last : List (ℕ × List ℕ))
          × (send_blocks sys cancelled fuel i file w ≡ some w')
          × (sent w' ≡ sent w ++ (map (packet msg_getfile) bs ++ last))
          × (concat bs ++ left ≡ file)
          × AtEnd msg_getfile last
    send_blocks_ends zero i file w h = absurd (omega arith)
    send_blocks_ends (suc fuel) i [] w h =
        (w, [], [], [], unfold send_blocks in refl, sym (append-nil (sent w)), refl, inl refl)
    send_blocks_ends (suc fuel) i (c ∷ file) w h =
        let block = take nr_maxpacklen (c ∷ file) in
        let next = (sys.send_data msg_getfile block w).1 in
        let (some_left, fits, shorter) = block_sizes c file in
        let parts = take-append-drop nr_maxpacklen (c ∷ file) in
        elim (Bool-cases (cancelled i)) [
          | inl stop ↦ (
            w,
            [],
            c ∷ file,
            [],
            cancelled_block sys cancelled fuel i c file w stop,
            sym (append-nil (sent w)),
            refl,
            inl refl,
          )
          | inr on ↦ elim (Bool-cases (sys.send_data msg_getfile block w).0) [
            | inr bad ↦ (
              (sys.send_data msg_getfile [] next).1,
              block ∷ [],
              drop nr_maxpacklen (c ∷ file),
              packet msg_getfile [] ∷ [],
              failed_block sys cancelled fuel i c file w on bad,
              log_next sys sent sends msg_getfile block w (sys.send_data msg_getfile [] next).1
                  (packet msg_getfile [] ∷ []) (sends.logs msg_getfile [] next),
              ap (λ t. t ++ drop nr_maxpacklen (c ∷ file)) (append-nil block) ∙ parts,
              inr refl,
            )
            | inl good ↦
                let (w', bs, left, last, ends, logged, whole, closed) =
                  send_blocks_ends fuel (i + 1) (drop nr_maxpacklen (c ∷ file)) next
                    (omega arith) in
                (
                  w',
                  block ∷ bs,
                  left,
                  last,
                  sent_block sys cancelled fuel i c file w on good ∙ ends,
                  log_next sys sent sends msg_getfile block w w'
                      (map (packet msg_getfile) bs ++ last) logged,
                  append_assoc block (concat bs) left ∙ ap (λ t. block ++ t) whole ∙ parts,
                  closed,
                )
          ]
        ]

reads :
    {W : Type 0} (sys : System W) (sent : W → List (ℕ × List ℕ)) (sends : Sends sys sent)
    (path : List ℕ) (w opened_at : W)
    → (sys.fopen_read path w).1 ≡ opened_at
    → sent opened_at ≡ sent w
reads sys sent sends path w opened_at h = ap sent (sym h) ∙ sends.reading path w

-- A file that opens, with the cancel flag clear and every frame accepted, goes out whole: the
-- thread ends, and what it has sent are MSG_GETFILE frames of 1 to 2048 bytes that make up the
-- file in order.
pub down_file_do_work-whole :
    {W : Type 0} (sys : System W) (sent : W → List (ℕ × List ℕ)) (cancelled : ℕ → Bool)
    (path file : List ℕ) (w opened_at : W)
    → Sends sys sent
    → sys.fopen_read path w ≡ (some file, opened_at)
    → ((i : ℕ) → cancelled i ≡ false)
    → ((bytes : List ℕ) (w : W) → (sys.send_data msg_getfile bytes w).0 ≡ true)
    → (w' : W) × (bs : List (List ℕ)) × (down_file_do_work sys cancelled path w ≡ some w')
      × (sent w' ≡ sent w ++ map (packet msg_getfile) bs)
      × (concat bs ≡ file)
      × AllBlocks bs
unfolding down_file_do_work opened
down_file_do_work-whole sys sent cancelled path file w opened_at sends h never accepts =
    let (w', bs, ends, logged, whole, sizes) =
      send_blocks_all sys sent sends cancelled (suc (length file)) 0 file opened_at (omega arith)
        never accepts in
    (
      w',
      bs,
      ap (opened sys cancelled) h ∙ ends,
      logged
          ∙ ap (λ t. t ++ map (packet msg_getfile) bs)
              (reads sys sent sends path w opened_at (ap (λ t. t.1) h)),
      whole,
      sizes,
    )

-- Whatever the flag and the frames do, the thread ends, and what it has sent is a beginning of
-- the file, with nothing behind it or the empty frame that says so.
pub down_file_do_work-prefix :
    {W : Type 0} (sys : System W) (sent : W → List (ℕ × List ℕ)) (cancelled : ℕ → Bool)
    (path file : List ℕ) (w opened_at : W)
    → Sends sys sent
    → sys.fopen_read path w ≡ (some file, opened_at)
    → (w' : W) × (bs : List (List ℕ)) × (left : List ℕ) × (last : List (ℕ × List ℕ))
      × (down_file_do_work sys cancelled path w ≡ some w')
      × (sent w' ≡ sent w ++ (map (packet msg_getfile) bs ++ last))
      × (concat bs ++ left ≡ file)
      × AtEnd msg_getfile last
unfolding down_file_do_work opened
down_file_do_work-prefix sys sent cancelled path file w opened_at sends h =
    let (w', bs, left, last, ends, logged, whole, closed) =
      send_blocks_ends sys sent sends cancelled (suc (length file)) 0 file opened_at
        (omega arith) in
    (
      w',
      bs,
      left,
      last,
      ap (opened sys cancelled) h ∙ ends,
      logged
          ∙ ap (λ t. t ++ (map (packet msg_getfile) bs ++ last))
              (reads sys sent sends path w opened_at (ap (λ t. t.1) h)),
      whole,
      closed,
    )
