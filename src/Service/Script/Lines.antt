-- ===== src/Service/Script/Lines.antt =====
-- What `ScriptToLine` makes of a script that is put together from commands and comments.
use softupdate.Prelude.{
  ℕ, zero, suc, ◌+◌, ◌-◌, ◌*◌, ◌≤◌, ◌<◌, ◌≡◌, refl, sym, ap, ◌∙◌, Bool, false, Option, some, List,
  [], ◌∷◌, ◌++◌, append_assoc, append-nil, arith, leb, lt→ltb, if◌then◌else◌, length, drop,
  length-append, length-drop, drop_next, drop_past, drop_end, take-drop_here, get_or-drop,
  drop_in_range,
}
use softupdate.Service.Script.{
  Scan, scan, scan_round, script_to_line, out_of_comment, line_comment, past_comment,
}
use softupdate.Service.Script.Pieces.{
  Piece, command, newline, remark, block, render, commands, LineText, RemarkText, BlockText,
  AllPieces, between, inside, in_line, round_newline, round_open, round_inside, round_close,
  round_first, round_more, round_end, find_newline_at,
}

module _ (script : List ℕ) (i start : ℕ) (ls : List (List ℕ)) (cap : ℕ) where
  round_remark :
      (t rest : List ℕ)
      → RemarkText t
      → drop i script ≡ b'/' ∷ b'/' ∷ (t ++ 10 ∷ rest)
      → scan_round script (between i start ls cap)
        ≡ some (between (i + 2 + length t + 1) start ls cap)
  unfolding scan_round out_of_comment line_comment past_comment
  round_remark t rest k h = ground (
    arith,
    get_or-drop script i b'/' 0 (b'/' ∷ (t ++ 10 ∷ rest)) h,
    get_or-drop script (suc i) b'/' 0 (t ++ 10 ∷ rest) second,
    find_newline_at script t (length script - (i + 2)) (i + 2) rest k third
        (omega (arith, length-drop (i + 2) script, ap length third, length-append t (10 ∷ rest))),
  )
    where
      second : drop (suc i) script ≡ b'/' ∷ (t ++ 10 ∷ rest)
      second = drop_next script i b'/' (b'/' ∷ (t ++ 10 ∷ rest)) h

      third : drop (i + 2) script ≡ t ++ 10 ∷ rest
      third = drop_past script i (i + 2) (b'/' ∷ b'/' ∷ []) (t ++ 10 ∷ rest) h (omega arith)

module _ (cancelled : ℕ → Bool) (never : (i : ℕ) → cancelled i ≡ false) (script : List ℕ) where
  -- From here `n` rounds are enough to come to the result `r`.
  abbrev ScanGives : Scan → ℕ → Option (List (List ℕ)) → Type 0
  ScanGives s n r = (fuel : ℕ) → n ≤ fuel → scan cancelled script fuel s ≡ some r

  goes_round :
      (s t : Scan) (n : ℕ) (r : Option (List (List ℕ)))
      → s.i_bit < length script
      → scan_round script s ≡ some t
      → ScanGives t n r
      → ScanGives s (suc n) r
  unfolding scan
  goes_round s t n r more e go zero h = absurd (omega arith)
  goes_round s t n r more e go (suc fuel) h =
      rw (scan, lt→ltb s.i_bit (length script) more, never s.i_bit, e) (go fuel (omega arith))

  goes_end :
      (i start : ℕ) (ls : List (List ℕ)) (cap : ℕ)
      → drop i script ≡ []
      → ScanGives (between i start ls cap) 1 (some ls)
  unfolding scan
  goes_end i start ls cap e zero h = absurd (omega arith)
  goes_end i start ls cap e (suc fuel) h = ground (arith, drop_end script i e)

  goes_more :
      (s : Scan) (n m : ℕ) (r : Option (List (List ℕ))) → n ≤ m → ScanGives s n r → ScanGives s m r
  goes_more s n m r le go fuel h = go fuel (omega arith)

  goes_line :
      (l rest : List ℕ) (i j start : ℕ) (ls : List (List ℕ)) (cap n : ℕ)
      (r : Option (List (List ℕ)))
      → LineText l
      → drop i script ≡ l ++ rest
      → j ≡ i + length l
      → ScanGives (in_line j start ls cap) n r
      → ScanGives (in_line i start ls cap) (length l + n) r
  goes_line [] rest i j start ls cap n r k h e go = λ fuel le.
      let here : i ≡ j = omega arith in
      ap (λ p. scan cancelled script fuel (in_line p start ls cap)) here ∙ go fuel (omega arith)
  goes_line (c ∷ l) rest i j start ls cap n r (k0, k1, k2, k3, k4, ks) h e go =
      goes_more (in_line i start ls cap) (suc (length l + n)) (length (c ∷ l) + n) r (omega arith) (
        goes_round (in_line i start ls cap) (in_line (i + 1) start ls cap) (length l + n) r
          (drop_in_range script i c (l ++ rest) h)
          (round_more script i start ls cap c (l ++ rest) (k0, k1, k2, k3, k4) h)
          (goes_line l rest (i + 1) j start ls cap n r ks
            (drop_past script i (i + 1) (c ∷ []) (l ++ rest) h (omega arith)) (omega arith) go))

  goes_block :
      (t rest : List ℕ) (i j start : ℕ) (ls : List (List ℕ)) (cap n : ℕ)
      (r : Option (List (List ℕ)))
      → BlockText t
      → drop i script ≡ t ++ rest
      → j ≡ i + length t
      → ScanGives (inside j start ls cap) n r
      → ScanGives (inside i start ls cap) (length t + n) r
  goes_block [] rest i j start ls cap n r k h e go = λ fuel le.
      let here : i ≡ j = omega arith in
      ap (λ p. scan cancelled script fuel (inside p start ls cap)) here ∙ go fuel (omega arith)
  goes_block (c ∷ t) rest i j start ls cap n r (k0, k1, k2, ks) h e go =
      goes_more (inside i start ls cap) (suc (length t + n)) (length (c ∷ t) + n) r (omega arith) (
        goes_round (inside i start ls cap) (inside (i + 1) start ls cap) (length t + n) r
          (drop_in_range script i c (t ++ rest) h)
          (round_inside script i start ls cap c (t ++ rest) (k0, k1, k2) h)
          (goes_block t rest (i + 1) j start ls cap n r ks
            (drop_past script i (i + 1) (c ∷ []) (t ++ rest) h (omega arith)) (omega arith) go))

  -- A command, from its first byte on.
  goes_command :
      (c : ℕ) (l rest : List ℕ) (i start : ℕ) (ls : List (List ℕ)) (cap n : ℕ)
      (r : Option (List (List ℕ)))
      → LineText (c ∷ l)
      → drop i script ≡ (c ∷ l) ++ b';' ∷ rest
      → ((cap' : ℕ) → ScanGives (between (i + 1 + length l + 1) i (ls ++ ((c ∷ l) ∷ [])) cap') n r)
      → ScanGives (between i start ls cap) (suc (length l + suc n)) r
  goes_command c l rest i start ls cap n r (k0, k1, k2, k3, k4, ks) h go =
      goes_round (between i start ls cap) (in_line (i + 1) i ls cap) (length l + suc n) r
        (drop_in_range script i c (l ++ b';' ∷ rest) h)
        (round_first script i start ls cap c (l ++ b';' ∷ rest) (k0, k1, k2, k3, k4) h)
        (goes_line l (b';' ∷ rest) (i + 1) (i + 1 + length l) i ls cap (suc n) r ks
          (drop_past script i (i + 1) (c ∷ []) (l ++ b';' ∷ rest) h (omega arith)) refl
          (goes_round (in_line (i + 1 + length l) i ls cap)
            (between (i + 1 + length l + 1) i (ls ++ ((c ∷ l) ∷ []))
              (if leb cap (length ls) then cap * 2 else cap))
            n r (drop_in_range script (i + 1 + length l) b';' rest last)
            (round_end script (i + 1 + length l) i ls cap rest last (omega arith)
              ∙ ap
                  (λ t. some (
                    between (i + 1 + length l + 1) i (ls ++ (t ∷ []))
                      (if leb cap (length ls) then cap * 2 else cap)))
                  (take-drop_here script i (i + 1 + length l - i) (c ∷ l) (b';' ∷ rest) h
                    (omega arith)))
            (go (if leb cap (length ls) then cap * 2 else cap))))
    where
      last : drop (i + 1 + length l) script ≡ b';' ∷ rest
      last = drop_past script i (i + 1 + length l) (c ∷ l) (b';' ∷ rest) h (omega arith)

  -- A block comment, from its first byte on.
  goes_comment :
      (t rest : List ℕ) (i start : ℕ) (ls : List (List ℕ)) (cap n : ℕ) (r : Option (List (List ℕ)))
      → BlockText t
      → drop i script ≡ b'/' ∷ b'*' ∷ (t ++ b'*' ∷ b'/' ∷ rest)
      → ScanGives (between (i + 1 + 1 + length t + 1 + 1) start ls cap) n r
      → ScanGives (between i start ls cap) (suc (length t + suc n)) r
  goes_comment t rest i start ls cap n r k h go =
      goes_round (between i start ls cap) (inside (i + 1 + 1) start ls cap) (length t + suc n) r
        (drop_in_range script i b'/' (b'*' ∷ (t ++ b'*' ∷ b'/' ∷ rest)) h)
        (round_open script i start ls cap (t ++ b'*' ∷ b'/' ∷ rest) h)
        (goes_block t (b'*' ∷ b'/' ∷ rest) (i + 1 + 1) (i + 1 + 1 + length t) start ls cap (suc n) r
          k
          (drop_past script i (i + 1 + 1) (b'/' ∷ b'*' ∷ []) (t ++ b'*' ∷ b'/' ∷ rest) h
            (omega arith))
          refl
          (goes_round (inside (i + 1 + 1 + length t) start ls cap)
            (between (i + 1 + 1 + length t + 1 + 1) start ls cap) n r
            (drop_in_range script (i + 1 + 1 + length t) b'*' (b'/' ∷ rest) close)
            (round_close script (i + 1 + 1 + length t) start ls cap rest close) go))
    where
      close : drop (i + 1 + 1 + length t) script ≡ b'*' ∷ b'/' ∷ rest
      close =
          drop_past script i (i + 1 + 1 + length t) (b'/' ∷ b'*' ∷ t) (b'*' ∷ b'/' ∷ rest) h
            (omega arith)

  goes_pieces :
      (ps : List Piece) (i start : ℕ) (ls : List (List ℕ)) (cap : ℕ)
      → AllPieces ps
      → drop i script ≡ render ps
      → ScanGives (between i start ls cap) (length (render ps) + 1) (some (ls ++ commands ps))
  goes_pieces [] i start ls cap k h =
      λ fuel le. goes_end i start ls cap h fuel le ∙ ap (λ t. some (some t)) (sym (append-nil ls))
  goes_pieces (command [] ∷ ps) i start ls cap k h = absurd (k.0.0 refl)
  goes_pieces (command (c ∷ l) ∷ ps) i start ls cap k h =
      goes_more (between i start ls cap) (suc (length l + suc (length (render ps) + 1)))
        (length (render (command (c ∷ l) ∷ ps)) + 1) (some (ls ++ commands (command (c ∷ l) ∷ ps)))
        (omega (arith, length-append (l ++ (b';' ∷ [])) (render ps), length-append l (b';' ∷ [])))
        (goes_command c l (render ps) i start ls cap (length (render ps) + 1)
          (some (ls ++ ((c ∷ l) ∷ commands ps))) k.0.1 here
          (λ cap' fuel le.
            goes_pieces ps (i + 1 + length l + 1) i (ls ++ ((c ∷ l) ∷ [])) cap' k.1
              (drop_past script i (i + 1 + length l + 1) ((c ∷ l) ++ (b';' ∷ [])) (render ps) h
                (omega (arith, length-append l (b';' ∷ []))))
              fuel le
            ∙ ap (λ t. some (some t)) (append_assoc ls ((c ∷ l) ∷ []) (commands ps))))
    where
      here : drop i script ≡ (c ∷ l) ++ b';' ∷ render ps
      here = h ∙ ap (λ t. c ∷ t) (append_assoc l (b';' ∷ []) (render ps))
  goes_pieces (newline ∷ ps) i start ls cap k h =
      goes_more (between i start ls cap) (suc (length (render ps) + 1))
        (length (render (newline ∷ ps)) + 1) (some (ls ++ commands ps)) (omega arith)
        (goes_round (between i start ls cap) (between (i + 1) start ls cap) (length (render ps) + 1)
          (some (ls ++ commands ps)) (drop_in_range script i 10 (render ps) h)
          (round_newline script i start ls cap (render ps) h)
          (goes_pieces ps (i + 1) start ls cap k.1
            (drop_past script i (i + 1) (10 ∷ []) (render ps) h (omega arith))))
  goes_pieces (remark t ∷ ps) i start ls cap k h =
      goes_more (between i start ls cap) (suc (length (render ps) + 1))
        (length (render (remark t ∷ ps)) + 1) (some (ls ++ commands ps))
        (omega (arith, length-append (t ++ (10 ∷ [])) (render ps)))
        (goes_round (between i start ls cap) (between (i + 2 + length t + 1) start ls cap)
          (length (render ps) + 1) (some (ls ++ commands ps))
          (drop_in_range script i b'/' (b'/' ∷ (t ++ 10 ∷ render ps)) here)
          (round_remark script i start ls cap t (render ps) k.0 here)
          (goes_pieces ps (i + 2 + length t + 1) start ls cap k.1 (
            drop_past script i (i + 2 + length t + 1) (b'/' ∷ b'/' ∷ (t ++ (10 ∷ []))) (render ps) h
              (omega (arith, length-append t (10 ∷ []))))))
    where
      here : drop i script ≡ b'/' ∷ b'/' ∷ (t ++ 10 ∷ render ps)
      here = h ∙ ap (λ u. b'/' ∷ b'/' ∷ u) (append_assoc t (10 ∷ []) (render ps))
  goes_pieces (block t ∷ ps) i start ls cap k h =
      goes_more (between i start ls cap) (suc (length t + suc (length (render ps) + 1)))
        (length (render (block t ∷ ps)) + 1) (some (ls ++ commands ps))
        (omega (
          arith,
          length-append (t ++ (b'*' ∷ b'/' ∷ [])) (render ps),
          length-append t (b'*' ∷ b'/' ∷ []),
        ))
        (goes_comment t (render ps) i start ls cap (length (render ps) + 1)
          (some (ls ++ commands ps)) k.0 here
          (goes_pieces ps (i + 1 + 1 + length t + 1 + 1) start ls cap k.1 (
            drop_past script i (i + 1 + 1 + length t + 1 + 1)
              (b'/' ∷ b'*' ∷ (t ++ (b'*' ∷ b'/' ∷ []))) (render ps) h
              (omega (arith, length-append t (b'*' ∷ b'/' ∷ []))))))
    where
      here : drop i script ≡ b'/' ∷ b'*' ∷ (t ++ b'*' ∷ b'/' ∷ render ps)
      here = h ∙ ap (λ u. b'/' ∷ b'*' ∷ u) (append_assoc t (b'*' ∷ b'/' ∷ []) (render ps))

-- A script of commands that end with ';', line ends, remarks and block comments in any order, with
-- the cancel flag clear throughout, gives its commands in order: a command is not empty and has no
-- NUL, line end, '/' or ';' in it, a remark ends with its line, and a block comment has no NUL, '*'
-- or '/' in it.
pub script_to_line-render :
    (cancelled : ℕ → Bool) (ps : List Piece)
    → ((i : ℕ) → cancelled i ≡ false)
    → AllPieces ps
    → script_to_line cancelled (render ps) ≡ some (some (commands ps))
unfolding script_to_line
script_to_line-render cancelled ps never k =
    goes_pieces cancelled never (render ps) ps 0 0 [] 200 k refl (suc (length (render ps)))
      (omega arith)
