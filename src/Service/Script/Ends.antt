-- ===== src/Service/Script/Ends.antt =====
-- `ScriptToLine` ends, whatever the text, and stays inside its array of lines.
use softupdate.Prelude.{
  ℕ, zero, suc, ◌+◌, ◌-◌, ◌≤◌, ◌<◌, ◌≡◌, refl, Bool, Option, none, some, List, [], ◌∷◌, inl, inr,
  arith, ltb, tests, length, length-append, Bool-cases, Option-cases,
}
use softupdate.Service.Script.{
  at, Scan, scan_round, scan, script_to_line, in_comment, out_of_comment, line_comment, line_start,
  line_end, store_line, past_comment, find_newline, advanced, scan_start,
}

find_newline_lem : (n : ℕ) (script : List ℕ) (i j : ℕ) → find_newline n script i ≡ some j → i ≤ j
unfolding find_newline
find_newline_lem zero script i j h = cc
find_newline_lem (suc n) script i j h = ground (arith, find_newline_lem n script (i + 1) j)

line_comment_moves : (script : List ℕ) (s : Scan) → s.i_bit ≤ (line_comment script s).i_bit
unfolding line_comment
line_comment_moves script s =
    past (find_newline (length script - (s.i_bit + 2)) script (s.i_bit + 2)) refl
  where
    past :
        (o : Option ℕ)
        → find_newline (length script - (s.i_bit + 2)) script (s.i_bit + 2) ≡ o
        → s.i_bit ≤ (past_comment o s).i_bit
    past none e = omega arith
    past (some j) e =
        omega (arith, find_newline_lem (length script - (s.i_bit + 2)) script (s.i_bit + 2) j e)

line_end_stays : (script : List ℕ) (s : Scan) → (line_end script (line_start s)).i_bit ≡ s.i_bit
unfolding line_end line_start store_line
line_end_stays script s = ground arith

round_moves : (script : List ℕ) (s t : Scan) → scan_round script s ≡ some t → s.i_bit < t.i_bit
unfolding scan_round in_comment out_of_comment
round_moves script s t h = ground (arith, line_comment_moves script s, line_end_stays script s)

-- The loop ends: it needs no more rounds than there are bytes left, and one.
scan_ends :
    (cancelled : ℕ → Bool) (script : List ℕ) (fuel : ℕ) (s : Scan)
    → length script - s.i_bit < fuel
    → (r : Option (List (List ℕ))) × (scan cancelled script fuel s ≡ some r)
unfolding scan
scan_ends cancelled script zero s h = absurd (omega arith)
scan_ends cancelled script (suc fuel) s h = elim (Bool-cases (ltb s.i_bit (length script))) [
  | inr over ↦ (some s.lines, rw (scan, over) refl)
  | inl more ↦ elim (Bool-cases (cancelled s.i_bit)) [
    | inl stop ↦ (some s.lines, rw (scan, more, stop) refl)
    | inr on ↦ elim (Option-cases (scan_round script s)) [
      | inl e ↦ (none, rw (scan, more, on, e) refl)
      | inr (t, e) ↦
          let (r, ends) =
            scan_ends cancelled script fuel t (omega (tests, round_moves script s t e, more)) in
          (r, rw (scan, more, on, e) ends)
    ]
  ]
]

-- Whatever the text and at whatever place the cancel flag is found set, the loop of `ScriptToLine`
-- ends within one round more than the text has bytes.
pub script_to_line_ends :
    (cancelled : ℕ → Bool) (script : List ℕ)
    → (r : Option (List (List ℕ))) × (script_to_line cancelled script ≡ some r)
unfolding script_to_line
script_to_line_ends cancelled script =
    scan_ends cancelled script (suc (length script)) scan_start (omega arith)

-- The array has room for the next line but for one doubling, and the text of a line lies in the
-- script.
abbrev pub Fits : List ℕ → Scan → Type 0
Fits script s =
    (length s.lines ≤ s.capacity)
    × (0 < s.capacity)
    × (s.line_start_bit ≤ s.i_bit)
    × (s.i_bit ≤ length script)

at_inside : (script : List ℕ) (i : ℕ) → 0 < at script i → i < length script
at_inside [] i h = absurd (omega arith)
at_inside (c ∷ cs) zero h = omega arith
at_inside (c ∷ cs) (suc i) h = omega (arith, at_inside cs i h)

find_newline_inside :
    (n : ℕ) (script : List ℕ) (i j : ℕ) → find_newline n script i ≡ some j → j < length script
unfolding find_newline
find_newline_inside zero script i j h = cc
find_newline_inside (suc n) script i j h =
    ground (arith, at_inside script i, find_newline_inside n script (i + 1) j)

line_comment-Fits :
    (script : List ℕ) (s : Scan)
    → Fits script s
    → s.i_bit < length script
    → Fits script (advanced (line_comment script s))
unfolding line_comment
line_comment-Fits script s h inside =
    past (find_newline (length script - (s.i_bit + 2)) script (s.i_bit + 2)) refl
  where
    past :
        (o : Option ℕ)
        → find_newline (length script - (s.i_bit + 2)) script (s.i_bit + 2) ≡ o
        → Fits script (advanced (past_comment o s))
    past none e = omega (arith, h)
    past (some j) e = omega (
      arith,
      h,
      find_newline_lem (length script - (s.i_bit + 2)) script (s.i_bit + 2) j e,
      find_newline_inside (length script - (s.i_bit + 2)) script (s.i_bit + 2) j e,
    )

line_end-Fits :
    (script : List ℕ) (s : Scan)
    → Fits script s
    → s.i_bit < length script
    → Fits script (advanced (line_end script (line_start s)))
unfolding line_end line_start store_line
line_end-Fits script s h inside = grind (arith, h, length-append)

-- A round of `ScriptToLine` inside the script that goes on keeps these bounds: there are no more
-- lines than the array has room for, the line begins no later than the place that is read, and that
-- place is in the script or at its end.
pub scan_round-Fits :
    (script : List ℕ) (s t : Scan)
    → Fits script s
    → s.i_bit < length script
    → scan_round script s ≡ some t
    → Fits script t
unfolding scan_round in_comment out_of_comment
scan_round-Fits script s t h inside e = ground (
  arith,
  h,
  at_inside script (s.i_bit + 1),
  line_comment-Fits script s h inside,
  line_end-Fits script s h inside,
)
