-- ===== src/Service/Script/Pieces.antt =====
-- Script texts as their parts, and what one round of `ScriptToLine` does at each.
use softupdate.Prelude.{
  ℕ, zero, suc, ◌+◌, ◌-◌, ◌*◌, ◌<◌, ◌≡◌, ◌≢◌, true, false, some, List, [], ◌∷◌, ◌++◌, arith, leb,
  if◌then◌else◌, length, take, drop, drop_next, get_or-drop,
}
use softupdate.Service.Script.{
  Scan, scan_round, in_comment, out_of_comment, find_newline, line_start, line_end, store_line,
}

-- `text;`, a line end, `//text` with its line end, and `/*text*/`.
pub data Piece : Type 0 where
  command : List ℕ → Piece
  newline : Piece
  remark : List ℕ → Piece
  block : List ℕ → Piece

abbrev pub piece_text : Piece → List ℕ
piece_text (command l) = l ++ (b';' ∷ [])
piece_text newline = 10 ∷ []
piece_text (remark t) = b'/' ∷ b'/' ∷ (t ++ (10 ∷ []))
piece_text (block t) = b'/' ∷ b'*' ∷ (t ++ (b'*' ∷ b'/' ∷ []))

abbrev pub render : List Piece → List ℕ
render [] = []
render (p ∷ ps) = piece_text p ++ render ps

abbrev pub commands : List Piece → List (List ℕ)
commands [] = []
commands (command l ∷ ps) = l ∷ commands ps
commands (newline ∷ ps) = commands ps
commands (remark t ∷ ps) = commands ps
commands (block t ∷ ps) = commands ps

-- What a command, a remark and a block comment may hold.
abbrev pub LineText : List ℕ → Type 0
LineText [] = ◌≡◌ {A = ℕ} 0 0
LineText (c ∷ cs) = (c ≢ 0) × (c ≢ 13) × (c ≢ 10) × (c ≢ b'/') × (c ≢ b';') × LineText cs

abbrev pub RemarkText : List ℕ → Type 0
RemarkText [] = ◌≡◌ {A = ℕ} 0 0
RemarkText (c ∷ cs) = (c ≢ 10) × RemarkText cs

abbrev pub BlockText : List ℕ → Type 0
BlockText [] = ◌≡◌ {A = ℕ} 0 0
BlockText (c ∷ cs) = (c ≢ 0) × (c ≢ b'*') × (c ≢ b'/') × BlockText cs

abbrev pub IsPiece : Piece → Type 0
IsPiece (command l) = (l ≢ []) × LineText l
IsPiece newline = ◌≡◌ {A = ℕ} 0 0
IsPiece (remark t) = RemarkText t
IsPiece (block t) = BlockText t

abbrev pub AllPieces : List Piece → Type 0
AllPieces [] = ◌≡◌ {A = ℕ} 0 0
AllPieces (p ∷ ps) = IsPiece p × AllPieces ps

abbrev pub between : ℕ → ℕ → List (List ℕ) → ℕ → Scan
between i start ls cap = record {
  i_bit = i;
  star_flag = 0;
  line_start_bit = start;
  is_new_line = true;
  lines = ls;
  capacity = cap;
}

abbrev pub inside : ℕ → ℕ → List (List ℕ) → ℕ → Scan
inside i start ls cap = record {
  i_bit = i;
  star_flag = 1;
  line_start_bit = start;
  is_new_line = true;
  lines = ls;
  capacity = cap;
}

abbrev pub in_line : ℕ → ℕ → List (List ℕ) → ℕ → Scan
in_line i start ls cap = record {
  i_bit = i;
  star_flag = 0;
  line_start_bit = start;
  is_new_line = false;
  lines = ls;
  capacity = cap;
}

module _ (script : List ℕ) (i start : ℕ) (ls : List (List ℕ)) (cap : ℕ) where
  pub round_newline :
      (rest : List ℕ)
      → drop i script ≡ 10 ∷ rest
      → scan_round script (between i start ls cap) ≡ some (between (i + 1) start ls cap)
  unfolding scan_round
  round_newline rest h = ground (arith, get_or-drop script i 10 0 rest h)

  pub round_open :
      (rest : List ℕ)
      → drop i script ≡ b'/' ∷ b'*' ∷ rest
      → scan_round script (between i start ls cap) ≡ some (inside (i + 1 + 1) start ls cap)
  unfolding scan_round out_of_comment
  round_open rest h = ground (
    arith,
    get_or-drop script i b'/' 0 (b'*' ∷ rest) h,
    get_or-drop script (suc i) b'*' 0 rest (drop_next script i b'/' (b'*' ∷ rest) h),
  )

  pub round_inside :
      (c : ℕ) (rest : List ℕ)
      → (c ≢ 0) × (c ≢ b'*') × (c ≢ b'/')
      → drop i script ≡ c ∷ rest
      → scan_round script (inside i start ls cap) ≡ some (inside (i + 1) start ls cap)
  unfolding scan_round in_comment
  round_inside c rest k h = ground (arith, get_or-drop script i c 0 rest h, k)

  pub round_close :
      (rest : List ℕ)
      → drop i script ≡ b'*' ∷ b'/' ∷ rest
      → scan_round script (inside i start ls cap) ≡ some (between (i + 1 + 1) start ls cap)
  unfolding scan_round in_comment
  round_close rest h = ground (
    arith,
    get_or-drop script i b'*' 0 (b'/' ∷ rest) h,
    get_or-drop script (suc i) b'/' 0 rest (drop_next script i b'*' (b'/' ∷ rest) h),
  )

  pub round_first :
      (c : ℕ) (rest : List ℕ)
      → (c ≢ 0) × (c ≢ 13) × (c ≢ 10) × (c ≢ b'/') × (c ≢ b';')
      → drop i script ≡ c ∷ rest
      → scan_round script (between i start ls cap) ≡ some (in_line (i + 1) i ls cap)
  unfolding scan_round out_of_comment line_start line_end
  round_first c rest k h = ground (arith, get_or-drop script i c 0 rest h, k)

  pub round_more :
      (c : ℕ) (rest : List ℕ)
      → (c ≢ 0) × (c ≢ 13) × (c ≢ 10) × (c ≢ b'/') × (c ≢ b';')
      → drop i script ≡ c ∷ rest
      → scan_round script (in_line i start ls cap) ≡ some (in_line (i + 1) start ls cap)
  unfolding scan_round out_of_comment line_start line_end
  round_more c rest k h = ground (arith, get_or-drop script i c 0 rest h, k)

  pub round_end :
      (rest : List ℕ)
      → drop i script ≡ b';' ∷ rest
      → start < i
      → scan_round script (in_line i start ls cap)
        ≡ some (
            between
              (i + 1)
              start
              (ls ++ (take (i - start) (drop start script) ∷ []))
              (if leb cap (length ls) then cap * 2 else cap))
  unfolding scan_round out_of_comment line_start line_end store_line
  round_end rest h k = ground (arith, get_or-drop script i b';' 0 rest h)

pub find_newline_at :
    (script : List ℕ) (t : List ℕ) (n i : ℕ) (rest : List ℕ)
    → RemarkText t
    → drop i script ≡ t ++ 10 ∷ rest
    → length t < n
    → find_newline n script i ≡ some (i + length t)
unfolding find_newline
find_newline_at script [] zero i rest k h lt = absurd (omega arith)
find_newline_at script [] (suc n) i rest k h lt = ground (arith, get_or-drop script i 10 0 rest h)
find_newline_at script (c ∷ t) zero i rest k h lt = absurd (omega arith)
find_newline_at script (c ∷ t) (suc n) i rest k h lt = ground (
  arith,
  k.0,
  get_or-drop script i c 0 (t ++ 10 ∷ rest) h,
  find_newline_at script t n (suc i) rest k.1 (drop_next script i c (t ++ 10 ∷ rest) h)
      (omega arith),
)
