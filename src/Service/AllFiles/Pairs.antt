-- ===== src/Service/AllFiles/Pairs.antt =====
-- The list of paths and types in a MSG_GETALLFILEINFO request.
use softupdate.Prelude.{
  ℕ, ◌+◌, ◌<◌, ◌≡◌, ◌≢◌, refl, sym, ap, ◌∙◌, false, none, some, List, [], ◌∷◌, ◌++◌, append_assoc,
  append-nil, arith, leb, ◌==◌, length, length-append,
}
use softupdate.Service.AllFiles.{FilePair, and_pair, file_pairs, max_filename_len}

abbrev pub Lacks : ℕ → List ℕ → Type 0
Lacks sep [] = ◌≡◌ {A = ℕ} 0 0
Lacks sep (c ∷ cs) = (c ≢ sep) × Lacks sep cs

abbrev pub IsFilePair : FilePair → Type 0
IsFilePair p =
    Lacks b':' p.path
    × Lacks b'?' p.file_type
    × (length p.path < max_filename_len)
    × (length p.file_type < max_filename_len)

abbrev pub AllFilePairs : List FilePair → Type 0
AllFilePairs [] = ◌≡◌ {A = ℕ} 0 0
AllFilePairs (p ∷ ps) = IsFilePair p × AllFilePairs ps

abbrev pub pairs_text : List FilePair → List ℕ
pairs_text [] = []
pairs_text (p ∷ ps) = p.path ++ (b':' ∷ (p.file_type ++ (b'?' ∷ pairs_text ps)))

abbrev pub nothing_more : FilePair
nothing_more = record { path = []; file_type = [] }

path_read :
    (text p rest : List ℕ)
    → Lacks b':' text
    → length p + length text < max_filename_len
    → file_pairs p none (text ++ rest) ≡ file_pairs (p ++ text) none rest
unfolding file_pairs
path_read [] p rest k h = ap (λ t. file_pairs t none rest) (sym (append-nil p))
path_read (c ∷ text) p rest (k, ks) h =
    let other : (c == b':') ≡ false = ground arith in
    let room : leb max_filename_len (length p + 1) ≡ false = ground arith in
    rw (file_pairs, other, room)
      (path_read text (p ++ (c ∷ [])) rest ks (omega (arith, length-append p (c ∷ [])))
        ∙ ap (λ t. file_pairs t none rest) (append_assoc p (c ∷ []) text))

type_read :
    (text p t rest : List ℕ)
    → Lacks b'?' text
    → length t + length text < max_filename_len
    → file_pairs p (some t) (text ++ rest) ≡ file_pairs p (some (t ++ text)) rest
unfolding file_pairs
type_read [] p t rest k h = ap (λ u. file_pairs p (some u) rest) (sym (append-nil t))
type_read (c ∷ text) p t rest (k, ks) h =
    let other : (c == b'?') ≡ false = ground arith in
    let room : leb max_filename_len (length t + 1) ≡ false = ground arith in
    rw (file_pairs, other, room)
      (type_read text p (t ++ (c ∷ [])) rest ks (omega (arith, length-append t (c ∷ [])))
        ∙ ap (λ u. file_pairs p (some u) rest) (append_assoc t (c ∷ []) text))

-- A request put together from paths without a ':' and types without a '?', each shorter than its
-- buffer, is taken apart into the same pairs; behind the last '?' stands a pair of empty texts,
-- which the server passes over.
pub file_pairs-pairs_text :
    (ps : List FilePair)
    → AllFilePairs ps
    → file_pairs [] none (pairs_text ps) ≡ some (ps ++ (nothing_more ∷ []))
unfolding file_pairs
file_pairs-pairs_text [] k = refl
file_pairs-pairs_text (p ∷ ps) (k, ks) =
    path_read p.path [] (b':' ∷ (p.file_type ++ (b'?' ∷ pairs_text ps))) k.0 (omega (arith, k))
    ∙ type_read p.file_type p.path [] (b'?' ∷ pairs_text ps) k.1 (omega (arith, k))
    ∙ ap (and_pair p) (file_pairs-pairs_text ps ks)
