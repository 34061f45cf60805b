-- ===== src/Service/Directory.antt =====
-- `CreateDir`: every directory on the way to a path.
use softupdate.Prelude.{
  ℕ, zero, suc, ◌+◌, ◌-◌, ◌≡◌, refl, sym, ap, ◌∙◌, Bool, true, false, ◌||◌, Option, none, some,
  List, [], ◌∷◌, ◌++◌, inl, inr, arith, Bool-cases, ==_iff, some_inj, leb, ◌==◌, if◌then◌else◌,
  length, get_or, get_elem?, take, drop,
}
use softupdate.Service.State.{System}

abbrev pub max_dir_name : ℕ
max_dir_name = 256

-- `DirName`, with a '/' behind it.
abbrev pub dir_name : List ℕ → ℕ → List ℕ
dir_name path last = if last == b'/' then path else path ++ (b'/' ∷ [])

module _ {W : Type 0} (sys : System W) where
  unfoldable pub made : List ℕ → Bool × W → Bool × W
  made prefix (true, w) = (true, w)
  made prefix (false, w) = sys.mkdir prefix w

  -- `mkdir` where `access` finds nothing.
  unfoldable pub make_prefix : List ℕ → W → Bool × W
  unfolding made
  make_prefix prefix w = made prefix (sys.access prefix w)

  -- The positions from `i` on; `rest` is what stands there.
  unfoldable pub create_from : List ℕ → ℕ → List ℕ → W → Bool × W
  unfolding make_prefix
  create_from dir i [] w = (true, w)
  create_from dir i (c ∷ rest) w = elim (c == b'/') [
    | false ↦ create_from dir (i + 1) rest w
    | true ↦ elim (make_prefix (take i dir) w).0 [
      | true ↦ create_from dir (i + 1) rest (make_prefix (take i dir) w).1
      | false ↦ (false, (make_prefix (take i dir) w).1)
    ]
  ]

  -- `none` where the path is empty, which has no last character, or does not fit into `DirName`.
  -- The result is 0 or -1.
  unfoldable pub create_dir : List ℕ → W → Option (Bool × W)
  unfolding create_from
  create_dir path w =
      let dir = dir_name path (get_or path (length path - 1) 0) in
      if (length path == 0) || leb max_dir_name (length dir)
      then none
      else some (create_from dir 1 (drop 1 dir) w)

-- What the calls promise: `present` says which paths there are.
pub record Tree {W : Type 0} (sys : System W) (present : List ℕ → W → Bool) : Type 0 where
  pub access_found :
      (p : List ℕ) (w : W) → (sys.access p w).0 ≡ true → present p (sys.access p w).1 ≡ true
  pub access_keeps :
      (p q : List ℕ) (w : W) → present q w ≡ true → present q (sys.access p w).1 ≡ true
  pub mkdir_made :
      (p : List ℕ) (w : W) → (sys.mkdir p w).0 ≡ true → present p (sys.mkdir p w).1 ≡ true
  pub mkdir_keeps : (p q : List ℕ) (w : W) → present q w ≡ true → present q (sys.mkdir p w).1 ≡ true

module _ {W : Type 0} (sys : System W) (present : List ℕ → W → Bool) (tree : Tree sys present) where
  make_prefix_keeps :
      (p q : List ℕ) (w : W) → present q w ≡ true → present q (make_prefix sys p w).1 ≡ true
  unfolding make_prefix made
  make_prefix_keeps p q w h = elim (Bool-cases (sys.access p w).0) [
    | inl e ↦ rw e (tree.access_keeps p q w h)
    | inr e ↦ rw e (tree.mkdir_keeps p q (sys.access p w).1 (tree.access_keeps p q w h))
  ]

  make_prefix_present :
      (p : List ℕ) (w : W)
      → (make_prefix sys p w).0 ≡ true
      → present p (make_prefix sys p w).1 ≡ true
  unfolding make_prefix made
  make_prefix_present p w h = elim (Bool-cases (sys.access p w).0) [
    | inl e ↦ rw e (tree.access_found p w e)
    | inr e ↦ rw e (tree.mkdir_made p (sys.access p w).1 (rw e at h))
  ]

  create_from_keeps :
      (dir : List ℕ) (i : ℕ) (rest q : List ℕ) (w : W)
      → present q w ≡ true
      → present q (create_from sys dir i rest w).1 ≡ true
  unfolding create_from
  create_from_keeps dir i [] q w h = h
  create_from_keeps dir i (c ∷ rest) q w h = elim (Bool-cases (c == b'/')) [
    | inr e ↦ rw (create_from, e) (create_from_keeps dir (i + 1) rest q w h)
    | inl e ↦ elim (Bool-cases (make_prefix sys (take i dir) w).0) [
      | inr bad ↦ rw (create_from, e, bad) (make_prefix_keeps (take i dir) q w h)
      | inl good ↦
          rw (create_from, e, good)
            (create_from_keeps dir (i + 1) rest q (make_prefix sys (take i dir) w).1
              (make_prefix_keeps (take i dir) q w h))
    ]
  ]

  -- The '/' at `j` is among those still to come, at the distance `k`.
  create_from_present :
      (dir : List ℕ) (i : ℕ) (rest : List ℕ) (k j : ℕ) (w : W)
      → get_elem? rest k ≡ some b'/'
      → j ≡ i + k
      → (create_from sys dir i rest w).0 ≡ true
      → present (take j dir) (create_from sys dir i rest w).1 ≡ true
  unfolding create_from
  create_from_present dir i [] k j w at e h = cc
  create_from_present dir i (c ∷ rest) zero j w at e h =
      let here : (c == b'/') ≡ true = (==_iff c b'/').1 (some_inj at) in
      let same : i ≡ j = omega arith in
      elim (Bool-cases (make_prefix sys (take i dir) w).0) [
        | inr bad ↦ cc (rw (create_from, here, bad) at h)
        | inl good ↦
            rw (create_from, here, good)
              (create_from_keeps dir (i + 1) rest (take j dir) (make_prefix sys (take i dir) w).1 (
                ap (λ n. present (take n dir) (make_prefix sys (take i dir) w).1) (sym same)
                ∙ make_prefix_present (take i dir) w good))
      ]
  create_from_present dir i (c ∷ rest) (suc k) j w at e h = elim (Bool-cases (c == b'/')) [
    | inr other ↦
        rw (create_from, other)
          (create_from_present dir (i + 1) rest k j w at (omega arith)
            (rw (create_from, other) at h))
    | inl slash ↦ elim (Bool-cases (make_prefix sys (take i dir) w).0) [
      | inr bad ↦ cc (rw (create_from, slash, bad) at h)
      | inl good ↦
          rw (create_from, slash, good)
            (create_from_present dir (i + 1) rest k j (make_prefix sys (take i dir) w).1 at
              (omega arith) (rw (create_from, slash, good) at h))
    ]
  ]

-- Where `CreateDir` returns 0, every prefix of the directory's name that stands before a '/', but
-- for the empty one at its beginning, names something that is there: the '/' is one of the path's
-- own or the one put behind it. What `access` found or `mkdir` made is taken to stay.
pub create_dir_lem :
    {W : Type 0} (sys : System W) (present : List ℕ → W → Bool) (path : List ℕ) (w w' : W) (j : ℕ)
    → Tree sys present
    → create_dir sys path w ≡ some (true, w')
    → get_elem? (drop 1 (dir_name path (get_or path (length path - 1) 0))) j ≡ some b'/'
    → present (take (1 + j) (dir_name path (get_or path (length path - 1) 0))) w' ≡ true
unfolding create_dir
create_dir_lem {W = W} sys present path w w' j tree h at =
    let dir = dir_name path (get_or path (length path - 1) 0) in
    elim (Bool-cases ((length path == 0) || leb max_dir_name (length dir))) [
      | inl bad ↦ cc (rw bad at h)
      | inr good ↦
          let ran : create_from sys dir 1 (drop 1 dir) w ≡ (true, w') = some_inj (rw good at h) in
          ap (λ v. present (take (1 + j) dir) v) (sym (ap (λ t. t.1) ran))
          ∙ create_from_present sys present tree dir 1 (drop 1 dir) j (1 + j) w at refl
              (ap (λ t. t.0) ran)
    ]
