-- ===== src/Board/Usb/Netif.antt =====
-- `v400_boardres_ind2netif`: the network interface that a board shows on the USB bus.
use softupdate.Prelude.{
  ℕ, zero, suc, ◌≤◌, ◌≡◌, refl, Bool, true, false, ◌||◌, Option, none, some, List, [], ◌∷◌, ◌++◌,
  ◌==◌, if◌then◌else◌, length, take, arith, length-take, Bool-cases, inl, inr, ◌⊎◌,
}
use softupdate.Prelude.Int.{ℤ, pos, negsuc}
use softupdate.Text.{codes, dec_int}
use softupdate.Board.Host.{Host}
use softupdate.Board.Usb.{ind2usbpath, port_name, usb_path}

-- ".../1-5/1-5:1.0/net" for a configuration and an interface
abbrev net_path : ℤ × ℤ × ℤ → ℤ → ℤ → List ℕ
net_path p config intf =
    usb_path p
    ++ (codes "/"
        ++ (port_name p
            ++ (codes ":" ++ (dec_int config ++ (codes "." ++ (dec_int intf ++ codes "/net"))))))

-- A name that is empty or starts with a dot is passed over.
abbrev pub hidden : List ℕ → Bool
hidden [] = true
hidden (c ∷ cs) = (c == 0) || (c == b'.')

module _ {W : Type 0} (host : Host W) where
  -- The loops over configuration 1 and interfaces 0 and 1 stop at the first path that exists.
  unfoldable pub find_path : ℤ × ℤ × ℤ → W → Option (List ℕ) × W
  find_path p w =
      let (first, w1) = host.exists (net_path p (pos 1) (pos 0)) w in
      let (second, w2) = host.exists (net_path p (pos 1) (pos 1)) w1 in
      if first
      then (some (net_path p (pos 1) (pos 0)), w1)
      else if second
      then (some (net_path p (pos 1) (pos 1)), w2)
      else (none, w2)

  -- The tests that a name passes after the first one: a directory, and a network device.
  is_net_device : List ℕ → List ℕ → W → Bool × W
  is_net_device path name w =
      let (dir, w1) = host.is_dir (path ++ (codes "/" ++ name)) w in
      let (device, w2) = host.exists (codes "/sys/class/net/" ++ name) w1 in
      if dir then (device, w2) else (false, w1)

  -- The first name that passes, at most 63 characters of it; empty where none does.
  unfoldable pub pick_name : List ℕ → List (List ℕ) → W → List ℕ × W
  unfolding is_net_device
  pick_name path [] w = ([], w)
  pick_name path (name ∷ names) w =
      let (passes, w1) = is_net_device path name w in
      let later = pick_name path names w in
      let later1 = pick_name path names w1 in
      if hidden name then later else if passes then (take 63 name, w1) else later1

  named : List ℕ × W → (ℤ × List ℕ) × W
  named ([], w) = ((pos 9, []), w)
  named (c ∷ cs, w) = ((pos 0, c ∷ cs), w)

  listed : List ℕ → Option (List (List ℕ)) × W → (ℤ × List ℕ) × W
  unfolding named
  listed path (none, w) = ((pos 8, []), w)
  listed path (some names, w) = named (pick_name path names w)

  opened : Option (List ℕ) × W → (ℤ × List ℕ) × W
  unfolding listed named
  opened (none, w) = ((pos 7, []), w)
  opened (some path, w) = listed path (host.list_dir path w)

  placed : ℤ × (ℤ × ℤ × ℤ) → W → (ℤ × List ℕ) × W
  unfolding opened listed named
  placed (pos zero, p) w = opened (find_path p w)
  placed (_, p) w = ((pos 6, []), w)

  -- The code, and the name that stands in `netif`.
  unfoldable pub ind2netif : ℤ → W → (ℤ × List ℕ) × W
  unfolding placed opened listed named
  ind2netif index w = placed (ind2usbpath index) w

-- Success with a name that is usable, or one of four codes with none.
abbrev pub GoodNetif : ℤ × List ℕ → Type 0
GoodNetif (pos zero, name) = (hidden name ≡ false) × (length name ≤ 63)
GoodNetif (pos (suc n), name) =
    ((suc n ≡ 6) ⊎ ((suc n ≡ 7) ⊎ ((suc n ≡ 8) ⊎ (suc n ≡ 9)))) × (name ≡ [])
GoodNetif (negsuc n, name) = ⊥

module _ {W : Type 0} (host : Host W) where
  -- A picked name, if it is one.
  IsPicked : List ℕ → Type 0
  IsPicked [] = Unit {0}
  IsPicked (c ∷ cs) = (hidden (c ∷ cs) ≡ false) × (length (c ∷ cs) ≤ 63)

  short_IsPicked : (name : List ℕ) → hidden name ≡ false → IsPicked (take 63 name)
  unfolding IsPicked
  short_IsPicked [] h = tt
  short_IsPicked (c ∷ cs) h = (h, omega (arith, length-take 62 cs))

  pick_name-IsPicked :
      (path : List ℕ) (names : List (List ℕ)) (w : W) → IsPicked (pick_name host path names w).0
  unfolding pick_name IsPicked
  pick_name-IsPicked path [] w = tt
  pick_name-IsPicked path (name ∷ names) w = elim (Bool-cases (hidden name)) [
    | inl h ↦ rw h (pick_name-IsPicked path names w)
    | inr shown ↦ rw shown (elim (Bool-cases (is_net_device host path name w).0) [
      | inl is_device ↦ rw is_device (short_IsPicked name shown)
      | inr other ↦ rw other (pick_name-IsPicked path names (is_net_device host path name w).1)
    ])
  ]

  named_good : (x : List ℕ × W) → IsPicked x.0 → GoodNetif (named host x).0
  unfolding named IsPicked
  named_good ([], w) h = (inr (inr (inr refl)), refl)
  named_good (c ∷ cs, w) h = h

  listed_good : (path : List ℕ) (x : Option (List (List ℕ)) × W) → GoodNetif (listed host path x).0
  unfolding listed
  listed_good path (none, w) = (inr (inr (inl refl)), refl)
  listed_good path (some names, w) = named_good _ (pick_name-IsPicked path names w)

  opened_good : (x : Option (List ℕ) × W) → GoodNetif (opened host x).0
  unfolding opened
  opened_good (none, w) = (inr (inl refl), refl)
  opened_good (some path, w) = listed_good path (host.list_dir path w)

  placed_good : (x : ℤ × (ℤ × ℤ × ℤ)) (w : W) → GoodNetif (placed host x w).0
  unfolding placed
  placed_good (pos zero, p) w = opened_good (find_path host p w)
  placed_good (pos (suc n), p) w = (inl refl, refl)
  placed_good (negsuc n, p) w = (inl refl, refl)

  -- `v400_boardres_ind2netif` gives code 0 with a name that is not empty, does not start with a dot
  -- and fits the 64-byte global with its NUL, or one of the codes 6, 7, 8, 9 with an empty name.
  pub ind2netif-GoodNetif : (index : ℤ) (w : W) → GoodNetif (ind2netif host index w).0
  unfolding ind2netif
  ind2netif-GoodNetif index w = placed_good (ind2usbpath index) w
