-- ===== src/Board/Usb/Serial.antt =====
-- The codes and the text of `v400_boardres_ind2sn`, and the prefixes of `v400_boardres_sn2type`.
use softupdate.Prelude.{
  ℕ, zero, suc, ◌<◌, ◌≡◌, ◌≢◌, ◌↔◌, ◌⊎◌, refl, ap, sym, ◌∙◌, true, false, Option, none, some, List,
  [], ◌∷◌, ◌++◌, if◌then◌else◌, length, take, replicate, arith, length-take, length-append,
  length-replicate, Bool-cases, inl, inr, bytes_eq, bytes_eq_sound,
}
use softupdate.Prelude.Int.{ℤ, pos, negsuc, ltb_ℤ}
use softupdate.Text.{codes}
use softupdate.Board.Host.{Host}
use softupdate.Board.Usb.{
  ind2usbpath, usb_path, is_alnum, regulate, serial_buffer, read_serial, found_path, ind2sn,
  BoardType, unknown, board_40g, board_40ge, board_10g, board_2g5, board_1ge, board_100ge,
  board_16g, head_type, sn2type,
}

-- Letters and digits, then nothing but zeros.
abbrev pub AllZero : List ℕ → Type 0
AllZero [] = Unit {0}
AllZero (c ∷ cs) = (c ≡ 0) × AllZero cs

abbrev pub IsSerial : List ℕ → Type 0
IsSerial [] = Unit {0}
IsSerial (c ∷ cs) = ((is_alnum c ≡ true) × IsSerial cs) ⊎ ((c ≡ 0) × AllZero cs)

zeros_AllZero : (n : ℕ) → AllZero (replicate n 0)
zeros_AllZero zero = tt
zeros_AllZero (suc n) = (refl, zeros_AllZero n)

length-regulate : (cs : List ℕ) → length (regulate cs) ≡ length cs
unfolding regulate
length-regulate [] = refl
length-regulate (c ∷ cs) = elim (Bool-cases (is_alnum c)) [
  | inl h ↦ rw h (omega (arith, length-regulate cs))
  | inr h ↦ rw h (omega (arith, length-replicate {A = ℕ} (length cs) 0))
]

regulate-IsSerial : (cs : List ℕ) → IsSerial (regulate cs)
unfolding regulate
regulate-IsSerial [] = tt
regulate-IsSerial (c ∷ cs) = elim (Bool-cases (is_alnum c)) [
  | inl h ↦ rw h (inl (h, regulate-IsSerial cs))
  | inr h ↦ rw h (inr (refl, zeros_AllZero (length cs)))
]

take-AllZero : (n : ℕ) (cs : List ℕ) → AllZero cs → AllZero (take n cs ++ (0 ∷ []))
take-AllZero zero cs h = (refl, tt)
take-AllZero (suc n) [] h = (refl, tt)
take-AllZero (suc n) (c ∷ cs) h = (h.0, take-AllZero n cs h.1)

take-IsSerial : (n : ℕ) (cs : List ℕ) → IsSerial cs → IsSerial (take n cs ++ (0 ∷ []))
take-IsSerial zero cs h = inr (refl, tt)
take-IsSerial (suc n) [] h = inr (refl, tt)
take-IsSerial (suc n) (c ∷ cs) (inl h) = inl (h.0, take-IsSerial n cs h.1)
take-IsSerial (suc n) (c ∷ cs) (inr h) = inr (h.0, take-AllZero n cs h.1)

length-serial_buffer : (o : Option (List ℕ)) → length (serial_buffer o) ≡ 32
unfolding serial_buffer
length-serial_buffer none = refl
length-serial_buffer (some bytes) = omega (
  arith,
  length-take 32 (bytes ++ replicate 32 0),
  length-append bytes (replicate 32 0),
  length-replicate {A = ℕ} 32 0,
)

module _ {W : Type 0} (host : Host W) where
  -- What `ind2sn` gives for an index, whether the device is there or not.
  abbrev pub GoodSerial : ℤ → ℤ × List ℕ → Type 0
  GoodSerial (negsuc i) x = x ≡ (pos 11, 0 ∷ [])
  GoodSerial (pos i) x =
      ((i < 6) × ((x.0 ≡ pos 0) × ((length x.1 ≡ 17) × IsSerial x.1)))
      ⊎ (((i ≡ 6) × (x ≡ (pos 21, 0 ∷ []))) ⊎ ((6 < i) × (x ≡ (pos 11, 0 ∷ []))))

  read_serial_good :
      (p : ℤ × ℤ × ℤ) (w : W)
      → ((read_serial host p w).0.0 ≡ pos 0)
        × ((length (read_serial host p w).0.1 ≡ 17) × IsSerial (read_serial host p w).0.1)
  unfolding read_serial
  read_serial_good p w = (
    refl,
    (
      size buffer (length-serial_buffer _),
      take-IsSerial 16 (regulate buffer) (regulate-IsSerial buffer),
    ),
  )
    where
      buffer : List ℕ
      buffer =
          serial_buffer
            (host.read_file (usb_path p ++ codes "/serial") 16 (host.exists (usb_path p) w).1).0

      size : (b : List ℕ) → length b ≡ 32 → length (take 16 (regulate b) ++ (0 ∷ [])) ≡ 17
      size b h = omega (
        arith,
        length-append (take 16 (regulate b)) (0 ∷ []),
        length-take 16 (regulate b),
        length-regulate b,
      )

  beyond : (i : ℕ) (w : W) → 6 < i → (ind2sn host (pos i) w).0 ≡ (pos 11, 0 ∷ [])
  unfolding ind2sn
  beyond i w h = rw (low, high) refl
    where
      low : ltb_ℤ (pos i) (pos 0) ≡ false
      low = ground arith

      high : ltb_ℤ (pos 6) (pos i) ≡ true
      high = ground arith

  below : (i : ℕ) (w : W) → (ind2sn host (negsuc i) w).0 ≡ (pos 11, 0 ∷ [])
  unfolding ind2sn
  below i w = rw low refl
    where
      low : ltb_ℤ (negsuc i) (pos 0) ≡ true
      low = ground arith

  -- For an index from 0 to 5 `v400_boardres_ind2sn` succeeds, and leaves 17 bytes: letters and
  -- digits, then zeros. Index 6 gives 21, any other index 11, both with an empty text.
  pub ind2sn-GoodSerial : (index : ℤ) (w : W) → GoodSerial index (ind2sn host index w).0
  unfolding ind2sn found_path ind2usbpath
  ind2sn-GoodSerial (negsuc i) w = below i w
  ind2sn-GoodSerial (pos zero) w = inl (omega arith, read_serial_good (ind2usbpath (pos 0)).1 w)
  ind2sn-GoodSerial (pos (suc zero)) w =
      inl (omega arith, read_serial_good (ind2usbpath (pos 1)).1 w)
  ind2sn-GoodSerial (pos (suc (suc zero))) w =
      inl (omega arith, read_serial_good (ind2usbpath (pos 2)).1 w)
  ind2sn-GoodSerial (pos (suc (suc (suc zero)))) w =
      inl (omega arith, read_serial_good (ind2usbpath (pos 3)).1 w)
  ind2sn-GoodSerial (pos (suc (suc (suc (suc zero))))) w =
      inl (omega arith, read_serial_good (ind2usbpath (pos 4)).1 w)
  ind2sn-GoodSerial (pos (suc (suc (suc (suc (suc zero)))))) w =
      inl (omega arith, read_serial_good (ind2usbpath (pos 5)).1 w)
  ind2sn-GoodSerial (pos (suc (suc (suc (suc (suc (suc zero))))))) w = inr (inl (refl, refl))
  ind2sn-GoodSerial (pos (suc (suc (suc (suc (suc (suc (suc i)))))))) w =
      inr (inr (omega arith, beyond (suc (suc (suc (suc (suc (suc (suc i))))))) w (omega arith)))

-- The first four characters of a serial number, for each type.
abbrev pub type_prefix : BoardType → List ℕ
type_prefix unknown = []
type_prefix board_40g = codes "BVUX"
type_prefix board_40ge = codes "BVUM"
type_prefix board_10g = codes "BVUK"
type_prefix board_2g5 = codes "BVUJ"
type_prefix board_1ge = codes "BVUL"
type_prefix board_100ge = codes "BVUH"
type_prefix board_16g = codes "BVUP"

-- A head with no type, or the prefix of its type.
head_type_cases : (h : List ℕ) → (head_type h ≡ unknown) ⊎ (h ≡ type_prefix (head_type h))
unfolding head_type
head_type_cases h = try_prefix board_40g (
    try_prefix board_40ge (
      try_prefix board_16g (
        try_prefix board_10g
          (try_prefix board_2g5 (try_prefix board_1ge (try_prefix board_100ge (inl refl)))))))
  where
    try_prefix :
        (t : BoardType) {other : BoardType}
        → (other ≡ unknown) ⊎ (h ≡ type_prefix other)
        → let r = if bytes_eq h (type_prefix t) then t else other in
          (r ≡ unknown) ⊎ (h ≡ type_prefix r)
    try_prefix t rest = elim (Bool-cases (bytes_eq h (type_prefix t))) [
      | inl e ↦ rw e (inr (bytes_eq_sound h (type_prefix t) e))
      | inr e ↦ rw e rest
    ]

head_type-type_prefix : (t : BoardType) → t ≢ unknown → head_type (type_prefix t) ≡ t
unfolding head_type
head_type-type_prefix unknown h = absurd (h refl)
head_type-type_prefix board_40g h = refl
head_type-type_prefix board_40ge h = refl
head_type-type_prefix board_10g h = refl
head_type-type_prefix board_2g5 h = refl
head_type-type_prefix board_1ge h = refl
head_type-type_prefix board_100ge h = refl
head_type-type_prefix board_16g h = refl

-- `v400_boardres_sn2type` gives a known type exactly for the serial numbers that start with its
-- four characters.
pub sn2type_iff :
    (sn : List ℕ) (t : BoardType) → t ≢ unknown → (sn2type sn ≡ t) ↔ (take 4 sn ≡ type_prefix t)
unfolding sn2type
sn2type_iff sn t h = (
  λ e. elim (head_type_cases (take 4 sn)) [
    | inl u ↦ absurd (h (sym e ∙ u))
    | inr p ↦ p ∙ ap type_prefix e
  ],
  λ e. ap head_type e ∙ head_type-type_prefix t h,
)
