-- ===== src/Board/Usb/Length.antt =====
-- How much of the caller's buffer `v400_boardres_ind2sn` fills.
use softupdate.Prelude.{
  ℕ, zero, suc, ◌≤◌, List, [], ◌∷◌, ◌++◌, ◌||◌, inl, inr, arith, Bool-cases, length, take,
  length-append, length-take,
}
use softupdate.Prelude.Int.{ℤ, pos, negsuc, ltb_ℤ}
use softupdate.Board.Host.{Host}
use softupdate.Board.Usb.{ind2sn, found_path, read_serial, ind2usbpath}

terminated_short : (bytes : List ℕ) → length (take 16 bytes ++ (0 ∷ [])) ≤ 17
terminated_short bytes = omega (arith, length-append (take 16 bytes) (0 ∷ []), length-take 16 bytes)

module _ {W : Type 0} (host : Host W) where
  found_path_short : (p : ℤ × (ℤ × ℤ × ℤ)) (w : W) → length (found_path host p w).0.1 ≤ 17
  unfolding found_path read_serial
  found_path_short (pos zero, p) w = terminated_short _
  found_path_short (pos (suc n), p) w = omega arith
  found_path_short (negsuc n, p) w = omega arith

  pub ind2sn_short : (index : ℤ) (w : W) → length (ind2sn host index w).0.1 ≤ 17
  unfolding ind2sn
  ind2sn_short index w = elim (Bool-cases (ltb_ℤ index (pos 0) || ltb_ℤ (pos 6) index)) [
    | inl out ↦ rw (ind2sn, out) (omega arith)
    | inr within ↦ rw (ind2sn, within) (found_path_short (ind2usbpath index) w)
  ]
