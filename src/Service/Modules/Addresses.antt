-- ===== src/Service/Modules/Addresses.antt =====
-- How long the answers are that list something of each board.
use softupdate.Prelude.{
  ℕ, zero, suc, ◌+◌, ◌*◌, ◌≤◌, ◌≡◌, ap, true, some, List, [], ◌∷◌, ◌++◌, arith, length, replicate,
  length-append, length-take, length-replicate,
}
use softupdate.Prelude.Int.{pos}
use softupdate.Eeprom.{Reply}
use softupdate.Board.Hex.{c_str}
use softupdate.Board.Usb.{ind2sn}
use softupdate.Board.Usb.Length.{ind2sn_short}
use softupdate.Board.Panel.{read_serial_number}
use softupdate.Service.State.{System, Server, answer}
use softupdate.Service.Modules.{
  cleared, board_serials, serials, get_serial_number, get_serial_number_all, msg_getserialnumber,
  msg_getserialnumberall,
}

pub length-cleared : (n : ℕ) (bytes : List ℕ) → length (cleared n bytes) ≡ n
length-cleared n bytes = omega (
  arith,
  length-take n (bytes ++ replicate n 0),
  length-append bytes (replicate n 0),
  length-replicate {A = ℕ} n 0,
)

pub length-c_str : (bytes : List ℕ) → length (c_str bytes) ≤ length bytes
unfolding c_str
length-c_str [] = omega arith
length-c_str (c ∷ bytes) = ground (arith, length-c_str bytes)

module _ {W : Type 0} (sys : System W) where
  length-board_serials :
      (form : List ℕ → List ℕ) (size n index : ℕ) (w : W)
      → ((bytes : List ℕ) → length bytes ≤ 17 → length (form bytes) ≤ size)
      → length (board_serials sys form n index w).0 ≤ n * size
  unfolding board_serials
  length-board_serials form size zero index w h = omega arith
  length-board_serials form size (suc n) index w h =
      let after = (ind2sn sys.machine.host (pos index) w).1 in
      let sn = (ind2sn sys.machine.host (pos index) w).0.1 in
      omega (
        arith,
        length-append (form sn) (board_serials sys form n (index + 1) after).0,
        h sn (ind2sn_short sys.machine.host (pos index) w),
        length-board_serials form size n (index + 1) after h,
      )

  all_fits : (bytes : List ℕ) → length bytes ≤ 17 → length (c_str bytes ++ (13 ∷ [])) ≤ 18
  all_fits bytes h = omega (arith, length-append (c_str bytes) (13 ∷ []), length-c_str bytes)

  -- Both answers with serial numbers start with the panel's 14 bytes, and the boards' make at most
  -- 84 and 109 bytes behind them: what is written into `strTemp` stays inside its 2048 bytes.
  pub get_serial_number_bounds :
      (s : Server) (w : W) (r : Reply W)
      → read_serial_number sys.machine.susi true w ≡ some r
      → (boards : List ℕ) × (all : List ℕ) × (w1 : W) × (w2 : W) × (get_serial_number sys s w
          ≡ answer sys msg_getserialnumber (cleared 14 r.bytes ++ boards) s w1)
        × (get_serial_number_all sys s w
            ≡ answer sys msg_getserialnumberall (cleared 14 r.bytes ++ (13 ∷ all)) s w2)
        × (length boards ≤ 84)
        × (length all ≤ 108)
        × (length (cleared 14 r.bytes) ≡ 14)
  unfolding get_serial_number get_serial_number_all serials
  get_serial_number_bounds s w r got = (
    (board_serials sys (cleared 14) 6 0 r.after).0,
    (board_serials sys (λ sn. c_str sn ++ (13 ∷ [])) 6 0 r.after).0,
    (board_serials sys (cleared 14) 6 0 r.after).1,
    (board_serials sys (λ sn. c_str sn ++ (13 ∷ [])) 6 0 r.after).1,
    ap (λ o. serials sys msg_getserialnumber (cleared 14) [] o s) got,
    ap (λ o. serials sys msg_getserialnumberall (λ sn. c_str sn ++ (13 ∷ [])) (13 ∷ []) o s) got,
    length-board_serials (cleared 14) 14 6 0 r.after
        (λ bytes h. omega (arith, length-cleared 14 bytes)),
    length-board_serials (λ sn. c_str sn ++ (13 ∷ [])) 18 6 0 r.after all_fits,
    length-cleared 14 r.bytes,
  )
