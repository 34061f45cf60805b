-- ===== src/Service/Modules/Safe.antt =====
-- The requests on the memories leave the server's fields alone.
use softupdate.Prelude.{
  option_both, ℕ, refl, true, Option, none, some, List, [], ◌∷◌, ◌++◌, length, ltb, if◌then◌else◌,
}
use softupdate.Prelude.Int.{ℤ, pos, negsuc, ◌+ℤ◌, ltb_ℤ}
use softupdate.Eeprom.{Reply}
use softupdate.Board.Hex.{c_str}
use softupdate.Board.Access.{read_module_buf}
use softupdate.Service.State.{System, Server, int_at}
use softupdate.Service.Modules.{
  cleared, copy_bytes, serials, coded, macs, panel_and_boards, buffer_answer, read_parsed,
  module_bytes, write_parsed, get_serial_number, get_serial_number_all, set_serial_number, get_mac,
  set_mac, read_module, write_module, write_option, cleared, msg_getserialnumber,
  msg_getserialnumberall, msg_writemodulebuf,
}
use softupdate.Service.Safety.{IsSafe, SafeAfter, if-SafeAfter}

module _ {W : Type 0} (sys : System W) (s : Server) (h : IsSafe s) where
  serials-SafeAfter :
      (type : ℕ) (form : List ℕ → List ℕ) (after : List ℕ) (o : Option (Reply W))
      → SafeAfter (serials sys type form after o s)
  unfolding serials
  serials-SafeAfter type form after none = refl
  serials-SafeAfter type form after (some r) = h

  pub get_serial_number-SafeAfter : (w : W) → SafeAfter (get_serial_number sys s w)
  unfolding get_serial_number
  get_serial_number-SafeAfter w = serials-SafeAfter msg_getserialnumber (cleared 14) [] _

  pub get_serial_number_all-SafeAfter : (w : W) → SafeAfter (get_serial_number_all sys s w)
  unfolding get_serial_number_all
  get_serial_number_all-SafeAfter w =
      serials-SafeAfter msg_getserialnumberall (λ sn. c_str sn ++ (13 ∷ [])) (13 ∷ []) _

  coded-SafeAfter : (type : ℕ) (o : Option (ℤ × W)) → SafeAfter (coded sys type o s)
  unfolding coded
  coded-SafeAfter type none = refl
  coded-SafeAfter type (some (code, w)) = h

  pub set_serial_number-SafeAfter :
      (bytes : List ℕ) (w : W) → SafeAfter (set_serial_number sys bytes s w)
  unfolding set_serial_number
  set_serial_number-SafeAfter bytes w = coded-SafeAfter _ _

  pub set_mac-SafeAfter : (bytes : List ℕ) (w : W) → SafeAfter (set_mac sys bytes s w)
  unfolding set_mac
  set_mac-SafeAfter bytes w = coded-SafeAfter _ _

  macs-SafeAfter : (own : List ℕ) (o : Option (List ℕ × W)) → SafeAfter (macs sys own o s)
  unfolding macs
  macs-SafeAfter own none = refl
  macs-SafeAfter own (some (boards, w)) = h

  panel_and_boards-SafeAfter : (o : Option (Reply W)) → SafeAfter (panel_and_boards sys o s)
  unfolding panel_and_boards
  panel_and_boards-SafeAfter none = refl
  panel_and_boards-SafeAfter (some r) = macs-SafeAfter _ _

  pub get_mac-SafeAfter : (w : W) → SafeAfter (get_mac sys s w)
  unfolding get_mac
  get_mac-SafeAfter w = panel_and_boards-SafeAfter _

  buffer_answer-SafeAfter : (len : ℤ) (o : Option (Reply W)) → SafeAfter (buffer_answer sys len o s)
  unfolding buffer_answer
  buffer_answer-SafeAfter len none = refl
  buffer_answer-SafeAfter (negsuc n) (some r) = refl
  buffer_answer-SafeAfter (pos n) (some r) =
      option_both SafeAfter (copy_bytes n (cleared 255 r.bytes)) _ _ (λ e. refl) (λ copied e. h)

  pub read_module-SafeAfter : (bytes : List ℕ) (w : W) → SafeAfter (read_module sys bytes s w)
  unfolding read_module read_parsed
  read_module-SafeAfter bytes w = if-SafeAfter (ltb (length bytes) 12) _ _ refl (
      buffer_answer-SafeAfter (int_at 1 bytes) (
        if ltb_ℤ (pos 255) (int_at 0 bytes +ℤ int_at 1 bytes)
        then some (record { code = pos 1; bytes = []; after = w })
        else read_module_buf sys.machine true (int_at 0 bytes) (int_at 1 bytes) (int_at 2 bytes) w))

  module_bytes-SafeAfter :
      (bytes : List ℕ) (start len index : ℤ) (w : W)
      → SafeAfter (module_bytes sys bytes start len index s w)
  unfolding module_bytes
  module_bytes-SafeAfter bytes start (pos n) index w = coded-SafeAfter _ _
  module_bytes-SafeAfter bytes start (negsuc n) index w =
      if-SafeAfter (ltb n 12) _ _ refl (coded-SafeAfter msg_writemodulebuf (some (pos 1, w)))

  pub write_module-SafeAfter : (bytes : List ℕ) (w : W) → SafeAfter (write_module sys bytes s w)
  unfolding write_module write_parsed
  write_module-SafeAfter bytes w = if-SafeAfter (ltb (length bytes) 12) _ _ refl (
      if-SafeAfter (ltb_ℤ (pos 255) (int_at 0 bytes +ℤ int_at 1 bytes)) _ _
        (coded-SafeAfter msg_writemodulebuf (some (pos 1, w)))
        (module_bytes-SafeAfter bytes (int_at 0 bytes) (int_at 1 bytes) (int_at 2 bytes) w))

  pub write_option-SafeAfter : (bytes : List ℕ) (w : W) → SafeAfter (write_option sys bytes s w)
  unfolding write_option
  write_option-SafeAfter bytes w =
      if-SafeAfter (ltb (length bytes) 24) _ _ refl (coded-SafeAfter _ _)
