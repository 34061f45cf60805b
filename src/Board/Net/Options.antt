-- ===== src/Board/Net/Options.antt =====
-- What `ReadOptionBufferIndex` makes of a board's answer, and when the hexadecimal text of
-- `_netclient_cmd_WriteEEPRom` fits its buffer.
use softupdate.Prelude.{
  sym, ltb, ◌||◌, ◌<◌, ℕ, zero, suc, ◌+◌, ◌-◌, ◌≤◌, ◌≡◌, ◌↔◌, ◌⊎◌, inl, inr, refl, ap, ◌∙◌, Bool,
  true, false, Option, none, some, List, [], ◌∷◌, ◌++◌, arith, if◌then◌else◌, Bool-cases, length,
  take, drop, replicate, length-take, length-drop, bytes_eq, take-append_le, drop-append_le,
}
use softupdate.Prelude.Int.{ℤ, pos, negsuc, ◌+ℤ◌, ltb_ℤ}
use softupdate.Text.{codes, dec_int}
use softupdate.Md5.Codec.{AllLt}
use softupdate.Eeprom.{reply}
use softupdate.Board.Host.{Host}
use softupdate.Board.Hex.{c_str, hex_only, hex_encode, parse_options-hex_encode}
use softupdate.Board.Usb.Netif.{ind2netif}
use softupdate.Board.Net.HexText.{hex_text_fits, hex_text_fails}
use softupdate.Board.Net.{
  recv_timeout, answered, sent, cmd_opt, cmd_read_eeprom, cmd_write_eeprom,
  create_module_socket_client, close_socket, copy_options, fill_options, with_code, read_answer,
  read_over, read_at, read_option_buffer_index,
}

drop-replicate : (k n : ℕ) → drop {A = ℕ} k (replicate n 0) ≡ replicate (n - k) 0
drop-replicate zero n = let e : n ≡ n - 0 = omega arith in ap (λ t. replicate t 0) e
drop-replicate (suc k) zero = let e : 0 ≡ 0 - suc k = omega arith in ap (λ t. replicate t 0) e
drop-replicate (suc k) (suc n) =
    let e : n - k ≡ suc n - suc k = omega arith in drop-replicate k n ∙ ap (λ t. replicate t 0) e

-- A code of `_netclient_cmd_opt` with the buffer that goes with it.
abbrev pub GoodAnswer : ℤ → List ℕ → Type 0
GoodAnswer (pos zero) bytes =
    (answer : List ℕ) × (bytes ≡ answer ++ (0 ∷ []))
    × (bytes_eq (take 4 answer) (codes "ERR:") ≡ false)
    × (1 ≤ length answer)
GoodAnswer (pos (suc n)) bytes =
    (suc n ≡ 15) ⊎ ((suc n ≡ 16) ⊎ ((suc n ≡ 17) ⊎ ((suc n ≡ 18) ⊎ (suc n ≡ 20))))
GoodAnswer (negsuc n) bytes = ⊥

pos_inj : {m n : ℕ} → pos m ≡ pos n → m ≡ n
pos_inj e = cc e

outside :
    (len size : ℕ)
    → (254 < len) ⊎ (size < len)
    → (ltb_ℤ (pos 254) (pos len) ≡ true) ⊎ (ltb_ℤ (pos size) (pos len) ≡ true)
outside len size (inl long) = inl (ground arith)
outside len size (inr missing) = inr (ground arith)

within :
    (len size : ℕ)
    → len ≤ 254
    → len ≤ size
    → (ltb_ℤ (pos len) (pos 0) ≡ true)
      ⊎ ((ltb_ℤ (pos 254) (pos len) ≡ true) ⊎ (ltb_ℤ (pos size) (pos len) ≡ true))
    → ⊥
within len size short enough (inl h) = ground (arith, h)
within len size short enough (inr (inl h)) = ground (arith, h)
within len size short enough (inr (inr h)) = ground (arith, h)

module _ {W : Type 0} (host : Host W) where
  answered_good :
      (x : Option (List ℕ) × W) → GoodAnswer (answered host x).code (answered host x).bytes
  unfolding answered
  answered_good (none, w) = inr (inr (inl refl))
  answered_good (some [], w) = inr (inr (inl refl))
  answered_good (some (b ∷ bs), w) = elim (Bool-cases (bytes_eq (take 4 (b ∷ bs)) (codes "ERR:"))) [
    | inl err ↦ rw err (inr (inr (inr (inl refl))))
    | inr fine ↦ rw fine (b ∷ bs, refl, fine, omega arith)
  ]

  -- `_netclient_cmd_opt` gives 0 only for an answer that is not empty and does not start with
  -- "ERR:", with a NUL behind it, and else one of the codes 15, 16, 17, 18 and 20.
  pub cmd_opt-GoodAnswer :
      (sk : ℕ) (cmd : Option (List ℕ)) (has_buff is_write : Bool) (w : W)
      → let r = cmd_opt host sk cmd has_buff is_write w in GoodAnswer r.code r.bytes
  unfolding cmd_opt sent
  cmd_opt-GoodAnswer sk cmd false is_write w = inl refl
  cmd_opt-GoodAnswer sk none true is_write w = inr (inr (inr (inr refl)))
  cmd_opt-GoodAnswer sk (some cmd) true is_write w = go (host.send_to sk cmd w)
    where
      go :
          (x : Bool × W) → GoodAnswer (sent host sk is_write x).code (sent host sk is_write x).bytes
      go (false, w') = inr (inl refl)
      go (true, w') =
          answered_good (recv_timeout host sk 4095 (if is_write then 60000000 else 1000000) w')

  sent_text :
      (sk : ℕ) (start : ℤ) (len : ℕ) (bytes : List ℕ) (w : W)
      → len ≤ length bytes
      → len ≤ 254
      → cmd_write_eeprom host sk start (pos len) bytes w
        ≡ some (
            cmd_opt host sk
              (some (
                codes "optfill --begin "
                ++ (dec_int start ++ (codes " " ++ hex_encode (take len bytes)))))
              true
              true
              w)
  unfolding cmd_write_eeprom
  sent_text sk start len bytes w enough short =
      let (buff, made, text) = hex_text_fits len bytes enough short in
      rw (cmd_write_eeprom, made)
        (ap
          (λ t. some (
            cmd_opt host sk (some (codes "optfill --begin " ++ (dec_int start ++ (codes " " ++ t))))
              true true w))
          text)

  -- The command fails to fit exactly where its length is negative, above 254, or above the number of
  -- bytes that the caller has: `none` stands for a write past `buff`, or a read past the bytes. At 255
  -- bytes, the whole of a board's memory, the NUL falls behind the buffer. Everywhere else it is sent,
  -- with the hexadecimal text of that many bytes.
  pub cmd_write_eeprom-fault :
      (sk : ℕ) (start len : ℤ) (bytes : List ℕ) (w : W)
      → ((cmd_write_eeprom host sk start len bytes w ≡ none) ↔ (
          (ltb_ℤ len (pos 0) ≡ true)
          ⊎ ((ltb_ℤ (pos 254) len ≡ true) ⊎ (ltb_ℤ (pos (length bytes)) len ≡ true))))
        × ((n : ℕ)
            → len ≡ pos n
            → n ≤ 254
            → n ≤ length bytes
            → cmd_write_eeprom host sk start len bytes w
              ≡ some (
                  cmd_opt host sk
                    (some (
                      codes "optfill --begin "
                      ++ (dec_int start ++ (codes " " ++ hex_encode (take n bytes)))))
                    true
                    true
                    w))
  unfolding cmd_write_eeprom
  cmd_write_eeprom-fault sk start (negsuc k) bytes w =
      ((λ h. inl (ground arith), λ h. refl), λ n e short enough. cc)
  cmd_write_eeprom-fault sk start (pos len) bytes w =
      elim (Bool-cases (ltb 254 len || ltb (length bytes) len)) [
        | inl bad ↦
            let over : (254 < len) ⊎ (length bytes < len) = ground (arith, bad) in
            let fails : cmd_write_eeprom host sk start (pos len) bytes w ≡ none =
              rw (cmd_write_eeprom, hex_text_fails len bytes over) refl in
            (
              (λ h. inr (outside len (length bytes) over), λ h. fails),
              λ n e short enough. absurd (ground (arith, over, pos_inj e)),
            )
        | inr good ↦
            let short : len ≤ 254 = ground (arith, good) in
            let enough : len ≤ length bytes = ground (arith, good) in
            let sends = sent_text sk start len bytes w enough short in
            (
              (λ h. cc (sym sends ∙ h), λ out. absurd (within len (length bytes) short enough out)),
              λ n e low some_bytes.
                  sends
                  ∙ ap
                      (λ k. some (
                        cmd_opt host sk
                          (some (
                            codes "optfill --begin "
                            ++ (dec_int start ++ (codes " " ++ hex_encode (take k bytes)))))
                          true true w))
                      (pos_inj e),
            )
      ]

  -- Where the board's interface is found, a socket is made and the board answers with the text of at
  -- most 255 bytes, other characters between the digits or not: if the part asked for lies inside
  -- them, `ReadOptionBufferIndex` gives it, in front of zeros up to 255 bytes, and closes the socket.
  pub read_option_buffer_index_lem :
      (start len sk : ℕ) (index : ℤ) (c : ℕ) (name text bs : List ℕ) (w w1 w2 w3 : W)
      → ind2netif host index w ≡ ((pos 0, c ∷ name), w1)
      → create_module_socket_client host (c ∷ name) w1 ≡ ((pos 0, sk), w2)
      → cmd_read_eeprom host sk w2 ≡ reply (pos 0) text w3
      → hex_only (c_str text) ≡ hex_encode bs
      → AllLt 256 bs
      → length bs ≤ 255
      → start + len ≤ length bs
      → read_option_buffer_index host (pos start) (pos len) index w
        ≡ some (
            reply
              (pos 0)
              (take len (drop start bs) ++ replicate (255 - len) 0)
              (close_socket host sk w3))
  unfolding read_option_buffer_index read_at read_over read_answer fill_options copy_options
      with_code ◌+ℤ◌
  read_option_buffer_index_lem start len sk index c name text bs w w1 w2 w3 found made read shown
        small fits inside =
      rw (found, made, read, near)
        (rw (parse_options-hex_encode text bs small (omega arith) shown)
          (rw (part, size, plain, drop-replicate len 255) refl))
    where
      near : ltb_ℤ (pos 255) (pos start +ℤ pos len) ≡ false
      near = ground arith

      plain : 0 + len ≡ len
      plain = omega arith

      part :
          take len (drop start (bs ++ take (255 - length bs) (replicate 255 0)))
          ≡ take len (drop start bs)
      part =
          ap (take len) (drop-append_le bs _ start (omega arith))
          ∙ take-append_le (drop start bs) _ len (omega (arith, length-drop start bs))

      size : length (take len (drop start bs)) ≡ len
      size = omega (arith, length-take len (drop start bs), length-drop start bs)
