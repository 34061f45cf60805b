-- ===== src/Client/Handshake.antt =====
-- Sending and being answered: what `Send` leaves behind, and what the answers of the other side do
-- to it.
use softupdate.Prelude.{
  ℕ, ◌≡◌, refl, ap, ◌∙◌, Bool, true, false, some, List, [], ◌∷◌, arith, if◌then◌else◌, length,
  bytes_eq, bytes_eq_refl,
}
use softupdate.Md5.Context.{md_bytes}
use softupdate.Md5.Digest.{md_bytes_shape}
use softupdate.Client.Frame.{
  sealed, hashed, md5_hash, md5_hash-sealed, create_frame, create_frame-sealed, type_of-sealed,
  drop-sealed,
}
use softupdate.Client.Link.{
  Link, transmit, stop_send_waiting, waiting, send, try_send, deal_reply_message, deal_with,
  msg_data_correct, msg_data_error,
}
use softupdate.Client.Receiver.{in_header, on_header}

module _ (stack : List ℕ) where
  -- The bytes and the link of a `Send` that goes out.
  abbrev pub frame_of : ℕ → List ℕ → List ℕ
  frame_of type bytes =
      sealed (md_bytes stack (hashed (length bytes) type bytes)) (length bytes) type bytes

  -- `Send` on an open socket that takes the bytes, when no answer is outstanding: it transmits the
  -- frame with its right hash, keeps it for a second sending, notes the time, and waits.
  pub send_lem :
      (l : Link) (s type now : ℕ) (bytes : List ℕ)
      → l.socket ≡ some s
      → l.send_succeeded ≡ true
      → send stack type (some bytes) (length bytes) now true l ≡ (
        waiting,
        (
          record l {
            last_sent_bytes = some (frame_of type bytes);
            send_succeeded = false;
            last_sent_time = now;
          },
          transmit (frame_of type bytes) ∷ [],
        ),
      )
  unfolding send try_send
  send_lem l s type now bytes connected free =
      ap
        (λ o.
          try_send o l.send_succeeded (create_frame stack (some bytes) (length bytes) type) now true
            l)
        connected
      ∙ ap
          (λ b.
            try_send (some s) b (create_frame stack (some bytes) (length bytes) type) now true l)
          free
      ∙ ap (λ f. try_send (some s) true f now true l) (create_frame-sealed stack bytes type)

  -- A header of the protocol's own types 0 and 1, whatever hash it carries.
  answer_header :
      (hash : List ℕ) (l : Link) (successful : Bool)
      → length hash ≡ 16
      → on_header stack
          (sealed hash 0 (if successful then msg_data_correct else msg_data_error) [])
          l
        ≡ (in_header [], deal_reply_message hash successful l)
  unfolding on_header
  answer_header hash l true sixteen =
      rw
        (
          drop-sealed hash [] 0 0 sixteen,
          type_of-sealed hash [] 0 0 sixteen (omega arith),
          md5_hash-sealed hash [] 0 0 sixteen,
        )
        refl
  answer_header hash l false sixteen =
      rw
        (
          drop-sealed hash [] 0 1 sixteen,
          type_of-sealed hash [] 0 1 sixteen (omega arith),
          md5_hash-sealed hash [] 0 1 sixteen,
        )
        refl

  deal_lem :
      (hash frame : List ℕ) (l : Link) (successful : Bool)
      → l.last_sent_bytes ≡ some frame
      → md5_hash frame ≡ hash
      → deal_reply_message hash successful l ≡ (
          if successful
          then (record l { send_succeeded = true }, stop_send_waiting ∷ [])
          else (l, transmit frame ∷ []))
  unfolding deal_reply_message deal_with
  deal_lem hash frame l successful kept same =
      ap (λ o. deal_with hash successful o l) kept
      ∙ ap
          (λ b.
            if b
            then (if successful
                then (record l { send_succeeded = true }, stop_send_waiting ∷ [])
                else (l, transmit frame ∷ []))
            else (l, []))
          (ap (bytes_eq hash) same ∙ bytes_eq_refl hash)

  -- The header of an answer to the frame that was sent last: code 0 ends the sending, code 1 has the
  -- same frame sent again and the sending goes on.
  pub answer_lem :
      (l : Link) (type : ℕ) (bytes : List ℕ) (successful : Bool)
      → l.last_sent_bytes ≡ some (frame_of type bytes)
      → on_header stack
          (sealed
            (md_bytes stack (hashed (length bytes) type bytes))
            0
            (if successful then msg_data_correct else msg_data_error)
            [])
          l
        ≡ (
          in_header [],
          (if successful
              then (record l { send_succeeded = true }, stop_send_waiting ∷ [])
              else (l, transmit (frame_of type bytes) ∷ [])),
        )
  answer_lem l type bytes successful kept =
      answer_header hash l successful sixteen
      ∙ ap (λ t. (in_header [], t))
          (deal_lem hash (frame_of type bytes) l successful kept
            (md5_hash-sealed hash bytes (length bytes) type sixteen))
    where
      hash : List ℕ
      hash = md_bytes stack (hashed (length bytes) type bytes)

      sixteen : length hash ≡ 16
      sixteen = (md_bytes_shape stack (hashed (length bytes) type bytes)).0
