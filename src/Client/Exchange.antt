-- ===== src/Client/Exchange.antt =====
-- The two ends of a connection together: a frame, its answer, and the end of the sending.
use softupdate.Prelude.{
  ℕ, ◌+◌, ◌^◌, ◌≤◌, ◌<◌, ◌≡◌, refl, ap, sym, ◌∙◌, true, false, some, none, List, [], ◌∷◌, ◌++◌, map,
  arith, ◌==◌, length, take-all,
}
use softupdate.Md5.Context.{md_bytes}
use softupdate.Md5.Digest.{md_bytes_shape, md_bytes-eq-rfc}
use softupdate.Client.Frame.{sealed, hashed, le4}
use softupdate.Client.Link.{
  Link, transmit, execute, stop_send_waiting, ◌then_do◌, keep_receiving, set_reply_hashcode, reply,
  msg_data_correct,
}
use softupdate.Client.Receiver.{in_header, dispatch, on_header, run, ready, advance, buffer_size}
use softupdate.Client.Receiver.Delivery.{at_phase}
use softupdate.Client.Receiver.Frames.{receive_frame}
use softupdate.Client.Handshake.{frame_of, answer_lem}

-- Two ends whose MD5 buffers hold different bytes agree on the hash of a short text.
hash_agrees :
    (sa sb text : List ℕ)
    → length sa ≡ 64
    → length sb ≡ 64
    → length text + 64 ≤ 2 ^ 32
    → md_bytes sa text ≡ md_bytes sb text
hash_agrees sa sb text room_a room_b small =
    (md_bytes-eq-rfc sa text room_a small).0 ∙ sym ((md_bytes-eq-rfc sb text room_b small).0)

length-hashed : (n type : ℕ) (bytes : List ℕ) → length (hashed n type bytes) ≡ 16 + length bytes
unfolding le4
length-hashed n type bytes = omega arith

accepted :
    (l : Link) (s type : ℕ) (hash bytes : List ℕ)
    → l.socket ≡ some s
    → length hash ≡ 16
    → (type == l.received_type) ≡ false
    → (set_reply_hashcode (some hash) l then_do dispatch type bytes then_do reply true) ≡ (
      record l { reply_hashcode = none },
      execute type bytes ∷ transmit (sealed hash 0 msg_data_correct []) ∷ [],
    )
unfolding set_reply_hashcode dispatch reply
accepted l s type hash bytes connected sixteen other =
    rw (other, connected, take-all hash 16 (omega arith)) refl

-- One exchange between two ends, whatever their MD5 buffers hold and however the stream is cut up:
-- the bytes that `Send` transmits make the other end, which is connected and waits for no data of
-- that type, pass the data on and transmit an answer, within as many turns as the frame has bytes;
-- that answer ends the sending at the first end. The data is not empty and fits the receiving
-- buffer, and the type is above the three of the protocol.
pub exchange :
    (sa sb : List ℕ) (a b : Link) (s type : ℕ) (bytes tail ks : List ℕ)
    → length sa ≡ 64
    → length sb ≡ 64
    → b.socket ≡ some s
    → keep_receiving b ≡ true
    → (type == b.received_type) ≡ false
    → a.last_sent_bytes ≡ some (frame_of sa type bytes)
    → 2 < type
    → type < 2 ^ 32
    → 1 ≤ length bytes
    → 32 + length bytes ≤ buffer_size
    → 32 + length bytes ≤ length ks
    → (answer : List ℕ) × (ks1 : List ℕ) × (ks2 : List ℕ) × (ks ≡ ks1 ++ ks2)
      × (length ks1 ≤ 32 + length bytes)
      × (run sb (map ready ks1) (at_phase (in_header []) (frame_of sa type bytes ++ tail) b) ≡ (
        at_phase (in_header []) tail (record b { reply_hashcode = none }),
        execute type bytes ∷ transmit answer ∷ [],
      ))
      × (on_header sa answer a
          ≡ (in_header [], (record a { send_succeeded = true }, stop_send_waiting ∷ [])))
exchange sa sb a b s type bytes tail ks room_a room_b connected keep other kept big small some_data
      fits enough =
    let agree =
      hash_agrees sa sb (hashed (length bytes) type bytes) room_a room_b
        (omega (arith, length-hashed (length bytes) type bytes)) in
    let hash = md_bytes sa (hashed (length bytes) type bytes) in
    let (ks1, ks2, split, few, ran) =
      receive_frame sb b keep hash bytes tail ks type agree big small some_data fits enough in
    (
      sealed hash 0 msg_data_correct [],
      ks1,
      ks2,
      split,
      few,
      ran
          ∙ ap (λ x. advance (in_header [], x) tail)
              (accepted b s type hash bytes connected
                (md_bytes_shape sa (hashed (length bytes) type bytes)).0 other),
      answer_lem sa a type bytes true kept,
    )
