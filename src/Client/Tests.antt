-- ===== src/Client/Tests.antt =====
-- The protocol's theorems on a link of two ends.
use softupdate.Prelude.{
  ℕ, ◌+◌, ◌≤◌, ◌≡◌, refl, true, false, none, some, List, [], ◌∷◌, ◌++◌, map, arith, length,
  replicate,
}
use softupdate.Md5.Context.{md_bytes}
use softupdate.Client.Frame.{sealed, hashed}
use softupdate.Client.Link.{
  Link, transmit, execute, stop_send_waiting, waiting, ◌then_do◌, set_reply_hashcode, reply, send,
  msg_data_correct,
}
use softupdate.Client.Receiver.{
  Thread, in_data, step, ready, in_header, on_header, dispatch, run, advance,
}
use softupdate.Client.Receiver.Delivery.{at_phase}
use softupdate.Client.Receiver.Frames.{receive_frame}
use softupdate.Client.Receiver.Safety.{Next, step-Next}
use softupdate.Client.Exchange.{exchange}
use softupdate.Client.Handshake.{frame_of, send_lem, answer_lem}

abbrev junk : List ℕ
junk = replicate 64 7

abbrev link : Link
link = record {
  socket = some 5;
  has_receive_thread = true;
  keep_running_thread = true;
  isconnecting = false;
  send_succeeded = true;
  last_sent_bytes = none;
  last_sent_time = 100;
  reply_hashcode = none;
  received_type = 0;
  received_data = [];
}

abbrev payload : List ℕ
payload = 1 ∷ 2 ∷ 3 ∷ []

abbrev hash : List ℕ
hash = md_bytes junk (hashed 3 0x116 payload)

receive_frame_example :
    (ks1 : List ℕ) × (ks2 : List ℕ) × (replicate 40 6 ≡ ks1 ++ ks2)
    × (length ks1 ≤ 32 + 3)
    × (run junk
          (map ready ks1)
          (at_phase (in_header []) (sealed hash 3 0x116 payload ++ (9 ∷ [])) link)
        ≡ advance
            (
              in_header [],
              set_reply_hashcode (some hash) link then_do dispatch 0x116 payload then_do reply true,
            )
            (9 ∷ []))
receive_frame_example =
    receive_frame junk link refl hash payload (9 ∷ []) (replicate 40 6) 0x116 refl (omega arith)
      (omega arith) (omega arith) (omega arith) (omega arith)

send_lem_example : send junk 0x116 (some payload) 3 120 true link ≡ (
  waiting,
  (
    record link {
      last_sent_bytes = some (frame_of junk 0x116 payload);
      send_succeeded = false;
      last_sent_time = 120;
    },
    transmit (frame_of junk 0x116 payload) ∷ [],
  ),
)
send_lem_example = send_lem junk link 5 0x116 120 payload refl refl

abbrev sender : Link
sender = record link {
  last_sent_bytes = some (frame_of junk 0x116 payload);
  send_succeeded = false;
}

answer_lem_example :
    on_header junk (sealed hash 0 msg_data_correct []) sender
    ≡ (in_header [], (record sender { send_succeeded = true }, stop_send_waiting ∷ []))
answer_lem_example = answer_lem junk sender 0x116 payload true refl

-- Two ends.
abbrev other_junk : List ℕ
other_junk = replicate 64 9

exchange_example :
    (answer : List ℕ) × (ks1 : List ℕ) × (ks2 : List ℕ) × (replicate 40 6 ≡ ks1 ++ ks2)
    × (length ks1 ≤ 32 + 3)
    × (run other_junk
          (map ready ks1)
          (at_phase (in_header []) (frame_of junk 0x116 payload ++ (9 ∷ [])) link)
        ≡ (
          at_phase (in_header []) (9 ∷ []) (record link { reply_hashcode = none }),
          execute 0x116 payload ∷ transmit answer ∷ [],
        ))
    × (on_header junk answer sender
        ≡ (in_header [], (record sender { send_succeeded = true }, stop_send_waiting ∷ [])))
exchange_example =
    exchange junk other_junk sender link 5 0x116 payload (9 ∷ []) (replicate 40 6) refl refl refl
      refl refl refl (omega arith) (omega arith) (omega arith) (omega arith) (omega arith)

-- A thread that has read nothing of five bytes.
abbrev thread : Thread
thread = at_phase (in_data (sealed (replicate 16 0) 5 0x116 []) []) (1 ∷ 2 ∷ []) link

step-Next_example : Next thread.phase (step junk (ready 6) thread).0.phase
step-Next_example = step-Next junk (ready 6) thread (omega arith)
