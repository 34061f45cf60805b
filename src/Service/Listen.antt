-- ===== src/Service/Listen.antt =====
-- The thread that answers broadcasts, and the start of both listening threads.
use softupdate.Prelude.{
  ℕ, ◌≡◌, refl, Bool, true, false, ◌||◌, ◌&&◌, Option, none, some, List, [], ◌∷◌, ◌++◌, ◌==◌,
  if◌then◌else◌, length, take, bytes_eq,
}
use softupdate.Text.{codes}
use softupdate.Eeprom.{Reply}
use softupdate.Board.Hex.{c_str}
use softupdate.Board.Panel.{read_serial_number}
use softupdate.Service.State.{System}
use softupdate.Service.Modules.{cleared}
pub mod Silence

-- `StopAll`, and the handles of the two threads.
pub record Listening : Type 0 where
  pub stop_all : Bool
  pub thread_listen : Bool
  pub thread_broadcast_listen : Bool

-- What `select` and `recvfrom` bring in a round.
pub data Datagram : Type 0 where
  quiet : Datagram
  lost : Datagram
  datagram : List ℕ → Datagram

abbrev pub broadcast_call : List ℕ
broadcast_call = codes "SOFTUPDATE400CAST"

abbrev pub buffer_size : ℕ
buffer_size = 1024

-- The 14 bytes of the serial number have to bring the NUL that ends them.
serial_answer : List ℕ → Option (List ℕ)
unfolding c_str
serial_answer serial =
    if length (c_str serial) == 14 then none else some (codes "SOFTUPDATE400CAST:" ++ c_str serial)

-- A round that sends nothing, one that sends these bytes, and one that reads past the serial number.
pub data Answered (W : Type 0) : Type 0 where
  silent : W → Answered W
  says : List ℕ → W → Answered W
  overrun : Answered W

module _ {W : Type 0} (sys : System W) where
  says_serial : Option (List ℕ) → W → Answered W
  says_serial none w = overrun
  says_serial (some text) w = says text w

  with_serial : Option (Reply W) → Answered W
  unfolding serial_answer says_serial
  with_serial none = overrun
  with_serial (some r) = says_serial (serial_answer (cleared 14 r.bytes)) r.after

  -- A failed read is answered with what the cleared bytes hold.
  unfoldable pub broadcast_round : Datagram → W → Answered W
  unfolding with_serial read_serial_number c_str
  broadcast_round quiet w = silent w
  broadcast_round lost w = silent w
  broadcast_round (datagram bytes) w =
      if bytes_eq (c_str (take buffer_size bytes)) broadcast_call
      then with_serial (read_serial_number sys.machine.susi true w)
      else silent w

  then_sent : List ℕ → Option (List (List ℕ) × W) → Option (List (List ℕ) × W)
  then_sent text none = none
  then_sent text (some (texts, w)) = some (text ∷ texts, w)

  -- The loop over the rounds that come before `StopAll` is found set: what it sends, in order.
  unfoldable pub broadcast_listen : List Datagram → W → Option (List (List ℕ) × W)
  unfolding broadcast_round then_sent
  broadcast_listen [] w = some ([], w)
  broadcast_listen (d ∷ ds) w = elim (broadcast_round d w) [
    | silent w' ↦ broadcast_listen ds w'
    | says text w' ↦ then_sent text (broadcast_listen ds w')
    | overrun ↦ none
  ]

-- `pthread_exit` ends the thread that calls.
pub data Started : Type 0 where
  caller_ended : Started
  returned : Bool → Listening → Started

-- The second thread is only created after the first; the flags say which creations succeed.
unfoldable pub start_common_server : Bool → Bool → Listening → Started
start_common_server first second l =
    if l.thread_broadcast_listen || l.thread_listen
    then caller_ended
    else returned (first && second) (record l {
      stop_all = false;
      thread_broadcast_listen = first;
      thread_listen = first && second;
    })
