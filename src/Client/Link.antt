-- ===== src/Client/Link.antt =====
-- The state of a connection, and the methods of `ClientBase` that change it. A method that holds
-- a mutex for all it does is one step.
use softupdate.Prelude.{
  ℕ, ◌-◌, Bool, true, false, Option, none, some, List, [], ◌∷◌, ◌++◌, ltb, if◌then◌else◌, length,
  take, bytes_eq,
}
use softupdate.Client.Frame.{sealed, md5_hash, create_frame}

-- What the rest of the program and the other side see.
pub data Action : Type 0 where
  transmit : List ℕ → Action
  execute : ℕ → List ℕ → Action
  stop_send_waiting : Action
  stop_connect_waiting : Action
  stop_disconnect_waiting : Action
  stop_receive_waiting : Action
  shut_down : ℕ → Action
  close : ℕ → Action
  on_server_close : Action
  on_socket_error : Action

-- `none` for INVALID_SOCKET and for a null pointer; no received data is the empty list.
pub record Link : Type 0 where
  pub socket : Option ℕ
  pub has_receive_thread : Bool
  pub keep_running_thread : Bool
  pub isconnecting : Bool
  pub send_succeeded : Bool
  pub last_sent_bytes : Option (List ℕ)
  pub last_sent_time : ℕ
  pub reply_hashcode : Option (List ℕ)
  pub received_type : ℕ
  pub received_data : List ℕ

abbrev pub msg_data_correct : ℕ
msg_data_correct = 0

abbrev pub msg_data_error : ℕ
msg_data_error = 1

abbrev pub msg_connect : ℕ
msg_connect = 2

-- One method after another.
infixl 20 ◌then_do◌
abbrev pub ◌then_do◌ : Link × List Action → (Link → Link × List Action) → Link × List Action
x then_do f = let (l, actions) = f x.0 in (l, x.1 ++ actions)

-- The methods that the receiving thread asks, both false without a socket.
abbrev pub keep_receiving : Link → Bool
keep_receiving l = elim l.socket [ none ↦ false | some s ↦ l.keep_running_thread ]

abbrev pub is_send_succeeded : Link → Bool
is_send_succeeded l = elim l.socket [ none ↦ false | some s ↦ l.send_succeeded ]

unfoldable pub set_reply_hashcode : Option (List ℕ) → Link → Link × List Action
set_reply_hashcode none l = (record l { reply_hashcode = none }, [])
set_reply_hashcode (some hash) l = (record l { reply_hashcode = some (take 16 hash) }, [])

unfoldable pub set_received_data_and_type : List ℕ → Link → Link × List Action
set_received_data_and_type bytes l =
    (record l { received_type = 0; received_data = bytes }, stop_receive_waiting ∷ [])

unfoldable pub init_receive_data_and_type : ℕ → Link → Link × List Action
init_receive_data_and_type type l = (record l { received_type = type; received_data = [] }, [])

-- The answer to the frame whose hash is stored, once.
reply_to : Bool → Option ℕ → Option (List ℕ) → Link → Link × List Action
reply_to successful none hash l = (l, [])
reply_to successful (some s) none l = (l, [])
reply_to successful (some s) (some hash) l = (
  record l { reply_hashcode = none },
  transmit (sealed hash 0 (if successful then msg_data_correct else msg_data_error) []) ∷ [],
)

unfoldable pub reply : Bool → Link → Link × List Action
unfolding reply_to
reply successful l = reply_to successful l.socket l.reply_hashcode l

-- An answer counts where it carries the hash of the last frame sent: it wakes the sender, or the
-- frame is sent again.
unfoldable pub deal_with : List ℕ → Bool → Option (List ℕ) → Link → Link × List Action
deal_with hash is_succeeded none l = (l, [])
deal_with hash is_succeeded (some frame) l =
    if bytes_eq hash (md5_hash frame)
    then (if is_succeeded
        then (record l { send_succeeded = true }, stop_send_waiting ∷ [])
        else (l, transmit frame ∷ []))
    else (l, [])

unfoldable pub deal_reply_message : List ℕ → Bool → Link → Link × List Action
unfolding deal_with
deal_reply_message hash is_succeeded l = deal_with hash is_succeeded l.last_sent_bytes l

-- `shutdown` and `close`
unfoldable pub close_socket : Link → Link × List Action
close_socket l = elim l.socket [
  | none ↦ (l, [])
  | some s ↦ (record l { socket = none }, shut_down s ∷ [])
]

unfoldable pub stop_thread : Link → Link × List Action
stop_thread l = (
  if l.has_receive_thread then record l { keep_running_thread = false } else l,
  stop_send_waiting ∷ [],
)

unfoldable pub disconnect_forcibly : Link → Link × List Action
unfolding close_socket stop_thread reply
disconnect_forcibly l = elim l.socket [
  | none ↦ (l, [])
  | some s ↦ stop_thread l then_do reply true then_do close_socket
]

unfoldable pub raise_server_close_event : Link → Link × List Action
raise_server_close_event l = (l, if l.isconnecting then [] else on_server_close ∷ [])

unfoldable pub raise_socket_error_event : Link → Link × List Action
raise_socket_error_event l = (l, if l.isconnecting then [] else on_socket_error ∷ [])

-- Whether `Send` goes on to wait for the answer.
pub data Sending : Type 0 where
  failed : Sending
  waiting : Sending

send_frame : Option (List ℕ) → ℕ → Bool → Link → Sending × (Link × List Action)
send_frame none now sent l = (failed, (l, []))
send_frame (some frame) now sent l = (
  if sent then waiting else failed,
  (
    record l { last_sent_bytes = some frame; send_succeeded = false; last_sent_time = now },
    transmit frame ∷ [],
  ),
)

-- The tests before the frame: a socket, and no answer outstanding; after 30 seconds without one the
-- connection is given up.
unfoldable pub try_send :
    Option ℕ → Bool → Option (List ℕ) → ℕ → Bool → Link → Sending × (Link × List Action)
unfolding send_frame disconnect_forcibly raise_socket_error_event
try_send none free frame now sent l = (failed, (l, []))
try_send (some s) true frame now sent l = send_frame frame now sent l
try_send (some s) false frame now sent l =
    let late = disconnect_forcibly l then_do raise_socket_error_event in
    (failed, if ltb 30 (now - l.last_sent_time) then late else (l, []))

-- `Send` up to its wait, at the time `now`; `sent` says that the socket took the bytes.
unfoldable pub send :
    List ℕ → ℕ → Option (List ℕ) → ℕ → ℕ → Bool → Link → Sending × (Link × List Action)
unfolding try_send
send stack type bytes length now sent l =
    try_send l.socket l.send_succeeded (create_frame stack bytes length type) now sent l

-- A header by itself; the flag of `Send` is left alone.
simple_frame : Option (List ℕ) → Bool → Link → Bool × (Link × List Action)
simple_frame none sent l = (false, (l, []))
simple_frame (some frame) sent l = (sent, (l, transmit (take 32 frame) ∷ []))

unfoldable pub simple_send : List ℕ → ℕ → Bool → Link → Bool × (Link × List Action)
unfolding simple_frame create_frame
simple_send stack type sent l = elim l.socket [
  | none ↦ (false, (l, []))
  | some s ↦ simple_frame (create_frame stack none 0 type) sent l
]
