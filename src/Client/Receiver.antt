-- ===== src/Client/Receiver.antt =====
-- `ReceiveThread`, one turn of its inner loops at a time: what `select` and `recv` answer is an
-- event, and the bytes that the peer has sent wait in the inbox.
use softupdate.Prelude.{
  ℕ, zero, suc, ◌+◌, ◌-◌, ◌≤◌, min, Bool, true, false, ◌&&◌, Option, none, some, List, [], ◌∷◌,
  ◌++◌, ltb, leb, ◌==◌, if◌then◌else◌, length, take, drop, bytes_eq,
}
use softupdate.Md5.Context.{md_bytes}
use softupdate.Client.Frame.{app_flag, md5_hash, data_length_of, type_of}
use softupdate.Client.Link.{
  Link, Action, execute, stop_connect_waiting, stop_disconnect_waiting, ◌then_do◌, keep_receiving,
  set_reply_hashcode, set_received_data_and_type, reply, deal_reply_message, disconnect_forcibly,
  raise_server_close_event, raise_socket_error_event, msg_data_correct, msg_data_error, msg_connect,
}
pub mod Delivery
pub mod Frames
pub mod Safety

-- `unsigned char buffer[MAX_SIZE_OF_PACKET * 2]`
abbrev pub buffer_size : ℕ
buffer_size = 65536

-- The bytes read so far of a header, or of the data behind one. `overrun` is a `recv` that writes
-- past the buffer.
pub data Phase : Type 0 where
  in_header : List ℕ → Phase
  in_data : List ℕ → List ℕ → Phase
  stopped : Phase
  overrun : Phase

-- `ready k`: data is there, and `recv` takes `k + 1` bytes of it where so many are asked for and
-- there.
pub data Event : Type 0 where
  silence : Event
  select_error : Event
  recv_error : Event
  peer_closed : Event
  ready : ℕ → Event

pub record Thread : Type 0 where
  pub phase : Phase
  pub inbox : List ℕ
  pub link : Link

-- `strncmp(APP_FLAG, header->AppFlag, strlen(APP_FLAG))`
abbrev pub flag_ok : List ℕ → Bool
flag_ok header = bytes_eq (take 5 (drop 16 header)) app_flag

-- Data of the type that `Receive` waits for is kept, any other is passed to the executer.
unfoldable pub dispatch : ℕ → List ℕ → Link → Link × List Action
unfolding set_received_data_and_type
dispatch type bytes l =
    if type == l.received_type
    then set_received_data_and_type bytes l
    else (l, execute type bytes ∷ [])

-- All the data is there: check it and answer.
unfoldable pub finish : List ℕ → List ℕ → List ℕ → Link → Link × List Action
unfolding dispatch set_reply_hashcode reply
finish stack header bytes l =
    if bytes_eq (md_bytes stack (drop 16 header ++ bytes)) (md5_hash header)
    then set_reply_hashcode (some (md5_hash header)) l
      then_do dispatch (type_of header) bytes
      then_do reply true
    else set_reply_hashcode (some (md5_hash header)) l then_do reply false

-- What follows a header, with the phase that the thread is in then.
unfoldable pub on_header : List ℕ → List ℕ → Link → Phase × (Link × List Action)
unfolding finish deal_reply_message type_of data_length_of
on_header stack header l =
    let type = type_of header in
    if flag_ok header
    then (if type == msg_data_correct
        then (in_header [], deal_reply_message (md5_hash header) true l)
        else if type == msg_data_error
        then (in_header [], deal_reply_message (md5_hash header) false l)
        else if type == msg_connect
        then (in_header [], (l, stop_connect_waiting ∷ []))
        else if data_length_of header == 0
        then (in_header [], finish stack header [] l)
        else (in_data header [], (l, [])))
    else (in_header [], (l, []))

-- `readlength` has reached what is asked for, or not.
after_header : List ℕ → List ℕ → Link → Phase × (Link × List Action)
unfolding on_header
after_header stack got l =
    if ltb (length got) 32 then (in_header got, (l, [])) else on_header stack got l

after_data : List ℕ → List ℕ → List ℕ → Link → Phase × (Link × List Action)
unfolding finish
after_data stack header got l =
    if ltb buffer_size (32 + length got)
    then (overrun, (l, []))
    else if ltb (length got) (data_length_of header)
    then (in_data header got, (l, []))
    else (in_header [], finish stack header got l)

abbrev pub advance : Phase × (Link × List Action) → List ℕ → Thread × List Action
advance (p, (l, actions)) rest = (record { phase = p; inbox = rest; link = l }, actions)

-- `recv` of at most `asked` bytes.
deliver : List ℕ → Phase → ℕ → List ℕ → Link → Thread × List Action
unfolding after_header after_data
deliver stack (in_header got) k inbox l =
    let n = min (suc k) (32 - length got) in
    advance (after_header stack (got ++ take n inbox) l) (drop n inbox)
deliver stack (in_data header got) k inbox l =
    let n = min (suc k) (data_length_of header - length got) in
    advance (after_data stack header (got ++ take n inbox) l) (drop n inbox)
deliver stack p k inbox l = (record { phase = p; inbox = inbox; link = l }, [])

-- The thread ends: the other threads hear of it.
leave : List ℕ → Link × List Action → Thread × List Action
leave inbox (l, actions) =
    (record { phase = stopped; inbox = inbox; link = l }, actions ++ (stop_disconnect_waiting ∷ []))

react : List ℕ → Event → Phase → List ℕ → Link → Thread × List Action
unfolding deliver leave disconnect_forcibly raise_server_close_event raise_socket_error_event
react stack silence p inbox l = (record { phase = p; inbox = inbox; link = l }, [])
react stack select_error p inbox l =
    leave inbox (disconnect_forcibly l then_do raise_server_close_event)
react stack recv_error p inbox l =
    leave inbox (disconnect_forcibly l then_do raise_socket_error_event)
react stack peer_closed p inbox l =
    leave inbox (disconnect_forcibly l then_do raise_server_close_event)
react stack (ready k) p inbox l = deliver stack p k inbox l

-- One turn; a thread that has ended, or whose buffer has been overrun, takes none.
turn : List ℕ → Event → Phase → List ℕ → Link → Thread × List Action
unfolding react leave
turn stack e stopped inbox l = (record { phase = stopped; inbox = inbox; link = l }, [])
turn stack e overrun inbox l = (record { phase = overrun; inbox = inbox; link = l }, [])
turn stack e p inbox l = if keep_receiving l then react stack e p inbox l else leave inbox (l, [])

unfoldable pub step : List ℕ → Event → Thread → Thread × List Action
unfolding turn
step stack e t = turn stack e t.phase t.inbox t.link

unfoldable pub run : List ℕ → List Event → Thread → Thread × List Action
unfolding step
run stack [] t = (t, [])
run stack (e ∷ es) t =
    let (t1, actions) = step stack e t in let (t2, more) = run stack es t1 in (t2, actions ++ more)
