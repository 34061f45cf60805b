-- ===== src/Client/Session.antt =====
-- `Connect`, `SetSocket`, `Disconnect`, `Receive` and the end of `Send`: the methods that wait.
-- What other threads do to the connection during a wait is a function of its state.
use softupdate.Prelude.{
  ℕ, ◌≡◌, refl, Bool, true, false, not, ◌&&◌, ◌||◌, Option, none, some, List, [], ◌∷◌, ◌++◌, ltb,
  ◌==◌, if◌then◌else◌,
}
use softupdate.Client.Link.{
  Link, Action, stop_send_waiting, close, ◌then_do◌, reply, close_socket, disconnect_forcibly,
  init_receive_data_and_type, is_send_succeeded,
}
pub mod Outcomes

unfoldable pub set_is_send_succeeded : Bool → Link → Link
set_is_send_succeeded value l = record l { send_succeeded = value }

unfoldable pub set_keep_receiving : Bool → Link → Link
set_keep_receiving value l = record l { keep_running_thread = value }

unfoldable pub set_is_connecting : Bool → Link → Link
set_is_connecting value l = record l { isconnecting = value }

unfoldable pub set_last_sent_bytes : Option (List ℕ) → Link → Link
set_last_sent_bytes bytes l = record l { last_sent_bytes = bytes }

-- A wait on a condition: whether the clock could be read, whether the wait ended by a wake-up, and
-- what happened in between.
pub record Wait : Type 0 where
  pub clock : Bool
  pub woken : Bool
  pub meanwhile : Link → Link

-- `Send` behind its frame; without a number of seconds there is no limit.
unfoldable pub send_wait : Bool → Wait → Link → Bool
send_wait limited wait l =
    if limited && not wait.clock
    then false
    else if is_send_succeeded l
    then true
    else if limited || wait.woken
    then is_send_succeeded (wait.meanwhile l)
    else false

-- `Receive`: whether, and what is copied out.
unfoldable pub receive : ℕ → Wait → Link → Bool × (List ℕ × Link)
unfolding init_receive_data_and_type
receive type wait l =
    let asked = (init_receive_data_and_type type l).0 in
    let after = wait.meanwhile asked in
    if wait.clock
    then (if type == 0
        then (true, (asked.received_data, asked))
        else if wait.woken || (after.received_type == 0)
        then (true, (after.received_data, after))
        else (false, ([], after)))
    else (false, ([], asked))

-- The answer that is due, and the end of the socket.
hang_up : Link × List Action → Bool × (Link × List Action)
unfolding reply close_socket
hang_up x = (true, x then_do reply true then_do close_socket)

ended : Wait → Link → Bool × (Link × List Action)
unfolding hang_up set_keep_receiving
ended wait l =
    let after = wait.meanwhile (set_keep_receiving false l) in
    if wait.clock
    then (if wait.woken
        then hang_up (after, stop_send_waiting ∷ [])
        else (false, (after, stop_send_waiting ∷ [])))
    else (false, (l, stop_send_waiting ∷ []))

unfoldable pub disconnect : Wait → Link → Bool × (Link × List Action)
unfolding hang_up ended
disconnect wait l = elim l.socket [
  | none ↦ (false, (l, []))
  | some s ↦ if l.has_receive_thread then ended wait l else hang_up (l, stop_send_waiting ∷ [])
]

abbrev pub disconnect_failed : ℕ
disconnect_failed = 1

abbrev pub create_thread_failed : ℕ
create_thread_failed = 2

abbrev pub set_socket_opt_failed : ℕ
set_socket_opt_failed = 3

-- The calls on a socket that is taken over: its options, and the thread.
start_receiving : ℕ → Bool → Bool → Link × List Action → ℕ × (Link × List Action)
unfolding set_keep_receiving
start_receiving new_socket options thread (l, actions) =
    let owned = record l { socket = some new_socket } in
    if options
    then (if thread
        then (0, (record (set_keep_receiving true owned) { has_receive_thread = true }, actions))
        else (
          create_thread_failed,
          (
            record (set_keep_receiving true owned) { socket = none; has_receive_thread = false },
            actions,
          ),
        ))
    else (set_socket_opt_failed, (owned, actions))

unfoldable pub set_socket : ℕ → Wait → Bool → Bool → Link → ℕ × (Link × List Action)
unfolding disconnect start_receiving
set_socket new_socket wait options thread l = elim l.socket [
  | none ↦ start_receiving new_socket options thread (l, [])
  | some s ↦
      if (disconnect wait l).0
      then start_receiving new_socket options thread (disconnect wait l).1
      else (disconnect_failed, (disconnect wait l).1)
]

-- `connect` on a socket that does not block: done, under way, so that `select` tells within five
-- seconds, or refused.
pub data Reached : Type 0 where
  at_once : Reached
  selected : Bool → Reached
  refused : Reached

abbrev pub is_reached : Reached → Bool
is_reached at_once = true
is_reached (selected ready) = ready
is_reached refused = false

abbrev pub all_succeed : List Bool → Bool
all_succeed [] = true
all_succeed (b ∷ bs) = b && all_succeed bs

-- The calls of `Connect`: the new socket; the `setsockopt` calls for its buffers, its device and
-- keepalive, and the `fcntl` calls that make it non-blocking; the connection; the `fcntl` calls that
-- make it blocking again; the thread; the wait for the server's first message.
pub record Attempt : Type 0 where
  pub new_socket : Option ℕ
  pub set_up : List Bool
  pub reached : Reached
  pub blocking : List Bool
  pub thread : Bool
  pub wait : Wait

gave_up : Link × List Action → Bool × (Link × List Action)
unfolding set_is_connecting
gave_up (l, actions) = (false, (set_is_connecting false l, actions))

greeted : Wait → Link → Bool × (Link × List Action)
unfolding gave_up disconnect_forcibly set_is_connecting
greeted wait l =
    if wait.clock && wait.woken
    then (true, (set_is_connecting false (wait.meanwhile l), []))
    else gave_up (disconnect_forcibly (if wait.clock then wait.meanwhile l else l))

-- Whichever of these calls fails first, the socket is closed and nothing more is tried.
abbrev pub connected : Attempt → Bool
connected a = all_succeed a.set_up && (is_reached a.reached && all_succeed a.blocking)

on_socket : Attempt → ℕ → Link → Bool × (Link × List Action)
unfolding gave_up greeted disconnect
on_socket a s l =
    if connected a
    then (if a.thread
        then greeted a.wait (record l { socket = some s; has_receive_thread = true })
        else gave_up
            (disconnect a.wait (record l { socket = some s; has_receive_thread = false })).1)
    else gave_up (l, close s ∷ [])

-- The state of a connection that is to begin.
unfoldable pub fresh : Link → Link
fresh l = record l {
  last_sent_bytes = none;
  send_succeeded = true;
  reply_hashcode = none;
  keep_running_thread = true;
  isconnecting = true;
}

attempted : Attempt → Option ℕ → Link → Bool × (Link × List Action)
unfolding gave_up on_socket
attempted a none l = gave_up (l, [])
attempted a (some s) l = on_socket a s l

unfoldable pub connect : Attempt → Link → Bool × (Link × List Action)
unfolding attempted fresh gave_up
connect a l = elim l.socket [ none ↦ attempted a a.new_socket (fresh l) | some s ↦ gave_up (l, []) ]
