-- ===== src/Client/Session/Outcomes.antt =====
-- What the waiting methods leave behind.
use softupdate.Prelude.{
  ℕ, ◌≡◌, refl, Bool, true, false, ◌&&◌, Option, none, some, List, [], ◌∷◌, if_both, option_both,
  if◌then◌else◌,
}
use softupdate.Client.Link.{
  Link, Action, stop_send_waiting, ◌then_do◌, reply, close_socket, stop_thread, disconnect_forcibly,
}
use softupdate.Client.Session.{
  connected, Wait, Attempt, disconnect, hang_up, ended, connect, attempted, on_socket, greeted,
  gave_up, fresh, set_is_connecting, set_keep_receiving,
}

close_socket-none : (l : Link) → (close_socket l).0.socket ≡ none
unfolding close_socket
close_socket-none l =
    option_both (λ (x : Link × List Action). x.0.socket ≡ none) l.socket _ _ (λ e. e) (λ s e. refl)

disconnect_forcibly-none : (l : Link) → (disconnect_forcibly l).0.socket ≡ none
unfolding disconnect_forcibly
disconnect_forcibly-none l =
    option_both (λ (x : Link × List Action). x.0.socket ≡ none) l.socket _ _ (λ e. e)
      (λ s e. close_socket-none (stop_thread l then_do reply true).0)

hang_up-none : (x : Link × List Action) → (hang_up x).1.0.socket ≡ none
unfolding hang_up
hang_up-none x = close_socket-none (x then_do reply true).0

-- A result that says it succeeded leaves no socket.
abbrev pub Closed : Bool × (Link × List Action) → Type 0
Closed x = x.0 ≡ true → x.1.0.socket ≡ none

ended-Closed : (wait : Wait) (l : Link) → Closed (ended wait l)
unfolding ended
ended-Closed wait l =
    if_both Closed wait.clock _ _
      (λ known.
        if_both Closed wait.woken _ _
          (λ woken done.
            hang_up-none (wait.meanwhile (set_keep_receiving false l), stop_send_waiting ∷ []))
          (λ late done. absurd (cc)))
      (λ unknown done. absurd (cc))

-- `Disconnect` that reports success leaves no socket, whether or not it had a thread to wait for.
pub disconnect-Closed :
    (wait : Wait) (l : Link) → (disconnect wait l).0 ≡ true → (disconnect wait l).1.0.socket ≡ none
unfolding disconnect
disconnect-Closed wait l =
    option_both Closed l.socket _ _ (λ e done. absurd (cc))
      (λ s e.
        if_both Closed l.has_receive_thread _ _ (λ runs. ended-Closed wait l)
          (λ alone done. hang_up-none (l, stop_send_waiting ∷ [])))

-- Not connected: no socket, and no connection being made.
abbrev pub IsIdle : Link → Type 0
IsIdle l = (l.socket ≡ none) × (l.isconnecting ≡ false)

abbrev pub IdleOnFailure : Bool × (Link × List Action) → Type 0
IdleOnFailure x = x.0 ≡ false → IsIdle x.1.0

greeted-IdleOnFailure : (wait : Wait) (l : Link) → IdleOnFailure (greeted wait l)
unfolding greeted gave_up set_is_connecting
greeted-IdleOnFailure wait l =
    if_both IdleOnFailure (wait.clock && wait.woken) _ _ (λ up failed. absurd (cc))
      (λ down failed. (disconnect_forcibly-none (if wait.clock then wait.meanwhile l else l), refl))

on_socket-IdleOnFailure :
    (a : Attempt) (s : ℕ) (l : Link) → l.socket ≡ none → IdleOnFailure (on_socket a s l)
unfolding on_socket gave_up set_is_connecting disconnect
on_socket-IdleOnFailure a s l free =
    if_both IdleOnFailure (connected a) _ _
      (λ up.
        if_both IdleOnFailure a.thread _ _
          (λ runs.
            greeted-IdleOnFailure a.wait (record l { socket = some s; has_receive_thread = true }))
          (λ alone failed. (
            hang_up-none
                (record l { socket = some s; has_receive_thread = false }, stop_send_waiting ∷ []),
            refl,
          )))
      (λ refused failed. (free, refl))

attempted-IdleOnFailure :
    (a : Attempt) (o : Option ℕ) (l : Link) → l.socket ≡ none → IdleOnFailure (attempted a o l)
unfolding attempted gave_up set_is_connecting
attempted-IdleOnFailure a none l free = λ failed. (free, refl)
attempted-IdleOnFailure a (some s) l free = on_socket-IdleOnFailure a s l free

-- A `Connect` that fails on a connection without a socket leaves it without one, and marked as
-- not being made, whichever call it was that failed and whatever other threads did during the wait
-- for the server's message.
pub connect-IsIdle :
    (a : Attempt) (l : Link) → l.socket ≡ none → (connect a l).0 ≡ false → IsIdle (connect a l).1.0
unfolding connect fresh
connect-IsIdle a l free =
    option_both IdleOnFailure l.socket _ _
      (λ e. attempted-IdleOnFailure a a.new_socket (fresh l) free) (λ s e. absurd (cc))
