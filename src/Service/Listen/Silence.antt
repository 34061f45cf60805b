-- ===== src/Service/Listen/Silence.antt =====
-- Which datagrams the broadcast thread answers.
use softupdate.Prelude.{ℕ, ◌≡◌, refl, Bool, true, false, some, List, [], ◌∷◌, arith, bytes_eq, take}
use softupdate.Board.Hex.{c_str}
use softupdate.Service.State.{System}
use softupdate.Service.Listen.{
  Datagram, quiet, lost, datagram, broadcast_call, buffer_size, broadcast_round, broadcast_listen,
  Listening, start_common_server, caller_ended,
}

-- None of the datagrams is the call.
abbrev NoCall : List Datagram → Type 0
NoCall [] = ◌≡◌ {A = ℕ} 0 0
NoCall (quiet ∷ ds) = NoCall ds
NoCall (lost ∷ ds) = NoCall ds
NoCall (datagram bytes ∷ ds) =
    (bytes_eq (c_str (take buffer_size bytes)) broadcast_call ≡ false) × NoCall ds

-- Datagrams that are not the call are not answered, and nothing is read for them.
broadcast_listen_silent :
    {W : Type 0} (sys : System W) (ds : List Datagram) (w : W)
    → NoCall ds
    → broadcast_listen sys ds w ≡ some ([], w)
unfolding broadcast_listen broadcast_round
broadcast_listen_silent sys [] w k = refl
broadcast_listen_silent sys (quiet ∷ ds) w k = broadcast_listen_silent sys ds w k
broadcast_listen_silent sys (lost ∷ ds) w k = broadcast_listen_silent sys ds w k
broadcast_listen_silent sys (datagram bytes ∷ ds) w (other, ks) =
    rw (broadcast_listen, broadcast_round, other) (broadcast_listen_silent sys ds w ks)

-- A start while a thread is listening never returns to its caller, not even with a failure.
start_common_server_again :
    (first second : Bool) (l : Listening)
    → l.thread_listen ≡ true
    → start_common_server first second l ≡ caller_ended
unfolding start_common_server
start_common_server_again first second l running = ground (arith, running)
