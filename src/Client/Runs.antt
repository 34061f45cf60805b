-- ===== src/Client/Runs.antt =====
-- The executer's loop on two events, and a connection that is refused.
use softupdate.Prelude.{◌≡◌, ◌==◌, if◌then◌else◌, refl, true, false, some, none, [], ◌∷◌, arith}
use softupdate.Queue.{EventQueue}
use softupdate.Queue.Cells.{Cells, Holds}
use softupdate.Queue.Store.{Heap, ReceivedData, ok, node, null}
use softupdate.Client.Executer.{
  Executer, event, max_events_in_queue, do_events, delivered, do_events-delivered,
}
use softupdate.Client.Link.{Link}
use softupdate.Client.Session.{selected, Attempt, connect}
use softupdate.Client.Session.Outcomes.{IsIdle, connect-IsIdle}

abbrev apart : Link
apart = record {
  socket = none;
  has_receive_thread = false;
  keep_running_thread = false;
  isconnecting = false;
  send_succeeded = true;
  last_sent_bytes = none;
  last_sent_time = 100;
  reply_hashcode = none;
  received_type = 0;
  received_data = [];
}

-- The server does not answer within the time.
abbrev silent : Attempt
silent = record {
  new_socket = some 7;
  set_up = true ∷ true ∷ true ∷ true ∷ true ∷ true ∷ [];
  reached = selected true;
  blocking = true ∷ true ∷ [];
  thread = true;
  wait = record { clock = true; woken = false; meanwhile = λ l. l };
}

fails : (connect silent apart).0 ≡ false
unfolding connect
fails = refl

connect-IsIdle_example : IsIdle (connect silent apart).1.0
connect-IsIdle_example = connect-IsIdle silent apart refl fails

-- Two events wait.
abbrev first_event : ReceivedData
first_event = event 1 (5 ∷ [])

abbrev second_event : ReceivedData
second_event = event 2 []

abbrev two_cells : Heap
two_cells p =
    if p == 10
    then some (node first_event 20 null)
    else if p == 20
    then some (node second_event null 10)
    else none

abbrev waiting : EventQueue
waiting = record { first = 10; last = 20; count = 2; maxcount = max_events_in_queue }

abbrev cells : Cells
cells = (10, first_event) ∷ (20, second_event) ∷ []

waiting-Holds : Holds two_cells waiting cells
waiting-Holds = record {
  linked = (refl, (omega arith), ((omega arith), tt), (refl, (omega arith), tt, tt));
  first = refl;
  last = λ some_cells. refl;
  count = refl;
  bound = omega arith;
}

abbrev executer : Executer
executer = record { queue = waiting; keep_executing = true }

do_events-delivered_example :
    (q' : EventQueue) × (h' : Heap) × (do_events 3 executer two_cells
      ≡ ok (some (delivered cells), record executer { queue = q' }) h')
    × Holds h' q' []
do_events-delivered_example =
    do_events-delivered cells 3 executer two_cells waiting-Holds (omega arith)
