-- ===== src/Client/Executer.antt =====
-- clientbase/eventexecuter.cpp: received events wait in a queue until a thread of their own hands
-- them to `OnReceived`.
use softupdate.Prelude.{
  ℕ, zero, suc, ◌<◌, ◌≡◌, refl, ap, ◌∙◌, Bool, true, Option, none, some, List, [], ◌∷◌, arith, ltb,
  if◌then◌else◌, length,
}
use softupdate.Queue.{EventQueue, create, enqueue, dequeue}
use softupdate.Queue.Store.{Outcome, Run, Heap, ok, fault, ◌>>=◌, pure, ReceivedData, copy}
use softupdate.Queue.Cells.{Cells, Holds}
use softupdate.Queue.Refines.{dequeue_empty, dequeue-some}

-- `EventExecuter`: its queue, and whether its thread is to go on.
pub record Executer : Type 0 where
  pub queue : EventQueue
  pub keep_executing : Bool

abbrev pub max_events_in_queue : ℕ
max_events_in_queue = 256

unfoldable pub event_executer : Executer
unfolding create
event_executer = record { queue = create max_events_in_queue; keep_executing = true }

unfoldable pub set_keep_executing : Bool → Executer → Executer
set_keep_executing value e = record e { keep_executing = value }

-- An event that does not fit is dropped.
unfoldable pub execute_event : ℕ → ReceivedData → Executer → Run Executer
unfolding enqueue
execute_event fresh d e = do r ← enqueue fresh d e.queue; pure (record e { queue = r.1 })

-- `ClientBase::Execute`: the bytes are copied where there are any.
abbrev pub event : ℕ → List ℕ → ReceivedData
event type bytes = record {
  kind = type;
  len = length bytes;
  bytes = if ltb 0 (length bytes) then some bytes else none;
}

-- `none` where there is nothing to do; else what `OnReceived` is called with.
event_from :
    Executer → Outcome (Option ReceivedData × EventQueue) → Outcome (Option ReceivedData × Executer)
event_from e (ok (d, q) h) = ok (d, record e { queue = q }) h
event_from e fault = fault

unfoldable pub do_event : Executer → Run (Option ReceivedData × Executer)
unfolding dequeue event_from
do_event e h = event_from e (dequeue e.queue h)

with_event :
    ReceivedData
    → Outcome (Option (List ReceivedData) × Executer)
    → Outcome (Option (List ReceivedData) × Executer)
with_event d (ok (none, e) h) = ok (none, e) h
with_event d (ok (some ds, e) h) = ok (some (d ∷ ds), e) h
with_event d fault = fault

-- The inner loop of `ExcuteThread`, with the events in the order of their calls; `none` out of
-- fuel.
unfoldable pub do_events : ℕ → Executer → Run (Option (List ReceivedData) × Executer)
unfolding with_event
do_events zero e h = ok (none, e) h
do_events (suc fuel) e h = elim (do_event e h) [
  | fault ↦ fault
  | ok r h' ↦ elim r.0 [
    | none ↦ ok (some [], r.1) h'
    | some d ↦ with_event d (do_events fuel r.1 h')
  ]
]

abbrev pub delivered : Cells → List ReceivedData
delivered [] = []
delivered (c ∷ cs) = copy c.1 ∷ delivered cs

event_done :
    (e : Executer) (q : EventQueue) (o : Option ReceivedData) (h h' : Heap)
    → dequeue e.queue h ≡ ok (o, q) h'
    → do_event e h ≡ ok (o, record e { queue = q }) h'
unfolding do_event event_from
event_done e q o h h' got = ap (event_from e) got

loop_ends :
    (fuel : ℕ) (e e' : Executer) (h h' : Heap)
    → do_event e h ≡ ok (none, e') h'
    → do_events (suc fuel) e h ≡ ok (some [], e') h'
unfolding do_events
loop_ends fuel e e' h h' got = rw (do_events, got) refl

loop_goes :
    (fuel : ℕ) (e e' : Executer) (d : ReceivedData) (h h' : Heap)
    → do_event e h ≡ ok (some d, e') h'
    → do_events (suc fuel) e h ≡ with_event d (do_events fuel e' h')
unfolding do_events
loop_goes fuel e e' d h h' got = rw (do_events, got) refl

-- The executer's loop, with no events coming in meanwhile, ends after one round more than there are
-- events in the queue: it has handed them all over, oldest first, and leaves the queue empty.
pub do_events-delivered :
    (cs : Cells) (fuel : ℕ) (e : Executer) (h : Heap)
    → Holds h e.queue cs
    → length cs < fuel
    → (q' : EventQueue) × (h' : Heap) × (do_events fuel e h
        ≡ ok (some (delivered cs), record e { queue = q' }) h')
      × Holds h' q' []
unfolding with_event
do_events-delivered cs zero e h v n = absurd (omega arith)
do_events-delivered [] (suc fuel) e h v n = (
  e.queue,
  h,
  loop_ends fuel e e h h (event_done e e.queue none h h (dequeue_empty e.queue h v)),
  v,
)
do_events-delivered ((p, d) ∷ cs) (suc fuel) e h v n =
    let (q', h', popped, v', freed, m) = dequeue-some e.queue h p d cs v in
    let next = record e { queue = q' } in
    let (q'', h'', ran, v'') = do_events-delivered cs fuel next h' v' (omega arith) in
    (
      q'',
      h'',
      loop_goes fuel e next (copy d) h h' (event_done e q' (some (copy d)) h h' popped)
          ∙ ap (with_event (copy d)) ran,
      v'',
    )
