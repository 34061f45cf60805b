-- ===== src/Queue.antt =====
-- clientbase/eventqueue.h and eventqueue.cpp: the bounded queue of received events, a doubly
-- linked list of `DataNode`s on the heap. Every call holds the queue's mutex throughout, so a call
-- is one step.
pub mod Store
pub mod Cells
pub mod Links
pub mod Refines
pub mod Runs
mod Tests
use softupdate.Prelude.{
  ℕ, zero, suc, ◌+◌, ◌-◌, ◌≤◌, Bool, true, false, Option, none, some, leb, ◌==◌, if◌then◌else◌,
}
use Store.{Node, Run, ok, fault, ◌>>=◌, ◌>>◌, pure, load, new, set_next, set_pre, delete, null}
use Store.{ReceivedData, copy}

-- `EventQueue_180`, less the mutex.
pub record EventQueue : Type 0 where
  pub maxcount : ℕ
  pub count : ℕ
  pub first : ℕ
  pub last : ℕ

-- The constructor.
unfoldable pub create : ℕ → EventQueue
create size = record { maxcount = size; count = 0; first = null; last = null }

-- The branch on an empty queue. `fresh` is the address that `new DataNode` returns.
push_first : ℕ → ReceivedData → EventQueue → Run (Bool × EventQueue)
push_first fresh d q = do
  new fresh d null null
  pure (true, record q { first = fresh; last = fresh; count = q.count + 1 })

push_back : ℕ → ReceivedData → EventQueue → Run (Bool × EventQueue)
push_back fresh d q = do
  new fresh d null q.last
  set_next q.last fresh
  pure (true, record q { last = fresh; count = q.count + 1 })

unfoldable pub enqueue : ℕ → ReceivedData → EventQueue → Run (Bool × EventQueue)
unfolding push_first push_back
enqueue fresh d q =
    if leb q.maxcount q.count
    then pure (false, q)
    else if q.count == 0
    then push_first fresh d q
    else push_back fresh d q

-- `if(null != _first) _first->Pre = null`
clear_pre : ℕ → Run (Unit {0})
clear_pre p = if p == null then pure tt else set_pre p null

pop_first : EventQueue → Run (Option ReceivedData × EventQueue)
unfolding clear_pre
pop_first q = do
  n ← load q.first
  clear_pre n.next
  delete q.first
  pure (some (copy n.item), record q { first = n.next; count = q.count - 1 })

-- `none` is the null pointer that an empty queue returns.
unfoldable pub dequeue : EventQueue → Run (Option ReceivedData × EventQueue)
unfolding pop_first
dequeue q = if leb q.count 0 then pure (none, q) else pop_first q

unfoldable pub get_count : EventQueue → ℕ
get_count q = q.count

-- `while(null != tmp->Next) { tmp = tmp->Next; delete tmp->Pre; } delete tmp;` on fuel.
unfoldable pub destroy_from : ℕ → ℕ → Run (Unit {0})
destroy_from zero tmp h = fault
destroy_from (suc k) tmp h =
    (do
      n ← load tmp
      let rest = (do n' ← load n.next; delete n'.pre; destroy_from k n.next)
      if n.next == null then delete tmp else rest)
      h

-- The destructor: a list of `count` nodes takes `count` rounds.
unfoldable pub destroy : EventQueue → Run (Unit {0})
unfolding destroy_from
destroy q = if q.first == null then pure tt else destroy_from q.count q.first
