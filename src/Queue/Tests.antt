-- ===== src/Queue/Tests.antt =====
-- A queue of two places.
use softupdate.Prelude.{ℕ, ◌≡◌, refl, true, false, some, none, List, [], ◌∷◌, arith}
use softupdate.Queue.{create, enqueue, dequeue}
use softupdate.Queue.Store.{ReceivedData, Heap, copy, write, new, set_next, load, set_pre, delete}
use softupdate.Queue.Runs.{
  Op, put, get, accepted, received, run, fifo_run, GoodAddresses, create-run,
}

abbrev event : ℕ → ReceivedData
event k = record { kind = k; len = 2; bytes = some (k ∷ k ∷ []) }

abbrev nothing : Heap
nothing p = none

abbrev calls : List Op
calls =
    put 10 (event 1)
    ∷ put 20 (event 2)
    ∷ put 30 (event 3)
    ∷ get
    ∷ put 10 (event 4)
    ∷ get
    ∷ get
    ∷ get
    ∷ []

calls_good : GoodAddresses calls (create 2) nothing
unfolding create enqueue dequeue write new set_next load set_pre delete
calls_good = (omega arith, refl, (omega arith, refl, (omega arith, refl, (omega arith, refl, tt))))

create-run_example : run calls (create 2) nothing ≡ some (fifo_run 2 [] calls)
create-run_example = create-run 2 calls nothing calls_good

fifo_answers :
    fifo_run 2 [] calls
    ≡ accepted true
      ∷ accepted true
      ∷ accepted false
      ∷ received (some (event 1))
      ∷ accepted true
      ∷ received (some (event 2))
      ∷ received (some (event 4))
      ∷ received none
      ∷ []
unfolding fifo_run copy
fifo_answers = refl
