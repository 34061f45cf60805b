-- ===== src/Queue/Runs.antt =====
-- Any sequence of calls on one queue answers as a bounded first-in first-out queue does.
use softupdate.Prelude.{
  ℕ, ◌≡◌, ◌≢◌, refl, ap, sym, ◌∙◌, inl, inr, Bool, true, false, Option, none, some, List, [], ◌∷◌,
  ◌++◌, map, arith, length, leb, if◌then◌else◌, Bool-cases, length-map, ltb, length-take, take-all,
  take,
}
use mathlib.Core.List.{map-append}
use softupdate.Queue.{EventQueue, enqueue, dequeue, create}
use softupdate.Queue.Store.{ReceivedData, Heap, null, copy, Outcome, ok, fault}
use softupdate.Queue.Cells.{Cells, Apart, Linked, Holds, items}
use softupdate.Queue.Refines.{enqueue_full, enqueue_room, dequeue_empty, dequeue-some}

-- A call, with the address that `new` returns in it.
pub data Op : Type 0 where
  put : ℕ → ReceivedData → Op
  get : Op

pub data Reply : Type 0 where
  accepted : Bool → Reply
  received : Option ReceivedData → Reply

-- Go on with what the call returned; a fault ends the run.
abbrev then_on {ℓ} :
    {A : Type 0} {B : Type ℓ} → Outcome (A × EventQueue) → B → (A → EventQueue → Heap → B) → B
then_on (ok (a, q) h) b k = k a q h
then_on fault b k = b

abbrev cons : Reply → Option (List Reply) → Option (List Reply)
cons r none = none
cons r (some rs) = some (r ∷ rs)

-- The answers of the calls in order; `none` if one of them faults.
unfoldable pub run : List Op → EventQueue → Heap → Option (List Reply)
run [] q h = some []
run (put p d ∷ ops) q h =
    then_on (enqueue p d q h) none (λ b q' h'. cons (accepted b) (run ops q' h'))
run (get ∷ ops) q h = then_on (dequeue q h) none (λ o q' h'. cons (received o) (run ops q' h'))

-- `new` returns an address that is not null and at which nothing lies.
abbrev pub GoodAddresses : List Op → EventQueue → Heap → Type 0
GoodAddresses [] q h = Unit {0}
GoodAddresses (put p d ∷ ops) q h =
    (p ≢ null)
    × (h p ≡ none)
    × then_on (enqueue p d q h) (Unit {0}) (λ b q' h'. GoodAddresses ops q' h')
GoodAddresses (get ∷ ops) q h =
    then_on (dequeue q h) (Unit {0}) (λ o q' h'. GoodAddresses ops q' h')

-- The specification: at most `max` entries, the oldest first, each handed out as a copy.
unfoldable pub fifo_run : ℕ → List ReceivedData → List Op → List Reply
fifo_run max xs [] = []
fifo_run max xs (put p d ∷ ops) =
    let room = leb max (length xs) in
    accepted (if room then false else true) ∷ fifo_run max (if room then xs else xs ++ (d ∷ [])) ops
fifo_run max [] (get ∷ ops) = received none ∷ fifo_run max [] ops
fifo_run max (x ∷ xs) (get ∷ ops) = received (some (copy x)) ∷ fifo_run max xs ops

copied_twice :
    (n : ℕ) (b : Option (List ℕ))
    → (let k = λ (o : Option (List ℕ)).
          if ltb 0 n then elim o [ none ↦ none | some l ↦ some (take n l) ] else none in
        k (k b) ≡ k b)
copied_twice n none = ground arith
copied_twice n (some l) = ground (arith, take-all (take n l) n (omega (arith, length-take n l)))

copy-copy : (d : ReceivedData) → copy (copy d) ≡ copy d
unfolding copy
copy-copy d = ap (λ b. record d { bytes = b }) (copied_twice d.len d.bytes)

Apart-of_unused : (h : Heap) (pre p : ℕ) (cs : Cells) → Linked h pre cs → h p ≡ none → Apart p cs
Apart-of_unused h pre p [] l free = tt
Apart-of_unused h pre p ((q, d) ∷ cs) l free =
    ((λ e. cc (ap h e, l.0)), Apart-of_unused h q p cs l.3 free)

length-items :
    (cs : Cells) (xs : List ReceivedData) → items cs ≡ map copy xs → length cs ≡ length xs
length-items cs xs same =
    omega (arith, ap length same, length-map cs (λ c. c.1), length-map xs copy)

module _ (ops : List Op) (q : EventQueue) (h : Heap) (cs : Cells) (xs : List ReceivedData)
    (v : Holds h q cs) (same : items cs ≡ map copy xs)
    (rest : (q' : EventQueue) (h' : Heap) (cs' : Cells) (xs' : List ReceivedData)
      → Holds h' q' cs'
      → items cs' ≡ map copy xs'
      → GoodAddresses ops q' h'
      → run ops q' h' ≡ some (fifo_run q'.maxcount xs' ops)) where
  items-append :
      (p : ℕ) (d : ReceivedData) → items (cs ++ ((p, copy d) ∷ [])) ≡ map copy (xs ++ (d ∷ []))
  items-append p d =
      map-append (λ c. c.1) cs ((p, copy d) ∷ [])
      ∙ ap (λ t. t ++ (copy d ∷ [])) same
      ∙ sym (map-append copy xs (d ∷ []))

  answers_put :
      (p : ℕ) (d : ReceivedData)
      → GoodAddresses (put p d ∷ ops) q h
      → run (put p d ∷ ops) q h ≡ some (fifo_run q.maxcount xs (put p d ∷ ops))
  unfolding run fifo_run
  answers_put p d good = elim (Bool-cases (leb q.maxcount (length xs))) [
    | inl full ↦
        let e : enqueue p d q h ≡ ok (false, q) h =
          enqueue_full p d q h cs v (ground (arith, length-items cs xs same, v.bound)) in
        rw (full, e) (ap (cons (accepted false)) (rest q h cs xs v same (rw e at (good.2))))
    | inr room ↦
        let (q', h', e, v', m) =
          enqueue_room p d q h cs v good.0 (Apart-of_unused h null p cs v.linked good.1)
            (ground (arith, length-items cs xs same)) in
        rw (room, e)
          (ap (cons (accepted true)) (
            rest q' h' (cs ++ ((p, copy d) ∷ [])) (xs ++ (d ∷ [])) v' (items-append p d)
              (rw e at (good.2))
            ∙ ap (λ k. some (fifo_run k (xs ++ (d ∷ [])) ops)) m))
  ]

-- From a queue that holds copies of `xs`, any calls answer as the bounded queue does, and none
-- of them faults.
pub run-eq-fifo_run :
    (ops : List Op) (q : EventQueue) (h : Heap) (cs : Cells) (xs : List ReceivedData)
    → Holds h q cs
    → items cs ≡ map copy xs
    → GoodAddresses ops q h
    → run ops q h ≡ some (fifo_run q.maxcount xs ops)
unfolding run fifo_run
run-eq-fifo_run [] q h cs xs v same good = refl
run-eq-fifo_run (put p d ∷ ops) q h cs xs v same good =
    answers_put ops q h cs xs v same (run-eq-fifo_run ops) p d good
run-eq-fifo_run (get ∷ ops) q h [] [] v same good =
    let e : dequeue q h ≡ ok (none, q) h = dequeue_empty q h v in
    rw e (ap (cons (received none)) (run-eq-fifo_run ops q h [] [] v same (rw e at good)))
run-eq-fifo_run (get ∷ ops) q h [] (x ∷ xs) v same good = cc
run-eq-fifo_run (get ∷ ops) q h (c ∷ cs) [] v same good = cc
run-eq-fifo_run (get ∷ ops) q h ((p, d) ∷ cs) (x ∷ xs) v same good =
    let (q', h', e, v', freed, m) = dequeue-some q h p d cs v in
    rw e (
      ap (cons (received (some (copy d)))) (
        run-eq-fifo_run ops q' h' cs xs v' (cc) (rw e at good)
        ∙ ap (λ k. some (fifo_run k xs ops)) m)
      ∙ ap (λ t. some (received (some t) ∷ fifo_run q.maxcount xs ops))
          (ap copy (cc) ∙ copy-copy x))

-- From a new queue of any size, where `new` gives addresses that are not in use, any calls of
-- `Enqueue` and `Dequeue` answer as the bounded first-in first-out list does, and none of them
-- follows a null or dangling pointer.
pub create-run :
    (size : ℕ) (ops : List Op) (h : Heap)
    → GoodAddresses ops (create size) h
    → run ops (create size) h ≡ some (fifo_run size [] ops)
unfolding create
create-run size ops h good =
    run-eq-fifo_run ops (create size) h [] []
      (record {
        linked = tt;
        first = refl;
        last = λ s. absurd (s refl);
        count = refl;
        bound = omega arith;
      })
      refl good
