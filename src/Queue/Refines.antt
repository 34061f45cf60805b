-- ===== src/Queue/Refines.antt =====
-- `Enqueue`, `Dequeue` and the destructor on a well-linked heap: no fault, and the effect of each.
use softupdate.Prelude.{
  ℕ, ◌+◌, ◌-◌, ◌<◌, ◌≡◌, ◌≢◌, refl, sym, ◌∙◌, true, false, Option, none, some, [], ◌∷◌, ◌++◌, arith,
  length, ◌==◌, length-append, leb,
}
use softupdate.Queue.{EventQueue, enqueue, dequeue, push_first, push_back, pop_first, clear_pre}
use softupdate.Queue.Store.{
  ReceivedData, Node, node, Heap, write, null, copy, Run, ok, ◌>>=◌, load, delete, new, set_next,
  set_pre,
}
use softupdate.Queue.Cells.{
  Cells, head_of, last_of, Apart, Holds, last_node, last_of-append, Apart-last,
}
use softupdate.Queue.Links.{Linked-append, Linked-rest}

write_self : (h : Heap) (p : ℕ) (c : Option Node) → write h p c p ≡ c
unfolding write
write_self h p c = ground arith

write_ne : (h : Heap) (p a : ℕ) (c : Option Node) → a ≢ p → write h p c a ≡ h a
unfolding write
write_ne h p a c ne = ground (arith, ne)

bind_ok :
    {A B : Type 0} (m : Run A) (f : A → Run B) {h h' : Heap} {a : A}
    → m h ≡ ok a h'
    → (m >>= f) h ≡ f a h'
bind_ok m f e = rw (e, ◌>>=◌)

-- What the pointer operations do where the pointer is good.
load_lem : (p : ℕ) (h : Heap) (n : Node) → p ≢ null → h p ≡ some n → load p h ≡ ok n h
unfolding load
load_lem p h n real e = ground (arith, real, e)

set_next_lem :
    (p q : ℕ) (h : Heap) (n : Node)
    → p ≢ null
    → h p ≡ some n
    → set_next p q h ≡ ok tt (write h p (some (record n { next = q })))
unfolding set_next
set_next_lem p q h n real e = ground (arith, real, e)

set_pre_lem :
    (p q : ℕ) (h : Heap) (n : Node)
    → p ≢ null
    → h p ≡ some n
    → set_pre p q h ≡ ok tt (write h p (some (record n { pre = q })))
unfolding set_pre
set_pre_lem p q h n real e = ground (arith, real, e)

delete_lem :
    (p : ℕ) (h : Heap) (n : Node) → p ≢ null → h p ≡ some n → delete p h ≡ ok tt (write h p none)
unfolding delete
delete_lem p h n real e = ground (arith, real, e)

push_back_lem :
    (fresh l : ℕ) (d : ReceivedData) (q : EventQueue) (h : Heap) (n : Node)
    → q.last ≡ l
    → l ≢ null
    → l ≢ fresh
    → h l ≡ some n
    → push_back fresh d q h
      ≡ ok
          (true, record q { last = fresh; count = q.count + 1 })
          (write (write h fresh (some (node (copy d) null l))) l (some (record n { next = fresh })))
unfolding push_back new
push_back_lem fresh l d q h n at_last real apart here = rw at_last (
    bind_ok (set_next l fresh) _ (
      set_next_lem l fresh (write h fresh (some (node (copy d) null l))) n real
        (write_ne h fresh l (some (node (copy d) null l)) apart ∙ here)))

pop_only_lem :
    (q : EventQueue) (h : Heap) (p : ℕ) (d : ReceivedData)
    → q.first ≡ p
    → p ≢ null
    → h p ≡ some (node d null null)
    → pop_first q h
      ≡ ok (some (copy d), record q { first = null; count = q.count - 1 }) (write h p none)
unfolding pop_first clear_pre
pop_only_lem q h p d at_first real here = rw at_first (
    bind_ok (load p) _ (load_lem p h (node d null null) real here)
    ∙ bind_ok (delete p) _ (delete_lem p h (node d null null) real here))

pop_first_lem :
    (q : EventQueue) (h : Heap) (p r : ℕ) (d : ReceivedData) (n : Node)
    → q.first ≡ p
    → p ≢ null
    → h p ≡ some (node d r null)
    → r ≢ null
    → p ≢ r
    → h r ≡ some n
    → pop_first q h
      ≡ ok
          (some (copy d), record q { first = r; count = q.count - 1 })
          (write (write h r (some (record n { pre = null }))) p none)
unfolding pop_first clear_pre
pop_first_lem q h p r d n at_first real here real' apart here' = rw at_first (
    bind_ok (load p) _ (load_lem p h (node d r null) real here)
    ∙ bind_ok (clear_pre r) _ (rw not_null (set_pre_lem r null h n real' here'))
    ∙ bind_ok (delete p) _ (
        delete_lem p (write h r (some (record n { pre = null }))) (node d r null) real
          (write_ne h r p (some (record n { pre = null })) apart ∙ here)))
  where
    not_null : (r == null) ≡ false
    not_null = ground (arith, real')

-- A full queue refuses, and nothing changes.
pub enqueue_full :
    (fresh : ℕ) (d : ReceivedData) (q : EventQueue) (h : Heap) (cs : Cells)
    → Holds h q cs
    → length cs ≡ q.maxcount
    → enqueue fresh d q h ≡ ok (false, q) h
unfolding enqueue
enqueue_full fresh d q h cs v full = ground (arith, v.count)

snoc_ne_nil : (cs : Cells) (c : ℕ × ReceivedData) → (cs ++ (c ∷ [])) ≢ []
snoc_ne_nil [] c e = cc
snoc_ne_nil (x ∷ cs) c e = cc

-- Otherwise a copy goes behind the last node.
pub enqueue_room :
    (fresh : ℕ) (d : ReceivedData) (q : EventQueue) (h : Heap) (cs : Cells)
    → Holds h q cs
    → fresh ≢ null
    → Apart fresh cs
    → length cs < q.maxcount
    → (q' : EventQueue) × (h' : Heap) × (enqueue fresh d q h ≡ ok (true, q') h')
      × Holds h' q' (cs ++ ((fresh, copy d) ∷ []))
      × (q'.maxcount ≡ q.maxcount)
unfolding enqueue push_first new
enqueue_room fresh d q h [] v nonnull apart room = (
  record q { first = fresh; last = fresh; count = q.count + 1 },
  write h fresh (some (node (copy d) null null)),
  rw (room_test, empty_test) refl,
  record {
    linked = (write_self h fresh _, nonnull, tt, tt);
    first = refl;
    last = λ _. refl;
    count = omega (arith, v.count);
    bound = omega arith;
  },
  refl,
)
  where
    room_test : leb q.maxcount q.count ≡ false
    room_test = ground (arith, v.count)

    empty_test : (q.count == 0) ≡ true
    empty_test = ground (arith, v.count)
enqueue_room fresh d q h ((p, e) ∷ cs) v nonnull apart room =
    let (n, here, real, _) = last_node h null p e cs v.linked in
    let at_last : q.last ≡ last_of p cs = v.last (λ s. cc) in
    (
      record q { last = fresh; count = q.count + 1 },
      write (write h fresh (some (node (copy d) null (last_of p cs)))) (last_of p cs)
          (some (record n { next = fresh })),
      rw (room_test, busy_test)
          (push_back_lem fresh (last_of p cs) d q h n at_last real
            (λ s. Apart-last fresh p cs apart.0 apart.1 (sym s)) here),
      record {
        linked = Linked-append h null p fresh e (copy d) cs n v.linked apart nonnull here;
        first = v.first;
        last = λ _. sym (last_of-append p fresh (copy d) cs);
        count = omega (arith, v.count, length-append ((p, e) ∷ cs) ((fresh, copy d) ∷ []));
        bound = omega (arith, length-append ((p, e) ∷ cs) ((fresh, copy d) ∷ []));
      },
      refl,
    )
  where
    room_test : leb q.maxcount q.count ≡ false
    room_test = ground (arith, v.count)

    busy_test : (q.count == 0) ≡ false
    busy_test = ground (arith, v.count)

-- An empty queue gives null.
pub dequeue_empty : (q : EventQueue) (h : Heap) → Holds h q [] → dequeue q h ≡ ok (none, q) h
unfolding dequeue
dequeue_empty q h v = ground (arith, v.count)

-- Otherwise the first node's data are copied out and the node is freed.
pub dequeue-some :
    (q : EventQueue) (h : Heap) (p : ℕ) (d : ReceivedData) (cs : Cells)
    → Holds h q ((p, d) ∷ cs)
    → (q' : EventQueue) × (h' : Heap) × (dequeue q h ≡ ok (some (copy d), q') h')
      × Holds h' q' cs
      × (h' p ≡ none)
      × (q'.maxcount ≡ q.maxcount)
unfolding dequeue
dequeue-some q h p d [] v = (
  record q { first = null; count = q.count - 1 },
  write h p none,
  rw busy_test (pop_only_lem q h p d v.first v.linked.1 v.linked.0),
  record {
    linked = tt;
    first = refl;
    last = λ s. absurd (s refl);
    count = omega (arith, v.count);
    bound = omega arith;
  },
  write_self h p none,
  refl,
)
  where
    busy_test : leb q.count 0 ≡ false
    busy_test = ground (arith, v.count)
dequeue-some q h p d ((r, e) ∷ cs) v = (
  record q { first = r; count = q.count - 1 },
  write (write h r (some (node e (head_of cs) null))) p none,
  rw busy_test (
      pop_first_lem q h p r d (node e (head_of cs) p) v.first v.linked.1 v.linked.0 v.linked.3.1
        v.linked.2.0 v.linked.3.0),
  record {
    linked = Linked-rest h p d r e cs v.linked;
    first = refl;
    last = λ _. v.last (λ s. cc);
    count = omega (arith, v.count);
    bound = omega (arith, v.bound);
  },
  write_self _ p none,
  refl,
)
  where
    busy_test : leb q.count 0 ≡ false
    busy_test = ground (arith, v.count)
