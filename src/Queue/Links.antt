-- ===== src/Queue/Links.antt =====
-- Adding a node behind the last one, and taking the first one off.
use softupdate.Prelude.{ℕ, ◌≡◌, ◌≢◌, sym, none, some, [], ◌∷◌, ◌++◌, arith}
use softupdate.Queue.Store.{ReceivedData, Node, node, Heap, write, null}
use softupdate.Queue.Cells.{
  Cells, head_of, last_of, Apart, Linked, Apart-last, Linked-write, Apart-append,
}

-- `n` is the last node of the chain: its `Next` is set to the new node `r`.
pub Linked-append :
    (h : Heap) (pre p r : ℕ) (d e : ReceivedData) (cs : Cells) (n : Node)
    → Linked h pre ((p, d) ∷ cs)
    → Apart r ((p, d) ∷ cs)
    → r ≢ null
    → h (last_of p cs) ≡ some n
    → Linked
        (write
          (write h r (some (node e null (last_of p cs))))
          (last_of p cs)
          (some (record n { next = r })))
        pre
        ((p, d) ∷ cs ++ ((r, e) ∷ []))
unfolding write
Linked-append h pre p r d e [] n l a nonnull here =
    (ground (arith, l.0, here), l.1, (λ q. a.0 (sym q), tt), (ground (arith, a.0), nonnull, tt, tt))
Linked-append h pre p r d e ((q, f) ∷ cs) n l a nonnull here = (
  ground (arith, l.0, a.0, Apart-last p q cs l.2.0 l.2.1),
  l.1,
  (l.2.0, Apart-append p r e cs l.2.1 (λ s. a.0 (sym s))),
  Linked-append h p q r f e cs n l.3 a.1 nonnull here,
)

-- The second node becomes the first: its `Pre` is cleared, and the old first is freed.
pub Linked-rest :
    (h : Heap) (p : ℕ) (d : ReceivedData) (q : ℕ) (e : ReceivedData) (cs : Cells)
    → Linked h null ((p, d) ∷ (q, e) ∷ cs)
    → Linked (write (write h q (some (node e (head_of cs) null))) p none) null ((q, e) ∷ cs)
unfolding write
Linked-rest h p d q e cs l = (
  ground (arith, l.2.0),
  l.3.1,
  l.3.2,
  Linked-write (write h q (some (node e (head_of cs) null))) q p none cs l.2.1
      (Linked-write h q q (some (node e (head_of cs) null)) cs l.3.2 l.3.3),
)
