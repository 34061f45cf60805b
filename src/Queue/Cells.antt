-- ===== src/Queue/Cells.antt =====
-- What the queue's heap looks like: a chain of distinct nodes, linked both ways.
use softupdate.Prelude.{
  ℕ, ◌≤◌, ◌≡◌, ◌≢◌, refl, Option, some, List, [], ◌∷◌, ◌++◌, map, arith, length,
}
use softupdate.Queue.{EventQueue}
use softupdate.Queue.Store.{ReceivedData, Node, node, Heap, write, null}

-- A node's address and what it holds, from `_first` on.
abbrev pub Cells : Type 0
Cells = List (ℕ × ReceivedData)

abbrev pub head_of : Cells → ℕ
head_of [] = null
head_of ((p, d) ∷ cs) = p

-- The last address of the chain that goes on from `p`.
abbrev pub last_of : ℕ → Cells → ℕ
last_of p [] = p
last_of p ((q, d) ∷ cs) = last_of q cs

abbrev pub last_cell : Cells → ℕ
last_cell [] = null
last_cell ((p, d) ∷ cs) = last_of p cs

-- No cell lies at `p`.
abbrev pub Apart : ℕ → Cells → Type 0
Apart p [] = Unit {0}
Apart p ((q, d) ∷ cs) = (p ≢ q) × Apart p cs

abbrev pub Linked : Heap → ℕ → Cells → Type 0
Linked h pre [] = Unit {0}
Linked h pre ((p, d) ∷ cs) =
    (h p ≡ some (node d (head_of cs) pre)) × (p ≢ null) × Apart p cs × Linked h p cs

pub record Holds (h : Heap) (q : EventQueue) (cs : Cells) : Type 0 where
  pub linked : Linked h null cs
  pub first : q.first ≡ head_of cs
  pub last : cs ≢ [] → q.last ≡ last_cell cs
  pub count : q.count ≡ length cs
  pub bound : length cs ≤ q.maxcount

abbrev pub items : Cells → List ReceivedData
items cs = map (λ c. c.1) cs

pub Apart-last : (p q : ℕ) (cs : Cells) → p ≢ q → Apart p cs → p ≢ last_of q cs
Apart-last p q [] ne a = ne
Apart-last p q ((r, d) ∷ cs) ne a = Apart-last p r cs a.0 a.1

-- A write elsewhere keeps the chain.
pub Linked-write :
    (h : Heap) (pre p : ℕ) (c : Option Node) (cs : Cells)
    → Apart p cs
    → Linked h pre cs
    → Linked (write h p c) pre cs
unfolding write
Linked-write h pre p c [] a l = tt
Linked-write h pre p c ((q, d) ∷ cs) a l =
    (ground (arith, a.0, l.0), l.1, l.2, Linked-write h q p c cs a.1 l.3)

pub Apart-append :
    (p r : ℕ) (d : ReceivedData) (cs : Cells) → Apart p cs → p ≢ r → Apart p (cs ++ ((r, d) ∷ []))
Apart-append p r d [] a ne = (ne, tt)
Apart-append p r d ((q, e) ∷ cs) a ne = (a.0, Apart-append p r d cs a.1 ne)

pub last_of-append : (p r : ℕ) (d : ReceivedData) (cs : Cells) → last_of p (cs ++ ((r, d) ∷ [])) ≡ r
last_of-append p r d [] = refl
last_of-append p r d ((q, e) ∷ cs) = last_of-append q r d cs

-- The node that `_last` points at is there.
pub last_node :
    (h : Heap) (pre p : ℕ) (d : ReceivedData) (cs : Cells)
    → Linked h pre ((p, d) ∷ cs)
    → (n : Node) × (h (last_of p cs) ≡ some n) × (last_of p cs ≢ null) × (n.next ≡ null)
last_node h pre p d [] l = (node d null pre, l.0, l.1, refl)
last_node h pre p d ((q, e) ∷ cs) l = last_node h p q e cs l.3
