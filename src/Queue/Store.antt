-- ===== src/Queue/Store.antt =====
-- clientbase/clientcommon.h and eventqueue.h: received data, list nodes, and the heap they lie on.
use softupdate.Prelude.{ℕ, Option, none, some, List, ltb, ◌==◌, if◌then◌else◌, take}

abbrev pub null : ℕ
null = 0

-- `ReceivedData`: `Type`, `Length` and the bytes behind `Data`, if it is not null.
pub record ReceivedData : Type 0 where
  pub kind : ℕ
  pub len : ℕ
  pub bytes : Option (List ℕ)

-- What `DataNode` and `GetData` copy: `Data` only if it is not null and `Length` is positive.
unfoldable pub copy : ReceivedData → ReceivedData
copy d = record d { bytes = if ltb 0 d.len then kept d.bytes else none }
  where
    kept : Option (List ℕ) → Option (List ℕ)
    kept none = none
    kept (some b) = some (take d.len b)

-- `DataNode`
pub record Node : Type 0 where
  pub item : ReceivedData
  pub next : ℕ
  pub pre : ℕ

abbrev pub node : ReceivedData → ℕ → ℕ → Node
node d n p = record { item = d; next = n; pre = p }

abbrev pub Heap : Type 0
Heap = ℕ → Option Node

-- A read or a write through a null or dangling pointer is a fault.
pub data Outcome (A : Type 0) : Type 0 where
  ok : A → Heap → Outcome A
  fault : Outcome A

abbrev pub Run : Type 0 → Type 0
Run A = Heap → Outcome A

abbrev pub pure : {A : Type 0} → A → Run A
pure a h = ok a h

infixl 5 ◌>>=◌ ◌>>◌
abbrev pub ◌>>=◌ : {A B : Type 0} → Run A → (A → Run B) → Run B
◌>>=◌ m f h = elim (m h) [ ok a h' ↦ f a h' | fault ↦ fault ]

abbrev pub ◌>>◌ : {B : Type 0} → Run (Unit {0}) → Run B → Run B
m >> k = m >>= λ _. k

unfoldable pub write : Heap → ℕ → Option Node → Heap
write h p c a = if a == p then c else h a

abbrev pub at : Heap → ℕ → Option Node
at h p = if p == null then none else h p

-- `*p`
unfoldable pub load : ℕ → Run Node
load p h = elim (at h p) [ none ↦ fault | some n ↦ ok n h ]

-- `new DataNode(d, next, pre)` at the address `fresh`
unfoldable pub new : ℕ → ReceivedData → ℕ → ℕ → Run (Unit {0})
new fresh d next pre h = ok tt (write h fresh (some (node (copy d) next pre)))

-- `p->Next = q`
unfoldable pub set_next : ℕ → ℕ → Run (Unit {0})
set_next p q h = elim (at h p) [
  | none ↦ fault
  | some n ↦ ok tt (write h p (some (record n { next = q })))
]

-- `p->Pre = q`
unfoldable pub set_pre : ℕ → ℕ → Run (Unit {0})
set_pre p q h = elim (at h p) [
  | none ↦ fault
  | some n ↦ ok tt (write h p (some (record n { pre = q })))
]

-- `delete p`
unfoldable pub delete : ℕ → Run (Unit {0})
delete p h = elim (at h p) [ none ↦ fault | some n ↦ ok tt (write h p none) ]
