-- ===== src/Client/Receiver/Delivery.antt =====
-- However the network cuts up the bytes, `ReceiveThread` takes whole frames from them.
use softupdate.Prelude.{
  ℕ, zero, suc, ◌+◌, ◌-◌, ◌≤◌, ◌<◌, ◌≡◌, refl, ap, ◌∙◌, inl, inr, min, true, false, List, [], ◌∷◌,
  ◌++◌, map, append-nil, append_assoc, arith, ltb, if◌then◌else◌, Bool-cases, length, take, drop,
  ltb→lt, take-append_le, drop-append_le, take-append, drop-append, take-append-drop, length-take,
  length-drop, length-append,
}
use softupdate.Client.Link.{Link, Action}
use softupdate.Client.Receiver.{Phase, ready, Thread, advance, step, run}

-- A thread in a phase.
abbrev pub at_phase : Phase → List ℕ → Link → Thread
at_phase p inbox l = record { phase = p; inbox = inbox; link = l }

-- One turn of a loop that reads `total` bytes and then is done.
abbrev pub read_on :
    (List ℕ → Phase)
    → ℕ
    → (List ℕ → Phase × (Link × List Action))
    → Link
    → List ℕ
    → List ℕ
    → ℕ
    → Thread × List Action
read_on p total done l got inbox k =
    let n = min (suc k) (total - length got) in
    let more = got ++ take n inbox in
    advance (if ltb (length more) total then (p more, (l, [])) else done more) (drop n inbox)

module _ (stack : List ℕ) (l : Link) (p : List ℕ → Phase) (total : ℕ)
    (done : List ℕ → Phase × (Link × List Action))
    (one : (got inbox : List ℕ) (k : ℕ)
      → length got < total
      → step stack (ready k) (at_phase (p got) inbox l) ≡ read_on p total done l got inbox k) where
  -- The turns of a list that the loop needs: it ends with them, and has read the bytes.
  abbrev pub Reads : List ℕ → List ℕ → List ℕ → List ℕ → Type 0
  Reads got rest tail ks =
      (ks1 : List ℕ) × (ks2 : List ℕ) × (ks ≡ ks1 ++ ks2)
      × (length ks1 ≤ length rest)
      × (run stack (map ready ks1) (at_phase (p got) (rest ++ tail) l)
          ≡ advance (done (got ++ rest)) tail)

  read_short :
      (got rest tail : List ℕ) (k : ℕ)
      → length got + length rest ≡ total
      → suc k < length rest
      → read_on p total done l got (rest ++ tail) k
        ≡ (at_phase (p (got ++ take (suc k) rest)) (drop (suc k) rest ++ tail) l, [])
  read_short got rest tail k whole short =
      rw
        (
          asked,
          least,
          take-append_le rest tail (suc k) (omega arith),
          drop-append_le rest tail (suc k) (omega arith),
          test,
        )
        refl
    where
      asked : total - length got ≡ length rest
      asked = omega arith

      least : min (suc k) (length rest) ≡ suc k
      least = omega arith

      size : length (got ++ take (suc k) rest) < total
      size = omega (arith, length-append got (take (suc k) rest), length-take (suc k) rest)

      test : ltb (length (got ++ take (suc k) rest)) total ≡ true
      test = ground (arith, size)

  read_rest :
      (got rest tail : List ℕ) (k : ℕ)
      → length got + length rest ≡ total
      → length rest ≤ suc k
      → read_on p total done l got (rest ++ tail) k ≡ advance (done (got ++ rest)) tail
  read_rest got rest tail k whole long =
      rw
        (
          asked,
          least,
          take-append rest tail (length rest) refl,
          drop-append rest tail (length rest) refl,
          test,
        )
        refl
    where
      asked : total - length got ≡ length rest
      asked = omega arith

      least : min (suc k) (length rest) ≡ length rest
      least = omega arith

      size : length (got ++ rest) ≡ total
      size = omega (arith, length-append got rest)

      test : ltb (length (got ++ rest)) total ≡ false
      test = ground (arith, size)

  pub read_all :
      (fuel : ℕ) (got rest tail ks : List ℕ)
      → length rest ≤ fuel
      → length got + length rest ≡ total
      → 1 ≤ length rest
      → length rest ≤ length ks
      → Reads got rest tail ks
  unfolding run
  read_all zero got rest tail ks bound whole some_left enough = absurd (omega arith)
  read_all (suc fuel) got rest tail [] bound whole some_left enough = absurd (omega arith)
  read_all (suc fuel) got rest tail (k ∷ ks) bound whole some_left enough =
      elim (Bool-cases (ltb (suc k) (length rest))) [
        | inl short ↦
            let n = suc k in
            let (ks1, ks2, split, few, ran) =
              read_all fuel (got ++ take n rest) (drop n rest) tail ks
                (omega (arith, length-drop n rest))
                (omega (
                  arith,
                  ltb→lt n (length rest) short,
                  length-append got (take n rest),
                  length-take n rest,
                  length-drop n rest,
                ))
                (omega (arith, ltb→lt n (length rest) short, length-drop n rest))
                (omega (arith, length-drop n rest)) in
            (
              k ∷ ks1,
              ks2,
              ap (λ t. k ∷ t) split,
              omega (arith, ltb→lt n (length rest) short, length-drop n rest),
              rw
                  (one got (rest ++ tail) k (omega arith)
                    ∙ read_short got rest tail k whole (ltb→lt n (length rest) short))
                  (ran ∙ ap (λ t. advance (done t) tail) (joined got rest n)),
            )
        | inr all_there ↦ (
          k ∷ [],
          ks,
          refl,
          some_left,
          rw
              (one got (rest ++ tail) k (omega arith)
                ∙ read_rest got rest tail k whole (ground arith))
              (ap (λ t. ((advance (done (got ++ rest)) tail).0, t))
                (append-nil (advance (done (got ++ rest)) tail).1)),
        )
      ]
    where
      joined : (xs ys : List ℕ) (n : ℕ) → (xs ++ take n ys) ++ drop n ys ≡ xs ++ ys
      joined xs ys n =
          append_assoc xs (take n ys) (drop n ys) ∙ ap (λ t. xs ++ t) (take-append-drop n ys)
