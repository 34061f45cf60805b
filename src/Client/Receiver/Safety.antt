-- ===== src/Client/Receiver/Safety.antt =====
-- When `ReceiveThread` writes past its buffer.
use softupdate.Prelude.{
  ℕ, suc, ◌+◌, ◌-◌, ◌<◌, ◌≤◌, inl, inr, Bool, true, false, List, ◌++◌, arith, ltb, ◌==◌,
  if◌then◌else◌, Bool-cases, length, take, min, length-append, length-take,
}
use softupdate.Client.Frame.{data_length_of, type_of}
use softupdate.Client.Link.{Link, Action, keep_receiving}
use softupdate.Client.Receiver.{
  Phase, in_header, in_data, stopped, overrun, Event, silence, select_error, recv_error,
  peer_closed, ready, Thread, buffer_size, flag_ok, on_header, after_header, after_data, deliver,
  leave, react, turn, step,
}

-- A phase in which the thread still waits for bytes.
abbrev pub Incomplete : Phase → Type 0
Incomplete (in_data header got) = length got ≤ data_length_of header
Incomplete _ = Unit {0}

-- The data announced is too long for the buffer.
abbrev pub TooLong : Phase → Type 0
TooLong (in_data header got) = buffer_size < 32 + data_length_of header
TooLong overrun = Unit {0}
TooLong _ = ⊥

-- What a turn may lead to: no more bytes than were announced, and an overrun for data that is too
-- long alone.
abbrev pub Next : Phase → Phase → Type 0
Next p (in_data header got) = length got ≤ data_length_of header
Next p overrun = TooLong p
Next p _ = Unit {0}

either :
    (p : Phase) (b : Bool) (x y : Phase × (Link × List Action))
    → Next p x.0
    → Next p y.0
    → Next p (if b then x else y).0
either p true x y hx hy = hx
either p false x y hx hy = hy

on_header-Next :
    (p : Phase) (stack header : List ℕ) (l : Link) → Next p (on_header stack header l).0
unfolding on_header
on_header-Next p stack header l =
    either p (flag_ok header) _ _
      (either p (type_of header == 0) _ _ tt (
        either p (type_of header == 1) _ _ tt (
          either p (type_of header == 2) _ _ tt
            (either p (data_length_of header == 0) _ _ tt (omega arith)))))
      tt

module _ (stack : List ℕ) where
  deliver-Next :
      (p : Phase) (k : ℕ) (inbox : List ℕ) (l : Link)
      → Incomplete p
      → Next p (deliver stack p k inbox l).0.phase
  unfolding deliver after_header after_data
  deliver-Next (in_header got) k inbox l h = elim (Bool-cases (ltb (length more) 32)) [
    | inl short ↦ rw short tt
    | inr full ↦ rw full (on_header-Next (in_header got) stack more l)
  ]
    where
      more : List ℕ
      more = got ++ take (min (suc k) (32 - length got)) inbox
  deliver-Next (in_data header got) k inbox l h =
      elim (Bool-cases (ltb buffer_size (32 + length more))) [
        | inl over ↦ rw over (ground (arith, size))
        | inr room ↦ rw room (elim (Bool-cases (ltb (length more) (data_length_of header))) [
          | inl short ↦ rw short size
          | inr full ↦ rw full tt
        ])
      ]
    where
      more : List ℕ
      more = got ++ take (min (suc k) (data_length_of header - length got)) inbox

      size : length more ≤ data_length_of header
      size = omega (
        arith,
        h,
        length-append got (take (min (suc k) (data_length_of header - length got)) inbox),
        length-take (min (suc k) (data_length_of header - length got)) inbox,
      )
  deliver-Next stopped k inbox l h = tt
  deliver-Next overrun k inbox l h = tt

  react-Next :
      (e : Event) (p : Phase) (inbox : List ℕ) (l : Link)
      → Incomplete p
      → Next p (react stack e p inbox l).0.phase
  unfolding react leave
  react-Next silence (in_header got) inbox l h = tt
  react-Next silence (in_data header got) inbox l h = h
  react-Next silence stopped inbox l h = tt
  react-Next silence overrun inbox l h = tt
  react-Next select_error p inbox l h = tt
  react-Next recv_error p inbox l h = tt
  react-Next peer_closed p inbox l h = tt
  react-Next (ready k) p inbox l h = deliver-Next p k inbox l h

  turn-Next :
      (e : Event) (p : Phase) (inbox : List ℕ) (l : Link)
      → Incomplete p
      → Next p (turn stack e p inbox l).0.phase
  unfolding turn leave
  turn-Next e stopped inbox l h = tt
  turn-Next e overrun inbox l h = tt
  turn-Next e (in_header got) inbox l h = elim (Bool-cases (keep_receiving l)) [
    | inl on ↦ rw (on, keep_receiving) (react-Next e (in_header got) inbox l h)
    | inr off ↦ rw (off, keep_receiving) tt
  ]
  turn-Next e (in_data header got) inbox l h = elim (Bool-cases (keep_receiving l)) [
    | inl on ↦ rw (on, keep_receiving) (react-Next e (in_data header got) inbox l h)
    | inr off ↦ rw (off, keep_receiving) tt
  ]

  -- A turn of `ReceiveThread` never takes more data than the header announced, and it writes past
  -- the 65536 bytes of the buffer only while it reads the data of a header that announces more than
  -- 65504 bytes, or if it has done so before.
  pub step-Next :
      (e : Event) (t : Thread) → Incomplete t.phase → Next t.phase (step stack e t).0.phase
  unfolding step
  step-Next e t h = turn-Next e t.phase t.inbox t.link h
