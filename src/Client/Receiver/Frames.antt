-- ===== src/Client/Receiver/Frames.antt =====
-- A frame of `CreateFrame` on its way through `ReceiveThread`: checked, passed on and answered.
use softupdate.Prelude.{
  ℕ, suc, ◌+◌, ◌-◌, ◌^◌, ◌≤◌, ◌<◌, ◌≡◌, refl, ap, sym, ◌∙◌, min, true, false, some, List, [], ◌∷◌,
  ◌++◌, map, append_assoc, arith, ltb, ◌==◌, length, take, length-take, length-append,
  bytes_eq_refl,
}
use softupdate.Md5.Context.{md_bytes}
use softupdate.Md5.Digest.{md_bytes_shape}
use softupdate.Client.Frame.{
  sealed, hashed, data_length_of, md5_hash-sealed, drop-sealed, data_length_of-sealed,
  type_of-sealed, le4,
}
use softupdate.Client.Link.{Link, Action, ◌then_do◌, keep_receiving, set_reply_hashcode, reply}
use softupdate.Client.Receiver.{
  Event, ready, Thread, in_header, in_data, on_header, after_header, after_data, advance, deliver,
  dispatch, finish, step, turn, react, run, buffer_size,
}
use softupdate.Client.Receiver.Delivery.{at_phase, read_on, read_all}

module _ (stack : List ℕ) (l : Link) (keep : keep_receiving l ≡ true) where
  header_turn :
      (got inbox : List ℕ) (k : ℕ)
      → length got < 32
      → step stack (ready k) (at_phase (in_header got) inbox l)
        ≡ read_on in_header 32 (λ h. on_header stack h l) l got inbox k
  unfolding step turn react deliver after_header
  header_turn got inbox k short = rw (keep, keep_receiving) refl

  data_turn :
      (header got inbox : List ℕ) (k : ℕ)
      → 32 + data_length_of header ≤ buffer_size
      → length got < data_length_of header
      → step stack (ready k) (at_phase (in_data header got) inbox l)
        ≡ read_on
            (in_data header)
            (data_length_of header)
            (λ d. (in_header [], finish stack header d l))
            l
            got
            inbox
            k
  unfolding step turn react deliver after_data
  data_turn header got inbox k fits short = rw (keep, keep_receiving) (rw room refl)
    where
      n : ℕ
      n = min (suc k) (data_length_of header - length got)

      room : ltb buffer_size (32 + length (got ++ take n inbox)) ≡ false
      room = ground (arith, length-append got (take n inbox), length-take n inbox)

  finish-sealed :
      (hash bytes : List ℕ) (type : ℕ)
      → hash ≡ md_bytes stack (hashed (length bytes) type bytes)
      → type < 2 ^ 32
      → finish stack (sealed hash (length bytes) type []) bytes l
        ≡ (set_reply_hashcode (some hash) l then_do dispatch type bytes then_do reply true)
  unfolding finish le4
  finish-sealed hash bytes type right small =
      rw
        (
          drop-sealed hash [] (length bytes) type sixteen,
          md5_hash-sealed hash [] (length bytes) type sixteen,
          type_of-sealed hash [] (length bytes) type sixteen small,
          ← right,
          bytes_eq_refl hash,
        )
        refl
    where
      sixteen : length hash ≡ 16
      sixteen = ap length right ∙ (md_bytes_shape stack (hashed (length bytes) type bytes)).0

  on_header-sealed :
      (hash bytes : List ℕ) (type : ℕ)
      → length hash ≡ 16
      → 2 < type
      → type < 2 ^ 32
      → 1 ≤ length bytes
      → length bytes < 2 ^ 32
      → on_header stack (sealed hash (length bytes) type []) l
        ≡ (in_data (sealed hash (length bytes) type []) [], (l, []))
  unfolding on_header
  on_header-sealed hash bytes type sixteen big small some_data fits =
      rw
        (
          drop-sealed hash [] (length bytes) type sixteen,
          type_of-sealed hash [] (length bytes) type sixteen small,
          data_length_of-sealed hash [] (length bytes) type sixteen fits,
          not_correct,
          not_error,
          not_connect,
          not_empty,
        )
        refl
    where
      not_correct : (type == 0) ≡ false
      not_correct = ground arith

      not_error : (type == 1) ≡ false
      not_error = ground arith

      not_connect : (type == 2) ≡ false
      not_connect = ground arith

      not_empty : (length bytes == 0) ≡ false
      not_empty = ground arith

  run-append :
      (es fs : List Event) (t : Thread)
      → run stack (es ++ fs) t ≡ (
        (run stack fs (run stack es t).0).0,
        (run stack es t).1 ++ (run stack fs (run stack es t).0).1,
      )
  unfolding run
  run-append [] fs t = refl
  run-append (e ∷ es) fs t = rw (run-append es fs (step stack e t).0) (
      ap (λ a. ((run stack fs (run stack es (step stack e t).0).0).0, a))
        (sym (
          append_assoc (step stack e t).1 (run stack es (step stack e t).0).1
            (run stack fs (run stack es (step stack e t).0).0).1)))

  map-ready : (xs ys : List ℕ) → map ready (xs ++ ys) ≡ map ready xs ++ map ready ys
  map-ready [] ys = refl
  map-ready (x ∷ xs) ys = ap (λ t. ready x ∷ t) (map-ready xs ys)

  length_rest : (n type : ℕ) → length (hashed n type []) ≡ 16
  unfolding le4
  length_rest n type = refl

  split_stream :
      (hash bytes tail : List ℕ) (n type : ℕ)
      → sealed hash n type bytes ++ tail ≡ sealed hash n type [] ++ (bytes ++ tail)
  unfolding le4
  split_stream hash bytes tail n type =
      append_assoc hash (hashed n type bytes) tail
      ∙ sym (append_assoc hash (hashed n type []) (bytes ++ tail))

  -- A frame with data whose hash is right, of a type above the protocol's own three, that fits the
  -- buffer: however `recv` cuts up the bytes, as many turns as there are bytes, or fewer, take the
  -- frame from the stream, leave what follows it, pass the data on and answer that it was right.
  pub receive_frame :
      (hash bytes tail ks : List ℕ) (type : ℕ)
      → hash ≡ md_bytes stack (hashed (length bytes) type bytes)
      → 2 < type
      → type < 2 ^ 32
      → 1 ≤ length bytes
      → 32 + length bytes ≤ buffer_size
      → 32 + length bytes ≤ length ks
      → (ks1 : List ℕ) × (ks2 : List ℕ) × (ks ≡ ks1 ++ ks2)
        × (length ks1 ≤ 32 + length bytes)
        × (run stack
              (map ready ks1)
              (at_phase (in_header []) (sealed hash (length bytes) type bytes ++ tail) l)
            ≡ advance
                (
                  in_header [],
                  set_reply_hashcode (some hash) l then_do dispatch type bytes then_do reply true,
                )
                tail)
  receive_frame hash bytes tail ks type right big small some_data fits enough =
      let (ks1, ks2, split, few, ran) =
        read_all stack l in_header 32 (λ h. on_header stack h l) header_turn 32 [] header
          (bytes ++ tail) ks (omega (arith, size)) (omega (arith, size)) (omega (arith, size))
          (omega (arith, size)) in
      let (js1, js2, split2, few2, ran2) =
        read_all stack l (in_data header) (data_length_of header)
          (λ d. (in_header [], finish stack header d l))
          (λ got inbox k. data_turn header got inbox k (omega (arith, told))) (length bytes) []
          bytes tail ks2 (omega arith) (omega (arith, told)) some_data
          (omega (arith, size, ap length split, length-append ks1 ks2)) in
      let first : run stack (map ready ks1) (at_phase (in_header []) (header ++ (bytes ++ tail)) l)
          ≡ (at_phase (in_data header []) (bytes ++ tail) l, []) =
        ran
        ∙ ap (λ x. advance x (bytes ++ tail))
            (on_header-sealed hash bytes type sixteen big small some_data (omega arith)) in
      (
        ks1 ++ js1,
        js2,
        split ∙ ap (λ t. ks1 ++ t) split2 ∙ sym (append_assoc ks1 js1 js2),
        omega (arith, size, length-append ks1 js1),
        ap
              (λ t.
                run stack t
                  (at_phase (in_header []) (sealed hash (length bytes) type bytes ++ tail) l))
              (map-ready ks1 js1)
            ∙ ap (λ t. run stack (map ready ks1 ++ map ready js1) (at_phase (in_header []) t l))
                (split_stream hash bytes tail (length bytes) type)
            ∙ run-append (map ready ks1) (map ready js1) _
            ∙ ap
                (λ (x : Thread × List Action).
                  ((run stack (map ready js1) x.0).0, x.1 ++ (run stack (map ready js1) x.0).1))
                first
            ∙ ran2
            ∙ ap (λ x. advance (in_header [], x) tail) (finish-sealed hash bytes type right small),
      )
    where
      header : List ℕ
      header = sealed hash (length bytes) type []

      sixteen : length hash ≡ 16
      sixteen = ap length right ∙ (md_bytes_shape stack (hashed (length bytes) type bytes)).0

      size : length header ≡ 32
      size = omega (
        arith,
        length-append hash (hashed (length bytes) type []),
        sixteen,
        length_rest (length bytes) type,
      )

      told : data_length_of header ≡ length bytes
      told = data_length_of-sealed hash [] (length bytes) type sixteen (omega arith)
