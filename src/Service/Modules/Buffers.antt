-- ===== src/Service/Modules/Buffers.antt =====
-- Reading and writing a module's memory by requests.
use softupdate.Prelude.{
  ◌≢◌, ◌↔◌, ◌⊎◌, inl, inr, Bool-cases, if_both, zero, suc, ℕ, ◌+◌, ◌^◌, ◌≤◌, ◌<◌, ◌≡◌, refl, ap,
  ◌∙◌, true, false, Option, none, some, List, [], ◌∷◌, ◌++◌, arith, ltb, leb, min, length, take,
  drop, replicate, overwrite, take-all, take-take, take-append, slice-overwrite,
}
use softupdate.Prelude.Int.{ℤ, negsuc, pos, ◌+ℤ◌, ltb_ℤ}
use softupdate.Text.{dec_int}
use softupdate.Eeprom.{Reply, eeprom_i2c_addr}
use softupdate.Eeprom.Smbus.{Reaches}
use softupdate.Board.Panel.{to_uint, read_option_buffer, write_option_buffer}
use softupdate.Board.Panel.Identity.{Keeps, write_option_buffer_lem, read_option_buffer_lem}
use softupdate.Board.Access.{index_valid, read_module_buf, write_module_buf}
use softupdate.Service.State.{System, Server, undefined, answer, int_at}
use softupdate.Service.Modules.Addresses.{length-cleared}
use softupdate.Service.Modules.Info.{
  module_info, int_at-start, int_at-len, int_at-index, length-module_info, drop-module_info,
}
use softupdate.Service.Modules.{
  cleared, copy_bytes, coded, buffer_answer, read_module, write_module, read_parsed, write_parsed,
  module_bytes, msg_readmodulebuf, msg_writemodulebuf,
}

pub copy_bytes_fits :
    (n : ℕ) (source : List ℕ) → n ≤ length source → copy_bytes n source ≡ some (take n source)
unfolding copy_bytes
copy_bytes_fits zero source h = refl
copy_bytes_fits (suc n) [] h = absurd (omega arith)
copy_bytes_fits (suc n) (b ∷ source) h = rw (copy_bytes_fits n source (omega arith)) refl

copy_bytes_over : (n : ℕ) (source : List ℕ) → length source < n → copy_bytes n source ≡ none
unfolding copy_bytes
copy_bytes_over zero source h = absurd (omega arith)
copy_bytes_over (suc n) [] h = refl
copy_bytes_over (suc n) (b ∷ source) h = rw (copy_bytes_over n source (omega arith)) refl

-- A length that is negative or above 255.
abbrev pub OutOfBuffer : ℤ → Type 0
OutOfBuffer len = (ltb_ℤ len (pos 0) ≡ true) ⊎ (ltb_ℤ (pos 255) len ≡ true)

out_of_buffer : (n : ℕ) → ltb 255 n ≡ true → OutOfBuffer (pos n)
out_of_buffer n h = inr (ground (arith, h))

inside : (n : ℕ) → ltb 255 n ≡ false → OutOfBuffer (pos n) → ⊥
inside n few (inl h) = ground (arith, h)
inside n few (inr h) = ground (arith, few, h)

over : (n : ℕ) → ltb 255 n ≡ true → (size : ℕ) → size ≡ 255 → size < n
over n many size e = ground (arith, many)

fits : (n : ℕ) → ltb 255 n ≡ false → (size : ℕ) → size ≡ 255 → n ≤ size
fits n few size e = ground (arith, few)

buffer_answer_iff :
    {W : Type 0} (sys : System W) (len : ℤ) (o : Option (Reply W)) (s : Server)
    → o ≢ none
    → (buffer_answer sys len o s ≡ undefined) ↔ OutOfBuffer len
unfolding buffer_answer
buffer_answer_iff sys len none s some_read = absurd (some_read refl)
buffer_answer_iff sys (negsuc n) (some r) s some_read = (λ h. inl (ground arith), λ h. refl)
buffer_answer_iff sys (pos n) (some r) s some_read =
    let size = length-cleared 255 r.bytes in
    elim (Bool-cases (ltb 255 n)) [
      | inl many ↦ (
        λ h. out_of_buffer n many,
        λ h. rw (buffer_answer, copy_bytes_over n (cleared 255 r.bytes) (over n many _ size)) refl,
      )
      | inr few ↦ (
        λ h.
            cc (
              rw (buffer_answer, copy_bytes_fits n (cleared 255 r.bytes) (fits n few _ size)) at h),
        λ out. absurd (inside n few out),
      )
    ]

pub read_module-undefined :
    {W : Type 0} (sys : System W) (bytes : List ℕ) (s : Server) (w : W)
    → 12 ≤ length bytes
    → (ltb_ℤ (pos 255) (int_at 0 bytes +ℤ int_at 1 bytes) ≡ false
        → read_module_buf sys.machine true (int_at 0 bytes) (int_at 1 bytes) (int_at 2 bytes) w
          ≢ none)
    → (read_module sys bytes s w ≡ undefined) ↔ OutOfBuffer (int_at 1 bytes)
unfolding read_module read_parsed
read_module-undefined sys bytes s w long reads =
    let fits : ltb (length bytes) 12 ≡ false = ground arith in
    rw fits (
      buffer_answer_iff sys (int_at 1 bytes) _ s (
        if_both (λ o. o ≢ none) (ltb_ℤ (pos 255) (int_at 0 bytes +ℤ int_at 1 bytes)) _ _
          (λ refused e. cc) reads))

to_uint-pos : (n : ℕ) → n < 2 ^ 31 → to_uint (pos n) ≡ n
unfolding to_uint
to_uint-pos n h = ground arith

module _ {W : Type 0} (sys : System W) (index : ℕ) (panel : 5 < index) (small : index < 2 ^ 31)
    (payload : List ℕ) (start : ℕ) (fits : start + length payload ≤ 255) where
  within : ltb_ℤ (pos 255) (pos start +ℤ pos (length payload)) ≡ false
  unfolding ◌+ℤ◌
  within = ground arith

  write_parsed_panel :
      (s : Server) (w w1 : W)
      → write_option_buffer sys.machine.susi payload (pos start) (pos (length payload)) w
        ≡ some (pos 0, w1)
      → write_parsed sys
          (module_info start (length payload) index ++ payload)
          (pos start)
          (pos (length payload))
          (pos index)
          s
          w
        ≡ answer sys msg_writemodulebuf (dec_int (pos 0)) s w1
  unfolding write_parsed module_bytes coded write_module_buf
  write_parsed_panel s w w1 wrote =
      let low : start < 2 ^ 31 = omega arith in
      let short : length payload < 2 ^ 31 = omega arith in
      let room : leb (length payload + 12)
            (length (module_info start (length payload) index ++ payload))
          ≡ true =
        ground (arith, length-module_info start (length payload) index payload low short small) in
      let other : index_valid (pos index) ≡ false = ground arith in
      rw (write_parsed, within, module_bytes, room)
        (ap
            (λ b.
              coded sys msg_writemodulebuf
                (write_module_buf sys.machine (some b) (pos start) (pos (length payload))
                  (pos index) w)
                s)
            (ap (take (length payload))
                (drop-module_info start (length payload) index payload low short small)
              ∙ take-all payload (length payload) (omega arith))
          ∙ rw (write_module_buf, other) (ap (λ o. coded sys msg_writemodulebuf o s) wrote))

  read_parsed_panel :
      (s : Server) (w : W) (r : Reply W)
      → read_option_buffer sys.machine.susi (pos start) (pos (length payload)) w ≡ some r
      → r.code ≡ pos 0
      → r.bytes ≡ payload
      → read_parsed sys (pos start) (pos (length payload)) (pos index) s w
        ≡ answer sys msg_readmodulebuf (dec_int (pos 0) ++ (b',' ∷ payload)) s r.after
  unfolding read_parsed buffer_answer read_module_buf
  read_parsed_panel s w r got ok same =
      let copied =
        copy_bytes_fits (length payload) (cleared 255 r.bytes)
          (omega (arith, length-cleared 255 r.bytes)) in
      let other : index_valid (pos index) ≡ false = ground arith in
      rw (read_parsed, within, read_module_buf, other)
        (ap (λ o. buffer_answer sys (pos (length payload)) o s) got
          ∙ rw (buffer_answer, copied)
              (ap
                  (λ c.
                    answer sys msg_readmodulebuf
                      (dec_int c ++ (b',' ∷ take (length payload) (cleared 255 r.bytes))) s r.after)
                  ok
                ∙ ap (λ t. answer sys msg_readmodulebuf (dec_int (pos 0) ++ (b',' ∷ t)) s r.after)
                    shown))
    where
      shown : take (length payload) (cleared 255 r.bytes) ≡ payload
      shown =
          take-take (length payload) 255 (r.bytes ++ replicate 255 0) (omega arith)
          ∙ take-append r.bytes (replicate 255 0) (length payload) (ap length same)
          ∙ same

  write_module_panel :
      (s : Server) (w w1 : W)
      → write_option_buffer sys.machine.susi payload (pos start) (pos (length payload)) w
        ≡ some (pos 0, w1)
      → write_module sys (module_info start (length payload) index ++ payload) s w
        ≡ answer sys msg_writemodulebuf (dec_int (pos 0)) s w1
  unfolding write_module
  write_module_panel s w w1 wrote =
      let bytes = module_info start (length payload) index ++ payload in
      let low : start < 2 ^ 31 = omega arith in
      let short : length payload < 2 ^ 31 = omega arith in
      let size = length-module_info start (length payload) index payload low short small in
      let long : ltb (length bytes) 12 ≡ false = ground (arith, size) in
      rw (write_module, long)
        (ap (λ a. write_parsed sys bytes a (int_at 1 bytes) (int_at 2 bytes) s w)
            (int_at-start start (length payload) index payload low short small)
          ∙ ap (λ b. write_parsed sys bytes (pos start) b (int_at 2 bytes) s w)
              (int_at-len start (length payload) index payload low short small)
          ∙ ap (λ c. write_parsed sys bytes (pos start) (pos (length payload)) c s w)
              (int_at-index start (length payload) index payload low short small)
          ∙ write_parsed_panel s w w1 wrote)

  read_module_panel :
      (s : Server) (w : W) (r : Reply W)
      → read_option_buffer sys.machine.susi (pos start) (pos (length payload)) w ≡ some r
      → r.code ≡ pos 0
      → r.bytes ≡ payload
      → read_module sys (module_info start (length payload) index ++ []) s w
        ≡ answer sys msg_readmodulebuf (dec_int (pos 0) ++ (b',' ∷ payload)) s r.after
  unfolding read_module
  read_module_panel s w r got ok same =
      let bytes = module_info start (length payload) index ++ [] in
      let low : start < 2 ^ 31 = omega arith in
      let short : length payload < 2 ^ 31 = omega arith in
      let size = length-module_info start (length payload) index [] low short small in
      let long : ltb (length bytes) 12 ≡ false = ground (arith, size) in
      rw (read_module, long)
        (ap (λ a. read_parsed sys a (int_at 1 bytes) (int_at 2 bytes) s w)
            (int_at-start start (length payload) index [] low short small)
          ∙ ap (λ b. read_parsed sys (pos start) b (int_at 2 bytes) s w)
              (int_at-len start (length payload) index [] low short small)
          ∙ ap (λ c. read_parsed sys (pos start) (pos (length payload)) c s w)
              (int_at-index start (length payload) index [] low short small)
          ∙ read_parsed_panel s w r got ok same)

-- Bytes that a request writes into the panel's memory are what a request for the same range then
-- reads: the index is none of a module's, the range lies in the memory's first 255 bytes, both
-- transfers to and from the memory report success, and sending an answer leaves the memory as it
-- is. Both requests are answered with code 0.
pub write_module-read_module :
    {W : Type 0} (sys : System W) (mem : W → List ℕ) (index : ℕ) (payload : List ℕ) (start : ℕ)
    (s : Server) (w w1 : W) (r : Reply W)
    → Reaches sys.machine.susi eeprom_i2c_addr mem
    → Keeps sys.machine.susi mem
    → ((type : ℕ) (bytes : List ℕ) (w : W) → mem (sys.send_data type bytes w).1 ≡ mem w)
    → 5 < index
    → index < 2 ^ 31
    → start + length payload ≤ 255
    → 255 ≤ length (mem w)
    → write_option_buffer sys.machine.susi payload (pos start) (pos (length payload)) w
      ≡ some (pos 0, w1)
    → read_option_buffer sys.machine.susi
        (pos start)
        (pos (length payload))
        (sys.send_data msg_writemodulebuf (dec_int (pos 0)) w1).1
      ≡ some r
    → r.code ≡ pos 0
    → (write_module sys (module_info start (length payload) index ++ payload) s w
        ≡ answer sys msg_writemodulebuf (dec_int (pos 0)) s w1)
      × (read_module sys
            (module_info start (length payload) index ++ [])
            s
            (sys.send_data msg_writemodulebuf (dec_int (pos 0)) w1).1
          ≡ answer sys msg_readmodulebuf (dec_int (pos 0) ++ (b',' ∷ payload)) s r.after)
write_module-read_module {W = W} sys mem index payload start s w w1 r law keeps quiet panel small
      fits enough wrote got ok =
    (
      write_module_panel sys index panel small payload start fits s w w1 wrote,
      read_module_panel sys index panel small payload start fits s w2 r got ok same,
    )
  where
    w2 : W
    w2 = (sys.send_data msg_writemodulebuf (dec_int (pos 0)) w1).1

    n : ℕ
    n = length payload

    held : mem w2 ≡ overwrite (mem w) start payload
    held =
        quiet msg_writemodulebuf (dec_int (pos 0)) w1
        ∙ write_option_buffer_lem sys.machine.susi mem law keeps payload (pos start) (pos n) w w1
            wrote
        ∙ ap (λ a. overwrite (mem w) a (take (min (to_uint (pos n)) 255) payload))
            (to_uint-pos start (omega arith))
        ∙ ap (overwrite (mem w) start) (
            take-all payload (min (to_uint (pos n)) 255)
              (omega (arith, to_uint-pos n (omega arith))))

    same : r.bytes ≡ payload
    same =
        (read_option_buffer_lem sys.machine.susi mem law keeps (pos start) (pos n) w2 r got ok).0
        ∙ ap (λ a. take (min (to_uint (pos n)) 255) (drop a (mem w2)))
            (to_uint-pos start (omega arith))
        ∙ ap (λ m. take m (drop start (mem w2))) (omega (arith, to_uint-pos n (omega arith)))
        ∙ ap (λ m. take n (drop start m)) held
        ∙ slice-overwrite (mem w) payload start (omega arith)
