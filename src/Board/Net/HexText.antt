-- ===== src/Board/Net/HexText.antt =====
-- The hexadecimal text of `_netclient_cmd_WriteEEPRom` in its buffer.
use softupdate.Prelude.{
  ℕ, zero, suc, ◌+◌, ◌*◌, ◌/◌, ◌%◌, ◌≤◌, ◌<◌, ◌≡◌, refl, ap, sym, ◌∙◌, false, Option, none, some,
  some_inj, List, [], ◌∷◌, ◌++◌, append_assoc, arith, leb, leb→le, Bool-cases, inl, inr, ◌⊎◌, ◌==◌,
  option_both, length, take, drop, replicate, overwrite, get_elem?, length-overwrite, length-take,
  take-append, length-append, length-replicate,
}
use softupdate.Board.Hex.{c_str, hex_char, hex_encode}
use softupdate.Board.Net.{put, hex_rounds, hex_text}

put_fits :
    (buff xs : List ℕ) (at : ℕ)
    → at + length xs ≤ length buff
    → put buff at xs ≡ some (overwrite buff at xs)
put_fits buff xs at h = ground (arith, h)

put_over : (buff xs : List ℕ) (at : ℕ) → length buff < at + length xs → put buff at xs ≡ none
put_over buff xs at h = ground (arith, h)

-- What a write that ends in the buffer leaves of it.
put_size :
    (buff xs written : List ℕ) (at : ℕ)
    → put buff at xs ≡ some written
    → length written ≡ length buff
put_size buff xs written at h = elim (Bool-cases (leb (at + length xs) (length buff))) [
  | inl fits ↦
      ap length (sym (some_inj (rw fits at h))) ∙ length-overwrite buff xs at (leb→le _ _ fits)
  | inr over ↦ cc (rw over at h)
]

get_elem?-some : (xs : List ℕ) (i : ℕ) → i < length xs → (x : ℕ) × (get_elem? xs i ≡ some x)
get_elem?-some [] i h = absurd (omega arith)
get_elem?-some (x ∷ xs) zero h = (x, refl)
get_elem?-some (x ∷ xs) (suc i) h = get_elem?-some xs i (omega arith)

in_range : (xs : List ℕ) (i x : ℕ) → get_elem? xs i ≡ some x → i < length xs
in_range [] i x h = cc
in_range (y ∷ xs) zero x h = omega arith
in_range (y ∷ xs) (suc i) x h = omega (arith, in_range xs i x h)

hex_encode-snoc :
    (xs : List ℕ) (i x : ℕ)
    → get_elem? xs i ≡ some x
    → hex_encode (take (suc i) xs) ≡ hex_encode (take i xs) ++ hex_encode (x ∷ [])
unfolding hex_encode
hex_encode-snoc [] i x h = cc
hex_encode-snoc (y ∷ xs) zero x h =
    ap (λ b. hex_char (b / 16) ∷ hex_char (b % 16) ∷ []) (some_inj h)
hex_encode-snoc (y ∷ xs) (suc i) x h =
    ap (λ t. hex_char (y / 16) ∷ hex_char (y % 16) ∷ t) (hex_encode-snoc xs i x h)

-- The text so far, with the next byte's.
front_grows :
    (buff text : List ℕ) (at : ℕ)
    → at ≤ length buff
    → take (at + length text) (overwrite buff at (text ++ (0 ∷ []))) ≡ take at buff ++ text
front_grows buff text at room =
    ap (take (at + length text)) (
      ap (λ t. take at buff ++ t)
        (append_assoc text (0 ∷ []) (drop (at + length (text ++ (0 ∷ []))) buff))
      ∙ sym (
          append_assoc (take at buff) text
            ((0 ∷ []) ++ drop (at + length (text ++ (0 ∷ []))) buff)))
    ∙ take-append (take at buff ++ text) ((0 ∷ []) ++ drop (at + length (text ++ (0 ∷ []))) buff)
        (at + length text) (omega (arith, length-append (take at buff) text, length-take at buff))

pub hex_rounds_fit :
    (left i n : ℕ) (bytes buff : List ℕ)
    → n ≡ i + left
    → length buff ≡ 510
    → n ≤ length bytes
    → n * 2 < 510
    → take (i * 2) buff ≡ hex_encode (take i bytes)
    → (written : List ℕ) × (hex_rounds left i bytes buff ≡ some written)
      × (length written ≡ 510)
      × (take (n * 2) written ≡ hex_encode (take n bytes))
unfolding hex_rounds
hex_rounds_fit zero i n bytes buff all size enough room front =
    let done : i ≡ n = omega arith in
    (
      buff,
      refl,
      size,
      ap (λ k. take (k * 2) buff) (sym done) ∙ front ∙ ap (λ k. hex_encode (take k bytes)) done,
    )
hex_rounds_fit (suc left) i n bytes buff all size enough room front =
    let (b, here) = get_elem?-some bytes i (omega arith) in
    let text = hex_encode (b ∷ []) ++ (0 ∷ []) in
    let two : length (hex_encode (b ∷ [])) ≡ 2 = two_chars b in
    let three : length text ≡ 3 = omega (arith, length-append (hex_encode (b ∷ [])) (0 ∷ [])) in
    let next = overwrite buff (i * 2) text in
    let one_more : i + 1 ≡ suc i = omega arith in
    let grown : take ((i + 1) * 2) next ≡ hex_encode (take (i + 1) bytes) =
      ap (λ k. take k next) (twice i (length (hex_encode (b ∷ []))) two)
      ∙ front_grows buff (hex_encode (b ∷ [])) (i * 2) (omega arith)
      ∙ ap (λ t. t ++ hex_encode (b ∷ [])) front
      ∙ sym (hex_encode-snoc bytes i b here)
      ∙ ap (λ k. hex_encode (take k bytes)) (sym one_more) in
    let (written, ran, size', front') =
      hex_rounds_fit left (i + 1) n bytes next (omega arith)
        (length-overwrite buff text (i * 2) (omega arith) ∙ size) enough room grown in
    (written, rw (hex_rounds, here, put_fits buff text (i * 2) (omega arith)) ran, size', front')
  where
    two_chars : (b : ℕ) → length (hex_encode (b ∷ [])) ≡ 2
    two_chars b = refl

    twice : (i n : ℕ) → n ≡ 2 → (i + 1) * 2 ≡ i * 2 + n
    twice i n e = omega arith

-- A loop that ends has read only bytes that are there.
pub hex_rounds_read :
    (left i : ℕ) (bytes buff written : List ℕ)
    → hex_rounds left i bytes buff ≡ some written
    → i ≤ length bytes
    → (length written ≡ length buff) × (i + left ≤ length bytes)
unfolding hex_rounds
hex_rounds_read zero i bytes buff written h low = (ap length (sym (some_inj h)), omega arith)
hex_rounds_read (suc left) i bytes buff written h low =
    option_both Good (get_elem? bytes i) _ _ (λ missing ran. cc)
      (λ b here.
        option_both Good (put buff (i * 2) (hex_encode (b ∷ []) ++ (0 ∷ []))) _ _ (λ over ran. cc)
          (λ next stored ran.
            let (size, enough) =
              hex_rounds_read left (i + 1) bytes next written ran
                (omega (arith, in_range bytes i b here)) in
            (
              size ∙ put_size buff (hex_encode (b ∷ []) ++ (0 ∷ [])) next (i * 2) stored,
              omega arith,
            )))
      h
  where
    Good : Option (List ℕ) → Type 0
    Good o = o ≡ some written → (length written ≡ length buff) × (i + suc left ≤ length bytes)

not_nul : (n : ℕ) → (hex_char n == 0) ≡ false
unfolding hex_char
not_nul n = ground arith

c_str-hex_encode : (bs rest : List ℕ) → c_str (hex_encode bs ++ (0 ∷ rest)) ≡ hex_encode bs
unfolding c_str hex_encode
c_str-hex_encode [] rest = refl
c_str-hex_encode (b ∷ bs) rest =
    rw (not_nul (b / 16), not_nul (b % 16))
      (ap (λ t. hex_char (b / 16) ∷ hex_char (b % 16) ∷ t) (c_str-hex_encode bs rest))

-- The bytes are there and the text fits with its NUL: the buffer then holds it.
pub hex_text_fits :
    (len : ℕ) (bytes : List ℕ)
    → len ≤ length bytes
    → len ≤ 254
    → (buff : List ℕ) × (hex_text len bytes ≡ some buff)
      × (c_str buff ≡ hex_encode (take len bytes))
unfolding hex_text
hex_text_fits len bytes enough short =
    let (written, ran, size, front) =
      hex_rounds_fit len 0 len bytes (replicate 510 0) (omega arith)
        (length-replicate {A = ℕ} 510 0) enough (omega arith) nothing in
    (
      overwrite written (len * 2) (0 ∷ []),
      rw (hex_text, ran) (put_fits written (0 ∷ []) (len * 2) (omega arith)),
      ap (λ t. c_str (t ++ (0 ∷ drop (len * 2 + 1) written))) front
          ∙ c_str-hex_encode (take len bytes) (drop (len * 2 + 1) written),
    )
  where
    nothing : [] ≡ hex_encode (take 0 bytes)
    nothing = refl

pub hex_text_fails :
    (len : ℕ) (bytes : List ℕ) → (254 < len) ⊎ (length bytes < len) → hex_text len bytes ≡ none
unfolding hex_text
hex_text_fails len bytes bad =
    option_both (λ o. o ≡ none) (hex_rounds len 0 bytes (replicate 510 0)) _ _ (λ e. refl)
      (λ written ran.
        let (size, enough) =
          hex_rounds_read len 0 bytes (replicate 510 0) written ran (omega arith) in
        put_over written (0 ∷ []) (len * 2) (past bad size enough))
  where
    past :
        {n : ℕ}
        → (254 < len) ⊎ (length bytes < len)
        → n ≡ length (replicate {A = ℕ} 510 0)
        → 0 + len ≤ length bytes
        → n < len * 2 + 1
    past (inl long) size enough = omega (arith, length-replicate {A = ℕ} 510 0)
    past (inr missing) size enough = absurd (omega arith)
