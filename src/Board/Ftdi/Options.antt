-- ===== src/Board/Ftdi/Options.antt =====
-- What `read_options` finds after `write_options`.
use softupdate.Prelude.{
  ℕ, zero, suc, ◌+◌, ◌*◌, ◌/◌, ◌%◌, ◌<◌, ◌≡◌, refl, sym, ap, ◌∙◌, Bool, true, false, Option, none,
  some, List, [], ◌∷◌, ◌++◌, ==_iff, bit_or, arith, length, take, drop, get_or, overwrite,
  take-append, drop-append, length-append, length-take, length-drop, drop-all, append_assoc,
}
use softupdate.Prelude.Int.{pos}
use softupdate.Bits.{bit_or-eq-add, bit_or_comm}
use softupdate.Eeprom.{reply}
use softupdate.Board.Ftdi.{
  Ftdi, Holds, mix_word, checksum_words, ft2232_checksum, check_options, read_options, with_options,
  write_status, replace_options, write_options,
}

-- The rounds do not look behind the words that they take.
checksum_words-append :
    (n c : ℕ) (xs ys : List ℕ)
    → length xs ≡ 2 * n
    → checksum_words n c (xs ++ ys) ≡ checksum_words n c xs
unfolding checksum_words
checksum_words-append zero c xs ys h = refl
checksum_words-append (suc n) c [] ys h = absurd (omega arith)
checksum_words-append (suc n) c (x ∷ []) ys h = absurd (omega arith)
checksum_words-append (suc n) c (lo ∷ hi ∷ xs) ys h =
    checksum_words-append n (mix_word c lo hi) xs ys (omega arith)

checksum_words-bound : (n c : ℕ) (xs : List ℕ) → c < 65536 → checksum_words n c xs < 65536
unfolding checksum_words mix_word
checksum_words-bound zero c xs h = h
checksum_words-bound (suc n) c [] h = h
checksum_words-bound (suc n) c (x ∷ []) h = h
checksum_words-bound (suc n) c (lo ∷ hi ∷ xs) h =
    checksum_words-bound n (mix_word c lo hi) xs (omega arith)

get_or-append :
    (xs ys : List ℕ) (n i : ℕ) → n ≡ length xs + i → get_or (xs ++ ys) n 0 ≡ get_or ys i 0
get_or-append [] ys n i h = ap (λ t. get_or ys t 0) (omega arith)
get_or-append (x ∷ xs) ys zero i h = absurd (omega arith)
get_or-append (x ∷ xs) ys (suc n) i h = get_or-append xs ys n i (omega arith)

module _ {W : Type 0} (ftdi : Ftdi W) (mem : W → List ℕ) (law : Holds ftdi mem) where
  -- The bytes written: the old ones up to the options, the options, their checksum.
  layout :
      (options e : List ℕ)
      → length options ≡ 14
      → length e ≡ 128
      → (body : List ℕ) × (body ≡ take 112 e ++ options)
        × (length body ≡ 126)
        × (with_options ftdi options e
            ≡ body ++ (ft2232_checksum body % 256 ∷ ft2232_checksum body / 256 % 256 ∷ []))
  unfolding with_options ft2232_checksum
  layout options e ho he = (
    body,
    refl,
    size,
    ap
          (λ t.
            overwrite t 126
              (checksum_words 63 0xAAAA t % 256 ∷ checksum_words 63 0xAAAA t / 256 % 256 ∷ []))
          whole
        ∙ rw (checksum_words-append 63 0xAAAA body tail size, take-append body tail 126 size, gone)
            refl,
  )
    where
      body : List ℕ
      body = take 112 e ++ options

      tail : List ℕ
      tail = drop (112 + length options) e

      size : length body ≡ 126
      size = omega (arith, length-append (take 112 e) options, length-take 112 e)

      whole : overwrite e 112 options ≡ body ++ tail
      whole = sym (append_assoc (take 112 e) options tail)

      gone : drop 128 (body ++ tail) ≡ []
      gone =
          drop-all (body ++ tail) 128
            (omega (arith, size, length-append body tail, length-drop (112 + length options) e))

  joined : (c : ℕ) → c < 65536 → bit_or (c / 256 % 256 * 256) (c % 256) ≡ c
  joined c h =
      bit_or_comm (c / 256 % 256 * 256) (c % 256)
      ∙ bit_or-eq-add 8 (c % 256) (c / 256 % 256) (omega arith)
      ∙ omega arith

  accepted :
      (options body e : List ℕ) (w2 : W)
      → length options ≡ 14
      → length e ≡ 128
      → body ≡ take 112 e ++ options
      → length body ≡ 126
      → check_options ftdi
          (some (body ++ (ft2232_checksum body % 256 ∷ ft2232_checksum body / 256 % 256 ∷ [])), w2)
        ≡ reply (pos 0) options w2
  unfolding check_options ft2232_checksum
  accepted options body e w2 ho he shape size =
      rw
        (
          checksum_words-append 63 0xAAAA body _ size,
          get_or-append body (c % 256 ∷ c / 256 % 256 ∷ []) 127 1 (omega (arith, size)),
          get_or-append body (c % 256 ∷ c / 256 % 256 ∷ []) 126 0 (omega (arith, size)),
          joined c (checksum_words-bound 63 0xAAAA body (omega arith)),
          (==_iff c c).1 refl,
        )
        (ap (λ t. reply (pos 0) t w2) found)
    where
      c : ℕ
      c = checksum_words 63 0xAAAA body

      found : take 14 (drop 112 (body ++ (c % 256 ∷ c / 256 % 256 ∷ []))) ≡ options
      found =
          ap (λ t. take 14 (drop 112 (t ++ (c % 256 ∷ c / 256 % 256 ∷ [])))) shape
          ∙ ap (λ t. take 14 (drop 112 t)) (append_assoc (take 112 e) options _)
          ∙ ap (take 14) (drop-append (take 112 e) _ 112 (omega (arith, length-take 112 e)))
          ∙ take-append options _ 14 ho

  write_done : (x : Bool × W) (w1 : W) → write_status ftdi x ≡ (pos 0, w1) → x ≡ (true, w1)
  unfolding write_status
  write_done (true, w) w1 e = ap (λ t. (true, t.1)) e
  write_done (false, w) w1 e = cc (ap (λ t. t.0) e)

  stored :
      (options : List ℕ) (w w1 : W) (x : Option (List ℕ) × W)
      → ftdi.read_eeprom w ≡ x
      → replace_options ftdi options x ≡ (pos 0, w1)
      → mem w1 ≡ with_options ftdi options (mem w)
  unfolding replace_options
  stored options w w1 (none, w') r d = cc (ap (λ t. t.0) d)
  stored options w w1 (some old, w') r d =
      law.writes _ w' w1 (write_done _ w1 d)
      ∙ ap (with_options ftdi options) (law.reads old w w' r).0

  -- When writing reports success and reading after it does not fail to reach the chip, the
  -- checksum matches, and the options read are the 14 bytes that were written.
  pub read_options-write_options :
      (options : List ℕ) (w w1 : W)
      → length options ≡ 14
      → write_options ftdi options w ≡ (pos 0, w1)
      → (e : List ℕ) (w2 : W) → ftdi.read_eeprom w1 ≡ (some e, w2)
      → read_options ftdi w1 ≡ reply (pos 0) options w2
  unfolding read_options write_options
  read_options-write_options options w w1 ho done e w2 got =
      let (body, shape, size, laid) = layout options (mem w) ho (law.size w) in
      ap (check_options ftdi) got
      ∙ ap (λ t. check_options ftdi (some t, w2))
          ((law.reads e w1 w2 got).0 ∙ stored options w w1 (ftdi.read_eeprom w) refl done ∙ laid)
      ∙ accepted options body (mem w) w2 ho (law.size w) shape size
