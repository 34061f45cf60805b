-- ===== src/Service/Catalog/Frames.antt =====
-- The frames of a catalogue.
use mathlib.Core.Path.{subst}
use softupdate.Prelude.{
  Option, none, some, ◌⊎◌, ltb, ℕ, ◌+◌, ◌≤◌, ◌<◌, ◌≡◌, refl, sym, ap, ◌∙◌, Bool, true, false, List,
  [], ◌∷◌, ◌++◌, map, inl, inr, append_assoc, append-nil, arith, leb, if◌then◌else◌, Bool-cases,
  length, length-append,
}
use softupdate.Service.State.{System, nr_maxpacklen}
use softupdate.Service.Sends.{packet}
use softupdate.Service.Catalog.Names.{
  Listed, entry, others_text, names_text, names_text-snoc, shown, flat, AllShort,
}
use softupdate.Service.Catalog.{
  msg_getcatalog, is_dots, is_full, separated, inside_path, send_or_give_up, add_name, list_names,
  name_size, looked_up, marked, then_list, end_list,
}

module _ {W : Type 0} (sys : System W) (sent : W → List (ℕ × List ℕ)) (folder : List ℕ → Bool)
    (listed : Listed sys sent folder) (path : List ℕ) where
  abbrev pub frame : List (List ℕ) → ℕ × List ℕ
  frame names = packet msg_getcatalog (names_text folder path names)

  abbrev pub last_frame : List (List ℕ) → ℕ × List ℕ
  last_frame names = packet msg_getcatalog (names_text folder path names ++ (b'?' ∷ []))

  abbrev AllFit : List (List (List ℕ)) → Type 0
  AllFit [] = ◌≡◌ {A = ℕ} 0 0
  AllFit (g ∷ gs) = (length (names_text folder path g) < nr_maxpacklen) × AllFit gs

  -- The last text has no room for a "?" and a NUL, and there is no outcome; or the frames have gone
  -- out behind those of `log`.
  abbrev pub Ending : List (ℕ × List ℕ) → Option W → List (List (List ℕ)) → List (List ℕ) → Type 0
  Ending log r groups last =
      ((length (names_text folder path last) + 1 ≡ nr_maxpacklen) × (r ≡ none))
      ⊎ ((w' : W) × (r ≡ some w')
          × (length (names_text folder path last) + 1 < nr_maxpacklen)
          × (sent w' ≡ log ++ (map frame groups ++ (last_frame last ∷ []))))

  -- The names as they are shared out to the frames.
  abbrev pub Split : List (ℕ × List ℕ) → Option W → List (List ℕ) → Type 0
  Split log r names =
      (groups : List (List (List ℕ))) × (last : List (List ℕ)) × Ending log r groups last
      × (flat groups ++ last ≡ names)
      × AllFit groups

  pub along :
      {a b : List (ℕ × List ℕ)} {r t : Option W} {xs ys : List (List ℕ)}
      → a ≡ b
      → r ≡ t
      → xs ≡ ys
      → Split b t xs
      → Split a r ys
  along {b = b} {r = r} {t = t} {ys = ys} e f g split =
      subst (λ l. Split l r ys) (sym e)
        (subst (λ o. Split b o ys) (sym f) (subst (λ names. Split b t names) g split))

  -- A frame before them.
  pushed :
      (log : List (ℕ × List ℕ)) (r : Option W) (es names : List (List ℕ))
      → length (names_text folder path es) < nr_maxpacklen
      → Split (log ++ (frame es ∷ [])) r names
      → Split log r (es ++ names)
  pushed log r es names fits (groups, last, ending, whole, fit) = (
    es ∷ groups,
    last,
    behind ending,
    append_assoc es (flat groups) last ∙ ap (λ t. es ++ t) whole,
    (fits, fit),
  )
    where
      behind : Ending (log ++ (frame es ∷ [])) r groups last → Ending log r (es ∷ groups) last
      behind (inl over) = inl over
      behind (inr (w', e, room, logged)) = inr (
        w',
        e,
        room,
        logged ∙ append_assoc log (frame es ∷ []) (map frame groups ++ (last_frame last ∷ [])),
      )

  sent_ok :
      (text : List ℕ) (w : W)
      → send_or_give_up sys path text w ≡ (true, (sys.send_data msg_getcatalog text w).1)
  unfolding send_or_give_up
  sent_ok text w = rw (send_or_give_up, listed.accepts text w) refl

  module _ (room : length path ≤ 543) where
    added :
        (es : List (List ℕ)) (name : List ℕ) (w : W)
        → length name ≤ 255
        → length (names_text folder path (es ++ (name ∷ []))) < nr_maxpacklen
        → add_name sys path (names_text folder path es) name w
          ≡ some (
            names_text folder path (es ++ (name ∷ [])),
            (sys.is_folder (inside_path path name) w).1,
          )
    unfolding add_name looked_up marked
    added es name w short fits =
        let inside : ltb (length (inside_path path name)) name_size ≡ true =
          ground (arith, length-append path (b'/' ∷ name)) in
        let text = names_text-snoc folder path es name in
        let enough : ltb (length (separated (names_text folder path es) ++ entry folder path name))
              nr_maxpacklen
            ≡ true =
          rw text (ground arith) in
        rw (add_name, looked_up, inside, marked, listed.kind (inside_path path name) w, enough)
          (ap (λ t. some (t, (sys.is_folder (inside_path path name) w).1)) text)

    snoc_fits :
        (es : List (List ℕ)) (name : List ℕ)
        → is_full sys path (names_text folder path es) name ≡ false
        → length (names_text folder path (es ++ (name ∷ []))) < nr_maxpacklen
    snoc_fits es name fits = omega (
      arith,
      ap length (names_text-snoc folder path es name),
      length-append (separated (names_text folder path es)) (entry folder path name),
      separated_length (names_text folder path es),
      not_full (length (names_text folder path es)) (length name) fits,
    )
      where
        separated_length : (buf : List ℕ) → length (separated buf) ≤ length buf + 1
        separated_length [] = omega arith
        separated_length (c ∷ buf) = grind (arith, length-append (c ∷ buf) (b':' ∷ []))

        not_full :
            (a b : ℕ) → leb nr_maxpacklen (a + 1 + 1 + b) ≡ false → a + 1 + 1 + b < nr_maxpacklen
        not_full a b h = ground (arith, h)

    -- What the rest of the names comes to, whatever is in the text already.
    abbrev ListingSent : List (List ℕ) → Type 0
    ListingSent names =
        (es : List (List ℕ)) (w : W)
        → length (names_text folder path es) < nr_maxpacklen
        → Split (sent w) (list_names sys path (names_text folder path es) names w)
            (es ++ shown names)

    pub after_name :
        (names es : List (List ℕ)) (name : List ℕ) (w : W)
        → ListingSent names
        → length name ≤ 255
        → length (names_text folder path (es ++ (name ∷ []))) < nr_maxpacklen
        → Split
            (sent w)
            (then_list sys path
              (add_name sys path (names_text folder path es) name w)
              (λ text w'. list_names sys path text names w'))
            (es ++ (name ∷ shown names))
    unfolding then_list
    after_name names es name w go short fits =
        along (sym (listed.looking (inside_path path name) w))
          (ap (λ o. then_list sys path o (λ text w'. list_names sys path text names w'))
            (added es name w short fits))
          (append_assoc es (name ∷ []) (shown names))
          (go (es ++ (name ∷ [])) (sys.is_folder (inside_path path name) w).1 fits)

    step_dots :
        (buf name : List ℕ) (names : List (List ℕ)) (w : W)
        → is_dots name ≡ true
        → list_names sys path buf (name ∷ names) w ≡ list_names sys path buf names w
    unfolding list_names
    step_dots buf name names w dots = rw (list_names, dots) refl

    step_add :
        (buf name : List ℕ) (names : List (List ℕ)) (w : W)
        → is_dots name ≡ false
        → is_full sys path buf name ≡ false
        → list_names sys path buf (name ∷ names) w
          ≡ then_list sys path
              (add_name sys path buf name w)
              (λ text w'. list_names sys path text names w')
    unfolding list_names
    step_add buf name names w dots fits = rw (list_names, dots, fits) refl

    step_full :
        (buf name : List ℕ) (names : List (List ℕ)) (w : W)
        → is_dots name ≡ false
        → is_full sys path buf name ≡ true
        → list_names sys path buf (name ∷ names) w
          ≡ then_list sys path
              (add_name sys path [] name (sys.send_data msg_getcatalog buf w).1)
              (λ text w'. list_names sys path text names w')
    unfolding list_names
    step_full buf name names w dots full =
        let given = sent_ok buf w in
        rw (list_names, dots, full, given)
          (ap
            (λ (p : Bool × W).
              then_list sys path (add_name sys path [] name p.1)
                (λ text w'. list_names sys path text names w'))
            given)

    -- The name that did not fit starts the next frame.
    after_frame :
        (names es : List (List ℕ)) (name : List ℕ) (w : W)
        → ListingSent names
        → length name ≤ 255
        → length (names_text folder path es) < nr_maxpacklen
        → Split
            (sent w)
            (then_list sys path
              (add_name sys path [] name
                (sys.send_data msg_getcatalog (names_text folder path es) w).1)
              (λ text w'. list_names sys path text names w'))
            (es ++ (name ∷ shown names))
    after_frame names es name w go short fits =
        let w1 = (sys.send_data msg_getcatalog (names_text folder path es) w).1 in
        pushed (sent w) _ es (name ∷ shown names) fits (
          along (sym (listed.logs (names_text folder path es) w)) refl refl (
            after_name names [] name w1 go short
              (omega (arith, length-append (entry folder path name) (others_text folder path [])))))

    at_end :
        (es : List (List ℕ)) (w : W)
        → length (names_text folder path es) < nr_maxpacklen
        → Split (sent w) (end_list sys path (names_text folder path es) w) (es ++ [])
    unfolding end_list
    at_end es w fits =
        let text = names_text folder path es in
        (
          [],
          es,
          ending (Bool-cases (ltb (length text + 1) nr_maxpacklen)),
          sym (append-nil es),
          refl,
        )
      where
        ending :
            (ltb (length (names_text folder path es) + 1) nr_maxpacklen ≡ true)
              ⊎ (ltb (length (names_text folder path es) + 1) nr_maxpacklen ≡ false)
            → Ending (sent w) (end_list sys path (names_text folder path es) w) [] es
        ending (inl inside) = inr (
          (send_or_give_up sys path (names_text folder path es ++ (b'?' ∷ [])) w).1,
          rw (end_list, inside) refl,
          ground (arith, inside),
          ap (λ (p : Bool × W). sent p.1) (sent_ok (names_text folder path es ++ (b'?' ∷ [])) w)
              ∙ listed.logs (names_text folder path es ++ (b'?' ∷ [])) w,
        )
        ending (inr outside) = inl (ground (arith, fits, outside), rw (end_list, outside) refl)

    pub list_names_lem : (names : List (List ℕ)) → AllShort names → ListingSent names
    unfolding list_names
    list_names_lem [] short = λ es w fits. at_end es w fits
    list_names_lem (name ∷ names) (short, shorts) = λ es w fits.
        let buf = names_text folder path es in
        elim (Bool-cases (is_dots name)) [
          | inl dots ↦
              along refl (step_dots buf name names w dots)
                (ap (λ (b : Bool). es ++ (if b then shown names else name ∷ shown names))
                  (sym dots))
                (list_names_lem names shorts es w fits)
          | inr other ↦
              let same =
                ap (λ (b : Bool). es ++ (if b then shown names else name ∷ shown names))
                  (sym other) in
              elim (Bool-cases (is_full sys path buf name)) [
                | inr fitting ↦ along refl (step_add buf name names w other fitting) same (
                    after_name names es name w (list_names_lem names shorts) short
                      (snoc_fits es name fitting))
                | inl full ↦
                    along refl (step_full buf name names w other full) same
                      (after_frame names es name w (list_names_lem names shorts) short fits)
              ]
        ]
