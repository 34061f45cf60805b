-- ===== src/Service/Upload/Received.antt =====
-- What a file holds that has been received.
use softupdate.Prelude.{
  ℕ, ◌≡◌, ◌≢◌, refl, sym, ap, ◌∙◌, true, false, Option, none, some, List, [], ◌∷◌, ◌++◌,
  append_assoc, append-nil, arith, if◌then◌else◌, length, take, take-all,
}
use softupdate.Board.Hex.{c_str}
use softupdate.Service.State.{System, Server, Handled, done, waits, undefined, close_send_file}
use softupdate.Service.Sends.{concat}
use softupdate.Service.Directory.{create_dir}
use softupdate.Service.Upload.{
  send_file, send_file_name, directory_of, received, written, finished, stat_path, remove_path,
  name_answer, with_directory, msg_sendfile,
}

-- `holds fp w` is what the file behind a handle holds. A file that is opened after its removal is
-- empty; a write appends what it has written; closing and asking for the size leave the bytes, and
-- so do frames that are sent.
pub record Stores {W : Type 0} (sys : System W) (holds : ℕ → W → List ℕ) : Type 0 where
  pub fresh :
      (path : List ℕ) (fp : ℕ) (w : W)
      → (sys.fopen_append path (sys.remove path w)).0 ≡ some fp
      → holds fp (sys.fopen_append path (sys.remove path w)).1 ≡ []
  pub appends :
      (fp : ℕ) (bytes : List ℕ) (w : W)
      → holds fp (sys.fwrite fp bytes w).1 ≡ holds fp w ++ take (sys.fwrite fp bytes w).0 bytes
  pub closes : (fp : ℕ) (w : W) → holds fp (sys.fclose fp w) ≡ holds fp w
  pub asks : (fp : ℕ) (path : List ℕ) (w : W) → holds fp (sys.stat path w).1 ≡ holds fp w
  pub sends :
      (fp type : ℕ) (bytes : List ℕ) (w : W) → holds fp (sys.send_data type bytes w).1 ≡ holds fp w

-- The frames of an upload one after another.
module _ {W : Type 0} (sys : System W) where
  unfoldable pub then_send_file : List ℕ → Handled W → Handled W
  unfolding send_file
  then_send_file bytes (done s w) = send_file sys bytes s w
  then_send_file bytes waits = waits
  then_send_file bytes undefined = undefined

  unfoldable pub send_files : List (List ℕ) → Handled W → Handled W
  unfolding then_send_file
  send_files [] h = then_send_file [] h
  send_files (b ∷ bs) h = send_files bs (then_send_file b h)

abbrev pub NoneEmpty : List (List ℕ) → Type 0
NoneEmpty [] = ◌≡◌ {A = ℕ} 0 0
NoneEmpty (b ∷ bs) = (b ≢ []) × NoneEmpty bs

module _ {W : Type 0} (sys : System W) (holds : ℕ → W → List ℕ) (stores : Stores sys holds) (fp : ℕ)
    (whole : (bytes : List ℕ) (w : W) → (sys.fwrite fp bytes w).0 ≡ length bytes) where
  chunk_written :
      (bytes : List ℕ) (s : Server) (w : W)
      → bytes ≢ []
      → s.fp_send_file ≡ some fp
      → s.is_send_file_cancel ≡ false
      → send_file sys bytes s w ≡ done s (sys.fwrite fp bytes w).1
  unfolding send_file received written
  chunk_written [] s w h e on = absurd (h refl)
  chunk_written (b ∷ bytes) s w h e on = rw (e, received, on) (ground (arith, whole (b ∷ bytes) w))

  chunk_holds : (bytes : List ℕ) (w : W) → holds fp (sys.fwrite fp bytes w).1 ≡ holds fp w ++ bytes
  chunk_holds bytes w =
      stores.appends fp bytes w
      ∙ ap (λ n. holds fp w ++ take n bytes) (whole bytes w)
      ∙ ap (λ t. holds fp w ++ t) (take-all bytes (length bytes) (omega arith))

  stat_holds : (path : Option (List ℕ)) (w : W) → holds fp (stat_path sys path w) ≡ holds fp w
  unfolding stat_path
  stat_holds none w = refl
  stat_holds (some bytes) w = stores.asks fp (c_str bytes) w

  end_holds :
      (s : Server) (w : W)
      → s.fp_send_file ≡ some fp
      → s.is_send_file_cancel ≡ false
      → (s' : Server) × (w' : W) × (send_file sys [] s w ≡ done s' w')
        × (s'.fp_send_file ≡ none)
        × (s'.send_file_path ≡ none)
        × (holds fp w' ≡ holds fp w)
  unfolding send_file received finished stat_path
  end_holds s w e on =
      let closed = sys.fclose fp w in
      let after = record s { fp_send_file = none; send_file_path = none } in
      (
        after,
        stat_path sys s.send_file_path closed,
        ap (λ o. received sys o [] s w) e
            ∙ ap
                (λ b. done after (
                  if b
                  then remove_path sys s.send_file_path closed
                  else stat_path sys s.send_file_path closed))
                on,
        refl,
        refl,
        stat_holds s.send_file_path closed ∙ stores.closes fp w,
      )

  chunks_hold :
      (bs : List (List ℕ)) (s : Server) (w : W)
      → NoneEmpty bs
      → s.fp_send_file ≡ some fp
      → s.is_send_file_cancel ≡ false
      → (s' : Server) × (w' : W) × (send_files sys bs (done s w) ≡ done s' w')
        × (s'.fp_send_file ≡ none)
        × (s'.send_file_path ≡ none)
        × (holds fp w' ≡ holds fp w ++ concat bs)
  unfolding send_files then_send_file
  chunks_hold [] s w k e on =
      let (s', w', ran, no_file, no_path, kept) = end_holds s w e on in
      (s', w', ran, no_file, no_path, kept ∙ sym (append-nil (holds fp w)))
  chunks_hold (b ∷ bs) s w (k, ks) e on =
      let (s', w', ran, no_file, no_path, kept) = chunks_hold bs s (sys.fwrite fp b w).1 ks e on in
      (
        s',
        w',
        ap (send_files sys bs) (chunk_written b s w k e on) ∙ ran,
        no_file,
        no_path,
        kept ∙ ap (λ t. t ++ concat bs) (chunk_holds b w) ∙ append_assoc (holds fp w) b (concat bs),
      )

-- An upload whose directory is there and whose file opens, with every write whole, leaves the
-- bytes of its MSG_SENDFILE frames in the file, in order and nothing else, and the server ready
-- for the next: the frames before the empty last one are not empty, and no MSG_SENDFILE_CANCEL
-- comes between.
pub send_file_name-send_files :
    {W : Type 0} (sys : System W) (holds : ℕ → W → List ℕ) (bytes : List ℕ) (bs : List (List ℕ))
    (fp : ℕ) (s : Server) (w made : W)
    → Stores sys holds
    → ((bytes : List ℕ) (w : W) → (sys.fwrite fp bytes w).0 ≡ length bytes)
    → create_dir sys (directory_of bytes) (close_send_file sys s.fp_send_file w) ≡ some (true, made)
    → (sys.fopen_append (c_str bytes) (sys.remove (c_str bytes) made)).0 ≡ some fp
    → NoneEmpty bs
    → (s' : Server) × (w' : W) × (send_files sys bs (send_file_name sys bytes s w) ≡ done s' w')
      × (s'.fp_send_file ≡ none)
      × (s'.send_file_path ≡ none)
      × (holds fp w' ≡ concat bs)
unfolding send_file_name with_directory name_answer
send_file_name-send_files {W = W} sys holds bytes bs fp s w made stores whole dir opens k =
    let (s', w', ran, no_file, no_path, kept) =
      chunks_hold sys holds stores fp whole bs ready (sys.send_data msg_sendfile (b'1' ∷ []) file).1
        k refl refl in
    (
      s',
      w',
      ap (λ o. send_files sys bs (with_directory sys bytes o s)) dir
          ∙ ap (λ o. send_files sys bs (name_answer sys bytes (o, file) s)) opens
          ∙ ran,
      no_file,
      no_path,
      kept
          ∙ ap (λ t. t ++ concat bs)
              (stores.sends fp msg_sendfile (b'1' ∷ []) file
                ∙ stores.fresh (c_str bytes) fp made opens),
    )
  where
    file : W
    file = (sys.fopen_append (c_str bytes) (sys.remove (c_str bytes) made)).1

    ready : Server
    ready = record s {
      fp_send_file = some fp;
      send_file_path = some bytes;
      is_send_file_cancel = false;
    }
