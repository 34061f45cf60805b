-- ===== src/Service/Download.antt =====
-- A file for the client: `DownFile_DoWork`, and the requests that start and stop it.
use softupdate.Prelude.{
  ℕ, zero, suc, ◌+◌, ◌-◌, ◌≤◌, ◌<◌, ◌≡◌, ◌≢◌, refl, sym, ap, ◌∙◌, Bool, true, false, Option, none,
  some, List, [], ◌∷◌, ◌++◌, map, append_assoc, append-nil, take-append-drop, ◌⊎◌, inl, inr, arith,
  Bool-cases, length, take, drop, length-take, length-drop,
}
use softupdate.Service.State.{
  System, Server, Job, down_file, Handled, done, waits, undefined, nr_maxpacklen,
}
use softupdate.Board.Hex.{c_str}
pub mod Sent

abbrev pub msg_getfile : ℕ
msg_getfile = 0x102

module _ {W : Type 0} (sys : System W) (cancelled : ℕ → Bool) where
  -- The rounds from `i` on, with what is left of the file; `cancelled` says what the flag is in a
  -- round. `none` out of fuel.
  unfoldable pub send_blocks : ℕ → ℕ → List ℕ → W → Option W
  send_blocks zero i file w = none
  send_blocks (suc fuel) i [] w = some w
  send_blocks (suc fuel) i (c ∷ file) w = elim (cancelled i) [
    | true ↦ some w
    | false ↦ elim (sys.send_data msg_getfile (take nr_maxpacklen (c ∷ file)) w).0 [
      | true ↦
          send_blocks fuel (i + 1) (drop nr_maxpacklen (c ∷ file))
            (sys.send_data msg_getfile (take nr_maxpacklen (c ∷ file)) w).1
      | false ↦
          some
            (sys.send_data msg_getfile []
              (sys.send_data msg_getfile (take nr_maxpacklen (c ∷ file)) w).1).1
    ]
  ]

  pub opened : Option (List ℕ) × W → Option W
  unfolding send_blocks
  opened (none, w) = some (sys.send_data msg_getfile [] w).1
  opened (some file, w) = send_blocks (suc (length file)) 0 file w

  -- A file that cannot be opened is an empty answer.
  unfoldable pub down_file_do_work : List ℕ → W → Option W
  unfolding opened
  down_file_do_work path w = opened (sys.fopen_read path w)

-- `MSG_GETFILE`: one download at a time. The path is copied as it came, and has to bring its NUL.
unfoldable pub get_file : {W : Type 0} → System W → List ℕ → Server → W → Handled W
get_file sys bytes s w = elim s.thread_down_file [
  | true ↦ waits
  | false ↦
      let (created, w1) = sys.pthread_create down_file w in
      done (record s { get_file_path = some bytes; thread_down_file = created }) w1
]

unfoldable pub get_file_cancel : {W : Type 0} → Server → W → Handled W
get_file_cancel s w = done (record s { is_get_file_cancel = true }) w

module _ {W : Type 0} (sys : System W) (cancelled : ℕ → Bool) (fuel i c : ℕ) (file : List ℕ)
    (w : W) where
  pub sent_block :
      cancelled i ≡ false
      → (sys.send_data msg_getfile (take nr_maxpacklen (c ∷ file)) w).0 ≡ true
      → send_blocks sys cancelled (suc fuel) i (c ∷ file) w
        ≡ send_blocks sys cancelled fuel
            (i + 1)
            (drop nr_maxpacklen (c ∷ file))
            (sys.send_data msg_getfile (take nr_maxpacklen (c ∷ file)) w).1
  unfolding send_blocks
  sent_block on ok = rw (send_blocks, on, ok) refl

  pub failed_block :
      cancelled i ≡ false
      → (sys.send_data msg_getfile (take nr_maxpacklen (c ∷ file)) w).0 ≡ false
      → send_blocks sys cancelled (suc fuel) i (c ∷ file) w
        ≡ some
            (sys.send_data msg_getfile []
              (sys.send_data msg_getfile (take nr_maxpacklen (c ∷ file)) w).1).1
  unfolding send_blocks
  failed_block on ok = rw (send_blocks, on, ok) refl

  pub cancelled_block :
      cancelled i ≡ true → send_blocks sys cancelled (suc fuel) i (c ∷ file) w ≡ some w
  unfolding send_blocks
  cancelled_block stop = rw (send_blocks, stop) refl
