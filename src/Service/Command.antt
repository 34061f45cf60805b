-- ===== src/Service/Command.antt =====
-- A command of the client's: `CMD_DoWork`, and the requests that start and stop it.
use softupdate.Prelude.{
  ℕ, ◌+◌, ◌≡◌, sym, ap, ◌∙◌, Bool, true, false, Option, none, some, List, [], ◌∷◌, ◌++◌, map,
}
use softupdate.Service.State.{System, Server, cmd, Handled, done, waits}
use softupdate.Service.Sends.{Sends, packet, log_next}

abbrev pub msg_cmd : ℕ
msg_cmd = 0x116

module _ {W : Type 0} (sys : System W) (cancelled : ℕ → Bool) where
  -- The lines of the output from the `i`-th on.
  unfoldable pub send_lines : ℕ → List (List ℕ) → W → W
  send_lines i [] w = w
  send_lines i (l ∷ ls) w = elim (cancelled i) [
    | true ↦ w
    | false ↦ elim (sys.send_data msg_cmd l w).0 [
      | true ↦ send_lines (i + 1) ls (sys.send_data msg_cmd l w).1
      | false ↦ (sys.send_data msg_cmd [] (sys.send_data msg_cmd l w).1).1
    ]
  ]

  -- The empty frame at the end, if the client has not cancelled.
  send_end : Bool → W → W
  send_end true w = w
  send_end false w = (sys.send_data msg_cmd [] w).1

  piped_from : Bool → Option (List (List ℕ)) × W → W
  unfolding send_lines send_end
  piped_from cancelled_end (none, w) = w
  piped_from cancelled_end (some lines, w) =
      send_end cancelled_end (sys.pclose (send_lines 0 lines w))

  unfoldable pub cmd_do_work : Bool → List ℕ → W → W
  unfolding piped_from
  cmd_do_work cancelled_end command w = piped_from cancelled_end (sys.popen command w)

-- `MSG_CMD`: one command at a time.
unfoldable pub cmd_request : {W : Type 0} → System W → List ℕ → Server → W → Handled W
cmd_request sys bytes s w = elim s.thread_cmd [
  | true ↦ waits
  | false ↦
      let (created, w1) = sys.pthread_create cmd w in
      done (record s { cmd_text = some bytes; thread_cmd = created }) w1
]

unfoldable pub cmd_cancel : {W : Type 0} → Server → W → Handled W
cmd_cancel s w = done (record s { is_cmd_cancel = true }) w

module _ {W : Type 0} (sys : System W) (sent : W → List (ℕ × List ℕ)) (sends : Sends sys sent) where
  send_lines_all :
      (cancelled : ℕ → Bool) (i : ℕ) (ls : List (List ℕ)) (w w' : W) (more : List (ℕ × List ℕ))
      → ((i : ℕ) → cancelled i ≡ false)
      → ((bytes : List ℕ) (w : W) → (sys.send_data msg_cmd bytes w).0 ≡ true)
      → sent w' ≡ sent (send_lines sys cancelled i ls w) ++ more
      → sent w' ≡ sent w ++ (map (packet msg_cmd) ls ++ more)
  unfolding send_lines
  send_lines_all cancelled i [] w w' more never accepts h = h
  send_lines_all cancelled i (l ∷ ls) w w' more never accepts h =
      log_next sys sent sends msg_cmd l w w' (map (packet msg_cmd) ls ++ more) (
        send_lines_all cancelled (i + 1) ls (sys.send_data msg_cmd l w).1 w' more never accepts
          (rw (send_lines, never i, accepts l w) at h))

-- With the cancel flag clear and every frame accepted, the lines of the command's output go out in
-- order as MSG_CMD frames, and behind them an empty one.
pub cmd_do_work-packet :
    {W : Type 0} (sys : System W) (sent : W → List (ℕ × List ℕ)) (cancelled : ℕ → Bool)
    (command : List ℕ) (lines : List (List ℕ)) (w running : W)
    → Sends sys sent
    → sys.popen command w ≡ (some lines, running)
    → ((i : ℕ) → cancelled i ≡ false)
    → ((bytes : List ℕ) (w : W) → (sys.send_data msg_cmd bytes w).0 ≡ true)
    → sent (cmd_do_work sys cancelled false command w)
      ≡ sent w ++ (map (packet msg_cmd) lines ++ (packet msg_cmd [] ∷ []))
unfolding cmd_do_work piped_from send_end
cmd_do_work-packet sys sent cancelled command lines w running sends h never accepts =
    ap (λ p. sent (piped_from sys cancelled false p)) h
    ∙ send_lines_all sys sent sends cancelled 0 lines running
        (sys.send_data msg_cmd [] (sys.pclose (send_lines sys cancelled 0 lines running))).1
        (packet msg_cmd [] ∷ []) never accepts
        (sends.logs msg_cmd [] (sys.pclose (send_lines sys cancelled 0 lines running))
          ∙ ap (λ t. t ++ (packet msg_cmd [] ∷ []))
              (sends.piped (send_lines sys cancelled 0 lines running)))
    ∙ ap (λ t. t ++ (map (packet msg_cmd) lines ++ (packet msg_cmd [] ∷ [])))
        (ap sent (sym (ap (λ t. t.1) h)) ∙ sends.piping command w)
