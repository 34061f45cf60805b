-- ===== src/Service/Runs.antt =====
-- Uploads, scripts and module memory on small machines.
use softupdate.Prelude.{
  ◌∙◌, inr, ℕ, ◌≤◌, ◌≡◌, refl, sym, ap, Bool, true, false, ◌||◌, none, some, List, [], ◌∷◌, ◌++◌,
  arith, length, overwrite, bytes_eq, bytes_eq_refl, take-all,
}
use softupdate.Prelude.Int.{pos, ◌+ℤ◌, ltb_ℤ}
use softupdate.Text.{codes, dec_int}
use softupdate.Eeprom.{reply, eeprom_open, eeprom_close, eeprom_read_buf, eeprom_write_buf}
use softupdate.Eeprom.Tests.{cells, blank, chip-Reaches}
use softupdate.Board.Panel.{to_uint, read_option_buffer, write_option_buffer}
use softupdate.Board.Tests.{machine, keeps}
use softupdate.Client.Frame.{le4, le4_value}
use softupdate.Service.State.{
  System, Server, done, undefined, answer, common_server, close_send_file, int_at, int_value,
  int_bytes,
}
use softupdate.Service.Sends.{concat}
use softupdate.Service.Directory.{Tree, create_dir, create_from, make_prefix, made, create_dir_lem}
use softupdate.Service.Upload.{send_file_name, directory_of, last_slash, up_to}
use softupdate.Service.Upload.Received.{Stores, send_files, send_file_name-send_files}
use softupdate.Service.Loading.{
  memory_script_start, memory_script_part, append_text, start_thread, msg_memoryscript_start,
}
use softupdate.Service.Loading.Whole.{memory_script_part-memory_script_start}
use softupdate.Service.Modules.{read_module, write_module, msg_readmodulebuf, msg_writemodulebuf}
use softupdate.Service.Modules.Info.{module_info}
use softupdate.Service.Modules.Buffers.{read_module-undefined, write_module-read_module}
use softupdate.Service.Tests.{still_machine, still}

-- A disk is the list of its paths.
abbrev Disk : Type 0
Disk = List (List ℕ)

abbrev found : List ℕ → Disk → Bool
found p [] = false
found p (q ∷ qs) = bytes_eq p q || found p qs

abbrev disk : System Disk
disk = record (still still_machine) { access = λ p w. (found p w, w); mkdir = λ p w. (true, p ∷ w) }

disk-Tree : Tree disk found
disk-Tree = record {
  access_found = λ p w h. h;
  access_keeps = λ p q w h. h;
  mkdir_made = λ p w h. ap (λ b. b || found p w) (bytes_eq_refl p);
  mkdir_keeps = λ p q w h. keeps_found (bytes_eq q p) (found q w) h;
}
  where
    keeps_found : (a b : Bool) → b ≡ true → (a || b) ≡ true
    keeps_found true b h = refl
    keeps_found false b h = h

makes_dirs : create_dir disk (codes "/a/b") [] ≡ some (true, codes "/a/b" ∷ codes "/a" ∷ [])
unfolding create_dir create_from make_prefix made
makes_dirs = refl

create_dir_lem_example : found (codes "/a") (codes "/a/b" ∷ codes "/a" ∷ []) ≡ true
create_dir_lem_example =
    create_dir_lem disk found (codes "/a/b") [] (codes "/a/b" ∷ codes "/a" ∷ []) 1 disk-Tree
      makes_dirs refl

-- The world is the file.
abbrev vault : System (List ℕ)
vault = record (still still_machine) {
  fopen_append = λ path w. (some 3, w);
  remove = λ path w. [];
  fwrite = λ fp bytes w. (length bytes, w ++ bytes);
}

abbrev holds : ℕ → List ℕ → List ℕ
holds fp w = w

vault-Stores : Stores vault holds
vault-Stores = record {
  fresh = λ path fp w h. refl;
  appends = λ fp bytes w. ap (λ t. w ++ t) (sym (take-all bytes (length bytes) (omega arith)));
  closes = λ fp w. refl;
  asks = λ fp path w. refl;
  sends = λ fp type bytes w. refl;
}

directory_there :
    create_dir vault
      (directory_of (codes "/d/f"))
      (close_send_file vault common_server.fp_send_file (codes "old"))
    ≡ some (true, codes "old")
unfolding create_dir create_from make_prefix made directory_of last_slash up_to close_send_file
    common_server
directory_there = refl

abbrev chunks : List (List ℕ)
chunks = codes "new" ∷ codes " text" ∷ []

send_file_name-send_files_example :
    (s' : Server) × (w' : List ℕ) × (send_files vault chunks
        (send_file_name vault (codes "/d/f") common_server (codes "old"))
      ≡ done s' w')
    × (s'.fp_send_file ≡ none)
    × (s'.send_file_path ≡ none)
    × (holds 3 w' ≡ concat chunks)
send_file_name-send_files_example =
    send_file_name-send_files vault holds (codes "/d/f") chunks 3 common_server (codes "old")
      (codes "old") vault-Stores (λ bytes w. refl) directory_there refl ((cc), ((cc), refl))

no_text : common_server.memory_script_text ≡ none
unfolding common_server
no_text = refl

not_cancelled : common_server.is_memory_script_cancel ≡ false
unfolding common_server
not_cancelled = refl

abbrev stuck : Server
stuck = record common_server { is_memory_script_finish = false }

too_early : memory_script_part vault (codes "S 5;") common_server [] ≡ done stuck []
unfolding memory_script_part append_text start_thread common_server
too_early = refl

memory_script_part-memory_script_start_example :
    memory_script_start vault (codes "4") stuck []
    ≡ answer vault msg_memoryscript_start (b'1' ∷ []) stuck []
memory_script_part-memory_script_start_example =
    memory_script_part-memory_script_start vault (codes "S 5;") (codes "4") common_server stuck []
      [] [] no_text not_cancelled too_early

-- The panel's memory.
abbrev panel : System (List ℕ)
panel = still machine

abbrev payload : List ℕ
payload = 7 ∷ 8 ∷ 9 ∷ []

abbrev stored : List ℕ
stored = overwrite blank 2 payload

stores : write_option_buffer panel.machine.susi payload (pos 2) (pos 3) blank ≡ some (pos 0, stored)
unfolding write_option_buffer to_uint eeprom_open eeprom_close eeprom_write_buf
stores = refl

loads :
    read_option_buffer panel.machine.susi (pos 2) (pos 3) stored
    ≡ some (reply (pos 0) payload stored)
unfolding read_option_buffer to_uint eeprom_open eeprom_close eeprom_read_buf
loads = refl

write_module-read_module_example :
    (write_module panel (module_info 2 3 6 ++ payload) common_server blank
      ≡ answer panel msg_writemodulebuf (dec_int (pos 0)) common_server stored)
    × (read_module panel (module_info 2 3 6 ++ []) common_server stored
        ≡ answer panel msg_readmodulebuf (dec_int (pos 0) ++ (b',' ∷ payload)) common_server stored)
write_module-read_module_example =
    write_module-read_module panel cells 6 payload 2 common_server blank stored
      (reply (pos 0) payload stored) chip-Reaches keeps (λ type bytes w. refl) (omega arith)
      (omega arith) (omega arith) (omega arith) stores loads refl

asks_much : int_at 1 (module_info 0 300 6) ≡ pos 300
unfolding int_at int_value int_bytes le4 le4_value
asks_much = refl

twelve : 12 ≤ length (module_info 0 300 6)
unfolding int_bytes le4
twelve = omega arith

refused : ltb_ℤ (pos 255) (int_at 0 (module_info 0 300 6) +ℤ int_at 1 (module_info 0 300 6)) ≡ true
unfolding int_at int_value int_bytes le4 le4_value ◌+ℤ◌
refused = refl

-- So this request is answered from behind the buffer.
asked_too_much : read_module panel (module_info 0 300 6) common_server blank ≡ undefined
asked_too_much =
    (read_module-undefined panel (module_info 0 300 6) common_server blank twelve
        (λ e. cc (sym refused ∙ e))).1
      (rw asks_much (inr refl))
