-- ===== src/Service/Tests.antt =====
-- The handlers on small machines.
use softupdate.Prelude.{
  ℕ, ◌≤◌, ◌<◌, Option, ◌≡◌, refl, Bool, true, false, none, some, List, [], ◌∷◌, ◌++◌, map, arith,
  length, bytes_eq,
}
use softupdate.Text.{codes}
use softupdate.Board.Hex.{c_str}
use softupdate.Board.Access.{Machine}
use softupdate.Service.State.{System, common_server}
use softupdate.Service.Sends.{Sends, packet, concat, AtEnd}
use softupdate.Service.Download.{msg_getfile, down_file_do_work}
use softupdate.Service.Download.Sent.{AllBlocks, down_file_do_work-whole, down_file_do_work-prefix}
use softupdate.Service.Catalog.{get_catalog, ended}
use softupdate.Service.Catalog.Names.{Listed, shown}
use softupdate.Service.Catalog.Frames.{Split}
use softupdate.Service.Catalog.Whole.{get_catalog-names_text}

-- A machine without boards or panel, on which every directory has the same names.
abbrev pub still_machine : {W : Type 0} → Machine W
still_machine = record {
  host = record {
    exists = λ path w. (false, w);
    is_dir = λ path w. (false, w);
    read_file = λ path size w. (none, w);
    list_dir = λ path w. (some (codes "." ∷ codes "src" ∷ codes "a.txt" ∷ []), w);
    socket = λ w. (none, w);
    close = λ sk w. w;
    set_broadcast = λ sk w. w;
    bind_to_device = λ sk name w. w;
    send_to = λ sk bytes w. (false, w);
    select = λ sk sec usec w. (false, w);
    recv = λ sk size w. (none, w);
  };
  ftdi = record {
    init = λ w. (false, w);
    open_desc = λ sn w. (false, w);
    read_eeprom = λ w. (none, w);
    write_eeprom = λ e w. (false, w);
    deinit = λ w. w;
  };
  susi = record {
    dll_init = λ w. (false, w);
    dll_uninit = λ w. (true, w);
    smbus_available = λ w. (false, w);
    read_byte = λ slave reg w. (none, w);
    write_byte = λ slave reg b w. (false, w);
    read_multi = λ slave reg len w. (none, w);
    write_multi = λ slave reg bytes w. (false, w);
  };
  stack = [];
}

abbrev pub still : {W : Type 0} → Machine W → System W
still m = record {
  machine = m;
  access = λ path w. (true, w);
  mkdir = λ path w. (true, w);
  remove = λ path w. w;
  stat = λ path w. (none, w);
  is_folder = λ path w. (bytes_eq path (codes "/opt/src"), w);
  fopen_read = λ path w. (some (codes "contents"), w);
  fopen_append = λ path w. (none, w);
  fwrite = λ fp bytes w. (length bytes, w);
  fclose = λ fp w. w;
  popen = λ command w. (none, w);
  pclose = λ w. w;
  send_data = λ type bytes w. (true, w);
  pthread_create = λ job w. (true, w);
}

-- The world is what has been sent.
abbrev Log : Type 0
Log = List (ℕ × List ℕ)

abbrev wire : System Log
wire = record (still still_machine) {
  send_data = λ type bytes w. (true, w ++ ((type, bytes) ∷ []));
}

abbrev log : Log → Log
log w = w

wire-Sends : Sends wire log
wire-Sends = record {
  logs = λ type bytes w. refl;
  reading = λ path w. refl;
  piping = λ command w. refl;
  piped = λ w. refl;
}

abbrev never : ℕ → Bool
never i = false

down_file_do_work-whole_example :
    (w' : Log) × (bs : List (List ℕ)) × (down_file_do_work wire never (codes "/f") [] ≡ some w')
    × (log w' ≡ log [] ++ map (packet msg_getfile) bs)
    × (concat bs ≡ codes "contents")
    × AllBlocks bs
down_file_do_work-whole_example =
    down_file_do_work-whole wire log never (codes "/f") (codes "contents") [] [] wire-Sends refl
      (λ i. refl) (λ bytes w. refl)

down_file_do_work-prefix_example :
    (w' : Log) × (bs : List (List ℕ)) × (left : List ℕ) × (last : Log) × (down_file_do_work wire
        never
        (codes "/f")
        []
      ≡ some w')
    × (log w' ≡ log [] ++ (map (packet msg_getfile) bs ++ last))
    × (concat bs ++ left ≡ codes "contents")
    × AtEnd msg_getfile last
down_file_do_work-prefix_example =
    down_file_do_work-prefix wire log never (codes "/f") (codes "contents") [] [] wire-Sends refl

-- Only "src" is a folder.
abbrev folder : List ℕ → Bool
folder path = bytes_eq path (codes "/opt/src")

wire-Listed : Listed wire log folder
wire-Listed = record {
  logs = λ bytes w. refl;
  accepts = λ bytes w. refl;
  kind = λ p w. refl;
  looking = λ p w. refl;
  listing = λ p w. refl;
}

opt_path : c_str (codes "/opt") ≡ codes "/opt"
unfolding c_str
opt_path = refl

opt_length : (0 < length (c_str (codes "/opt"))) × (length (c_str (codes "/opt")) ≤ 543)
unfolding c_str
opt_length = (omega arith, omega arith)

get_catalog-names_text_example :
    (r : Option Log) × (get_catalog wire (codes "/opt") common_server [] ≡ ended common_server r)
    × Split wire log folder wire-Listed
        (c_str (codes "/opt"))
        []
        r
        (shown (codes "." ∷ codes "src" ∷ codes "a.txt" ∷ []))
get_catalog-names_text_example =
    get_catalog-names_text wire log folder wire-Listed (codes "/opt") (codes ".")
      (codes "src" ∷ codes "a.txt" ∷ []) common_server [] [] opt_length.0 opt_length.1 refl
      ((omega arith), ((omega arith), ((omega arith), refl)))
