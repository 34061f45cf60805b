-- ===== src/Service/Dispatch.antt =====
-- `CCommonServer::OnReceived`: a frame's type chooses what is done.
use softupdate.Prelude.{ℕ, List, ◌==◌, if◌then◌else◌}
use softupdate.Service.State.{System, Server, Handled}
use softupdate.Service.Download.{get_file, get_file_cancel}
use softupdate.Service.Command.{cmd_request, cmd_cancel}
use softupdate.Service.Upload.{send_file_name, send_file, send_file_cancel}
use softupdate.Service.Loading.{memory_script_start, memory_script_part, memory_script_cancel}
use softupdate.Service.Modules.{
  get_serial_number, get_serial_number_all, set_serial_number, get_mac, set_mac, get_board_type,
  read_module, write_module, write_option,
}
use softupdate.Service.Files.{
  check_file_exists, get_file_length, get_file_create_date, get_file_info, get_version,
  read_memory_request, write_memory_request, read_memory_cancel, unknown_request,
}
use softupdate.Service.Catalog.{get_catalog}
use softupdate.Service.AllFiles.{get_all_file_info}
pub mod Safe

pub data Request : Type 0 where
  catalog : Request
  exists : Request
  file : Request
  file_cancel : Request
  file_length : Request
  upload : Request
  upload_cancel : Request
  upload_name : Request
  create_date : Request
  serial_number : Request
  new_serial_number : Request
  mac : Request
  new_mac : Request
  memory : Request
  new_memory : Request
  memory_cancel : Request
  command : Request
  command_cancel : Request
  script : Request
  script_start : Request
  script_cancel : Request
  board_type : Request
  module_read : Request
  module_write : Request
  option : Request
  file_info : Request
  serial_numbers : Request
  version_number : Request
  all_file_info : Request
  unknown : ℕ → Request

-- The message codes of common/macro.h.
unfoldable pub request_of : ℕ → Request
request_of type =
    if type == 0x100
    then catalog
    else if type == 0x101
    then exists
    else if type == 0x102
    then file
    else if type == 0x103
    then file_cancel
    else if type == 0x104
    then file_length
    else if type == 0x105
    then upload
    else if type == 0x106
    then upload_cancel
    else if type == 0x107
    then upload_name
    else if type == 0x108
    then create_date
    else if type == 0x109
    then serial_number
    else if type == 0x110
    then new_serial_number
    else if type == 0x111
    then mac
    else if type == 0x112
    then new_mac
    else if type == 0x113
    then memory
    else if type == 0x114
    then new_memory
    else if type == 0x115
    then memory_cancel
    else if type == 0x116
    then command
    else if type == 0x117
    then command_cancel
    else if type == 0x118
    then script
    else if type == 0x119
    then script_start
    else if type == 0x120
    then script_cancel
    else if type == 0x122
    then board_type
    else if type == 0x123
    then module_read
    else if type == 0x124
    then module_write
    else if type == 0x125
    then option
    else if type == 0x126
    then file_info
    else if type == 0x127
    then serial_numbers
    else if type == 0x128
    then version_number
    else if type == 0x129
    then all_file_info
    else unknown type

module _ {W : Type 0} (sys : System W) where
  unfoldable pub handle : Request → List ℕ → Server → W → Handled W
  handle catalog bytes s w = get_catalog sys bytes s w
  handle exists bytes s w = check_file_exists sys bytes s w
  handle file bytes s w = get_file sys bytes s w
  handle file_cancel bytes s w = get_file_cancel s w
  handle file_length bytes s w = get_file_length sys bytes s w
  handle upload bytes s w = send_file sys bytes s w
  handle upload_cancel bytes s w = send_file_cancel s w
  handle upload_name bytes s w = send_file_name sys bytes s w
  handle create_date bytes s w = get_file_create_date sys bytes s w
  handle serial_number bytes s w = get_serial_number sys s w
  handle new_serial_number bytes s w = set_serial_number sys bytes s w
  handle mac bytes s w = get_mac sys s w
  handle new_mac bytes s w = set_mac sys bytes s w
  handle memory bytes s w = read_memory_request sys bytes s w
  handle new_memory bytes s w = write_memory_request sys bytes s w
  handle memory_cancel bytes s w = read_memory_cancel s w
  handle command bytes s w = cmd_request sys bytes s w
  handle command_cancel bytes s w = cmd_cancel s w
  handle script bytes s w = memory_script_part sys bytes s w
  handle script_start bytes s w = memory_script_start sys bytes s w
  handle script_cancel bytes s w = memory_script_cancel s w
  handle board_type bytes s w = get_board_type sys bytes s w
  handle module_read bytes s w = read_module sys bytes s w
  handle module_write bytes s w = write_module sys bytes s w
  handle option bytes s w = write_option sys bytes s w
  handle file_info bytes s w = get_file_info sys bytes s w
  handle serial_numbers bytes s w = get_serial_number_all sys s w
  handle version_number bytes s w = get_version sys s w
  handle all_file_info bytes s w = get_all_file_info sys bytes s w
  handle (unknown type) bytes s w = unknown_request sys type s w

  unfoldable pub on_received : ℕ → List ℕ → Server → W → Handled W
  unfolding handle request_of
  on_received type bytes s w = handle (request_of type) bytes s w
