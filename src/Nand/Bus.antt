-- ===== src/Nand/Bus.antt =====
-- The command, address and data windows, the reset, and the host's accesses to them.
pub mod Loaded
pub mod Fetch
pub mod Windows
pub mod Sequence
pub mod CopyBack
use bbk9588_emulator.Base.{
  ℕ, zero, suc, ◌+◌, ◌*◌, ◌/◌, ◌%◌, ◌^◌, ◌-◌, bit_and, bit_or, Bool, true, false, not, ◌&&◌, ◌||◌,
  ◌==◌, ltb, leb, if◌then◌else◌, List, [], ◌∷◌, update, min,
}
use bbk9588_emulator.Nand.State.{
  Nand, EventType, command_event, read_event, emit, page_from_address, column_from_address,
  raw_stride, status_ready,
}
use bbk9588_emulator.Nand.Read.{
  fill_read, fill_read_id, prepare_erased_page, prepare_page_read, read_data,
}
use bbk9588_emulator.Nand.Program.{begin_program, append_program_data, commit_program, commit_erase}

-- the commands that start a new address
abbrev pub starts_address : ℕ → Bool
starts_address command =
    command == 0x00
    || command == 0x60
    || command == 0x80
    || command == 0x85
    || command == 0x90
    || command == 0xff

-- What the commands 0x30 and 0x35 do after the page has been fetched.
unfoldable pub note_page_read : Nand → Nand
unfolding emit
note_page_read s =
    let page = page_from_address s in
    let column = column_from_address s in
    emit
      (record s {
        busy_reads = 1;
        page_read_count = (s.page_read_count + 1) % 2 ^ 32;
        last_page = page;
        last_column = column;
      })
      read_event page column 0 0 0 0 false

-- The command 0x35: the page that was read becomes the program buffer.
unfoldable pub load_program_buffer : Nand → Nand
load_program_buffer s = record s {
  program_buffer = s.read_buffer;
  program_len = raw_stride;
  program_column = 0;
  program_has_data = true;
  program_page_valid = false;
}

-- The switch of `nand_command`. `ok` is the outcome of a write to the backend.
unfoldable pub execute : Nand → ℕ → Bool → Nand
unfolding note_page_read load_program_buffer
execute s command ok =
    if command == 0x30
    then note_page_read (prepare_page_read s)
    else if command == 0x35
    then note_page_read (load_program_buffer (prepare_page_read s))
    else if command == 0x80
    then begin_program s
    else if command == 0x10
    then record (commit_program s ok) { busy_reads = 1 }
    else if command == 0xd0
    then record (commit_erase s ok) { busy_reads = 1; address_count = 0; read_index = 0 }
    else if command == 0x70
    then fill_read s (λ _. s.status) 1
    else if command == 0x90
    then fill_read_id s
    else if command == 0xff
    then prepare_erased_page (record s { status = status_ready; busy_reads = 0 })
    else s

-- `nand_command`
unfoldable pub run_command : Nand → ℕ → Bool → Nand
unfolding execute emit
run_command s command ok =
    let named = emit (record s { command = command }) command_event 0 0 0 command 0 0 false in
    execute
      (if starts_address command then record named { address_count = 0; read_index = 0 } else named)
      command ok

-- The byte that `nand_address` latches.
unfoldable pub latch_address : Nand → ℕ → Nand
latch_address s value =
    if ltb s.address_count 5
    then record s {
      address = update s.address s.address_count value;
      address_count = s.address_count + 1;
    }
    else s

-- Where the latched address sends the data of a program command.
unfoldable pub aim_program : Nand → Nand
aim_program s =
    if (s.command == 0x80 || s.command == 0x85) && leb 5 s.address_count
    then record s {
      program_column = column_from_address s;
      program_page = page_from_address s;
      program_page_valid = true;
    }
    else if s.command == 0x85 && leb 2 s.address_count
    then record s { program_column = column_from_address s }
    else s

-- `nand_address`
unfoldable pub run_address : Nand → ℕ → Nand
unfolding latch_address aim_program
run_address s value =
    let latched = latch_address s value in
    aim_program (
      if latched.command == 0x90 && latched.address_count == 1 && latched.address 0 == 0
      then fill_read_id latched
      else latched)

-- `if (s->data_callback) { s->data_callback(s->data_opaque, value, size, write); }`
abbrev pub call_data : Nand → ℕ → ℕ → Bool → Nand
call_data s value size write = record s {
  data_calls = if s.has_data_callback then (value, size, write) ∷ s.data_calls else s.data_calls;
}

-- `nand_mmio_read`
unfoldable pub mmio_read : Nand → ℕ → ℕ → ℕ × Nand
mmio_read s offset size =
    if not (offset == 0)
    then (0xffffffff, s)
    else let (value, s') = read_data s size in (value, call_data s' value size false)

-- `nand_mmio_write`. The callback takes the value as a uint32_t.
unfoldable pub mmio_write : Nand → ℕ → ℕ → ℕ → Bool → Nand
unfolding run_command run_address
mmio_write s offset value size ok =
    if offset == 0x00000
    then call_data (append_program_data s value size) (value % 2 ^ 32) size true
    else if offset == 0x08000
    then (if size == 1 then run_command s (bit_and value 0xff) ok else s)
    else if offset == 0x10000
    then (if size == 1 then run_address s (bit_and value 0xff) else s)
    else s

-- `nand_reset_hold`
unfoldable pub reset_hold : Nand → Nand
reset_hold s = prepare_erased_page (
    begin_program (record s {
      command = 0xff;
      status = status_ready;
      address = λ _. 0;
      address_count = 0;
      read_page = 0;
      read_column = 0;
      busy_reads = 0;
      page_stride = if s.page_stride == 0 then raw_stride else s.page_stride;
      page_read_count = 0;
      program_count = 0;
      erase_count = 0;
      program_fail_count = 0;
      erase_fail_count = 0;
      last_page = 0;
      last_column = 0;
      last_block = 0;
    }))

-- `nand_post_load`
unfoldable pub post_load : Nand → ℕ → Nand
post_load s version_id = if ltb version_id 2 then record s { status = status_ready } else s
