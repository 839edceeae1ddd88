-- ===== src/Nand/Program.antt =====
-- Programming a page and erasing a block.
pub mod Commit
pub mod Paths
pub mod Erase
pub mod Overrun
use bbk9588_emulator.Base.{
  ℕ, zero, suc, ◌+◌, ◌*◌, ◌/◌, ◌%◌, ◌^◌, ◌-◌, bit_and, bit_or, Bool, true, false, not, ◌&&◌, ◌||◌,
  ◌==◌, ltb, leb, if◌then◌else◌, List, [], ◌∷◌, update, min, max, fill,
}
use bbk9588_emulator.Nand.State.{
  Nand, EventType, program_event, erase_event, emit, stride_of, row_from_address, raw_stride,
  pages_per_block, status_fail, status_ready,
}
use bbk9588_emulator.Nand.Read.{load32}
use bbk9588_emulator.Nand.Flush.{backend_update}

-- `nand_begin_program`
unfoldable pub begin_program : Nand → Nand
begin_program s = record s {
  program_buffer = λ _. 0xff;
  program_start = raw_stride;
  program_len = 0;
  program_page = 0;
  program_column = 0;
  program_has_data = false;
  program_page_valid = false;
}

-- One round of `nand_append_program_data`, for a column inside the buffer.
unfoldable pub append_byte : Nand → ℕ → Nand
append_byte s byte = record s {
  program_start = if s.program_has_data then s.program_start else s.program_column;
  program_buffer = update s.program_buffer s.program_column byte;
  program_column = s.program_column + 1;
  program_has_data = true;
  program_len = max s.program_len (s.program_column + 1);
}

-- The loop of `nand_append_program_data`, with the rounds left and the round.
unfoldable pub append_loop : ℕ → ℕ → ℕ → Nand → Nand
unfolding append_byte
append_loop zero i value s = s
append_loop (suc left) i value s =
    if leb raw_stride s.program_column
    then s
    else append_loop left (i + 1) value (append_byte s (bit_and (value / 2 ^ (i * 8)) 0xff))

-- `nand_append_program_data`
unfoldable pub append_program_data : Nand → ℕ → ℕ → Nand
append_program_data s value size =
    if not (s.command == 0x80) && not (s.command == 0x85)
    then s
    else append_loop (min size 4) 0 value s

-- `nand_first_word`
unfoldable pub first_word : Nand → ℕ → ℕ → ℕ
first_word s offset length =
    if leb 4 length && leb (offset + 4) s.size then load32 s.bytes offset else 0xffffffff

-- The loop of `nand_commit_program` that clears bits, with the rounds left and the round.
unfoldable pub program_loop : ℕ → ℕ → ℕ → ℕ → (ℕ → ℕ) → (ℕ → ℕ) → ℕ → ℕ
program_loop zero i offset column buffer bytes = bytes
program_loop (suc left) i offset column buffer bytes =
    program_loop left (i + 1) offset column buffer
      (update bytes (offset + i) (bit_and (bytes (offset + i)) (buffer (column + i))))

-- The exit of `nand_commit_program` for a page or a column out of range.
unfoldable pub reject_program : Nand → Nand
unfolding begin_program
reject_program s = begin_program (record s {
  status = bit_or status_ready status_fail;
  program_fail_count = (s.program_fail_count + 1) % 2 ^ 32;
})

-- The variable `limit`. The subtraction from `size` is in 64 bits and wraps below zero.
unfoldable pub program_limit : Nand → ℕ → ℕ → ℕ
program_limit s page_offset column =
    min (min (s.program_len - column) (stride_of s - column))
      ((s.size + 2 ^ 64 - page_offset - column) % 2 ^ 64)

-- A block that is set up to fail.
unfoldable pub fail_program : Nand → ℕ → ℕ → ℕ → ℕ → Nand
unfolding begin_program emit first_word
fail_program s page column limit offset =
    let s1 : Nand = record s {
      status = bit_or status_ready status_fail;
      program_fail_count = (s.program_fail_count + 1) % 2 ^ 32;
      last_page = page;
      last_column = column;
      last_block = page / pages_per_block;
    } in
    begin_program (emit s1 program_event page column limit (first_word s1 offset limit) 0 0 true)

-- The part of `nand_commit_program` that changes the image and reports success.
unfoldable pub apply_program : Nand → ℕ → ℕ → ℕ → ℕ → Bool → Nand
unfolding program_loop backend_update emit first_word
apply_program s page column limit offset ok =
    let changed : Nand = record s {
      bytes = program_loop limit 0 offset column s.program_buffer s.bytes;
    } in
    let stored = backend_update changed offset limit ok in
    let done : Nand = record stored {
      program_count = (stored.program_count + 1) % 2 ^ 32;
      status = status_ready;
      last_page = page;
      last_column = column;
      last_block = page / pages_per_block;
    } in
    let told = emit done program_event page column limit (first_word done offset limit) 0 0 false in
    record told {
      program_page = page;
      program_column = column;
      program_start = raw_stride;
      program_len = 0;
      program_has_data = false;
    }

-- `nand_commit_program`; `ok` is the outcome of the write to the backend.
unfoldable pub commit_program : Nand → Bool → Nand
unfolding begin_program reject_program program_limit
commit_program s ok =
    let page = s.program_page in
    let column = min s.program_start s.program_len in
    let page_offset = page * stride_of s in
    let limit = program_limit s page_offset column in
    if not s.has_data || not s.program_page_valid || not s.program_has_data
    then begin_program (record s { status = status_ready })
    else if leb s.size page_offset || leb (stride_of s) column || leb s.program_len column
    then reject_program s
    else if page / pages_per_block == s.fail_program_block
    then fail_program s page column limit (page_offset + column)
    else apply_program s page column limit (page_offset + column) ok

-- `row & ~(PAGES_PER_BLOCK - 1)`
abbrev pub block_start_of : ℕ → ℕ
block_start_of row = row - row % pages_per_block

-- `nand_commit_erase`: the part that changes the image.
unfoldable pub erase_bytes : Nand → ℕ → Bool → Nand
erase_bytes s block_start ok =
    let offset = block_start * stride_of s in
    let length = min (pages_per_block * stride_of s) (s.size - offset) in
    if ltb offset s.size
    then backend_update (record s { bytes = fill s.bytes offset length 0xff }) offset length ok
    else s

-- `nand_commit_erase`
unfoldable pub commit_erase : Nand → Bool → Nand
unfolding emit erase_bytes
commit_erase s ok =
    let row = row_from_address s in
    let block_start = block_start_of row in
    if not s.has_data || ltb s.address_count 2
    then s
    else if block_start / pages_per_block == s.fail_erase_block
    then emit
        (record s {
          status = bit_or status_ready status_fail;
          erase_fail_count = (s.erase_fail_count + 1) % 2 ^ 32;
          last_page = row;
          last_block = block_start;
        })
        erase_event row 0 pages_per_block 0xffffffff block_start 0 true
    else let erased = erase_bytes s block_start ok in
      emit
        (record erased {
          erase_count = (erased.erase_count + 1) % 2 ^ 32;
          status = status_ready;
          last_page = row;
          last_block = block_start;
        })
        erase_event row 0 pages_per_block 0xffffffff block_start 0 false
