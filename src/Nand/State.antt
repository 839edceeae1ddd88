-- ===== src/Nand/State.antt =====
-- The state of the NAND device, its events, and the addresses that the host has latched.
use bbk9588_emulator.Base.{
  ℕ, zero, suc, ◌+◌, ◌*◌, ◌%◌, ◌^◌, ◌-◌, bit_or, Bool, true, false, not, ◌||◌, ◌==◌, ltb,
  if◌then◌else◌, List, ◌∷◌, min,
}

abbrev pub page_size : ℕ
page_size = 2048

-- 2048 bytes of data and 64 spare bytes
abbrev pub raw_stride : ℕ
raw_stride = 2112

abbrev pub pages_per_block : ℕ
pages_per_block = 64

abbrev pub read_buffer_size : ℕ
read_buffer_size = 4096

abbrev pub status_fail : ℕ
status_fail = 0x01

abbrev pub status_ready : ℕ
status_ready = 0x40

-- `Bbk9588NandEventType`
pub data EventType : Type 0 where
  command_event read_event read_trace read_detail program_event erase_event debug_byte : EventType

-- `Bbk9588NandEvent`
pub record Event : Type 0 where
  pub type : EventType
  pub failed : Bool
  pub page : ℕ
  pub column : ℕ
  pub count : ℕ
  pub value : ℕ
  pub flags : ℕ
  pub index : ℕ

-- A call of `blk_pwrite`: where it starts, its length, the array that it takes the bytes from, and
-- whether it succeeded.
pub record PWrite : Type 0 where
  pub start : ℕ
  pub length : ℕ
  pub bytes : ℕ → ℕ
  pub ok : Bool

-- `Bbk9588NandState`. Arrays are functions of the index, and a pointer is a flag that says whether it
-- is set. `events`, `data_calls` and `pwrites` list the calls of the two callbacks and of the block
-- backend, the latest first.
pub record Nand : Type 0 where
  pub id_code : ℕ
  pub command : ℕ
  pub status : ℕ
  pub address : ℕ → ℕ
  pub address_count : ℕ
  pub read_buffer : ℕ → ℕ
  pub read_index : ℕ
  pub read_page : ℕ
  pub read_column : ℕ
  pub busy_reads : ℕ
  pub has_data : Bool
  pub bytes : ℕ → ℕ
  pub size : ℕ
  pub page_stride : ℕ
  pub program_buffer : ℕ → ℕ
  pub program_start : ℕ
  pub program_len : ℕ
  pub program_page : ℕ
  pub program_column : ℕ
  pub program_has_data : Bool
  pub program_page_valid : Bool
  pub trace_enabled : Bool
  pub page_read_count : ℕ
  pub program_count : ℕ
  pub erase_count : ℕ
  pub program_fail_count : ℕ
  pub erase_fail_count : ℕ
  pub fail_program_block : ℕ
  pub fail_erase_block : ℕ
  pub last_page : ℕ
  pub last_column : ℕ
  pub last_block : ℕ
  pub blk_writable : Bool
  pub has_flush_timer : Bool
  pub flush_pending : Bool
  pub flush_acb : Bool
  pub dirty_generation : ℕ
  pub flush_generation : ℕ
  pub flushed_generation : ℕ
  pub has_event_callback : Bool
  pub events : List Event
  pub has_data_callback : Bool
  pub data_calls : List (ℕ × ℕ × Bool)
  pub pwrites : List PWrite

-- `nand_emit`
unfoldable pub emit : Nand → EventType → ℕ → ℕ → ℕ → ℕ → ℕ → ℕ → Bool → Nand
emit s type page column count value flags index failed = record s {
  events =
      if s.has_event_callback
      then (record {
        type = type;
        failed = failed;
        page = page;
        column = column;
        count = count;
        value = value;
        flags = flags;
        index = index;
      })
        ∷ s.events
      else s.events;
}

-- `bbk9588_nand_page_stride`
unfoldable pub stride_of : Nand → ℕ
stride_of s = if s.page_stride == 0 then raw_stride else s.page_stride

-- `nand_detect_geometry`
unfoldable pub detect_geometry : Nand → Nand
detect_geometry s =
    if not s.has_data || s.size == 0
    then s
    else if s.size % raw_stride == 0
    then record s { page_stride = raw_stride }
    else if s.size % page_size == 0
    then record s { page_stride = page_size }
    else record s { page_stride = raw_stride }

-- `bbk9588_nand_consume_busy_read`
unfoldable pub consume_busy_read : Nand → Bool × Nand
consume_busy_read s =
    if s.busy_reads == 0 then (false, s) else (true, record s { busy_reads = s.busy_reads - 1 })

-- `nand_page_from_address`
unfoldable pub page_from_address : Nand → ℕ
page_from_address s =
    if ltb s.address_count 5
    then 0
    else bit_or (bit_or (s.address 2) (s.address 3 * 2 ^ 8)) (s.address 4 * 2 ^ 16)

-- `nand_column_from_address`
unfoldable pub column_from_address : Nand → ℕ
column_from_address s =
    if ltb s.address_count 2 then 0 else bit_or (s.address 0) (s.address 1 * 2 ^ 8)

-- The loop of `nand_row_from_address`, with the rounds left and the index.
abbrev pub row_bytes : ℕ → ℕ → (ℕ → ℕ) → ℕ → ℕ
row_bytes zero i address row = row
row_bytes (suc left) i address row =
    row_bytes left (i + 1) address (bit_or row (address i * 2 ^ (i * 8)))

-- `nand_row_from_address`
unfoldable pub row_from_address : Nand → ℕ
row_from_address s = row_bytes (min s.address_count 3) 0 s.address 0
