-- ===== src/Sadc/State.antt =====
-- The state of qemu/overlay/hw/input/jz4740_sadc.c, its interrupt and the queue of touch samples: from
-- sadc_notify_trace to sadc_queue_touch_sample.
use bbk9588_emulator.Base.{
  ℕ, ◌+◌, ◌-◌, ◌*◌, ◌/◌, ◌%◌, ◌^◌, bit_and, bit_or, Bool, true, false, ◌==◌, if◌then◌else◌, Option,
  List, ◌∷◌, update,
}
use bbk9588_emulator.Bits.{has, not32}

-- `JZ4740SADCState`. `output` lists what `qemu_set_irq` drove since the last reset and `traces` the
-- reasons given to the trace callback, the latest first; `timer` is the time that the timer waits
-- for, if it is armed.
pub record Sadc : Type 0 where
  pub output : List Bool
  pub traces : List ℕ
  pub timer : Option ℕ
  pub touch_down : Bool
  pub touch_move_pending : Bool
  pub touch_raw_x : ℕ
  pub touch_raw_y : ℕ
  pub enable : ℕ
  pub config : ℕ
  pub control : ℕ
  pub status_event : ℕ
  pub pending_enable : ℕ
  pub same_time : ℕ
  pub wait_time : ℕ
  pub touch_sample_is_move : Bool
  pub battery_data : ℕ
  pub sadcin_data : ℕ
  pub battery_raw : ℕ
  pub sadcin_raw : ℕ
  pub touch_fifo : ℕ → ℕ
  pub touch_fifo_head : ℕ
  pub touch_fifo_count : ℕ
  pub next_axis : ℕ
  pub conversion_events_remaining : ℕ
  pub last_read_offset : ℕ
  pub last_read_value : ℕ
  pub last_write_offset : ℕ
  pub last_write_value : ℕ
  pub irq_level : Bool

-- `SADC_FIFO_DEPTH` and `SADC_DATA_MASK`
abbrev pub fifo_depth : ℕ
fifo_depth = 2

abbrev pub data_mask : ℕ
data_mask = 0x0fff

-- `SADC_ADENA_SADCINEN`, `PBATEN` and `TCHEN`
abbrev pub sadcinen : ℕ
sadcinen = 0x01

abbrev pub pbaten : ℕ
pbaten = 0x02

abbrev pub tchen : ℕ
tchen = 0x04

-- `SADC_STATE_SRDY`, `DRDY`, `DTCH`, `PENU`, `PEND` and `MASK`
abbrev pub srdy : ℕ
srdy = 0x01

abbrev pub drdy : ℕ
drdy = 0x02

abbrev pub dtch : ℕ
dtch = 0x04

abbrev pub penu : ℕ
penu = 0x08

abbrev pub pend : ℕ
pend = 0x10

abbrev pub state_mask : ℕ
state_mask = 0x1f

-- `sadc_notify_trace`
abbrev pub notify_trace : Sadc → ℕ → Sadc
notify_trace s reason = record s { traces = reason ∷ s.traces }

-- `sadc_irq_pending`
unfoldable pub irq_pending : Sadc → Bool
irq_pending s = has (bit_and s.status_event (not32 s.control)) state_mask

-- `sadc_update_irq`
unfoldable pub update_irq : Sadc → Sadc
update_irq s = record s { irq_level = irq_pending s; output = irq_pending s ∷ s.output }

-- `sadc_touch_fifo_clear`
unfoldable pub touch_fifo_clear : Sadc → Sadc
touch_fifo_clear s = record s { touch_fifo_head = 0; touch_fifo_count = 0; touch_fifo = λ _. 0 }

-- `sadc_pack_touch_pair`
unfoldable pub pack_touch_pair : ℕ → ℕ → Bool → Bool → ℕ
pack_touch_pair data0 data1 type0 type1 =
    let value = bit_or (bit_and data1 data_mask * 2 ^ 16) (bit_and data0 data_mask) in
    let typed = if type0 then bit_or value 0x8000 else value in
    if type1 then bit_or typed 0x80000000 else typed

-- `sadc_touch_fifo_push`
unfoldable pub touch_fifo_push : Sadc → ℕ → Sadc
touch_fifo_push s sample =
    let t =
      if s.touch_fifo_count == fifo_depth
      then record s {
        touch_fifo_head = (s.touch_fifo_head + 1) % fifo_depth;
        touch_fifo_count = s.touch_fifo_count - 1;
      }
      else s in
    record t {
      touch_fifo =
          update t.touch_fifo ((t.touch_fifo_head + t.touch_fifo_count) % fifo_depth) sample;
      touch_fifo_count = t.touch_fifo_count + 1;
    }

-- `sadc_touch_fifo_pop`
unfoldable pub touch_fifo_pop : Sadc → ℕ × Sadc
touch_fifo_pop s = if s.touch_fifo_count == 0 then (0, s) else (
  s.touch_fifo s.touch_fifo_head,
  record s {
    touch_fifo = update s.touch_fifo s.touch_fifo_head 0;
    touch_fifo_head = (s.touch_fifo_head + 1) % fifo_depth;
    touch_fifo_count = s.touch_fifo_count - 1;
    next_axis = (s.next_axis + 1) % 2 ^ 32;
  },
)

-- `sadc_touch_xyz_mode`
unfoldable pub touch_xyz_mode : Sadc → ℕ
touch_xyz_mode s = bit_and s.config 0x6000 / 2 ^ 13

-- the position, and the pressure of the two modes that have one
abbrev pub position : Sadc → Bool → ℕ
position s typed = pack_touch_pair s.touch_raw_x s.touch_raw_y typed typed

abbrev pub pressure_s : ℕ
unfolding pack_touch_pair
pressure_s = pack_touch_pair 0x0800 0 false false

abbrev pub pressure_12 : ℕ
unfolding pack_touch_pair
pressure_12 = pack_touch_pair 0x0400 0x0c00 true true

-- `sadc_queue_touch_sample`
unfoldable pub queue_touch_sample : Sadc → Sadc
queue_touch_sample s =
    let empty = record (touch_fifo_clear s) { next_axis = 0 } in
    let filled =
      if touch_xyz_mode s == 1
      then touch_fifo_push (touch_fifo_push empty (position s false)) pressure_s
      else if touch_xyz_mode s == 2
      then touch_fifo_push (touch_fifo_push empty (position s true)) pressure_12
      else touch_fifo_push empty (position s false) in
    record filled { status_event = bit_or filled.status_event dtch }
