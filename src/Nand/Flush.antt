-- ===== src/Nand/Flush.antt =====
-- Writing changed bytes through to the block backend, and flushing it in the background.
pub mod Progress
use bbk9588_emulator.Base.{
  ℕ, zero, suc, ◌+◌, ◌*◌, ◌/◌, ◌%◌, ◌^◌, ◌-◌, bit_and, bit_or, Bool, true, false, not, ◌&&◌, ◌||◌,
  ◌==◌, ltb, leb, if◌then◌else◌, List, [], ◌∷◌, update, min, Option, none, some,
}
use bbk9588_emulator.Nand.State.{Nand, PWrite}

abbrev pub sector_size : ℕ
sector_size = 512

-- `QEMU_ALIGN_DOWN` and `QEMU_ALIGN_UP` to a sector
abbrev pub align_down : ℕ → ℕ
align_down n = n - n % sector_size

abbrev pub align_up : ℕ → ℕ
align_up n = align_down (n + (sector_size - 1))

-- `nand_schedule_flush`. The timer is armed for a time that the model leaves open.
unfoldable pub schedule_flush : Nand → Nand
schedule_flush s =
    if not s.has_flush_timer
      || s.flush_acb
      || s.dirty_generation == s.flushed_generation
      || s.flush_pending
    then s
    else record s { flush_pending = true }

-- `nand_flush_complete`; `ok` says that the flush did not fail.
unfoldable pub flush_complete : Nand → Bool → Nand
unfolding schedule_flush
flush_complete s ok =
    let s1 : Nand = record s { flush_acb = false } in
    schedule_flush (if ok then record s1 { flushed_generation = s1.flush_generation } else s1)

-- `nand_flush_timer_cb`, run when the timer has fired and is no longer pending.
unfoldable pub flush_timer_cb : Nand → Nand
flush_timer_cb s =
    let fired : Nand = record s { flush_pending = false } in
    if not s.blk_writable || s.flush_acb || s.dirty_generation == s.flushed_generation
    then fired
    else record fired { flush_generation = s.dirty_generation; flush_acb = true }

-- `blk_aio_cancel` may run the completion callback before it returns; `completion` is what it is run
-- with, `none` if it is not run.
unfoldable pub cancel_flush : Nand → Option Bool → Nand
unfolding flush_complete
cancel_flush s completion =
    let settled : Nand = elim completion [ none ↦ s | some ok ↦ flush_complete s ok ] in
    record settled { flush_acb = false; flush_pending = false }

-- `nand_flush_now`; `ok` says that `blk_flush` did not fail.
unfoldable pub flush_now : Nand → Option Bool → Bool → Nand
unfolding cancel_flush
flush_now s completion ok =
    let stopped : Nand = record s {
      flush_pending = if s.has_flush_timer then false else s.flush_pending;
    } in
    let idle : Nand = if s.flush_acb then cancel_flush stopped completion else stopped in
    if not idle.blk_writable || idle.dirty_generation == idle.flushed_generation
    then idle
    else if ok
    then record idle { flushed_generation = idle.dirty_generation }
    else idle

-- `nand_backend_update`; `ok` says that `blk_pwrite` did not fail. `blk_writable` stands for a backend
-- that is there and may be written.
unfoldable pub backend_update : Nand → ℕ → ℕ → Bool → Nand
unfolding schedule_flush
backend_update s offset length ok =
    let start = align_down offset in
    if not s.blk_writable || length == 0 || leb s.size start
    then s
    else let stop = min (align_up (offset + length)) s.size in
      let s1 : Nand = record s {
        pwrites =
            (record { start = start; length = stop - start; bytes = s.bytes; ok = ok }) ∷ s.pwrites;
      } in
      if ok
      then schedule_flush (record s1 { dirty_generation = (s1.dirty_generation + 1) % 2 ^ 64 })
      else s1
