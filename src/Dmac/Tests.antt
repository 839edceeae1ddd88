-- ===== src/Dmac/Tests.antt =====
-- A machine with a plain memory, and channels that copy and fail in it.
use bbk9588_emulator.Base.{
  ℕ, ◌+◌, ◌-◌, ◌*◌, ◌%◌, ◌≡◌, refl, arith, true, false, ◌&&◌, ltb, leb, ◌==◌, inl, inr,
  if◌then◌else◌, none, some, [],
}
use bbk9588_emulator.Dmac.State.{Env, Dmac, Audio, ram_range_valid, sync_irq}
use bbk9588_emulator.Dmac.Channel.{channel_enabled, unit_bytes}
use bbk9588_emulator.Dmac.Transfer.{try_auto_transfer, copy_units}
use bbk9588_emulator.Dmac.Memory.{Ram, bytes_at, nth, length}
use bbk9588_emulator.Dmac.Copy.{copy_units_ends}
use bbk9588_emulator.Dmac.Auto.{IsReady, IsDone}
use bbk9588_emulator.Dmac.Moved.{copies}
use bbk9588_emulator.Dmac.Errors.{IsRejected, out_of_memory-IsRejected}
use bbk9588_emulator.Dmac.Status.{any_interrupts, sync_irq-level}

-- The machine is its memory; a device takes every unit whole and leaves the request lines alone.
abbrev machine : Env
machine = record {
  World = ℕ → ℕ;
  mem_read = λ w a n. bytes_at w a n;
  mem_write = λ w a buf i. if leb a i && ltb i (a + length buf) then nth buf (i - a) else w i;
  now = λ w. 1;
  bulk_transfer = none;
  address_valid = some (λ w request address. true);
  dev_write = some (λ w levels request buf width. (length buf, w, levels));
  dev_read = none;
  complete = λ w request. w;
  diagnostics = λ w request. (0, 0);
  trace = λ w event channel offset value. w;
}

abbrev memory : Ram machine
memory = record {
  peek = λ w i. w i;
  size = 0x10000;
  read = λ w a n h. refl;
  write = λ w a buf i h k. refl;
  traced = λ w event channel offset value i. refl;
}

abbrev no_audio : Audio
no_audio = record {
  completion_count = 0;
  rearm_count = 0;
  last_completion_ns = 0;
  completion_underruns = 0;
  last_rearm_gap_ns = 0;
  max_rearm_gap_ns = 0;
  total_rearm_gap_ns = 0;
  last_gap_underruns = 0;
  total_gap_underruns = 0;
  last_units = 0;
  completion_fifo = 0;
  rearm_fifo = 0;
}

-- Channel 0 is to move three words of four bytes from 0x100, with the command given.
abbrev registers : ℕ → ℕ → ℕ → ℕ
registers target command i =
    if i == 0
    then 0x100
    else if i == 1
    then target
    else if i == 2
    then 3
    else if i == 3
    then 8
    else if i == 4
    then 0x80000001
    else if i == 5
    then command
    else if i == 6
    then 0x400
    else if i == 192
    then 1
    else 0

abbrev controller : ℕ → ℕ → Dmac (ℕ → ℕ)
controller target command = record {
  world = λ i. i % 256;
  output = [];
  regs = registers target command;
  request_levels = 0;
  ram_size = 0x10000;
  irq_level = false;
  transferring = false;
  audio = no_audio;
}

copying : IsReady (controller 0x200 0xc00000) 0
unfolding channel_enabled unit_bytes
copying = record {
  exists = omega arith;
  enabled = refl;
  no_descriptor = refl;
  automatic = refl;
  some_left = omega arith;
  known_unit = omega arith;
  fits = omega arith;
}

leaving : IsReady (controller 0xffff 0xc00000) 0
unfolding channel_enabled unit_bytes
leaving = record {
  exists = omega arith;
  enabled = refl;
  no_descriptor = refl;
  automatic = refl;
  some_left = omega arith;
  known_unit = omega arith;
  fits = omega arith;
}

-- The three words lie in memory, at the source and at the target, but not at the address 0xffff.
inside :
    (command target : ℕ)
    → unit_bytes command ≡ 4
    → (ram_range_valid (controller target command) 0x100 (3 * unit_bytes command) ≡ true)
      × (ram_range_valid (controller target command) 0x200 (3 * unit_bytes command) ≡ true)
      × (ram_range_valid (controller target command) 0xffff (3 * unit_bytes command) ≡ false)
unfolding ram_range_valid
inside command target h = rw h (refl, refl, refl)

four_bytes : (unit_bytes 0xc00000 ≡ 4) × (unit_bytes 0x400000 ≡ 4)
unfolding unit_bytes
four_bytes = (refl, refl)

copies_example :
    IsDone (controller 0x200 0xc00000) (try_auto_transfer machine (controller 0x200 0xc00000) 0) 0
    × ((try_auto_transfer machine (controller 0x200 0xc00000) 0).world 0x205 ≡ (
        if leb 0x200 0x205 && ltb 0x205 (0x200 + 3 * unit_bytes 0xc00000)
        then (0x100 + (0x205 - 0x200)) % 256
        else 0x205 % 256))
copies_example =
    copies machine memory (controller 0x200 0xc00000) 0 copying (omega arith) refl
      (inside 0xc00000 0x200 four_bytes.0).0 (inside 0xc00000 0x200 four_bytes.0).1 0x205
      (omega arith) refl (inl (rw (four_bytes.0) (omega arith)))

out_of_memory-IsRejected_example :
    IsRejected
      (controller 0xffff 0xc00000)
      (try_auto_transfer machine (controller 0xffff 0xc00000) 0)
      0
out_of_memory-IsRejected_example =
    out_of_memory-IsRejected machine (controller 0xffff 0xc00000) 0 leaving
      (inr (inside 0xc00000 0xffff four_bytes.0).2)

copy_units_ends_example :
    (copy_units machine 12 (λ i. i % 256) false true 0x100 0x200 4 12 0).0 ≡ 12
copy_units_ends_example =
    copy_units_ends machine 0x100 0x200 12 (λ i. i % 256) false true 4 12 0 3 (omega arith) refl
      (omega arith)

sync_irq-level_example :
    (sync_irq (controller 0x200 0xc00000)).irq_level ≡ any_interrupts (controller 0x200 0xc00000)
sync_irq-level_example = sync_irq-level (controller 0x200 0xc00000)
