-- ===== src/Nand/Tests.antt =====
-- A device with an image of one block of 64 erased pages, and the theorems on it.
use bbk9588_emulator.Base.{
  ℕ, ◌+◌, ◌-◌, ◌*◌, ◌%◌, ◌^◌, ◌<◌, ◌≡◌, refl, bit_and, bit_or, arith, true, false, ◌&&◌, ltb, leb,
  if◌then◌else◌, inl, inr, ap, min, [],
}
use bbk9588_emulator.Bits.{test_bit}
use bbk9588_emulator.Nand.State.{
  Nand, stride_of, raw_stride, status_ready, status_fail, row_from_address,
}
use bbk9588_emulator.Nand.Program.{commit_program, commit_erase}
use bbk9588_emulator.Nand.Program.Commit.{IsAimed, IsWhole, page_offset_of, commit_program_lem}
use bbk9588_emulator.Nand.Program.Paths.{commit_program_clears, commit_program_in_bounds}
use bbk9588_emulator.Nand.Program.Erase.{block_of, block_size, commit_erase_lem}
use bbk9588_emulator.Nand.Program.Overrun.{program_overrun}
use bbk9588_emulator.Nand.Flush.{backend_update, schedule_flush}
use bbk9588_emulator.Nand.Flush.Progress.{
  Watched, taken, fired, completed, store, fire, Reach, here, next, IsFlushing, Reach-IsFlushing,
  flush_round,
}
use bbk9588_emulator.Nand.Bus.Loaded.{place}
use bbk9588_emulator.Nand.Bus.Windows.{program_page, read_page}
use bbk9588_emulator.Nand.Bus.Sequence.{program_page_lem, read_page-program_page}
use bbk9588_emulator.Nand.Bus.CopyBack.{copy_back, copy_back_fails}

abbrev device : Nand
device = record {
  id_code = 0x9551d3ec;
  command = 0xff;
  status = status_ready;
  address = λ _. 0;
  address_count = 0;
  read_buffer = λ _. 0xff;
  read_index = 0;
  read_page = 0;
  read_column = 0;
  busy_reads = 0;
  has_data = true;
  bytes = λ _. 0xff;
  size = 64 * raw_stride;
  page_stride = raw_stride;
  program_buffer = λ _. 0xff;
  program_start = raw_stride;
  program_len = 0;
  program_page = 0;
  program_column = 0;
  program_has_data = false;
  program_page_valid = false;
  trace_enabled = false;
  page_read_count = 0;
  program_count = 0;
  erase_count = 0;
  program_fail_count = 0;
  erase_fail_count = 0;
  fail_program_block = 0xffffffff;
  fail_erase_block = 0xffffffff;
  last_page = 0;
  last_column = 0;
  last_block = 0;
  blk_writable = true;
  has_flush_timer = true;
  flush_pending = false;
  flush_acb = false;
  dirty_generation = 0;
  flush_generation = 0;
  flushed_generation = 0;
  has_event_callback = true;
  events = [];
  has_data_callback = false;
  data_calls = [];
  pwrites = [];
}

-- the payload 0, 1, 2, ...
abbrev count_up : ℕ → ℕ
count_up k = k

device-IsWhole : IsWhole device
unfolding stride_of
device-IsWhole = record { pages = refl; stride = omega arith; small = omega arith }

program_page_example :
    let s' = program_page device 3 10 2 count_up true in
    let first = place device 3 10 in
    (s'.status ≡ status_ready)
    × (s'.bytes 6347 ≡ (
        if leb first 6347 && ltb 6347 (first + 2)
        then bit_and (device.bytes 6347) (count_up (6347 - first) % 256)
        else device.bytes 6347))
unfolding stride_of
program_page_example =
    program_page_lem device 3 10 2 count_up true 6347 refl device-IsWhole (omega arith)
      (omega arith) (omega arith) (omega arith) (omega arith) (λ e. absurd (omega (arith, e)))

read_back_example :
    let s' = read_page (program_page device 3 10 2 count_up true) 3 10 in
    (s'.read_buffer 1 ≡ 1) × (s'.read_index ≡ 0)
unfolding stride_of
read_back_example =
    read_page-program_page device 3 10 2 count_up true 1 refl device-IsWhole (omega arith)
      (omega arith) (omega arith) (omega arith) (λ e. absurd (omega (arith, e))) (omega arith) refl

copy_back_example :
    let s' = copy_back device 5 0 true in
    (s'.status ≡ bit_or status_ready status_fail) × (s'.bytes ≡ device.bytes)
unfolding stride_of
copy_back_example = copy_back_fails device 5 0 true refl refl (omega arith)

-- four zero bytes for the front of page 2
abbrev aimed : Nand
aimed = record device {
  program_page_valid = true;
  program_has_data = true;
  program_page = 2;
  program_start = 0;
  program_len = 4;
  program_buffer = λ _. 0;
}

aimed-IsAimed : IsAimed aimed
unfolding stride_of
aimed-IsAimed = record {
  image = refl;
  aimed = refl;
  filled = refl;
  inside = omega arith;
  starts = omega arith;
  some_bytes = omega arith;
}

aimed-IsWhole : IsWhole aimed
unfolding stride_of
aimed-IsWhole = record { pages = refl; stride = omega arith; small = omega arith }

commit_program_example :
    let s' = commit_program aimed true in
    let first = page_offset_of aimed + aimed.program_start in
    let stop = page_offset_of aimed + min aimed.program_len (stride_of aimed) in
    (s'.status ≡ status_ready)
    × (s'.program_count ≡ (aimed.program_count + 1) % 2 ^ 32)
    × (s'.bytes 4225 ≡ (
        if leb first 4225 && ltb 4225 stop
        then bit_and (aimed.bytes 4225) (aimed.program_buffer (4225 - page_offset_of aimed))
        else aimed.bytes 4225))
commit_program_example =
    commit_program_lem aimed true 4225 aimed-IsAimed aimed-IsWhole (λ e. absurd (omega (arith, e)))

untouched : (commit_program aimed true).bytes 9000 ≡ 0xff
unfolding stride_of
untouched =
    (commit_program_lem aimed true 9000 aimed-IsAimed aimed-IsWhole
      (λ e. absurd (omega (arith, e)))).2

clears_example : test_bit (aimed.bytes 9000) 3 ≡ true
clears_example = commit_program_clears aimed true 9000 3 (ap (λ (n : ℕ). test_bit n 3) untouched)

in_bounds_example : (commit_program aimed true).bytes 135168 ≡ aimed.bytes 135168
in_bounds_example = commit_program_in_bounds aimed true 135168 aimed-IsWhole (omega arith)

-- the same program in a block that is set up to fail
abbrev failing : Nand
failing = record aimed { fail_program_block = 0 }

-- an image of zeros, and the address of its first block
abbrev erasing : Nand
erasing = record device { address_count = 3; bytes = λ _. 0 }

erase_example :
    let s' = commit_erase erasing true in
    (s'.status ≡ status_ready)
    × (s'.erase_count ≡ (erasing.erase_count + 1) % 2 ^ 32)
    × (s'.bytes 77 ≡ (
        if leb (block_of erasing) 77
          && ltb 77 (block_of erasing + block_size erasing)
          && ltb 77 erasing.size
        then 0xff
        else erasing.bytes 77))
unfolding row_from_address
erase_example = commit_erase_lem erasing true 77 refl (omega arith) (λ e. absurd (omega (arith, e)))

-- an image that ends 100 bytes into its third page, and a program behind its end
abbrev cut_short : Nand
cut_short = record aimed { size = 2 * raw_stride + 100; program_start = 200; program_len = 300 }

cut_short-IsAimed : IsAimed cut_short
unfolding stride_of
cut_short-IsAimed = record {
  image = refl;
  aimed = refl;
  filled = refl;
  inside = omega arith;
  starts = omega arith;
  some_bytes = omega arith;
}

overrun_example :
    let j = page_offset_of cut_short + cut_short.program_start in
    (cut_short.size < j)
    × ((commit_program cut_short true).bytes j
        ≡ bit_and (cut_short.bytes j) (cut_short.program_buffer cut_short.program_start))
unfolding stride_of
overrun_example =
    program_overrun cut_short true cut_short-IsAimed (omega arith) (omega arith) (omega arith)
      (omega arith) (λ e. absurd (omega (arith, e)))

abbrev watched : Watched
watched = record { device = device; started = 0; safe = 0 }

watched-IsFlushing : IsFlushing 0 watched
watched-IsFlushing = record {
  timer = refl;
  writable = refl;
  dirty = refl;
  flushed = refl;
  running = λ e. absurd (ground (arith, e));
  lag = inl refl;
}

-- a change is stored
abbrev changed : Watched
changed = record watched { device = backend_update device 0 512 true }

one_store : Reach watched changed
one_store = next here (store 0 512 true)

reach_example : IsFlushing 0 (fired changed)
unfolding backend_update schedule_flush
reach_example = Reach-IsFlushing watched-IsFlushing (next one_store (fire refl))

changed-IsFlushing : IsFlushing 0 changed
unfolding backend_update schedule_flush
changed-IsFlushing = record {
  timer = refl;
  writable = refl;
  dirty = refl;
  flushed = refl;
  running = λ e. absurd (ground (arith, e));
  lag = inr (inl refl);
}

flush_round_example :
    let during = fired changed in
    let after = completed during true in
    (changed.device.flush_pending ≡ true)
    × (during.device.flush_acb ≡ true)
    × (after.safe ≡ taken after)
    × (after.device.flush_acb ≡ false)
    × (after.device.flush_pending ≡ false)
unfolding backend_update schedule_flush
flush_round_example = flush_round changed changed-IsFlushing refl (λ e. absurd (omega (arith, e)))
