-- ===== src/Nand/Bus/Sequence.antt =====
-- Programming a page through the windows of the device, and reading it back.
use bbk9588_emulator.Base.{
  ℕ, ◌+◌, ◌-◌, ◌*◌, ◌/◌, ◌%◌, ◌^◌, ◌≤◌, ◌<◌, ◌≡◌, ◌≢◌, refl, bit_and, arith, Bool, true, false,
  ◌&&◌, ltb, leb, if◌then◌else◌, ◌∙◌, ap, min,
}
use native.Mathlib.Nat.{zero-add}
use bbk9588_emulator.Bits.{ext, bit_and-le, test_bit-bit_and, test_bit-ones}
use bbk9588_emulator.Nand.Bus.Fetch.{read_steps_lem}
use bbk9588_emulator.Nand.State.{
  Nand, emit, stride_of, raw_stride, status_ready, pages_per_block, command_event,
}
use bbk9588_emulator.Nand.Bus.{run_command}
use bbk9588_emulator.Nand.Bus.Windows.{program_page, read_page, program_page-steps, read_page-steps}
use bbk9588_emulator.Nand.Flush.{backend_update, schedule_flush}
use bbk9588_emulator.Nand.Program.{commit_program, apply_program, program_loop}
use bbk9588_emulator.Nand.Program.Commit.{
  IsWhole, column_of, page_offset_of, limit_of, commit_program_lem, commit_aimed, page_fits,
}
use bbk9588_emulator.Nand.Bus.Loaded.{
  send_address, send_bytes, program_steps, read_steps, place, IsLoaded, started-IsLoaded,
  send_bytes-IsLoaded, loaded-IsAimed, loaded-IsWhole, same_offset, same_stride,
}

-- The confirm command, given to a loaded device.
confirm_named : Nand → Nand
confirm_named t = emit (record t { command = 0x10 }) command_event 0 0 0 0x10 0 0 false

confirmed :
    (t : Nand) (ok : Bool)
    → run_command t 0x10 ok
      ≡ (let c = commit_program (confirm_named t) ok in record c { busy_reads = 1 })
unfolding run_command confirm_named
confirmed t ok = refl

named-IsLoaded :
    {s t : Nand} {page column n : ℕ} {payload : ℕ → ℕ}
    → IsLoaded 0x80 s page column n payload t
    → IsLoaded 0x10 s page column n payload (confirm_named t)
unfolding confirm_named emit
named-IsLoaded h = record {
  command = refl;
  bytes = h.bytes;
  size = h.size;
  stride = h.stride;
  image = h.image;
  fails = h.fails;
  page_is = h.page_is;
  valid = h.valid;
  column_is = h.column_is;
  filled = h.filled;
  start = h.start;
  len = h.len;
  buffer = h.buffer;
}

-- The bytes that a loaded buffer covers, told by the payload.
covered :
    {code : ℕ} {s t : Nand} {page column n : ℕ} {payload : ℕ → ℕ}
    (h : IsLoaded code s page column n payload t)
    → 0 < n
    → column + n ≤ stride_of s
    → (j : ℕ)
    → (if leb (page_offset_of t + t.program_start) j
          && ltb j (page_offset_of t + min t.program_len (stride_of t))
        then bit_and (t.bytes j) (t.program_buffer (j - page_offset_of t))
        else t.bytes j)
      ≡ (if leb (place s page column) j && ltb j (place s page column + n)
          then bit_and (s.bytes j) (payload (j - place s page column) % 256)
          else s.bytes j)
covered {s} {t} {page} {column} {n} {payload} h some fits j =
    let offset = same_offset h in
    let stride = same_stride h in
    let start : t.program_start ≡ column = ground (arith, h.start) in
    let len : t.program_len ≡ column + n = ground (arith, h.len) in
    ground (arith, ap (λ (f : ℕ → ℕ). f j) h.bytes, h.buffer (j - place s page column))

-- The steps of a page program, and of a page read after it.
program_steps_lem :
    (s : Nand) (page column n : ℕ) (payload : ℕ → ℕ) (ok : Bool) (j : ℕ)
    → s.has_data ≡ true
    → IsWhole s
    → page < 2 ^ 24
    → page * stride_of s < s.size
    → 0 < n
    → column + n ≤ stride_of s
    → stride_of s ≤ raw_stride
    → page / pages_per_block ≢ s.fail_program_block
    → let s' = program_steps s page column n payload ok in
      let first = place s page column in
      (s'.status ≡ status_ready)
      × (s'.bytes j ≡ (
          if leb first j && ltb j (first + n)
          then bit_and (s.bytes j) (payload (j - first) % 256)
          else s.bytes j))
unfolding program_steps
program_steps_lem s page column n payload ok j image w small inside some fits stride block =
    let start = send_address (run_command s 0x80 ok) page column in
    let sent = send_bytes n 0 payload start in
    let loaded : IsLoaded 0x80 s page column (0 + n) payload sent =
      send_bytes-IsLoaded n 0 start (omega arith)
        (started-IsLoaded s page column payload ok small (omega arith)) in
    let named : IsLoaded 0x10 s page column n payload (confirm_named sent) =
      named-IsLoaded (rw zero-add at loaded) in
    let aimed = loaded-IsAimed named image some fits inside in
    let whole = loaded-IsWhole named w in
    let done =
      commit_program_lem (confirm_named sent) ok j aimed whole
        (rw (named.page_is, named.fails) block) in
    rw (confirmed sent ok) (done.0, done.2 ∙ covered named some fits j)

-- The image and its geometry.
pub record SameImage (s t : Nand) : Type 0 where
  pub image : t.has_data ≡ s.has_data
  pub size : t.size ≡ s.size
  pub stride : t.page_stride ≡ s.page_stride

backend_update-SameImage :
    (s : Nand) (offset length : ℕ) (ok : Bool) → SameImage s (backend_update s offset length ok)
unfolding backend_update schedule_flush
backend_update-SameImage s offset length ok = ground arith

apply_program-SameImage :
    (s : Nand) (page column limit offset : ℕ) (ok : Bool)
    → SameImage s (apply_program s page column limit offset ok)
unfolding apply_program emit
apply_program-SameImage s page column limit offset ok =
    let h =
      backend_update-SameImage
        (record s { bytes = program_loop limit 0 offset column s.program_buffer s.bytes }) offset
        limit ok in
    record { image = h.image; size = h.size; stride = h.stride }

program_steps-SameImage :
    (s : Nand) (page column n : ℕ) (payload : ℕ → ℕ) (ok : Bool)
    → s.has_data ≡ true
    → page < 2 ^ 24
    → page * stride_of s < s.size
    → 0 < n
    → column + n ≤ stride_of s
    → stride_of s ≤ raw_stride
    → page / pages_per_block ≢ s.fail_program_block
    → SameImage s (program_steps s page column n payload ok)
unfolding program_steps
program_steps-SameImage s page column n payload ok image small inside some fits stride block =
    let start = send_address (run_command s 0x80 ok) page column in
    let sent = send_bytes n 0 payload start in
    let loaded : IsLoaded 0x80 s page column (0 + n) payload sent =
      send_bytes-IsLoaded n 0 start (omega arith)
        (started-IsLoaded s page column payload ok small (omega arith)) in
    let named : IsLoaded 0x10 s page column n payload (confirm_named sent) =
      named-IsLoaded (rw zero-add at loaded) in
    let aimed = loaded-IsAimed named image some fits inside in
    let same =
      apply_program-SameImage (confirm_named sent) (confirm_named sent).program_page
        (column_of (confirm_named sent)) (limit_of (confirm_named sent))
        (page_offset_of (confirm_named sent) + column_of (confirm_named sent)) ok in
    rw
      (
        confirmed sent ok,
        commit_aimed (confirm_named sent) ok aimed (rw (named.page_is, named.fails) block),
      )
      (record {
        image = same.image ∙ named.image;
        size = same.size ∙ named.size;
        stride = same.stride ∙ named.stride;
      })

stride_of-SameImage : {s t : Nand} → SameImage s t → stride_of t ≡ stride_of s
unfolding stride_of
stride_of-SameImage h = rw h.stride

and_ones : (x : ℕ) → x < 256 → bit_and 0xff x ≡ x
and_ones x h =
    ext 8 (bit_and 0xff x) x (omega (arith, bit_and-le 8 0xff x)) h
      λ i p. ground (arith, test_bit-bit_and 0xff x i, test_bit-ones 8 i)

read_steps-program_steps :
    (s : Nand) (page column n : ℕ) (payload : ℕ → ℕ) (ok : Bool) (k : ℕ)
    → s.has_data ≡ true
    → IsWhole s
    → page < 2 ^ 24
    → page * stride_of s < s.size
    → column + n ≤ stride_of s
    → stride_of s ≤ raw_stride
    → page / pages_per_block ≢ s.fail_program_block
    → k < n
    → s.bytes (place s page column + k) ≡ 0xff
    → let s' = read_steps (program_steps s page column n payload ok) page column in
      (s'.read_buffer k ≡ payload k % 256) × (s'.read_index ≡ 0)
read_steps-program_steps s page column n payload ok k image w small inside fits stride block less
      erased =
    let t = program_steps s page column n payload ok in
    let same =
      program_steps-SameImage s page column n payload ok image small inside (omega arith) fits
        stride block in
    let same_stride : stride_of t ≡ stride_of s = stride_of-SameImage same in
    let same_place : place t page column ≡ place s page column = rw same_stride in
    let room = page_fits page w inside in
    let stored =
      (program_steps_lem s page column n payload ok (place s page column + k) image w small inside
        (omega arith) fits stride block).1 in
    let fetched =
      read_steps_lem t page column k (same.image ∙ image) small (omega arith)
        (rw same_stride (omega arith)) (rw (same_place, same.size) (omega arith)) in
    (
      fetched.0
          ∙ rw (same_place, same.size) (ground (arith, stored, erased, and_ones (payload k % 256))),
      fetched.1,
    )

-- A page program through the command, address and data windows, of at least one byte that fits into
-- a page of a whole image outside the block set up to fail, with a stride of at most 2112 bytes,
-- reports success: in the bytes of the page that the payload covers it clears the bits that the
-- payload does not have, and it changes no other byte of the image.
pub program_page_lem :
    (s : Nand) (page column n : ℕ) (payload : ℕ → ℕ) (ok : Bool) (j : ℕ)
    → s.has_data ≡ true
    → IsWhole s
    → page < 2 ^ 24
    → page * stride_of s < s.size
    → 0 < n
    → column + n ≤ stride_of s
    → stride_of s ≤ raw_stride
    → page / pages_per_block ≢ s.fail_program_block
    → let s' = program_page s page column n payload ok in
      let first = place s page column in
      (s'.status ≡ status_ready)
      × (s'.bytes j ≡ (
          if leb first j && ltb j (first + n)
          then bit_and (s.bytes j) (payload (j - first) % 256)
          else s.bytes j))
program_page_lem s page column n payload ok j image w small inside some fits stride block =
    rw (program_page-steps s page column n payload ok small (omega arith))
      (program_steps_lem s page column n payload ok j image w small inside some fits stride block)

-- What is programmed into an erased byte of a page through the windows is read back through them. In a whole image, let `n` bytes
-- fit into a page of it that lies in no block set up to fail, with a stride of at most 2112 bytes:
-- after they have been programmed, a page read of the same place has the low eight bits of the
-- payload at each such byte of the read buffer, and reads from the buffer's first byte on.
pub read_page-program_page :
    (s : Nand) (page column n : ℕ) (payload : ℕ → ℕ) (ok : Bool) (k : ℕ)
    → s.has_data ≡ true
    → IsWhole s
    → page < 2 ^ 24
    → page * stride_of s < s.size
    → column + n ≤ stride_of s
    → stride_of s ≤ raw_stride
    → page / pages_per_block ≢ s.fail_program_block
    → k < n
    → s.bytes (place s page column + k) ≡ 0xff
    → let s' = read_page (program_page s page column n payload ok) page column in
      (s'.read_buffer k ≡ payload k % 256) × (s'.read_index ≡ 0)
read_page-program_page s page column n payload ok k image w small inside fits stride block less
      erased =
    rw
      (
        program_page-steps s page column n payload ok small (omega arith),
        read_page-steps (program_steps s page column n payload ok) page column small (omega arith),
      )
      (read_steps-program_steps s page column n payload ok k image w small inside fits stride block
        less erased)
