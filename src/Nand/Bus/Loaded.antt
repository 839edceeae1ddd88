-- ===== src/Nand/Bus/Loaded.antt =====
-- The host's command sequences, and the program buffer after a payload has been sent.
use bbk9588_emulator.Base.{
  ℕ, zero, suc, ◌+◌, ◌*◌, ◌/◌, ◌%◌, ◌^◌, ◌≤◌, ◌<◌, ◌≡◌, refl, bit_and, bit_or, arith, Bool, true,
  false, not, ◌&&◌, ◌==◌, leb, if◌then◌else◌, ◌∙◌,
}
use mathlib.Core.Path.{ap₂}
use native.Mathlib.Nat.{add-zero}
use bbk9588_emulator.Bits.{bit_or-field, bit_and-ones}
use bbk9588_emulator.Nand.State.{
  Nand, stride_of, page_from_address, column_from_address, raw_stride,
}
use bbk9588_emulator.Nand.Bus.{run_command, run_address, mmio_write, call_data}
use bbk9588_emulator.Nand.Program.Commit.{IsAimed, IsWhole, page_offset_of}
use bbk9588_emulator.Nand.Program.{begin_program, append_program_data, append_loop, append_byte}

-- The five address bytes of a page and a column, sent after a command.
abbrev pub send_address : Nand → ℕ → ℕ → Nand
send_address s page column =
    run_address
      (run_address
        (run_address (run_address (run_address s (column % 256)) (column / 256)) (page % 256))
        (page / 256 % 256))
      (page / 65536)

-- A payload of bytes, one to an access, from byte `i` on.
abbrev pub send_bytes : ℕ → ℕ → (ℕ → ℕ) → Nand → Nand
send_bytes zero i payload s = s
send_bytes (suc left) i payload s =
    send_bytes left (i + 1) payload (mmio_write s 0 (payload i) 1 true)

-- Program the first `n` bytes of a payload into a page from a column on, as the handlers of the
-- windows run it: the commands 0x80 and 0x10.
-- `ok` is the outcome of the write to the backend.
unfoldable pub program_steps : Nand → ℕ → ℕ → ℕ → (ℕ → ℕ) → Bool → Nand
program_steps s page column n payload ok =
    run_command (send_bytes n 0 payload (send_address (run_command s 0x80 ok) page column)) 0x10 ok

-- Fetch a page from a column on: the commands 0x00 and 0x30.
unfoldable pub read_steps : Nand → ℕ → ℕ → Nand
read_steps s page column =
    run_command (send_address (run_command s 0x00 true) page column) 0x30 true

pub column_sum :
    (column : ℕ) → column < 2 ^ 16 → bit_or (column % 256) (column / 256 * 256) ≡ column
column_sum column h = omega (arith, bit_or-field 8 (column % 256) (column / 256) (omega arith))

pub page_sum :
    (page : ℕ)
    → page < 2 ^ 24
    → bit_or (bit_or (page % 256) (page / 256 % 256 * 256)) (page / 65536 * 65536) ≡ page
page_sum page h = rw (bit_or-field 8 (page % 256) (page / 256 % 256) (omega arith)) (
    omega
      (arith, bit_or-field 16 (page % 256 + page / 256 % 256 * 256) (page / 65536) (omega arith)))

-- What a payload leaves behind in the device, `n` bytes of it sent since the state `s`.
pub record IsLoaded (code : ℕ) (s : Nand) (page column n : ℕ) (payload : ℕ → ℕ) (t : Nand)
    : Type 0 where
  pub command : t.command ≡ code
  pub bytes : t.bytes ≡ s.bytes
  pub size : t.size ≡ s.size
  pub stride : t.page_stride ≡ s.page_stride
  pub image : t.has_data ≡ s.has_data
  pub fails : t.fail_program_block ≡ s.fail_program_block
  pub page_is : t.program_page ≡ page
  pub valid : t.program_page_valid ≡ true
  pub column_is : t.program_column ≡ column + n
  pub filled : t.program_has_data ≡ not (n == 0)
  pub start : t.program_start ≡ (if n == 0 then raw_stride else column)
  pub len : t.program_len ≡ (if n == 0 then 0 else column + n)
  pub buffer : (k : ℕ) → k < n → t.program_buffer (column + k) ≡ payload k % 256

pub started-IsLoaded :
    (s : Nand) (page column : ℕ) (payload : ℕ → ℕ) (ok : Bool)
    → page < 2 ^ 24
    → column < 2 ^ 16
    → IsLoaded 0x80 s page column 0 payload (send_address (run_command s 0x80 ok) page column)
unfolding run_address run_command begin_program column_from_address page_from_address
started-IsLoaded s page column payload ok p c = record {
  command = refl;
  bytes = refl;
  size = refl;
  stride = refl;
  image = refl;
  fails = refl;
  page_is = page_sum page p;
  valid = refl;
  column_is = omega (arith, column_sum column c);
  filled = refl;
  start = refl;
  len = refl;
  buffer = λ k h. absurd (omega arith);
}

sent_byte :
    (t : Nand) (b : ℕ)
    → t.command ≡ 0x80
    → t.program_column < raw_stride
    → mmio_write t 0 b 1 true ≡ call_data (append_byte t (b % 256)) (b % 2 ^ 32) 1 true
unfolding mmio_write append_program_data append_loop
sent_byte t b c room =
    let t1 : (not (t.command == 0x80) && not (t.command == 0x85)) ≡ false = ground arith in
    let t2 : leb raw_stride t.program_column ≡ false = ground arith in
    let low : bit_and (b / 2 ^ (0 * 8)) 0xff ≡ b % 256 = bit_and-ones 8 (b / 1) ∙ omega arith in
    rw (t1, t2, low)

call_data-IsLoaded :
    {s : Nand} {page column n : ℕ} {payload : ℕ → ℕ} (t : Nand) (value size : ℕ) (write : Bool)
    → IsLoaded 0x80 s page column n payload t
    → IsLoaded 0x80 s page column n payload (call_data t value size write)
call_data-IsLoaded t value size write h = record {
  command = h.command;
  bytes = h.bytes;
  size = h.size;
  stride = h.stride;
  image = h.image;
  fails = h.fails;
  page_is = h.page_is;
  valid = h.valid;
  column_is = h.column_is;
  filled = h.filled;
  start = h.start;
  len = h.len;
  buffer = h.buffer;
}

append_byte-IsLoaded :
    {s t : Nand} {page column n : ℕ} {payload : ℕ → ℕ}
    → IsLoaded 0x80 s page column n payload t
    → IsLoaded 0x80 s page column (n + 1) payload (append_byte t (payload n % 256))
unfolding append_byte
append_byte-IsLoaded {s} {t} {page} {column} {n} {payload} h = record {
  command = h.command;
  bytes = h.bytes;
  size = h.size;
  stride = h.stride;
  image = h.image;
  fails = h.fails;
  page_is = h.page_is;
  valid = h.valid;
  column_is = omega (arith, h.column_is);
  filled = ground arith;
  start = ground arith;
  len = ground arith;
  buffer = λ k less. ground (arith, h.buffer k);
}

send_byte-IsLoaded :
    {s t : Nand} {page column n : ℕ} {payload : ℕ → ℕ}
    → column + n < raw_stride
    → IsLoaded 0x80 s page column n payload t
    → IsLoaded 0x80 s page column (n + 1) payload (mmio_write t 0 (payload n) 1 true)
send_byte-IsLoaded {s} {t} {page} {column} {n} {payload} room h =
    rw (sent_byte t (payload n) h.command (omega (arith, h.column_is)))
      (call_data-IsLoaded (append_byte t (payload n % 256)) _ _ _ (append_byte-IsLoaded h))

pub send_bytes-IsLoaded :
    {s : Nand} {page column : ℕ} {payload : ℕ → ℕ} (left n : ℕ) (t : Nand)
    → column + n + left ≤ raw_stride
    → IsLoaded 0x80 s page column n payload t
    → IsLoaded 0x80 s page column (n + left) payload (send_bytes left n payload t)
send_bytes-IsLoaded {s} {page} {column} {payload} zero n t room h = rw add-zero h
send_bytes-IsLoaded {s} {page} {column} {payload} (suc left) n t room h =
    let moved : n + suc left ≡ n + 1 + left = omega arith in
    rw moved (
      send_bytes-IsLoaded left (n + 1) (mmio_write t 0 (payload n) 1 true) (omega arith)
        (send_byte-IsLoaded (omega arith) h))

-- The image, as the host addresses it.
abbrev pub place : Nand → ℕ → ℕ → ℕ
place s page column = page * stride_of s + column

module _ {code : ℕ} {s t : Nand} {page column n : ℕ} {payload : ℕ → ℕ}
    (h : IsLoaded code s page column n payload t) where
  pub same_stride : stride_of t ≡ stride_of s
  unfolding stride_of
  same_stride = rw (h.stride)

  pub same_offset : page_offset_of t ≡ page * stride_of s
  same_offset = ap₂ ◌*◌ h.page_is same_stride

  pub loaded-IsAimed :
      s.has_data ≡ true → 0 < n → column + n ≤ stride_of s → page * stride_of s < s.size → IsAimed t
  loaded-IsAimed image some fits inside = record {
    image = h.image ∙ image;
    aimed = h.valid;
    filled = ground (arith, h.filled);
    inside = omega (arith, same_offset, h.size);
    starts = ground (arith, same_stride, h.start);
    some_bytes = ground (arith, h.start, h.len);
  }

  pub loaded-IsWhole : IsWhole s → IsWhole t
  loaded-IsWhole w = record {
    pages = simp (h.size, same_stride) w.pages;
    stride = rw same_stride w.stride;
    small = rw h.size w.small;
  }
