-- ===== src/Nand/Bus/CopyBack.antt =====
-- The copy-back program: the commands 0x35 and 0x85, then 0x10.
use bbk9588_emulator.Base.{
  ℕ, ◌*◌, ◌≤◌, ◌≡◌, refl, bit_or, arith, Bool, true, false, not, ◌&&◌, ◌||◌, ltb, leb, inl, inr,
  Bool-cases, min,
}
use bbk9588_emulator.Nand.State.{
  Nand, emit, stride_of, raw_stride, status_ready, status_fail, command_event, column_from_address,
}
use bbk9588_emulator.Nand.Read.{prepare_page_read, prepare_erased_page}
use bbk9588_emulator.Nand.Program.{commit_program, reject_program, begin_program}
use bbk9588_emulator.Nand.Bus.{
  run_command, run_address, execute, note_page_read, load_program_buffer,
}
use bbk9588_emulator.Nand.Bus.Loaded.{send_address}

-- Read a page into the program buffer, aim it at another page, and confirm. `ok` is the outcome of the
-- write to the backend.
pub copy_back : Nand → ℕ → ℕ → Bool → Nand
copy_back s page column ok =
    run_command (send_address (run_command (run_command s 0x35 ok) 0x85 ok) page column) 0x10 ok

record Keeps (s t : Nand) : Type 0 where
  start : t.program_start ≡ s.program_start
  stride : t.page_stride ≡ s.page_stride
  image : t.has_data ≡ s.has_data
  bytes : t.bytes ≡ s.bytes

prepare-Keeps : (s : Nand) → Keeps s (prepare_page_read s)
unfolding prepare_page_read prepare_erased_page emit
prepare-Keeps s = elim (Bool-cases (ltb s.address_count 5)) [
  | inl short ↦ simp short (record { start = refl; stride = refl; image = refl; bytes = refl })
  | inr full ↦
      simp full (elim (Bool-cases (s.trace_enabled && ltb (column_from_address s) (stride_of s))) [
        | inl traced ↦
            simp traced (record { start = refl; stride = refl; image = refl; bytes = refl })
        | inr plain ↦
            simp plain (record { start = refl; stride = refl; image = refl; bytes = refl })
      ])
]

-- the device when the confirm arrives, and as the confirm finds it
aimed_copy : Nand → ℕ → ℕ → Bool → Nand
aimed_copy s page column ok =
    emit
      (record (send_address (run_command (run_command s 0x35 ok) 0x85 ok) page column) {
        command = 0x10;
      })
      command_event 0 0 0 0x10 0 0 false

record IsCopied (s t : Nand) : Type 0 where
  keeps : Keeps s t
  len : t.program_len ≡ raw_stride
  filled : t.program_has_data ≡ true
  valid : t.program_page_valid ≡ true

aimed_copy-IsCopied :
    (s : Nand) (page column : ℕ) (ok : Bool) → IsCopied s (aimed_copy s page column ok)
unfolding aimed_copy run_command run_address execute note_page_read load_program_buffer emit
aimed_copy-IsCopied s page column ok =
    let k = prepare-Keeps (emit (record s { command = 0x35 }) command_event 0 0 0 0x35 0 0 false) in
    record {
      keeps = record { start = k.start; stride = k.stride; image = k.image; bytes = k.bytes };
      len = refl;
      filled = refl;
      valid = refl;
    }

copy_confirmed :
    (s : Nand) (page column : ℕ) (ok : Bool)
    → copy_back s page column ok
      ≡ (let c = commit_program (aimed_copy s page column ok) ok in record c { busy_reads = 1 })
unfolding copy_back run_command aimed_copy
copy_confirmed s page column ok = refl

stride_of-Keeps : (s t : Nand) → Keeps s t → stride_of t ≡ stride_of s
unfolding stride_of
stride_of-Keeps s t k = simp (k.stride) refl

rejected :
    (s t : Nand) (ok : Bool)
    → IsCopied s t
    → s.program_start ≡ raw_stride
    → stride_of s ≤ raw_stride
    → s.has_data ≡ true
    → commit_program t ok ≡ reject_program t
unfolding commit_program reject_program
rejected s t ok h start stride image =
    let same = stride_of-Keeps s t h.keeps in
    let start' = h.keeps.start in
    let len = h.len in
    let image' = h.keeps.image in
    let filled = h.filled in
    let valid = h.valid in
    let t1 : (not t.has_data || not t.program_page_valid || not t.program_has_data) ≡ false =
      ground arith in
    let t2 : (leb t.size (t.program_page * stride_of t)
          || leb (stride_of t) (min t.program_start t.program_len)
          || leb t.program_len (min t.program_start t.program_len))
        ≡ true =
      ground arith in
    simp (t1, t2) refl

-- A copy-back program never copies: in a device with an image and a stride of at most 2112 bytes,
-- and unless data of an earlier program were left unconfirmed, the confirm reports a failure and
-- the image keeps every byte.
pub copy_back_fails :
    (s : Nand) (page column : ℕ) (ok : Bool)
    → s.has_data ≡ true
    → s.program_start ≡ raw_stride
    → stride_of s ≤ raw_stride
    → let s' = copy_back s page column ok in
      (s'.status ≡ bit_or status_ready status_fail) × (s'.bytes ≡ s.bytes)
unfolding reject_program begin_program
copy_back_fails s page column ok image start stride =
    let h = aimed_copy-IsCopied s page column ok in
    rw
      (
        copy_confirmed s page column ok,
        rejected s (aimed_copy s page column ok) ok h start stride image,
      )
      (refl, h.keeps.bytes)
