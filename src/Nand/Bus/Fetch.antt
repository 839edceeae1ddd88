-- ===== src/Nand/Bus/Fetch.antt =====
-- Reading a page through the windows of the device.
use bbk9588_emulator.Base.{
  ℕ, ◌+◌, ◌*◌, ◌^◌, ◌<◌, ◌≡◌, refl, arith, true, false, ◌&&◌, ltb, if◌then◌else◌, ◌∙◌, ap, inl, inr,
  Bool-cases,
}
use bbk9588_emulator.Nand.State.{
  Nand, emit, stride_of, page_from_address, column_from_address, command_event,
}
use bbk9588_emulator.Nand.Bus.{run_command, run_address, execute, note_page_read}
use bbk9588_emulator.Nand.Read.{prepare_page_read, copy_length, blank_then_copy}
use bbk9588_emulator.Nand.Bus.Loaded.{send_address, read_steps, place, column_sum, page_sum}

-- What a page read puts into the buffer, trace events or not.
prepared :
    (t : Nand)
    → ltb t.address_count 5 ≡ false
    → ((prepare_page_read t).read_buffer
        ≡ blank_then_copy t.bytes
            (page_from_address t * stride_of t + column_from_address t)
            (copy_length t (page_from_address t) (column_from_address t)))
      × ((prepare_page_read t).read_index ≡ 0)
      × ((prepare_page_read t).bytes ≡ t.bytes)
unfolding prepare_page_read emit
prepared t e =
    rw e (elim (Bool-cases (t.trace_enabled && ltb (column_from_address t) (stride_of t))) [
      | inl traced ↦ rw traced (refl, refl, refl)
      | inr plain ↦ rw plain (refl, refl, refl)
    ])

-- The device when the command 0x30 arrives after a full address.
addressed : Nand → ℕ → ℕ → Nand
addressed s page column =
    emit (record (send_address (run_command s 0x00 true) page column) { command = 0x30 })
      command_event 0 0 0 0x30 0 0 false

fetched :
    (s : Nand) (page column : ℕ)
    → read_steps s page column ≡ note_page_read (prepare_page_read (addressed s page column))
unfolding read_steps run_command execute addressed
fetched s page column = refl

record IsAddressed (s : Nand) (page column : ℕ) (t : Nand) : Type 0 where
  full : t.address_count ≡ 5
  page_is : page_from_address t ≡ page
  column_is : column_from_address t ≡ column
  bytes : t.bytes ≡ s.bytes
  image : t.has_data ≡ s.has_data
  size : t.size ≡ s.size
  stride : stride_of t ≡ stride_of s

addressed-IsAddressed :
    (s : Nand) (page column : ℕ)
    → page < 2 ^ 24
    → column < 2 ^ 16
    → IsAddressed s page column (addressed s page column)
unfolding addressed run_command run_address execute emit page_from_address column_from_address
    stride_of
addressed-IsAddressed s page column p c = record {
  full = refl;
  page_is = page_sum page p;
  column_is = column_sum column c;
  bytes = refl;
  image = refl;
  size = refl;
  stride = refl;
}

-- A page read through the windows, at a column of 16 bits inside the page and a place inside the
-- image, fills the buffer with the image from the addressed byte on, as far as the image and the
-- buffer's 4096 bytes go, and with 0xff behind; reading starts at the first byte, and the image is
-- left alone.
pub read_steps_lem :
    (s : Nand) (page column k : ℕ)
    → s.has_data ≡ true
    → page < 2 ^ 24
    → column < 2 ^ 16
    → column < stride_of s
    → place s page column < s.size
    → let s' = read_steps s page column in
      (s'.read_buffer k ≡ (
        if ltb k 4096 && ltb (place s page column + k) s.size
        then s.bytes (place s page column + k)
        else 0xff))
      × (s'.read_index ≡ 0)
      × (s'.bytes ≡ s.bytes)
unfolding note_page_read emit copy_length
read_steps_lem s page column k image small wide in_page in_image =
    let t = addressed s page column in
    let a = addressed-IsAddressed s page column small wide in
    let (buffer, index, bytes) = prepared t (ground (arith, a.full)) in
    rw (fetched s page column) (
      ap (λ (f : ℕ → ℕ). f k) buffer
          ∙ rw (a.page_is, a.column_is, a.stride, a.bytes) (ground (arith, a.image, a.size)),
      index,
      bytes ∙ a.bytes,
    )
