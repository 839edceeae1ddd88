-- ===== src/Uart/Access.antt =====
-- What the driver sees through the register window of qemu/overlay/hw/char/jz4740_uart.c: bytes that
-- it transmits, an overrun, and the registers that are wider than a byte.
use bbk9588_emulator.Base.{
  ℕ, ◌/◌, ◌%◌, ◌^◌, ◌<◌, ◌≡◌, refl, ◌∙◌, arith, true, false, not, ◌&&◌, ltb, if◌then◌else◌,
  Bool-cases, inl, inr, [], ◌∷◌, ◌++◌, update, bit_or, bit_and,
}
use mathlib.Core.Path.{subst}
use bbk9588_emulator.Bits.{
  has, test_bit-mod, test_bit-bit_or, test_bit-bit_and, bit_and-bit, bit_and-ones, test_bit-not32,
  not32,
}
use bbk9588_emulator.Mmio.{byte_shift, merge}
use bbk9588_emulator.Mmio.Lanes.{IsSize, low_byte-merge, merge_word, extract32_word}
use bbk9588_emulator.Uart.State.{
  Uart, fifo_size, over, error_mask, lsr_value, update_irq, update_lsr, latch_thr_irq,
}
use bbk9588_emulator.Uart.Fifo.{store_rx, push_rx}
use bbk9588_emulator.Uart.Registers.{
  read, read_reg, read_value, read_lsr, transmit, write_thr, store_reg, write_reg, write, dlab,
}
use bbk9588_emulator.Uart.Queue.{InRange, contents, contents-push_rx}
use bbk9588_emulator.Uart.Status.{lsr-over}

-- A byte leaves the port for the character device or for its own receiver.
pub record Transmitted (s t : Uart) (value : ℕ) : Type 0 where
  pub received :
      contents t
      ≡ (if has s.mcr 0x10 && ltb s.rx_len fifo_size then contents s ++ value ∷ [] else contents s)
  pub sent : t.sent ≡ (if not (has s.mcr 0x10) && s.connected then value ∷ s.sent else s.sent)

-- The transmit interrupt has no part in it.
latch_thr_irq-Transmitted :
    (s t : Uart) (value : ℕ) → Transmitted s t value → Transmitted s (latch_thr_irq t) value
unfolding latch_thr_irq
latch_thr_irq-Transmitted s t value h =
    elim (Bool-cases (has t.fcr 0x10 && has t.ier 0x02 && has t.status 0x20)) [
      | inl e ↦ rw e (record { received = h.received; sent = h.sent })
      | inr n ↦ rw n h
    ]

push_rx-sent : (s : Uart) (value : ℕ) → (push_rx s value).sent ≡ s.sent
unfolding push_rx store_rx update_irq update_lsr
push_rx-sent s value = ground arith

transmit-Transmitted : (s : Uart) (value : ℕ) → InRange s → Transmitted s (transmit s value) value
unfolding transmit
transmit-Transmitted s value r = ground (arith, contents-push_rx s value r, push_rx-sent s value)

write_thr-Transmitted :
    (s : Uart) (value : ℕ) → InRange s → dlab s ≡ false → Transmitted s (write_thr s value) value
unfolding write_thr update_lsr
write_thr-Transmitted s value r off =
    let begun : Uart = record s { thr_irq_latched = false } in
    let passed = transmit-Transmitted begun value (record { head = r.head; len = r.len }) in
    let latched =
      latch_thr_irq-Transmitted begun (update_lsr (transmit begun value)) value
        (record { received = passed.received; sent = passed.sent }) in
    rw off (record { received = latched.received; sent = latched.sent })

-- A write to the transmit register, with the divisor latch off and whatever its size, passes on the
-- low byte of the value: in loop back the receive queue gets it, at its end and unless sixteen bytes
-- wait; otherwise the character device gets it, if one is connected. Nothing else enters the queue or
-- is sent.
pub write-Transmitted :
    (s : Uart) (value size : ℕ)
    → InRange s
    → dlab s ≡ false
    → IsSize size
    → Transmitted s (write s 0x00 value size) (value % 256)
unfolding write write_reg store_reg update_irq update_lsr
write-Transmitted s value size r off h =
    let noted : Uart = record s { regs = update s.regs 0 (merge (s.regs 0) 0 size value) } in
    let byte = bit_and (merge (s.regs 0) 0 size value / 2 ^ byte_shift 0) 0xff in
    let low : byte ≡ value % 256 = low_byte-merge (s.regs 0) size value h in
    let done = write_thr-Transmitted noted byte (record { head = r.head; len = r.len }) off in
    subst (λ (b : ℕ). Transmitted s (write s 0x00 value size) b) low
      (record { received = done.received; sent = done.sent })

-- What happens to a byte that arrives at a full queue.
pub record OverrunSeen (s : Uart) (value : ℕ) : Type 0 where
  pub kept : contents (push_rx s value) ≡ contents s
  pub reported : has (read (push_rx s value) 0x14 4).0 over ≡ true
  pub once : has (read (read (push_rx s value) 0x14 4).1 0x14 4).0 over ≡ false

read_lsr-over :
    (s : Uart)
    → (has (read s 0x14 4).0 over ≡ has s.status over) × (has (read s 0x14 4).1.status over ≡ false)
unfolding read read_reg read_value read_lsr update_irq update_lsr
read_lsr-over s =
    let lsr = lsr_value s.status s.rx_len s.fcr in
    let cleared = bit_and lsr (not32 error_mask) in
    let first = lsr-over s.status s.rx_len s.fcr in
    rw (extract32_word (lsr % 256) 0x14 refl) (
      ground (arith, first, bit_and-bit 1 (lsr % 256), bit_and-bit 1 lsr, test_bit-mod 8 lsr 1),
      lsr-over cleared s.rx_len s.fcr
          ∙ ground (
            arith,
            bit_and-bit 1 cleared,
            test_bit-bit_and lsr (not32 error_mask) 1,
            test_bit-not32 error_mask 1,
          ),
    )

-- A byte that arrives while sixteen wait is dropped and the waiting ones stay; the next read of the
-- status register reports the overrun, and the one after it does not.
pub overrun_reported :
    (s : Uart) (value : ℕ) → InRange s → s.rx_len ≡ fifo_size → OverrunSeen s value
unfolding push_rx store_rx update_irq update_lsr
overrun_reported s value r full =
    let no_room : ltb s.rx_len fifo_size ≡ false = ground arith in
    let status = bit_or s.status over in
    let noted : has status over ≡ true =
      ground (arith, bit_and-bit 1 status, test_bit-bit_or s.status over 1) in
    let seen = read_lsr-over (push_rx s value) in
    let again = read_lsr-over (read (push_rx s value) 0x14 4).1 in
    record {
      kept = contents-push_rx s value r ∙ rw no_room refl;
      reported = seen.0 ∙ rw no_room (lsr-over status s.rx_len s.fcr ∙ noted);
      once = again.0 ∙ seen.1;
    }

-- The register UACR holds twelve bits, but a read passes on only the low eight of what was written.
pub read-write_uacr :
    (s : Uart) (value : ℕ)
    → s.regs 10 < 2 ^ 32
    → ((write s 0x28 value 4).uacr ≡ value % 2 ^ 12)
      × ((read (write s 0x28 value 4) 0x28 4).0 ≡ value % 2 ^ 8)
unfolding read read_reg read_value write write_reg store_reg update_irq update_lsr
read-write_uacr s value h =
    let word = merge_word (s.regs 10) 0x28 value h in
    let masked : bit_and (value % 2 ^ 32) 0xfff ≡ value % 2 ^ 12 =
      bit_and-ones 12 (value % 2 ^ 32) ∙ omega arith in
    rw (word, masked) (refl, extract32_word (value % 2 ^ 12 % 256) 0x28 refl ∙ omega arith)
