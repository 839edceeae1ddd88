-- ===== src/Cim/Idle.antt =====
-- No camera is attached to qemu/overlay/hw/misc/jz4740_cim.c: what the guest can see of it.
use bbk9588_emulator.Base.{ℕ, ◌<◌, ◌≡◌, refl, arith, bit_and, bit_or, ◌&&◌, List, [], ◌∷◌}
use bbk9588_emulator.Irq.{IsDriven, drive_change-IsDriven}
use bbk9588_emulator.Bits.{has, not32, bit_and-le, bit_or-lt, bit_and-bit}
use bbk9588_emulator.Cim.Registers.{
  Cim, vddm, rf_empty, vdd, irq_pending, update_irq, queue_reset, follow_enable, write_control,
  write_reg, write, reset_hold, post_load, Op, mmio_write, load, step, run,
}

-- Only the flags of the empty queue and of the disabled interface can be set, and the line follows the
-- second.
pub record IsIdle (s : Cim) : Type 0 where
  pub status : s.status < 4
  pub level : s.irq_level ≡ (has s.status vdd && has s.control vddm)
  pub line : IsDriven s.output s.irq_level

-- The other events are absent.
quiet : (s : Cim) → s.status < 4 → irq_pending s ≡ (has s.status vdd && has s.control vddm)
unfolding irq_pending
quiet s h = ground (
  arith,
  bit_and-bit 6 s.status,
  bit_and-bit 5 s.status,
  bit_and-bit 4 s.status,
  bit_and-bit 3 s.status,
  bit_and-bit 2 s.status,
)

update_irq-IsIdle : (s : Cim) → s.status < 4 → IsDriven s.output s.irq_level → IsIdle (update_irq s)
unfolding update_irq irq_pending
update_irq-IsIdle s h line = record {
  status = h;
  level = quiet s h;
  line = drive_change-IsDriven s.irq_level (irq_pending s) s.output line;
}

kept-lt : (status m : ℕ) → status < 4 → bit_and status m < 4
kept-lt status m h = omega (arith, bit_and-le 2 status m h)

raised-lt : (status m f : ℕ) → status < 4 → f < 4 → bit_or (bit_and status m) f < 4
raised-lt status m f h k = bit_or-lt 2 (bit_and status m) f (kept-lt status m h) k

follow_enable-lt :
    (old_control control status : ℕ) → status < 4 → follow_enable old_control control status < 4
follow_enable-lt old_control control status h =
    ground (arith, kept-lt status (not32 vdd) h, bit_or-lt 2 status vdd h (omega arith))

write_reg-lt : (s : Cim) (offset value : ℕ) → s.status < 4 → (write_reg s offset value).status < 4
unfolding write_reg write_control
write_reg-lt s offset value h =
    let control = bit_and value 0xff0f3f77 in
    ground (
      arith,
      follow_enable-lt s.control control s.status h,
      follow_enable-lt s.control control (queue_reset s.status)
          (raised-lt s.status (not32 0x7c) rf_empty h (omega arith)),
      raised-lt s.status (bit_or value (not32 0x79)) rf_empty h (omega arith),
    )

write_reg-line :
    (s : Cim) (offset value : ℕ)
    → IsDriven s.output s.irq_level
    → IsDriven (write_reg s offset value).output (write_reg s offset value).irq_level
unfolding write_reg write_control
write_reg-line s offset value h = ground arith

-- The states that are restored are those of an interface without a camera.
abbrev pub WasIdle : Op → Type 0
WasIdle (load saved) = saved.status < 4
WasIdle (mmio_write offset value) = Unit

abbrev pub WereIdle : List Op → Type 0
WereIdle [] = Unit
WereIdle (op ∷ ops) = WasIdle op × WereIdle ops

step-IsIdle : (s : Cim) (op : Op) → WasIdle op → IsIdle s → IsIdle (step s op)
unfolding step write post_load
step-IsIdle s (mmio_write offset value) q h =
    update_irq-IsIdle (write_reg s offset value) (write_reg-lt s offset value h.status)
      (write_reg-line s offset value h.line)
step-IsIdle s (load saved) q h =
    update_irq-IsIdle _ (raised-lt saved.status 0x7f rf_empty q (omega arith)) h.line

run-IsIdle : (s : Cim) (ops : List Op) → WereIdle ops → IsIdle s → IsIdle (run s ops)
unfolding run
run-IsIdle s [] q h = h
run-IsIdle s (op ∷ ops) q h = run-IsIdle (step s op) ops q.1 (step-IsIdle s op q.0 h)

-- After a reset, whatever is written and whatever saved states with a status below 4 are restored, the
-- interface never claims data or an error of a camera: its status is below 4, so that only the flags of
-- the empty queue and of the disabled interface can be set; the line is high exactly while the second is
-- set and its interrupt enabled, and the recorded level is what was driven last, changes only.
pub run-reset_hold-IsIdle :
    (s : Cim) (ops : List Op) → WereIdle ops → IsIdle (run (reset_hold s) ops)
unfolding reset_hold
run-reset_hold-IsIdle s ops q =
    run-IsIdle _ ops q (record {
      status = omega arith;
      level = refl;
      line = record { alternates = tt; last = refl };
    })
