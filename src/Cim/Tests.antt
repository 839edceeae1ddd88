-- ===== src/Cim/Tests.antt =====
-- The interface is enabled, disabled, and its event acknowledged.
use bbk9588_emulator.Base.{arith, false, List, [], ◌∷◌}
use bbk9588_emulator.Cim.Registers.{Cim, Op, mmio_write, load, run, reset_hold}
use bbk9588_emulator.Cim.Idle.{IsIdle, run-reset_hold-IsIdle}

abbrev blank : Cim
blank = record {
  output = [];
  config = 0;
  control = 0;
  status = 0;
  interrupt_id = 0;
  descriptor_address = 0;
  framebuffer_address = 0;
  frame_id = 0;
  command = 0;
  irq_level = false;
}

abbrev session : List Op
session =
    mmio_write 0x04 0x2001
    ∷ mmio_write 0x04 0x2002
    ∷ load (record blank { status = 3; control = 0x2000 })
    ∷ mmio_write 0x08 0xfffffffe
    ∷ mmio_write 0x20 0x80401237
    ∷ []

run-reset_hold-IsIdle_example : IsIdle (run (reset_hold blank) session)
run-reset_hold-IsIdle_example =
    run-reset_hold-IsIdle blank session (tt, (tt, (omega arith, (tt, (tt, tt)))))
