-- ===== src/Cpm/Tests.antt =====
-- The PLL is enabled and disabled again, a saved state is restored, and a wake source is opened.
use bbk9588_emulator.Base.{refl, arith, ◌==◌, if◌then◌else◌, true, List, [], ◌∷◌}
use bbk9588_emulator.Cpm.Registers.{Cpm, Op, mmio_write, load, run, reset}
use bbk9588_emulator.Cpm.Masks.{IsMasked, run-reset-IsMasked}

abbrev blank : Cpm
blank = record { regs = λ i. 0; has_update = true; updates = 0 }

abbrev saved : Cpm
saved = record blank { regs = λ i. if i == 4 then 0x500 else if i == 8 then 0xffff else 0 }

saved-IsMasked : IsMasked saved
saved-IsMasked = record {
  lcr = omega arith;
  clkgr = omega arith;
  scr = refl;
  i2scdr = omega arith;
  lpcdr = refl;
  msccdr = omega arith;
  uhccdr = omega arith;
  ssicdr = refl;
  cppcr = refl;
  pll = refl;
}

abbrev session : List Op
session =
    mmio_write 0x10 0x28080511 4
    ∷ mmio_write 0x10 0x28080111 2
    ∷ mmio_write 0x20 0x80 1
    ∷ load saved
    ∷ mmio_write 0x24 0xffffffff 4
    ∷ []

run-reset-IsMasked_example : IsMasked (run (reset blank) session)
run-reset-IsMasked_example =
    run-reset-IsMasked blank session (tt, (tt, (tt, (saved-IsMasked, (tt, tt)))))
