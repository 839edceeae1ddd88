-- ===== src/Intc/Tests.antt =====
-- The interrupt controller after a reset, and the theorems on it.
use bbk9588_emulator.Base.{true, List, [], ◌∷◌}
use bbk9588_emulator.Intc.{Intc, reset_hold, Op, input, pending_mask, mmio_read, mmio_write, run}
use bbk9588_emulator.Intc.Coherent.{IsReady, IsCoherent, run-reset_hold-IsReady}

-- The timer's source 23 rises, the mask is opened for it, and the board lowers it again.
abbrev session : List Op
session =
    input 23 true ∷ mmio_write 0x0c 0x800000 4 ∷ mmio_read 0x10 4 ∷ pending_mask 0x800000 0 ∷ []

-- no callback is installed
abbrev no_refresh : Intc → Intc
no_refresh s = s

run-reset_hold-IsReady_example : IsReady (run no_refresh reset_hold session)
run-reset_hold-IsReady_example = run-reset_hold-IsReady no_refresh (λ t h. h) session

fresh : IsCoherent reset_hold
unfolding reset_hold run
fresh = (run-reset_hold-IsReady no_refresh (λ t h. h) []).coherent
