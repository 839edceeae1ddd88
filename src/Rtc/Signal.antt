-- ===== src/Rtc/Signal.antt =====
-- The interrupt line of the clock follows its control register.
use bbk9588_emulator.Base.{ℕ, ◌≡◌, refl, ◌&&◌, ◌||◌, List, [], ◌∷◌}
use bbk9588_emulator.Rtc.State.{
  Rtc, has, one_hz, one_hz_ie, alarm_flag, alarm_ie, demands, update_irq, schedule, timer_cb,
}
use bbk9588_emulator.Rtc.Registers.{
  read, write, reset_hold, Op, timer, mmio_read, mmio_write, step, run,
}

record IsSignalled (s : Rtc) : Type 0 where
  level : s.irq_level ≡ demands s.control
  driven : s.line ≡ s.irq_level

settled :
    (s : Rtc) (update_ns schedule_ns : ℕ)
    → IsSignalled (schedule (update_irq s update_ns) schedule_ns)
unfolding schedule update_irq
settled s update_ns schedule_ns = record { level = refl; driven = refl }

step-IsSignalled : (s : Rtc) (op : Op) → IsSignalled (step s op)
unfolding step timer_cb read write
step-IsSignalled s (timer update_ns schedule_ns) = settled s update_ns schedule_ns
step-IsSignalled s (mmio_read offset size clock) = settled _ clock.update_ns clock.schedule_ns
step-IsSignalled s (mmio_write offset value size clock) =
    settled _ clock.update_ns clock.schedule_ns

run-IsSignalled : (s : Rtc) (ops : List Op) → IsSignalled s → IsSignalled (run s ops)
unfolding run
run-IsSignalled s [] h = h
run-IsSignalled s (op ∷ ops) h = run-IsSignalled (step s op) ops (step-IsSignalled s op)

reset_hold-IsSignalled :
    (s : Rtc) (host_seconds now_ns : ℕ) → IsSignalled (reset_hold s host_seconds now_ns)
unfolding reset_hold schedule
reset_hold-IsSignalled s host_seconds now_ns = record { level = refl; driven = refl }

-- In every state that the clock reaches after a reset, through any timer events, reads and writes at
-- any times: the line is at the level that is recorded, and it is high exactly if a flag of the
-- control register is set together with its enable bit.
pub run_signalled :
    (s : Rtc) (host_seconds now_ns : ℕ) (ops : List Op)
    → let t = run (reset_hold s host_seconds now_ns) ops in
      (t.line ≡ t.irq_level)
      × (t.irq_level ≡ (
          has t.control one_hz && has t.control one_hz_ie
          || has t.control alarm_flag && has t.control alarm_ie))
run_signalled s host_seconds now_ns ops =
    let h =
      run-IsSignalled (reset_hold s host_seconds now_ns) ops
        (reset_hold-IsSignalled s host_seconds now_ns) in
    (h.driven, h.level)
