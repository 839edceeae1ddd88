-- ===== src/Rtc/Protect.antt =====
-- What the clock protects: the locked regulator, and the registers during hibernation.
use bbk9588_emulator.Base.{
  ℕ, ◌≡◌, refl, true, not, ◌&&◌, ◌==◌, leb, List, [], ◌∷◌, inl, inr, Bool-cases, ◌∙◌, ap,
}
use bbk9588_emulator.Mmio.{aligned}
use bbk9588_emulator.Rtc.State.{
  Rtc, has, alarm_enable, rtc_enable, seconds_at, latch_one_hz, latch_alarm, latch_flags,
  update_irq, schedule, timer_cb,
}
use bbk9588_emulator.Rtc.Registers.{
  read_reg, enter_hibernate, write_while_hibernating, write_control, new_control, write_seconds,
  store_reg, write_reg, read, write, Op, timer, mmio_read, mmio_write, step, run,
}

one_hz_regulator : (s : Rtc) (seconds : ℕ) → (latch_one_hz s seconds).regulator ≡ s.regulator
unfolding latch_one_hz
one_hz_regulator s seconds =
    elim (Bool-cases (has s.control rtc_enable && not (seconds == s.one_hz_latched_seconds))) [
      | inl ticked ↦ rw ticked refl
      | inr same ↦ rw same refl
    ]

alarm_regulator : (s : Rtc) (seconds : ℕ) → (latch_alarm s seconds).regulator ≡ s.regulator
unfolding latch_alarm
alarm_regulator s seconds =
    elim (Bool-cases (
      has s.control rtc_enable
      && has s.control alarm_enable
      && leb s.alarm_seconds seconds
      && not s.alarm_latched)) [ inl rings ↦ rw rings refl | inr quiet ↦ rw quiet refl ]

latch_regulator : (s : Rtc) (now_ns : ℕ) → (latch_flags s now_ns).regulator ≡ s.regulator
unfolding latch_flags
latch_regulator s now_ns =
    alarm_regulator (latch_one_hz s (seconds_at s now_ns)) (seconds_at s now_ns)
    ∙ one_hz_regulator s (seconds_at s now_ns)

settled_regulator :
    (s : Rtc) (update_ns schedule_ns : ℕ)
    → (schedule (update_irq s update_ns) schedule_ns).regulator ≡ s.regulator
unfolding schedule update_irq
settled_regulator s update_ns schedule_ns = latch_regulator s update_ns

read_reg-regulator :
    (s : Rtc) (offset now_ns : ℕ) → (read_reg s offset now_ns).1.regulator ≡ s.regulator
unfolding read_reg
read_reg-regulator s offset now_ns = elim (Bool-cases (offset == 0x00)) [
  | inl control ↦ rw control (latch_regulator s now_ns)
  | inr other ↦ rw other refl
]

control_regulator :
    (s : Rtc) (value now_ns : ℕ) → (write_control s value now_ns).regulator ≡ s.regulator
unfolding write_control
control_regulator s value now_ns =
    elim (Bool-cases (not (has s.control rtc_enable) && has (new_control s value) rtc_enable)) [
      | inl starts ↦ rw starts refl
      | inr keeps ↦ rw keeps refl
    ]

store_regulator :
    (s : Rtc) (offset value now_ns : ℕ)
    → has s.regulator 0x80000000 ≡ true
    → (store_reg s offset value now_ns).regulator ≡ s.regulator
unfolding store_reg write_seconds enter_hibernate
store_regulator s offset value now_ns lock = elim (Bool-cases (offset == 0x00)) [
  | inl e ↦ rw e (control_regulator s value now_ns)
  | inr n0 ↦ rw n0 (elim (Bool-cases (offset == 0x04)) [
    | inl e ↦ rw e (refl)
    | inr n1 ↦ rw n1 (elim (Bool-cases (offset == 0x08)) [
      | inl e ↦ rw e (refl)
      | inr n2 ↦ rw n2 (elim (Bool-cases (offset == 0x0c)) [
        | inl e ↦ rw e ((rw lock refl))
        | inr n3 ↦ rw n3 (elim (Bool-cases (offset == 0x20)) [
          | inl e ↦ rw e (
              (elim (Bool-cases (has value 0x1)) [
                | inl sleep ↦ rw sleep refl
                | inr wake ↦ rw wake refl
              ]))
          | inr n4 ↦ rw n4 (elim (Bool-cases (offset == 0x24)) [
            | inl e ↦ rw e (refl)
            | inr n5 ↦ rw n5 (elim (Bool-cases (offset == 0x28)) [
              | inl e ↦ rw e (refl)
              | inr n6 ↦ rw n6 (elim (Bool-cases (offset == 0x2c)) [
                | inl e ↦ rw e (refl)
                | inr n7 ↦ rw n7 (elim (Bool-cases (offset == 0x30)) [
                  | inl e ↦ rw e (refl)
                  | inr n8 ↦ rw n8 (elim (Bool-cases (offset == 0x34)) [
                    | inl e ↦ rw e (refl)
                    | inr n9 ↦ rw n9 (refl)
                  ])
                ])
              ])
            ])
          ])
        ])
      ])
    ])
  ])
]

hibernating_regulator :
    (s : Rtc) (offset value : ℕ) → (write_while_hibernating s offset value).regulator ≡ s.regulator
unfolding write_while_hibernating
hibernating_regulator s offset value = elim (Bool-cases (offset == 0x00)) [
  | inl control ↦ rw control refl
  | inr other ↦ rw other refl
]

write_regulator :
    (s : Rtc) (offset value now_ns : ℕ)
    → has s.regulator 0x80000000 ≡ true
    → (write_reg s offset value now_ns).regulator ≡ s.regulator
unfolding write_reg
write_regulator s offset value now_ns lock = elim (Bool-cases (has s.hcr 0x1)) [
  | inl asleep ↦ rw asleep (hibernating_regulator s offset value)
  | inr awake ↦ rw awake (store_regulator s offset value now_ns lock)
]

still : {a b : ℕ} → a ≡ b → has b 0x80000000 ≡ true → has a 0x80000000 ≡ true
still {a} {b} e h = ap (λ (n : ℕ). has n 0x80000000) e ∙ h

step_regulator :
    (s : Rtc) (op : Op) → has s.regulator 0x80000000 ≡ true → (step s op).regulator ≡ s.regulator
unfolding step timer_cb read write
step_regulator s (timer update_ns schedule_ns) lock = settled_regulator s update_ns schedule_ns
step_regulator s (mmio_read offset size clock) lock =
    settled_regulator _ clock.update_ns clock.schedule_ns
    ∙ read_reg-regulator s (aligned offset) clock.access_ns
step_regulator s (mmio_write offset value size clock) lock =
    let r = read_reg-regulator s (aligned offset) clock.access_ns in
    settled_regulator _ clock.update_ns clock.schedule_ns
    ∙ write_regulator (read_reg s (aligned offset) clock.access_ns).1 (aligned offset) _
        clock.access_ns (still r lock)
    ∙ r

-- Once the regulator is locked, no sequence of timer events, reads and writes changes it.
pub run_locked :
    (s : Rtc) (ops : List Op)
    → has s.regulator 0x80000000 ≡ true
    → (run s ops).regulator ≡ s.regulator
unfolding run
run_locked s [] lock = refl
run_locked s (op ∷ ops) lock =
    let e = step_regulator s op lock in run_locked (step s op) ops (still e lock) ∙ e
