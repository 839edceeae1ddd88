-- ===== src/Tcu/Outputs.antt =====
-- The interrupt outputs of the timer unit follow the pending and the mask register.
use bbk9588_emulator.Base.{
  ℕ, zero, suc, ◌<◌, ◌≡◌, refl, arith, Bool, true, false, not, ◌==◌, inl, inr, Bool-cases, ◌∙◌, sym,
  update, bit_and, List, [], ◌∷◌, Option, some, none, ap, ==→eq,
}
use bbk9588_emulator.Bits.{not32, bit_and-le}
use bbk9588_emulator.Irq.{IsDriven, drive_change-IsDriven}
use bbk9588_emulator.Tcu.Counter.{HostUtils, Tcu, for_each}
use bbk9588_emulator.Tcu.Deadline.{
  sync_output, sync_irq, level_of, parent_flags, newly_pending, schedule, raise_pending, timer_cb,
}
use bbk9588_emulator.Tcu.Channel.{Clock, set_channel, write_channel, channel_reg}
use bbk9588_emulator.Tcu.Registers.{
  dispatch, write_word, write, read, read_word, reset_hold, Op, timer, mmio_read, mmio_write, step,
  run,
}
use bbk9588_emulator.Tcu.Frame.{
  SameFlags, schedule_same, channel_same, enable_same, disable_same, stop_same, start_same,
}

-- Each recorded level was driven last on its line, in changes only, and is the one that the flags demand.
pub record IsSynced (s : Tcu) : Type 0 where
  pub wired : (output : ℕ) → output < 3 → IsDriven (s.lines output) (s.output_level output)
  pub level : (output : ℕ) → output < 3 → s.output_level output ≡ level_of s output

keep : {s t : Tcu} → SameFlags s t → IsSynced s → IsSynced t
keep {s} {t} e h = record {
  wired = λ o p.
      let line : t.lines o ≡ s.lines o = ap (λ (f : ℕ → List Bool). f o) e.line in
      let level : t.output_level o ≡ s.output_level o = ap (λ (f : ℕ → Bool). f o) e.level in
      rw (line, level) (h.wired o p);
  level = λ o p.
      let level : t.output_level o ≡ s.output_level o = ap (λ (f : ℕ → Bool). f o) e.level in
      let demanded : level_of t o ≡ level_of s o = simp (e.pending, e.mask) refl in
      level ∙ h.level o p ∙ sym demanded;
}

-- For each n at most 3, the first n outputs after n rounds.
record IsSwept (n : ℕ) (s t : Tcu) : Type 0 where
  pending : t.pending_mask ≡ s.pending_mask
  mask : t.irq_mask ≡ s.irq_mask
  driven : (o : ℕ) → o < 3 → IsDriven (t.lines o) (t.output_level o)
  done : (o : ℕ) → o < n → t.output_level o ≡ level_of s o

sweep :
    (n : ℕ) (s : Tcu)
    → ((o : ℕ) → o < 3 → IsDriven (s.lines o) (s.output_level o))
    → IsSwept n s (for_each n sync_output s)
sweep zero s h = record {
  pending = refl;
  mask = refl;
  driven = h;
  done = λ o p. absurd (omega arith);
}
sweep (suc n) s h =
    let r = sweep n s h in
    let t = for_each n sync_output s in
    let demanded : level_of t n ≡ level_of s n = simp (r.pending, r.mask) refl in
    record {
      pending = r.pending;
      mask = r.mask;
      driven = λ o p. elim (Bool-cases (n == o)) [
        | inl this ↦ rw this (drive_change-IsDriven _ _ _ (r.driven n (ground arith)))
        | inr other ↦ rw other (r.driven o p)
      ];
      done = λ o p. elim (Bool-cases (n == o)) [
        | inl this ↦ rw this (demanded ∙ ap (level_of s) (==→eq n o this))
        | inr other ↦ rw other (r.done o (ground arith))
      ];
    }

sync_irq-IsSynced :
    (s : Tcu) → ((o : ℕ) → o < 3 → IsDriven (s.lines o) (s.output_level o)) → IsSynced (sync_irq s)
unfolding sync_irq
sync_irq-IsSynced s h =
    let r = sweep 3 s h in
    record {
      wired = r.driven;
      level = λ o p.
          let demanded : level_of (sync_irq s) o ≡ level_of s o = simp (r.pending, r.mask) refl in
          r.done o p ∙ sym demanded;
    }

wired_after :
    {s : Tcu}
    → IsSynced s
    → (pending_mask irq_mask : ℕ)
    → IsSynced (sync_irq (record s { pending_mask = pending_mask; irq_mask = irq_mask }))
wired_after {s} h pending_mask irq_mask =
    sync_irq-IsSynced (record s { pending_mask = pending_mask; irq_mask = irq_mask }) h.wired

scheduled :
    (host : HostUtils) {s : Tcu} (now_ns : ℕ) → IsSynced s → IsSynced (schedule host s now_ns)
scheduled host {s} now_ns h = keep (schedule_same host s now_ns) h

write_channel-IsSynced :
    (host : HostUtils) (s : Tcu) (offset value : ℕ) (clock : Clock)
    → IsSynced s
    → IsSynced (write_channel host s offset value clock)
unfolding write_channel
write_channel-IsSynced host s offset value clock h = go (channel_reg offset)
  where
    go :
        (r : Option (ℕ × ℕ))
        → IsSynced (elim r [
          | none ↦ s
          | some (channel, reg) ↦
              schedule host (set_channel host s channel reg value clock) clock.schedule_ns
        ])
    go none = h
    go (some (channel, reg)) =
        scheduled host clock.schedule_ns (keep (channel_same host s channel reg value clock) h)

dispatch-IsSynced :
    (host : HostUtils) (s : Tcu) (offset value : ℕ) (clock : Clock)
    → IsSynced s
    → IsSynced (dispatch host s offset value clock)
unfolding dispatch
dispatch-IsSynced host s offset value clock h = elim (Bool-cases (offset == 0x14)) [
  | inl e ↦ rw e (scheduled host clock.schedule_ns (keep (enable_same host s _ clock.now_ns) h))
  | inr n1 ↦ rw n1 (elim (Bool-cases (offset == 0x18)) [
    | inl e ↦ rw e (
        scheduled host clock.schedule_ns
          (sync_irq-IsSynced _ (keep (disable_same host s _ clock.now_ns) h).wired))
    | inr n2 ↦ rw n2 (elim (Bool-cases (offset == 0x24)) [
      | inl e ↦ rw e (wired_after h _ s.irq_mask)
      | inr n3 ↦ rw n3 (elim (Bool-cases (offset == 0x28)) [
        | inl e ↦ rw e (scheduled host clock.schedule_ns (wired_after h _ s.irq_mask))
        | inr n4 ↦ rw n4 (elim (Bool-cases (offset == 0x2c)) [
          | inl e ↦
              rw e (scheduled host clock.schedule_ns (keep (stop_same host s _ clock.now_ns) h))
          | inr n5 ↦ rw n5 (elim (Bool-cases (offset == 0x34)) [
            | inl e ↦ rw e (wired_after h s.pending_mask _)
            | inr n6 ↦ rw n6 (elim (Bool-cases (offset == 0x38)) [
              | inl e ↦ rw e (scheduled host clock.schedule_ns (wired_after h s.pending_mask _))
              | inr n7 ↦ rw n7 (elim (Bool-cases (offset == 0x3c)) [
                | inl e ↦
                    rw e
                      (scheduled host clock.schedule_ns (keep (start_same host s _ clock.now_ns) h))
                | inr n8 ↦ rw n8 (write_channel-IsSynced host s offset value clock h)
              ])
            ])
          ])
        ])
      ])
    ])
  ])
]

raise_pending-IsSynced : (s : Tcu) (now_ns : ℕ) → IsSynced s → IsSynced (raise_pending s now_ns)
unfolding raise_pending
raise_pending-IsSynced s now_ns h = elim (Bool-cases (newly_pending s now_ns == 0)) [
  | inl none_due ↦ rw none_due (sync_irq-IsSynced s h.wired)
  | inr due ↦ rw due (
      sync_irq-IsSynced _ λ o p.
        let line : update s.lines 3 (false ∷ true ∷ s.lines 3) o ≡ s.lines o = ground arith in
        rw line (h.wired o p))
]

idle : (o : ℕ) → false ≡ not (bit_and (bit_and 0 (not32 0)) (parent_flags o) == 0)
idle o = ground (arith, bit_and-le 32 0 (parent_flags o))

reset_hold-IsSynced : (s : Tcu) (now_ns : ℕ) → IsSynced (reset_hold s now_ns)
unfolding reset_hold
reset_hold-IsSynced s now_ns = record {
  wired = λ o p. record { alternates = tt; last = refl };
  level = λ o p. idle o;
}

step-IsSynced : (host : HostUtils) (s : Tcu) (op : Op) → IsSynced s → IsSynced (step host s op)
unfolding step timer_cb read read_word write write_word
step-IsSynced host s (timer now_ns later_ns) h =
    scheduled host later_ns (raise_pending-IsSynced s now_ns h)
step-IsSynced host s (mmio_read offset size now_ns) h =
    keep (record { pending = refl; mask = refl; level = refl; line = refl }) h
step-IsSynced host s (mmio_write offset value size clock) h =
    dispatch-IsSynced host _ _ _ clock
      (keep (record { pending = refl; mask = refl; level = refl; line = refl }) h)

run-IsSynced : (host : HostUtils) (s : Tcu) (ops : List Op) → IsSynced s → IsSynced (run host s ops)
unfolding run
run-IsSynced host s [] h = h
run-IsSynced host s (op ∷ ops) h =
    run-IsSynced host (step host s op) ops (step-IsSynced host s op h)

-- In every state that the timer unit reaches after a reset, through any timer events, reads and writes
-- at any times: the level of each of the three interrupt outputs is the one that the pending flags and
-- their mask demand, it is what was driven last, and no level was driven twice in a row.
pub run_synced :
    (host : HostUtils) (s : Tcu) (now_ns : ℕ) (ops : List Op) (output : ℕ)
    → output < 3
    → let t = run host (reset_hold s now_ns) ops in
      (t.output_level output ≡ level_of t output)
      × IsDriven (t.lines output) (t.output_level output)
run_synced host s now_ns ops output p =
    let h = run-IsSynced host (reset_hold s now_ns) ops (reset_hold-IsSynced s now_ns) in
    (h.level output p, h.wired output p)
