-- ===== src/Tcu/Forget.antt =====
-- A match whose deadline has come when tcu_schedule runs.
use bbk9588_emulator.Base.{
  before, ℕ, zero, suc, ◌+◌, ◌%◌, ◌^◌, ◌<◌, ◌≡◌, refl, arith, Bool, true, false, not, ◌&&◌, ◌||◌,
  ◌==◌, if◌then◌else◌, inl, inr, Bool-cases, ◌∙◌, update, ap, bit_and, ==→eq,
}
use bbk9588_emulator.Bits.{test_bit}
use bbk9588_emulator.Tcu.Frame.{schedule_same}
use bbk9588_emulator.Tcu.Flags.{raise_pending_lem}
use bbk9588_emulator.Tcu.Counter.{
  HostUtils, Tcu, num_channels, low16, for_each, tick_hz, channel_tcsr, ticks_to_ns,
  counter_running, current_counter,
}
use bbk9588_emulator.Tcu.Deadline.{
  ticks_until_match, flag_of, next_deadline_ns, schedule_channel, schedule, raise_pending,
}

-- other deadlines
abbrev with_deadlines : Tcu → (ℕ → ℕ) → (ℕ → ℕ) → Tcu
with_deadlines s full half = record s { deadline_ns = full; half_deadline_ns = half }

same_next :
    (host : HostUtils) (s : Tcu) (full half : ℕ → ℕ) (ch : ℕ) (h : Bool) (now_ns : ℕ)
    → next_deadline_ns host (with_deadlines s full half) ch h now_ns
      ≡ next_deadline_ns host s ch h now_ns
unfolding next_deadline_ns ticks_until_match current_counter counter_running tick_hz channel_tcsr
same_next host s full half ch h now_ns = refl

record IsFilled (host : HostUtils) (s : Tcu) (now_ns n : ℕ) (t : Tcu) : Type 0 where
  same : t ≡ with_deadlines s t.deadline_ns t.half_deadline_ns
  full : (ch : ℕ) → ch < n → t.deadline_ns ch ≡ next_deadline_ns host s ch false now_ns
  half : (ch : ℕ) → ch < n → t.half_deadline_ns ch ≡ next_deadline_ns host s ch true now_ns

filled :
    (host : HostUtils) (s : Tcu) (now_ns n : ℕ)
    → IsFilled host s now_ns n (for_each n (schedule_channel host now_ns) (s, 0)).0
unfolding schedule_channel
filled host s now_ns zero = record {
  same = refl;
  full = λ ch p. absurd (omega arith);
  half = λ ch p. absurd (omega arith);
}
filled host s now_ns (suc n) =
    let r = (for_each n (schedule_channel host now_ns) (s, 0)).0 in
    let ih = filled host s now_ns n in
    let next : (h : Bool)
        → next_deadline_ns host r n h now_ns ≡ next_deadline_ns host s n h now_ns =
      λ h.
        ap (λ (t : Tcu). next_deadline_ns host t n h now_ns) ih.same
        ∙ same_next host s r.deadline_ns r.half_deadline_ns n h now_ns in
    record {
      same =
          ap
            (λ (t : Tcu).
              with_deadlines t (update r.deadline_ns n (next_deadline_ns host r n false now_ns))
                (update r.half_deadline_ns n (next_deadline_ns host r n true now_ns)))
            ih.same;
      full = λ ch p. elim (Bool-cases (n == ch)) [
        | inl this ↦
            rw this (
              next false ∙ ap (λ (c : ℕ). next_deadline_ns host s c false now_ns) (==→eq n ch this))
        | inr other ↦ rw other (ih.full ch (ground arith))
      ];
      half = λ ch p. elim (Bool-cases (n == ch)) [
        | inl this ↦
            rw this
              (next true ∙ ap (λ (c : ℕ). next_deadline_ns host s c true now_ns) (==→eq n ch this))
        | inr other ↦ rw other (ih.half ch (ground arith))
      ];
    }

-- The time to the next match of a comparator, in nanoseconds.
abbrev pub distance_ns : HostUtils → Tcu → ℕ → Bool → ℕ → ℕ
distance_ns host s ch half now_ns =
    ticks_to_ns host
      (ticks_until_match host s ch
        (if half then low16 (s.half_compare ch) else low16 (s.compare ch)) now_ns)
      (tick_hz s ch)

armed :
    (off : Bool) (ns now_ns : ℕ)
    → now_ns < 2 ^ 62
    → ns < 2 ^ 62
    → let d = if off then 0 else if ns == 0 then 0 else (now_ns + ns) % 2 ^ 64 in
      (not (d == 0) && not (before now_ns d)) ≡ false
armed true ns now_ns h k = refl
armed false ns now_ns h k = elim (Bool-cases (ns == 0)) [
  | inl none ↦ rw none refl
  | inr some ↦ rw some (ground arith)
]

not_due_yet :
    (host : HostUtils) (s : Tcu) (ch : ℕ) (half : Bool) (now_ns : ℕ)
    → now_ns < 2 ^ 62
    → distance_ns host s ch half now_ns < 2 ^ 62
    → let d = next_deadline_ns host s ch half now_ns in
      (not (d == 0) && not (before now_ns d)) ≡ false
unfolding next_deadline_ns
not_due_yet host s ch half now_ns h k =
    armed (not (counter_running s ch) || not (bit_and s.pending_mask (flag_of ch half) == 0))
      (distance_ns host s ch half now_ns) now_ns h k

deadline_after :
    (host : HostUtils) (s : Tcu) (now_ns ch : ℕ) (half : Bool)
    → ch < num_channels
    → let s' = schedule host s now_ns in
      (if half then s'.half_deadline_ns ch else s'.deadline_ns ch)
      ≡ next_deadline_ns host s ch half now_ns
unfolding schedule
deadline_after host s now_ns ch false c = (filled host s now_ns num_channels).full ch c
deadline_after host s now_ns ch true c = (filled host s now_ns num_channels).half ch c

-- A match that has come but has not been handled is forgotten by `tcu_schedule`: whatever the
-- deadlines were, a timer event at the time of the schedule sets no flag. The pending register is a
-- word, and the time and the distance to the next match are below 2^62.
pub raise_pending-schedule :
    (host : HostUtils) (s : Tcu) (now_ns ch : ℕ) (half : Bool)
    → s.pending_mask < 2 ^ 32
    → ch < num_channels
    → now_ns < 2 ^ 62
    → distance_ns host s ch half now_ns < 2 ^ 62
    → let flag = if half then ch + 16 else ch in
      test_bit (raise_pending (schedule host s now_ns) now_ns).pending_mask flag
      ≡ test_bit s.pending_mask flag
raise_pending-schedule host s now_ns ch half word c early near =
    let s' = schedule host s now_ns in
    let flag = if half then ch + 16 else ch in
    let same : s'.pending_mask ≡ s.pending_mask = (schedule_same host s now_ns).pending in
    let quiet =
      ap (λ (d : ℕ). not (d == 0) && not (before now_ns d)) (deadline_after host s now_ns ch half c)
      ∙ not_due_yet host s ch half now_ns early near in
    raise_pending_lem s' now_ns ch half (omega (arith, same, word)) c
    ∙ ap (λ (b : Bool). test_bit s'.pending_mask flag || b) quiet
    ∙ ground (arith, ap (λ (m : ℕ). test_bit m flag) same)
