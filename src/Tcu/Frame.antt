-- ===== src/Tcu/Frame.antt =====
-- What the operations of the timer unit leave alone: the flags, their mask and the outputs.
use bbk9588_emulator.Base.{
  ℕ, zero, suc, ◌^◌, ◌≡◌, refl, ◌==◌, leb, inl, inr, Bool-cases, ◌∙◌, bit_and,
}
use bbk9588_emulator.Tcu.Counter.{
  HostUtils, Tcu, num_channels, for_each, latch_counter, update_period_cache,
}
use bbk9588_emulator.Tcu.Deadline.{schedule, schedule_channel}
use bbk9588_emulator.Tcu.Channel.{
  Clock, update_compare, set_compare, write_counter, write_control, set_channel, latch_channels,
  halt_channels, latch_marked, halt_marked, clear_deadlines, enable, disable, stop, start,
}

-- What an operation keeps that does not touch the flags or the outputs.
pub record SameFlags (s t : Tcu) : Type 0 where
  pub pending : t.pending_mask ≡ s.pending_mask
  pub mask : t.irq_mask ≡ s.irq_mask
  pub level : t.output_level ≡ s.output_level
  pub line : t.lines ≡ s.lines

pub same : (s : Tcu) → SameFlags s s
same s = record { pending = refl; mask = refl; level = refl; line = refl }

pub then_same : {s t u : Tcu} → SameFlags s t → SameFlags t u → SameFlags s u
then_same a b = record {
  pending = b.pending ∙ a.pending;
  mask = b.mask ∙ a.mask;
  level = b.level ∙ a.level;
  line = b.line ∙ a.line;
}

pub each_same :
    (n : ℕ) (body : ℕ → Tcu → Tcu)
    → ((ch : ℕ) (t : Tcu) → SameFlags t (body ch t))
    → (s : Tcu) → SameFlags s (for_each n body s)
each_same zero body h s = same s
each_same (suc n) body h s = then_same (each_same n body h s) (h n (for_each n body s))

pub schedule_loop :
    (host : HostUtils) (now_ns n : ℕ) (s : Tcu)
    → SameFlags s (for_each n (schedule_channel host now_ns) (s, 0)).0
unfolding schedule_channel
schedule_loop host now_ns zero s = same s
schedule_loop host now_ns (suc n) s =
    let r = schedule_loop host now_ns n s in
    record { pending = r.pending; mask = r.mask; level = r.level; line = r.line }

pub schedule_same : (host : HostUtils) (s : Tcu) (now_ns : ℕ) → SameFlags s (schedule host s now_ns)
unfolding schedule
schedule_same host s now_ns =
    let r = schedule_loop host now_ns num_channels s in
    record { pending = r.pending; mask = r.mask; level = r.level; line = r.line }

pub latch_same :
    (host : HostUtils) (s : Tcu) (channel now_ns : ℕ)
    → SameFlags s (latch_counter host s channel now_ns)
unfolding latch_counter
latch_same host s channel now_ns = elim (Bool-cases (leb num_channels channel)) [
  | inl out ↦ rw out (same s)
  | inr inside ↦ rw inside (record { pending = refl; mask = refl; level = refl; line = refl })
]

pub cache_same :
    (host : HostUtils) (s : Tcu) (channel : ℕ) → SameFlags s (update_period_cache host s channel)
unfolding update_period_cache
cache_same host s channel = elim (Bool-cases (leb num_channels channel)) [
  | inl out ↦ rw out (same s)
  | inr inside ↦ rw inside (record { pending = refl; mask = refl; level = refl; line = refl })
]

pub set_same : (s : Tcu) (channel reg compare : ℕ) → SameFlags s (set_compare s channel reg compare)
unfolding set_compare
set_same s channel reg compare = elim (Bool-cases (reg == 0x04)) [
  | inl half ↦ rw half (record { pending = refl; mask = refl; level = refl; line = refl })
  | inr full ↦ rw full (record { pending = refl; mask = refl; level = refl; line = refl })
]

-- the same with other registers
pub regs_same : {s t : Tcu} (regs : ℕ → ℕ) → SameFlags s t → SameFlags s (record t { regs = regs })
regs_same regs r = record { pending = r.pending; mask = r.mask; level = r.level; line = r.line }

pub compare_same :
    (host : HostUtils) (s : Tcu) (channel reg compare now_ns : ℕ)
    → SameFlags s (update_compare host s channel reg compare now_ns)
unfolding update_compare
compare_same host s channel reg compare now_ns = elim (Bool-cases (leb num_channels channel)) [
  | inl out ↦ rw out (same s)
  | inr inside ↦ rw inside (
      then_same
        (then_same (regs_same _ (latch_same host s channel now_ns)) (set_same _ channel reg _))
        (cache_same host _ channel))
]

pub channel_same :
    (host : HostUtils) (s : Tcu) (channel reg value : ℕ) (clock : Clock)
    → SameFlags s (set_channel host s channel reg value clock)
unfolding set_channel write_counter write_control
channel_same host s channel reg value clock = elim (Bool-cases (reg == 0x08)) [
  | inl count ↦ rw count (record { pending = refl; mask = refl; level = refl; line = refl })
  | inr other ↦ rw other (elim (Bool-cases (reg == 0x0c)) [
    | inl control ↦ rw control (
        then_same (regs_same _ (latch_same host s channel clock.now_ns))
          (cache_same host _ channel))
    | inr comparator ↦ rw comparator (compare_same host s channel reg value clock.inner_ns)
  ])
]

pub marked_same :
    (host : HostUtils) (value now_ns ch : ℕ) (t : Tcu)
    → SameFlags t (latch_marked host value now_ns ch t)
marked_same host value now_ns ch t = elim (Bool-cases (bit_and value (2 ^ ch) == 0)) [
  | inl skipped ↦ rw skipped (same t)
  | inr latched ↦ rw latched (latch_same host t ch now_ns)
]

pub cleared_same : {s t : Tcu} (ch : ℕ) → SameFlags s t → SameFlags s (clear_deadlines ch t)
cleared_same ch r = record { pending = r.pending; mask = r.mask; level = r.level; line = r.line }

pub halted_same :
    (host : HostUtils) (value now_ns ch : ℕ) (t : Tcu)
    → SameFlags t (halt_marked host value now_ns ch t)
halted_same host value now_ns ch t = elim (Bool-cases (bit_and value (2 ^ ch) == 0)) [
  | inl skipped ↦ rw skipped (same t)
  | inr latched ↦ rw latched (cleared_same ch (latch_same host t ch now_ns))
]

pub latch_channels_same :
    (host : HostUtils) (s : Tcu) (value now_ns : ℕ)
    → SameFlags s (latch_channels host s value now_ns)
unfolding latch_channels
latch_channels_same host s value now_ns =
    each_same num_channels (latch_marked host value now_ns) (marked_same host value now_ns) s

pub halt_channels_same :
    (host : HostUtils) (s : Tcu) (value now_ns : ℕ)
    → SameFlags s (halt_channels host s value now_ns)
unfolding halt_channels
halt_channels_same host s value now_ns =
    each_same num_channels (halt_marked host value now_ns) (halted_same host value now_ns) s

-- the same with other masks of the channels
pub masks_same :
    {s t : Tcu} (enabled_mask stop_mask : ℕ)
    → SameFlags s t
    → SameFlags s (record t { enabled_mask = enabled_mask; stop_mask = stop_mask })
masks_same enabled_mask stop_mask r = record {
  pending = r.pending;
  mask = r.mask;
  level = r.level;
  line = r.line;
}

pub enable_same :
    (host : HostUtils) (s : Tcu) (channels now_ns : ℕ) → SameFlags s (enable host s channels now_ns)
unfolding enable
enable_same host s channels now_ns = masks_same _ _ (latch_channels_same host s _ now_ns)

pub disable_same :
    (host : HostUtils) (s : Tcu) (channels now_ns : ℕ)
    → SameFlags s (disable host s channels now_ns)
unfolding disable
disable_same host s channels now_ns = masks_same _ _ (halt_channels_same host s channels now_ns)

pub stop_same :
    (host : HostUtils) (s : Tcu) (channels now_ns : ℕ) → SameFlags s (stop host s channels now_ns)
unfolding stop
stop_same host s channels now_ns = masks_same _ _ (halt_channels_same host s channels now_ns)

pub start_same :
    (host : HostUtils) (s : Tcu) (channels now_ns : ℕ) → SameFlags s (start host s channels now_ns)
unfolding start
start_same host s channels now_ns =
    then_same (masks_same _ _ (same s)) (latch_channels_same host _ _ now_ns)
