-- ===== src/Tcu/Latch.antt =====
-- The count of a channel: its range, and what tcu_latch_counter and tcu_write_counter keep of it.
use native.Mathlib.Nat.{mod-lt}
use bbk9588_emulator.Base.{
  before, ℕ, ◌<◌, ◌≡◌, refl, arith, true, false, not, ◌&&◌, ◌==◌, leb, inl, inr, Bool-cases, ◌∙◌,
  sym, update, ==-self, ap,
}
use bbk9588_emulator.Tcu.Counter.{
  HostUtils, Tcu, low16, num_channels, current_counter, latch_counter, counter_running,
  channel_index, update_period_cache,
}
use bbk9588_emulator.Tcu.Channel.{write_counter, read_counter, update_compare, set_compare}

-- One of the eight channels that counts to a nonzero full comparator shows a count below it once
-- time has passed since its anchor.
pub current_counter-lt :
    (host : HostUtils) (s : Tcu) (channel now_ns : ℕ)
    → channel < num_channels
    → counter_running s channel ≡ true
    → before (s.counter_anchor_ns channel) now_ns ≡ true
    → 0 < low16 (s.compare channel)
    → current_counter host s channel now_ns < low16 (s.compare channel)
unfolding current_counter
current_counter-lt host s channel now_ns c run past full =
    let in_range : leb num_channels channel ≡ false = ground arith in
    let some : (low16 (s.compare channel) == 0) ≡ false = ground arith in
    simp (in_range, run, past, some) (mod-lt _ full)

before_self : (t : ℕ) → before t t ≡ false
before_self t = ground arith

at_anchor :
    (host : HostUtils) (s : Tcu) (channel now_ns : ℕ)
    → channel < num_channels
    → s.counter_anchor_ns channel ≡ now_ns
    → current_counter host s channel now_ns ≡ low16 (s.counter channel)
unfolding current_counter
at_anchor host s channel now_ns c e =
    let in_range : leb num_channels channel ≡ false = ground arith in
    let still : before (s.counter_anchor_ns channel) now_ns ≡ false =
      ap (λ (t : ℕ). before t now_ns) e ∙ before_self now_ns in
    simp (in_range, still) (ground arith)

in_range : (channel : ℕ) → channel < num_channels → leb num_channels channel ≡ false
in_range channel c = ground arith

latched_counter :
    (host : HostUtils) (s : Tcu) (channel now_ns : ℕ)
    → channel < num_channels
    → let t = latch_counter host s channel now_ns in
      (t.counter channel ≡ low16 (current_counter host s channel now_ns))
      × (t.counter_anchor_ns channel ≡ now_ns)
unfolding latch_counter
latched_counter host s channel now_ns c = simp (in_range channel c, ==-self channel) (refl, refl)

read_at :
    (host : HostUtils) (s : Tcu) (channel now_ns : ℕ)
    → channel < num_channels
    → read_counter host s channel now_ns ≡ low16 (current_counter host s channel now_ns)
unfolding read_counter
read_at host s channel now_ns c = simp (in_range channel c) refl

-- Latching the count of one of the eight channels does not change what the guest reads at that
-- moment.
pub read_counter-latch_counter :
    (host : HostUtils) (s : Tcu) (channel now_ns : ℕ)
    → channel < num_channels
    → read_counter host (latch_counter host s channel now_ns) channel now_ns
      ≡ read_counter host s channel now_ns
read_counter-latch_counter host s channel now_ns c =
    let (count, anchor) = latched_counter host s channel now_ns c in
    read_at host (latch_counter host s channel now_ns) channel now_ns c
    ∙ ap low16 (
        at_anchor host (latch_counter host s channel now_ns) channel now_ns c anchor
        ∙ ap low16 count)
    ∙ omega arith
    ∙ sym (read_at host s channel now_ns c)

written_counter :
    (s : Tcu) (channel value now_ns : ℕ)
    → channel < num_channels
    → let t = write_counter s channel value now_ns in
      (t.counter channel ≡ low16 value) × (t.counter_anchor_ns channel ≡ now_ns)
unfolding write_counter
written_counter s channel value now_ns c = simp (in_range channel c, ==-self channel) (refl, refl)

-- A guest that writes TCNT of one of the eight channels and reads it at the same time reads the low
-- half word that it wrote, whether the channel runs or not.
pub read_counter-write_counter :
    (host : HostUtils) (s : Tcu) (channel value now_ns : ℕ)
    → channel < num_channels
    → read_counter host (write_counter s channel value now_ns) channel now_ns ≡ low16 value
read_counter-write_counter host s channel value now_ns c =
    let (count, anchor) = written_counter s channel value now_ns c in
    read_at host (write_counter s channel value now_ns) channel now_ns c
    ∙ ap low16 (
        at_anchor host (write_counter s channel value now_ns) channel now_ns c anchor
        ∙ ap low16 count)
    ∙ omega arith

cache_keeps :
    (host : HostUtils) (s : Tcu) (channel : ℕ)
    → let t = update_period_cache host s channel in
      (t.compare ≡ s.compare) × (t.counter ≡ s.counter)
unfolding update_period_cache
cache_keeps host s channel = elim (Bool-cases (leb num_channels channel)) [
  | inl out ↦ rw out (refl, refl)
  | inr inside ↦ rw inside (refl, refl)
]

set_full :
    (s : Tcu) (channel compare : ℕ)
    → 0 < compare
    → let t = set_compare s channel 0x00 compare in
      (t.compare channel ≡ compare) × (t.counter channel < compare)
unfolding set_compare
set_full s channel compare full = elim (Bool-cases (leb compare (s.counter channel))) [
  | inl above ↦
      let some : (not (compare == 0) && leb compare (s.counter channel)) ≡ true = ground arith in
      simp (some, ==-self channel) (refl, mod-lt (s.counter channel) full)
  | inr below ↦
      let small : (not (compare == 0) && leb compare (s.counter channel)) ≡ false = ground arith in
      simp (small, ==-self channel) (refl, ground arith)
]

-- After a write of the full comparator the stored count is below it, unless it was written as 0.
pub update_compare-lt :
    (host : HostUtils) (s : Tcu) (channel compare now_ns : ℕ)
    → channel < num_channels
    → 0 < low16 compare
    → let s' = update_compare host s channel 0x00 compare now_ns in
      (s'.compare channel ≡ low16 compare) × (s'.counter channel < low16 compare)
unfolding update_compare
update_compare-lt host s channel compare now_ns c full =
    let latched = latch_counter host s channel now_ns in
    let stored : Tcu = record latched {
      regs = update latched.regs (channel_index channel 0x00) (low16 compare);
    } in
    let (value, below) = set_full stored channel (low16 compare) full in
    let (same_compare, same_counter) =
      cache_keeps host (set_compare stored channel 0x00 (low16 compare)) channel in
    rw (in_range channel c) (
      ap (λ (f : ℕ → ℕ). f channel) same_compare ∙ value,
      omega (arith, below, ap (λ (f : ℕ → ℕ). f channel) same_counter),
    )
