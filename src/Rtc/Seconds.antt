-- ===== src/Rtc/Seconds.antt =====
-- The seconds counter.
use bbk9588_emulator.Base.{
  ℕ, ◌+◌, ◌/◌, ◌%◌, ◌^◌, ◌-◌, ◌≤◌, ◌<◌, ◌≡◌, refl, arith, bit_and, Bool, true, false, ◌||◌,
  if◌then◌else◌, ◌∙◌, sym, ap,
}
use bbk9588_emulator.Bits.{
  test_bit, test_bit-bit_and, test_bit-bit_or, bit_and-pow, bit_and-le, bit_or-lt, not32,
}
use bbk9588_emulator.Rtc.State.{
  Rtc, has, one_hz, alarm_flag, rtc_enable, elapsed_seconds, seconds_at,
}
use bbk9588_emulator.Rtc.Registers.{write_control, new_control, store_reg, write_reg}

elapsed_lem :
    (s : Rtc) (now_ns : ℕ)
    → s.base_ns ≤ now_ns
    → now_ns < 2 ^ 63
    → elapsed_seconds s now_ns ≡ (now_ns - s.base_ns) / 1000000000
elapsed_lem s now_ns h k = ground arith

-- A running clock counts one second for each second of its time base, from the base on and around
-- 2^32, while the times stay in the range of an int64_t.
pub seconds_advance :
    (s : Rtc) (now_ns : ℕ)
    → has s.control rtc_enable ≡ true
    → s.base_ns ≤ now_ns
    → now_ns + 1000000000 < 2 ^ 63
    → seconds_at s (now_ns + 1000000000) ≡ (seconds_at s now_ns + 1) % 2 ^ 32
unfolding seconds_at
seconds_advance s now_ns on after range =
    rw
      (
        on,
        elapsed_lem s now_ns after (omega arith),
        elapsed_lem s (now_ns + 1000000000) (omega arith) range,
      )
      (omega arith)

has_enable : (a : ℕ) → a < 2 ^ 32 → has a rtc_enable ≡ test_bit a 0
has_enable a h = ground (arith, bit_and-pow 32 a 0 h)

kept_clear :
    (b : Bool) (f x : ℕ) → test_bit f 0 ≡ false → test_bit (if b then f else bit_and f x) 0 ≡ false
kept_clear true f x h = h
kept_clear false f x h = ground (arith, test_bit-bit_and f x 0)

enable_bit : (s : Rtc) (value : ℕ) → test_bit (new_control s value) 0 ≡ test_bit value 0
unfolding new_control
enable_bit s value =
    let flags = bit_and s.control 0x50 in
    let none : test_bit flags 0 ≡ false = ground (arith, test_bit-bit_and s.control 0x50 0) in
    let flags1 = if has value one_hz then flags else bit_and flags (not32 one_hz) in
    let none1 = kept_clear (has value one_hz) flags (not32 one_hz) none in
    let flags2 = if has value alarm_flag then flags1 else bit_and flags1 (not32 alarm_flag) in
    let none2 = kept_clear (has value alarm_flag) flags1 (not32 alarm_flag) none1 in
    test_bit-bit_or flags2 (bit_and value 0x2d) 0
    ∙ ap (λ (b : Bool). b || test_bit (bit_and value 0x2d) 0) none2
    ∙ ground (arith, test_bit-bit_and value 0x2d 0)

new_control-lt :
    (s : Rtc) (value : ℕ) → s.control < 2 ^ 32 → value < 2 ^ 32 → new_control s value < 2 ^ 32
unfolding new_control
new_control-lt s value h k =
    let flags = bit_and s.control 0x50 in
    let small : flags < 2 ^ 32 = omega (arith, bit_and-le 32 s.control 0x50 h) in
    let flags1 = if has value one_hz then flags else bit_and flags (not32 one_hz) in
    let small1 : flags1 < 2 ^ 32 = ground (arith, bit_and-le 32 flags (not32 one_hz) small) in
    let flags2 = if has value alarm_flag then flags1 else bit_and flags1 (not32 alarm_flag) in
    let small2 : flags2 < 2 ^ 32 = ground (arith, bit_and-le 32 flags1 (not32 alarm_flag) small1) in
    bit_or-lt 32 flags2 (bit_and value 0x2d) small2 (omega (arith, bit_and-le 32 value 0x2d k))

new_enable :
    (s : Rtc) (value : ℕ)
    → s.control < 2 ^ 32
    → value < 2 ^ 32
    → has (new_control s value) rtc_enable ≡ has value rtc_enable
new_enable s value h k =
    has_enable (new_control s value) (new_control-lt s value h k)
    ∙ enable_bit s value
    ∙ sym (has_enable value k)

stopped :
    (s : Rtc) (value now_ns : ℕ)
    → has s.control rtc_enable ≡ true
    → write_control s value now_ns ≡ record s { control = new_control s value }
unfolding write_control
stopped s value now_ns on = rw on refl

started :
    (s : Rtc) (value now_ns : ℕ)
    → has s.control rtc_enable ≡ false
    → has (new_control s value) rtc_enable ≡ true
    → write_control s value now_ns ≡ record s {
      control = new_control s value;
      base_ns = now_ns;
      one_hz_latched_seconds = s.base_seconds;
    }
unfolding write_control
started s value now_ns off on = rw (off, on) refl

to_control :
    (s : Rtc) (value now_ns : ℕ)
    → has s.hcr 0x1 ≡ false
    → write_reg s 0x00 value now_ns ≡ write_control s value now_ns
unfolding write_reg store_reg
to_control s value now_ns awake = rw awake refl

seconds_off :
    (s : Rtc) (now_ns : ℕ) → has s.control rtc_enable ≡ false → seconds_at s now_ns ≡ s.base_seconds
unfolding seconds_at
seconds_off s now_ns off = rw off refl

seconds_start :
    (s : Rtc) → has s.control rtc_enable ≡ true → seconds_at s s.base_ns ≡ s.base_seconds % 2 ^ 32
unfolding seconds_at
seconds_start s on =
    let none : elapsed_seconds s s.base_ns ≡ 0 = ground arith in rw (on, none) (omega arith)

-- Stopping the clock loses the time that it has counted: a running clock that does not hibernate
-- and is stopped by a write of RTCCR shows the seconds that it was last set to, however long it
-- ran, and started again at any later time it goes on from there. The registers and the written
-- values are words.
pub restart_loses :
    (s : Rtc) (stop_value start_value stop_ns start_ns now_ns : ℕ)
    → has s.hcr 0x1 ≡ false
    → s.control < 2 ^ 32
    → s.base_seconds < 2 ^ 32
    → has s.control rtc_enable ≡ true
    → stop_value < 2 ^ 32
    → has stop_value rtc_enable ≡ false
    → start_value < 2 ^ 32
    → has start_value rtc_enable ≡ true
    → let halted = write_reg s 0x00 stop_value stop_ns in
      (seconds_at halted now_ns ≡ s.base_seconds)
      × (seconds_at (write_reg halted 0x00 start_value start_ns) start_ns ≡ s.base_seconds)
restart_loses s stop_value start_value stop_ns start_ns now_ns awake word base on w1 off w2 again =
    let halted : Rtc = record s { control = new_control s stop_value } in
    let is_off : has halted.control rtc_enable ≡ false = new_enable s stop_value word w1 ∙ off in
    let is_on : has (new_control halted start_value) rtc_enable ≡ true =
      new_enable halted start_value (new_control-lt s stop_value word w1) w2 ∙ again in
    let first : write_reg s 0x00 stop_value stop_ns ≡ halted =
      to_control s stop_value stop_ns awake ∙ stopped s stop_value stop_ns on in
    let second =
      to_control halted start_value start_ns awake
      ∙ started halted start_value start_ns is_off is_on in
    let running : Rtc = record halted {
      control = new_control halted start_value;
      base_ns = start_ns;
      one_hz_latched_seconds = s.base_seconds;
    } in
    rw (first, second) (seconds_off halted now_ns is_off, seconds_start running is_on ∙ omega arith)
