-- ===== src/Gpio/Flags.antt =====
-- The latched flags and the interrupt line of each port.
use bbk9588_emulator.Base.{
  ℕ, ◌/◌, ◌%◌, ◌^◌, ◌<◌, ◌≡◌, bit_and, bit_or, bit_xor, arith, Bool, true, false, not, ◌&&◌, ◌||◌,
  ◌==◌, if◌then◌else◌, List, [], ◌∷◌,
}
use mathlib.Core.Bool.{xor}
use bbk9588_emulator.Bits.{
  test_bit, test_bit-bit_and, test_bit-bit_or, test_bit-bit_xor, test_bit-not32, test_bit-zero,
  not32,
}
use bbk9588_emulator.Gpio.{
  Gpio, num_ports, set_input_level, raise_flag, pin_input, read, write, reset_hold, post_load, Op,
  input, level, raise, mmio_read, mmio_write, reset, step, run,
}

-- The line of each port is high, and recorded as high, exactly while a flag of the port is latched.
pub record IsLatched (s : Gpio) (port : ℕ) : Type 0 where
  pub level : s.irq_level port ≡ not (s.flag port == 0)
  pub line : s.driven port ≡ not (s.flag port == 0)

pub set_input_level-IsLatched :
    (s : Gpio) (port mask : ℕ) (high latch_flag : Bool) (p : ℕ)
    → p < num_ports
    → IsLatched s p
    → IsLatched (set_input_level s port mask high latch_flag).1 p
unfolding set_input_level
set_input_level-IsLatched s port mask high latch_flag p lt h = ground arith

pub raise_flag-IsLatched :
    (s : Gpio) (port mask p : ℕ)
    → p < num_ports
    → IsLatched s p
    → IsLatched (raise_flag s port mask) p
unfolding raise_flag
raise_flag-IsLatched s port mask p lt h = ground arith

pub read-IsLatched :
    (sample : ℕ → ℕ → ℕ) (s : Gpio) (offset size p : ℕ)
    → IsLatched s p
    → IsLatched (read sample s offset size).1 p
unfolding read
read-IsLatched sample s offset size p h = ground arith

pub write-IsLatched :
    (s : Gpio) (offset value size p : ℕ)
    → p < num_ports
    → IsLatched s p
    → IsLatched (write s offset value size) p
unfolding write
write-IsLatched s offset value size p lt h = ground arith

pub reset_hold-IsLatched : (s : Gpio) (p : ℕ) → p < num_ports → IsLatched (reset_hold s) p
unfolding reset_hold
reset_hold-IsLatched s p lt = ground arith

pub post_load-IsLatched : (s : Gpio) (p : ℕ) → p < num_ports → IsLatched (post_load s) p
unfolding post_load
post_load-IsLatched s p lt = ground arith

step-IsLatched :
    (sample : ℕ → ℕ → ℕ) (s : Gpio) (op : Op) (p : ℕ)
    → p < num_ports
    → IsLatched s p
    → IsLatched (step sample s op) p
unfolding step pin_input
step-IsLatched sample s (input n high) p lt h =
    set_input_level-IsLatched s (n / 32) (2 ^ (n % 32)) high true p lt h
step-IsLatched sample s (level port mask high latch_flag) p lt h =
    set_input_level-IsLatched s port mask high latch_flag p lt h
step-IsLatched sample s (raise port mask) p lt h = raise_flag-IsLatched s port mask p lt h
step-IsLatched sample s (mmio_read offset size) p lt h = read-IsLatched sample s offset size p h
step-IsLatched sample s (mmio_write offset value size) p lt h =
    write-IsLatched s offset value size p lt h
step-IsLatched sample s reset p lt h = reset_hold-IsLatched s p lt

run-IsLatched :
    (sample : ℕ → ℕ → ℕ) (s : Gpio) (ops : List Op) (p : ℕ)
    → p < num_ports
    → IsLatched s p
    → IsLatched (run sample s ops) p
unfolding run
run-IsLatched sample s [] p lt h = h
run-IsLatched sample s (op ∷ ops) p lt h =
    run-IsLatched sample (step sample s op) ops p lt (step-IsLatched sample s op p lt h)

-- In every state reached after a reset, by whatever pin changes, board requests, reads, writes and
-- further resets, each port's line was last driven to the level that is recorded, and that level is
-- high exactly while a flag of the port is latched.
pub run-reset_hold-IsLatched :
    (sample : ℕ → ℕ → ℕ) (s : Gpio) (ops : List Op) (p : ℕ)
    → p < num_ports
    → IsLatched (run sample (reset_hold s) ops) p
run-reset_hold-IsLatched sample s ops p lt =
    run-IsLatched sample (reset_hold s) ops p lt (reset_hold-IsLatched s p lt)

changed_bit :
    (previous mask : ℕ) (high : Bool) (i : ℕ)
    → i < 32
    → test_bit
        (bit_xor previous (if high then bit_or previous mask else bit_and previous (not32 mask)))
        i
      ≡ (test_bit mask i && (if high then not (test_bit previous i) else test_bit previous i))
unfolding xor
changed_bit previous mask true i p =
    ground
      (arith, test_bit-bit_xor previous (bit_or previous mask) i, test_bit-bit_or previous mask i)
changed_bit previous mask false i p = ground (
  arith,
  test_bit-bit_xor previous (bit_and previous (not32 mask)) i,
  test_bit-bit_and previous (not32 mask) i,
  test_bit-not32 mask i p,
)

-- the bits in which `set_input_level` changes the pins
abbrev pub changes : Gpio → ℕ → ℕ → Bool → ℕ → Bool
changes s port mask high i =
    test_bit mask i
    && (if high then not (test_bit (s.input_level port) i) else test_bit (s.input_level port) i)

level_bit :
    (previous mask : ℕ) (high : Bool) (i : ℕ)
    → i < 32
    → test_bit (if high then bit_or previous mask else bit_and previous (not32 mask)) i
      ≡ (if test_bit mask i then high else test_bit previous i)
level_bit previous mask true i p = ground (arith, test_bit-bit_or previous mask i)
level_bit previous mask false i p =
    ground (arith, test_bit-bit_and previous (not32 mask) i, test_bit-not32 mask i p)

-- `set_input_level` on a port of the controller drives exactly the pins of the mask to the level. If
-- it is asked to latch, it latches exactly the pins that changed, beside those latched before, and
-- otherwise no flag.
pub test_bit-set_input_level :
    (s : Gpio) (port mask : ℕ) (high latch_flag : Bool) (i : ℕ)
    → port < num_ports
    → i < 32
    → let s' = (set_input_level s port mask high latch_flag).1 in
      (test_bit (s'.input_level port) i
        ≡ (if test_bit mask i then high else test_bit (s.input_level port) i))
      × (test_bit (s'.flag port) i
          ≡ (test_bit (s.flag port) i || (latch_flag && changes s port mask high i)))
unfolding set_input_level
test_bit-set_input_level s port mask high latch_flag i lt p = ground (
  arith,
  test_bit-zero i,
  level_bit (s.input_level port) mask high i p,
  changed_bit (s.input_level port) mask high i p,
  test_bit-bit_or (s.flag port)
      (bit_xor (s.input_level port) (
        if high
        then bit_or (s.input_level port) mask
        else bit_and (s.input_level port) (not32 mask)))
      i,
)
