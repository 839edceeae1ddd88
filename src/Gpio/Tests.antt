-- ===== src/Gpio/Tests.antt =====
-- A controller without pins, and the theorems on it.
use bbk9588_emulator.Base.{ℕ, ◌^◌, ◌≡◌, refl, arith, true, false, List, [], ◌∷◌}
use bbk9588_emulator.Bits.{test_bit}
use bbk9588_emulator.Gpio.{
  Gpio, read, set_input_level, reset_hold, Op, input, mmio_read, mmio_write, run,
}
use bbk9588_emulator.Gpio.Flags.{IsLatched, run-reset_hold-IsLatched}
use bbk9588_emulator.Gpio.Registers.{read_pins_unaligned}

abbrev quiet : Gpio
quiet = record {
  driven = λ _. false;
  regs = λ _. 0;
  input_level = λ _. 0;
  input_reset = λ _. 0;
  flag = λ _. 0;
  irq_level = λ _. false;
  last_read_offset = 0;
  last_read_value = 0;
  last_flag_offset = 0;
  last_flag_value = 0;
  last_write_offset = 0;
  last_write_value = 0;
  has_trace_callback = true;
  trace = [];
}

-- no sample callback is installed
abbrev stored_value : ℕ → ℕ → ℕ
stored_value port value = value

-- A key on pin 5 of port 1 goes down and up, and the guest clears the flag.
abbrev key_press : List Op
key_press = input 37 true ∷ mmio_read 0x180 4 ∷ mmio_write 0x114 0x20 4 ∷ input 37 false ∷ []

run-reset_hold-IsLatched_example : IsLatched (run stored_value (reset_hold quiet) key_press) 1
run-reset_hold-IsLatched_example =
    run-reset_hold-IsLatched stored_value quiet key_press 1 (omega arith)

read_pins_example :
    let t = (set_input_level quiet 1 (2 ^ 20) true false).1 in
    (test_bit (read (λ p v. v) t 0x100 4).0 20 ≡ true)
    × ((read (λ p v. v) t 0x102 1).0 ≡ (read (λ p v. v) quiet 0x102 1).0)
read_pins_example =
    read_pins_unaligned quiet 1 20 2 true false (omega arith) (omega arith) (omega arith)
      (omega arith) refl
