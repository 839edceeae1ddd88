-- ===== src/Ecc/Tests.antt =====
-- A block of one byte pattern, and the theorems on it.
use bbk9588_emulator.Base.{ℕ, ◌+◌, ◌*◌, ◌%◌, ◌^◌, ◌-◌, ◌≡◌, arith, ◌&&◌, ◌==◌, ◌!=◌, ltb}
use bbk9588_emulator.Bits.{test_bit}
use bbk9588_emulator.Ecc.{data_symbol, apply_correction}
use bbk9588_emulator.Ecc.Symbols.{IsBytes}
use bbk9588_emulator.Ecc.Correct.{data_symbol-apply_correction}

abbrev symbols : ℕ → ℕ
symbols i = 511 - i

abbrev pattern : ℕ → ℕ
pattern i = i % 2 ^ 8

pattern-IsBytes : IsBytes pattern
pattern-IsBytes i = omega arith

correction_example :
    test_bit (data_symbol (apply_correction pattern (record { index = 10; mask = 0x1f0 })) 9) 4
    ≡ (test_bit (data_symbol pattern 9) 4 != (9 == 9 && ltb (9 * 9 + 4) 4096 && test_bit 0x1f0 4))
correction_example =
    data_symbol-apply_correction pattern 9 0x1f0 9 4 pattern-IsBytes (omega arith) (omega arith)
