-- ===== src/Nand/Bus/Windows.antt =====
-- The host's sequences for a page, through the command, address and data windows of
-- qemu/overlay/hw/block/bbk9588_nand.c.
use bbk9588_emulator.Base.{ℕ, ◌/◌, ◌%◌, ◌^◌, ◌<◌, ◌≡◌, refl, bit_and, arith, Bool, true}
use bbk9588_emulator.Bits.{bit_and-ones}
use bbk9588_emulator.Nand.State.{Nand}
use bbk9588_emulator.Nand.Bus.{run_command, run_address, mmio_write}
use bbk9588_emulator.Nand.Bus.Loaded.{send_address, send_bytes, program_steps, read_steps}

-- a byte written to the command window and to the address window
abbrev pub to_command : Nand → ℕ → Bool → Nand
to_command s command ok = mmio_write s 0x08000 command 1 ok

abbrev pub to_address : Nand → ℕ → Nand
to_address s value = mmio_write s 0x10000 value 1 true

-- The five address bytes of a page and a column.
abbrev pub write_address : Nand → ℕ → ℕ → Nand
write_address s page column =
    to_address
      (to_address
        (to_address (to_address (to_address s (column % 256)) (column / 256)) (page % 256))
        (page / 256 % 256))
      (page / 65536)

-- Program the first `n` bytes of a payload into a page from a column on: the commands 0x80 and 0x10.
-- `ok` is the outcome of the write to the backend.
unfoldable pub program_page : Nand → ℕ → ℕ → ℕ → (ℕ → ℕ) → Bool → Nand
program_page s page column n payload ok =
    to_command (send_bytes n 0 payload (write_address (to_command s 0x80 ok) page column)) 0x10 ok

-- Fetch a page from a column on: the commands 0x00 and 0x30.
unfoldable pub read_page : Nand → ℕ → ℕ → Nand
read_page s page column = to_command (write_address (to_command s 0x00 true) page column) 0x30 true

command_window :
    (s : Nand) (command : ℕ) (ok : Bool)
    → to_command s command ok ≡ run_command s (bit_and command 0xff) ok
unfolding mmio_write
command_window s command ok = refl

address_window : (s : Nand) (value : ℕ) → value < 256 → to_address s value ≡ run_address s value
unfolding mmio_write
address_window s value h =
    let byte : bit_and value 0xff ≡ value = omega (arith, bit_and-ones 8 value) in rw byte refl

write_address_lem :
    (s : Nand) (page column : ℕ)
    → page < 2 ^ 24
    → column < 2 ^ 16
    → write_address s page column ≡ send_address s page column
write_address_lem s page column p c =
    rw
      (
        address_window s (column % 256) (omega arith),
        address_window _ (column / 256) (omega arith),
        address_window _ (page % 256) (omega arith),
        address_window _ (page / 256 % 256) (omega arith),
        address_window _ (page / 65536) (omega arith),
      )
      refl

pub program_page-steps :
    (s : Nand) (page column n : ℕ) (payload : ℕ → ℕ) (ok : Bool)
    → page < 2 ^ 24
    → column < 2 ^ 16
    → program_page s page column n payload ok ≡ program_steps s page column n payload ok
unfolding program_page program_steps
program_page-steps s page column n payload ok p c =
    rw
      (
        command_window s 0x80 ok,
        write_address_lem (run_command s 0x80 ok) page column p c,
        command_window _ 0x10 ok,
      )
      refl

pub read_page-steps :
    (s : Nand) (page column : ℕ)
    → page < 2 ^ 24
    → column < 2 ^ 16
    → read_page s page column ≡ read_steps s page column
unfolding read_page read_steps
read_page-steps s page column p c =
    rw
      (
        command_window s 0x00 true,
        write_address_lem (run_command s 0x00 true) page column p c,
        command_window _ 0x30 true,
      )
      refl
