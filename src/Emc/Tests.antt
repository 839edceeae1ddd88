-- ===== src/Emc/Tests.antt =====
-- A controller with a toy codec: the last two bytes of a block are written, and other sessions.
use bbk9588_emulator.Base.{◌+◌, ◌%◌, refl, false, some, List, [], ◌∷◌}
use bbk9588_emulator.Emc.State.{Codec, Emc}
use bbk9588_emulator.Emc.Registers.{Op, mmio_read, mmio_write, data_access, load, run, reset_hold}
use bbk9588_emulator.Emc.Line.{IsCurrent, run-reset_hold-IsCurrent}
use bbk9588_emulator.Emc.Block.{IsEncoding, feed, IsEncoded, feed-IsEncoded}

abbrev codec : Codec
codec = record {
  hamming_encode = λ block length. (block 0 + length) % 0x1000000;
  rs_encode = λ block i. (block i + block 511) % 256;
  rs_decode = λ block parity. (some 1, λ i. (7, 3));
}

abbrev encoder : Emc
encoder = record {
  output = [];
  board_writes = [];
  regs = λ i. 0x0d;
  last_read_offset = 0;
  last_read_value = 0;
  last_write_offset = 0;
  last_write_value = 0;
  ecc_data = λ i. i % 256;
  ecc_data_count = 510;
  irq_level = false;
}

encoder-IsEncoding : IsEncoding encoder
encoder-IsEncoding = record { enabled = refl; symbols = refl; encoder = refl }

feed-IsEncoded_example :
    IsEncoded codec encoder (feed codec encoder (0x12 ∷ 0x134 ∷ [])) (0x12 ∷ 0x134 ∷ [])
feed-IsEncoded_example = feed-IsEncoded codec encoder 0x12 (0x134 ∷ []) encoder-IsEncoding refl

-- The interrupts are enabled, a decoding is set up, two bytes are read from the NAND device, it is
-- started, and its status is read and acknowledged.
abbrev session : List Op
session =
    mmio_write 0x118 0x17 4
    ∷ mmio_write 0x100 0x07 4
    ∷ data_access 0xabcd 2 false
    ∷ mmio_write 0x100 0x15 4
    ∷ mmio_read 0x114 4
    ∷ load (record encoder { ecc_data_count = 600 })
    ∷ mmio_write 0x114 0 1
    ∷ []

run-reset_hold-IsCurrent_example : IsCurrent (run codec (reset_hold encoder) session)
run-reset_hold-IsCurrent_example = run-reset_hold-IsCurrent codec encoder session
