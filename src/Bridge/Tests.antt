-- ===== src/Bridge/Tests.antt =====
-- A machine without audio: a read of the card, a read that is too long, and a copy in memory that
-- gets in its way.
use bbk9588_emulator.Base.{
  ℕ, ◌+◌, ◌-◌, ◌%◌, ◌≡◌, refl, arith, true, false, ◌&&◌, ltb, leb, ◌==◌, inl, if◌then◌else◌, List,
  [], ◌∷◌,
}
use bbk9588_emulator.Dmac.State.{Dmac, Audio}
use bbk9588_emulator.Dmac.Channel.{channel_enabled, unit_bytes}
use bbk9588_emulator.Dmac.Transfer.{try_bulk_transfer}
use bbk9588_emulator.Dmac.Memory.{bytes_at, nth, length}
use bbk9588_emulator.Dmac.Auto.{IsReady}
use bbk9588_emulator.Msc.State.{Msc, interrupt_status}
use bbk9588_emulator.Msc.Registers.{Op, mmio_read, mmio_write, finish, load, run, reset_hold}
use bbk9588_emulator.Msc.Signal.{IsBounded, IsSound, run-reset_hold-IsSound}
use bbk9588_emulator.Bridge.Host.{Outside, Host, msc_dma_transfer, peripheral_ops}
use bbk9588_emulator.Bridge.Card.{
  IsWaiting, IsRead, msc_dma_transfer-IsSound, refused_lem, taken_over,
}
use bbk9588_emulator.Bridge.Command.{started, read_command_lem}

abbrev outside : Outside
outside = record {
  Memory = ℕ → ℕ;
  mem_read = λ w a n. bytes_at w a n;
  mem_write = λ w a buf i. if leb a i && ltb i (a + length buf) then nth buf (i - a) else w i;
  now = λ w. 1;
  Aic = ℕ;
  dma_write_tx = λ a levels buf width. (length buf, a, levels);
  dma_read_rx = λ a levels bytes width. ([], 0, a, levels);
  notify_tx_dma_boundary = λ a. a;
  underruns = λ a. 0;
  rx_fifo_level = λ a. 0;
  tx_fifo_level = λ a. 0;
}

-- A block of the card is being read.
abbrev card : Msc
card = record {
  output = [];
  commands = [];
  regs = λ i. if i == 11 then 0x11 else if i == 12 then 0x600 else 0;
  response = λ i. 0;
  response_len = 0;
  response_index = 0;
  read_pending = true;
  write_pending = false;
  data_ready = false;
  irq_level = false;
  read_lba = 0;
  write_lba = 0;
  last_command = 0;
  last_argument = 0;
  last_dma_phys = 0;
  last_dma_words = 0;
  dma_complete_count = 0;
}

card-IsBounded : IsBounded card
card-IsBounded = record {
  line = record { alternates = tt; last = refl };
  len = omega arith;
  index = omega arith;
  one = refl;
}

card-IsSound : IsSound card
unfolding interrupt_status
card-IsSound = record { bounded = card-IsBounded; level = refl }

abbrev host : Host outside
host = record { msc = card; aic = 0; memory = λ i. i % 256 }

read_command_lem_example :
    let asked : Host outside = record host { msc = started card 6 } in
    let after = msc_dma_transfer outside asked 0 0x10021038 0x80001000 128 in
    (after.0 ≡ true) × IsRead outside asked after.1 0x80001000 128 × (asked.msc.read_lba ≡ 3)
read_command_lem_example =
    read_command_lem outside host 6 0x10021038 0x80001000 128 card-IsSound refl (inl refl)
      (omega arith) (omega arith)

refused_lem_example :
    let after = msc_dma_transfer outside host 0 0x10021038 0x80001000 16385 in
    (after.0 ≡ false)
    × (after.1.msc.read_pending ≡ true)
    × (after.1.msc.dma_complete_count ≡ 1)
    × (after.1.memory ≡ (λ i. i % 256))
refused_lem_example =
    refused_lem outside host 0x10021038 0x80001000 16385 card-IsBounded refl (omega arith)
      (omega arith)

-- The data-ready interrupts are enabled, a block is asked for, its data come, two bytes of the
-- response are read, and the event is acknowledged.
abbrev session : List Op
session =
    mmio_write 0x24 0xfc 1
    ∷ mmio_write 0x30 0x600 4
    ∷ mmio_write 0x2c 0x11 4
    ∷ mmio_write 0x00 0x06 4
    ∷ finish true
    ∷ mmio_read 0x34 2
    ∷ load (record card { response_len = 99; response_index = 40; write_pending = true })
    ∷ mmio_write 0x28 0x01 4
    ∷ []

-- The DMA controller that is kicked asks at once for what the command reads.
abbrev kick : Msc → Msc
kick s = (msc_dma_transfer outside (record host { msc = s }) 0 0x10021038 0x80001000 128).1.msc

run-reset_hold-IsSound_example : IsSound (run kick (reset_hold card) session)
run-reset_hold-IsSound_example =
    run-reset_hold-IsSound kick
      (λ s h.
        msc_dma_transfer-IsSound outside (record host { msc = s }) 0 0x10021038 0x80001000 128 h)
      card session

abbrev no_audio : Audio
no_audio = record {
  completion_count = 0;
  rearm_count = 0;
  last_completion_ns = 0;
  completion_underruns = 0;
  last_rearm_gap_ns = 0;
  max_rearm_gap_ns = 0;
  total_rearm_gap_ns = 0;
  last_gap_underruns = 0;
  total_gap_underruns = 0;
  last_units = 0;
  completion_fifo = 0;
  rearm_fifo = 0;
}

-- Channel 0 is to move three words from 0x100 to 0x200.
abbrev registers : ℕ → ℕ
registers i =
    if i == 0
    then 0x100
    else if i == 1
    then 0x200
    else if i == 2
    then 3
    else if i == 3
    then 8
    else if i == 4
    then 0x80000001
    else if i == 5
    then 0xc00000
    else if i == 192
    then 1
    else 0

abbrev controller : Dmac (Host outside)
controller = record {
  world = host;
  output = [];
  regs = registers;
  request_levels = 0;
  ram_size = 0x10000;
  irq_level = false;
  transferring = false;
  audio = no_audio;
}

copying : IsReady controller 0
unfolding channel_enabled unit_bytes
copying = record {
  exists = omega arith;
  enabled = refl;
  no_descriptor = refl;
  automatic = refl;
  some_left = omega arith;
  known_unit = omega arith;
  fits = omega arith;
}

waiting : IsWaiting outside host 3
waiting = record {
  bounded = card-IsBounded;
  reading = refl;
  some_words = omega arith;
  fits = omega arith;
}

taken_over_example :
    let tried = try_bulk_transfer (peripheral_ops outside) controller 0 in
    (tried.0 ≡ true) × IsRead outside host tried.1.world 0x200 3
taken_over_example = taken_over outside controller copying waiting
