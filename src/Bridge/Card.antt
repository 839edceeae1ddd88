-- ===== src/Bridge/Card.antt =====
-- A transfer for the card, from the command to the end, through qemu/overlay/hw/sd/jz4740_msc.c and
-- qemu/overlay/hw/dma/bbk9588_dma_bridge.c.
use bbk9588_emulator.Base.{
  ℕ, ◌+◌, ◌-◌, ◌*◌, ◌/◌, ◌%◌, ◌^◌, ◌≤◌, ◌<◌, ◌≡◌, ◌≢◌, refl, arith, bit_and, true, false, ◌||◌,
  ◌==◌, ltb, min,
}
use bbk9588_emulator.Msc.State.{begin_dma, update_irq, finish_dma}
use bbk9588_emulator.Msc.Signal.{IsBounded, IsSound, begin_dma-IsSound, finish_dma-IsSound}
use bbk9588_emulator.Bridge.Host.{
  Outside, Host, zeros, finish, run_transfer, msc_dma_transfer, peripheral_ops,
}
use bbk9588_emulator.Dmac.State.{Dmac, chan, dsa, dta, dcm}
use bbk9588_emulator.Dmac.Transfer.{units_left, try_bulk_transfer}
use bbk9588_emulator.Dmac.Auto.{
  IsReady, not_fetched, finish_without_descriptor, set_terminal_count_lem,
}

module _ (o : Outside) where
  -- A read of the card waits for a transfer of the size that the bridge takes.
  pub record IsWaiting (h : Host o) (words : ℕ) : Type 0 where
    pub bounded : IsBounded h.msc
    pub reading : h.msc.read_pending ≡ true
    pub some_words : words ≢ 0
    pub fits : words ≤ 16384

  -- The transfer is done: memory has the zeros, the request is gone and the data are announced.
  pub record IsRead (h after : Host o) (target words : ℕ) : Type 0 where
    pub memory : after.memory ≡ o.mem_write h.memory (bit_and target 0x1fffffff) (zeros (words * 4))
    pub read : after.msc.read_pending ≡ false
    pub write : after.msc.write_pending ≡ false
    pub ready : after.msc.data_ready ≡ true
    pub counted : after.msc.dma_complete_count ≡ (h.msc.dma_complete_count + 1) % 2 ^ 32

  -- A read of the card, begun by the first channel, gets zeros.
  pub begin_read :
      (h : Host o) (source target words : ℕ)
      → IsWaiting h words
      → msc_dma_transfer o h 0 source target words ≡ (
          let begun = (begin_dma h.msc 0 source target words).1 in
          (
            true,
            finish o
                (record h {
                  msc = begun;
                  memory = o.mem_write h.memory (bit_and target 0x1fffffff) (zeros (words * 4));
                })
                true,
          ))
  unfolding msc_dma_transfer begin_dma run_transfer
  begin_read h source target words w =
      let not_writing : h.msc.write_pending ≡ false = ground (arith, w.bounded.one, w.reading) in
      let bytes : words * 4 % 2 ^ 32 ≡ words * 4 = omega (arith, w.fits) in
      let some_bytes : (words * 4 == 0) ≡ false = ground (arith, w.some_words) in
      let some_sectors : ((words * 4 + 511) % 2 ^ 32 / 512 == 0) ≡ false =
        ground (arith, w.some_words, w.fits) in
      let few_sectors : ltb 128 ((words * 4 + 511) % 2 ^ 32 / 512) ≡ false =
        ground (arith, w.fits) in
      let whole : min (words * 4) ((words * 4 + 511) % 2 ^ 32 / 512 * 512) ≡ words * 4 =
        omega (arith, w.fits) in
      rw (w.reading, not_writing, bytes, some_bytes, some_sectors, few_sectors, whole) refl

  -- The bridge carries out a read that waits.
  pub read_transfer_lem :
      (h : Host o) (source target words : ℕ)
      → IsWaiting h words
      → ((msc_dma_transfer o h 0 source target words).0 ≡ true)
        × IsRead h (msc_dma_transfer o h 0 source target words).1 target words
  unfolding begin_dma finish_dma update_irq
  read_transfer_lem h source target words w =
      let not_writing : h.msc.write_pending ≡ false = ground (arith, w.bounded.one, w.reading) in
      rw (begin_read h source target words w) (
        refl,
        record {
          memory = refl;
          read = refl;
          write = refl;
          ready = refl;
          counted = rw (w.reading, not_writing) refl;
        },
      )

  -- Whatever the DMA controller asks for, the bridge keeps the invariant of the controller.
  pub msc_dma_transfer-IsSound :
      (h : Host o) (channel source target words : ℕ)
      → IsSound h.msc
      → IsSound (msc_dma_transfer o h channel source target words).1.msc
  unfolding msc_dma_transfer run_transfer
  msc_dma_transfer-IsSound h channel source target words s =
      let b = begin_dma-IsSound h.msc channel source target words s in
      let m = (begin_dma h.msc channel source target words).1 in
      ground (arith, b, finish_dma-IsSound m true b.bounded, finish_dma-IsSound m false b.bounded)

  -- A waiting read of the card of more than 128 sectors, and of less than 2 ^ 30 - 127 words, is
  -- refused: memory stands and the read still waits, but the transfer was counted.
  pub refused_lem :
      (h : Host o) (source target words : ℕ)
      → IsBounded h.msc
      → h.msc.read_pending ≡ true
      → 16384 < words
      → words < 2 ^ 30 - 127
      → let after = msc_dma_transfer o h 0 source target words in
        (after.0 ≡ false)
        × (after.1.msc.read_pending ≡ true)
        × (after.1.msc.dma_complete_count ≡ (h.msc.dma_complete_count + 1) % 2 ^ 32)
        × (after.1.memory ≡ h.memory)
  unfolding msc_dma_transfer begin_dma run_transfer
  refused_lem h source target words b reading long short =
      let not_writing : h.msc.write_pending ≡ false = ground (arith, b.one, reading) in
      let some_bytes : (words * 4 % 2 ^ 32 == 0) ≡ false = ground (arith, long, short) in
      let few_sectors : ((words * 4 % 2 ^ 32 + 511) % 2 ^ 32 / 512 == 0
            || ltb 128 ((words * 4 % 2 ^ 32 + 511) % 2 ^ 32 / 512))
          ≡ true =
        ground (arith, long, short) in
      rw (reading, not_writing, some_bytes, few_sectors) (refl, refl, refl, refl)

  -- While a read of the card waits, a first channel that is set up to copy from memory to memory, by a
  -- number of units that fits the card's transfer, does the card's transfer instead: its target holds
  -- the card's zeros, four bytes for each unit, and the read of the card is over.
  pub taken_over :
      (s : Dmac (Host o))
      → IsReady s 0
      → IsWaiting s.world (units_left s 0)
      → ((try_bulk_transfer (peripheral_ops o) s 0).0 ≡ true)
        × IsRead s.world
            (try_bulk_transfer (peripheral_ops o) s 0).1.world
            (chan s 0 dta)
            (units_left s 0)
  unfolding try_bulk_transfer
  taken_over s ready w =
      let e = peripheral_ops o in
      let source = chan s 0 dsa in
      let target = chan s 0 dta in
      let units = units_left s 0 in
      let (accepted, done) = read_transfer_lem s.world source target units w in
      let u : Dmac (Host o) = record s {
        world = (msc_dma_transfer o s.world 0 source target units).1;
      } in
      let some : (units == 0) ≡ false = ground (arith, ready.some_left) in
      let finished =
        finish_without_descriptor e u 0 ready.exists (chan s 0 dcm) (rw (ready.automatic) refl)
          (rw (ready.automatic) refl) ready.no_descriptor in
      rw
        (
          not_fetched e s 0 ready,
          ready.enabled,
          some,
          accepted,
          finished,
          (set_terminal_count_lem e u 0 ready.exists).4,
        )
        (refl, done)
