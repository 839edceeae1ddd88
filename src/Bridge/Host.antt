-- ===== src/Bridge/Host.antt =====
-- The operations of qemu/overlay/hw/dma/bbk9588_dma_bridge.c, with every device connected: what the
-- DMA controller asks of the bridge, as the machine around that controller.
use bbk9588_emulator.Base.{
  ℕ, zero, suc, ◌*◌, bit_and, Bool, true, false, not, ◌&&◌, ◌||◌, ◌==◌, ltb, min, if◌then◌else◌,
  none, some, List, [], ◌∷◌,
}
use bbk9588_emulator.Msc.State.{Msc, Transfer, begin_dma, finish_dma}
use bbk9588_emulator.Dmac.State.{Env}

-- What the bridge relies on: memory, the clock and the audio controller. A transfer to or from that
-- controller takes and leaves the levels of the request lines.
pub record Outside : Type 1 where
  pub Memory : Type 0
  pub mem_read : Memory → ℕ → ℕ → List ℕ
  pub mem_write : Memory → ℕ → List ℕ → Memory
  pub now : Memory → ℕ
  pub Aic : Type 0
  pub dma_write_tx : Aic → ℕ → List ℕ → ℕ → ℕ × Aic × ℕ
  pub dma_read_rx : Aic → ℕ → ℕ → ℕ → List ℕ × ℕ × Aic × ℕ
  pub notify_tx_dma_boundary : Aic → Aic
  pub underruns : Aic → ℕ
  pub rx_fifo_level : Aic → ℕ
  pub tx_fifo_level : Aic → ℕ

-- the `n` bytes that `g_malloc0` gives
unfoldable pub zeros : ℕ → List ℕ
zeros zero = []
zeros (suc n) = 0 ∷ zeros n

-- What `Bbk9588DMABridgeState` connects, but for the DMA controller and the diagnostics.
pub record Host (o : Outside) : Type 0 where
  pub msc : Msc
  pub aic : o.Aic
  pub memory : o.Memory

module _ (o : Outside) where
  -- the call of `jz4740_msc_finish_dma`
  abbrev pub finish : Host o → Bool → Host o
  finish h ready = record h { msc = finish_dma h.msc ready }

  -- `bridge_msc_dma_transfer` once the controller began the transfer: there is no card, a read gives
  -- zeros and a write only reads memory.
  unfoldable pub run_transfer : Host o → Transfer → Bool × Host o
  run_transfer h t =
      if t.bytes == 0
      then (true, finish h false)
      else if t.sectors == 0 || ltb 128 t.sectors
      then (false, h)
      else (
        true,
        finish
            (if t.read
              then record h {
                memory = o.mem_write h.memory t.dma_phys (zeros (min t.bytes (t.sectors * 512)));
              }
              else h)
            true,
      )

  -- `bridge_msc_dma_transfer`
  unfoldable pub msc_dma_transfer : Host o → ℕ → ℕ → ℕ → ℕ → Bool × Host o
  msc_dma_transfer h channel source target words =
      let (taken, msc) = begin_dma h.msc channel source target words in
      let begun = record h { msc = msc } in
      elim taken [ none ↦ (false, begun) | some t ↦ run_transfer begun t ]

  -- `bridge_dmac_bulk_transfer`
  abbrev pub bulk_transfer : Host o → ℕ → ℕ → ℕ → ℕ → ℕ → ℕ → Bool × Host o
  bulk_transfer h channel request source target count command =
      msc_dma_transfer h channel source target count

  -- `bridge_dmac_address_valid`
  abbrev pub address_valid : Host o → ℕ → ℕ → Bool
  address_valid h request address =
      (request == 24 || request == 25) && bit_and address 0x1fffffff == 0x10020034

  -- `bridge_dmac_write`
  unfoldable pub dmac_write : Host o → ℕ → ℕ → List ℕ → ℕ → ℕ × Host o × ℕ
  dmac_write h levels request buf width =
      if not (request == 24)
      then (0, h, levels)
      else (let (done, aic, left) = o.dma_write_tx h.aic levels buf width in
          (done, record h { aic = aic }, left))

  -- `bridge_dmac_read`; a buffer that nothing is written to keeps what it has, here nothing.
  unfoldable pub dmac_read : Host o → ℕ → ℕ → ℕ → ℕ → List ℕ × ℕ × Host o × ℕ
  dmac_read h levels request bytes width =
      if not (request == 25)
      then ([], 0, h, levels)
      else (let (buf, done, aic, left) = o.dma_read_rx h.aic levels bytes width in
          (buf, done, record h { aic = aic }, left))

  -- `bridge_dmac_complete`
  unfoldable pub dmac_complete : Host o → ℕ → Host o
  dmac_complete h request =
      if request == 24 then record h { aic = o.notify_tx_dma_boundary h.aic } else h

  -- `bridge_dmac_get_diagnostics`
  abbrev pub dmac_get_diagnostics : Host o → ℕ → ℕ × ℕ
  dmac_get_diagnostics h request =
      (o.underruns h.aic, if request == 25 then o.rx_fifo_level h.aic else o.tx_fifo_level h.aic)

  -- `bridge_dmac_peripheral_ops`
  abbrev pub peripheral_ops : Env
  peripheral_ops = record {
    World = Host o;
    mem_read = λ h a n. o.mem_read h.memory a n;
    mem_write = λ h a buf. record h { memory = o.mem_write h.memory a buf };
    now = λ h. o.now h.memory;
    bulk_transfer = some bulk_transfer;
    address_valid = some address_valid;
    dev_write = some dmac_write;
    dev_read = some dmac_read;
    complete = dmac_complete;
    diagnostics = dmac_get_diagnostics;
    trace = λ h event channel offset value. h;
  }
