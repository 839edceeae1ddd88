-- ===== src/Dmac/Auto.antt =====
-- A whole transfer of dmac_try_auto_transfer in qemu/overlay/hw/dma/jz4740_dmac.c without descriptors.
use bbk9588_emulator.Base.{
  ℕ, ◌+◌, ◌-◌, ◌*◌, ◌/◌, ◌%◌, ◌^◌, ◌<◌, ◌≡◌, ◌≢◌, refl, ◌∙◌, ap, arith, true, false, not, ◌||◌,
  ◌==◌, ltb, leb, if◌then◌else◌, bit_and, bit_or,
}
use native.Mathlib.Nat.{mul-pos}
use bbk9588_emulator.Bits.{has, not32}
use bbk9588_emulator.Dmac.State.{
  Env, Dmac, num_channels, dsa, dta, dtc, drt, dcs, dcm, ddb, dcs_ndes, dcs_cte, dcs_tt, reg,
  set_reg, chan, set_chan, sync_irq, sync_regs, ram_range_valid,
}
use bbk9588_emulator.Dmac.Channel.{
  channel_enabled, request_of, audio_request, set_terminal_count, set_address_error, unit_bytes,
  trace, record_audio_completion, fetch_descriptor, finish_transfer,
}
use bbk9588_emulator.Dmac.Transfer.{
  dcm_sai, dcm_dai, units_left, copy_auto, run_auto, start_auto, try_auto_transfer,
}

module _ {W : Type 0} where
  -- Following the status moves no register but DIRQP and DMACR, and nothing outside.
  pub sync_irq-regs : (s : Dmac W) (i : ℕ) → i ≢ 0xc0 → i ≢ 0xc1 → (sync_irq s).regs i ≡ s.regs i
  unfolding sync_irq sync_regs
  sync_irq-regs s i h k = ground arith

  pub sync_irq-world : (s : Dmac W) → (sync_irq s).world ≡ s.world
  unfolding sync_irq sync_regs
  sync_irq-world s = refl

pos : (n : ℕ) → n ≢ 0 → 0 < n
pos n h = omega arith

module _ (e : Env) (s : Dmac e.World) (channel : ℕ) (exists : channel < num_channels) where
  in_reach : leb num_channels channel ≡ false
  in_reach = ground arith

  -- Without descriptors, and for a device other than audio, a transfer ends with the terminal count.
  pub finish_without_descriptor :
      (command : ℕ)
      → (request_of s channel == 24) ≡ false
      → (request_of s channel == 25) ≡ false
      → has (chan s channel dcs) dcs_ndes ≡ true
      → finish_transfer e s channel command ≡ set_terminal_count s channel
  unfolding finish_transfer record_audio_completion audio_request
  finish_without_descriptor command a b h = rw (in_reach, a, b) (rw h refl)

  -- The terminal count empties the channel, stops it and says so.
  pub set_terminal_count_lem :
      (chan (set_terminal_count s channel) channel dtc ≡ 0)
      × (chan (set_terminal_count s channel) channel dcs
          ≡ bit_or (bit_and (chan s channel dcs) (not32 dcs_cte)) dcs_tt)
      × (chan (set_terminal_count s channel) channel dsa ≡ chan s channel dsa)
      × (chan (set_terminal_count s channel) channel dta ≡ chan s channel dta)
      × ((set_terminal_count s channel).world ≡ s.world)
  unfolding set_terminal_count
  set_terminal_count_lem =
      let emptied = set_chan s channel dtc 0 in
      let t =
        set_chan emptied channel dcs
          (bit_or (bit_and (chan emptied channel dcs) (not32 dcs_cte)) dcs_tt) in
      ground (
        arith,
        sync_irq-regs t ((channel * 0x20 + dtc) / 4),
        sync_irq-regs t ((channel * 0x20 + dcs) / 4),
        sync_irq-regs t ((channel * 0x20 + dsa) / 4),
        sync_irq-regs t ((channel * 0x20 + dta) / 4),
        sync_irq-world t,
      )

-- A channel that is set up for a transfer from memory to memory without descriptors.
pub record IsReady {W : Type 0} (s : Dmac W) (channel : ℕ) : Type 0 where
  pub exists : channel < num_channels
  pub enabled : channel_enabled s channel ≡ true
  pub no_descriptor : has (chan s channel dcs) dcs_ndes ≡ true
  pub automatic : request_of s channel ≡ 8
  pub some_left : units_left s channel ≢ 0
  pub known_unit : unit_bytes (chan s channel dcm) ≢ 0
  pub fits : units_left s channel * unit_bytes (chan s channel dcm) < 2 ^ 32

-- the number of bytes to transfer
abbrev pub bytes_left : {W : Type 0} → Dmac W → ℕ → ℕ
bytes_left s channel = units_left s channel * unit_bytes (chan s channel dcm)

module _ (e : Env) (s : Dmac e.World) (channel : ℕ) (ready : IsReady s channel) where
  pub not_fetched : fetch_descriptor e s channel ≡ s
  unfolding fetch_descriptor
  not_fetched =
      let is_one : leb num_channels channel ≡ false = ground (arith, ready.exists) in
      rw (is_one, ready.no_descriptor) refl

  -- Only the ranges are left to be tested.
  pub starts : try_auto_transfer e s channel ≡ (
      if not (ram_range_valid s (chan s channel dsa) (bytes_left s channel))
        || not (ram_range_valid s (chan s channel dta) (bytes_left s channel))
      then set_address_error s channel
      else run_auto e s channel
          (chan s channel dcm)
          (unit_bytes (chan s channel dcm))
          (bytes_left s channel))
  unfolding try_auto_transfer start_auto
  starts =
      let auto : (request_of s channel == 8) ≡ true = ground (arith, ready.automatic) in
      let some : (units_left s channel == 0) ≡ false = ground (arith, ready.some_left) in
      let unit : (unit_bytes (chan s channel dcm) == 0) ≡ false =
        ground (arith, ready.known_unit) in
      let bytes : (bytes_left s channel == 0) ≡ false = ground (
        arith,
        mul-pos (pos (units_left s channel) ready.some_left)
            (pos (unit_bytes (chan s channel dcm)) ready.known_unit),
      ) in
      let fits : ltb (2 ^ 32 - 1) (bytes_left s channel) ≡ false = ground (arith, ready.fits) in
      rw
        (
          in_reach e s channel ready.exists,
          ready.enabled,
          not_fetched,
          ready.enabled,
          auto,
          some,
          unit,
          bytes,
          fits,
        )
        refl

  module _ (from : ram_range_valid s (chan s channel dsa) (bytes_left s channel) ≡ true)
      (to : ram_range_valid s (chan s channel dta) (bytes_left s channel) ≡ true) where
    runs :
        try_auto_transfer e s channel
        ≡ run_auto e s channel
            (chan s channel dcm)
            (unit_bytes (chan s channel dcm))
            (bytes_left s channel)
    runs = starts ∙ rw (from, to) refl

    -- the registers when the copy is done, before the end of the transfer
    taken : Dmac e.World
    taken =
        let command = chan s channel dcm in
        let bytes = bytes_left s channel in
        let source = chan s channel dsa in
        let target = chan s channel dta in
        let t = record s {
          world = copy_auto e s.world command source target (unit_bytes command) bytes;
        } in
        let u =
          if has command dcm_sai then set_chan t channel dsa ((source + bytes) % 2 ^ 32) else t in
        let v =
          if has command dcm_dai then set_chan u channel dta ((target + bytes) % 2 ^ 32) else u in
        set_reg v ddb (bit_and (reg v ddb) (not32 (2 ^ channel)))

    taken_regs :
        (chan taken channel dcs ≡ chan s channel dcs)
        × (chan taken channel drt ≡ chan s channel drt)
        × (chan taken channel dsa ≡ (
            if has (chan s channel dcm) dcm_sai
            then (chan s channel dsa + bytes_left s channel) % 2 ^ 32
            else chan s channel dsa))
        × (chan taken channel dta ≡ (
            if has (chan s channel dcm) dcm_dai
            then (chan s channel dta + bytes_left s channel) % 2 ^ 32
            else chan s channel dta))
    unfolding taken
    taken_regs = ground (arith, ready.exists)

    taken_world :
        taken.world
        ≡ copy_auto e s.world
            (chan s channel dcm)
            (chan s channel dsa)
            (chan s channel dta)
            (unit_bytes (chan s channel dcm))
            (bytes_left s channel)
    unfolding taken
    taken_world = ground arith

    finishes :
        finish_transfer e taken channel (chan s channel dcm) ≡ set_terminal_count taken channel
    finishes =
        let request : request_of taken channel ≡ 8 =
          ap (λ (t : ℕ). bit_and t 0x1f) (taken_regs.1) ∙ ready.automatic in
        finish_without_descriptor e taken channel ready.exists (chan s channel dcm)
          (rw request refl) (rw request refl) (rw (taken_regs.0) ready.no_descriptor)

    after : Dmac e.World
    after = try_auto_transfer e s channel

    ends :
        after
        ≡ trace e
            (set_terminal_count taken channel)
            4
            channel
            (channel * 0x20)
            (bytes_left s channel)
    unfolding after run_auto taken
    ends =
        runs
        ∙ ap (λ (t : Dmac e.World). trace e t 4 channel (channel * 0x20) (bytes_left s channel))
            finishes

-- A channel after its transfer: it is empty and stopped with the terminal count, a running address
-- has moved on by the bytes that were transferred, and a fixed one stands.
pub record IsDone {W : Type 0} (s t : Dmac W) (channel : ℕ) : Type 0 where
  pub emptied : chan t channel dtc ≡ 0
  pub stopped : chan t channel dcs ≡ bit_or (bit_and (chan s channel dcs) (not32 dcs_cte)) dcs_tt
  pub source : chan t channel dsa ≡ (
      if has (chan s channel dcm) dcm_sai
      then (chan s channel dsa + bytes_left s channel) % 2 ^ 32
      else chan s channel dsa)
  pub target : chan t channel dta ≡ (
      if has (chan s channel dcm) dcm_dai
      then (chan s channel dta + bytes_left s channel) % 2 ^ 32
      else chan s channel dta)

module _ (e : Env) (s : Dmac e.World) (channel : ℕ) (ready : IsReady s channel)
    (from : ram_range_valid s (chan s channel dsa) (bytes_left s channel) ≡ true)
    (to : ram_range_valid s (chan s channel dta) (bytes_left s channel) ≡ true) where
  -- The registers after a transfer of a ready channel whose ranges lie in memory.
  pub try_auto_transfer-IsDone : IsDone s (try_auto_transfer e s channel) channel
  unfolding after taken
  try_auto_transfer-IsDone =
      let t = taken e s channel ready from to in
      let regs = taken_regs e s channel ready from to in
      let count = set_terminal_count_lem e t channel ready.exists in
      rw (ends e s channel ready from to) record {
        emptied = count.0;
        stopped = count.1 ∙ rw (regs.0) refl;
        source = count.2 ∙ regs.2;
        target = count.3 ∙ regs.3;
      }

  -- the memory that it leaves
  pub try_auto_transfer-world :
      (try_auto_transfer e s channel).world
      ≡ e.trace
          (copy_auto e s.world
            (chan s channel dcm)
            (chan s channel dsa)
            (chan s channel dta)
            (unit_bytes (chan s channel dcm))
            (bytes_left s channel))
          4
          channel
          (channel * 0x20)
          (bytes_left s channel)
  unfolding after taken
  try_auto_transfer-world =
      let t = taken e s channel ready from to in
      let count = set_terminal_count_lem e t channel ready.exists in
      rw (ends e s channel ready from to) (
        ap (λ (w : e.World). e.trace w 4 channel (channel * 0x20) (bytes_left s channel))
          (count.4 ∙ taken_world e s channel ready from to))
