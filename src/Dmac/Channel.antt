-- ===== src/Dmac/Channel.antt =====
-- One channel of qemu/overlay/hw/dma/jz4740_dmac.c: its descriptor, the end of its transfer and its
-- statistics, from dmac_channel_enabled to dmac_port_bytes.
use bbk9588_emulator.Base.{
  ℕ, ◌+◌, ◌-◌, ◌*◌, ◌/◌, ◌%◌, ◌^◌, bit_and, bit_or, Bool, not, ◌&&◌, ◌||◌, ◌==◌, leb, ltb, max,
  if◌then◌else◌,
}
use bbk9588_emulator.Bits.{has, not32}
use bbk9588_emulator.Dmac.State.{
  Env, Dmac, Audio, num_channels, dsa, dta, dtc, drt, dcs, dcm, dda, dmacr, ddb, dcs_ndes,
  dcs_cdoa_mask, dcs_inv, dcs_ar, dcs_tt, dcs_ct, dcs_cte, reg, set_reg, chan, set_chan, sync_irq,
  ram_range_valid, memory_read_le32, memory_write_le32,
}

-- the flags V, VM and LINK of DCM
abbrev pub dcm_v : ℕ
dcm_v = 0x10

abbrev pub dcm_vm : ℕ
dcm_vm = 0x08

abbrev pub dcm_link : ℕ
dcm_link = 0x01

module _ {W : Type 0} where
  -- `dmac_channel_enabled`
  unfoldable pub channel_enabled : Dmac W → ℕ → Bool
  channel_enabled s channel =
      not (leb num_channels channel || not (has (reg s dmacr) 0x01))
      && has (chan s channel dcs) dcs_cte

  -- the request number of a channel
  abbrev pub request_of : Dmac W → ℕ → ℕ
  request_of s channel = bit_and (chan s channel drt) 0x1f

  -- `dmac_audio_request`
  unfoldable pub audio_request : Dmac W → ℕ → Bool
  audio_request s channel =
      not (leb num_channels channel) && (request_of s channel == 24 || request_of s channel == 25)

  -- `dmac_set_terminal_count`
  unfoldable pub set_terminal_count : Dmac W → ℕ → Dmac W
  set_terminal_count s channel =
      if leb num_channels channel
      then s
      else (let emptied = set_chan s channel dtc 0 in
          sync_irq (
            set_chan emptied channel dcs
              (bit_or (bit_and (chan emptied channel dcs) (not32 dcs_cte)) dcs_tt)))

  -- `dmac_set_address_error`
  unfoldable pub set_address_error : Dmac W → ℕ → Dmac W
  set_address_error s channel =
      if leb num_channels channel
      then s
      else (let marked = set_chan s channel dcs (bit_or (chan s channel dcs) dcs_ar) in
          sync_irq (set_reg marked dmacr (bit_or (reg marked dmacr) 0x04)))

  -- `dmac_descriptor_address_valid`
  unfoldable pub descriptor_address_valid : Dmac W → ℕ → Bool
  descriptor_address_valid s desc_addr =
      bit_and desc_addr 0x0f == 0 && ram_range_valid s desc_addr 16

-- `dmac_descriptor_next`
unfoldable pub descriptor_next : ℕ → ℕ → ℕ
descriptor_next desc_addr desc_dtc =
    bit_or (bit_and desc_addr 0xfffff000) (bit_and (desc_dtc / 2 ^ 24) 0xff * 2 ^ 4)

-- `dmac_unit_bytes`
unfoldable pub unit_bytes : ℕ → ℕ
unit_bytes command =
    let size = bit_and command 0x700 / 2 ^ 8 in
    if size == 0
    then 4
    else if size == 1
    then 1
    else if size == 2
    then 2
    else if size == 3
    then 16
    else if size == 4
    then 32
    else 0

-- `dmac_port_bytes`
unfoldable pub port_bytes : ℕ → ℕ → ℕ
port_bytes command shift =
    let width = bit_and (command / 2 ^ shift) 0x03 in
    if width == 0 then 4 else if width == 1 then 1 else if width == 2 then 2 else 0

-- `(uint64_t)MAX(now - then, 0)` of two int64_t in their patterns
abbrev pub gap_since : ℕ → ℕ → ℕ
gap_since now last = let gap = (now + 2 ^ 64 - last) % 2 ^ 64 in if ltb gap (2 ^ 63) then gap else 0

-- The status of a channel whose descriptor is done.
abbrev pub finished_status : ℕ → ℕ → ℕ → ℕ
finished_status status desc_addr command =
    let cdoa = bit_and desc_addr 0xff0 / 2 ^ 4 * 2 ^ 16 in
    let kept = bit_or (bit_and status (not32 (bit_or (bit_or dcs_cdoa_mask dcs_ct) dcs_tt))) cdoa in
    if has command dcm_link
    then bit_or kept dcs_ct
    else bit_or (bit_and kept (not32 dcs_cte)) dcs_tt

module _ (e : Env) where
  -- `dmac_trace`
  abbrev pub trace : Dmac e.World → ℕ → ℕ → ℕ → ℕ → Dmac e.World
  trace s event channel offset value = record s {
    world = e.trace s.world event channel offset value;
  }

  -- `dmac_record_audio_completion`, and in it `dmac_endpoint_diagnostics`
  unfoldable pub record_audio_completion : Dmac e.World → ℕ → Dmac e.World
  record_audio_completion s channel =
      if not (audio_request s channel)
      then s
      else (let (underruns, fifo_level) = e.diagnostics s.world (request_of s channel) in
          record s {
            world = e.complete s.world (request_of s channel);
            audio = record s.audio {
              completion_count = (s.audio.completion_count + 1) % 2 ^ 64;
              last_completion_ns = e.now s.world;
              completion_underruns = underruns;
              completion_fifo = fifo_level;
            };
          })

  -- the statistics after a channel is armed again
  unfoldable pub rearmed : Dmac e.World → ℕ → Audio
  rearmed s channel =
      let gap = gap_since (e.now s.world) s.audio.last_completion_ns in
      let (underruns, fifo_level) = e.diagnostics s.world (request_of s channel) in
      let gap_underruns = (underruns + 2 ^ 64 - s.audio.completion_underruns) % 2 ^ 64 in
      record s.audio {
        rearm_count = (s.audio.rearm_count + 1) % 2 ^ 64;
        last_rearm_gap_ns = gap;
        max_rearm_gap_ns = max s.audio.max_rearm_gap_ns gap;
        total_rearm_gap_ns = (s.audio.total_rearm_gap_ns + gap) % 2 ^ 64;
        last_gap_underruns = gap_underruns;
        total_gap_underruns = (s.audio.total_gap_underruns + gap_underruns) % 2 ^ 64;
        last_units = bit_and (chan s channel dtc) 0xffffff;
        rearm_fifo = fifo_level;
        last_completion_ns = 0;
      }

  -- `dmac_record_audio_rearm`
  unfoldable pub record_audio_rearm : Dmac e.World → ℕ → ℕ → ℕ → Dmac e.World
  record_audio_rearm s channel old_status new_status =
      if has old_status dcs_cte
        || not (has new_status dcs_cte)
        || has new_status dcs_tt
        || not (audio_request s channel)
        || s.audio.last_completion_ns == 0
        || leb (2 ^ 63) s.audio.last_completion_ns
      then s
      else record s { audio = rearmed s channel }

  -- The end of `dmac_fetch_descriptor`, at a valid address: a descriptor that must be valid and is
  -- not stops the channel, any other is loaded into its registers.
  unfoldable pub load_descriptor : Dmac e.World → ℕ → ℕ → ℕ → Dmac e.World
  load_descriptor s channel status desc_addr =
      let command = memory_read_le32 e s.world desc_addr in
      let desc_dtc = memory_read_le32 e s.world (desc_addr + 0x0c) in
      if has command dcm_vm && not (has command dcm_v)
      then sync_irq (
          let stopped = set_chan s channel dcs (bit_or (bit_and status (not32 dcs_cte)) dcs_inv) in
          set_chan stopped channel dcm command)
      else (let t = set_chan s channel dcm command in
          let u = set_chan t channel dsa (memory_read_le32 e s.world (desc_addr + 0x04)) in
          let v = set_chan u channel dta (memory_read_le32 e s.world (desc_addr + 0x08)) in
          let w = set_chan v channel dtc (bit_and desc_dtc 0xffffff) in
          trace w 5 channel desc_addr command)

  -- `dmac_fetch_descriptor`
  unfoldable pub fetch_descriptor : Dmac e.World → ℕ → Dmac e.World
  fetch_descriptor s channel =
      let bit = 2 ^ channel in
      let status = chan s channel dcs in
      let desc_addr = bit_and (chan s channel dda) (not32 0x0f) in
      if leb num_channels channel
        || has status dcs_ndes
        || not (has status dcs_cte)
        || not (has (reg s ddb) bit)
      then s
      else (let taken = set_reg s ddb (bit_and (reg s ddb) (not32 bit)) in
          if not (descriptor_address_valid taken desc_addr)
          then set_address_error taken channel
          else load_descriptor taken channel status desc_addr)

  -- The end of `dmac_finish_transfer` in descriptor mode.
  unfoldable pub finish_descriptor : Dmac e.World → ℕ → ℕ → Dmac e.World
  finish_descriptor s channel command =
      let desc_addr = bit_and (chan s channel dda) (not32 0x0f) in
      let desc_dtc = memory_read_le32 e s.world (desc_addr + 0x0c) in
      let emptied = set_chan s channel dtc 0 in
      let used =
        if has command dcm_vm
        then record emptied {
          world = memory_write_le32 e emptied.world desc_addr (bit_and command (not32 dcm_v));
        }
        else emptied in
      let status = finished_status (chan used channel dcs) desc_addr command in
      let linked =
        if has command dcm_link
        then set_chan used channel dda (descriptor_next desc_addr desc_dtc)
        else used in
      sync_irq (set_chan linked channel dcs status)

  -- `dmac_finish_transfer`
  unfoldable pub finish_transfer : Dmac e.World → ℕ → ℕ → Dmac e.World
  finish_transfer s channel command =
      if leb num_channels channel
      then s
      else (let noted = record_audio_completion s channel in
          if has (chan noted channel dcs) dcs_ndes
          then set_terminal_count noted channel
          else finish_descriptor noted channel command)
