-- ===== src/Dmac/Transfer.antt =====
-- The transfers of qemu/overlay/hw/dma/jz4740_dmac.c: from dmac_try_bulk_transfer to
-- jz4740_dmac_set_request.
use bbk9588_emulator.Base.{
  ℕ, zero, suc, ◌+◌, ◌-◌, ◌*◌, ◌%◌, ◌^◌, bit_and, bit_or, Bool, true, false, not, ◌&&◌, ◌||◌, ◌==◌,
  leb, ltb, min, if◌then◌else◌, Option, none, some,
}
use bbk9588_emulator.Bits.{has, not32}
use bbk9588_emulator.Dmac.State.{
  Env, Dmac, num_channels, num_requests, dsa, dta, dtc, dcm, ddb, reg, set_reg, chan, set_chan,
  sync_irq, ram_range_valid, memory_read, memory_write,
}
use bbk9588_emulator.Dmac.Channel.{
  channel_enabled, request_of, set_address_error, unit_bytes, port_bytes, trace, fetch_descriptor,
  finish_transfer,
}

-- the flags SAI, DAI and TM of DCM
abbrev pub dcm_sai : ℕ
dcm_sai = 0x800000

abbrev pub dcm_dai : ℕ
dcm_dai = 0x400000

abbrev pub dcm_tm : ℕ
dcm_tm = 0x80

-- the number of units that a channel has left
abbrev pub units_left : {W : Type 0} → Dmac W → ℕ → ℕ
units_left s channel = bit_and (chan s channel dtc) 0xffffff

module _ (e : Env) where
  -- `dmac_try_bulk_transfer`
  unfoldable pub try_bulk_transfer : Dmac e.World → ℕ → Bool × Dmac e.World
  try_bulk_transfer s channel = elim (e.bulk_transfer) [
    | none ↦ (false, s)
    | some bulk ↦
        if leb num_channels channel
        then (false, s)
        else (let t = fetch_descriptor e s channel in
            if not (channel_enabled t channel) || units_left t channel == 0
            then (false, t)
            else (let command = chan t channel dcm in
                let (handled, world) =
                  bulk t.world channel (request_of t channel) (chan t channel dsa)
                    (chan t channel dta) (units_left t channel) command in
                let u = record t { world = world } in
                (handled, if handled then finish_transfer e u channel command else u)))
  ]

  -- The loop of `dmac_try_auto_transfer` in chunks of 4096 bytes: how far it came, and the memory.
  unfoldable pub copy_chunks : ℕ → e.World → ℕ → ℕ → ℕ → ℕ → ℕ × e.World
  copy_chunks zero w source target bytes done = (done, w)
  copy_chunks (suc fuel) w source target bytes done = elim (ltb done bytes) [
    | true ↦
        let n = min 4096 (bytes - done) in
        copy_chunks fuel
          (memory_write e w ((target + done) % 2 ^ 32)
            (memory_read e w ((source + done) % 2 ^ 32) n))
          source target bytes (done + n)
    | false ↦ (done, w)
  ]

  -- The loop of `dmac_try_auto_transfer` by units: a fixed address takes or gives every unit.
  unfoldable pub copy_units : ℕ → e.World → Bool → Bool → ℕ → ℕ → ℕ → ℕ → ℕ → ℕ × e.World
  copy_units zero w sai dai source target unit bytes done = (done, w)
  copy_units (suc fuel) w sai dai source target unit bytes done = elim (ltb done bytes) [
    | true ↦
        copy_units fuel
          (memory_write e w ((target + (if dai then done else 0)) % 2 ^ 32)
            (memory_read e w ((source + (if sai then done else 0)) % 2 ^ 32) unit))
          sai dai source target unit bytes (done + unit)
    | false ↦ (done, w)
  ]

  -- both loops, as the flags choose
  unfoldable pub copy_auto : e.World → ℕ → ℕ → ℕ → ℕ → ℕ → e.World
  copy_auto w command source target unit bytes =
      if bit_and command (bit_or dcm_sai dcm_dai) == bit_or dcm_sai dcm_dai
      then (copy_chunks bytes w source target bytes 0).1
      else (copy_units bytes w (has command dcm_sai) (has command dcm_dai) source target unit bytes
          0).1

  -- The end of `dmac_try_auto_transfer`, when the ranges are in memory.
  unfoldable pub run_auto : Dmac e.World → ℕ → ℕ → ℕ → ℕ → Dmac e.World
  run_auto s channel command unit bytes =
      let source = chan s channel dsa in
      let target = chan s channel dta in
      let copied = record s { world = copy_auto s.world command source target unit bytes } in
      let from_next =
        if has command dcm_sai
        then set_chan copied channel dsa ((source + bytes) % 2 ^ 32)
        else copied in
      let to_next =
        if has command dcm_dai
        then set_chan from_next channel dta ((target + bytes) % 2 ^ 32)
        else from_next in
      let taken = set_reg to_next ddb (bit_and (reg to_next ddb) (not32 (2 ^ channel))) in
      trace e (finish_transfer e taken channel command) 4 channel (channel * 0x20) bytes

  -- `dmac_try_auto_transfer` once the descriptor is fetched
  unfoldable pub start_auto : Dmac e.World → ℕ → Dmac e.World
  start_auto s channel =
      let count = units_left s channel in
      let command = chan s channel dcm in
      let unit = unit_bytes command in
      let bytes = count * unit in
      if not (channel_enabled s channel) || not (request_of s channel == 8) || count == 0
      then s
      else if unit == 0 || bytes == 0 || ltb (2 ^ 32 - 1) bytes
      then set_address_error s channel
      else if not (ram_range_valid s (chan s channel dsa) bytes)
          || not (ram_range_valid s (chan s channel dta) bytes)
      then set_address_error s channel
      else run_auto s channel command unit bytes

  -- `dmac_try_auto_transfer`
  unfoldable pub try_auto_transfer : Dmac e.World → ℕ → Dmac e.World
  try_auto_transfer s channel =
      if leb num_channels channel || not (channel_enabled s channel)
      then s
      else start_auto (fetch_descriptor e s channel) channel

  -- The variables of the loop of `dmac_try_audio_transfer`, and whether it left by an address error.
  pub record Progress : Type 0 where
    pub state : Dmac e.World
    pub count : ℕ
    pub source : ℕ
    pub target : ℕ
    pub transferred : ℕ
    pub failed : Bool

  -- One unit to the device: `none` is an address error, otherwise the bytes that it took.
  unfoldable pub send_unit : Dmac e.World → ℕ → ℕ → ℕ → ℕ → Option (ℕ × Dmac e.World)
  send_unit s request source unit width = elim (e.dev_write) [
    | none ↦ none
    | some write ↦
        if not (ram_range_valid s source unit)
        then none
        else (let (done, world, levels) =
              write s.world s.request_levels request (memory_read e s.world source unit) width in
            some (done, record s { world = world; request_levels = levels }))
  ]

  -- One unit from the device: memory gets it only whole.
  unfoldable pub receive_unit : Dmac e.World → ℕ → ℕ → ℕ → ℕ → Option (ℕ × Dmac e.World)
  receive_unit s request target unit width = elim (e.dev_read) [
    | none ↦ none
    | some read ↦
        if not (ram_range_valid s target unit)
        then none
        else (let (buf, done, world, levels) = read s.world s.request_levels request unit width in
            some (
              done,
              record s {
                world = if done == unit then memory_write e world target buf else world;
                request_levels = levels;
              },
            ))
  ]

  -- one round of the loop of `dmac_try_audio_transfer`
  unfoldable pub move_unit : Dmac e.World → ℕ → ℕ → ℕ → Bool → ℕ → ℕ → Option (ℕ × Dmac e.World)
  move_unit s request unit width transmit source target =
      if transmit
      then send_unit s request source unit width
      else receive_unit s request target unit width

  -- The loop of `dmac_try_audio_transfer`. It ends since every round that goes on takes one unit.
  unfoldable pub audio_loop : Dmac e.World → ℕ → ℕ → ℕ → ℕ → Bool → ℕ → ℕ → ℕ → ℕ → Progress
  audio_loop s request command unit width transmit zero source target transferred = record {
    state = s;
    count = 0;
    source = source;
    target = target;
    transferred = transferred;
    failed = false;
  }
  audio_loop s request command unit width transmit (suc count) source target transferred =
      let stop = λ (t : Dmac e.World) (failed : Bool).
        (let p : Progress = record {
          state = t;
          count = suc count;
          source = source;
          target = target;
          transferred = transferred;
          failed = failed;
        } in
          p) in
      if not (has s.request_levels (2 ^ request)) && not (has command dcm_tm)
      then stop s false
      else elim (move_unit s request unit width transmit source target) [
        | none ↦ stop s true
        | some (done, t) ↦ elim (done == unit) [
          | true ↦
              audio_loop t request command unit width transmit count
                (if has command dcm_sai then (source + unit) % 2 ^ 32 else source)
                (if has command dcm_dai then (target + unit) % 2 ^ 32 else target)
                ((transferred + unit) % 2 ^ 32)
          | false ↦ stop t false
        ]
      ]

  -- The end of `dmac_try_audio_transfer`.
  unfoldable pub end_audio : Progress → ℕ → ℕ → Dmac e.World
  end_audio p channel command =
      let base = channel * 0x20 in
      let counted = set_chan p.state channel dtc p.count in
      let from_next = set_chan counted channel dsa p.source in
      let to_next = set_chan from_next channel dta p.target in
      sync_irq (
        if p.count == 0
        then trace e (finish_transfer e to_next channel command) 3 channel base p.transferred
        else if not (p.transferred == 0)
        then trace e to_next 6 channel base p.transferred
        else to_next)

  -- the test of `address_valid`, which an absent callback fails
  abbrev pub address_accepted : Dmac e.World → ℕ → ℕ → Bool
  address_accepted s request address = elim (e.address_valid) [
    | none ↦ false
    | some valid ↦ valid s.world request address
  ]

  -- `dmac_try_audio_transfer` once the descriptor is fetched
  unfoldable pub start_audio : Dmac e.World → ℕ → Dmac e.World
  start_audio s channel =
      let count = units_left s channel in
      let request = request_of s channel in
      let transmit = request == 24 in
      let command = chan s channel dcm in
      let unit = unit_bytes command in
      let width = port_bytes command (if transmit then 12 else 14) in
      let source = chan s channel dsa in
      let target = chan s channel dta in
      if not (channel_enabled s channel)
        || count == 0
        || not (request == 24 || request == 25)
        || not (has s.request_levels (2 ^ request))
      then s
      else if unit == 0 || width == 0 || not (unit % width == 0)
      then set_address_error s channel
      else if not (address_accepted s request (if transmit then target else source))
      then set_address_error s channel
      else (let p = audio_loop s request command unit width transmit count source target 0 in
          if p.failed then set_address_error p.state channel else end_audio p channel command)

  -- `dmac_try_audio_transfer`
  unfoldable pub try_audio_transfer : Dmac e.World → ℕ → Dmac e.World
  try_audio_transfer s channel =
      if leb num_channels channel || not (channel_enabled s channel)
      then s
      else start_audio (fetch_descriptor e s channel) channel

  -- `dmac_try_channel`
  unfoldable pub try_channel : Dmac e.World → Bool → ℕ → Dmac e.World
  try_channel s include_bulk channel =
      let (handled, t) = if include_bulk then try_bulk_transfer s channel else (false, s) in
      if handled then t else try_audio_transfer (try_auto_transfer t channel) channel

  -- the loop over the first channels
  unfoldable pub try_below : Bool → ℕ → Dmac e.World → Dmac e.World
  try_below include_bulk zero s = s
  try_below include_bulk (suc channel) s =
      try_channel (try_below include_bulk channel s) include_bulk channel

  -- `jz4740_dmac_kick`
  unfoldable pub kick : Dmac e.World → Dmac e.World
  kick s =
      if s.transferring
      then s
      else (let t = try_below true num_channels (record s { transferring = true }) in
          sync_irq (record t { transferring = false }))

  -- `jz4740_dmac_set_request`
  unfoldable pub set_request : Dmac e.World → ℕ → Bool → Dmac e.World
  set_request s request level =
      if leb num_requests request
      then s
      else if level
      then kick (record s { request_levels = bit_or s.request_levels (2 ^ request) })
      else record s { request_levels = bit_and s.request_levels (not32 (2 ^ request)) }
