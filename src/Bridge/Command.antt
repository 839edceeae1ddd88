-- ===== src/Bridge/Command.antt =====
-- A read of the card from the command to the data: the start in qemu/overlay/hw/sd/jz4740_msc.c, then
-- the transfer in qemu/overlay/hw/dma/bbk9588_dma_bridge.c.
use bbk9588_emulator.Base.{ℕ, ◌/◌, ◌^◌, ◌≤◌, ◌≡◌, ◌≢◌, ◌⊎◌, inl, inr, refl, bit_and, true}
use bbk9588_emulator.Msc.State.{
  Msc, strpcl, cmd, arg, reg, start_command, select_command, update_irq, prepare_response,
}
use bbk9588_emulator.Msc.Registers.{write_word}
use bbk9588_emulator.Msc.Signal.{IsSound, write_word-IsSound}
use bbk9588_emulator.Bridge.Host.{Outside, Host, msc_dma_transfer}
use bbk9588_emulator.Bridge.Card.{IsRead, read_transfer_lem}

-- a kick callback of a DMA controller that is not set up yet
abbrev pub idle : Msc → Msc
idle s = s

abbrev pub started : Msc → ℕ → Msc
started s word = write_word idle s strpcl word

-- A start with one of the two read commands asks for the sector that the argument names.
pub started_lem :
    (s : Msc) (word : ℕ)
    → bit_and word 0xffff ≡ 0x06
    → (bit_and (reg s cmd) 0xff ≡ 0x11) ⊎ (bit_and (reg s cmd) 0xff ≡ 0x12)
    → ((started s word).read_pending ≡ true) × ((started s word).read_lba ≡ reg s arg / 2 ^ 9)
unfolding write_word prepare_response select_command start_command update_irq
started_lem s word w (inl e) = rw (w, e) (refl, refl)
started_lem s word w (inr e) = rw (w, e) (refl, refl)

module _ (o : Outside) where
  -- A start with one of the two read commands, and then a DMA request of the first channel for 1 to
  -- 16384 words, gives the whole transfer: the zeros of an absent card stand at the target and nothing
  -- else of memory is touched, no request of the card waits any more, the data are announced, the
  -- transfer is counted, and the sector is the one that the argument named.
  pub read_command_lem :
      (h : Host o) (word source target words : ℕ)
      → IsSound h.msc
      → bit_and word 0xffff ≡ 0x06
      → (bit_and (reg h.msc cmd) 0xff ≡ 0x11) ⊎ (bit_and (reg h.msc cmd) 0xff ≡ 0x12)
      → words ≢ 0
      → words ≤ 16384
      → let asked = record h { msc = started h.msc word } in
        let after = msc_dma_transfer o asked 0 source target words in
        (after.0 ≡ true)
        × IsRead o asked after.1 target words
        × (asked.msc.read_lba ≡ reg h.msc arg / 2 ^ 9)
  read_command_lem h word source target words s w c some fits =
      let asked = record h { msc = started h.msc word } in
      let (reading, lba) = started_lem h.msc word w c in
      let sound = write_word-IsSound idle (λ t p. p) h.msc strpcl word refl refl s in
      let (accepted, done) =
        read_transfer_lem o asked source target words
          (record { bounded = sound.bounded; reading = reading; some_words = some; fits = fits }) in
      (accepted, done, lba)
