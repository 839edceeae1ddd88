-- ===== src/Dmac/Moved.antt =====
-- What dmac_try_auto_transfer of qemu/overlay/hw/dma/jz4740_dmac.c leaves in the guest's memory.
use bbk9588_emulator.Base.{
  ℕ, zero, suc, ◌+◌, ◌-◌, ◌*◌, ◌%◌, ◌^◌, ◌≤◌, ◌<◌, ◌≡◌, ◌≢◌, refl, ◌∙◌, ap, arith, true, false,
  ◌&&◌, ◌==◌, ltb, leb, if◌then◌else◌, inl, inr, Bool-cases, ==→eq, bit_and, bit_or,
}
use bbk9588_emulator.Bits.{has, test_bit, test_bit-bit_and, bit_and-bit}
use native.Mathlib.Nat.{zero-mul, zero-add}
use bbk9588_emulator.Dmac.State.{Env, Dmac, dsa, dta, dcm, chan, ram_range_valid}
use bbk9588_emulator.Dmac.Channel.{unit_bytes}
use bbk9588_emulator.Dmac.Transfer.{dcm_sai, dcm_dai, units_left, copy_auto, try_auto_transfer}
use bbk9588_emulator.Dmac.Memory.{Ram, physical}
use bbk9588_emulator.Dmac.Copy.{Apart, copy_chunks_lem}
use bbk9588_emulator.Dmac.Fill.{copy_units_fill}
use bbk9588_emulator.Dmac.Auto.{
  IsReady, IsDone, bytes_left, try_auto_transfer-IsDone, try_auto_transfer-world,
}

range_lem :
    {W : Type 0} (s : Dmac W) (addr bytes : ℕ)
    → ram_range_valid s addr bytes ≡ true
    → physical addr + bytes ≤ s.ram_size
unfolding ram_range_valid
range_lem s addr bytes h = ground arith

factor_le : (a b : ℕ) → b ≢ 0 → a ≤ a * b
factor_le a zero h = absurd (h refl)
factor_le a (suc b) h = grind arith

factor_le' : (a b : ℕ) → a ≢ 0 → b ≤ a * b
factor_le' zero b h = absurd (h refl)
factor_le' (suc a) b h = grind arith

-- With a fixed source the bytes go unit by unit.
by_units :
    (command : ℕ)
    → has command dcm_sai ≡ false
    → (bit_and command (bit_or dcm_sai dcm_dai) == bit_or dcm_sai dcm_dai) ≡ false
by_units command h =
    elim (Bool-cases (bit_and command (bit_or dcm_sai dcm_dai) == bit_or dcm_sai dcm_dai)) [
      | inl e ↦
          let running : test_bit (bit_and command (bit_or dcm_sai dcm_dai)) 23 ≡ true =
            rw (==→eq _ _ e) refl in
          absurd (
            ground (
              arith,
              running,
              test_bit-bit_and command (bit_or dcm_sai dcm_dai) 23,
              bit_and-bit 23 command,
            ))
      | inr n ↦ n
    ]

module _ (e : Env) (ram : Ram e) (s : Dmac e.World) (channel : ℕ) (ready : IsReady s channel)
    (small : ram.size ≤ 2 ^ 29) (whole : s.ram_size ≡ ram.size)
    (from : ram_range_valid s (chan s channel dsa) (bytes_left s channel) ≡ true)
    (to : ram_range_valid s (chan s channel dta) (bytes_left s channel) ≡ true) where
  from_range : physical (chan s channel dsa) + bytes_left s channel ≤ ram.size
  from_range = omega (arith, range_lem s (chan s channel dsa) (bytes_left s channel) from)

  to_range : physical (chan s channel dta) + bytes_left s channel ≤ ram.size
  to_range = omega (arith, range_lem s (chan s channel dta) (bytes_left s channel) to)

  seen :
      (i : ℕ)
      → ram.peek (try_auto_transfer e s channel).world i
        ≡ ram.peek
            (copy_auto e s.world
              (chan s channel dcm)
              (chan s channel dsa)
              (chan s channel dta)
              (unit_bytes (chan s channel dcm))
              (bytes_left s channel))
            i
  seen i =
      ap (λ (w : e.World). ram.peek w i) (try_auto_transfer-world e s channel ready from to)
      ∙ ram.traced _ _ _ _ _ i

  moved :
      (i : ℕ)
      → i < ram.size
      → bit_and (chan s channel dcm) (bit_or dcm_sai dcm_dai) ≡ bit_or dcm_sai dcm_dai
      → Apart (physical (chan s channel dsa)) (physical (chan s channel dta)) (bytes_left s channel)
      → ram.peek (try_auto_transfer e s channel).world i ≡ (
          if leb (physical (chan s channel dta)) i
            && ltb i (physical (chan s channel dta) + bytes_left s channel)
          then ram.peek s.world
              (physical (chan s channel dsa) + (i - physical (chan s channel dta)))
          else ram.peek s.world i)
  unfolding copy_auto
  moved i hi both apart =
      seen i
      ∙ rw both (
          copy_chunks_lem e ram (chan s channel dsa) (chan s channel dta) (bytes_left s channel)
            small from_range to_range apart (bytes_left s channel) s.world s.world 0 i (omega arith)
            (omega arith) (λ j hj. ground arith) hi)

  -- In a machine with at most 2 ^ 29 bytes of RAM, a channel that is enabled and set up without
  -- descriptors for a copy from memory to memory (automatic requests, a known unit, some units left and
  -- less than 2 ^ 32 bytes in all), with both addresses running, both ranges valid in RAM and no byte
  -- in both of them, is served at once and whole: the target holds the bytes of the source and every
  -- other byte of the RAM stands; the count is 0, the channel is stopped with the terminal count and
  -- both addresses have moved on by the bytes that were copied.
  pub copies :
      (i : ℕ)
      → i < ram.size
      → bit_and (chan s channel dcm) (bit_or dcm_sai dcm_dai) ≡ bit_or dcm_sai dcm_dai
      → Apart (physical (chan s channel dsa)) (physical (chan s channel dta)) (bytes_left s channel)
      → IsDone s (try_auto_transfer e s channel) channel
        × (ram.peek (try_auto_transfer e s channel).world i ≡ (
            if leb (physical (chan s channel dta)) i
              && ltb i (physical (chan s channel dta) + bytes_left s channel)
            then ram.peek s.world
                (physical (chan s channel dsa) + (i - physical (chan s channel dta)))
            else ram.peek s.world i))
  copies i hi both apart =
      (try_auto_transfer-IsDone e s channel ready from to, moved i hi both apart)

  -- For such a channel with a fixed source and a running target, and no byte in both ranges, every unit of the target
  -- holds the unit at the source and the rest of the memory stands.
  pub fills :
      (i : ℕ)
      → i < ram.size
      → has (chan s channel dcm) dcm_sai ≡ false
      → has (chan s channel dcm) dcm_dai ≡ true
      → Apart (physical (chan s channel dsa)) (physical (chan s channel dta)) (bytes_left s channel)
      → ram.peek (try_auto_transfer e s channel).world i ≡ (
          if leb (physical (chan s channel dta)) i
            && ltb i (physical (chan s channel dta) + bytes_left s channel)
          then ram.peek s.world (
              physical (chan s channel dsa)
              + (i - physical (chan s channel dta)) % unit_bytes (chan s channel dcm))
          else ram.peek s.world i)
  unfolding copy_auto
  fills i hi fixed running apart =
      let count = units_left s channel in
      let unit = unit_bytes (chan s channel dcm) in
      let one : unit ≤ bytes_left s channel = factor_le' count unit ready.some_left in
      let filled_from =
        copy_units_fill e ram (chan s channel dsa) (chan s channel dta) unit (bytes_left s channel)
          small ready.known_unit (omega (arith, from_range)) to_range (ground (arith, one)) count
          s.world s.world 0 (bytes_left s channel) i (rw zero-add refl)
          (factor_le count unit ready.known_unit) (λ j hj. ground arith) hi in
      seen i ∙ rw (by_units (chan s channel dcm) fixed, fixed, running) (rw zero-mul at filled_from)
