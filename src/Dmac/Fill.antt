-- ===== src/Dmac/Fill.antt =====
-- A transfer of dmac_try_auto_transfer in qemu/overlay/hw/dma/jz4740_dmac.c from a fixed source to
-- successive targets.
use bbk9588_emulator.Base.{
  ℕ, zero, suc, ◌+◌, ◌-◌, ◌*◌, ◌%◌, ◌^◌, ◌≤◌, ◌<◌, ◌≡◌, ◌≢◌, refl, sym, ◌∙◌, ap, arith, true, false,
  ◌&&◌, ltb, leb, if◌then◌else◌, ◌⊎◌,
}
use native.Mathlib.Nat.{add-zero, mul-add-mod_self_right, mod-eq_of_lt}
use bbk9588_emulator.Dmac.State.{Env, memory_read, memory_write}
use bbk9588_emulator.Dmac.Transfer.{copy_units}
use bbk9588_emulator.Dmac.Memory.{Ram, physical, physical-add, move_lem}

module _ (e : Env) (ram : Ram e) (source target unit bytes : ℕ) (small : ram.size ≤ 2 ^ 29)
    (some_unit : unit ≢ 0) (from : physical source + unit ≤ ram.size)
    (to : physical target + bytes ≤ ram.size)
    (apart : (physical source + unit ≤ physical target)
      ⊎ (physical target + bytes ≤ physical source)) where
  -- the byte at `i` when the first `done` bytes of the target are filled
  abbrev pub filled : e.World → ℕ → ℕ → ℕ
  filled w done i =
      if leb (physical target) i && ltb i (physical target + done)
      then ram.peek w (physical source + (i - physical target) % unit)
      else ram.peek w i

  -- the place inside the unit that a byte of the last unit comes from
  place :
      (k i : ℕ)
      → physical target + k * unit ≤ i
      → i < physical target + k * unit + unit
      → (i - physical target) % unit ≡ i - (physical target + k * unit)
  place k i low high =
      let r = i - (physical target + k * unit) in
      let split : i - physical target ≡ k * unit + r = omega arith in
      ap (λ (t : ℕ). t % unit) split ∙ mul-add-mod_self_right k unit r ∙ mod-eq_of_lt (omega arith)

  unit_step :
      (w0 w : e.World) (k i : ℕ)
      → k * unit + unit ≤ bytes
      → ((j : ℕ) → j < ram.size → ram.peek w j ≡ filled w0 (k * unit) j)
      → i < ram.size
      → ram.peek
          (memory_write e w
            ((target + k * unit) % 2 ^ 32)
            (memory_read e w ((source + 0) % 2 ^ 32) unit))
          i
        ≡ filled w0 (k * unit + unit) i
  unit_step w0 w k i h sofar hi =
      let at_source = physical-add source 0 (omega arith) in
      let at_target = physical-add target (k * unit) (omega arith) in
      let moved =
        move_lem e ram w ((source + 0) % 2 ^ 32) ((target + k * unit) % 2 ^ 32) unit i
          (omega (arith, at_source)) (omega (arith, at_target)) hi in
      let there = physical source + 0 + (i - (physical target + k * unit)) in
      ground (arith, rw (at_source, at_target) at moved, sofar i hi, sofar there, place k i)

  pub copy_units_fill :
      (left : ℕ) (w0 w : e.World) (k fuel i : ℕ)
      → (k + left) * unit ≡ bytes
      → left ≤ fuel
      → ((j : ℕ) → j < ram.size → ram.peek w j ≡ filled w0 (k * unit) j)
      → i < ram.size
      → ram.peek (copy_units e fuel w false true source target unit bytes (k * unit)).1 i
        ≡ filled w0 bytes i
  unfolding copy_units
  copy_units_fill zero w0 w k zero i h f sofar hi =
      let all : k * unit ≡ bytes = rw (add-zero) at h in sofar i hi ∙ rw all refl
  copy_units_fill zero w0 w k (suc fuel) i h f sofar hi =
      let all : k * unit ≡ bytes = rw (add-zero) at h in
      let ended : ltb (k * unit) bytes ≡ false = ground arith in
      rw (ended, copy_units) (sofar i hi ∙ rw all refl)
  copy_units_fill (suc left) w0 w k zero i h f sofar hi = absurd (omega arith)
  copy_units_fill (suc left) w0 w k (suc fuel) i h f sofar hi =
      let next : suc k * unit ≡ k * unit + unit = grind arith in
      let shape : (k + suc left) * unit ≡ k * unit + unit + left * unit = grind arith in
      let whole : k * unit + unit + left * unit ≡ bytes = sym shape ∙ h in
      let moved_on : (suc k + left) * unit ≡ k * unit + unit + left * unit = grind arith in
      let more : ltb (k * unit) bytes ≡ true = ground arith in
      let rest =
        copy_units_fill left w0
          (memory_write e w ((target + k * unit) % 2 ^ 32)
            (memory_read e w ((source + 0) % 2 ^ 32) unit))
          (suc k) fuel i (moved_on ∙ whole) (omega arith)
          (λ j hj. rw next (unit_step w0 w k j (omega arith) sofar hj)) hi in
      rw (more, copy_units) (rw next at rest)
