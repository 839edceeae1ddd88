-- ===== src/Dmac/Copy.antt =====
-- The copy loops of dmac_try_auto_transfer in qemu/overlay/hw/dma/jz4740_dmac.c: they end, and what
-- they leave in memory.
use bbk9588_emulator.Base.{
  ℕ, zero, suc, ◌+◌, ◌-◌, ◌*◌, ◌%◌, ◌^◌, ◌≤◌, ◌<◌, ◌≡◌, ◌≢◌, refl, ◌∙◌, arith, Bool, true, false,
  ◌&&◌, ltb, leb, if◌then◌else◌, Bool-cases, ◌⊎◌, inl, inr, min,
}
use bbk9588_emulator.Dmac.State.{Env, memory_read, memory_write}
use bbk9588_emulator.Dmac.Transfer.{copy_chunks, copy_units}
use bbk9588_emulator.Dmac.Memory.{Ram, physical, physical-add, move_lem}

module _ (e : Env) (source target : ℕ) where
  -- The loop in chunks leaves by its test: with a round for each byte, `done` reaches `bytes`.
  pub copy_chunks_ends :
      (fuel : ℕ) (w : e.World) (bytes done : ℕ)
      → done ≤ bytes
      → bytes ≤ done + fuel
      → (copy_chunks e fuel w source target bytes done).0 ≡ bytes
  unfolding copy_chunks
  copy_chunks_ends zero w bytes done h k = omega arith
  copy_chunks_ends (suc fuel) w bytes done h k = elim (Bool-cases (ltb done bytes)) [
    | inl more ↦
        rw (more, copy_chunks)
          (copy_chunks_ends fuel _ bytes (done + min 4096 (bytes - done)) (ground arith)
            (ground arith))
    | inr ended ↦ rw (ended, copy_chunks) (ground arith)
  ]

  -- The loop by units leaves by its test, also where units are larger than a byte: if the bytes that
  -- are left are whole units and there is a round for each, `done` reaches `bytes` and no more.
  pub copy_units_ends :
      (fuel : ℕ) (w : e.World) (sai dai : Bool) (unit bytes done left : ℕ)
      → unit ≢ 0
      → done + left * unit ≡ bytes
      → left ≤ fuel
      → (copy_units e fuel w sai dai source target unit bytes done).0 ≡ bytes
  unfolding copy_units
  copy_units_ends zero w sai dai unit bytes done left n h k =
      let none_left : left ≡ 0 = omega arith in omega (arith, rw none_left at h)
  copy_units_ends (suc fuel) w sai dai unit bytes done zero n h k =
      let ended : ltb done bytes ≡ false = ground arith in rw (ended, copy_units) (omega arith)
  copy_units_ends (suc fuel) w sai dai unit bytes done (suc left) n h k =
      let split : suc left * unit ≡ unit + left * unit = grind arith in
      let more : ltb done bytes ≡ true = ground (arith, split) in
      rw (more, copy_units)
        (copy_units_ends fuel _ sai dai unit bytes (done + unit) left n (omega (arith, split))
          (omega arith))

-- Two ranges of one length with no byte in common.
abbrev pub Apart : ℕ → ℕ → ℕ → Type 0
Apart a b n = (a + n ≤ b) ⊎ (b + n ≤ a)

module _ (e : Env) (ram : Ram e) (source target bytes : ℕ) (small : ram.size ≤ 2 ^ 29)
    (from : physical source + bytes ≤ ram.size) (to : physical target + bytes ≤ ram.size)
    (apart : Apart (physical source) (physical target) bytes) where
  -- the byte at `i` when the first `done` bytes are copied
  abbrev pub copied : e.World → ℕ → ℕ → ℕ
  copied w done i =
      if leb (physical target) i && ltb i (physical target + done)
      then ram.peek w (physical source + (i - physical target))
      else ram.peek w i

  chunk_step :
      (w0 w : e.World) (done n i : ℕ)
      → done + n ≤ bytes
      → n ≢ 0
      → ((j : ℕ) → j < ram.size → ram.peek w j ≡ copied w0 done j)
      → i < ram.size
      → ram.peek
          (memory_write e w
            ((target + done) % 2 ^ 32)
            (memory_read e w ((source + done) % 2 ^ 32) n))
          i
        ≡ copied w0 (done + n) i
  chunk_step w0 w done n i h pos sofar hi =
      let at_source = physical-add source done (omega arith) in
      let at_target = physical-add target done (omega arith) in
      let moved =
        move_lem e ram w ((source + done) % 2 ^ 32) ((target + done) % 2 ^ 32) n i
          (omega (arith, at_source)) (omega (arith, at_target)) hi in
      let there = physical source + done + (i - (physical target + done)) in
      ground (arith, rw (at_source, at_target) at moved, sofar i hi, sofar there)

  pub copy_chunks_lem :
      (fuel : ℕ) (w0 w : e.World) (done i : ℕ)
      → done ≤ bytes
      → bytes ≤ done + fuel
      → ((j : ℕ) → j < ram.size → ram.peek w j ≡ copied w0 done j)
      → i < ram.size
      → ram.peek (copy_chunks e fuel w source target bytes done).1 i ≡ copied w0 bytes i
  unfolding copy_chunks
  copy_chunks_lem zero w0 w done i h k sofar hi =
      let all : done ≡ bytes = omega arith in sofar i hi ∙ rw all refl
  copy_chunks_lem (suc fuel) w0 w done i h k sofar hi = elim (Bool-cases (ltb done bytes)) [
    | inl more ↦
        rw (more, copy_chunks)
          (let n : ℕ = min 4096 (bytes - done) in
            copy_chunks_lem fuel w0 _ (done + n) i (ground arith) (ground arith)
              (λ j hj. chunk_step w0 w done n j (ground arith) (ground arith) sofar hj) hi)
    | inr ended ↦
        let all : done ≡ bytes = ground arith in rw (ended, copy_chunks) (sofar i hi ∙ rw all refl)
  ]
