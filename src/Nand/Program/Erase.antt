-- ===== src/Nand/Program/Erase.antt =====
-- What a block erase does to the image.
use bbk9588_emulator.Base.{
  ℕ, ◌+◌, ◌*◌, ◌/◌, ◌%◌, ◌^◌, ◌≤◌, ◌<◌, ◌≡◌, ◌≢◌, refl, arith, Bool, true, false, not, ◌&&◌, ◌||◌,
  ◌==◌, ltb, leb, if◌then◌else◌, ◌∙◌, ap, ◌⊎◌, inl, inr, Bool-cases,
}
use bbk9588_emulator.Nand.State.{
  Nand, emit, stride_of, row_from_address, status_ready, pages_per_block,
}
use bbk9588_emulator.Nand.Flush.{backend_update, schedule_flush}
use bbk9588_emulator.Nand.Program.{block_start_of, erase_bytes, commit_erase}
use bbk9588_emulator.Nand.Program.Commit.{bytes-backend_update}

-- the block that the latched row lies in, as bytes of the image
abbrev pub block_of : Nand → ℕ
block_of s = block_start_of (row_from_address s) * stride_of s

abbrev pub block_size : Nand → ℕ
block_size s = pages_per_block * stride_of s

erase_bytes-byte :
    (s : Nand) (start : ℕ) (ok : Bool) (j : ℕ)
    → (erase_bytes s start ok).bytes j ≡ (
        if leb (start * stride_of s) j
          && ltb j (start * stride_of s + pages_per_block * stride_of s)
          && ltb j s.size
        then 0xff
        else s.bytes j)
unfolding erase_bytes
erase_bytes-byte s start ok j = elim (Bool-cases (ltb (start * stride_of s) s.size)) [
  | inl inside ↦
      rw inside
        (ap (λ (f : ℕ → ℕ). f j) (bytes-backend_update _ (start * stride_of s) _ ok) ∙ ground arith)
  | inr behind ↦ rw behind (ground arith)
]

erase_count-erase_bytes :
    (s : Nand) (start : ℕ) (ok : Bool) → (erase_bytes s start ok).erase_count ≡ s.erase_count
unfolding erase_bytes backend_update schedule_flush
erase_count-erase_bytes s start ok = ground arith

-- An erase in a device with an image, with at least two address bytes and of a block that is not
-- set up to fail, reports success, counts itself, turns every byte of the block that the image has
-- into 0xff, and changes no other byte.
pub commit_erase_lem :
    (s : Nand) (ok : Bool) (j : ℕ)
    → s.has_data ≡ true
    → 2 ≤ s.address_count
    → block_start_of (row_from_address s) / pages_per_block ≢ s.fail_erase_block
    → let s' = commit_erase s ok in
      (s'.status ≡ status_ready)
      × (s'.erase_count ≡ (s.erase_count + 1) % 2 ^ 32)
      × (s'.bytes j ≡ (
          if leb (block_of s) j && ltb j (block_of s + block_size s) && ltb j s.size
          then 0xff
          else s.bytes j))
unfolding commit_erase emit
commit_erase_lem s ok j image addressed block =
    let t1 : (not s.has_data || ltb s.address_count 2) ≡ false = ground arith in
    let t2 : (block_start_of (row_from_address s) / pages_per_block == s.fail_erase_block) ≡ false =
      ground arith in
    rw (t1, t2)
      (
        refl,
        ap (λ (n : ℕ). (n + 1) % 2 ^ 32)
            (erase_count-erase_bytes s (block_start_of (row_from_address s)) ok),
        erase_bytes-byte s (block_start_of (row_from_address s)) ok j,
      )

-- An erase that fails or is not addressed changes no byte of the image.
pub commit_erase_failed :
    (s : Nand) (ok : Bool)
    → (s.address_count < 2)
      ⊎ (block_start_of (row_from_address s) / pages_per_block ≡ s.fail_erase_block)
    → ((commit_erase s ok).bytes ≡ s.bytes) × ((commit_erase s ok).erase_count ≡ s.erase_count)
unfolding commit_erase emit
commit_erase_failed s ok h = elim (Bool-cases (not s.has_data || ltb s.address_count 2)) [
  | inl t1 ↦ rw t1 (refl, refl)
  | inr f1 ↦
      let t2 : (block_start_of (row_from_address s) / pages_per_block == s.fail_erase_block)
          ≡ true =
        ground arith in
      rw (f1, t2) (refl, refl)
]
