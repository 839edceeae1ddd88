-- ===== src/Emc/Block.antt =====
-- A block that is written to the NAND device while the encoder of qemu/overlay/hw/mem/jz4740_emc.c is
-- on.
use bbk9588_emulator.Base.{
  ℕ, zero, suc, ◌+◌, ◌-◌, ◌%◌, ◌^◌, ◌<◌, ◌≡◌, refl, arith, true, false, ◌==◌, leb, ltb,
  if◌then◌else◌, List, [], ◌∷◌, update,
}
use bbk9588_emulator.Bits.{has, has_set}
use bbk9588_emulator.Dmac.Memory.{length, nth}
use bbk9588_emulator.Emc.State.{
  Codec, Emc, block_bytes, nfeccr, nfpar0, nfpar1, nfpar2, nfints, ecce, rse, ence, encf, load_le32,
  update_irq, store_rs_parity, rs_encode_complete, take_bytes, complete, nand_data,
}

-- The Reed-Solomon encoder is on.
pub record IsEncoding (s : Emc) : Type 0 where
  pub enabled : has (s.regs nfeccr) ecce ≡ true
  pub symbols : has (s.regs nfeccr) rse ≡ true
  pub encoder : has (s.regs nfeccr) ence ≡ true

-- one byte more
abbrev pub taken : Emc → ℕ → Emc
taken s value = record s {
  ecc_data = update s.ecc_data s.ecc_data_count (value % 2 ^ 8);
  ecc_data_count = s.ecc_data_count + 1;
}

nth-after : (b : ℕ) (bs : List ℕ) (k : ℕ) → 0 < k → nth (b ∷ bs) k ≡ nth bs (k - 1)
nth-after b bs zero h = absurd (omega arith)
nth-after b bs (suc k) h = let e : suc k - 1 ≡ k = omega arith in rw e refl

module _ (c : Codec) where
  -- the bytes that the driver writes to the data window, one by one
  unfoldable pub feed : Emc → List ℕ → Emc
  feed s [] = s
  feed s (b ∷ bs) = feed (nand_data c s b 1 true) bs

  -- What the driver finds: the bytes of the block, their parity, and the end of the encoding.
  pub record IsEncoded (s after : Emc) (bytes : List ℕ) : Type 0 where
    pub content :
        (i : ℕ)
        → i < block_bytes
        → after.ecc_data i ≡ (
            if ltb i s.ecc_data_count
            then s.ecc_data i
            else nth bytes (i - s.ecc_data_count) % 2 ^ 8)
    pub parity0 : after.regs nfpar0 ≡ load_le32 (c.rs_encode after.ecc_data) 0
    pub parity1 : after.regs nfpar1 ≡ load_le32 (c.rs_encode after.ecc_data) 4
    pub parity2 : after.regs nfpar2 ≡ c.rs_encode after.ecc_data 8
    pub done : has (after.regs nfints) encf ≡ true

  take_one : (s : Emc) (b : ℕ) → s.ecc_data_count < block_bytes → take_bytes c 1 b s ≡ taken s b
  unfolding take_bytes
  take_one s b h =
      let room : ltb s.ecc_data_count block_bytes ≡ true = ground arith in
      rw (room, take_bytes) refl

  next_byte :
      (s : Emc) (b : ℕ)
      → IsEncoding s
      → s.ecc_data_count + 1 < block_bytes
      → nand_data c s b 1 true ≡ taken s b
  unfolding nand_data
  next_byte s b e h =
      let room : leb block_bytes s.ecc_data_count ≡ false = ground arith in
      let more : (s.ecc_data_count + 1 == block_bytes) ≡ false = ground arith in
      rw (e.enabled, e.encoder, room, take_one s b (omega (arith, h)), more) refl

  last_byte :
      (s : Emc) (b : ℕ)
      → IsEncoding s
      → s.ecc_data_count + 1 ≡ block_bytes
      → nand_data c s b 1 true ≡ rs_encode_complete c (taken s b)
  unfolding nand_data complete
  last_byte s b e h =
      let room : leb block_bytes s.ecc_data_count ≡ false = ground arith in
      let full : (s.ecc_data_count + 1 == block_bytes) ≡ true = ground arith in
      rw (e.enabled, e.encoder, room, take_one s b (omega (arith, h)), full, e.symbols) refl

  -- A block that is written byte by byte to its end, with the encoder on, is encoded: the controller
  -- holds the low bytes of what was written after those that it had, the parity registers hold the
  -- parity of the whole block, and the encoding is reported as finished.
  pub feed-IsEncoded :
      (s : Emc) (b : ℕ) (bs : List ℕ)
      → IsEncoding s
      → s.ecc_data_count + length (b ∷ bs) ≡ block_bytes
      → IsEncoded s (feed s (b ∷ bs)) (b ∷ bs)
  unfolding feed rs_encode_complete store_rs_parity update_irq
  feed-IsEncoded s b [] e h = rw (last_byte s b e h) (record {
    content = λ i p. ground (arith, h);
    parity0 = refl;
    parity1 = refl;
    parity2 = refl;
    done = has_set 2 _ encf refl;
  })
  feed-IsEncoded s b (b2 ∷ bs) e h =
      let rest =
        feed-IsEncoded (taken s b) b2 bs
          (record { enabled = e.enabled; symbols = e.symbols; encoder = e.encoder })
          (omega (arith, h)) in
      rw (next_byte s b e (omega (arith, h))) (record {
        content =
            λ i p. ground (arith, rest.content i p, nth-after b (b2 ∷ bs) (i - s.ecc_data_count));
        parity0 = rest.parity0;
        parity1 = rest.parity1;
        parity2 = rest.parity2;
        done = rest.done;
      })
