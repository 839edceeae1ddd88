-- ===== src/Emc/Line.antt =====
-- The interrupt of qemu/overlay/hw/mem/jz4740_emc.c and the count of the block through every operation.
use bbk9588_emulator.Base.{
  ℕ, zero, suc, ◌/◌, ◌^◌, ◌≤◌, ◌≡◌, refl, arith, bit_and, bit_or, min, Bool, false, not, ◌&&◌, ◌||◌,
  ◌==◌, ◌!=◌, leb, ltb, if◌then◌else◌, Bool-cases, inl, inr, ==→eq, List, [], ◌∷◌,
}
use bbk9588_emulator.Irq.{driven}
use bbk9588_emulator.Bits.{has}
use bbk9588_emulator.Mmio.{aligned, merge}
use bbk9588_emulator.Emc.State.{
  Codec, Emc, block_bytes, nfcsr, nfeccr, nfecc, nfpar2, nfints, nfinte, ecce, erst, rse, ence,
  prdy, set, level_of, update_irq, begin_block, clear_results, store_rs_parity, rs_encode_complete,
  rs_decode_complete, take_bytes, complete, nand_data,
}
use bbk9588_emulator.Emc.Registers.{
  is_error, read_reg, write_eccr, store_reg, write_reg, read, write, reset_hold, post_load, Op,
  mmio_read, mmio_write, data_access, load, step, run,
}

-- The line follows the events that are enabled, and the block is not overrun.
pub record IsCurrent (s : Emc) : Type 0 where
  pub count : s.ecc_data_count ≤ block_bytes
  pub level : s.irq_level ≡ level_of (s.regs nfints) (s.regs nfinte)
  pub line : driven s.output ≡ s.irq_level

update_irq-IsCurrent : (s : Emc) → s.ecc_data_count ≤ block_bytes → IsCurrent (update_irq s)
unfolding update_irq
update_irq-IsCurrent s h = record { count = h; level = refl; line = refl }

-- The other registers have no part in it, nor has what is only recorded.
set-IsCurrent :
    (s : Emc) (i v : ℕ)
    → (i == nfints) ≡ false
    → (i == nfinte) ≡ false
    → IsCurrent s
    → IsCurrent (set s i v)
set-IsCurrent s i v a b h = record { count = h.count; level = rw (a, b) h.level; line = h.line }

begin_block-IsCurrent : (s : Emc) → IsCurrent s → IsCurrent (begin_block s)
unfolding begin_block
begin_block-IsCurrent s h = record { count = omega arith; level = h.level; line = h.line }

clear_results-IsCurrent : (s : Emc) → IsCurrent (clear_results s)
unfolding clear_results begin_block
clear_results-IsCurrent s = update_irq-IsCurrent _ (omega arith)

module _ (c : Codec) where
  take_bytes-IsCurrent :
      (left value : ℕ) (s : Emc) → IsCurrent s → IsCurrent (take_bytes c left value s)
  unfolding take_bytes
  take_bytes-IsCurrent zero value s h = h
  take_bytes-IsCurrent (suc left) value s h = elim (Bool-cases (ltb s.ecc_data_count block_bytes)) [
    | inl e ↦
        rw (e, take_bytes)
          (take_bytes-IsCurrent left (value / 2 ^ 8) _
            (record { count = ground arith; level = h.level; line = h.line }))
    | inr n ↦ rw (n, take_bytes) h
  ]

  complete-IsCurrent : (s : Emc) (encode : Bool) → IsCurrent s → IsCurrent (complete c s encode)
  unfolding complete rs_encode_complete store_rs_parity
  complete-IsCurrent s encode h = elim (Bool-cases (has (s.regs nfeccr) rse)) [
    | inl e ↦ rw e (elim (Bool-cases encode) [
      | inl e ↦ rw e (update_irq-IsCurrent _ h.count)
      | inr n ↦ rw n (update_irq-IsCurrent _ h.count)
    ])
    | inr n ↦ rw n (set-IsCurrent s nfecc _ refl refl h)
  ]

  nand_data-IsCurrent :
      (s : Emc) (value size : ℕ) (write : Bool)
      → IsCurrent s
      → IsCurrent (nand_data c s value size write)
  unfolding nand_data
  nand_data-IsCurrent s value size write h =
      let t = take_bytes c (min size 4) value s in
      let taken = take_bytes-IsCurrent (min size 4) value s h in
      let encode = has (s.regs nfeccr) ence in
      elim (Bool-cases
        (not (has (s.regs nfeccr) ecce) || encode != write || leb block_bytes s.ecc_data_count)) [
          | inl e ↦ rw e h
          | inr n ↦ rw n (elim (Bool-cases (t.ecc_data_count == block_bytes)) [
            | inl e ↦ rw e (complete-IsCurrent t encode taken)
            | inr n ↦ rw n taken
          ])
        ]

  rs_decode-IsCurrent : (s : Emc) → IsCurrent s → IsCurrent (rs_decode_complete c s)
  unfolding rs_decode_complete
  rs_decode-IsCurrent s h = update_irq-IsCurrent _ h.count

  read_reg-IsCurrent : (s : Emc) (i : ℕ) → IsCurrent s → IsCurrent (read_reg c s i).1
  unfolding read_reg
  read_reg-IsCurrent s i h =
      ground
        (arith, h, set-IsCurrent s nfecc (c.hamming_encode s.ecc_data s.ecc_data_count) refl refl h)

  read-IsCurrent : (s : Emc) (offset size : ℕ) → IsCurrent s → IsCurrent (read c s offset size).1
  unfolding read
  read-IsCurrent s offset size h = elim (Bool-cases (leb 0x10000 (aligned offset))) [
    | inl e ↦ rw e h
    | inr n ↦
        let t = read_reg-IsCurrent s (aligned offset / 4) h in
        rw n (record { count = t.count; level = t.level; line = t.line })
  ]

  write_eccr-IsCurrent : (s : Emc) (value : ℕ) → IsCurrent s → IsCurrent (write_eccr c s value)
  unfolding write_eccr
  write_eccr-IsCurrent s value h =
      let cleared = if has value erst then clear_results s else s in
      let cleared-IsCurrent : IsCurrent cleared = elim (Bool-cases (has value erst)) [
        | inl e ↦ rw e (clear_results-IsCurrent s)
        | inr n ↦ rw n h
      ] in
      let control = bit_and value 0x0d in
      let t = set cleared nfeccr control in
      let first = set-IsCurrent cleared nfeccr control refl refl cleared-IsCurrent in
      let begins = has control ecce && not (has (s.regs nfeccr) ecce) && not (has value erst) in
      let begun-IsCurrent : IsCurrent (if begins then begin_block t else t) =
        elim (Bool-cases begins) [
          | inl e ↦ rw e (begin_block-IsCurrent t first)
          | inr n ↦ rw n first
        ] in
      elim (Bool-cases (has value prdy && bit_and control 0x0d == bit_or ecce rse)) [
        | inl e ↦ rw e (rs_decode-IsCurrent _ begun-IsCurrent)
        | inr n ↦ rw n begun-IsCurrent
      ]

  store_reg-IsCurrent : (s : Emc) (i value : ℕ) → IsCurrent s → IsCurrent (store_reg c s i value)
  unfolding store_reg
  store_reg-IsCurrent s i value h = elim (Bool-cases (i == nfcsr)) [
    | inl e ↦ rw (e, ==→eq i nfcsr e) (set-IsCurrent s nfcsr (bit_and value 0xff) refl refl h)
    | inr n ↦ rw n (elim (Bool-cases (i == nfeccr)) [
      | inl e ↦ rw e (write_eccr-IsCurrent s value h)
      | inr n ↦ rw n (elim (Bool-cases (i == nfecc)) [
        | inl e ↦ rw e h
        | inr n ↦ rw n (elim (Bool-cases (i == nfpar2)) [
          | inl e ↦
              rw (e, ==→eq i nfpar2 e) (set-IsCurrent s nfpar2 (bit_and value 0xff) refl refl h)
          | inr n ↦ rw n (elim (Bool-cases (i == nfints)) [
            | inl e ↦ rw e (update_irq-IsCurrent _ h.count)
            | inr a ↦ rw a (elim (Bool-cases (i == nfinte)) [
              | inl e ↦ rw e (update_irq-IsCurrent _ h.count)
              | inr b ↦ rw b (elim (Bool-cases (is_error i)) [
                | inl e ↦ rw e h
                | inr n ↦ rw n (set-IsCurrent s i value a b h)
              ])
            ])
          ])
        ])
      ])
    ])
  ]

  write-IsCurrent :
      (s : Emc) (offset value size : ℕ) → IsCurrent s → IsCurrent (write c s offset value size)
  unfolding write write_reg
  write-IsCurrent s offset value size h = elim (Bool-cases (leb 0x10000 (aligned offset))) [
    | inl e ↦ rw e h
    | inr n ↦
        let i = aligned offset / 4 in
        let t = store_reg-IsCurrent s i (merge (s.regs i) offset size value) h in
        rw n (record { count = t.count; level = t.level; line = t.line })
  ]

  step-IsCurrent : (s : Emc) (op : Op) → IsCurrent s → IsCurrent (step c s op)
  unfolding step post_load
  step-IsCurrent s (mmio_read offset size) h = read-IsCurrent s offset size h
  step-IsCurrent s (mmio_write offset value size) h = write-IsCurrent s offset value size h
  step-IsCurrent s (data_access value size write) h = nand_data-IsCurrent s value size write h
  step-IsCurrent s (load saved) h = update_irq-IsCurrent _ (omega arith)

  run-IsCurrent : (s : Emc) (ops : List Op) → IsCurrent s → IsCurrent (run c s ops)
  unfolding run
  run-IsCurrent s [] h = h
  run-IsCurrent s (op ∷ ops) h = run-IsCurrent (step c s op) ops (step-IsCurrent s op h)

  -- After a reset, whatever sequence of reads, writes, data of the NAND device and restores of
  -- any saved state the
  -- controller served, and whatever its codec computes: the line is high exactly while an event that
  -- is enabled is present, the recorded level is what was driven last, and the block holds at most 512
  -- bytes.
  pub run-reset_hold-IsCurrent : (s : Emc) (ops : List Op) → IsCurrent (run c (reset_hold s) ops)
  unfolding reset_hold
  run-reset_hold-IsCurrent s ops = run-IsCurrent _ ops (update_irq-IsCurrent _ (omega arith))
