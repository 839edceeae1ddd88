-- ===== src/Cpm/Masks.antt =====
-- What the registers of qemu/overlay/hw/misc/jz4740_cpm.c hold through every operation.
use bbk9588_emulator.Base.{
  ℕ, ◌-◌, sym, ap, ◌∙◌, ◌/◌, ◌%◌, ◌^◌, ◌<◌, ◌≡◌, refl, arith, bit_and, bit_or, not, ◌&&◌, ◌||◌,
  ◌==◌, Bool-cases, inl, inr, ==→eq, List, [], ◌∷◌,
}
use native.Mathlib.Nat.{one-le-pow}
use bbk9588_emulator.Bits.{
  bit_or-lt, test_bit, has, ext, test_bit-bit_and, test_bit-bit_or, test_bit-pow, bit_and-le_right,
  bit_and-ones, bit_and-bit, has-bit_or, has-bit_and,
}
use bbk9588_emulator.Mmio.{aligned}
use bbk9588_emulator.Cpm.Registers.{
  Cpm, cppcr_rw_mask, plls, pllen, lock_pll, mask_write, word_only_reg, notify, write_word, write,
  reset_value, reset, Op, mmio_write, load, restore, step, run,
}

masked-lt : (a m : ℕ) → m < 2 ^ 32 → bit_and a m < 2 ^ 32
masked-lt a m h = omega (arith, bit_and-le_right 32 a m h)

and_again : (a m : ℕ) → m < 2 ^ 32 → bit_and (bit_and a m) m ≡ bit_and a m
and_again a m h =
    ext 32 _ _ (masked-lt (bit_and a m) m h) (masked-lt a m h)
      (λ i p. ground (arith, test_bit-bit_and (bit_and a m) m i, test_bit-bit_and a m i))

-- The mask takes the flag PLLS away, and PLLEN brings it back.
stable_again :
    (a : ℕ)
    → bit_and (bit_or (bit_and a cppcr_rw_mask) plls) cppcr_rw_mask ≡ bit_and a cppcr_rw_mask
stable_again a =
    let m = bit_and a cppcr_rw_mask in
    ext 32 _ _ (masked-lt (bit_or m plls) cppcr_rw_mask (omega arith))
      (masked-lt a cppcr_rw_mask (omega arith))
      (λ i p. ground (
        arith,
        test_bit-bit_and (bit_or m plls) cppcr_rw_mask i,
        test_bit-bit_or m plls i,
        test_bit-bit_and a cppcr_rw_mask i,
        test_bit-pow 10 i,
      ))

lock_again :
    (a : ℕ)
    → lock_pll (bit_and (lock_pll (bit_and a cppcr_rw_mask)) cppcr_rw_mask)
      ≡ lock_pll (bit_and a cppcr_rw_mask)
lock_again a = elim (Bool-cases (has (bit_and a cppcr_rw_mask) pllen)) [
  | inl e ↦ rw (e, stable_again a, e) refl
  | inr n ↦ rw (n, and_again a cppcr_rw_mask (omega arith), n) refl
]

-- A word that a write left is left by a write of itself.
mask_write-mask_write :
    (reg value : ℕ) → mask_write reg (mask_write reg value) ≡ mask_write reg value
unfolding mask_write
mask_write-mask_write reg value = ground (
  arith,
  lock_again value,
  and_again value 0xff,
  and_again value 0xffff,
  and_again value 0xffd0,
  and_again value 0x1ff,
  and_again value 0x800007ff,
  and_again value 0x1f,
  and_again value 0x0f,
  and_again value 0x8000000f,
)

-- Every register holds what a write to it could have left.
IsFixed : Cpm → Type 0
IsFixed s = (reg : ℕ) → reg % 4 ≡ 0 → mask_write reg (s.regs (reg / 4)) ≡ s.regs (reg / 4)

reset_value-IsFixed :
    (reg : ℕ) → reg % 4 ≡ 0 → mask_write reg (reset_value (reg / 4)) ≡ reset_value (reg / 4)
unfolding mask_write reset_value
reset_value-IsFixed reg h = ground arith

write_word-IsFixed :
    (s : Cpm) (at merged : ℕ) → at % 4 ≡ 0 → IsFixed s → IsFixed (write_word s at merged)
unfolding write_word IsFixed
write_word-IsFixed s at merged a h reg r = elim (Bool-cases (at == reg)) [
  | inl e ↦ rw (==→eq at reg e) (ground (arith, mask_write-mask_write reg merged))
  | inr n ↦ ground (arith, h reg r)
]

write-IsFixed : (s : Cpm) (offset value size : ℕ) → IsFixed s → IsFixed (write s offset value size)
unfolding write
write-IsFixed s offset value size h =
    elim (Bool-cases
      (word_only_reg (aligned offset) && (not (offset % 4 == 0) || not (size == 4)))) [
        | inl e ↦ rw e h
        | inr n ↦ rw n (write_word-IsFixed s (aligned offset) _ (omega arith) h)
      ]

notify-IsFixed : (s : Cpm) → IsFixed s → IsFixed (notify s)
unfolding IsFixed
notify-IsFixed s h reg r = ground (arith, h reg r)

-- The bits that the registers can hold, by the index of the register: LCR the low 8, CLKGR the low 16,
-- SCR those of 0xffd0, I2SCDR the low 9, LPCDR those of 0x800007ff, MSCCDR the low 5, UHCCDR the low
-- 4, SSICDR those of 0x8000000f, and CPPCR those of 0xffff07ff, of which PLLS (bit 10) repeats PLLEN
-- (bit 8).
pub record IsMasked (s : Cpm) : Type 0 where
  pub lcr : s.regs 1 < 2 ^ 8
  pub clkgr : s.regs 8 < 2 ^ 16
  pub scr : bit_and (s.regs 9) 0xffd0 ≡ s.regs 9
  pub i2scdr : s.regs 24 < 2 ^ 9
  pub lpcdr : bit_and (s.regs 25) 0x800007ff ≡ s.regs 25
  pub msccdr : s.regs 26 < 2 ^ 5
  pub uhccdr : s.regs 27 < 2 ^ 4
  pub ssicdr : bit_and (s.regs 29) 0x8000000f ≡ s.regs 29
  pub cppcr : bit_and (s.regs 4) 0xffff07ff ≡ s.regs 4
  pub pll : test_bit (s.regs 4) 10 ≡ test_bit (s.regs 4) 8

-- The register with PLLS, from its bits.
locked_again :
    (v : ℕ)
    → bit_and v 0xffff07ff ≡ v
    → test_bit v 10 ≡ test_bit v 8
    → lock_pll (bit_and v cppcr_rw_mask) ≡ v
locked_again v own pll =
    let m = bit_and v cppcr_rw_mask in
    let v-lt : v < 2 ^ 32 = rw⁻¹ own (masked-lt v 0xffff07ff (omega arith)) in
    let enabled : has m pllen ≡ test_bit v 8 =
      ground (arith, has-bit_and 8 v cppcr_rw_mask, bit_and-bit 8 v) in
    let bit : (i : ℕ) → test_bit v i ≡ (test_bit v i && test_bit 0xffff07ff i) =
      λ i. ap (λ (t : ℕ). test_bit t i) (sym own) ∙ test_bit-bit_and v 0xffff07ff i in
    elim (Bool-cases (test_bit v 8)) [
      | inl e ↦
          rw (enabled, e)
            (ext 32 _ v
              (bit_or-lt 32 m plls (masked-lt v cppcr_rw_mask (omega arith)) (omega arith)) v-lt
              (λ i p. elim (Bool-cases (10 == i)) [
                | inl same ↦
                    rw (← ==→eq 10 i same) (ground (arith, e, pll, test_bit-bit_or m plls 10))
                | inr apart ↦ ground (
                  arith,
                  bit i,
                  test_bit-bit_or m plls i,
                  test_bit-bit_and v cppcr_rw_mask i,
                  test_bit-bit_or cppcr_rw_mask plls i,
                  test_bit-pow 10 i,
                )
              ]))
      | inr n ↦
          rw (enabled, n)
            (ext 32 m v (masked-lt v cppcr_rw_mask (omega arith)) v-lt (λ i p.
              elim (Bool-cases (10 == i)) [
                | inl same ↦
                    rw (← ==→eq 10 i same)
                      (ground (arith, n, pll, test_bit-bit_and v cppcr_rw_mask 10))
                | inr apart ↦ ground (
                  arith,
                  bit i,
                  test_bit-bit_and v cppcr_rw_mask i,
                  test_bit-bit_or cppcr_rw_mask plls i,
                  test_bit-pow 10 i,
                )
              ]))
    ]

low_bits : (w v : ℕ) → v < 2 ^ w → bit_and v (2 ^ w - 1) ≡ v
low_bits w v h = grind (arith, bit_and-ones w v)

IsMasked-IsFixed : (s : Cpm) → IsMasked s → IsFixed s
unfolding IsFixed mask_write
IsMasked-IsFixed s h reg r = elim (Bool-cases (reg == 0x00)) [
  | inl e ↦ rw e refl
  | inr n ↦ rw n (elim (Bool-cases (reg == 0x04)) [
    | inl e ↦ rw (e, ==→eq reg 0x04 e) (low_bits 8 (s.regs 1) h.lcr)
    | inr n ↦ rw n (elim (Bool-cases (reg == 0x10)) [
      | inl e ↦ rw (e, ==→eq reg 0x10 e) (locked_again (s.regs 4) h.cppcr h.pll)
      | inr n ↦ rw n (elim (Bool-cases (reg == 0x20)) [
        | inl e ↦ rw (e, ==→eq reg 0x20 e) (low_bits 16 (s.regs 8) h.clkgr)
        | inr n ↦ rw n (elim (Bool-cases (reg == 0x24)) [
          | inl e ↦ rw (e, ==→eq reg 0x24 e) (h.scr)
          | inr n ↦ rw n (elim (Bool-cases (reg == 0x60)) [
            | inl e ↦ rw (e, ==→eq reg 0x60 e) (low_bits 9 (s.regs 24) h.i2scdr)
            | inr n ↦ rw n (elim (Bool-cases (reg == 0x64)) [
              | inl e ↦ rw (e, ==→eq reg 0x64 e) (h.lpcdr)
              | inr n ↦ rw n (elim (Bool-cases (reg == 0x68)) [
                | inl e ↦ rw (e, ==→eq reg 0x68 e) (low_bits 5 (s.regs 26) h.msccdr)
                | inr n ↦ rw n (elim (Bool-cases (reg == 0x6c)) [
                  | inl e ↦ rw (e, ==→eq reg 0x6c e) (low_bits 4 (s.regs 27) h.uhccdr)
                  | inr n ↦ rw n (elim (Bool-cases (reg == 0x74)) [
                    | inl e ↦ rw (e, ==→eq reg 0x74 e) (h.ssicdr)
                    | inr n ↦ rw n (refl)
                  ])
                ])
              ])
            ])
          ])
        ])
      ])
    ])
  ])
]

-- The states that are restored hold no other bits either.
abbrev pub WasMasked : Op → Type 0
WasMasked (load saved) = IsMasked saved
WasMasked (mmio_write offset value size) = Unit

abbrev pub WereMasked : List Op → Type 0
WereMasked [] = Unit
WereMasked (op ∷ ops) = WasMasked op × WereMasked ops

restore-IsFixed : (s saved : Cpm) → IsFixed saved → IsFixed (restore s saved)
unfolding IsFixed
restore-IsFixed s saved h reg r = h reg r

step-IsFixed : (s : Cpm) (op : Op) → WasMasked op → IsFixed s → IsFixed (step s op)
unfolding step
step-IsFixed s (mmio_write offset value size) q h = write-IsFixed s offset value size h
step-IsFixed s (load saved) q h =
    notify-IsFixed (restore s saved) (restore-IsFixed s saved (IsMasked-IsFixed saved q))

run-IsFixed : (s : Cpm) (ops : List Op) → WereMasked ops → IsFixed s → IsFixed (run s ops)
unfolding run
run-IsFixed s [] q h = h
run-IsFixed s (op ∷ ops) q h = run-IsFixed (step s op) ops q.1 (step-IsFixed s op q.0 h)

run-reset-IsFixed : (s : Cpm) (ops : List Op) → WereMasked ops → IsFixed (run (reset s) ops)
unfolding reset IsFixed
run-reset-IsFixed s ops q =
    run-IsFixed _ ops q (notify-IsFixed (record s { regs = reset_value }) reset_value-IsFixed)

locked : (a : ℕ) → let v = lock_pll (bit_and a cppcr_rw_mask) in has v plls ≡ has v pllen
locked a =
    let m = bit_and a cppcr_rw_mask in
    elim (Bool-cases (has m pllen)) [
      | inl e ↦ rw e (ground (arith, has-bit_or 10 m plls, has-bit_or 8 m plls))
      | inr n ↦ rw n (ground (arith, has-bit_and 10 a cppcr_rw_mask))
    ]

locked_bits :
    (a : ℕ) → bit_and (lock_pll (bit_and a 0xffff03ff)) 0xffff07ff ≡ lock_pll (bit_and a 0xffff03ff)
locked_bits a =
    let m = bit_and a cppcr_rw_mask in
    let kept : bit_and m 0xffff07ff ≡ m =
      ext 32 _ _ (masked-lt m 0xffff07ff (omega arith)) (masked-lt a cppcr_rw_mask (omega arith))
        (λ i p. ground (
          arith,
          test_bit-bit_and m 0xffff07ff i,
          test_bit-bit_and a cppcr_rw_mask i,
          test_bit-bit_or cppcr_rw_mask plls i,
        )) in
    let raised : bit_and (bit_or m plls) 0xffff07ff ≡ bit_or m plls =
      ext 32 _ _ (masked-lt (bit_or m plls) 0xffff07ff (omega arith))
        (bit_or-lt 32 m plls (masked-lt a cppcr_rw_mask (omega arith)) (omega arith))
        (λ i p. ground (
          arith,
          test_bit-bit_and (bit_or m plls) 0xffff07ff i,
          test_bit-bit_or m plls i,
          test_bit-bit_and a cppcr_rw_mask i,
          test_bit-bit_or cppcr_rw_mask plls i,
        )) in
    elim (Bool-cases (has m pllen)) [ inl e ↦ rw e raised | inr n ↦ rw n kept ]

below : (w v : ℕ) → bit_and v (2 ^ w - 1) ≡ v → v < 2 ^ w
below w v h = omega (arith, bit_and-ones w v, one-le-pow w 2)

-- After a reset, whatever was written and whatever saved states that hold no other bits either were
-- restored, the registers hold no other bits than those that can be written: the read-only bits are clear, and the PLL counts as stable exactly while it is enabled.
pub run-reset-IsMasked : (s : Cpm) (ops : List Op) → WereMasked ops → IsMasked (run (reset s) ops)
unfolding IsFixed mask_write
run-reset-IsMasked s ops q =
    let fixed = run-reset-IsFixed s ops q in
    let v = (run (reset s) ops).regs 4 in
    let own : lock_pll (bit_and v cppcr_rw_mask) ≡ v = fixed 0x10 refl in
    record {
      lcr = below 8 _ (fixed 0x04 refl);
      clkgr = below 16 _ (fixed 0x20 refl);
      scr = fixed 0x24 refl;
      i2scdr = below 9 _ (fixed 0x60 refl);
      lpcdr = fixed 0x64 refl;
      msccdr = below 5 _ (fixed 0x68 refl);
      uhccdr = below 4 _ (fixed 0x6c refl);
      ssicdr = fixed 0x74 refl;
      cppcr = ap (λ (t : ℕ). bit_and t 0xffff07ff) (sym own) ∙ locked_bits v ∙ own;
      pll = ground (arith, rw own at (locked v), bit_and-bit 10 v, bit_and-bit 8 v);
    }
