-- ===== src/Ecc/Parity.antt =====
-- The exponents of the codec, and the packed parity.
use bbk9588_emulator.Base.{
  ℕ, zero, suc, ◌+◌, ◌*◌, ◌/◌, ◌%◌, ◌^◌, ◌-◌, ◌≤◌, ◌<◌, ◌≡◌, refl, arith, bit_and, bit_or, ◌==◌,
  leb, if◌then◌else◌, Bool-cases, inl, inr, ◌∙◌, ap,
}
use bbk9588_emulator.Bits.{bit_or-field, bit_and-ones}
use bbk9588_emulator.Ecc.{
  nn, modnn_loop, rs_modnn, par_of, pack_low, pack_high, pack_parity, load_le, unpack_field,
  unpack_parity,
}

modnn_loop_lem : (left value : ℕ) → value ≤ left → modnn_loop left value ≡ value % nn
unfolding modnn_loop
modnn_loop_lem zero value h = omega arith
modnn_loop_lem (suc left) value h = elim (Bool-cases (leb nn value)) [
  | inl more ↦ rw more (modnn_loop_lem left (value - nn) (omega arith) ∙ ground arith)
  | inr done ↦ rw done (ground arith)
]

-- The loop that reduces an exponent ends, with the remainder by 511.
pub rs_modnn_lem : (value : ℕ) → rs_modnn value ≡ value % 511
unfolding rs_modnn
rs_modnn_lem value = modnn_loop_lem value value (omega arith)

low_sum :
    (par : ℕ → ℕ)
    → par 7 < 2 ^ 9
    → par 6 < 2 ^ 9
    → par 5 < 2 ^ 9
    → pack_low par ≡ par 7 + par 6 * 2 ^ 9 + par 5 * 2 ^ 18 + par 4 % 32 * 2 ^ 27
unfolding pack_low
low_sum par a b c =
    rw
      (
        bit_and-ones 5 (par 4),
        bit_or-field 9 (par 7) (par 6) a,
        bit_or-field 18 (par 7 + par 6 * 2 ^ 9) (par 5) (omega arith),
        bit_or-field 27 (par 7 + par 6 * 2 ^ 9 + par 5 * 2 ^ 18) (par 4 % 32) (omega arith),
      )
      refl

high_sum :
    (par : ℕ → ℕ)
    → par 3 < 2 ^ 9
    → par 2 < 2 ^ 9
    → par 1 < 2 ^ 9
    → pack_high par
      ≡ par 4 / 2 ^ 5 % 16 + par 3 * 2 ^ 4 + par 2 * 2 ^ 13 + par 1 * 2 ^ 22 + par 0 % 2 * 2 ^ 31
unfolding pack_high
high_sum par a b c =
    rw
      (
        bit_and-ones 4 (par 4 / 2 ^ 5),
        bit_and-ones 1 (par 0),
        bit_or-field 4 (par 4 / 2 ^ 5 % 16) (par 3) (omega arith),
        bit_or-field 13 (par 4 / 2 ^ 5 % 16 + par 3 * 2 ^ 4) (par 2) (omega arith),
        bit_or-field 22 (par 4 / 2 ^ 5 % 16 + par 3 * 2 ^ 4 + par 2 * 2 ^ 13) (par 1) (omega arith),
        bit_or-field 31 (par 4 / 2 ^ 5 % 16 + par 3 * 2 ^ 4 + par 2 * 2 ^ 13 + par 1 * 2 ^ 22)
            (par 0 % 2) (omega arith),
      )
      refl

load_sum :
    (packed : ℕ → ℕ) (i : ℕ)
    → packed i < 2 ^ 8
    → packed (i + 1) < 2 ^ 8
    → packed (i + 2) < 2 ^ 8
    → load_le packed i
      ≡ packed i + packed (i + 1) * 2 ^ 8 + packed (i + 2) * 2 ^ 16 + packed (i + 3) * 2 ^ 24
load_sum packed i a b c =
    rw
      (
        bit_or-field 8 (packed i) (packed (i + 1)) a,
        bit_or-field 16 (packed i + packed (i + 1) * 2 ^ 8) (packed (i + 2)) (omega arith),
        bit_or-field 24 (packed i + packed (i + 1) * 2 ^ 8 + packed (i + 2) * 2 ^ 16)
            (packed (i + 3)) (omega arith),
      )
      refl

load_low :
    (parity : ℕ → ℕ)
    → pack_low (par_of parity) < 2 ^ 32
    → load_le (pack_parity parity) 0 ≡ pack_low (par_of parity)
unfolding pack_parity
load_low parity h =
    load_sum (pack_parity parity) 0 (omega arith) (omega arith) (omega arith) ∙ omega arith

load_high :
    (parity : ℕ → ℕ)
    → pack_high (par_of parity) < 2 ^ 32
    → load_le (pack_parity parity) 4 ≡ pack_high (par_of parity)
unfolding pack_parity
load_high parity h =
    load_sum (pack_parity parity) 4 (omega arith) (omega arith) (omega arith) ∙ omega arith

field_lem :
    (a0 a1 a2 a3 a4 a5 a6 a7 : ℕ)
    → a0 < 2 ^ 9
    → a1 < 2 ^ 9
    → a2 < 2 ^ 9
    → a3 < 2 ^ 9
    → a4 < 2 ^ 9
    → a5 < 2 ^ 9
    → a6 < 2 ^ 9
    → a7 < 2 ^ 9
    → let low = a7 + a6 * 2 ^ 9 + a5 * 2 ^ 18 + a4 % 32 * 2 ^ 27 in
      let high = a4 / 2 ^ 5 % 16 + a3 * 2 ^ 4 + a2 * 2 ^ 13 + a1 * 2 ^ 22 + a0 % 2 * 2 ^ 31 in
      (bit_and low nn ≡ a7)
      × (bit_and (low / 2 ^ 9) nn ≡ a6)
      × (bit_and (low / 2 ^ 18) nn ≡ a5)
      × (bit_or (bit_and (low / 2 ^ 27) 0x1f) (bit_and high 0x0f * 2 ^ 5) ≡ a4)
      × (bit_and (high / 2 ^ 4) nn ≡ a3)
      × (bit_and (high / 2 ^ 13) nn ≡ a2)
      × (bit_and (high / 2 ^ 22) nn ≡ a1)
      × (bit_or (bit_and (high / 2 ^ 31) 1) (a0 / 2 * 2) ≡ a0)
field_lem a0 a1 a2 a3 a4 a5 a6 a7 h0 h1 h2 h3 h4 h5 h6 h7 =
    let low = a7 + a6 * 2 ^ 9 + a5 * 2 ^ 18 + a4 % 32 * 2 ^ 27 in
    let high = a4 / 2 ^ 5 % 16 + a3 * 2 ^ 4 + a2 * 2 ^ 13 + a1 * 2 ^ 22 + a0 % 2 * 2 ^ 31 in
    (
      omega (arith, bit_and-ones 9 low),
      omega (arith, bit_and-ones 9 (low / 2 ^ 9)),
      omega (arith, bit_and-ones 9 (low / 2 ^ 18)),
      rw
          (
            bit_and-ones 5 (low / 2 ^ 27),
            bit_and-ones 4 high,
            bit_or-field 5 (low / 2 ^ 27 % 32) (high % 16) (omega arith),
          )
          (omega arith),
      omega (arith, bit_and-ones 9 (high / 2 ^ 4)),
      omega (arith, bit_and-ones 9 (high / 2 ^ 13)),
      omega (arith, bit_and-ones 9 (high / 2 ^ 22)),
      rw (bit_and-ones 1 (high / 2 ^ 31), bit_or-field 1 (high / 2 ^ 31 % 2) (a0 / 2) (omega arith))
          (omega arith),
    )

par-lt : (parity : ℕ → ℕ) (i : ℕ) → par_of parity i < 2 ^ 9
par-lt parity i = omega (arith, bit_and-ones 9 (parity (7 - i)))

pick :
    (par : ℕ → ℕ) (x7 x6 x5 x4 x3 x2 x1 x0 : ℕ)
    → x7 ≡ par 7
    → x6 ≡ par 6
    → x5 ≡ par 5
    → x4 ≡ par 4
    → x3 ≡ par 3
    → x2 ≡ par 2
    → x1 ≡ par 1
    → x0 ≡ par 0
    → (j : ℕ) → j < 8
    → (if j == 7
        then x7
        else if j == 6
        then x6
        else if j == 5
        then x5
        else if j == 4
        then x4
        else if j == 3
        then x3
        else if j == 2
        then x2
        else if j == 1
        then x1
        else x0)
      ≡ par j
pick par x7 x6 x5 x4 x3 x2 x1 x0 e7 e6 e5 e4 e3 e2 e1 e0 zero h = e0
pick par x7 x6 x5 x4 x3 x2 x1 x0 e7 e6 e5 e4 e3 e2 e1 e0 (suc zero) h = e1
pick par x7 x6 x5 x4 x3 x2 x1 x0 e7 e6 e5 e4 e3 e2 e1 e0 (suc (suc zero)) h = e2
pick par x7 x6 x5 x4 x3 x2 x1 x0 e7 e6 e5 e4 e3 e2 e1 e0 (suc (suc (suc zero))) h = e3
pick par x7 x6 x5 x4 x3 x2 x1 x0 e7 e6 e5 e4 e3 e2 e1 e0 (suc (suc (suc (suc zero)))) h = e4
pick par x7 x6 x5 x4 x3 x2 x1 x0 e7 e6 e5 e4 e3 e2 e1 e0 (suc (suc (suc (suc (suc zero))))) h = e5
pick par x7 x6 x5 x4 x3 x2 x1 x0 e7 e6 e5 e4 e3 e2 e1 e0 (suc (suc (suc (suc (suc (suc zero))))))
      h =
    e6
pick par x7 x6 x5 x4 x3 x2 x1 x0 e7 e6 e5 e4 e3 e2 e1 e0
      (suc (suc (suc (suc (suc (suc (suc zero))))))) h =
    e7
pick par x7 x6 x5 x4 x3 x2 x1 x0 e7 e6 e5 e4 e3 e2 e1 e0
      (suc (suc (suc (suc (suc (suc (suc (suc j)))))))) h =
    absurd (omega arith)

unpacked :
    (parity : ℕ → ℕ) (j : ℕ)
    → j < 8
    → unpack_field
        (load_le (pack_parity parity) 0)
        (load_le (pack_parity parity) 4)
        (pack_parity parity 8)
        j
      ≡ par_of parity j
unfolding unpack_field pack_parity
unpacked parity j h =
    let par = par_of parity in
    let low = low_sum par (par-lt parity 7) (par-lt parity 6) (par-lt parity 5) in
    let high = high_sum par (par-lt parity 3) (par-lt parity 2) (par-lt parity 1) in
    let l =
      load_low parity (
        omega (
          arith,
          low,
          par-lt parity 0,
          par-lt parity 1,
          par-lt parity 2,
          par-lt parity 3,
          par-lt parity 4,
          par-lt parity 5,
          par-lt parity 6,
          par-lt parity 7,
        ))
      ∙ low in
    let m =
      load_high parity (
        omega (
          arith,
          high,
          par-lt parity 0,
          par-lt parity 1,
          par-lt parity 2,
          par-lt parity 3,
          par-lt parity 4,
          par-lt parity 5,
          par-lt parity 6,
          par-lt parity 7,
        ))
      ∙ high in
    let f =
      field_lem (par 0) (par 1) (par 2) (par 3) (par 4) (par 5) (par 6) (par 7) (par-lt parity 0)
        (par-lt parity 1) (par-lt parity 2) (par-lt parity 3) (par-lt parity 4) (par-lt parity 5)
        (par-lt parity 6) (par-lt parity 7) in
    rw (l, m) (pick par _ _ _ _ _ _ _ _ f.0 f.1 f.2 f.3 f.4 f.5 f.6 f.7 j h)

-- The eight parity symbols survive packing into nine bytes: unpacking gives back the low nine bits of
-- each.
pub unpack_parity-pack_parity :
    (parity : ℕ → ℕ) (i : ℕ) → i < 8 → unpack_parity (pack_parity parity) i ≡ parity i % 2 ^ 9
unfolding unpack_parity
unpack_parity-pack_parity parity i h =
    let back : 7 - (7 - i) ≡ i = omega arith in
    unpacked parity (7 - i) (omega arith)
    ∙ bit_and-ones 9 (parity (7 - (7 - i)))
    ∙ ap (λ (k : ℕ). parity k % 2 ^ 9) back
