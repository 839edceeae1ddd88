-- ===== src/Intc/Coherent.antt =====
-- The interrupt line follows the pending and the mask register through every operation.
use bbk9588_emulator.Base.{
  ℕ, ◌%◌, ◌^◌, ◌<◌, ◌≡◌, ◌≢◌, ◌↔◌, refl, bit_and, arith, Bool, true, false, not, ◌==◌, leb, inl,
  inr, Bool-cases, List, [], ◌∷◌,
}
use bbk9588_emulator.Irq.{IsDriven, drive_change-IsDriven}
use bbk9588_emulator.Bits.{
  test_bit, ext, test_bit-bit_and, test_bit-not32, test_bit-zero, some_bit, bit_and-le, bit_or-lt,
  not32, pow-lt,
}
use bbk9588_emulator.Mmio.{aligned}
use bbk9588_emulator.Mmio.Lanes.{lane_value-lt}
use bbk9588_emulator.Intc.{
  Intc, num_irqs, source_mask, update_line, set_irq, set_pending_mask, read, write, reset_hold,
  write_mask, set_level, Op, input, pending_mask, mmio_read, mmio_write, step, run,
}

-- The registers are words of 32 bits, and what the processor's line carries is their consequence.
pub record IsCoherent (s : Intc) : Type 0 where
  pub pending_word : s.pending < 2 ^ 32
  pub mask_word : s.mask < 2 ^ 32
  pub wired : bit_and s.pending source_mask ≡ s.pending
  pub unmasked : s.unmasked_pending ≡ bit_and s.pending (not32 s.mask)
  pub level : s.output_level ≡ not (s.unmasked_pending == 0)

masked_twice :
    (a : ℕ) → a < 2 ^ 32 → bit_and (bit_and a source_mask) source_mask ≡ bit_and a source_mask
masked_twice a h =
    ext 32 (bit_and (bit_and a source_mask) source_mask) (bit_and a source_mask)
      (omega
        (arith, bit_and-le 32 (bit_and a source_mask) source_mask, bit_and-le 32 a source_mask))
      (omega (arith, bit_and-le 32 a source_mask))
      λ i p. ground (
        arith,
        test_bit-bit_and (bit_and a source_mask) source_mask i,
        test_bit-bit_and a source_mask i,
      )

pub update_line-IsCoherent :
    (s : Intc) → s.pending < 2 ^ 32 → s.mask < 2 ^ 32 → IsCoherent (update_line s)
unfolding update_line
update_line-IsCoherent s h k = record {
  pending_word = omega (arith, bit_and-le 32 s.pending source_mask);
  mask_word = k;
  wired = masked_twice s.pending h;
  unmasked = refl;
  level = refl;
}

pub update_line-IsDriven :
    (s : Intc)
    → IsDriven s.output s.output_level
    → IsDriven (update_line s).output (update_line s).output_level
unfolding update_line
update_line-IsDriven s h =
    drive_change-IsDriven s.output_level (update_line s).output_level s.output h

-- Both at once: what every operation keeps.
pub record IsReady (s : Intc) : Type 0 where
  pub coherent : IsCoherent s
  pub driven : IsDriven s.output s.output_level

ready :
    (s : Intc)
    → s.pending < 2 ^ 32
    → s.mask < 2 ^ 32
    → IsDriven s.output s.output_level
    → IsReady (update_line s)
ready s p m d = record {
  coherent = update_line-IsCoherent s p m;
  driven = update_line-IsDriven s d;
}

cleared-lt : (a b : ℕ) → a < 2 ^ 32 → bit_and a b < 2 ^ 32
cleared-lt a b h = omega (arith, bit_and-le 32 a b)

write_mask-lt :
    (mask reg lanes lane : ℕ)
    → mask < 2 ^ 32
    → lane < 2 ^ 32
    → write_mask mask reg lanes lane < 2 ^ 32
unfolding write_mask
write_mask-lt mask reg lanes lane h k = ground (
  arith,
  bit_or-lt 32 (bit_and mask (not32 lanes)) lane,
  bit_or-lt 32 mask lane,
  cleared-lt mask (not32 lane),
  cleared-lt mask (not32 lanes),
)

set_level-lt :
    (pending irq : ℕ) (level : Bool)
    → pending < 2 ^ 32
    → irq < 32
    → set_level pending (2 ^ irq) level < 2 ^ 32
set_level-lt pending irq true h k = bit_or-lt 32 pending (2 ^ irq) h (pow-lt 32 irq k)
set_level-lt pending irq false h k = cleared-lt pending (not32 (2 ^ irq)) h

pub set_irq-IsReady :
    (s : Intc) (irq : ℕ) (level : Bool) → IsReady s → IsReady (set_irq s irq level)
unfolding set_irq
set_irq-IsReady s irq level h = elim (Bool-cases (leb num_irqs irq)) [
  | inl out ↦ rw out h
  | inr inside ↦ rw inside (elim (Bool-cases (bit_and source_mask (2 ^ irq) == 0)) [
    | inl unwired ↦ rw unwired h
    | inr wired ↦ rw wired (
        ready _ (set_level-lt s.pending irq level h.coherent.pending_word (ground arith))
          h.coherent.mask_word h.driven)
  ])
]

pub set_pending_mask-IsReady :
    (s : Intc) (mask levels : ℕ)
    → mask < 2 ^ 32
    → levels < 2 ^ 32
    → IsReady s
    → IsReady (set_pending_mask s mask levels)
unfolding set_pending_mask
set_pending_mask-IsReady s mask levels m l h =
    ready _ (bit_or-lt 32 _ _ (cleared-lt _ _ h.coherent.pending_word) (cleared-lt _ _ l))
      h.coherent.mask_word h.driven

pub write-IsReady :
    (s : Intc) (offset value size : ℕ) → IsReady s → IsReady (write s offset value size)
unfolding write
write-IsReady s offset value size h =
    ready _ h.coherent.pending_word
      (write_mask-lt s.mask (aligned offset) _ _ h.coherent.mask_word
        (lane_value-lt offset size value))
      h.driven

-- The callback that the board installs keeps the controller ready.
pub read-IsReady :
    (refresh : Intc → Intc) (s : Intc) (offset size : ℕ)
    → ((t : Intc) → IsReady t → IsReady (refresh t))
    → IsReady s
    → IsReady (read refresh s offset size).1
unfolding read
read-IsReady refresh s offset size keep h =
    let r : IsReady (refresh s) = keep s h in
    let u : IsReady (update_line (refresh s)) =
      ready (refresh s) r.coherent.pending_word r.coherent.mask_word r.driven in
    record {
      coherent = record {
        pending_word = u.coherent.pending_word;
        mask_word = u.coherent.mask_word;
        wired = u.coherent.wired;
        unmasked = u.coherent.unmasked;
        level = u.coherent.level;
      };
      driven = u.driven;
    }

reset_hold-IsReady : IsReady reset_hold
unfolding reset_hold
reset_hold-IsReady = record {
  coherent = record {
    pending_word = omega arith;
    mask_word = omega arith;
    wired = refl;
    unmasked = refl;
    level = refl;
  };
  driven = record { alternates = tt; last = refl };
}

module _ (refresh : Intc → Intc) (keep : (t : Intc) → IsReady t → IsReady (refresh t)) where
  step-IsReady : (s : Intc) (op : Op) → IsReady s → IsReady (step refresh s op)
  unfolding step
  step-IsReady s (input irq level) h = set_irq-IsReady s irq level h
  step-IsReady s (pending_mask mask levels) h =
      set_pending_mask-IsReady s (mask % 2 ^ 32) (levels % 2 ^ 32) (omega arith) (omega arith) h
  step-IsReady s (mmio_read offset size) h = read-IsReady refresh s offset size keep h
  step-IsReady s (mmio_write offset value size) h = write-IsReady s offset value size h

  run-IsReady : (s : Intc) (ops : List Op) → IsReady s → IsReady (run refresh s ops)
  unfolding run
  run-IsReady s [] h = h
  run-IsReady s (op ∷ ops) h = run-IsReady (step refresh s op) ops (step-IsReady s op h)

  -- In every state that the controller reaches after a reset, whatever sequence of source levels,
  -- board updates, reads and writes it served: the registers are words, only wired sources are
  -- pending, the line's recorded level is what was driven last, and no level was driven twice in a
  -- row. The installed refresh callback must keep this itself.
  pub run-reset_hold-IsReady : (ops : List Op) → IsReady (run refresh reset_hold ops)
  run-reset_hold-IsReady ops = run-IsReady reset_hold ops reset_hold-IsReady

unmasked_source :
    (a m : ℕ)
    → a < 2 ^ 32
    → bit_and a (not32 m) ≢ 0
    → (i : ℕ) × (i < 32) × (test_bit a i ≡ true) × (test_bit m i ≡ false)
unmasked_source a m h n =
    let (i, p, q) = some_bit 32 (bit_and a (not32 m)) (cleared-lt a (not32 m) h) n in
    (
      i,
      p,
      ground (arith, test_bit-bit_and a (not32 m) i),
      ground (arith, test_bit-bit_and a (not32 m) i, test_bit-not32 m i p),
    )

-- In a coherent controller the line to the processor is high exactly if some source is pending and
-- not masked.
pub level_iff :
    {s : Intc}
    → IsCoherent s
    → (s.output_level ≡ true)
      ↔ ((i : ℕ) × (i < 32) × (test_bit s.pending i ≡ true) × (test_bit s.mask i ≡ false))
level_iff {s} h = (
  (λ high.
      unmasked_source s.pending s.mask h.pending_word λ none. ground (arith, h.level, h.unmasked)),
  λ w. ground (
    arith,
    h.level,
    h.unmasked,
    test_bit-bit_and s.pending (not32 s.mask) w.0,
    test_bit-not32 s.mask w.0,
    test_bit-zero w.0,
  ),
)
