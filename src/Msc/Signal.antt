-- ===== src/Msc/Signal.antt =====
-- The interrupt line, the response queue and the pending request of qemu/overlay/hw/sd/jz4740_msc.c
-- through every operation.
use bbk9588_emulator.Base.{
  ℕ, zero, suc, ◌+◌, ◌/◌, ◌%◌, ◌≤◌, ◌≡◌, refl, arith, bit_and, Bool, false, ◌&&◌, ◌||◌, ◌==◌, ltb,
  if◌then◌else◌, Bool-cases, inl, inr, List, [], ◌∷◌, update,
}
use bbk9588_emulator.Irq.{IsDriven, drive_change-IsDriven}
use bbk9588_emulator.Bits.{has}
use bbk9588_emulator.Mmio.{aligned}
use bbk9588_emulator.Msc.State.{
  Msc, response_bytes, data_ready_mask, strpcl, imask, ireg, res, set_reg, line_level,
  interrupt_status, update_irq, start_command, select_command, prepare_response, next_byte,
  read_pairs, read_response, begin_dma, finish_dma,
}
use bbk9588_emulator.Msc.Registers.{
  outside, read, write_ireg, write_word, write, reset_hold, restore, post_load, Op, mmio_read,
  mmio_write, finish, load, step, run,
}

-- What holds whatever the registers say.
pub record IsBounded (s : Msc) : Type 0 where
  pub line : IsDriven s.output s.irq_level
  pub len : s.response_len ≤ response_bytes
  pub index : s.response_index ≤ s.response_len
  pub one : (s.read_pending && s.write_pending) ≡ false

-- The line follows the events as well.
pub record IsSound (s : Msc) : Type 0 where
  pub bounded : IsBounded s
  pub level : s.irq_level ≡ line_level s

update_irq-IsSound : (s : Msc) → IsBounded s → IsSound (update_irq s)
unfolding update_irq interrupt_status
update_irq-IsSound s h = record {
  bounded = record {
    line = drive_change-IsDriven s.irq_level (line_level s) s.output h.line;
    len = h.len;
    index = h.index;
    one = h.one;
  };
  level = refl;
}

select_command-IsBounded :
    (s : Msc) (command argument : ℕ)
    → s.read_pending ≡ false
    → s.write_pending ≡ false
    → IsBounded s
    → IsBounded (select_command s command argument)
unfolding select_command
select_command-IsBounded s command argument r w h = ground arith

start_command-IsBounded : (s : Msc) → IsBounded s → IsBounded (start_command s)
unfolding start_command
start_command-IsBounded s h = record {
  line = h.line;
  len = omega arith;
  index = omega arith;
  one = refl;
}

next_byte-IsSound : (s : Msc) → IsSound s → IsSound (next_byte s).1
unfolding next_byte interrupt_status
next_byte-IsSound s h = ground arith

read_pairs-IsSound :
    (pairs i value : ℕ) (s : Msc) → IsSound s → IsSound (read_pairs pairs i value s).1
unfolding read_pairs
read_pairs-IsSound zero i value s h = h
read_pairs-IsSound (suc pairs) i value s h =
    read_pairs-IsSound pairs (i + 2) _ _ (next_byte-IsSound _ (next_byte-IsSound s h))

read_response-IsSound : (s : Msc) (size : ℕ) → IsSound s → IsSound (read_response s size).1
unfolding read_response
read_response-IsSound s size h = elim (Bool-cases (ltb 1 size)) [
  | inl e ↦ rw e (read_pairs-IsSound ((size + 1) / 2) 0 0 s h)
  | inr n ↦ rw n (next_byte-IsSound s h)
]

read-IsSound : (s : Msc) (offset size : ℕ) → IsSound s → IsSound (read s offset size).1
unfolding read
read-IsSound s offset size h = elim (Bool-cases (outside offset size)) [
  | inl e ↦ rw e h
  | inr n ↦ rw n (elim (Bool-cases (offset == res)) [
    | inl e ↦ rw e (read_response-IsSound s size h)
    | inr n ↦ rw n h
  ])
]

-- A word that is no event and no mask leaves the line right.
kept :
    (s : Msc) (i word : ℕ)
    → (i == ireg / 4) ≡ false
    → (i == imask / 4) ≡ false
    → IsSound s
    → IsSound (record s { regs = update s.regs i word })
unfolding interrupt_status
kept s i word e m h = record {
  bounded = record {
    line = h.bounded.line;
    len = h.bounded.len;
    index = h.bounded.index;
    one = h.bounded.one;
  };
  level = rw (e, m) h.level;
}

pub finish_dma-IsSound : (s : Msc) (ready : Bool) → IsBounded s → IsSound (finish_dma s ready)
unfolding finish_dma
finish_dma-IsSound s ready h =
    update_irq-IsSound _ (record { line = h.line; len = h.len; index = h.index; one = refl })

-- Beginning a transfer only records it.
pub begin_dma-IsSound :
    (s : Msc) (channel source target words : ℕ)
    → IsSound s
    → IsSound (begin_dma s channel source target words).1
unfolding begin_dma interrupt_status
begin_dma-IsSound s channel source target words h = ground arith

-- The loader cuts the lengths and settles which request waits, whatever it was given.
post_load-IsSound : (s : Msc) → IsDriven s.output s.irq_level → IsSound (post_load s)
unfolding post_load
post_load-IsSound s h =
    update_irq-IsSound _
      (record { line = h; len = omega arith; index = omega arith; one = ground arith })

reset_hold-IsSound : (s : Msc) → IsSound (reset_hold s)
unfolding reset_hold interrupt_status
reset_hold-IsSound s = record {
  bounded = record {
    line = record { alternates = tt; last = refl };
    len = omega arith;
    index = omega arith;
    one = refl;
  };
  level = refl;
}

start_reads : (s : Msc) → (start_command s).read_pending ≡ false
unfolding start_command
start_reads s = refl

start_writes : (s : Msc) → (start_command s).write_pending ≡ false
unfolding start_command
start_writes s = refl

-- Neither the registers nor the calls of the command callback have a part in it.
moved :
    (s : Msc) (regs : ℕ → ℕ) (commands : List (ℕ × ℕ))
    → IsBounded s
    → IsBounded (record s { regs = regs; commands = commands })
moved s regs commands h = record { line = h.line; len = h.len; index = h.index; one = h.one }

module _ (kick : Msc → Msc) (kick-IsSound : (s : Msc) → IsSound s → IsSound (kick s)) where
  kicked : (v : Msc) → IsSound v → IsSound (if v.read_pending || v.write_pending then kick v else v)
  kicked v h = elim (Bool-cases (v.read_pending || v.write_pending)) [
    | inl e ↦ rw e (kick-IsSound v h)
    | inr n ↦ rw n h
  ]

  prepare-IsSound : (s : Msc) → IsBounded s → IsSound (prepare_response kick s)
  unfolding prepare_response
  prepare-IsSound s h =
      let t = start_command s in
      let u = select_command t t.last_command t.last_argument in
      let b =
        select_command-IsBounded t t.last_command t.last_argument (start_reads s) (start_writes s)
          (start_command-IsBounded s h) in
      kicked _ (
        update_irq-IsSound (record u { commands = (t.last_command, t.last_argument) ∷ u.commands })
          (moved u _ _ b))

  pub write_word-IsSound :
      (s : Msc) (at word : ℕ)
      → at % 4 ≡ 0
      → (at == ireg) ≡ false
      → IsSound s
      → IsSound (write_word kick s at word)
  unfolding write_word
  write_word-IsSound s at word a i h = elim (Bool-cases (at == imask)) [
    | inl e ↦ rw e (elim (Bool-cases (at == strpcl && bit_and word 0xffff == 0x06)) [
      | inl c ↦ ground arith
      | inr n ↦ rw n (update_irq-IsSound (set_reg s at word) (moved s _ _ h.bounded))
    ])
    | inr m ↦ rw m (elim (Bool-cases (at == strpcl && bit_and word 0xffff == 0x06)) [
      | inl c ↦ rw c (
          kept (prepare_response kick (set_reg s at word)) 1 _ refl refl
            (prepare-IsSound (set_reg s at word) (moved s _ _ h.bounded)))
      | inr n ↦ rw n (kept s (at / 4) word (ground arith) (ground arith) h)
    ])
  ]

  write_ireg-IsSound : (s : Msc) (lane : ℕ) → IsBounded s → IsSound (write_ireg s lane)
  unfolding write_ireg
  write_ireg-IsSound s lane h = elim (Bool-cases (has lane data_ready_mask)) [
    | inl e ↦
        rw e (
          update_irq-IsSound _
            (record { line = h.line; len = h.len; index = h.index; one = h.one }))
    | inr n ↦
        rw n (
          update_irq-IsSound _
            (record { line = h.line; len = h.len; index = h.index; one = h.one }))
  ]

  write-IsSound :
      (s : Msc) (offset value size : ℕ) → IsSound s → IsSound (write kick s offset value size)
  unfolding write
  write-IsSound s offset value size h = elim (Bool-cases (outside offset size)) [
    | inl e ↦ rw e h
    | inr n ↦ rw n (elim (Bool-cases (aligned offset == ireg)) [
      | inl e ↦ rw e (write_ireg-IsSound s _ h.bounded)
      | inr n ↦ rw n (elim (Bool-cases (aligned offset == res)) [
        | inl e ↦ rw e h
        | inr m ↦ rw m (write_word-IsSound s (aligned offset) _ (omega arith) n h)
      ])
    ])
  ]

  step-IsSound : (s : Msc) (op : Op) → IsSound s → IsSound (step kick s op)
  unfolding step
  step-IsSound s (mmio_read offset size) h = read-IsSound s offset size h
  step-IsSound s (mmio_write offset value size) h = write-IsSound s offset value size h
  step-IsSound s (finish ready) h = finish_dma-IsSound s ready h.bounded
  step-IsSound s (load saved) h = post_load-IsSound (restore s saved) h.bounded.line

  run-IsSound : (s : Msc) (ops : List Op) → IsSound s → IsSound (run kick s ops)
  unfolding run
  run-IsSound s [] h = h
  run-IsSound s (op ∷ ops) h = run-IsSound (step kick s op) ops (step-IsSound s op h)

  -- After a reset, whatever sequence of reads, writes, finished transfers and restores of any saved
  -- state the controller
  -- served, with a kick callback that keeps this: the line is high exactly while an event that is not
  -- masked is present, the recorded level is what was driven last and only changes were driven, the
  -- index of the response is within its length and that within the buffer, and no read and write of
  -- the card wait at once.
  pub run-reset_hold-IsSound : (s : Msc) (ops : List Op) → IsSound (run kick (reset_hold s) ops)
  run-reset_hold-IsSound s ops = run-IsSound (reset_hold s) ops (reset_hold-IsSound s)
