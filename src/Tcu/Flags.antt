-- ===== src/Tcu/Flags.antt =====
-- The flags that a timer event sets.
use bbk9588_emulator.Base.{
  before, ℕ, zero, suc, ◌+◌, ◌^◌, ◌≤◌, ◌<◌, ◌≡◌, refl, arith, Bool, true, false, not, ◌&&◌, ◌||◌,
  ◌==◌, ltb, if◌then◌else◌, inl, inr, Bool-cases, ◌∙◌, bit_or, ap, ==→eq,
}
use bbk9588_emulator.Bits.{test_bit, test_bit-bit_or, test_bit-pow, test_bit-zero, bit_and-pow}
use bbk9588_emulator.Tcu.Counter.{Tcu, num_channels, for_each}
use bbk9588_emulator.Tcu.Deadline.{
  sync_irq, sync_output, is_due, flag_of, collect_due, newly_pending, raise_pending,
}

-- the number of a flag's bit
abbrev flag_bit : ℕ → Bool → ℕ
flag_bit ch half = if half then ch + 16 else ch

abbrev deadline_of : Tcu → ℕ → Bool → ℕ
deadline_of s ch half = if half then s.half_deadline_ns ch else s.deadline_ns ch

abbrev due : Tcu → ℕ → ℕ → Bool → Bool
due s now_ns ch half = is_due s (flag_of ch half) (deadline_of s ch half) now_ns

or_if :
    (b : Bool) (a k i : ℕ)
    → test_bit (if b then bit_or a (2 ^ k) else a) i ≡ (test_bit a i || ((k == i) && b))
or_if true a k i = ground (arith, test_bit-bit_or a (2 ^ k) i, test_bit-pow k i)
or_if false a k i = ground arith

same_due :
    (s : Tcu) (now_ns n ch : ℕ) (half : Bool)
    → ((n == ch) && due s now_ns n half) ≡ ((n == ch) && due s now_ns ch half)
same_due s now_ns n ch half = elim (Bool-cases (n == ch)) [
  | inl this ↦ rw this (ap (λ (c : ℕ). due s now_ns c half) (==→eq n ch this))
  | inr other ↦ rw other refl
]

tidy :
    (half : Bool) (n ch : ℕ) (a : Bool) (d : Bool → Bool)
    → n < 8
    → ch < 8
    → ((a || ((n == flag_bit ch half) && d false)) || ((n + 16 == flag_bit ch half) && d true))
      ≡ (a || ((n == ch) && d half))
tidy false n ch a d p q = ground arith
tidy true n ch a d p q = ground arith

one_round :
    (s : Tcu) (now_ns n ch acc : ℕ) (half : Bool)
    → n < 8
    → ch < 8
    → test_bit (collect_due s now_ns n acc) (flag_bit ch half)
      ≡ (test_bit acc (flag_bit ch half) || ((n == ch) && due s now_ns ch half))
one_round s now_ns n ch acc half p q =
    let full = if due s now_ns n false then bit_or acc (2 ^ n) else acc in
    let second = or_if (due s now_ns n true) full (n + 16) (flag_bit ch half) in
    let first = or_if (due s now_ns n false) acc n (flag_bit ch half) in
    second
    ∙ ap (λ (b : Bool). b || ((n + 16 == flag_bit ch half) && due s now_ns n true)) first
    ∙ tidy half n ch (test_bit acc (flag_bit ch half)) (due s now_ns n) p q
    ∙ ap (λ (b : Bool). test_bit acc (flag_bit ch half) || b) (same_due s now_ns n ch half)

collected :
    (s : Tcu) (now_ns n ch : ℕ) (half : Bool)
    → n ≤ 8
    → ch < 8
    → test_bit (for_each n (collect_due s now_ns) 0) (flag_bit ch half)
      ≡ (ltb ch n && due s now_ns ch half)
collected s now_ns zero ch half p q = test_bit-zero (flag_bit ch half) ∙ ground arith
collected s now_ns (suc n) ch half p q =
    one_round s now_ns n ch (for_each n (collect_due s now_ns) 0) half (omega arith) q
    ∙ ap (λ (b : Bool). b || ((n == ch) && due s now_ns ch half))
        (collected s now_ns n ch half (omega arith) q)
    ∙ widen n ch (due s now_ns ch half)
  where
    widen : (m c : ℕ) (b : Bool) → ((ltb c m && b) || ((m == c) && b)) ≡ (ltb c (suc m) && b)
    widen m c b = ground arith

flags_synced : (n : ℕ) (s : Tcu) → (for_each n sync_output s).pending_mask ≡ s.pending_mask
flags_synced zero s = refl
flags_synced (suc n) s = flags_synced n s

pending_raised :
    (s : Tcu) (now_ns i : ℕ)
    → test_bit (raise_pending s now_ns).pending_mask i
      ≡ (test_bit s.pending_mask i || test_bit (newly_pending s now_ns) i)
unfolding raise_pending sync_irq
pending_raised s now_ns i = elim (Bool-cases (newly_pending s now_ns == 0)) [
  | inl none_due ↦ rw none_due (
      let clear : test_bit (newly_pending s now_ns) i ≡ false =
        ap (λ (n : ℕ). test_bit n i) (==→eq (newly_pending s now_ns) 0 none_due)
        ∙ test_bit-zero i in
      rw clear (ground arith))
  | inr found ↦ rw found (test_bit-bit_or s.pending_mask (newly_pending s now_ns) i)
]

-- A timer event sets exactly the flags whose deadline is armed and has come, for the full and for
-- the half comparator of each of the eight channels, and clears none of these flags. The pending
-- register is a word.
pub raise_pending_lem :
    (s : Tcu) (now_ns ch : ℕ) (half : Bool)
    → s.pending_mask < 2 ^ 32
    → ch < num_channels
    → let flag = if half then ch + 16 else ch in
      let deadline = if half then s.half_deadline_ns ch else s.deadline_ns ch in
      test_bit (raise_pending s now_ns).pending_mask flag
      ≡ (test_bit s.pending_mask flag || (not (deadline == 0) && not (before now_ns deadline)))
unfolding newly_pending
raise_pending_lem s now_ns ch half h c = ground (
  arith,
  pending_raised s now_ns (flag_bit ch half),
  collected s now_ns 8 ch half (omega arith) c,
  bit_and-pow 32 s.pending_mask (flag_bit ch half) h,
)
