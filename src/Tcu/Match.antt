-- ===== src/Tcu/Match.antt =====
-- The distance to the next match, tcu_ticks_until_match, against the count that wraps at the full
-- comparator.
use native.Mathlib.Nat.{mod-eq_of_lt, mod-eq-sub-mod}
use bbk9588_emulator.Base.{
  ℕ, ◌+◌, ◌%◌, ◌^◌, ◌-◌, ◌≤◌, ◌<◌, ◌≡◌, ◌≢◌, refl, arith, false, ◌||◌, ◌==◌, ltb, if◌then◌else◌,
  inl, inr, Bool-cases, ◌∙◌,
}
use bbk9588_emulator.Tcu.Counter.{HostUtils, Tcu, low16, current_counter}
use bbk9588_emulator.Tcu.Deadline.{ticks_until_match}

wrap : (n k : ℕ) → 0 < n → k < n + n → k % n ≡ (if ltb k n then k else k - n)
wrap n k p h = elim (Bool-cases (ltb k n)) [
  | inl small ↦ rw small (mod-eq_of_lt (ground arith))
  | inr large ↦ rw large (mod-eq-sub-mod (ground arith) ∙ mod-eq_of_lt (ground arith))
]

-- the same on variables
distance : ℕ → ℕ → ℕ → ℕ
distance full current target =
    if target == full
    then (if ltb current full then full - current else full)
    else if ltb current target
    then target - current
    else (full + 2 ^ 64 - current + target) % 2 ^ 64

distance_lem :
    (full current target : ℕ)
    → full < 2 ^ 16
    → target ≤ full
    → current < full
    → let ticks = distance full current target in
      (0 < ticks) × (ticks ≤ full) × ((current + ticks) % full ≡ target % full)
unfolding distance
distance_lem full current target w h k =
    ground (arith, wrap full (current + distance full current target), wrap full target)

distance_first :
    (full current target j : ℕ)
    → full < 2 ^ 16
    → target ≤ full
    → current < full
    → 0 < j
    → j < distance full current target
    → (current + j) % full ≢ target % full
unfolding distance
distance_first full current target j w h k p q e =
    ground (arith, wrap full (current + j), wrap full target)

until_distance :
    (host : HostUtils) (s : Tcu) (channel target now_ns : ℕ)
    → target ≤ low16 (s.compare channel)
    → current_counter host s channel now_ns < low16 (s.compare channel)
    → ticks_until_match host s channel target now_ns
      ≡ distance (low16 (s.compare channel)) (current_counter host s channel now_ns) target
unfolding ticks_until_match distance
until_distance host s channel target now_ns h k =
    let e : (low16 (s.compare channel) == 0 || ltb (low16 (s.compare channel)) target) ≡ false =
      ground arith in
    rw e refl

-- The count that starts at `current` and wraps at the full comparator shows the target after
-- `tcu_ticks_until_match` ticks, which are at least one and at most one whole round. The target must
-- be at most the full comparator, and the count below it.
pub ticks_until_match_lem :
    (host : HostUtils) (s : Tcu) (channel target now_ns : ℕ)
    → target ≤ low16 (s.compare channel)
    → current_counter host s channel now_ns < low16 (s.compare channel)
    → let full = low16 (s.compare channel) in
      let current = current_counter host s channel now_ns in
      let ticks = ticks_until_match host s channel target now_ns in
      (0 < ticks) × (ticks ≤ full) × ((current + ticks) % full ≡ target % full)
ticks_until_match_lem host s channel target now_ns h k =
    rw (until_distance host s channel target now_ns h k) (
      distance_lem (low16 (s.compare channel)) (current_counter host s channel now_ns) target
        (omega arith) h k)

-- Under the same conditions, no smaller positive number of ticks brings the count to the target.
pub ticks_until_match_first :
    (host : HostUtils) (s : Tcu) (channel target now_ns j : ℕ)
    → target ≤ low16 (s.compare channel)
    → current_counter host s channel now_ns < low16 (s.compare channel)
    → 0 < j
    → j < ticks_until_match host s channel target now_ns
    → (current_counter host s channel now_ns + j) % low16 (s.compare channel)
      ≢ target % low16 (s.compare channel)
ticks_until_match_first host s channel target now_ns j h k p q =
    distance_first (low16 (s.compare channel)) (current_counter host s channel now_ns) target j
      (omega arith) h k p (omega (arith, q, until_distance host s channel target now_ns h k))
