-- ===== src/Tcu/Schedule.antt =====
-- The timer after tcu_schedule is set to the earliest deadline.
use bbk9588_emulator.Base.{
  before, ℕ, zero, suc, ◌<◌, ◌≡◌, refl, arith, Bool, true, false, not, ◌&&◌, ◌||◌, ◌==◌,
  if◌then◌else◌, inl, inr, ◌⊎◌, Bool-cases, sym, update, Option, some, none, ap, ==-self,
}
use bbk9588_emulator.Tcu.Counter.{HostUtils, Tcu, num_channels, for_each}
use bbk9588_emulator.Tcu.Deadline.{next_deadline_ns, sooner, schedule_channel, schedule}

-- A deadline that is armed is not earlier than the armed time `next`.
abbrev pub not_earlier : ℕ → ℕ → Bool
not_earlier deadline next = deadline == 0 || not (next == 0) && not (before deadline next)

not_earlier_self : (t : ℕ) → not_earlier t t ≡ true
not_earlier_self t = ground arith

not_earlier_trans :
    (d t u : ℕ) → not_earlier d t ≡ true → not_earlier t u ≡ true → not_earlier d u ≡ true
not_earlier_trans d t u h k = ground arith

sooner-first : (t next : ℕ) → not_earlier t (sooner t next) ≡ true
unfolding sooner
sooner-first t next = ground arith

sooner-second : (t next : ℕ) → not_earlier next (sooner t next) ≡ true
unfolding sooner
sooner-second t next = ground arith

sooner-or : (t next : ℕ) → (sooner t next ≡ t) ⊎ (sooner t next ≡ next)
unfolding sooner
sooner-or t next = elim (Bool-cases (not (t == 0) && (next == 0 || before t next))) [
  | inl first ↦ rw first (inl refl)
  | inr second ↦ rw second (inr refl)
]

-- A time is the deadline of one of the first `n` channels.
abbrev IsDeadline : ℕ → (ℕ → ℕ) → (ℕ → ℕ) → ℕ → Type 0
IsDeadline n full half t = (ch : ℕ) × (ch < n) × ((full ch ≡ t) ⊎ (half ch ≡ t))

carry :
    (n : ℕ) (d h : ℕ → ℕ) (full half t : ℕ)
    → IsDeadline n d h t
    → IsDeadline (suc n) (update d n full) (update h n half) t
carry n d h full half t (ch, p, e) =
    let other : (n == ch) ≡ false = ground arith in (ch, omega arith, rw other e)

met_step :
    (n : ℕ) (d h : ℕ → ℕ) (full half next : ℕ)
    → (next ≡ 0) ⊎ IsDeadline n d h next
    → (sooner half (sooner full next) ≡ 0)
      ⊎ IsDeadline (suc n) (update d n full) (update h n half) (sooner half (sooner full next))
met_step n d h full half next m = elim (sooner-or half (sooner full next)) [
  | inl e ↦ inr (n, omega arith, inr (rw (==-self n) (sym e)))
  | inr e ↦ rw e (elim (sooner-or full next) [
    | inl e2 ↦ inr (n, omega arith, inl (rw (==-self n) (sym e2)))
    | inr e2 ↦ rw e2 (elim m [ inl z ↦ inl z | inr w ↦ inr (carry n d h full half next w) ])
  ])
]

-- What the loop knows of the variable `next_deadline` after `n` rounds.
record IsEarliest (n : ℕ) (s : Tcu) (next : ℕ) : Type 0 where
  full : (ch : ℕ) → ch < n → not_earlier (s.deadline_ns ch) next ≡ true
  half : (ch : ℕ) → ch < n → not_earlier (s.half_deadline_ns ch) next ≡ true
  met : (next ≡ 0) ⊎ IsDeadline n s.deadline_ns s.half_deadline_ns next

earliest :
    (host : HostUtils) (now_ns n : ℕ) (s : Tcu)
    → let r = for_each n (schedule_channel host now_ns) (s, 0) in IsEarliest n r.0 r.1
unfolding schedule_channel
earliest host now_ns zero s = record {
  full = λ ch p. absurd (omega arith);
  half = λ ch p. absurd (omega arith);
  met = inl refl;
}
earliest host now_ns (suc n) s =
    let r = for_each n (schedule_channel host now_ns) (s, 0) in
    let ih = earliest host now_ns n s in
    let full = next_deadline_ns host r.0 n false now_ns in
    let half = next_deadline_ns host r.0 n true now_ns in
    let middle = sooner full r.1 in
    let best = sooner half middle in
    let on : not_earlier middle best ≡ true = sooner-second half middle in
    let old : not_earlier r.1 best ≡ true =
      not_earlier_trans r.1 middle best (sooner-second full r.1) on in
    record {
      full = λ ch p. elim (Bool-cases (n == ch)) [
        | inl this ↦ rw this (not_earlier_trans full middle best (sooner-first full r.1) on)
        | inr other ↦ rw other (not_earlier_trans _ r.1 best (ih.full ch (ground arith)) old)
      ];
      half = λ ch p. elim (Bool-cases (n == ch)) [
        | inl this ↦ rw this (sooner-first half middle)
        | inr other ↦ rw other (not_earlier_trans _ r.1 best (ih.half ch (ground arith)) old)
      ];
      met = met_step n r.0.deadline_ns r.0.half_deadline_ns full half r.1 ih.met;
    }

-- The timer does not come after an armed deadline.
abbrev pub covers : Option ℕ → ℕ → Bool
covers none deadline = deadline == 0
covers (some t) deadline = not_earlier deadline t

abbrev timer_of : ℕ → Option ℕ
timer_of next = if next == 0 then none else some next

covers-timer_of :
    (deadline next : ℕ) → not_earlier deadline next ≡ true → covers (timer_of next) deadline ≡ true
covers-timer_of deadline next h = elim (Bool-cases (next == 0)) [
  | inl off ↦ rw off (ground arith)
  | inr on ↦ rw on h
]

timer_of-met :
    (n next : ℕ) (d h : ℕ → ℕ)
    → (next ≡ 0) ⊎ IsDeadline n d h next
    → (timer_of next ≡ none)
      ⊎ ((c : ℕ) × (c < n) × ((timer_of next ≡ some (d c)) ⊎ (timer_of next ≡ some (h c))))
timer_of-met n next d h m = elim (Bool-cases (next == 0)) [
  | inl off ↦ inl (rw off refl)
  | inr on ↦ elim m [
    | inl z ↦ inl (rw z refl)
    | inr (c, p, inl e) ↦ inr (c, p, inl (rw on (ap some (sym e))))
    | inr (c, p, inr e) ↦ inr (c, p, inr (rw on (ap some (sym e))))
  ]
]

-- After `tcu_schedule` the timer covers both deadlines of each of the eight channels: it is off
-- only if they are off, and an armed deadline is not earlier than it. If it is on, it is one of the
-- deadlines.
pub schedule_lem :
    (host : HostUtils) (s : Tcu) (now_ns ch : ℕ)
    → ch < num_channels
    → let s' = schedule host s now_ns in
      (covers s'.timer (s'.deadline_ns ch) ≡ true)
      × (covers s'.timer (s'.half_deadline_ns ch) ≡ true)
      × ((s'.timer ≡ none)
          ⊎ ((c : ℕ) × (c < num_channels)
              × ((s'.timer ≡ some (s'.deadline_ns c)) ⊎ (s'.timer ≡ some (s'.half_deadline_ns c)))))
unfolding schedule
schedule_lem host s now_ns ch c =
    let r = for_each num_channels (schedule_channel host now_ns) (s, 0) in
    let e = earliest host now_ns num_channels s in
    (
      covers-timer_of _ r.1 (e.full ch c),
      covers-timer_of _ r.1 (e.half ch c),
      timer_of-met num_channels r.1 r.0.deadline_ns r.0.half_deadline_ns e.met,
    )
