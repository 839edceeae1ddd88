-- ===== src/Nand/Flush/Progress.antt =====
-- No stored change is forgotten: while the backend lags behind, a flush is on its way.
use bbk9588_emulator.Base.{
  ℕ, ◌+◌, ◌%◌, ◌^◌, ◌≡◌, ◌≢◌, arith, Bool, true, false, if◌then◌else◌, ◌⊎◌, List, [], ◌∷◌, Option,
  none, some,
}
use bbk9588_emulator.Nand.State.{Nand, PWrite}
use bbk9588_emulator.Nand.Flush.{
  schedule_flush, flush_complete, flush_timer_cb, flush_now, cancel_flush, backend_update,
}

-- How many of the writes to the backend did not fail.
abbrev pub stored : List PWrite → ℕ
stored [] = 0
stored (w ∷ ws) = (if w.ok then 1 else 0) + stored ws

-- The device and what an observer of the backend knows: how many changes it had taken when the running
-- flush was started, and how many a flush that succeeded has made safe.
pub record Watched : Type 0 where
  pub device : Nand
  pub started : ℕ
  pub safe : ℕ

abbrev pub taken : Watched → ℕ
taken w = stored w.device.pwrites

-- The timer fires: if no flush is running yet, the one that starts covers what was stored.
abbrev pub fired : Watched → Watched
fired w = record w {
  device = flush_timer_cb w.device;
  started = if w.device.flush_acb then w.started else taken w;
}

-- A flush ends: if it did not fail, what was stored at its start is safe.
abbrev pub completed : Watched → Bool → Watched
completed w ok = record w {
  device = flush_complete w.device ok;
  safe = if ok then w.started else w.safe;
}

-- What happens to the backend: the device stores a change, the timer fires, a flush ends.
pub data Step (w : Watched) : Watched → Type 0 where
  store :
      (offset length : ℕ) (ok : Bool)
      → Step w (record w { device = backend_update w.device offset length ok })
  fire : w.device.flush_pending ≡ true → Step w (fired w)
  complete : w.device.flush_acb ≡ true → (ok : Bool) → Step w (completed w ok)

pub data Reach (w : Watched) : Watched → Type 0 where
  here : Reach w w
  next : {t u : Watched} → Reach w t → Step t u → Reach w u

-- A device with its timer and a backend that can be written, where every stored change is safe, or the
-- timer is armed, or a flush is running. Its generations count the changes from `base` on, as patterns
-- of 64 bits: what was stored, what is safe, and what the running flush covers.
pub record IsFlushing (base : ℕ) (w : Watched) : Type 0 where
  pub timer : w.device.has_flush_timer ≡ true
  pub writable : w.device.blk_writable ≡ true
  pub dirty : w.device.dirty_generation ≡ (base + taken w) % 2 ^ 64
  pub flushed : w.device.flushed_generation ≡ (base + w.safe) % 2 ^ 64
  pub running : w.device.flush_acb ≡ true → w.device.flush_generation ≡ (base + w.started) % 2 ^ 64
  pub lag :
      (taken w % 2 ^ 64 ≡ w.safe % 2 ^ 64)
      ⊎ (w.device.flush_pending ≡ true)
      ⊎ (w.device.flush_acb ≡ true)

-- Equal generations are equal counts.
same_count : (base a b : ℕ) → (base + a) % 2 ^ 64 ≡ (base + b) % 2 ^ 64 → a % 2 ^ 64 ≡ b % 2 ^ 64
same_count base a b h = omega arith

backend_update-IsFlushing :
    {base : ℕ} {w : Watched} (offset length : ℕ) (ok : Bool)
    → IsFlushing base w
    → IsFlushing base (record w { device = backend_update w.device offset length ok })
unfolding backend_update schedule_flush
backend_update-IsFlushing {base} {w} offset length true h =
    ground (arith, same_count base (1 + taken w) w.safe)
backend_update-IsFlushing {base} {w} offset length false h = ground arith

fired-IsFlushing : {base : ℕ} {w : Watched} → IsFlushing base w → IsFlushing base (fired w)
unfolding flush_timer_cb
fired-IsFlushing {base} {w} h = ground (arith, same_count base (taken w) w.safe)

completed-IsFlushing :
    {base : ℕ} {w : Watched} (ok : Bool)
    → w.device.flush_acb ≡ true
    → IsFlushing base w
    → IsFlushing base (completed w ok)
unfolding flush_complete schedule_flush
completed-IsFlushing {base} {w} true e h = ground (arith, same_count base (taken w) w.started)
completed-IsFlushing {base} {w} false e h = ground (arith, same_count base (taken w) w.safe)

Step-IsFlushing : {base : ℕ} {w u : Watched} → Step w u → IsFlushing base w → IsFlushing base u
Step-IsFlushing (store offset length ok) h = backend_update-IsFlushing offset length ok h
Step-IsFlushing (fire e) h = fired-IsFlushing h
Step-IsFlushing (complete e ok) h = completed-IsFlushing ok e h

-- From a device with its timer and a writable backend on, whatever changes are stored, writes and
-- flushes that fail included, and in whatever order the timer fires and the flushes end: the timer is
-- armed or a flush is running, or every change that the backend took is covered by a flush that started
-- after it and succeeded (counted as 64 bits), and the generations count both, if this holds at the
-- start.
pub Reach-IsFlushing :
    {base : ℕ} {w u : Watched} → IsFlushing base w → Reach w u → IsFlushing base u
Reach-IsFlushing h here = h
Reach-IsFlushing h (next r st) = Step-IsFlushing st (Reach-IsFlushing h r)

-- While a change that the backend took is not safe and no flush is running, in a device that IsFlushing
-- describes, the timer is armed; when it fires a flush starts, and if that flush succeeds every change
-- is safe, and neither the timer nor a flush is left.
pub flush_round :
    {base : ℕ} (w : Watched)
    → IsFlushing base w
    → w.device.flush_acb ≡ false
    → taken w % 2 ^ 64 ≢ w.safe % 2 ^ 64
    → let during = fired w in
      let after = completed during true in
      (w.device.flush_pending ≡ true)
      × (during.device.flush_acb ≡ true)
      × (after.safe ≡ taken after)
      × (after.device.flush_acb ≡ false)
      × (after.device.flush_pending ≡ false)
unfolding flush_timer_cb flush_complete schedule_flush
flush_round {base} w h idle lag = ground (arith, same_count base (taken w) w.safe)

-- A shutdown of a device with its timer and a backend that can be written whose flush succeeds leaves
-- nothing to be flushed, no timer armed and no flush running, whatever a cancelled flush reported.
pub flush_now_lem :
    (s : Nand) (completion : Option Bool)
    → s.has_flush_timer ≡ true
    → s.blk_writable ≡ true
    → let s' = flush_now s completion true in
      (s'.dirty_generation ≡ s'.flushed_generation)
      × (s'.flush_pending ≡ false)
      × (s'.flush_acb ≡ false)
unfolding flush_now cancel_flush flush_complete schedule_flush
flush_now_lem s none t w = ground arith
flush_now_lem s (some true) t w = ground arith
flush_now_lem s (some false) t w = ground arith
