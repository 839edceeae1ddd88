-- ===== src/Irq.antt =====
-- An interrupt line of the board: what a device drives on it with `qemu_set_irq`, the latest first.
use bbk9588_emulator.Base.{◌≡◌, Bool, true, false, not, ◌!=◌, if◌then◌else◌, List, [], ◌∷◌, arith}

-- `if (level != old) { qemu_set_irq(line, level); }`
abbrev pub drive_change : Bool → Bool → List Bool → List Bool
drive_change old level line = if level != old then level ∷ line else line

-- the level that was driven last; a line starts low
abbrev pub driven : List Bool → Bool
driven [] = false
driven (l ∷ ls) = l

-- No level was driven twice in a row.
abbrev pub Alternates : List Bool → Type 0
Alternates [] = Unit
Alternates (l ∷ ls) = (l ≡ not (driven ls)) × Alternates ls

-- The device's record of the line's level is what it drove last, and it drove changes only.
pub record IsDriven (line : List Bool) (level : Bool) : Type 0 where
  pub alternates : Alternates line
  pub last : driven line ≡ level

pub drive_change-IsDriven :
    (old level : Bool) (line : List Bool)
    → IsDriven line old
    → IsDriven (drive_change old level line) level
drive_change-IsDriven true true line h = h
drive_change-IsDriven true false line h = ground arith
drive_change-IsDriven false true line h = ground arith
drive_change-IsDriven false false line h = h
