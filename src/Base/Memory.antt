-- ===== src/Base/Memory.antt =====
-- C arrays as functions of the index. The bounds of the indices are proved where they matter.
use Prim.Native.Nat.{ℕ, ◌+◌}
use mathlib.Core.Bool.{◌&&◌}
use bbk9588_emulator.Base.Tests.{◌==◌, leb, ltb, if◌then◌else◌}

module _ {ℓ} {A : Type ℓ} where
  -- `a[i] = v`
  abbrev pub update : (ℕ → A) → ℕ → A → ℕ → A
  update a i v j = if i == j then v else a j

  -- `memset(a + i, v, n)`, for elements of one byte
  abbrev pub fill : (ℕ → A) → ℕ → ℕ → A → ℕ → A
  fill a i n v j = if leb i j && ltb j (i + n) then v else a j
