-- ===== src/Nand/Program/Commit.antt =====
-- What a program confirm stores, and what it leaves alone.
use bbk9588_emulator.Base.{
  ℕ, zero, suc, ◌+◌, ◌-◌, ◌*◌, ◌/◌, ◌%◌, ◌^◌, ◌≤◌, ◌<◌, ◌≡◌, ◌≢◌, refl, bit_and, arith, Bool, true,
  false, not, ◌&&◌, ◌||◌, ◌==◌, ltb, leb, if◌then◌else◌, ◌∙◌, ap, update, min,
}
use native.Mathlib.Nat.{mod-add-div', mul-le-mul_right}
use native.Mathlib.Decide.{dec_lt}
use bbk9588_emulator.Nand.State.{Nand, stride_of, status_ready, pages_per_block}
use bbk9588_emulator.Nand.Flush.{backend_update, schedule_flush}
use bbk9588_emulator.Nand.Program.{program_loop, program_limit, apply_program, commit_program}

-- Writing through to the backend changes no byte of the image.
pub bytes-backend_update :
    (s : Nand) (offset length : ℕ) (ok : Bool) → (backend_update s offset length ok).bytes ≡ s.bytes
unfolding backend_update schedule_flush
bytes-backend_update s offset length ok = ground arith

-- The loop clears, in the `left` bytes from `offset + i` on, the bits that the buffer does not have.
pub program_loop-byte :
    (left i offset column : ℕ) (buffer bytes : ℕ → ℕ) (j : ℕ)
    → program_loop left i offset column buffer bytes j ≡ (
        if leb (offset + i) j && ltb j (offset + i + left)
        then bit_and (bytes j) (buffer (column + (j - offset)))
        else bytes j)
unfolding program_loop
program_loop-byte zero i offset column buffer bytes j = ground arith
program_loop-byte (suc left) i offset column buffer bytes j = ground (
  arith,
  program_loop-byte left (i + 1) offset column buffer
      (update bytes (offset + i) (bit_and (bytes (offset + i)) (buffer (column + i)))) j,
)

-- the parts of `commit_program`, by their names in the source
abbrev pub column_of : Nand → ℕ
column_of s = min s.program_start s.program_len

abbrev pub page_offset_of : Nand → ℕ
page_offset_of s = s.program_page * stride_of s

abbrev pub limit_of : Nand → ℕ
limit_of s = program_limit s (page_offset_of s) (column_of s)

pub bytes-apply_program :
    (s : Nand) (page column limit offset : ℕ) (ok : Bool)
    → (apply_program s page column limit offset ok).bytes
      ≡ program_loop limit 0 offset column s.program_buffer s.bytes
unfolding apply_program
bytes-apply_program s page column limit offset ok = bytes-backend_update _ offset limit ok

-- The program buffer is aimed at a page of the image and holds bytes for it.
pub record IsAimed (s : Nand) : Type 0 where
  pub image : s.has_data ≡ true
  pub aimed : s.program_page_valid ≡ true
  pub filled : s.program_has_data ≡ true
  pub inside : page_offset_of s < s.size
  pub starts : s.program_start < stride_of s
  pub some_bytes : s.program_start < s.program_len

-- The image is a whole number of pages, as a real dump is.
pub record IsWhole (s : Nand) : Type 0 where
  pub pages : s.size % stride_of s ≡ 0
  pub stride : 0 < stride_of s
  pub small : s.size < 2 ^ 63

next_multiple : (p q w : ℕ) → p * w < q * w → p * w + w ≤ q * w
next_multiple p q w h = elim (dec_lt p q) [
  | yes less ↦ let h : p + 1 ≤ q = omega arith in omega (arith, mul-le-mul_right w h)
  | no more ↦ let k : q ≤ p = omega arith in omega (arith, mul-le-mul_right w k)
]

pub page_fits :
    {s : Nand} (page : ℕ)
    → IsWhole s
    → page * stride_of s < s.size
    → page * stride_of s + stride_of s ≤ s.size
page_fits {s} page w h =
    let pages = mod-add-div' s.size (stride_of s) in
    omega (
      arith,
      next_multiple page (s.size / stride_of s) (stride_of s) (omega (arith, w.pages, pages)),
      w.pages,
      pages,
    )

pub whole_page :
    {s : Nand} → IsWhole s → page_offset_of s < s.size → page_offset_of s + stride_of s ≤ s.size
whole_page {s} w h = page_fits s.program_page w h

pub limit-eq :
    {s : Nand}
    → IsWhole s
    → page_offset_of s < s.size
    → column_of s < stride_of s
    → limit_of s ≡ min (s.program_len - column_of s) (stride_of s - column_of s)
unfolding program_limit
limit-eq {s} w h c = omega (arith, whole_page w h)

pub commit_aimed :
    (s : Nand) (ok : Bool)
    → IsAimed s
    → s.program_page / pages_per_block ≢ s.fail_program_block
    → commit_program s ok
      ≡ apply_program s s.program_page
          (column_of s)
          (limit_of s)
          (page_offset_of s + column_of s)
          ok
unfolding commit_program
commit_aimed s ok a block =
    let t1 : (not s.has_data || not s.program_page_valid || not s.program_has_data) ≡ false =
      ground arith in
    let t2 : (leb s.size (page_offset_of s)
          || leb (stride_of s) (column_of s)
          || leb s.program_len (column_of s))
        ≡ false =
      ground arith in
    let t3 : (s.program_page / pages_per_block == s.fail_program_block) ≡ false = ground arith in
    rw (t1, t2, t3)

pub status-apply_program :
    (s : Nand) (page column limit offset : ℕ) (ok : Bool)
    → (apply_program s page column limit offset ok).status ≡ status_ready
unfolding apply_program
status-apply_program s page column limit offset ok = refl

program_count-backend_update :
    (s : Nand) (offset length : ℕ) (ok : Bool)
    → (backend_update s offset length ok).program_count ≡ s.program_count
unfolding backend_update schedule_flush
program_count-backend_update s offset length ok = ground arith

program_count-apply_program :
    (s : Nand) (page column limit offset : ℕ) (ok : Bool)
    → (apply_program s page column limit offset ok).program_count ≡ (s.program_count + 1) % 2 ^ 32
unfolding apply_program
program_count-apply_program s page column limit offset ok = rw program_count-backend_update

-- A confirmed program of an aimed buffer into a whole image, outside the block set up to fail,
-- reports success and counts itself. It clears, in the bytes of the page from the first column that
-- was filled up to the last one or the end of the page, the bits that the buffer does not have.
-- Every other byte of the image keeps its value.
pub commit_program_lem :
    (s : Nand) (ok : Bool) (j : ℕ)
    → IsAimed s
    → IsWhole s
    → s.program_page / pages_per_block ≢ s.fail_program_block
    → let s' = commit_program s ok in
      let first = page_offset_of s + s.program_start in
      let stop = page_offset_of s + min s.program_len (stride_of s) in
      (s'.status ≡ status_ready)
      × (s'.program_count ≡ (s.program_count + 1) % 2 ^ 32)
      × (s'.bytes j ≡ (
          if leb first j && ltb j stop
          then bit_and (s.bytes j) (s.program_buffer (j - page_offset_of s))
          else s.bytes j))
commit_program_lem s ok j a w block =
    let column : column_of s ≡ s.program_start = omega (arith, a.some_bytes) in
    let limit = limit-eq w a.inside (omega (arith, a.starts, column)) in
    rw (commit_aimed s ok a block) (
      status-apply_program s s.program_page (column_of s) (limit_of s)
          (page_offset_of s + column_of s) ok,
      program_count-apply_program s s.program_page (column_of s) (limit_of s)
          (page_offset_of s + column_of s) ok,
      ap (λ (f : ℕ → ℕ). f j)
            (bytes-apply_program s s.program_page (column_of s) (limit_of s)
              (page_offset_of s + column_of s) ok)
          ∙ program_loop-byte (limit_of s) 0 (page_offset_of s + column_of s) (column_of s)
              s.program_buffer s.bytes j
          ∙ ground arith,
    )
