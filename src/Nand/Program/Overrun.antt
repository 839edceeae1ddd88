-- ===== src/Nand/Program/Overrun.antt =====
-- An image that is not a whole number of pages: a program can reach behind it.
use bbk9588_emulator.Base.{ℕ, ◌+◌, ◌/◌, ◌^◌, ◌<◌, ◌≡◌, ◌≢◌, bit_and, arith, Bool, ◌∙◌, ap}
use bbk9588_emulator.Nand.State.{Nand, stride_of, pages_per_block}
use bbk9588_emulator.Nand.Program.{commit_program, program_limit}
use bbk9588_emulator.Nand.Program.Commit.{
  IsAimed, column_of, page_offset_of, limit_of, bytes-apply_program, commit_aimed,
  program_loop-byte,
}

limit_wraps :
    {s : Nand}
    → IsAimed s
    → s.size < page_offset_of s + s.program_start
    → page_offset_of s + s.program_start < 2 ^ 32
    → s.program_len < 2 ^ 32
    → stride_of s < 2 ^ 32
    → 0 < limit_of s
unfolding program_limit
limit_wraps {s} a behind small len stride = omega (arith, a.starts, a.some_bytes, a.inside)

-- If the image ends before the first byte of an aimed program, in a page that it does have, and the
-- block is not set up to fail, the confirm stores that byte behind the end of the image: the
-- computation of the remaining size wraps around. Lengths and the place are below 2^32.
pub program_overrun :
    (s : Nand) (ok : Bool)
    → IsAimed s
    → s.size < page_offset_of s + s.program_start
    → page_offset_of s + s.program_start < 2 ^ 32
    → s.program_len < 2 ^ 32
    → stride_of s < 2 ^ 32
    → s.program_page / pages_per_block ≢ s.fail_program_block
    → let j = page_offset_of s + s.program_start in
      (s.size < j)
      × ((commit_program s ok).bytes j ≡ bit_and (s.bytes j) (s.program_buffer s.program_start))
program_overrun s ok a behind small len stride block =
    let column : column_of s ≡ s.program_start = omega (arith, a.some_bytes) in
    let at = page_offset_of s + column_of s in
    let j = page_offset_of s + s.program_start in
    (
      behind,
      rw (commit_aimed s ok a block) (
          ap (λ (f : ℕ → ℕ). f j)
            (bytes-apply_program s s.program_page (column_of s) (limit_of s) at ok)
          ∙ program_loop-byte (limit_of s) 0 at (column_of s) s.program_buffer s.bytes j
          ∙ ground (arith, limit_wraps a behind small len stride)),
    )
