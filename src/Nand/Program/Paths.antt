-- ===== src/Nand/Program/Paths.antt =====
-- Every path of a program confirm: it sets no bit, stays inside the image, and a failure stores
-- nothing.
use bbk9588_emulator.Base.{
  ℕ, ◌+◌, ◌-◌, ◌/◌, ◌%◌, ◌^◌, ◌≤◌, ◌<◌, ◌≡◌, refl, bit_or, arith, Bool, true, not, ◌||◌, ◌==◌, leb,
  ◌∙◌, ap, ◌⊎◌, inl, inr, Bool-cases,
}
use bbk9588_emulator.Bits.{test_bit, test_bit-bit_and}
use bbk9588_emulator.Nand.State.{Nand, emit, stride_of, status_ready, status_fail, pages_per_block}
use bbk9588_emulator.Nand.Program.{
  begin_program, program_loop, reject_program, fail_program, commit_program,
}
use bbk9588_emulator.Nand.Program.Commit.{
  IsWhole, column_of, page_offset_of, limit_of, limit-eq, whole_page, bytes-apply_program,
  status-apply_program, program_loop-byte,
}

-- What the confirm does to the image on any of its paths: nothing, or the loop.
pub bytes-commit_program :
    (s : Nand) (ok : Bool)
    → ((commit_program s ok).bytes ≡ s.bytes)
      ⊎ (((commit_program s ok).bytes
            ≡ program_loop
                (limit_of s)
                0
                (page_offset_of s + column_of s)
                (column_of s)
                s.program_buffer
                s.bytes)
          × (page_offset_of s < s.size)
          × (column_of s < stride_of s))
unfolding commit_program reject_program fail_program emit
bytes-commit_program s ok =
    elim (Bool-cases (not s.has_data || not s.program_page_valid || not s.program_has_data)) [
      | inl t1 ↦ inl (rw t1)
      | inr f1 ↦
          rw f1
            (elim (Bool-cases (
              leb s.size (page_offset_of s)
              || leb (stride_of s) (column_of s)
              || leb s.program_len (column_of s))) [
                | inl t2 ↦ inl (rw t2)
                | inr f2 ↦
                    rw f2
                      (elim (Bool-cases
                        (s.program_page / pages_per_block == s.fail_program_block)) [
                          | inl t3 ↦ inl (rw t3)
                          | inr f3 ↦ rw f3 (
                              inr (
                                bytes-apply_program s s.program_page (column_of s) (limit_of s)
                                    (page_offset_of s + column_of s) ok,
                                ground arith,
                                ground arith,
                              ))
                        ])
              ])
    ]

-- Programming sets no bit: on every path of the confirm, errors included, a bit of the image that is
-- set afterwards was set before.
pub commit_program_clears :
    (s : Nand) (ok : Bool) (j i : ℕ)
    → test_bit ((commit_program s ok).bytes j) i ≡ true
    → test_bit (s.bytes j) i ≡ true
commit_program_clears s ok j i h = elim (bytes-commit_program s ok) [
  | inl same ↦ rw same at h
  | inr loop ↦
      let column = column_of s in
      let at = page_offset_of s + column in
      ground (
        arith,
        ap (λ (f : ℕ → ℕ). test_bit (f j) i) loop.0,
        ap (λ (b : ℕ). test_bit b i)
            (program_loop-byte (limit_of s) 0 at column s.program_buffer s.bytes j),
        test_bit-bit_and (s.bytes j) (s.program_buffer (column + (j - at))) i,
      )
]

-- In a whole image every path of the confirm leaves what lies behind the image alone: it writes no
-- byte out of range.
pub commit_program_in_bounds :
    (s : Nand) (ok : Bool) (j : ℕ)
    → IsWhole s
    → s.size ≤ j
    → (commit_program s ok).bytes j ≡ s.bytes j
commit_program_in_bounds s ok j w h = elim (bytes-commit_program s ok) [
  | inl same ↦ ap (λ (f : ℕ → ℕ). f j) same
  | inr (loop, inside, starts) ↦
      let column = column_of s in
      let at = page_offset_of s + column in
      ap (λ (f : ℕ → ℕ). f j) loop
      ∙ program_loop-byte (limit_of s) 0 at column s.program_buffer s.bytes j
      ∙ ground (arith, limit-eq w inside starts, whole_page w inside)
]

-- A confirm that reports a failure changes no byte of the image, hands nothing to the backend, and
-- counts the failure.
pub commit_program_failed :
    (s : Nand) (ok : Bool)
    → ((commit_program s ok).status ≡ bit_or status_ready status_fail)
    → ((commit_program s ok).bytes ≡ s.bytes)
      × ((commit_program s ok).program_fail_count ≡ (s.program_fail_count + 1) % 2 ^ 32)
      × ((commit_program s ok).pwrites ≡ s.pwrites)
unfolding commit_program reject_program fail_program begin_program emit
commit_program_failed s ok =
    elim (Bool-cases (not s.has_data || not s.program_page_valid || not s.program_has_data)) [
      | inl t1 ↦ rw t1 (λ h. absurd (omega arith))
      | inr f1 ↦
          rw f1
            (elim (Bool-cases (
              leb s.size (page_offset_of s)
              || leb (stride_of s) (column_of s)
              || leb s.program_len (column_of s))) [
                | inl t2 ↦ rw t2 (λ h. (refl, refl, refl))
                | inr f2 ↦
                    rw f2
                      (elim (Bool-cases
                        (s.program_page / pages_per_block == s.fail_program_block)) [
                          | inl t3 ↦ rw t3 (λ h. (refl, refl, refl))
                          | inr f3 ↦ rw f3 (λ h. absurd (
                              omega (
                                arith,
                                status-apply_program s s.program_page (column_of s) (limit_of s)
                                    (page_offset_of s + column_of s) ok,
                              )))
                        ])
              ])
    ]
