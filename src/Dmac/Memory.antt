-- ===== src/Dmac/Memory.antt =====
-- What qemu/overlay/hw/dma/jz4740_dmac.c relies on of the guest's memory, and what one read and one
-- write of its copy loops do to it.
use bbk9588_emulator.Base.{
  ℕ, zero, suc, ◌+◌, ◌-◌, ◌%◌, ◌^◌, ◌≤◌, ◌<◌, ◌≡◌, refl, ◌∙◌, ap, bit_and, arith, ◌&&◌, ltb, leb,
  if◌then◌else◌, List, [], ◌∷◌,
}
use bbk9588_emulator.Bits.{bit_and-ones}
use bbk9588_emulator.Dmac.State.{Env, memory_read, memory_write}

abbrev pub length {ℓ} : {A : Type ℓ} → List A → ℕ
length [] = 0
length (x ∷ xs) = suc (length xs)

-- an element of a buffer
abbrev pub nth : List ℕ → ℕ → ℕ
nth [] i = 0
nth (x ∷ xs) zero = x
nth (x ∷ xs) (suc i) = nth xs i

-- the `n` bytes from an address on
unfoldable pub bytes_at : (ℕ → ℕ) → ℕ → ℕ → List ℕ
bytes_at f a zero = []
bytes_at f a (suc n) = f a ∷ bytes_at f (a + 1) n

-- The documented behaviour of QEMU's accesses to memory inside the guest's RAM: a read returns the
-- bytes that stand there and a write changes them and no others. The trace callback only records.
pub record Ram (e : Env) : Type 0 where
  pub peek : e.World → ℕ → ℕ
  pub size : ℕ
  pub read : (w : e.World) (a n : ℕ) → a + n ≤ size → e.mem_read w a n ≡ bytes_at (peek w) a n
  pub write :
      (w : e.World) (a : ℕ) (buf : List ℕ) (i : ℕ)
      → a + length buf ≤ size
      → i < size
      → peek (e.mem_write w a buf) i
        ≡ (if leb a i && ltb i (a + length buf) then nth buf (i - a) else peek w i)
  pub traced :
      (w : e.World) (event channel offset value i : ℕ)
      → peek (e.trace w event channel offset value) i ≡ peek w i

length-bytes_at : (f : ℕ → ℕ) (a n : ℕ) → length (bytes_at f a n) ≡ n
unfolding bytes_at
length-bytes_at f a zero = refl
length-bytes_at f a (suc n) = ap suc (length-bytes_at f (a + 1) n)

nth-bytes_at : (f : ℕ → ℕ) (a n i : ℕ) → i < n → nth (bytes_at f a n) i ≡ f (a + i)
unfolding bytes_at
nth-bytes_at f a zero i h = absurd (omega arith)
nth-bytes_at f a (suc n) zero h = let e : a + 0 ≡ a = omega arith in rw e
nth-bytes_at f a (suc n) (suc i) h =
    let e : a + 1 + i ≡ a + suc i = omega arith in nth-bytes_at f (a + 1) n i (omega arith) ∙ ap f e

-- The address of a byte in physical memory.
abbrev pub physical : ℕ → ℕ
physical addr = bit_and addr 0x1fffffff

pub physical-add :
    (addr k : ℕ) → physical addr + k < 2 ^ 29 → physical ((addr + k) % 2 ^ 32) ≡ physical addr + k
physical-add addr k h = omega (arith, bit_and-ones 29 addr, bit_and-ones 29 ((addr + k) % 2 ^ 32))

module _ (e : Env) (ram : Ram e) where
  -- A read followed by a write moves `n` bytes.
  pub move_lem :
      (w : e.World) (source target n i : ℕ)
      → physical source + n ≤ ram.size
      → physical target + n ≤ ram.size
      → i < ram.size
      → ram.peek (memory_write e w target (memory_read e w source n)) i ≡ (
          if leb (physical target) i && ltb i (physical target + n)
          then ram.peek w (physical source + (i - physical target))
          else ram.peek w i)
  unfolding memory_write memory_read
  move_lem w source target n i hs ht hi =
      let got = ram.read w (bit_and source 0x1fffffff) n hs in
      let buf = bytes_at (ram.peek w) (bit_and source 0x1fffffff) n in
      let len : length buf ≡ n = length-bytes_at (ram.peek w) (bit_and source 0x1fffffff) n in
      rw got (
        ram.write w (bit_and target 0x1fffffff) buf i (rw len ht) hi
        ∙ ground (
          arith,
          len,
          nth-bytes_at (ram.peek w) (bit_and source 0x1fffffff) n (i - bit_and target 0x1fffffff),
        ))
