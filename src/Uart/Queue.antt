-- ===== src/Uart/Queue.antt =====
-- The ring of received bytes as a queue: what uart_push_rx, uart_receive, uart_pop_rx and a read of
-- the receive buffer register do to the list of bytes that wait.
use bbk9588_emulator.Base.{
  ℕ, zero, suc, ◌+◌, ◌-◌, ◌%◌, ◌≤◌, ◌<◌, ◌≡◌, ◌≢◌, refl, sym, ◌∙◌, ap, arith, false, ◌==◌, ltb,
  if◌then◌else◌, Bool-cases, ==-self, inl, inr, List, [], ◌∷◌, ◌++◌, update,
}
use mathlib.Core.List.{append_assoc, append-nil}
use native.Mathlib.Numerals.{add-one}
use bbk9588_emulator.Mmio.Lanes.{extract32_word}
use bbk9588_emulator.Uart.State.{Uart, fifo_size, update_lsr, update_irq}
use bbk9588_emulator.Uart.Fifo.{store_rx, push_rx, receive, take_rx, pop_rx}
use bbk9588_emulator.Uart.Registers.{read, read_reg, read_value, dlab}

-- the `n` bytes of the ring from the place `head` on
pub queue : (ℕ → ℕ) → ℕ → ℕ → List ℕ
queue fifo head zero = []
queue fifo head (suc n) = fifo head ∷ queue fifo ((head + 1) % fifo_size) n

-- the bytes that wait, the next one to be read first
abbrev pub contents : Uart → List ℕ
contents s = queue s.rx_fifo s.rx_head s.rx_len

-- The indices of the ring are in range.
pub record InRange (s : Uart) : Type 0 where
  pub head : s.rx_head < fifo_size
  pub len : s.rx_len ≤ fifo_size

abbrev pub length {ℓ} : {A : Type ℓ} → List A → ℕ
length [] = 0
length (x ∷ xs) = suc (length xs)

abbrev pub take {ℓ} : {A : Type ℓ} → ℕ → List A → List A
take zero xs = []
take (suc n) [] = []
take (suc n) (x ∷ xs) = x ∷ take n xs

length-queue : (fifo : ℕ → ℕ) (head n : ℕ) → length (queue fifo head n) ≡ n
unfolding queue
length-queue fifo head zero = refl
length-queue fifo head (suc n) = ap suc (length-queue fifo ((head + 1) % fifo_size) n)

-- A byte stored past the end of the queue is not in it.
queue-update :
    (fifo : ℕ → ℕ) (v head n k : ℕ)
    → head < fifo_size
    → n ≤ k
    → k < fifo_size
    → queue (update fifo ((head + k) % fifo_size) v) head n ≡ queue fifo head n
unfolding queue
queue-update fifo v head zero k h p q = refl
queue-update fifo v head (suc n) k h p q =
    let wrap : ((head + 1) % fifo_size + (k - 1)) % fifo_size ≡ (head + k) % fifo_size =
      omega arith in
    let rest =
      queue-update fifo v ((head + 1) % fifo_size) n (k - 1) (omega arith) (omega arith)
        (omega arith) in
    let away : ((head + k) % fifo_size == head) ≡ false = ground arith in
    rw away (ap (λ (t : List ℕ). fifo head ∷ t) (rw wrap at rest))

queue-snoc :
    (fifo : ℕ → ℕ) (head n : ℕ)
    → head < fifo_size
    → queue fifo head (suc n) ≡ queue fifo head n ++ fifo ((head + n) % fifo_size) ∷ []
unfolding queue
queue-snoc fifo head zero h = let here : (head + 0) % fifo_size ≡ head = omega arith in rw here
queue-snoc fifo head (suc n) h =
    let wrap : ((head + 1) % fifo_size + n) % fifo_size ≡ (head + suc n) % fifo_size =
      omega arith in
    let rest = queue-snoc fifo ((head + 1) % fifo_size) n (omega arith) in
    ap (λ (t : List ℕ). fifo head ∷ t) (rw wrap at rest)

take-append_all : {A : Type 0} (n : ℕ) (xs ys : List A) → length xs ≡ n → take n (xs ++ ys) ≡ xs
take-append_all zero [] ys h = refl
take-append_all (suc n) [] ys h = absurd (omega arith)
take-append_all zero (x ∷ xs) ys h = absurd (omega arith)
take-append_all (suc n) (x ∷ xs) ys h = ap (λ t. x ∷ t) (take-append_all n xs ys (omega arith))

take_short : {A : Type 0} (n : ℕ) (xs : List A) → length xs ≤ n → take n xs ≡ xs
take_short zero [] h = refl
take_short (suc n) [] h = refl
take_short zero (x ∷ xs) h = absurd (omega arith)
take_short (suc n) (x ∷ xs) h = ap (λ t. x ∷ t) (take_short n xs (omega arith))

-- A byte that arrives is the last to be read; with sixteen waiting it is lost.
pub contents-push_rx :
    (s : Uart) (value : ℕ)
    → InRange s
    → contents (push_rx s value)
      ≡ (if ltb s.rx_len fifo_size then contents s ++ value ∷ [] else contents s)
unfolding push_rx store_rx update_irq update_lsr
contents-push_rx s value r = elim (Bool-cases (ltb s.rx_len fifo_size)) [
  | inl room ↦
      rw (room, add-one)
        (queue-snoc _ s.rx_head s.rx_len r.head
          ∙ (let k = s.rx_len in
              let here = ==-self ((s.rx_head + k) % fifo_size) in
              rw here (
                ap (λ (t : List ℕ). t ++ value ∷ [])
                  (queue-update s.rx_fifo value s.rx_head k k r.head (omega arith)
                    (ground arith)))))
  | inr full ↦ rw full
]

pub push_rx-InRange : (s : Uart) (value : ℕ) → InRange s → InRange (push_rx s value)
unfolding push_rx store_rx update_irq update_lsr
push_rx-InRange s value r = ground arith

pub receive-InRange : (s : Uart) (buf : List ℕ) → InRange s → InRange (receive s buf)
unfolding receive
receive-InRange s [] r = r
receive-InRange s (value ∷ buf) r =
    receive-InRange (push_rx s value) buf (push_rx-InRange s value r)

-- Bytes that arrive queue up behind those that wait, in their order, and what exceeds sixteen is
-- dropped from the end.
pub contents-receive :
    (s : Uart) (buf : List ℕ)
    → InRange s
    → contents (receive s buf) ≡ take fifo_size (contents s ++ buf)
unfolding receive
contents-receive s [] r = sym (
    rw append-nil (
      take_short fifo_size (contents s) (omega (arith, length-queue s.rx_fifo s.rx_head s.rx_len))))
contents-receive s (value ∷ buf) r =
    let rest = contents-receive (push_rx s value) buf (push_rx-InRange s value r) in
    let pushed = contents-push_rx s value r in
    let all = length-queue s.rx_fifo s.rx_head s.rx_len in
    elim (Bool-cases (ltb s.rx_len fifo_size)) [
      | inl room ↦ rest ∙ rw (pushed, room, append_assoc) refl
      | inr full ↦
          let whole : length (contents s) ≡ fifo_size = ground (arith, all, r.len) in
          rest
          ∙ rw (pushed, full)
              (take-append_all fifo_size (contents s) buf whole
                ∙ sym (take-append_all fifo_size (contents s) (value ∷ buf) whole))
    ]

queue-pop :
    (fifo : ℕ → ℕ) (head n : ℕ)
    → n ≢ 0
    → queue fifo head n ≡ fifo head ∷ queue fifo ((head + 1) % fifo_size) (n - 1)
unfolding queue
queue-pop fifo head zero h = absurd (h refl)
queue-pop fifo head (suc n) h = let e : suc n - 1 ≡ n = omega arith in rw e

-- What a read of the receive buffer register hands over, and what it leaves.
record Received (s : Uart) (r : ℕ × Uart) : Type 0 where
  first : contents s ≡ r.0 ∷ contents r.1
  fewer : r.1.rx_len ≡ s.rx_len - 1
  in_range : InRange r.1
  latch : r.1.lcr ≡ s.lcr

read-Received : (s : Uart) → dlab s ≡ false → InRange s → s.rx_len ≢ 0 → Received s (read s 0x00 4)
unfolding read read_reg read_value pop_rx take_rx update_irq update_lsr
read-Received s off r some_wait =
    let waits : (s.rx_len == 0) ≡ false = ground arith in
    rw (off, waits)
      record {
        first = queue-pop s.rx_fifo s.rx_head s.rx_len some_wait ∙ rw (extract32_word _ 0 refl);
        fewer = refl;
        in_range = record { head = omega arith; len = omega (arith, r.len) };
        latch = refl;
      }

-- the receive buffer register read `n` times
pub drain : ℕ → Uart → List ℕ × Uart
drain zero s = ([], s)
drain (suc n) s =
    let (value, t) = read s 0x00 4 in let (values, u) = drain n t in (value ∷ values, u)

drain_all :
    (n : ℕ) (s : Uart) → dlab s ≡ false → InRange s → s.rx_len ≡ n → (drain n s).0 ≡ contents s
unfolding drain queue
drain_all zero s off r e = rw e
drain_all (suc n) s off r e =
    let got = read-Received s off r (omega arith) in
    sym (
      got.first
      ∙ ap (λ (t : List ℕ). (read s 0x00 4).0 ∷ t)
          (sym (
            drain_all n (read s 0x00 4).1 (rw (got.latch) off) got.in_range
              (omega (arith, got.fewer)))))

push_rx-lcr : (s : Uart) (value : ℕ) → (push_rx s value).lcr ≡ s.lcr
unfolding push_rx store_rx update_irq update_lsr
push_rx-lcr s value = ground arith

receive-lcr : (s : Uart) (buf : List ℕ) → (receive s buf).lcr ≡ s.lcr
unfolding receive
receive-lcr s [] = refl
receive-lcr s (value ∷ buf) = receive-lcr (push_rx s value) buf ∙ push_rx-lcr s value

-- Bytes that the character device delivers come back from the receive buffer register: with the
-- divisor latch off, reading it once for each byte that waits yields the bytes that waited before
-- and then the delivered ones, in their order, up to sixteen in all.
pub drain-receive :
    (s : Uart) (buf : List ℕ)
    → dlab s ≡ false
    → InRange s
    → (drain (receive s buf).rx_len (receive s buf)).0 ≡ take fifo_size (contents s ++ buf)
drain-receive s buf off r =
    drain_all (receive s buf).rx_len (receive s buf) (rw (receive-lcr s buf) off)
      (receive-InRange s buf r) refl
    ∙ contents-receive s buf r
