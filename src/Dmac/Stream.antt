-- ===== src/Dmac/Stream.antt =====
-- The loop of dmac_try_audio_transfer in qemu/overlay/hw/dma/jz4740_dmac.c: however it ends, the
-- count, the addresses and the total agree on how many units went.
use bbk9588_emulator.Base.{
  ℕ, zero, suc, ◌+◌, ◌-◌, ◌*◌, ◌%◌, ◌^◌, ◌≤◌, ◌<◌, ◌≡◌, refl, arith, Bool, true, false, not, ◌&&◌,
  ◌==◌, if◌then◌else◌, ◌⊎◌, inl, inr, Bool-cases, Option, none, some,
}
use bbk9588_emulator.Bits.{has}
use bbk9588_emulator.Dmac.State.{Env, Dmac}
use bbk9588_emulator.Dmac.Transfer.{dcm_sai, dcm_dai, dcm_tm, Progress, move_unit, audio_loop}

Option-cases : {A : Type 0} (o : Option A) → (o ≡ none) ⊎ ((a : A) × (o ≡ some a))
Option-cases none = inl refl
Option-cases (some a) = inr (a, refl)

-- an address after `n` bytes: a running one has moved on, a fixed one stands
abbrev pub moved : Bool → ℕ → ℕ → ℕ
moved running addr n = if running then (addr + n) % 2 ^ 32 else addr

module _ {e : Env} where
  pub record IsAdvanced (p : Progress e) (command unit count source target transferred : ℕ)
      : Type 0 where
    pub fewer : p.count ≤ count
    pub source_moved : p.source ≡ moved (has command dcm_sai) source ((count - p.count) * unit)
    pub target_moved : p.target ≡ moved (has command dcm_dai) target ((count - p.count) * unit)
    pub total : p.transferred ≡ (transferred + (count - p.count) * unit) % 2 ^ 32

  -- The loop stopped before this round.
  stopped-IsAdvanced :
      (t : Dmac e.World) (failed : Bool) (command unit count source target transferred : ℕ)
      → source < 2 ^ 32
      → target < 2 ^ 32
      → transferred < 2 ^ 32
      → IsAdvanced
          (record {
            state = t;
            count = count;
            source = source;
            target = target;
            transferred = transferred;
            failed = failed;
          })
          command
          unit
          count
          source
          target
          transferred
  stopped-IsAdvanced t failed command unit count source target transferred hs ht hx =
      let none_went : (count - count) * unit ≡ 0 = grind arith in
      record {
        fewer = omega arith;
        source_moved = ground (arith, none_went);
        target_moved = ground (arith, none_went);
        total = omega (arith, none_went);
      }

  -- One more unit went before the rest of the loop.
  next-IsAdvanced :
      (p : Progress e) (command unit count source target transferred : ℕ)
      → IsAdvanced p command unit count
          (moved (has command dcm_sai) source unit)
          (moved (has command dcm_dai) target unit)
          ((transferred + unit) % 2 ^ 32)
      → IsAdvanced p command unit (suc count) source target transferred
  next-IsAdvanced p command unit count source target transferred h =
      let one_more : (suc count - p.count) * unit ≡ unit + (count - p.count) * unit =
        let gone : suc count - p.count ≡ suc (count - p.count) = omega (arith, h.fewer) in
        rw gone (grind arith) in
      record {
        fewer = omega (arith, h.fewer);
        source_moved = ground (arith, h.source_moved, one_more);
        target_moved = ground (arith, h.target_moved, one_more);
        total = omega (arith, h.total, one_more);
      }

module _ (e : Env) (request command unit width : ℕ) (transmit : Bool) where
  -- The units that a device took or gave are off the count, and the addresses and the total have
  -- moved by their bytes.
  pub audio_loop-IsAdvanced :
      (s : Dmac e.World) (count source target transferred : ℕ)
      → source < 2 ^ 32
      → target < 2 ^ 32
      → transferred < 2 ^ 32
      → IsAdvanced
          (audio_loop e s request command unit width transmit count source target transferred)
          command
          unit
          count
          source
          target
          transferred
  unfolding audio_loop
  audio_loop-IsAdvanced s zero source target transferred hs ht hx =
      stopped-IsAdvanced s false command unit 0 source target transferred hs ht hx
  audio_loop-IsAdvanced s (suc count) source target transferred hs ht hx =
      elim (Bool-cases (not (has s.request_levels (2 ^ request)) && not (has command dcm_tm))) [
        | inl idle ↦
            rw (idle, audio_loop)
              (stopped-IsAdvanced s false command unit (suc count) source target transferred hs ht
                hx)
        | inr on ↦ elim (Option-cases (move_unit e s request unit width transmit source target)) [
          | inl bad ↦
              rw (on, bad, audio_loop)
                (stopped-IsAdvanced s true command unit (suc count) source target transferred hs ht
                  hx)
          | inr (r, good) ↦ elim (Bool-cases (r.0 == unit)) [
            | inl whole ↦
                rw (on, good, whole, audio_loop)
                  (next-IsAdvanced _ command unit count source target transferred (
                    audio_loop-IsAdvanced r.1 count (moved (has command dcm_sai) source unit)
                      (moved (has command dcm_dai) target unit) ((transferred + unit) % 2 ^ 32)
                      (ground arith) (ground arith) (omega arith)))
            | inr short ↦
                rw (on, good, short, audio_loop)
                  (stopped-IsAdvanced r.1 false command unit (suc count) source target transferred
                    hs ht hx)
          ]
        ]
      ]
