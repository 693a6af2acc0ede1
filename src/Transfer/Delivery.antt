-- ===== src/Transfer/Delivery.antt =====
-- Proofs about transfer/transfer_executor.cpp: a transfer ticked to its end, on one transport and memory.
use cong_shed.Base.{
  ℕ, suc, ◌+◌, ◌<◌, ◌≡◌, refl, sym, ap, subst, true, List, [], ◌∷◌, arith, All, length,
}
use cong_shed.Base.Double.{Double}
use cong_shed.Ibverbs.{Memory}
use cong_shed.Transfer.State.{completed, ChunkProgress, TransferProgress}
use cong_shed.Transfer.Tick.{World, tick_transfer}
use cong_shed.Transfer.Work.{work, IsRunning}
use cong_shed.Transfer.Progress.{IsDone, Round, tick_rounds, tick_rounds-completes}
use cong_shed.Transfer.Mirror.{AreApart, IsMirrored}
use cong_shed.Transfer.MirrorTick.{
  HasMirrored, tick_transfer-HasMirrored, ready_after, same_buffers,
}

-- The rate of each path, and the clock, in one tick.
pub record Turn (W : Type 0) : Type 0 where
  pub rate : List ℕ → ℕ
  pub now : W

-- Every byte of the chunk is in the destination buffer.
abbrev pub IsDelivered : ℕ → ℕ → Memory → ChunkProgress → Type 0
IsDelivered src dst m ch =
    (j : ℕ) → j < ch.chunk_size → m (dst + (ch.byte_offset + j)) ≡ m (src + (ch.byte_offset + j))

delivered :
    (src dst total : ℕ) (m : Memory) (chs : List ChunkProgress)
    → All (λ ch. (ch.bytes_sent ≡ ch.chunk_size) × (ch.state ≡ completed)) chs
    → All (IsMirrored src dst total m) chs
    → All (IsDelivered src dst m) chs
delivered src dst total m [] e p = tt
delivered src dst total m (ch ∷ chs) e p =
    ((λ j l. p.0.2 j (omega (arith, e.0.0))), delivered src dst total m chs e.1 p.1)

module _ {W : Type 0} ⦃d : Double W⦄ where
  -- The transfer and the world after the ticks.
  unfoldable pub run_turns : List (Turn W) → TransferProgress W → World → TransferProgress W × World
  run_turns [] tp w = (tp, w)
  run_turns (t ∷ ts) tp w = let r = tick_transfer t.rate t.now tp w in run_turns ts r.0 r.2

  -- The rounds that these turns are.
  rounds_of : List (Turn W) → TransferProgress W → World → List (Round W)
  rounds_of [] tp w = []
  rounds_of (t ∷ ts) tp w =
      let r = tick_transfer t.rate t.now tp w in
      record { rate = t.rate; now = t.now; world = w } ∷ rounds_of ts r.0 r.2

  run_turns-rounds :
      (ts : List (Turn W)) (tp : TransferProgress W) (w : World)
      → (run_turns ts tp w).0 ≡ tick_rounds (rounds_of ts tp w) tp
  unfolding run_turns rounds_of tick_rounds
  run_turns-rounds [] tp w = refl
  run_turns-rounds (t ∷ ts) tp w = run_turns-rounds ts _ _

  rates-rounds_of :
      (ts : List (Turn W)) (tp : TransferProgress W) (w : World)
      → All (λ t. (path : List ℕ) → 0 < t.rate path) ts
      → All (λ r. (path : List ℕ) → 0 < r.rate path) (rounds_of ts tp w)
  unfolding rounds_of
  rates-rounds_of [] tp w h = tt
  rates-rounds_of (t ∷ ts) tp w h = (h.0, rates-rounds_of ts _ _ h.1)

  length-rounds_of :
      (ts : List (Turn W)) (tp : TransferProgress W) (w : World)
      → length (rounds_of ts tp w) ≡ length ts
  unfolding rounds_of
  length-rounds_of [] tp w = refl
  length-rounds_of (t ∷ ts) tp w = ap suc (length-rounds_of ts _ _)

  apart_after :
      (total : ℕ) (tp tq : TransferProgress W)
      → (tq.src_buf ≡ tp.src_buf) × (tq.dst_buf ≡ tp.dst_buf)
      → AreApart tp.src_buf tp.dst_buf total
      → AreApart tq.src_buf tq.dst_buf total
  apart_after total tp tq (a, b) h = rw (a, b) h

  run_turns-HasMirrored :
      (total : ℕ) (ts : List (Turn W)) (tp : TransferProgress W) (w : World)
      → AreApart tp.src_buf tp.dst_buf total
      → w.wire.ready ≡ true
      → HasMirrored total w.memory tp
      → HasMirrored total (run_turns ts tp w).1.memory (run_turns ts tp w).0
  unfolding run_turns
  run_turns-HasMirrored total [] tp w h r p = p
  run_turns-HasMirrored total (t ∷ ts) tp w h r p =
      let s = tick_transfer t.rate t.now tp w in
      run_turns-HasMirrored total ts s.0 s.2
        (apart_after total tp s.0 (same_buffers t.rate t.now tp w) h)
        (ready_after total t.rate t.now tp w h r p)
        (tick_transfer-HasMirrored total t.rate t.now tp w h r p)

  -- A running transfer between two buffers that hold its chunks and lie apart, on a ready transport, whose paths all
  -- move at least a byte in each tick, is completed after more ticks than it has bytes and chunks left, and then each
  -- byte of each of its chunks is in the destination buffer as in the source. No other transfer runs meanwhile.
  pub run_turns-IsDelivered :
      (total : ℕ) (ts : List (Turn W)) (tp : TransferProgress W) (w : World)
      → AreApart tp.src_buf tp.dst_buf total
      → w.wire.ready ≡ true
      → HasMirrored total w.memory tp
      → IsRunning tp
      → All (λ t. (path : List ℕ) → 0 < t.rate path) ts
      → work tp.chunks < length ts
      → IsDone (run_turns ts tp w).0
        × All
            (IsDelivered
              (run_turns ts tp w).0.src_buf
              (run_turns ts tp w).0.dst_buf
              (run_turns ts tp w).1.memory)
            (run_turns ts tp w).0.chunks
  run_turns-IsDelivered total ts tp w h r p v q k =
      let rs = rounds_of ts tp w in
      let fin : IsDone (run_turns ts tp w).0 = subst IsDone (sym (run_turns-rounds ts tp w)) (
        tick_rounds-completes rs tp v (rates-rounds_of ts tp w q)
          (omega (arith, length-rounds_of ts tp w))) in
      (
        fin,
        delivered (run_turns ts tp w).0.src_buf (run_turns ts tp w).0.dst_buf total
            (run_turns ts tp w).1.memory (run_turns ts tp w).0.chunks fin.whole
            (run_turns-HasMirrored total ts tp w h r p),
      )
