-- ===== src/Transfer/Steps.antt =====
-- Proofs about transfer/transfer_executor.cpp: the calls of the executor as a step relation.
use cong_shed.Base.{
  ℕ, zero, suc, ◌<◌, inl, inr, Option, List, [], ◌∷◌, ◌++◌, arith, word64, Bool-cases, All, any,
  is_empty,
}
use cong_shed.Base.Double.{Double, one}
use cong_shed.Model.{TransferRequest, PathCost}
use cong_shed.Topology.{GraphEdge}
use cong_shed.Transfer.State.{
  ChunkPath, TransferProgress, SubmitOptions, TransferExecutor, update, is_active,
}
use cong_shed.Ibverbs.{Transport, Memory}
use cong_shed.Transfer.Submit.{submit, submit_striped}
use cong_shed.Transfer.Control.{
  pause, cancel, preempt_sharing, reroute, suspend_all, suspend, cancel_transfer, reroute_transfer,
}
use cong_shed.Transfer.Tick.{World, tick, tick_transfers, tick_transfer}
use cong_shed.Transfer.Drain.{drain_rounds, force_transfer, force_transfers}

-- The chunks that a caller hands over have sizes of 64 bits.
abbrev pub AreWords : List ChunkPath → Type 0
AreWords = All λ c. c.chunk_size < word64

module _ {W : Type 0} ⦃d : Double W⦄ where
  -- One call. The clock, the utilizations, the transport and the memory may be any.
  pub data Step (x : TransferExecutor W) : TransferExecutor W → Type 0 where
    submits :
        (now : W) (req : TransferRequest W) (path : PathCost W) (opts : SubmitOptions)
        → req.size_bytes < word64
        → Step x (submit x now req path opts).0
    stripes :
        (now : W) (req : TransferRequest W) (chunks : List ChunkPath) (opts : SubmitOptions)
        → req.size_bytes < word64
        → AreWords chunks
        → Step x (submit_striped x now req chunks opts).0
    pauses : (i : ℕ) → Step x (pause x i).0
    cancels : (i : ℕ) → Step x (cancel x i).0
    preempts : (busy : List ℕ) (limit : ℕ) → Step x (preempt_sharing x busy limit).0
    reroutes : (i : ℕ) (path : PathCost W) → Step x (reroute x i path).0
    ticks :
        (wire : Transport) (memory : Memory) (dt : W) (utils : List W) (now : ℕ → W)
        → Step x (tick x wire memory dt utils now).0
    drains :
        (rounds : ℕ) (wire : Transport) (memory : Memory) (utils : List W) (now : ℕ → ℕ → W)
        (sofar : List (TransferProgress W))
        → Step x (drain_rounds rounds x wire memory utils now sofar).0

  pub data Reach (x : TransferExecutor W) : TransferExecutor W → Type 0 where
    here : Reach x x
    next : {y z : TransferExecutor W} → Reach x y → Step y z → Reach x z

  -- A property of transfers that every operation on one keeps, and that a new one has.
  pub record IsKept (P : TransferProgress W → Type 0) : Type 0 where
    pub submitted :
        (x : TransferExecutor W) (now : W) (req : TransferRequest W) (path : PathCost W)
        (opts : SubmitOptions)
        → req.size_bytes < word64
        → All P x.transfers
        → All P (submit x now req path opts).0.transfers
    pub striped :
        (x : TransferExecutor W) (now : W) (req : TransferRequest W) (chunks : List ChunkPath)
        (opts : SubmitOptions)
        → req.size_bytes < word64
        → AreWords chunks
        → All P x.transfers
        → All P (submit_striped x now req chunks opts).0.transfers
    pub suspended : (tp : TransferProgress W) → P tp → P (suspend tp)
    pub cancelled_too : (tp : TransferProgress W) → P tp → P (cancel_transfer tp)
    pub rerouted :
        (g : Option (List (GraphEdge W))) (path : PathCost W) (tp : TransferProgress W)
        → P tp
        → P (reroute_transfer g path tp)
    pub ticked :
        (rate : List ℕ → ℕ) (now : W) (tp : TransferProgress W) (w : World)
        → P tp
        → P (tick_transfer rate now tp w).0
    pub forced : (tp : TransferProgress W) (w : World) → P tp → P (force_transfer tp w).0

  module _ (P : TransferProgress W → Type 0) where
    All-update :
        (i : ℕ) (f : TransferProgress W → TransferProgress W) (tps : List (TransferProgress W))
        → ((tp : TransferProgress W) → P tp → P (f tp))
        → All P tps
        → All P (update i f tps)
    unfolding update
    All-update i f [] h p = tt
    All-update i f (tp ∷ tps) h p = ground (arith, h tp p.0, All-update i f tps h p.1)

    module _ (kept : IsKept P) where
      open kept use {submitted, striped, suspended, cancelled_too, rerouted, ticked, forced}

      All-suspend :
          (ids : List ℕ) (tps : List (TransferProgress W)) → All P tps → All P (suspend_all ids tps)
      unfolding suspend_all
      All-suspend ids [] p = tt
      All-suspend ids (tp ∷ tps) p = ground (arith, suspended tp p.0, All-suspend ids tps p.1)

      All-tick :
          (rate : List ℕ → ℕ) (now : ℕ → W) (tps : List (TransferProgress W)) (w : World)
          → All P tps
          → All P (tick_transfers rate now tps w).0
      unfolding tick_transfers
      All-tick rate now [] w p = tt
      All-tick rate now (tp ∷ tps) w p = (
        ticked rate (now tp.id) tp w p.0,
        All-tick rate now tps (tick_transfer rate (now tp.id) tp w).2 p.1,
      )

      All-force :
          (tps : List (TransferProgress W)) (w : World)
          → All P tps
          → All P (force_transfers tps w).0
      unfolding force_transfers
      All-force [] w p = tt
      All-force (tp ∷ tps) w p = (forced tp w p.0, All-force tps (force_transfer tp w).2 p.1)

      tick-All :
          (x : TransferExecutor W) (wire : Transport) (memory : Memory) (dt : W) (utils : List W)
          (now : ℕ → W)
          → All P x.transfers
          → All P (tick x wire memory dt utils now).0.transfers
      unfolding tick
      tick-All x wire memory dt utils now p = All-tick _ now x.transfers _ p

      drain-All :
          (rounds : ℕ) (x : TransferExecutor W) (wire : Transport) (memory : Memory)
          (utils : List W) (now : ℕ → ℕ → W) (sofar : List (TransferProgress W))
          → All P x.transfers
          → All P (drain_rounds rounds x wire memory utils now sofar).0.transfers
      unfolding drain_rounds
      drain-All zero x wire memory utils now sofar p = p
      drain-All (suc rounds) x wire memory utils now sofar p =
          let r = tick x wire memory one utils (now rounds) in
          let q = tick-All x wire memory one utils (now rounds) p in
          elim (Bool-cases (any is_active r.0.transfers)) [
            | inr e ↦ rw e q
            | inl e ↦ elim (Bool-cases (is_empty r.3)) [
              | inl e' ↦ rw (e, e') (All-force r.0.transfers _ q)
              | inr e' ↦ rw (e, e') (drain-All rounds r.0 r.1 r.2 utils now (sofar ++ r.3) q)
            ]
          ]

      pause-All :
          (x : TransferExecutor W) (i : ℕ) → All P x.transfers → All P (pause x i).0.transfers
      unfolding pause
      pause-All x i p = ground (arith, All-update i suspend x.transfers suspended p)

      cancel-All :
          (x : TransferExecutor W) (i : ℕ) → All P x.transfers → All P (cancel x i).0.transfers
      unfolding cancel
      cancel-All x i p = ground (arith, All-update i cancel_transfer x.transfers cancelled_too p)

      reroute-All :
          (x : TransferExecutor W) (i : ℕ) (path : PathCost W)
          → All P x.transfers
          → All P (reroute x i path).0.transfers
      unfolding reroute
      reroute-All x i path p = ground (
        arith,
        All-update i (reroute_transfer x.graph path) x.transfers (rerouted x.graph path) p,
      )

      Step-All : {x y : TransferExecutor W} → Step x y → All P x.transfers → All P y.transfers
      unfolding preempt_sharing
      Step-All {x} (submits now req path opts h) p = submitted x now req path opts h p
      Step-All {x} (stripes now req chunks opts h k) p = striped x now req chunks opts h k p
      Step-All {x} (pauses i) p = pause-All x i p
      Step-All {x} (cancels i) p = cancel-All x i p
      Step-All {x} (preempts busy limit) p = All-suspend _ x.transfers p
      Step-All {x} (reroutes i path) p = reroute-All x i path p
      Step-All {x} (ticks wire memory dt utils now) p = tick-All x wire memory dt utils now p
      Step-All {x} (drains rounds wire memory utils now sofar) p =
          drain-All rounds x wire memory utils now sofar p

      pub Reach-All : {x y : TransferExecutor W} → Reach x y → All P x.transfers → All P y.transfers
      Reach-All here p = p
      Reach-All (next r st) p = Step-All st (Reach-All r p)
