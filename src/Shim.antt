-- ===== src/Shim.antt =====
-- shim/shim.hpp and shim.cpp: `HICSShim`, which joins telemetry, prediction, routing and execution.
pub mod Setup
pub mod Ucx
pub mod Plugin
use cong_shed.Base.{
  ℕ, zero, suc, ◌+◌, ◌%◌, Bool, true, false, not, none, some, List, [], ◌∷◌, map, word32, add64,
  ◌==◌, if◌then◌else◌, length, get_or, range,
}
use cong_shed.Base.Double.{Double, ◌⊕◌, ◌⊘◌, nought}
use cong_shed.Model.{
  kv_migration, class_eq, kv_chunk_bytes, ib_rail_count, TransferRequest, PathCost,
}
use cong_shed.Topology.{TopologyGraph, precompute_paths}
use cong_shed.Topology.Build.{build_cluster}
use cong_shed.Ibverbs.{Transport, Memory, Host}
use cong_shed.Ibverbs
use cong_shed.Lstm.{LstmPredictor, push_sample, update_cache}
use cong_shed.Lstm.Forward.{predict_edge}
use cong_shed.Telemetry.{
  TelemetryDaemon, TelemetryBackendKind, Backends, make_daemon, configure_edges,
}
use cong_shed.Telemetry.Ring.{snapshot}
use cong_shed.Transfer.State.{TransferProgress, SubmitOptions, TransferExecutor}
use cong_shed.Transfer.Tick.{tick}
use cong_shed.Transfer.Drain.{get, blank_progress, blank_request}
use cong_shed.PathEngine.{ChunkDispatch, PathSelectionEngine}
use cong_shed.PathEngine.Select.{unregister_kv_flow, select_path}
use cong_shed.PathEngine.Stripe.{stripe_kv_migration}
use cong_shed.PathEngine.Reroute.{drain_boundary_reroutes}
use cong_shed.PathEngine.Schedule.{schedule_and_execute, is_striped}

-- The transport singleton and the host memory stand beside the shim's own fields. `cursor` is the
-- static variable of `refresh_predictions`. The graph, the predictor and the executor are the
-- engine's.
pub record HicsShim (W : Type 0) : Type 0 where
  pub engine : PathSelectionEngine W
  pub telemetry : TelemetryDaemon W
  pub wire : Transport
  pub memory : Memory
  pub cursor : ℕ
  pub decisions_made : ℕ
  pub total_decision_ns : ℕ

-- The readings of the clock that one call makes.
pub record Clock (W : Type 0) : Type 0 where
  pub submitted : W
  pub ticked : ℕ → W
  pub decision_ns : ℕ

abbrev pub first_edges : List ChunkDispatch → List ℕ
first_edges [] = []
first_edges (c ∷ cs) = c.edge_indices

module _ {W : Type 0} where
  abbrev pub edge_count : HicsShim W → ℕ
  edge_count s = length s.engine.graph.edges

  abbrev pub count_decision : ℕ → HicsShim W → HicsShim W
  count_decision ns s = record s {
    decisions_made = add64 s.decisions_made 1;
    total_decision_ns = add64 s.total_decision_ns ns;
  }

  -- The completion callback: a migration that completed is no longer a flow.
  unfoldable pub on_complete :
      PathSelectionEngine W → List (TransferProgress W) → PathSelectionEngine W
  on_complete e [] = e
  on_complete e (tp ∷ tps) =
      on_complete
        (if class_eq tp.request.traffic_class kv_migration then unregister_kv_flow e tp.id else e)
        tps

module _ {W : Type 0} ⦃d : Double W⦄ where
  open d use {decimal, of_nat}

  abbrev pub current_utils : HicsShim W → List W
  current_utils s = snapshot s.telemetry.ring (edge_count s)

  -- A tick of the executor with its callbacks; the list holds the completed transfers.
  unfoldable pub run_tick :
      HicsShim W → W → List W → Clock W → HicsShim W × List (TransferProgress W)
  unfolding on_complete
  run_tick s dt utils clock = elim s.engine.executor [
    | none ↦ (s, [])
    | some x ↦
        let r = tick x s.wire s.memory dt utils clock.ticked in
        (
          record s {
            engine = on_complete (record s.engine { executor = some r.0 }) r.3;
            wire = r.1;
            memory = r.2;
          },
          r.3,
        )
  ]

  -- The sum of the costs that `dispatch_transfer` selects for the chunks.
  unfoldable pub select_chunks :
      PathSelectionEngine W
      → TransferRequest W
      → List W
      → W
      → List ChunkDispatch
      → PathSelectionEngine W × W
  select_chunks e req utils total [] = (e, total)
  select_chunks e req utils total (c ∷ cs) =
      let r = select_path e (record req { size_bytes = c.chunk_size }) utils in
      select_chunks r.0 req utils (total ⊕ r.1.latency_us) cs

  unfoldable pub dispatch_transfer :
      HicsShim W → TransferRequest W → Clock W → HicsShim W × PathCost W
  unfolding select_chunks
  dispatch_transfer s req clock =
      let utils = current_utils s in
      let striped = stripe_kv_migration s.engine req utils kv_chunk_bytes in
      let summed = select_chunks striped.0 req utils nought striped.1 in
      let single = select_path s.engine req utils in
      if is_striped req
      then (
        count_decision clock.decision_ns (record s { engine = summed.0 }),
        record { edge_indices = first_edges striped.1; latency_us = summed.1 },
      )
      else (count_decision clock.decision_ns (record s { engine = single.0 }), single.1)

  abbrev pub has_executor : HicsShim W → Bool
  has_executor s = elim s.engine.executor [ none ↦ false | some x ↦ true ]

  -- Without an executor the request is only dispatched, and the id is 0.
  unfoldable pub submit_transfer :
      HicsShim W → TransferRequest W → SubmitOptions → Clock W → HicsShim W × ℕ
  unfolding run_tick dispatch_transfer
  submit_transfer s req opts clock =
      let utils = current_utils s in
      let scheduled = schedule_and_execute s.engine clock.submitted req utils opts in
      let ticked = (run_tick (record s { engine = scheduled.0 }) (decimal 5 2) utils clock).0 in
      let drained = (drain_boundary_reroutes ticked.engine utils).0 in
      if has_executor s
      then (count_decision clock.decision_ns (record ticked { engine = drained }), scheduled.1)
      else (count_decision clock.decision_ns (dispatch_transfer s req clock).0, 0)

  -- The number of the transfers that completed.
  unfoldable pub poll_transfers : HicsShim W → W → Clock W → HicsShim W × ℕ
  unfolding run_tick
  poll_transfers s dt clock =
      let utils = current_utils s in
      let r = run_tick s dt utils clock in
      if has_executor s
      then (record r.0 { engine = (drain_boundary_reroutes r.0.engine utils).0 }, length r.1)
      else (s, 0)

  unfoldable pub transfer_status : HicsShim W → ℕ → TransferProgress W
  transfer_status s i = elim s.engine.executor [
    | none ↦ blank_progress blank_request
    | some x ↦ get x i
  ]

  -- 0 on success, and -1, here `false`, where no transfer was made.
  unfoldable pub intercept_collective : HicsShim W → TransferRequest W → Clock W → HicsShim W × Bool
  unfolding submit_transfer
  intercept_collective s req clock =
      let r = submit_transfer s req (record { src_buf = 0; dst_buf = 0 }) clock in
      (r.0, not (r.1 == 0))

  abbrev pub intercept_p2p : HicsShim W → TransferRequest W → Clock W → HicsShim W × Bool
  intercept_p2p = intercept_collective

  unfoldable pub avg_decision_latency_us : HicsShim W → W
  avg_decision_latency_us s =
      if s.decisions_made == 0
      then nought
      else of_nat s.total_decision_ns ⊘ of_nat s.decisions_made ⊘ decimal 1000 0
