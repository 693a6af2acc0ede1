-- ===== src/PathEngine.antt =====
-- path_engine/path_engine.cpp: the state of the engine, the admissible paths and their cost.
pub mod Select
pub mod Choice
pub mod Tiling
pub mod Handover
pub mod Requests
pub mod Moved
pub mod Turn
pub mod Stripe
pub mod Reroute
pub mod Schedule
use cong_shed.Base.{
  ℕ, zero, suc, ◌+◌, ◌-◌, ◌*◌, ◌/◌, ◌%◌, ◌^◌, ◌≤◌, ◌<◌, min, max, ◌≡◌, refl, sym, ap, ap₂, ◌∙◌,
  subst, ◌≢◌, ◌↔◌, ◌⊎◌, inl, inr, Bool, true, false, not, ◌&&◌, ◌||◌, Option, none, some, List, [],
  ◌∷◌, ◌++◌, map, arith, word64, word32, add64, sub64, add32, ltb, leb, ◌==◌, if◌then◌else◌, ltb→lt,
  lt→ltb, leb→le, ==_iff, tests, Bool-cases, Option-cases, length, get_elem?, get_or, set, take,
  replicate, All, any, keep, is_empty, length-append, length-set, get_or-set_self, get_or-set_ne,
  All-append, All-map, All_mono, mem, range_from, range,
}
use cong_shed.Base.Int.{ℤ, pos, negsuc, is_nonneg, pos_part, eqb_ℤ}
use cong_shed.Base.Double.{
  Double, ◌⊕◌, ◌⊖◌, ◌⊗◌, ◌⊘◌, ◌≺◌, fmin, fmax, fclamp, nought, one, IsOrdered,
}
use cong_shed.Model.{
  FabricType, nvlink, pcie, cxl, infiniband, TrafficClass, tensor_parallel, pipeline_parallel,
  kv_migration, EndpointType, gpu, cpu, cxl_controller, ib_port, EndpointId, fabric_eq, class_eq,
  kind_eq, endpoint_eq, EdgeAttributes, kv_chunk_bytes, ib_rail_count, TransferRequest, PathCost,
  contention_exponent, default_fabric_attrs,
}
use cong_shed.Topology.{GraphEdge, TopologyGraph, vertex_of, no_vertex, edge_latency_us}
use cong_shed.Topology.Search.{paths}
use cong_shed.Lstm.{LstmPredictor, effective_util}
use cong_shed.Ibverbs.{Transport, Memory}
use cong_shed.Transfer.State.{
  TransferState, pending, in_flight, paused, rerouting, completed, cancelled, suspend_pending,
  state_eq, ChunkPath, TransferProgress, SubmitOptions, TransferExecutor, first_rail, shares_edge,
}
use cong_shed.Transfer.Submit.{submit, submit_striped}
use cong_shed.Transfer.Control.{preempt_sharing, reroute}
use cong_shed.Transfer.Drain.{get}

pub record KvMigrationFlow (W : Type 0) : Type 0 where
  pub id : ℕ
  pub src : ℕ
  pub dst : ℕ
  pub bytes_remaining : ℕ
  pub slack_us : W
  pub is_paused : Bool
  pub edges : List ℕ

pub record PendingReroute : Type 0 where
  pub id : ℕ
  pub avoid_edges : List ℕ

pub record ChunkDispatch : Type 0 where
  pub chunk_seq : ℕ
  pub edge_indices : List ℕ
  pub chunk_size : ℕ
  pub byte_offset : ℕ
  pub rail_id : ℤ

-- The engine with what it refers to: the graph, the predictor and, once set, the executor.
pub record PathSelectionEngine (W : Type 0) : Type 0 where
  pub graph : TopologyGraph W
  pub predictor : LstmPredictor W
  pub executor : Option (TransferExecutor W)
  pub utils : List W
  pub preempt_events : ℕ
  pub reroute_events : ℕ
  pub kv_flows : List (KvMigrationFlow W)
  pub pending_reroutes : List PendingReroute

-- The fabrics that a traffic class may use.
unfoldable pub admits : TrafficClass → FabricType → Bool
admits tensor_parallel f = fabric_eq f nvlink || fabric_eq f infiniband
admits pipeline_parallel f = true
admits kv_migration f = not (fabric_eq f pcie)

module _ {W : Type 0} where
  abbrev pub edge_admits : TrafficClass → Option (GraphEdge W) → Bool
  edge_admits cls none = true
  edge_admits cls (some e) = admits cls e.attrs.fabric

  -- Every edge of the path is admitted. The paths of the search name edges that are there.
  unfoldable pub path_admits : TrafficClass → List (GraphEdge W) → List ℕ → Bool
  unfolding admits
  path_admits cls edges [] = true
  path_admits cls edges (e ∷ path) =
      edge_admits cls (get_elem? edges e) && path_admits cls edges path

  -- `path_rail_id`: -1 where no edge lies on a rail
  unfoldable pub path_rail_id : List (GraphEdge W) → List ℕ → ℤ
  unfolding first_rail
  path_rail_id edges path = first_rail edges path (negsuc 0)

module _ {W : Type 0} ⦃d : Double W⦄ where
  open d use {of_nat, max_value}

  unfoldable pub flexibility_set :
      TopologyGraph W → ℕ → ℕ → TrafficClass → TopologyGraph W × List (List ℕ)
  unfolding path_admits
  flexibility_set g src dst cls =
      let r = paths g src dst in
      let admissible = keep (path_admits cls g.edges) r.1 in
      (r.0, if is_empty admissible && class_eq cls kv_migration then r.1 else admissible)

  -- The sum and the number of the utilizations that are known on the path.
  unfoldable pub known_utils : List W → W → ℕ → List ℕ → W × ℕ
  known_utils utils sum n [] = (sum, n)
  known_utils utils sum n (e ∷ path) = elim (get_elem? utils e) [
    | none ↦ known_utils utils sum n path
    | some u ↦ known_utils utils (sum ⊕ u) (suc n) path
  ]

  unfoldable pub path_mean_util : List ℕ → List W → W
  unfolding known_utils
  path_mean_util [] utils = one
  path_mean_util (e ∷ path) utils =
      let r = known_utils utils nought 0 (e ∷ path) in if r.1 == 0 then nought else r.0 ⊘ of_nat r.1

  -- The loop of `path_cost`, over the edges of the graph and the utilizations that the engine holds.
  unfoldable pub cost_from : List (GraphEdge W) → LstmPredictor W → List W → ℕ → W → W → List ℕ → W
  cost_from edges p utils size dur_ms total [] = total
  cost_from edges p utils size dur_ms total (e ∷ path) = elim (get_elem? edges e) [
    | none ↦ cost_from edges p utils size dur_ms total path
    | some x ↦
        let util = effective_util p e (get_or utils e nought) dur_ms in
        cost_from edges p utils size dur_ms (total ⊕ edge_latency_us x.attrs size util) path
  ]

  unfoldable pub path_cost : PathSelectionEngine W → List ℕ → ℕ → W → W
  unfolding cost_from
  path_cost e path size dur_ms = cost_from e.graph.edges e.predictor e.utils size dur_ms nought path

  abbrev pub no_path : PathCost W
  no_path = record { edge_indices = []; latency_us = max_value }

  -- Keeps the first of the cheapest paths.
  unfoldable pub cheapest : (List ℕ → W) → PathCost W → List (List ℕ) → PathCost W
  cheapest cost best [] = best
  cheapest cost best (p ∷ ps) =
      cheapest cost
        (if cost p ≺ best.latency_us
          then record { edge_indices = p; latency_us = cost p }
          else best)
        ps
