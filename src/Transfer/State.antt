-- ===== src/Transfer/State.antt =====
-- transfer/transfer_executor.hpp: chunks, transfers and the executor with its counters.
use cong_shed.Base.{
  ℕ, ◌%◌, Bool, true, false, ◌||◌, Option, none, some, List, [], ◌∷◌, ◌==◌, if◌then◌else◌,
  get_elem?, any, mem,
}
use cong_shed.Base.Int.{ℤ, pos, negsuc, is_nonneg}
use cong_shed.Base.Double.{milli}
use cong_shed.Model.{ib_rail_count, TransferRequest}
use cong_shed.Topology.{GraphEdge}

pub data TransferState : Type 0 where
  pending in_flight paused rerouting completed cancelled suspend_pending : TransferState

abbrev pub state_eq : TransferState → TransferState → Bool
state_eq pending pending = true
state_eq in_flight in_flight = true
state_eq paused paused = true
state_eq rerouting rerouting = true
state_eq completed completed = true
state_eq cancelled cancelled = true
state_eq suspend_pending suspend_pending = true
state_eq _ _ = false

pub record ChunkPath : Type 0 where
  pub chunk_seq : ℕ
  pub edge_indices : List ℕ
  pub chunk_size : ℕ
  pub byte_offset : ℕ
  pub rail_id : ℤ

pub record ChunkProgress : Type 0 where
  pub chunk_seq : ℕ
  pub edge_indices : List ℕ
  pub byte_offset : ℕ
  pub chunk_size : ℕ
  pub bytes_sent : ℕ
  pub rail_id : ℤ
  pub state : TransferState

pub record TransferProgress (W : Type 0) : Type 0 where
  pub id : ℕ
  pub state : TransferState
  pub request : TransferRequest W
  pub path_edges : List ℕ
  pub bytes_total : ℕ
  pub bytes_sent : ℕ
  pub bytes_remaining : ℕ
  pub slack_us : W
  pub started_ns : W
  pub reroute_count : ℕ
  pub preemptible : Bool
  -- addresses, 0 where no buffer is bound
  pub src_buf : ℕ
  pub dst_buf : ℕ
  pub chunk_quantum : ℕ
  pub chunks : List ChunkProgress
  pub active_chunk : ℕ
  pub suspend_at_boundary : Bool

pub record SubmitOptions : Type 0 where
  pub src_buf : ℕ
  pub dst_buf : ℕ

-- The atomic counters.
pub record Counters : Type 0 where
  pub completed : ℕ
  pub preempts : ℕ
  pub reroutes : ℕ
  pub bytes_transferred : ℕ
  pub boundary_suspends : ℕ

-- `graph_` is read for its edges alone, and `transfers_` stands in the order of its iteration.
pub record TransferExecutor (W : Type 0) : Type 0 where
  pub graph : Option (List (GraphEdge W))
  pub transfers : List (TransferProgress W)
  pub next_id : ℕ
  pub counters : Counters

-- `rail_id >= 0 ? rail_id % kIbRailCount : 0`
abbrev pub slot_of : ℤ → ℕ
slot_of (pos r) = r % ib_rail_count
slot_of (negsuc n) = 0

-- The flags of `rail_inflight` and `rail_busy`, one for each of the two rails.
pub record RailFlags : Type 0 where
  pub rail0 : Bool
  pub rail1 : Bool

abbrev pub all_free : RailFlags
all_free = record { rail0 = false; rail1 = false }

abbrev pub is_taken : RailFlags → ℕ → Bool
is_taken f s = if s == 0 then f.rail0 else f.rail1

abbrev pub claim_rail : RailFlags → ℕ → RailFlags
claim_rail f s = if s == 0 then record f { rail0 = true } else record f { rail1 = true }

-- `path` shares an edge with `busy`.
unfoldable pub shares_edge : List ℕ → List ℕ → Bool
shares_edge path busy = any (λ e. mem e busy) path

module _ {W : Type 0} where
  -- The first edge of the path that lies on a rail names it.
  unfoldable pub first_rail : List (GraphEdge W) → List ℕ → ℤ → ℤ
  first_rail edges [] other = other
  first_rail edges (e ∷ path) other = elim (get_elem? edges e) [
    | none ↦ first_rail edges path other
    | some x ↦
        let rest = first_rail edges path other in
        if is_nonneg x.attrs.rail_id then x.attrs.rail_id else rest
  ]

  unfoldable pub rail_of_path : Option (List (GraphEdge W)) → List ℕ → ℤ
  unfolding first_rail
  rail_of_path none path = pos 0
  rail_of_path (some edges) path = first_rail edges path (pos 0)

  -- `transfers_.find(id)`
  unfoldable pub find : ℕ → List (TransferProgress W) → Option (TransferProgress W)
  find i [] = none
  find i (tp ∷ tps) = let rest = find i tps in if tp.id == i then some tp else rest

  -- An update in place of the transfer `i`.
  unfoldable pub update :
      ℕ
      → (TransferProgress W → TransferProgress W)
      → List (TransferProgress W)
      → List (TransferProgress W)
  update i f [] = []
  update i f (tp ∷ tps) = if tp.id == i then f tp ∷ tps else tp ∷ update i f tps

  abbrev pub is_active : TransferProgress W → Bool
  is_active tp = state_eq tp.state in_flight || state_eq tp.state suspend_pending
