-- ===== src/Transfer/Control.antt =====
-- transfer/transfer_executor.cpp: `pause`, `resume`, `cancel`, `preempt_sharing` and `reroute`.
use cong_shed.Base.{
  ℕ, Bool, true, false, not, ◌&&◌, ◌||◌, Option, none, some, List, [], ◌∷◌, map, add64, add32,
  if◌then◌else◌, length, take, any, keep, mem,
}
use cong_shed.Base.Int.{ℤ}
use cong_shed.Base.Double.{Double, ◌⊖◌, ◌≺◌}
use cong_shed.Model.{PathCost}
use cong_shed.Topology.{GraphEdge}
use cong_shed.Transfer.State.{
  TransferState, pending, in_flight, paused, rerouting, completed, cancelled, suspend_pending,
  state_eq, ChunkProgress, TransferProgress, TransferExecutor, slot_of, RailFlags, all_free,
  is_taken, claim_rail, shares_edge, rail_of_path, find, update, is_active,
}

-- The chunks that `cancel` leaves alone are the completed ones.
unfoldable pub cancel_chunk : ChunkProgress → ChunkProgress
cancel_chunk ch = if state_eq ch.state completed then ch else record ch { state = cancelled }

-- Paused, pending and in-flight chunks wait again; a chunk that is not completed takes the new path.
unfoldable pub reroute_chunk : List ℕ → ℤ → ChunkProgress → ChunkProgress
reroute_chunk edges rail ch = if state_eq ch.state completed then ch else record ch {
  edge_indices = edges;
  rail_id = rail;
  state =
      if state_eq ch.state paused || (state_eq ch.state pending || state_eq ch.state in_flight)
      then pending
      else ch.state;
}

-- Starts each pending chunk whose rail is free.
unfoldable pub activate : RailFlags → List ChunkProgress → List ChunkProgress
activate busy [] = []
activate busy (ch ∷ chs) =
    let start = state_eq ch.state pending && not (is_taken busy (slot_of ch.rail_id)) in
    (if start then record ch { state = in_flight } else ch)
    ∷ activate (if start then claim_rail busy (slot_of ch.rail_id) else busy) chs

-- The states that `reroute` accepts.
abbrev pub can_reroute : TransferState → Bool
can_reroute paused = true
can_reroute rerouting = true
can_reroute in_flight = true
can_reroute suspend_pending = true
can_reroute _ = false

module _ {W : Type 0} where
  abbrev pub suspend : TransferProgress W → TransferProgress W
  suspend tp = record tp { suspend_at_boundary = true; state = suspend_pending }

  unfoldable pub pause : TransferExecutor W → ℕ → TransferExecutor W × Bool
  unfolding find update
  pause x i = elim (find i x.transfers) [
    | none ↦ (x, false)
    | some tp ↦ if not tp.preemptible || not (is_active tp) then (x, false) else (
      record x {
        transfers = update i suspend x.transfers;
        counters = record x.counters { preempts = add64 x.counters.preempts 1 };
      },
      true,
    )
  ]

  abbrev pub cancel_transfer : TransferProgress W → TransferProgress W
  cancel_transfer tp = record tp {
    state = cancelled;
    bytes_remaining = 0;
    chunks = map cancel_chunk tp.chunks;
  }

  unfoldable pub cancel : TransferExecutor W → ℕ → TransferExecutor W × Bool
  unfolding find update
  cancel x i = elim (find i x.transfers) [
    | none ↦ (x, false)
    | some tp ↦ (record x { transfers = update i cancel_transfer x.transfers }, true)
  ]

  -- A candidate of `preempt_sharing`: a preemptible transfer in flight whose path, or an in-flight
  -- chunk of which, shares a busy edge.
  unfoldable pub is_candidate : List ℕ → TransferProgress W → Bool
  unfolding shares_edge
  is_candidate busy tp =
      tp.preemptible
      && (state_eq tp.state in_flight
          && (shares_edge tp.path_edges busy
              || any (λ ch. state_eq ch.state in_flight && shares_edge ch.edge_indices busy)
                  tp.chunks))

  unfoldable pub suspend_all : List ℕ → List (TransferProgress W) → List (TransferProgress W)
  suspend_all ids [] = []
  suspend_all ids (tp ∷ tps) = (if mem tp.id ids then suspend tp else tp) ∷ suspend_all ids tps

module _ {W : Type 0} ⦃d : Double W⦄ where
  -- `std::sort` by falling slack: insertion, with equal slacks in their old order.
  unfoldable pub insert_slack :
      TransferProgress W → List (TransferProgress W) → List (TransferProgress W)
  insert_slack tp [] = tp ∷ []
  insert_slack tp (x ∷ xs) =
      let rest = insert_slack tp xs in if tp.slack_us ≺ x.slack_us then x ∷ rest else tp ∷ x ∷ xs

  unfoldable pub sort_slack : List (TransferProgress W) → List (TransferProgress W)
  unfolding insert_slack
  sort_slack [] = []
  sort_slack (x ∷ xs) = insert_slack x (sort_slack xs)

  -- The ids of the first `limit` candidates, which are suspended at their next boundary.
  unfoldable pub victims : TransferExecutor W → List ℕ → ℕ → List ℕ
  unfolding is_candidate sort_slack
  victims x busy limit =
      map (λ tp. tp.id) (take limit (sort_slack (keep (is_candidate busy) x.transfers)))

  unfoldable pub preempt_sharing : TransferExecutor W → List ℕ → ℕ → TransferExecutor W × List ℕ
  unfolding victims suspend_all
  preempt_sharing x busy limit =
      let ids = victims x busy limit in
      (
        record x {
          transfers = suspend_all ids x.transfers;
          counters = record x.counters { preempts = add64 x.counters.preempts (length ids) };
        },
        ids,
      )

  unfoldable pub reroute_transfer :
      Option (List (GraphEdge W)) → PathCost W → TransferProgress W → TransferProgress W
  unfolding rail_of_path reroute_chunk activate
  reroute_transfer g path tp =
      let rail = rail_of_path g path.edge_indices in
      record tp {
        chunks = activate all_free (map (reroute_chunk path.edge_indices rail) tp.chunks);
        path_edges = path.edge_indices;
        slack_us = tp.request.deadline_us ⊖ path.latency_us;
        reroute_count = add32 tp.reroute_count 1;
        suspend_at_boundary = false;
        state = in_flight;
      }

  unfoldable pub reroute : TransferExecutor W → ℕ → PathCost W → TransferExecutor W × Bool
  unfolding find update reroute_transfer
  reroute x i path = elim (find i x.transfers) [
    | none ↦ (x, false)
    | some tp ↦ if not (can_reroute tp.state) then (x, false) else (
      record x {
        transfers = update i (reroute_transfer x.graph path) x.transfers;
        counters = record x.counters { reroutes = add64 x.counters.reroutes 1 };
      },
      true,
    )
  ]

  abbrev pub resume : TransferExecutor W → ℕ → PathCost W → TransferExecutor W × Bool
  resume = reroute
