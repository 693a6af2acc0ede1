-- ===== src/PathEngine/Stripe.antt =====
-- path_engine/path_engine.cpp: `stripe_kv_migration`, which cuts a migration into chunks and chooses a
-- path for each.
use cong_shed.Base.{
  ℕ, zero, suc, ◌+◌, ◌-◌, ◌/◌, ◌%◌, min, List, [], ◌∷◌, word32, add64, add32, ◌==◌, if◌then◌else◌,
  get_or, set, is_empty,
}
use cong_shed.Base.Int.{pos, negsuc}
use cong_shed.Base.Double.{Double, ◌⊕◌, ◌⊗◌, fmin, nought}
use cong_shed.Model.{kv_chunk_bytes, ib_rail_count, TransferRequest}
use cong_shed.Topology.{vertex_of}
use cong_shed.PathEngine.{
  ChunkDispatch, PathSelectionEngine, path_rail_id, flexibility_set, path_mean_util, path_cost,
  no_path, cheapest,
}
use cong_shed.PathEngine.Select.{estimate_ms, heat_factor}

module _ {W : Type 0} ⦃d : Double W⦄ where
  open d use {decimal, narrow}

  -- The cost of a path for chunk `seq`: the rail whose turn it is gets a discount.
  unfoldable pub stripe_cost : PathSelectionEngine W → List W → ℕ → W → ℕ → List ℕ → W
  stripe_cost e current size dur_ms seq path =
      let cost = path_cost e path size dur_ms ⊗ heat_factor (path_mean_util path current) in
      elim (path_rail_id e.graph.edges path) [
        | pos rail ↦ if seq % ib_rail_count == rail % word32 then cost ⊗ decimal 92 2 else cost
        | negsuc n ↦ cost
      ]

  -- Adds `by` to the utilization of each edge of the path, up to 0.99.
  unfoldable pub heat_edges : W → List ℕ → List W → List W
  heat_edges by [] utils = utils
  heat_edges by (e ∷ path) utils =
      heat_edges by path
        (set utils e (fmin (narrow (decimal 99 2)) (narrow (get_or utils e nought ⊕ by))))

  -- A choice with no edge falls back on the first candidate.
  unfoldable pub stripe_path : PathSelectionEngine W → List W → ℕ → W → ℕ → List (List ℕ) → List ℕ
  unfolding stripe_cost
  stripe_path e current size dur_ms seq candidates =
      let best = cheapest (stripe_cost e current size dur_ms seq) no_path candidates in
      if is_empty best.edge_indices then get_or candidates 0 [] else best.edge_indices

  -- The `while` loop on fuel: chunks from `offset` on while bytes remain.
  unfoldable pub stripe_from :
      ℕ
      → PathSelectionEngine W
      → List W
      → ℕ
      → W
      → List (List ℕ)
      → ℕ
      → ℕ
      → ℕ
      → PathSelectionEngine W × List ChunkDispatch
  unfolding stripe_path heat_edges
  stripe_from zero e current chunk dur_ms candidates seq offset remaining = (e, [])
  stripe_from (suc fuel) e current chunk dur_ms candidates seq offset remaining =
      let this = min remaining chunk in
      let path = stripe_path e current this dur_ms seq candidates in
      let dispatch : ChunkDispatch = record {
        chunk_seq = seq;
        edge_indices = path;
        chunk_size = this;
        byte_offset = offset;
        rail_id = path_rail_id e.graph.edges path;
      } in
      let rest =
        stripe_from fuel (record e { utils = heat_edges (narrow (decimal 5 2)) path e.utils })
          current chunk dur_ms candidates (add32 seq 1) (add64 offset this) (remaining - this) in
      if remaining == 0 then (e, []) else (rest.0, dispatch ∷ rest.1)

  unfoldable pub stripe_kv_migration :
      PathSelectionEngine W
      → TransferRequest W
      → List W
      → ℕ
      → PathSelectionEngine W × List ChunkDispatch
  unfolding stripe_from
  stripe_kv_migration e req current size =
      let chunk = (if size == 0 then kv_chunk_bytes else size) in
      let src = vertex_of e.graph req.source in
      let dst = vertex_of e.graph req.dest in
      let found = flexibility_set e.graph src dst req.traffic_class in
      if is_empty found.1
      then (record e { graph = found.0 }, [])
      else stripe_from (suc (req.size_bytes / chunk + 1))
          (record e { graph = found.0; utils = current }) current chunk (estimate_ms chunk) found.1
          0 0 req.size_bytes
