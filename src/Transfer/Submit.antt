-- ===== src/Transfer/Submit.antt =====
-- transfer/transfer_executor.cpp: `submit` and `submit_striped`. The clock reading `now_ns()` is an
-- argument.
use cong_shed.Base.{ℕ, false, Option, List, [], ◌∷◌, ◌++◌, add64, ltb, if◌then◌else◌, mem}
use cong_shed.Base.Int.{is_nonneg}
use cong_shed.Base.Double.{Double, ◌⊖◌, nought}
use cong_shed.Model.{kv_migration, class_eq, kv_chunk_bytes, TransferRequest, PathCost}
use cong_shed.Topology.{GraphEdge}
use cong_shed.Transfer.State.{
  pending, in_flight, ChunkPath, ChunkProgress, TransferProgress, SubmitOptions, TransferExecutor,
  slot_of, RailFlags, all_free, is_taken, claim_rail, rail_of_path,
}

-- The loop of `submit_striped` over the chunks: the first chunk of each rail starts, the others wait.
unfoldable pub striped_chunks :
    {W : Type 0} → Option (List (GraphEdge W)) → ℕ → RailFlags → List ChunkPath → List ChunkProgress
unfolding rail_of_path
striped_chunks g offset busy [] = []
striped_chunks g offset busy (c ∷ cs) =
    let rail = (if is_nonneg c.rail_id then c.rail_id else rail_of_path g c.edge_indices) in
    let taken = is_taken busy (slot_of rail) in
    record {
      chunk_seq = c.chunk_seq;
      edge_indices = c.edge_indices;
      byte_offset = if ltb 0 c.byte_offset then c.byte_offset else offset;
      chunk_size = c.chunk_size;
      bytes_sent = 0;
      rail_id = rail;
      state = if taken then pending else in_flight;
    }
    ∷ striped_chunks g (add64 offset c.chunk_size)
        (if taken then busy else claim_rail busy (slot_of rail)) cs

-- Adds the edges that are not there yet, in order.
unfoldable pub add_edges : List ℕ → List ℕ → List ℕ
add_edges path [] = path
add_edges path (e ∷ es) = add_edges (if mem e path then path else path ++ (e ∷ [])) es

unfoldable pub striped_edges : List ℕ → List ChunkPath → List ℕ
unfolding add_edges
striped_edges path [] = path
striped_edges path (c ∷ cs) = striped_edges (add_edges path c.edge_indices) cs

-- `chunks.front().chunk_size > 0 ? … : kKvChunkBytes`
abbrev pub quantum_of : List ChunkPath → ℕ
quantum_of [] = kv_chunk_bytes
quantum_of (c ∷ cs) = if ltb 0 c.chunk_size then c.chunk_size else kv_chunk_bytes

module _ {W : Type 0} ⦃d : Double W⦄ where
  unfoldable pub submit :
      TransferExecutor W
      → W
      → TransferRequest W
      → PathCost W
      → SubmitOptions
      → TransferExecutor W × ℕ
  unfolding rail_of_path
  submit x now req path opts =
      let chunk : ChunkProgress = record {
        chunk_seq = 0;
        edge_indices = path.edge_indices;
        byte_offset = 0;
        chunk_size = req.size_bytes;
        bytes_sent = 0;
        rail_id = rail_of_path x.graph path.edge_indices;
        state = in_flight;
      } in
      let tp : TransferProgress W = record {
        id = x.next_id;
        state = in_flight;
        request = req;
        path_edges = path.edge_indices;
        bytes_total = req.size_bytes;
        bytes_sent = 0;
        bytes_remaining = req.size_bytes;
        slack_us = req.deadline_us ⊖ path.latency_us;
        started_ns = now;
        reroute_count = 0;
        preemptible = class_eq req.traffic_class kv_migration;
        src_buf = opts.src_buf;
        dst_buf = opts.dst_buf;
        chunk_quantum = kv_chunk_bytes;
        chunks = chunk ∷ [];
        active_chunk = 0;
        suspend_at_boundary = false;
      } in
      (record x { transfers = tp ∷ x.transfers; next_id = add64 x.next_id 1 }, x.next_id)

  unfoldable pub submit_striped :
      TransferExecutor W
      → W
      → TransferRequest W
      → List ChunkPath
      → SubmitOptions
      → TransferExecutor W × ℕ
  unfolding submit striped_chunks striped_edges
  submit_striped x now req [] opts =
      submit x now req (record { edge_indices = []; latency_us = nought }) opts
  submit_striped x now req (c ∷ cs) opts =
      let tp : TransferProgress W = record {
        id = x.next_id;
        state = in_flight;
        request = req;
        path_edges = striped_edges [] (c ∷ cs);
        bytes_total = req.size_bytes;
        bytes_sent = 0;
        bytes_remaining = req.size_bytes;
        slack_us = req.deadline_us;
        started_ns = now;
        reroute_count = 0;
        preemptible = class_eq req.traffic_class kv_migration;
        src_buf = opts.src_buf;
        dst_buf = opts.dst_buf;
        chunk_quantum = quantum_of (c ∷ cs);
        chunks = striped_chunks x.graph 0 all_free (c ∷ cs);
        active_chunk = 0;
        suspend_at_boundary = false;
      } in
      (record x { transfers = tp ∷ x.transfers; next_id = add64 x.next_id 1 }, x.next_id)
