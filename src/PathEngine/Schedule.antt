-- ===== src/PathEngine/Schedule.antt =====
-- path_engine/path_engine.cpp: `schedule_and_execute`.
use cong_shed.Base.{ℕ, Bool, ◌&&◌, none, some, List, [], ◌∷◌, ◌++◌, map, ltb, if◌then◌else◌}
use cong_shed.Base.Double.{Double, ◌⊖◌}
use cong_shed.Model.{kv_migration, class_eq, kv_chunk_bytes, TransferRequest}
use cong_shed.Topology.{vertex_of}
use cong_shed.Transfer.State.{ChunkPath, SubmitOptions, TransferExecutor}
use cong_shed.Transfer.Submit.{submit, submit_striped}
use cong_shed.PathEngine.{ChunkDispatch, PathSelectionEngine}
use cong_shed.PathEngine.Select.{register_kv_flow, select_path}
use cong_shed.PathEngine.Stripe.{stripe_kv_migration}

abbrev pub chunk_path : ChunkDispatch → ChunkPath
chunk_path c = record {
  chunk_seq = c.chunk_seq;
  edge_indices = c.edge_indices;
  chunk_size = c.chunk_size;
  byte_offset = c.byte_offset;
  rail_id = c.rail_id;
}

-- The edges of all the chunks, one after the other.
abbrev pub dispatch_edges : List ChunkDispatch → List ℕ
dispatch_edges [] = []
dispatch_edges (c ∷ cs) = c.edge_indices ++ dispatch_edges cs

module _ {W : Type 0} ⦃d : Double W⦄ where
  -- A migration of more than one chunk is striped.
  abbrev pub is_striped : TransferRequest W → Bool
  is_striped req = class_eq req.traffic_class kv_migration && ltb kv_chunk_bytes req.size_bytes

  -- `select_path` may have preempted, so the executor is the one that it leaves.
  unfoldable pub submit_single :
      PathSelectionEngine W
      → W
      → TransferRequest W
      → List W
      → SubmitOptions
      → PathSelectionEngine W × ℕ
  submit_single e now req current opts =
      let r = select_path e req current in
      elim r.0.executor [
        | none ↦ (r.0, 0)
        | some x ↦
            let s = submit x now req r.1 opts in
            let e' = record r.0 { executor = some s.0 } in
            let src = vertex_of e'.graph req.source in
            let dst = vertex_of e'.graph req.dest in
            (
              if class_eq req.traffic_class kv_migration
                  then register_kv_flow e' s.1 src dst req.size_bytes
                      (req.deadline_us ⊖ r.1.latency_us) r.1.edge_indices
                  else e',
              s.1,
            )
      ]

  unfoldable pub submit_chunks :
      PathSelectionEngine W
      → TransferExecutor W
      → W
      → TransferRequest W
      → List W
      → SubmitOptions
      → PathSelectionEngine W × ℕ
  submit_chunks e x now req current opts =
      let r = stripe_kv_migration e req current kv_chunk_bytes in
      let s = submit_striped x now req (map chunk_path r.1) opts in
      let e' = record r.0 { executor = some s.0 } in
      (
        register_kv_flow e' s.1 (vertex_of e'.graph req.source) (vertex_of e'.graph req.dest)
            req.size_bytes req.deadline_us (dispatch_edges r.1),
        s.1,
      )

  -- 0 where there is no executor.
  unfoldable pub schedule_and_execute :
      PathSelectionEngine W
      → W
      → TransferRequest W
      → List W
      → SubmitOptions
      → PathSelectionEngine W × ℕ
  unfolding submit_single submit_chunks
  schedule_and_execute e now req current opts = elim e.executor [
    | none ↦ (e, 0)
    | some x ↦
        if is_striped req
        then submit_chunks e x now req current opts
        else submit_single e now req current opts
  ]
