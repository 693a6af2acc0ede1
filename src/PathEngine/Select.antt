-- ===== src/PathEngine/Select.antt =====
-- path_engine/path_engine.cpp: the register of KV flows, `preempt_kv_migrations` and `select_path`.
use cong_shed.Base.{
  ℕ, Bool, true, false, not, ◌&&◌, ◌||◌, none, some, List, [], ◌∷◌, ◌++◌, map, add64, ◌==◌,
  if◌then◌else◌, length, keep,
}
use cong_shed.Base.Double.{Double, ◌⊕◌, ◌⊗◌, ◌⊘◌, ◌≺◌, one}
use cong_shed.Model.{tensor_parallel, kv_migration, class_eq, TransferRequest, PathCost}
use cong_shed.Topology.{vertex_of, no_vertex}
use cong_shed.Transfer.State.{shares_edge}
use cong_shed.Transfer.Control.{preempt_sharing}
use cong_shed.PathEngine.{
  KvMigrationFlow, PathSelectionEngine, flexibility_set, path_mean_util, path_cost, no_path,
  cheapest,
}

module _ {W : Type 0} where
  unfoldable pub register_kv_flow :
      PathSelectionEngine W → ℕ → ℕ → ℕ → ℕ → W → List ℕ → PathSelectionEngine W
  register_kv_flow e i src dst bytes slack edges =
      let flow : KvMigrationFlow W = record {
        id = i;
        src = src;
        dst = dst;
        bytes_remaining = bytes;
        slack_us = slack;
        is_paused = false;
        edges = edges;
      } in
      record e { kv_flows = e.kv_flows ++ (flow ∷ []) }

  unfoldable pub unregister_kv_flow : PathSelectionEngine W → ℕ → PathSelectionEngine W
  unregister_kv_flow e i = record e { kv_flows = keep (λ f. not (f.id == i)) e.kv_flows }

  -- A flow that runs and shares a busy edge is paused.
  abbrev pub must_pause : List ℕ → KvMigrationFlow W → Bool
  must_pause busy f = not f.is_paused && (not (f.bytes_remaining == 0) && shares_edge f.edges busy)

  unfoldable pub pause_flows : List ℕ → List (KvMigrationFlow W) → List (KvMigrationFlow W) × List ℕ
  pause_flows busy [] = ([], [])
  pause_flows busy (f ∷ fs) =
      let rest = pause_flows busy fs in
      if must_pause busy f
      then (record f { is_paused = true } ∷ rest.0, f.id ∷ rest.1)
      else (f ∷ rest.0, rest.1)

module _ {W : Type 0} ⦃d : Double W⦄ where
  open d use {decimal, of_nat}

  -- `std::sort` by falling slack: insertion, with equal slacks in their old order.
  unfoldable pub insert_flow :
      KvMigrationFlow W → List (KvMigrationFlow W) → List (KvMigrationFlow W)
  insert_flow f [] = f ∷ []
  insert_flow f (x ∷ xs) =
      let rest = insert_flow f xs in if f.slack_us ≺ x.slack_us then x ∷ rest else f ∷ x ∷ xs

  unfoldable pub sort_flows : List (KvMigrationFlow W) → List (KvMigrationFlow W)
  unfolding insert_flow
  sort_flows [] = []
  sort_flows (x ∷ xs) = insert_flow x (sort_flows xs)

  -- With an executor its transfers are suspended at a chunk boundary, and rerouted later if asked;
  -- without one the engine's own flows are paused.
  unfoldable pub preempt_kv_migrations :
      PathSelectionEngine W → List ℕ → Bool → PathSelectionEngine W × List ℕ
  unfolding pause_flows sort_flows
  preempt_kv_migrations e busy do_reroute = elim e.executor [
    | some x ↦
        let r = preempt_sharing x busy 8 in
        let requests = map (λ i. record { id = i; avoid_edges = busy }) r.1 in
        (
          record e {
            executor = some r.0;
            preempt_events = add64 e.preempt_events (length r.1);
            pending_reroutes =
                if do_reroute then e.pending_reroutes ++ requests else e.pending_reroutes;
          },
          r.1,
        )
    | none ↦
        let r = pause_flows busy (sort_flows e.kv_flows) in
        (record e { kv_flows = r.0; preempt_events = add64 e.preempt_events (length r.1) }, r.1)
  ]

  -- `size / 1e9 / 50.0 * 1000.0`
  abbrev pub estimate_ms : ℕ → W
  estimate_ms size = of_nat size ⊘ decimal 1000000000 0 ⊘ decimal 50 0 ⊗ decimal 1000 0

  -- `0.75 + 0.5 * mean`
  abbrev pub heat_factor : W → W
  heat_factor mean = decimal 75 2 ⊕ decimal 5 1 ⊗ mean

  -- The cost by which `select_path` compares its candidates.
  unfoldable pub select_cost : PathSelectionEngine W → TransferRequest W → List W → List ℕ → W
  select_cost e req utils path =
      let cost = path_cost e path req.size_bytes (estimate_ms req.size_bytes) in
      if class_eq req.traffic_class kv_migration
      then cost ⊗ heat_factor (path_mean_util path utils)
      else cost

  -- The choice among the candidates; a tensor-parallel request that misses its deadline preempts.
  unfoldable pub select_among :
      PathSelectionEngine W
      → TransferRequest W
      → List W
      → List (List ℕ)
      → PathSelectionEngine W × PathCost W
  unfolding select_cost preempt_kv_migrations
  select_among e req utils [] = (e, no_path)
  select_among e req utils (p ∷ []) =
      let dur_ms = path_cost e p req.size_bytes one ⊘ decimal 1000 0 in
      (e, record { edge_indices = p; latency_us = path_cost e p req.size_bytes dur_ms })
  select_among e req utils (p ∷ q ∷ ps) =
      let best = cheapest (select_cost e req utils) no_path (p ∷ q ∷ ps) in
      if class_eq req.traffic_class tensor_parallel && (req.deadline_us ≺ best.latency_us)
      then ((preempt_kv_migrations e best.edge_indices true).0, best)
      else (e, best)

  unfoldable pub select_path :
      PathSelectionEngine W → TransferRequest W → List W → PathSelectionEngine W × PathCost W
  unfolding select_among
  select_path e req utils =
      let e' = record e { utils = utils } in
      let src = vertex_of e.graph req.source in
      let dst = vertex_of e.graph req.dest in
      let found = flexibility_set e.graph src dst req.traffic_class in
      if (src == no_vertex) || (dst == no_vertex)
      then (e', no_path)
      else select_among (record e' { graph = found.0 }) req utils found.1
