-- ===== src/PathEngine/Reroute.antt =====
-- path_engine/path_engine.cpp: `drain_boundary_reroutes`, which moves suspended migrations to cooler
-- rails.
use cong_shed.Base.{
  ℕ, suc, Bool, true, false, not, ◌&&◌, ◌||◌, none, some, List, [], ◌∷◌, add64, ◌==◌, if◌then◌else◌,
  is_empty,
}
use cong_shed.Base.Int.{is_nonneg, eqb_ℤ}
use cong_shed.Base.Double.{Double, ◌⊖◌, ◌⊗◌, ◌≺◌, nought}
use cong_shed.Model.{PathCost}
use cong_shed.Topology.{vertex_of}
use cong_shed.Transfer.State.{
  paused, completed, cancelled, state_eq, TransferProgress, TransferExecutor, shares_edge,
}
use cong_shed.Transfer.Control.{reroute}
use cong_shed.Transfer.Drain.{get}
use cong_shed.PathEngine.{
  KvMigrationFlow, PendingReroute, PathSelectionEngine, path_rail_id, flexibility_set,
  path_mean_util, path_cost, no_path, cheapest,
}
use cong_shed.PathEngine.Select.{estimate_ms, heat_factor}
use cong_shed.PathEngine.Stripe.{heat_edges}

module _ {W : Type 0} ⦃d : Double W⦄ where
  open d use {decimal, narrow}

  -- The cost of a path for the rest of a suspended migration: half of it off the busy edges, and less
  -- on the other rail.
  unfoldable pub reroute_cost : PathSelectionEngine W → List ℕ → List W → ℕ → List ℕ → W
  reroute_cost e avoid utils remain path =
      let cost = path_cost e path remain (estimate_ms remain) in
      let apart = (if not (shares_edge path avoid) then cost ⊗ decimal 5 1 else cost) in
      let rail = path_rail_id e.graph.edges path in
      let busy_rail = path_rail_id e.graph.edges avoid in
      let other =
        (if is_nonneg busy_rail && (is_nonneg rail && not (eqb_ℤ rail busy_rail))
          then apart ⊗ decimal 6 1
          else apart) in
      other ⊗ heat_factor (path_mean_util path utils)

  -- The flow of a transfer that was rerouted runs again on its new path.
  unfoldable pub restart_flows :
      ℕ → PathCost W → ℕ → W → List (KvMigrationFlow W) → List (KvMigrationFlow W)
  restart_flows i best remain deadline [] = []
  restart_flows i best remain deadline (f ∷ fs) =
      (if f.id == i
        then record f {
          is_paused = false;
          edges = best.edge_indices;
          bytes_remaining = remain;
          slack_us = if nought ≺ best.latency_us then deadline ⊖ best.latency_us else f.slack_us;
        }
        else f)
      ∷ restart_flows i best remain deadline fs

  -- Chooses a path for the transfer and hands it over; the flag says that the executor took it.
  unfoldable pub reroute_paused :
      PathSelectionEngine W
      → TransferExecutor W
      → PendingReroute
      → TransferProgress W
      → List W
      → PathSelectionEngine W × Bool
  unfolding heat_edges reroute_cost restart_flows
  reroute_paused e x pr prog current =
      let utils = heat_edges (decimal 5 1) pr.avoid_edges current in
      let src = vertex_of e.graph prog.request.source in
      let dst = vertex_of e.graph prog.request.dest in
      let found = flexibility_set e.graph src dst prog.request.traffic_class in
      let e' = record e { graph = found.0; utils = if is_empty found.1 then e.utils else utils } in
      let best =
        cheapest (reroute_cost e' pr.avoid_edges utils prog.bytes_remaining) no_path found.1 in
      let r = reroute x pr.id best in
      if is_empty best.edge_indices || not r.1 then (e', false) else (
        record e' {
          executor = some r.0;
          reroute_events = add64 e'.reroute_events 1;
          kv_flows =
              restart_flows pr.id best prog.bytes_remaining prog.request.deadline_us e'.kv_flows;
        },
        true,
      )

  -- One request; the flag says that it is done with, and otherwise it stays.
  unfoldable pub drain_one :
      PathSelectionEngine W
      → TransferExecutor W
      → PendingReroute
      → List W
      → PathSelectionEngine W × Bool
  unfolding reroute_paused
  drain_one e x pr current =
      let prog = get x pr.id in
      if state_eq prog.state completed || state_eq prog.state cancelled
      then (e, true)
      else if not (state_eq prog.state paused)
      then (e, false)
      else if prog.bytes_remaining == 0
      then (e, true)
      else reroute_paused e x pr prog current

  -- The requests in turn: the number done and those that stay.
  unfoldable pub drain_requests :
      PathSelectionEngine W
      → List PendingReroute
      → List W
      → PathSelectionEngine W × ℕ × List PendingReroute
  unfolding drain_one
  drain_requests e [] current = (e, 0, [])
  drain_requests e (pr ∷ prs) current = elim e.executor [
    | none ↦ (e, 0, pr ∷ prs)
    | some x ↦
        let r = drain_one e x pr current in
        let rest = drain_requests r.0 prs current in
        (rest.0, if r.1 then suc rest.1 else rest.1, if r.1 then rest.2 else pr ∷ rest.2)
  ]

  unfoldable pub drain_boundary_reroutes :
      PathSelectionEngine W → List W → PathSelectionEngine W × ℕ
  unfolding drain_requests
  drain_boundary_reroutes e current =
      let r = drain_requests e e.pending_reroutes current in
      (record r.0 { pending_reroutes = r.2 }, r.1)
