-- ===== src/Shim/Setup.antt =====
-- shim/shim.cpp: `initialize`, `run_profiling_sweep` and `refresh_predictions`.
use Prim.Native.String.{String}
use text.Mathlib.Text.{◌==◌ as str_eq}
use cong_shed.Base.{
  Option, true, ℕ, zero, suc, ◌+◌, ◌%◌, Bool, none, some, List, [], ◌∷◌, map, word32, ◌==◌,
  if◌then◌else◌, length, get_or, range,
}
use cong_shed.Base.Double.{Double, nought}
use cong_shed.Model.{ib_rail_count}
use cong_shed.Topology.{TopologyGraph, precompute_paths}
use cong_shed.Topology.Build.{build_cluster}
use cong_shed.Ibverbs.{Transport, Memory, Host}
use cong_shed.Ibverbs
use cong_shed.Lstm.{LstmPredictor, push_sample, update_cache}
use cong_shed.Lstm.Shape.{new_predictor}
use cong_shed.Lstm.File.{load_weights}
use cong_shed.Telemetry.Thread.{stop}
use cong_shed.Lstm.Forward.{predict_edge}
use cong_shed.Telemetry.{TelemetryBackendKind, auto, Backends, make_daemon, configure_edges}
use cong_shed.Transfer.State.{TransferExecutor}
use cong_shed.PathEngine.{PathSelectionEngine}
use cong_shed.Shim.{HicsShim, edge_count, current_utils}

pub record InitOptions : Type 0 where
  pub num_nodes : ℕ
  pub gpus_per_node : ℕ
  pub enable_executor : Bool
  pub enable_telemetry : Bool
  pub preferred : TelemetryBackendKind
  pub allow_synthetic_fallback : Bool

abbrev pub default_options : InitOptions
default_options = record {
  num_nodes = 8;
  gpus_per_node = 8;
  enable_executor = true;
  enable_telemetry = true;
  preferred = auto;
  allow_synthetic_fallback = true;
}

-- `kBatch`
abbrev pub batch : ℕ
batch = 8

module _ {W : Type 0} ⦃d : Double W⦄ where
  -- One sample for each edge from `e` on.
  unfoldable pub push_all : LstmPredictor W → ℕ → List W → LstmPredictor W
  push_all p e [] = p
  push_all p e (u ∷ us) = push_all (push_sample p (e % word32) u) (suc e) us

  -- Predicts the listed edges and keeps the predictions.
  unfoldable pub predict_all : LstmPredictor W → List W → List ℕ → LstmPredictor W
  predict_all p utils [] = p
  predict_all p utils (e ∷ es) =
      predict_all
        (update_cache p (e % word32) (get_or utils e nought) (predict_edge p (e % word32))) utils es

  unfoldable pub refresh_predictions : HicsShim W → HicsShim W
  unfolding push_all predict_all
  refresh_predictions s =
      let utils = current_utils s in
      let n = edge_count s in
      let pushed = push_all s.engine.predictor 0 utils in
      let next = predict_all pushed utils (map (λ i. (s.cursor + i) % n) (range batch)) in
      if n == 0 then record s { engine = record s.engine { predictor = pushed } } else record s {
        engine = record s.engine { predictor = next };
        cursor = (s.cursor + batch) % n;
      }

  -- `rounds` is how often the sweep's 200 ms let it refresh.
  unfoldable pub refresh_rounds : ℕ → HicsShim W → HicsShim W
  unfolding refresh_predictions
  refresh_rounds zero s = s
  refresh_rounds (suc n) s = refresh_rounds n (refresh_predictions s)

  unfoldable pub run_profiling_sweep : ℕ → HicsShim W → HicsShim W
  unfolding push_all predict_all refresh_rounds
  run_profiling_sweep rounds s =
      let utils = current_utils s in
      let pushed = push_all s.engine.predictor 0 utils in
      let warm = predict_all pushed utils (range (edge_count s)) in
      refresh_rounds rounds (record s { engine = record s.engine { predictor = warm } })

  abbrev pub new_executor : TopologyGraph W → TransferExecutor W
  new_executor g = record {
    graph = some g.edges;
    transfers = [];
    next_id = 1;
    counters = record {
      completed = 0;
      preempts = 0;
      reroutes = 0;
      bytes_transferred = 0;
      boundary_suspends = 0;
    };
  }

  -- The predictor that `initialize` makes: weights that do not load leave what was read of them.
  unfoldable pub predictor_from : (String → Option (List ℕ)) → String → LstmPredictor W
  unfolding new_predictor load_weights
  predictor_from file path =
      if str_eq path ""
      then new_predictor
      else record new_predictor { weights = (load_weights (file path) new_predictor.weights).0 }

  -- `initialize`, with the predictor after the weights were loaded.
  unfoldable pub initialize :
      InitOptions → Backends W → Host → Transport → Memory → LstmPredictor W → ℕ → HicsShim W
  unfolding run_profiling_sweep
  initialize opts all host wire memory predictor rounds =
      let g = precompute_paths (build_cluster opts.num_nodes opts.gpus_per_node) 6 5 in
      let fresh = make_daemon (length g.edges) opts.preferred opts.allow_synthetic_fallback in
      let telemetry =
        configure_edges all (if host.can_list then host.names else []) fresh
          (map (λ e. e.attrs.fabric) g.edges) (map (λ e. e.attrs.bandwidth_gbps) g.edges)
          (map (λ e. e.attrs.rail_id) g.edges) in
      let engine : PathSelectionEngine W = record {
        graph = g;
        predictor = predictor;
        executor = if opts.enable_executor then some (new_executor g) else none;
        utils = [];
        preempt_events = 0;
        reroute_events = 0;
        kv_flows = [];
        pending_reroutes = [];
      } in
      let swept = run_profiling_sweep rounds (record {
        engine = engine;
        telemetry = telemetry;
        wire = (Ibverbs.init host ib_rail_count wire).0;
        memory = memory;
        cursor = 0;
        decisions_made = 0;
        total_decision_ns = 0;
      }) in
      record swept { telemetry = record swept.telemetry { running = opts.enable_telemetry } }

  -- `initialize` with the sizes of the cluster and no weight file
  unfoldable pub initialize_sized : ℕ → ℕ → Backends W → Host → Transport → Memory → ℕ → HicsShim W
  unfolding initialize new_predictor
  initialize_sized nodes gpus all host wire memory rounds =
      let opts = record default_options { num_nodes = nodes; gpus_per_node = gpus } in
      initialize opts all host wire memory new_predictor rounds

  unfoldable pub weights_loaded : HicsShim W → Bool
  weights_loaded s = s.engine.predictor.weights.weights_loaded

  -- The destructor stops the telemetry.
  unfoldable pub destroy : HicsShim W → HicsShim W
  unfolding stop
  destroy s = record s { telemetry = stop s.telemetry }
