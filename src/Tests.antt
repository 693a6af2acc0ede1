-- ===== src/Tests.antt =====
-- Runs of the model on small inputs, with whole thousandths for floating-point numbers.
pub mod Counters
pub mod Machine
pub mod Requests
pub mod Weights
use cong_shed.Lstm.History.{Holds, pushed, push_history-newest}
use cong_shed.Lstm.{update_cache, cached_prediction}
use cong_shed.Lstm.Cache.{cached_prediction-update_cache}
use cong_shed.Base.{◌*◌}
use cong_shed.Model.{kv_chunk_bytes}
use cong_shed.PathEngine.Reroute.{drain_boundary_reroutes}
use cong_shed.PathEngine.Turn.{Splits}
use cong_shed.PathEngine.Requests.{drain_boundary_reroutes-Splits}
use cong_shed.PathEngine.Schedule.{schedule_and_execute}
use cong_shed.PathEngine.Handover.{Runs, schedule_and_execute-Runs}
use cong_shed.Transfer.MirrorTick.{HasMirrored, tick_transfer-HasMirrored}
use cong_shed.Transfer.Delivery.{Turn, run_turns, IsDelivered, run_turns-IsDelivered}
use cong_shed.Base.{
  ℕ, ◌+◌, ◌≤◌, ◌<◌, ◌≡◌, refl, if◌then◌else◌, zero, suc, replicate, ◌⊎◌, inl, inr, ◌≢◌, ◌↔◌, Bool,
  true, false, none, some, List, [], ◌∷◌, map, arith, All, length, take,
}
use cong_shed.Base.Int.{pos, negsuc}
use cong_shed.Base.Double.{Milli, milli, Milli-IsOrdered, ◌≺◌}
use cong_shed.Model.{
  FabricType, nvlink, pcie, infiniband, kv_migration, gpu, EndpointId, TransferRequest,
}
use cong_shed.Topology.{GraphEdge, TopologyGraph, vertex_of}
use cong_shed.Topology.Search.{paths, rounds, search_paths, yen_k_shortest}
use cong_shed.Topology.Cached.{queries, paths-yen_k_shortest}
use cong_shed.Topology.Search.Walks.{IsPath, yen_k_shortest-IsPath}
use cong_shed.Ibverbs.{Transport, Memory}
use cong_shed.Transfer.State.{
  paused, in_flight, pending, ChunkProgress, TransferProgress, SubmitOptions, TransferExecutor,
}
use cong_shed.Transfer.Submit.{submit_striped}
use cong_shed.Transfer.Control.{preempt_sharing}
use cong_shed.Transfer.Tick.{tick, tick_transfer}
use cong_shed.Transfer.Steps.{here, next, stripes, ticks}
use cong_shed.Transfer.Sound.{IsSound, Reach-IsSound}
use cong_shed.Transfer.Work.{IsRunning}
use cong_shed.Transfer.Progress.{
  IsDone, TickCases, Round, tick_rounds, tick-running, tick_rounds-completes,
}
use cong_shed.Transfer.Victims.{AreEnough, IsVictimOf, Suspends, preempt_sharing-victims}
use cong_shed.Lstm.{LstmPredictor}
use cong_shed.PathEngine.{ChunkDispatch, PathSelectionEngine, flexibility_set, no_path, cheapest}
use cong_shed.PathEngine.Choice.{
  KeepsTo, TouchesPcie, flexibility_set-KeepsTo, IsBelow, cheapest-IsBelow, cheapest-le,
}
use cong_shed.PathEngine.Stripe.{stripe_kv_migration}
use cong_shed.PathEngine.Tiling.{Migrated, chunk_of, stripe_kv_migration-Tiles}
use cong_shed.PathEngine.Schedule.{chunk_path}
use cong_shed.PathEngine.Handover.{submit_striped-IsRunning}
use cong_shed.Telemetry.Ring.{TelemetrySample, ring_size, read_latest}
use cong_shed.Telemetry.Latest.{newest, after, read_latest-newest}
use cong_shed.CudaMr.{
  CudaRuntime, MemoryRegion, MemoryRegistry, empty_registry, new_region, register_mr, get_mr,
  deregister_mr,
}
use cong_shed.CudaMr.Registry.{
  IsWell, registering, deregistering, after_calls, after_calls-IsWell, register_mr-get_mr,
  deregister_mr-get_mr,
}
use cong_shed.Shim.Plugin.{check_send}

-- Two GPUs, with one link of each of three fabrics from the first to the second.
abbrev gpu_at : ℕ → EndpointId
gpu_at n = record { node_id = n; local_id = 0; kind = gpu }

abbrev link_by : FabricType → GraphEdge Milli
link_by f = record {
  src_vertex = 0;
  dst_vertex = 1;
  attrs = record {
    fabric = f;
    bandwidth_gbps = 50000;
    latency_us = 5000;
    contention_alpha = 1000;
    rail_id = negsuc 0;
  };
}

abbrev links : List (GraphEdge Milli)
links = link_by infiniband ∷ link_by pcie ∷ link_by nvlink ∷ []

abbrev pair : TopologyGraph Milli
pair = record {
  vertices = gpu_at 0 ∷ gpu_at 1 ∷ [];
  edges = links;
  path_cache = [];
  default_k = 2;
  default_max_hops = 2;
}

abbrev request : TransferRequest Milli
request = record {
  source = gpu_at 0;
  dest = gpu_at 1;
  size_bytes = 5;
  traffic_class = kv_migration;
  deadline_us = 1000;
}

abbrev predictor : LstmPredictor Milli
predictor = record {
  weights = record {
    layers = [];
    head_w = [];
    head_scale = 0;
    head_b = 0;
    weights_loaded = false;
    ada_head = [];
    ada_w_ih0 = [];
  };
  prediction_cache = [];
  current_util_cache = [];
  edge_history = [];
  edge_hist_count = [];
}

abbrev executor : TransferExecutor Milli
executor = record {
  graph = some links;
  transfers = [];
  next_id = 1;
  counters = record {
    completed = 0;
    preempts = 0;
    reroutes = 0;
    bytes_transferred = 0;
    boundary_suspends = 0;
  };
}

abbrev engine : PathSelectionEngine Milli
engine = record {
  graph = pair;
  predictor = predictor;
  executor = none;
  utils = [];
  preempt_events = 0;
  reroute_events = 0;
  kv_flows = [];
  pending_reroutes = [];
}

abbrev pub scheduled : PathSelectionEngine Milli
scheduled = record engine { executor = some executor }

abbrev pub wire : Transport
wire = record {
  ready = true;
  hardware = false;
  devices = [];
  next_wr = 1;
  next_mr = 1;
  pending = [];
  ibv_handle = false;
}

abbrev pub memory : Memory
memory = λ a. a

abbrev options : SubmitOptions
options = record { src_buf = 100; dst_buf = 200 }

-- Three chunks, of which the first and the last go on the same rail.
abbrev part : ℕ → ℕ → ℕ → ChunkDispatch
part seq offset size = record {
  chunk_seq = seq;
  edge_indices = seq ∷ [];
  chunk_size = size;
  byte_offset = offset;
  rail_id = pos seq;
}

abbrev parts : List ChunkDispatch
parts = part 0 0 2 ∷ part 1 2 2 ∷ part 2 4 1 ∷ []

abbrev submitted : TransferExecutor Milli
submitted = (submit_striped executor 0 request (map chunk_path parts) options).0

abbrev asked : TransferExecutor Milli
asked = (preempt_sharing submitted (1 ∷ []) 1).0

abbrev ticked : TransferExecutor Milli
ticked = (tick submitted wire memory 1000 [] (λ i. 7)).0

Reach-IsSound_example : All IsSound ticked.transfers
Reach-IsSound_example =
    Reach-IsSound
      (next
        (next here (
          stripes 0 request (map chunk_path parts) options (omega arith)
            (omega arith, (omega arith, (omega arith, tt)))))
        (ticks wire memory 1000 [] (λ i. 7)))
      tt

-- The transfer that `submit_striped` makes of the parts, in the middle of its way.
abbrev moving_part : ℕ → ℕ → ℕ → Bool → ChunkProgress
moving_part seq offset size starts = record {
  chunk_seq = seq;
  edge_indices = seq ∷ [];
  byte_offset = offset;
  chunk_size = size;
  bytes_sent = 0;
  rail_id = pos seq;
  state = if starts then in_flight else pending;
}

abbrev running : TransferProgress Milli
running = record {
  id = 1;
  state = in_flight;
  request = request;
  path_edges = 0 ∷ 1 ∷ 2 ∷ [];
  bytes_total = 5;
  bytes_sent = 0;
  bytes_remaining = 5;
  slack_us = 1000;
  started_ns = 0;
  reroute_count = 0;
  preemptible = true;
  src_buf = 100;
  dst_buf = 200;
  chunk_quantum = 2;
  chunks = moving_part 0 0 2 true ∷ moving_part 1 2 2 true ∷ moving_part 2 4 1 false ∷ [];
  active_chunk = 0;
  suspend_at_boundary = false;
}

running-IsRunning : IsRunning running
running-IsRunning = record {
  going = refl;
  not_suspended = refl;
  bounded =
      ((omega arith, omega arith), ((omega arith, omega arith), ((omega arith, omega arith), tt)));
  moving = (inr (inl refl), (inr (inl refl), (inl refl, tt)));
  tiled = omega arith;
  fits = omega arith;
}

abbrev one_byte : Round Milli
one_byte = record {
  rate = λ p. 1;
  now = 0;
  world = record { wire = wire; memory = memory; counters = executor.counters };
}

abbrev nine : List (Round Milli)
nine = replicate 9 one_byte

always_moves : (n : ℕ) → All (λ r. (path : List ℕ) → 0 < r.rate path) (replicate n one_byte)
always_moves zero = tt
always_moves (suc n) = ((λ p. omega arith), always_moves n)

tick_rounds-completes_example : IsDone (tick_rounds nine running)
tick_rounds-completes_example =
    tick_rounds-completes nine running running-IsRunning (always_moves 9) (omega arith)

tick-running_example : TickCases running (tick_transfer (λ p. 1) 0 running one_byte.world)
tick-running_example = tick-running (λ p. 1) 0 running one_byte.world running-IsRunning

stripe_kv_migration-Tiles_example :
    Migrated
      (flexibility_set pair (vertex_of pair (gpu_at 0)) (vertex_of pair (gpu_at 1)) kv_migration).1
      (chunk_of 2)
      5
      (stripe_kv_migration engine request [] 2).1
stripe_kv_migration-Tiles_example =
    stripe_kv_migration-Tiles engine request [] 2 (omega arith) (omega arith)

submit_striped-IsRunning_example :
    ((submit_striped executor 0 request (map chunk_path parts) options).1 ≡ 1)
    × Runs executor request parts submitted
submit_striped-IsRunning_example =
    submit_striped-IsRunning executor 0 request options ((0 ∷ []) ∷ (1 ∷ []) ∷ (2 ∷ []) ∷ []) 2
      parts (omega arith)
      (
        refl,
        refl,
        omega arith,
        omega arith,
        omega arith,
        inl refl,
        (
          refl,
          refl,
          omega arith,
          omega arith,
          omega arith,
          inr (inl refl),
          (refl, refl, omega arith, omega arith, omega arith, inr (inr (inl refl)), refl),
        ),
      )

yen_k_shortest-IsPath_example :
    (search_paths
        (suc (rounds 3 2))
        links
        1
        2
        2
        (record { vertex = 0; edge_path = []; cost = 0 } ∷ [])
        []
      ≡ some (yen_k_shortest links 0 1 2 2))
    × All (IsPath links 0 1 2) (yen_k_shortest links 0 1 2 2)
    × (length (yen_k_shortest links 0 1 2 2) ≤ 2)
yen_k_shortest-IsPath_example = yen_k_shortest-IsPath links 0 1 2 2 (omega arith)

abbrev sample : ℕ → ℕ → ℕ → TelemetrySample Milli
sample now edge util = record { timestamp_ns = now; edge_idx = edge; utilization = util }

abbrev samples : List (TelemetrySample Milli)
samples = sample 3 7 300 ∷ sample 2 4 200 ∷ sample 1 7 100 ∷ []

read_latest-newest_example : read_latest (after samples) 7 ≡ newest 7 (take ring_size samples)
read_latest-newest_example = read_latest-newest samples 7

-- The cost of a path here is its number of edges.
abbrev hops_of : List ℕ → Milli
hops_of p = length p

abbrev offers : List (List ℕ)
offers = (0 ∷ 1 ∷ []) ∷ (2 ∷ []) ∷ (1 ∷ 0 ∷ 2 ∷ []) ∷ []

cheapest-le_example :
    All (λ p. (hops_of p ≺ (cheapest hops_of no_path offers).latency_us) ≡ false) offers
cheapest-le_example = cheapest-le Milli-IsOrdered hops_of no_path offers

cheapest-IsBelow_example : IsBelow hops_of no_path offers (cheapest hops_of no_path offers)
cheapest-IsBelow_example = cheapest-IsBelow Milli-IsOrdered hops_of no_path offers

flexibility_set-KeepsTo_example :
    All (KeepsTo kv_migration links) (flexibility_set pair 0 1 kv_migration).1
    ⊎ ((kv_migration ≡ kv_migration)
        × ((flexibility_set pair 0 1 kv_migration).1 ≡ (paths pair 0 1).1)
        × All (TouchesPcie links) (paths pair 0 1).1)
flexibility_set-KeepsTo_example = flexibility_set-KeepsTo pair 0 1 kv_migration

paths-yen_k_shortest_example :
    (paths (queries ((0, 1) ∷ []) pair) 0 1).1 ≡ yen_k_shortest links 0 1 2 2
paths-yen_k_shortest_example =
    paths-yen_k_shortest pair ((0, 1) ∷ []) 0 1 refl ((omega (arith), omega (arith)), tt)
      (omega (arith), omega (arith))

preempt_sharing-victims_example :
    (length (preempt_sharing submitted (1 ∷ []) 1).1 ≤ 1)
    × All (IsVictimOf (1 ∷ []) submitted.transfers) (preempt_sharing submitted (1 ∷ []) 1).1
    × AreEnough submitted (1 ∷ []) 1 (preempt_sharing submitted (1 ∷ []) 1).1
    × Suspends (preempt_sharing submitted (1 ∷ []) 1).1 submitted.transfers asked.transfers
preempt_sharing-victims_example = preempt_sharing-victims submitted (1 ∷ []) 1

-- A machine without CUDA, on which `mlock` succeeds.
abbrev host_only : CudaRuntime
host_only = record {
  ready = false;
  device_count = 0;
  attributes = λ a. none;
  register_fn = none;
  unregister_fn = none;
  device_pointer_fn = none;
  synchronize_fn = none;
  memcpy_fn = none;
  mlock = λ p s. true;
}

abbrev registry : MemoryRegistry
registry = (register_mr host_only empty_registry 4096 64 1).0

registry-IsWell : IsWell registry
unfolding register_mr new_region
registry-IsWell = (omega arith, (omega arith, omega arith, refl, tt))

after_calls-IsWell_example :
    IsWell
      (after_calls host_only (deregistering 1 ∷ registering 8192 32 1 ∷ registering 4096 64 1 ∷ []))
after_calls-IsWell_example =
    after_calls-IsWell host_only
      (deregistering 1 ∷ registering 8192 32 1 ∷ registering 4096 64 1 ∷ []) (omega arith)

register_mr-get_mr_example :
    ((register_mr host_only registry 8192 32 1).1 ≡ some registry.next_id)
    × (get_mr registry registry.next_id ≡ none)
    × (get_mr (register_mr host_only registry 8192 32 1).0 registry.next_id
        ≡ some (new_region host_only registry.next_id 8192 32 1))
    × ((k : ℕ)
        → k ≢ registry.next_id
        → get_mr (register_mr host_only registry 8192 32 1).0 k ≡ get_mr registry k)
register_mr-get_mr_example =
    register_mr-get_mr host_only registry 8192 32 1 registry-IsWell (omega arith) (omega arith)

deregister_mr-get_mr_example :
    (get_mr (deregister_mr registry 1).0 1 ≡ none)
    × (((deregister_mr registry 1).1 ≡ false) ↔ (get_mr registry 1 ≡ none))
    × ((k : ℕ) → k ≢ 1 → get_mr (deregister_mr registry 1).0 k ≡ get_mr registry k)
deregister_mr-get_mr_example = deregister_mr-get_mr registry 1 registry-IsWell

-- The submitted transfer is suspended and asks for another path; the second request is of an unknown one.
abbrev halt : TransferProgress Milli → TransferProgress Milli
halt tp = record tp { state = paused }

abbrev suspended : TransferExecutor Milli
suspended = record submitted { transfers = map halt submitted.transfers }

abbrev waiting : PathSelectionEngine Milli
waiting = record engine {
  executor = some suspended;
  pending_reroutes =
      record { id = 1; avoid_edges = 1 ∷ [] } ∷ record { id = 8; avoid_edges = [] } ∷ [];
}

drain_boundary_reroutes-Splits_example :
    (y : TransferExecutor Milli) × ((drain_boundary_reroutes waiting []).0.executor ≡ some y)
    × Splits suspended y waiting.pending_reroutes
        (drain_boundary_reroutes waiting []).0.pending_reroutes
        (drain_boundary_reroutes waiting []).1
drain_boundary_reroutes-Splits_example = drain_boundary_reroutes-Splits waiting suspended [] refl

-- A migration of three chunks, two of them whole.
abbrev large : TransferRequest Milli
large = record request { size_bytes = 2 * kv_chunk_bytes + 5 }

schedule_and_execute-Runs_example :
    (y : TransferExecutor Milli) × ((schedule_and_execute scheduled 0 large [] options).0.executor
      ≡ some y)
    × ((schedule_and_execute scheduled 0 large [] options).1 ≡ 1)
    × Runs executor large (stripe_kv_migration scheduled large [] kv_chunk_bytes).1 y
schedule_and_execute-Runs_example =
    schedule_and_execute-Runs scheduled executor 0 large [] options refl (ground arith)
      (omega arith) (omega arith)

abbrev turn : Turn Milli
turn = record { rate = λ p. 1; now = 0 }

always_turns : (n : ℕ) → All (λ t. (path : List ℕ) → 0 < t.rate path) (replicate n turn)
always_turns zero = tt
always_turns (suc n) = ((λ p. omega arith), always_turns n)

none_sent : (off : ℕ) (j : ℕ) → j < 0 → memory (200 + (off + j)) ≡ memory (100 + (off + j))
none_sent off j h = absurd (omega arith)

running-HasMirrored : HasMirrored 5 memory running
running-HasMirrored = (
  ((omega arith, omega arith), omega arith, none_sent 0),
  (
    ((omega arith, omega arith), omega arith, none_sent 2),
    (((omega arith, omega arith), omega arith, none_sent 4), tt),
  ),
)

tick_transfer-HasMirrored_example :
    HasMirrored 5
      (tick_transfer (λ p. 1) 0 running one_byte.world).2.memory
      (tick_transfer (λ p. 1) 0 running one_byte.world).0
tick_transfer-HasMirrored_example =
    tick_transfer-HasMirrored 5 (λ p. 1) 0 running one_byte.world
      (omega arith, omega arith, omega arith, inl (omega arith)) refl running-HasMirrored

run_turns-IsDelivered_example :
    IsDone (run_turns (replicate 9 turn) running one_byte.world).0
    × All
        (IsDelivered
          (run_turns (replicate 9 turn) running one_byte.world).0.src_buf
          (run_turns (replicate 9 turn) running one_byte.world).0.dst_buf
          (run_turns (replicate 9 turn) running one_byte.world).1.memory)
        (run_turns (replicate 9 turn) running one_byte.world).0.chunks
run_turns-IsDelivered_example =
    run_turns-IsDelivered 5 (replicate 9 turn) running one_byte.world
      (omega arith, omega arith, omega arith, inl (omega arith)) refl running-HasMirrored
      running-IsRunning (always_turns 9) (omega arith)

cached_prediction-update_cache_example :
    (cached_prediction (update_cache predictor 3 100 200) 3 ≡ 200)
    × ((k : ℕ)
        → k ≢ 3
        → cached_prediction (update_cache predictor 3 100 200) k ≡ cached_prediction predictor k)
cached_prediction-update_cache_example =
    cached_prediction-update_cache predictor 3 100 200 (omega arith)

abbrev levels : List Milli
levels = 30 ∷ 20 ∷ 10 ∷ []

push_history-newest_example : Holds levels (pushed levels).0 (pushed levels).1
push_history-newest_example = push_history-newest levels
