-- ===== src/Transfer/Drain.antt =====
-- transfer/transfer_executor.cpp: `drain_ready`, `get`, `list_inflight` and `list_paused_kv`.
use cong_shed.Base.{
  ℕ, zero, suc, Bool, true, false, not, ◌&&◌, none, some, List, [], ◌∷◌, ◌++◌, sub64, if◌then◌else◌,
  any, keep, is_empty,
}
use cong_shed.Base.Double.{Double, nought, one}
use cong_shed.Model.{tensor_parallel, gpu, kv_chunk_bytes, TransferRequest}
use cong_shed.Transfer.State.{
  pending, in_flight, paused, completed, state_eq, ChunkProgress, TransferProgress,
  TransferExecutor, find, is_active,
}
use cong_shed.Ibverbs.{Transport, Memory}
use cong_shed.Transfer.Tick.{
  World, maybe_wire_chunk, count_bytes, refresh_aggregate, complete, count_completed, tick,
}

-- A chunk in flight is moved whole; the others are left alone.
unfoldable pub force_chunk : ℕ → ℕ → ChunkProgress → World → ChunkProgress × World
unfolding maybe_wire_chunk
force_chunk src dst ch w =
    if not (state_eq ch.state in_flight)
    then (ch, w)
    else (let remain = sub64 ch.chunk_size ch.bytes_sent in
        (
          record ch { bytes_sent = ch.chunk_size; state = completed },
          count_bytes remain (maybe_wire_chunk src dst ch remain w),
        ))

unfoldable pub force_chunks : ℕ → ℕ → List ChunkProgress → World → List ChunkProgress × World
unfolding force_chunk
force_chunks src dst [] w = ([], w)
force_chunks src dst (ch ∷ chs) w =
    let r = force_chunk src dst ch w in
    let rest = force_chunks src dst chs r.1 in (r.0 ∷ rest.0, rest.1)

module _ {W : Type 0} where
  -- What `drain_ready` does to a transfer when a tick completed none.
  unfoldable pub force_transfer : TransferProgress W → World → TransferProgress W × Bool × World
  unfolding force_chunks refresh_aggregate
  force_transfer tp w =
      if not (is_active tp)
      then (tp, false, w)
      else (let r = force_chunks tp.src_buf tp.dst_buf tp.chunks w in
          (complete (refresh_aggregate (record tp { chunks = r.0 })), true, count_completed r.1))

  unfoldable pub force_transfers :
      List (TransferProgress W)
      → World
      → List (TransferProgress W) × List (TransferProgress W) × World
  unfolding force_transfer
  force_transfers [] w = ([], [], w)
  force_transfers (tp ∷ tps) w =
      let r = force_transfer tp w in
      let rest = force_transfers tps r.2 in
      (r.0 ∷ rest.0, if r.1 then r.0 ∷ rest.1 else rest.1, rest.2)

module _ {W : Type 0} ⦃d : Double W⦄ where
  open d use {decimal}

  -- At most `rounds` ticks of one millisecond; `now` gives the clock reading at each round and
  -- transfer.
  unfoldable pub drain_rounds :
      ℕ
      → TransferExecutor W
      → Transport
      → Memory
      → List W
      → (ℕ → ℕ → W)
      → List (TransferProgress W)
      → TransferExecutor W × Transport × Memory × List (TransferProgress W)
  unfolding tick force_transfers
  drain_rounds zero x wire memory utils now sofar = (x, wire, memory, sofar)
  drain_rounds (suc rounds) x wire memory utils now sofar =
      let r = tick x wire memory one utils (now rounds) in
      let completed_now = sofar ++ r.3 in
      let again = drain_rounds rounds r.0 r.1 r.2 utils now completed_now in
      let start : World = record { wire = r.1; memory = r.2; counters = r.0.counters } in
      let forced = force_transfers r.0.transfers start in
      if not (any is_active r.0.transfers)
      then (r.0, r.1, r.2, completed_now)
      else if is_empty r.3
      then (
        record r.0 { transfers = forced.0; counters = forced.2.counters },
        forced.2.wire,
        forced.2.memory,
        completed_now ++ forced.1,
      )
      else again

  unfoldable pub drain_ready :
      TransferExecutor W
      → Transport
      → Memory
      → List W
      → (ℕ → ℕ → W)
      → TransferExecutor W × Transport × Memory × List (TransferProgress W)
  unfolding drain_rounds
  drain_ready x wire memory utils now = drain_rounds 10000 x wire memory utils now []

  abbrev pub blank_progress : TransferRequest W → TransferProgress W
  blank_progress req = record {
    id = 0;
    state = pending;
    request = req;
    path_edges = [];
    bytes_total = 0;
    bytes_sent = 0;
    bytes_remaining = 0;
    slack_us = nought;
    started_ns = nought;
    reroute_count = 0;
    preemptible = true;
    src_buf = 0;
    dst_buf = 0;
    chunk_quantum = kv_chunk_bytes;
    chunks = [];
    active_chunk = 0;
    suspend_at_boundary = false;
  }

  -- `TransferRequest{}`
  abbrev pub blank_request : TransferRequest W
  blank_request = record {
    source = record { node_id = 0; local_id = 0; kind = gpu };
    dest = record { node_id = 0; local_id = 0; kind = gpu };
    size_bytes = 0;
    traffic_class = tensor_parallel;
    deadline_us = nought;
  }

  -- A transfer that is not there reads as the blank one.
  unfoldable pub get : TransferExecutor W → ℕ → TransferProgress W
  unfolding find
  get x i = elim (find i x.transfers) [ none ↦ blank_progress blank_request | some tp ↦ tp ]

module _ {W : Type 0} where
  unfoldable pub list_inflight : TransferExecutor W → List (TransferProgress W)
  list_inflight x = keep is_active x.transfers

  unfoldable pub list_paused_kv : TransferExecutor W → List (TransferProgress W)
  list_paused_kv x = keep (λ tp. state_eq tp.state paused && tp.preemptible) x.transfers
