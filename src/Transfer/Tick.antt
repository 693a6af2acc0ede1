-- ===== src/Transfer/Tick.antt =====
-- transfer/transfer_executor.cpp: `tick`, which advances every active transfer by `dt_ms`.
-- `now` gives the clock reading at each transfer, and the completion callbacks are the list returned.
use cong_shed.Base.{
  ℕ, ◌+◌, ◌-◌, Bool, true, false, not, ◌||◌, Option, none, some, List, [], ◌∷◌, map, add64, sub64,
  ltb, leb, ◌==◌, if◌then◌else◌, get_elem?, get_or, any,
}
use cong_shed.Base.Double.{Double, ◌⊖◌, ◌⊗◌, ◌⊘◌, fmin, fmax, fclamp, nought, one}
use cong_shed.Topology.{GraphEdge}
use cong_shed.Transfer.State.{
  pending, in_flight, paused, completed, suspend_pending, state_eq, ChunkProgress, TransferProgress,
  Counters, TransferExecutor, slot_of, RailFlags, all_free, claim_rail, is_active,
}
use cong_shed.Ibverbs.{Transport, Memory, transfer_chunk, poll}
use cong_shed.Transfer.Control.{activate}

-- What the chunks of a tick share: the transport, the memory and the counters.
pub record World : Type 0 where
  pub wire : Transport
  pub memory : Memory
  pub counters : Counters

-- A pending chunk is parked.
unfoldable pub park : ChunkProgress → ChunkProgress
park ch = if state_eq ch.state pending then record ch { state = paused } else ch

-- The rails on which a chunk is in flight.
unfoldable pub flags_from : RailFlags → List ChunkProgress → RailFlags
flags_from busy [] = busy
flags_from busy (ch ∷ chs) =
    flags_from (if state_eq ch.state in_flight then claim_rail busy (slot_of ch.rail_id) else busy)
      chs

-- Parks the pending chunks of a transfer that is being suspended, or else starts those with a free
-- rail.
unfoldable pub prepare : Bool → List ChunkProgress → List ChunkProgress
unfolding park flags_from activate
prepare suspending chs = if suspending then map park chs else activate (flags_from all_free chs) chs

-- `maybe_wire_chunk`. What `transfer_chunk` returns is not read.
unfoldable pub maybe_wire_chunk : ℕ → ℕ → ChunkProgress → ℕ → World → World
maybe_wire_chunk src dst ch step w =
    if (step == 0) || ((src == 0) || (dst == 0))
    then w
    else (let at = ch.byte_offset + ch.bytes_sent in
        let r = transfer_chunk ch.rail_id (src + at) (dst + at) step w.wire w.memory in
        record w { wire = r.1; memory = r.2 })

abbrev pub count_bytes : ℕ → World → World
count_bytes n w = record w {
  counters = record w.counters { bytes_transferred = add64 w.counters.bytes_transferred n };
}

-- One chunk advances by `rate` bytes, or by what is left of it.
unfoldable pub advance_chunk : ℕ → ℕ → ℕ → ChunkProgress → World → ChunkProgress × World
unfolding maybe_wire_chunk
advance_chunk src dst rate ch w =
    if not (state_eq ch.state in_flight)
    then (ch, w)
    else (let remain = sub64 ch.chunk_size ch.bytes_sent in
        if remain == 0
        then (record ch { state = completed }, w)
        else (let step = (if ltb remain rate then remain else rate) in
            let sent = add64 ch.bytes_sent step in
            (
              if leb ch.chunk_size sent
                  then record ch { bytes_sent = ch.chunk_size; state = completed }
                  else record ch { bytes_sent = sent },
              count_bytes step (maybe_wire_chunk src dst ch step w),
            )))

-- The chunks advance in turn, each at the rate of its own path.
unfoldable pub advance :
    ℕ → ℕ → (List ℕ → ℕ) → List ChunkProgress → World → List ChunkProgress × World
unfolding advance_chunk
advance src dst rate [] w = ([], w)
advance src dst rate (ch ∷ chs) w =
    let r = advance_chunk src dst (rate ch.edge_indices) ch w in
    let rest = advance src dst rate chs r.1 in (r.0 ∷ rest.0, rest.1)

unfoldable pub sum_sent : ℕ → List ChunkProgress → ℕ
sum_sent acc [] = acc
sum_sent acc (ch ∷ chs) = sum_sent (add64 acc ch.bytes_sent) chs

abbrev pub finish_chunk : ChunkProgress → ChunkProgress
finish_chunk ch = record ch { state = completed }

module _ {W : Type 0} where
  unfoldable pub refresh_aggregate : TransferProgress W → TransferProgress W
  unfolding sum_sent
  refresh_aggregate tp =
      let sent = sum_sent 0 tp.chunks in
      record tp {
        bytes_sent = sent;
        bytes_remaining = if ltb sent tp.bytes_total then tp.bytes_total - sent else 0;
      }

  -- `complete_locked`
  abbrev pub complete : TransferProgress W → TransferProgress W
  complete tp = record tp { state = completed; bytes_remaining = 0 }

abbrev pub count_completed : World → World
count_completed w = record w {
  counters = record w.counters { completed = add64 w.counters.completed 1 };
}

abbrev pub count_suspend : World → World
count_suspend w = record w {
  counters = record w.counters { boundary_suspends = add64 w.counters.boundary_suspends 1 };
}

module _ {W : Type 0} where
  -- What follows the advance of the chunks; the flag says that the transfer completed.
  unfoldable pub settle : TransferProgress W → World → TransferProgress W × Bool × World
  settle tp w =
      if tp.bytes_remaining == 0
      then (
        complete (record tp { chunks = map finish_chunk tp.chunks; suspend_at_boundary = false }),
        true,
        count_completed w,
      )
      else if not tp.suspend_at_boundary
      then (tp, false, w)
      else if any (λ ch. state_eq ch.state in_flight) tp.chunks
      then (record tp { state = suspend_pending }, false, w)
      else (record tp { state = paused; suspend_at_boundary = false }, false, count_suspend w)

module _ {W : Type 0} ⦃d : Double W⦄ where
  open d use {decimal, of_nat, to_nat, pow}

  -- The loop of `bottleneck_gbps`.
  unfoldable pub bottleneck_from : List (GraphEdge W) → List W → W → List ℕ → W
  bottleneck_from edges utils best [] = best
  bottleneck_from edges utils best (e ∷ path) = elim (get_elem? edges e) [
    | none ↦ bottleneck_from edges utils best path
    | some x ↦
        let u = fclamp (get_or utils e nought) nought (decimal 99 2) in
        bottleneck_from edges utils
          (fmin best (x.attrs.bandwidth_gbps ⊗ pow (one ⊖ u) x.attrs.contention_alpha)) path
  ]

  unfoldable pub bottleneck_gbps : Option (List (GraphEdge W)) → List ℕ → List W → W
  unfolding bottleneck_from
  bottleneck_gbps none path utils = one
  bottleneck_gbps (some edges) [] utils = one
  bottleneck_gbps (some edges) (e ∷ path) utils =
      fmax (bottleneck_from edges utils (decimal 1000000000 0) (e ∷ path)) (decimal 1 1)

  unfoldable pub bytes_for_dt : Option (List (GraphEdge W)) → W → List W → List ℕ → ℕ
  unfolding bottleneck_gbps
  bytes_for_dt g dt utils path =
      to_nat
        (fmax nought (bottleneck_gbps g path utils ⊗ decimal 1000000000 0 ⊗ (dt ⊘ decimal 1000 0)))

  -- A transfer that is neither in flight nor being suspended is passed over.
  unfoldable pub tick_transfer :
      (List ℕ → ℕ) → W → TransferProgress W → World → TransferProgress W × Bool × World
  unfolding prepare advance refresh_aggregate settle
  tick_transfer rate now tp w =
      if not (is_active tp)
      then (tp, false, w)
      else (let chs = prepare tp.suspend_at_boundary tp.chunks in
          let r = advance tp.src_buf tp.dst_buf rate chs w in
          let elapsed_us = (now ⊖ tp.started_ns) ⊘ decimal 1000 0 in
          let moved = refresh_aggregate (record tp { chunks = r.0 }) in
          settle (record moved { slack_us = tp.request.deadline_us ⊖ elapsed_us }) r.1)

  -- The transfers in turn; the second list holds those that completed, as the callback sees them.
  unfoldable pub tick_transfers :
      (List ℕ → ℕ)
      → (ℕ → W)
      → List (TransferProgress W)
      → World
      → List (TransferProgress W) × List (TransferProgress W) × World
  unfolding tick_transfer
  tick_transfers rate now [] w = ([], [], w)
  tick_transfers rate now (tp ∷ tps) w =
      let r = tick_transfer rate (now tp.id) tp w in
      let rest = tick_transfers rate now tps r.2 in
      (r.0 ∷ rest.0, if r.1 then r.0 ∷ rest.1 else rest.1, rest.2)

  -- The list returned holds the transfers whose completion the callback saw; `done` is their ids.
  unfoldable pub tick :
      TransferExecutor W
      → Transport
      → Memory
      → W
      → List W
      → (ℕ → W)
      → TransferExecutor W × Transport × Memory × List (TransferProgress W)
  unfolding tick_transfers bytes_for_dt poll
  tick x wire memory dt utils now =
      let start : World = record { wire = wire; memory = memory; counters = x.counters } in
      let r = tick_transfers (bytes_for_dt x.graph dt utils) now x.transfers start in
      (record x { transfers = r.0; counters = r.2.counters }, (poll 32 r.2.wire).1, r.2.memory, r.1)
