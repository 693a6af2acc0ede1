-- ===== src/Telemetry/Ring.antt =====
-- telemetry/telemetry.cpp: `TelemetryRingBuffer`. The time of a write is an argument; the fences and the
-- relaxed order are not modelled, so a write is one step.
use cong_shed.Base.{
  ℕ, zero, suc, ◌+◌, ◌-◌, ◌%◌, Bool, not, ◌&&◌, Option, none, some, List, map, word32, add32, ◌==◌,
  if◌then◌else◌, get_elem?, set, replicate, range,
}
use cong_shed.Base.Double.{Double, nought}

-- `TELEMETRY_RING_SIZE`
abbrev pub ring_size : ℕ
ring_size = 512

pub record TelemetrySample (W : Type 0) : Type 0 where
  pub timestamp_ns : ℕ
  pub edge_idx : ℕ
  pub utilization : W

pub record TelemetryRingBuffer (W : Type 0) : Type 0 where
  pub buffer : List (TelemetrySample W)
  pub write_idx : ℕ

module _ {W : Type 0} where
  unfoldable pub write : TelemetryRingBuffer W → ℕ → ℕ → W → TelemetryRingBuffer W
  write r now edge util = record {
    buffer =
        set r.buffer (r.write_idx % ring_size)
          (record { timestamp_ns = now; edge_idx = edge; utilization = util });
    write_idx = add32 r.write_idx 1;
  }

  abbrev pub sample_hit : ℕ → TelemetrySample W → Bool
  sample_hit edge s = (s.edge_idx == edge) && not (s.timestamp_ns == 0)

  -- One round: the slot's sample, or what the older ones give.
  abbrev pub see : ℕ → Option (TelemetrySample W) → Option W → Option W
  see edge none rest = rest
  see edge (some s) rest = if sample_hit edge s then some s.utilization else rest

  -- The rounds `i` to `i + left` of the scan, from the newest sample back.
  unfoldable pub scan : TelemetryRingBuffer W → ℕ → ℕ → ℕ → Option W
  scan r edge i zero = none
  scan r edge i (suc left) =
      let rest = scan r edge (suc i) left in
      let at = (r.write_idx + ring_size - 1 - i) % ring_size in
      see edge (get_elem? r.buffer at) rest

  unfoldable pub read_latest : TelemetryRingBuffer W → ℕ → Option W
  unfolding scan
  read_latest r edge = scan r edge 0 ring_size

  abbrev pub or_default : W → Option W → W
  or_default v none = v
  or_default v (some u) = u

module _ {W : Type 0} ⦃d : Double W⦄ where
  unfoldable pub empty_ring : TelemetryRingBuffer W
  empty_ring = record {
    buffer = replicate ring_size (record { timestamp_ns = 0; edge_idx = 0; utilization = nought });
    write_idx = 0;
  }

  unfoldable pub snapshot : TelemetryRingBuffer W → ℕ → List W
  unfolding read_latest
  snapshot r edges = map (λ e. or_default nought (read_latest r (e % word32))) (range edges)
