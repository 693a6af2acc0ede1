-- ===== src/Telemetry/Thread.antt =====
-- telemetry/telemetry.cpp: the start and the stop of the collecting thread, for which its flag stands.
use Prim.Native.String.{String}
use cong_shed.Base.{
  ℕ, zero, suc, ◌%◌, true, false, List, [], ◌∷◌, replicate, is_empty, if◌then◌else◌,
}
use cong_shed.Base.Int.{ℤ, pos}
use cong_shed.Base.Double.{Double}
use cong_shed.Model.{infiniband}
use cong_shed.Telemetry.{TelemetryDaemon, Backends, configure_edges}

-- The rails that `start` gives, in turn, from edge `i` on.
unfoldable pub turns : ℕ → ℕ → List ℤ
turns i zero = []
turns i (suc n) = pos (i % 2) ∷ turns (suc i) n

module _ {W : Type 0} ⦃d : Double W⦄ where
  open d use {decimal}

  -- Edges that nobody configured are InfiniBand links. A thread that runs goes on.
  unfoldable pub start : Backends W → List String → TelemetryDaemon W → TelemetryDaemon W
  unfolding configure_edges turns
  start all listed t =
      let n = t.num_edges in
      let rated = replicate n (decimal 50 0) in
      let bound =
        (if is_empty t.bindings
          then configure_edges all listed t (replicate n infiniband) rated (turns 0 n)
          else t) in
      record bound { running = true }

  unfoldable pub stop : TelemetryDaemon W → TelemetryDaemon W
  stop t = record t { running = false }
