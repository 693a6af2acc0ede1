-- ===== src/Telemetry/Meter.antt =====
-- telemetry/hw_counters.cpp: how a counter that only grows becomes a utilization, and what the backends
-- read from sysfs. A file's content at a moment is an argument.
use Prim.Native.String.{String}
use cong_shed.Base.{ℕ, ◌≡◌, Bool, false, Option, List, ◌==◌, if◌then◌else◌, get_or, set, sub64}
use cong_shed.Base.Double.{Double, ◌⊕◌, ◌⊗◌, ◌⊘◌, ◌≺◌, fmax, fclamp, nought, one}

-- The files of the machine at a moment: which open, and which `read_u64_file` reads as which number.
pub record Files : Type 0 where
  pub opens : String → Bool
  pub number : String → Option ℕ

-- For each edge the last count and its time, 0 before the first.
pub record Meter : Type 0 where
  pub prev : List ℕ
  pub prev_ts : List ℕ

module _ {W : Type 0} ⦃d : Double W⦄ where
  open d use {decimal, of_nat, narrow}

  -- `static_cast<float>(std::clamp(u, 0.0, 0.99))`
  unfoldable pub as_util : W → W
  as_util u = narrow (fclamp u nought (decimal 99 2))

  -- Neither below 0 nor above 0.99, before the cast.
  abbrev pub IsUtil : W → Type 0
  IsUtil x = (u : W) × (x ≡ narrow u) × ((u ≺ nought) ≡ false) × ((decimal 99 2 ≺ u) ≡ false)

  -- The utilization for so many bytes since `since`, with the counter and the clock wrapping around.
  unfoldable pub rate : W → W → ℕ → ℕ → ℕ → ℕ → W
  unfolding as_util
  rate bytes peak count before now since =
      let dt_s = of_nat (sub64 now since) ⊗ decimal 1 9 in
      let gbps =
        of_nat (sub64 count before) ⊗ bytes ⊘ (dt_s ⊗ decimal 1000000000 0 ⊕ decimal 1 12) in
      as_util (gbps ⊘ fmax peak one)

  -- A reading of an edge's counter, whose units have so many bytes: the first one is 0.
  unfoldable pub measure : W → W → Meter → ℕ → ℕ → ℕ → Meter × W
  unfolding rate
  measure bytes peak m edge count now =
      let m' : Meter = record { prev = set m.prev edge count; prev_ts = set m.prev_ts edge now } in
      if get_or m.prev_ts edge 0 == 0
      then (m', narrow nought)
      else (m', rate bytes peak count (get_or m.prev edge 0) now (get_or m.prev_ts edge 0))
