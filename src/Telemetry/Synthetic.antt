-- ===== src/Telemetry/Synthetic.antt =====
-- telemetry/hw_counters.cpp: `SyntheticBackend`, a model of bursty load. The generator of random numbers is a
-- parameter with the three distributions that the code draws from.
use cong_shed.Base.{
  ℕ, ◌-◌, Option, none, some, List, ltb, if◌then◌else◌, get_elem?, set, replicate, length,
}
use cong_shed.Base.Double.{Double, ◌⊕◌, ◌⊗◌, ◌≺◌, fmax, fmin, one}
use cong_shed.Model.{FabricType, nvlink, pcie}
use cong_shed.Telemetry.Binding.{EdgeHwBinding}
use cong_shed.Telemetry.Meter.{as_util}

pub record Rng (R W : Type 0) : Type 0 where
  -- `rng_.seed(0xC0FFEE)`
  pub seed : ℕ → R
  -- uniform in [0, 1), an `int` from 5 to 40, and uniform in [0.75, 0.98)
  pub draw : R → W × R
  pub draw_length : R → ℕ × R
  pub draw_peak : R → W × R

pub record EdgeState (W : Type 0) : Type 0 where
  pub burst_left : ℕ
  pub burst_peak : W

pub record SyntheticBackend (R W : Type 0) : Type 0 where
  pub bindings : List (EdgeHwBinding W)
  pub state : List (EdgeState W)
  pub rng : R

module _ {W : Type 0} ⦃d : Double W⦄ where
  open d use {decimal, of_nat, narrow, sin}

  abbrev pub idle_state : EdgeState W
  idle_state = record { burst_left = 0; burst_peak = narrow (decimal 9 1) }

  -- The background load of an edge at a time in nanoseconds.
  unfoldable pub background : ℕ → ℕ → W
  background now edge =
      let t = of_nat now ⊗ decimal 1 9 in
      decimal 25 2 ⊕ decimal 15 2 ⊗ sin (t ⊗ decimal 7 1 ⊕ of_nat edge ⊗ decimal 3 1)

  -- The factor of the fabric; an edge without a binding has none.
  unfoldable pub fabric_noise : Option FabricType → W → W
  fabric_noise (some nvlink) u = u ⊗ decimal 9 1
  fabric_noise (some pcie) u = fmin one (u ⊗ decimal 11 1)
  fabric_noise other u = u

  abbrev pub fabric_at : List (EdgeHwBinding W) → ℕ → Option FabricType
  fabric_at bs edge = elim (get_elem? bs edge) [ none ↦ none | some b ↦ some b.fabric ]

module _ {R W : Type 0} ⦃d : Double W⦄ (g : Rng R W) where
  open d use {decimal}

  unfoldable pub synthetic_init : List (EdgeHwBinding W) → SyntheticBackend R W
  synthetic_init bs = record {
    bindings = bs;
    state = replicate (length bs) idle_state;
    rng = g.seed 12648430;
  }

  -- A burst goes on, or one starts, or the background stays: the edge's state, the load, the generator.
  unfoldable pub burst : EdgeState W → W → R → EdgeState W × W × R
  burst st u rng =
      let chance = g.draw rng in
      let len = g.draw_length chance.1 in
      let peak = g.draw_peak len.1 in
      if ltb 0 st.burst_left
      then (record st { burst_left = st.burst_left - 1 }, fmax u st.burst_peak, rng)
      else if chance.0 ≺ decimal 2 3
      then (record { burst_left = len.0; burst_peak = peak.0 }, peak.0, peak.1)
      else (st, u, chance.1)

  unfoldable pub synthetic_sample : ℕ → SyntheticBackend R W → ℕ → SyntheticBackend R W × Option W
  unfolding burst background fabric_noise as_util
  synthetic_sample now s edge = elim (get_elem? s.state edge) [
    | none ↦ (s, none)
    | some st ↦
        let r = burst st (background now edge) s.rng in
        (
          record s { state = set s.state edge r.0; rng = r.2 },
          some (as_util (fabric_noise (fabric_at s.bindings edge) r.1)),
        )
  ]
