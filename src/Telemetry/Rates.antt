-- ===== src/Telemetry/Rates.antt =====
-- telemetry/hw_counters.cpp: what a sample reports relative to the sample before it, and what follows a start
-- that failed.
use cong_shed.Base.{
  ℕ, ◌<◌, ◌≡◌, ◌≢◌, refl, sym, ap, ◌∙◌, subst, Option, none, some, List, [], ◌∷◌, if_either,
  option_either, get_or, get_elem?, set, length, get_or-set_self, get_or-set_ne, ◌==◌, eq_false,
  All,
}
use cong_shed.Base.Double.{Double}
use cong_shed.Model.{infiniband, fabric_eq}
use cong_shed.Telemetry.Binding.{EdgeHwBinding}
use cong_shed.Telemetry.Meter.{Files, Meter, rate, measure}
use cong_shed.Telemetry.Sysfs.{IbverbsBackend, xmit_path, ibverbs_sample}

-- A sample: the files and the time of its moment, and its edge.
pub record Moment : Type 0 where
  pub files : Files
  pub now : ℕ
  pub edge : ℕ

-- The edge's last count and time.
abbrev Remembers : ℕ → ℕ → ℕ → Meter → Type 0
Remembers edge count time m = (get_or m.prev edge 0 ≡ count) × (get_or m.prev_ts edge 0 ≡ time)

module _ {W : Type 0} ⦃d : Double W⦄ where
  open d use {decimal}

  pub samples : List Moment → IbverbsBackend W → IbverbsBackend W
  samples [] s = s
  samples (m ∷ ms) s = samples ms (ibverbs_sample m.files m.now s m.edge).0

  -- Both branches of a reading leave the same counts.
  measure-prev :
      (P : Meter → Type 0) (bytes peak : W) (m : Meter) (edge count now : ℕ)
      → P (record { prev = set m.prev edge count; prev_ts = set m.prev_ts edge now })
      → P (measure bytes peak m edge count now).0
  unfolding measure
  measure-prev P bytes peak m edge count now p =
      if_either (λ (r : Meter × W). P r.0) (get_or m.prev_ts edge 0 == 0) _ _ p p

  measure-Remembers :
      (bytes peak : W) (m : Meter) (edge count now : ℕ)
      → edge < length m.prev
      → edge < length m.prev_ts
      → Remembers edge count now (measure bytes peak m edge count now).0
  measure-Remembers bytes peak m edge count now h k =
      measure-prev (Remembers edge count now) bytes peak m edge count now
        (get_or-set_self m.prev edge count 0 h, get_or-set_self m.prev_ts edge now 0 k)

  -- The backend watches the edge by the binding, and has its last count and time.
  abbrev Watches : EdgeHwBinding W → ℕ → ℕ → ℕ → IbverbsBackend W → Type 0
  Watches b edge count time s =
      (get_elem? s.bindings edge ≡ some b) × Remembers edge count time s.meter

  -- A sample of another edge forgets nothing.
  sample_other :
      (b : EdgeHwBinding W) (edge count time : ℕ) (m : Moment) (s : IbverbsBackend W)
      → m.edge ≢ edge
      → Watches b edge count time s
      → Watches b edge count time (ibverbs_sample m.files m.now s m.edge).0
  unfolding ibverbs_sample
  sample_other b edge count time m s ne h =
      let P : IbverbsBackend W × Option W → Type 0 = λ r. Watches b edge count time r.0 in
      option_either P (get_elem? s.bindings m.edge) _ _ h (λ c.
        option_either P (m.files.number (xmit_path c)) _ _ h (λ words.
          if_either P (fabric_eq c.fabric infiniband) _ (s, none)
            (
              h.0,
              measure-prev (Remembers edge count time) (decimal 4 0) c.peak_bw_gbps s.meter m.edge
                  words m.now
                  (
                    get_or-set_ne s.meter.prev m.edge edge words 0 ne ∙ h.1.0,
                    get_or-set_ne s.meter.prev_ts m.edge edge m.now 0 ne ∙ h.1.1,
                  ),
            )
            h))

  samples_other :
      (b : EdgeHwBinding W) (edge count time : ℕ) (ms : List Moment) (s : IbverbsBackend W)
      → All (λ (m : Moment). m.edge ≢ edge) ms
      → Watches b edge count time s
      → Watches b edge count time (samples ms s)
  unfolding samples
  samples_other b edge count time [] s ne h = h
  samples_other b edge count time (m ∷ ms) s ne h =
      samples_other b edge count time ms (ibverbs_sample m.files m.now s m.edge).0 ne.1
        (sample_other b edge count time m s ne.0 h)

  -- The equation of a sample whose counter can be read.
  sample_read :
      (f : Files) (now : ℕ) (s : IbverbsBackend W) (edge : ℕ) (b : EdgeHwBinding W) (words : ℕ)
      → get_elem? s.bindings edge ≡ some b
      → b.fabric ≡ infiniband
      → f.number (xmit_path b) ≡ some words
      → ibverbs_sample f now s edge ≡ (
        record s { meter = (measure (decimal 4 0) b.peak_bw_gbps s.meter edge words now).0 },
        some (measure (decimal 4 0) b.peak_bw_gbps s.meter edge words now).1,
      )
  unfolding ibverbs_sample
  sample_read f now s edge b words e ib w = rw (ibverbs_sample, e, w, ib) refl

  pub measure_next :
      (bytes peak : W) (m : Meter) (edge before since count now : ℕ)
      → Remembers edge before since m
      → since ≢ 0
      → (measure bytes peak m edge count now).1 ≡ rate bytes peak count before now since
  unfolding measure
  measure_next bytes peak m edge before since count now h ne =
      rw (measure, h.1, h.0, eq_false since 0 ne) refl

  -- After a sample of an InfiniBand edge at a time that is not 0, and samples of other edges only, the next
  -- sample of that edge reports its rate between the two: four bytes for each word counted.
  pub ibverbs_sample-since :
      (b : EdgeHwBinding W) (edge before since count now : ℕ) (f g : Files) (ms : List Moment)
      (s : IbverbsBackend W)
      → get_elem? s.bindings edge ≡ some b
      → b.fabric ≡ infiniband
      → edge < length s.meter.prev
      → edge < length s.meter.prev_ts
      → f.number (xmit_path b) ≡ some before
      → g.number (xmit_path b) ≡ some count
      → since ≢ 0
      → All (λ (m : Moment). m.edge ≢ edge) ms
      → (ibverbs_sample g now (samples ms (ibverbs_sample f since s edge).0) edge).1
        ≡ some (rate (decimal 4 0) b.peak_bw_gbps count before now since)
  ibverbs_sample-since b edge before since count now f g ms s e ib l1 l2 h k ne others =
      let first = sample_read f since s edge b before e ib h in
      let seen =
        subst (λ (r : IbverbsBackend W × Option W). Watches b edge before since r.0) (sym first)
          (e, measure-Remembers (decimal 4 0) b.peak_bw_gbps s.meter edge before since l1 l2) in
      let s' = samples ms (ibverbs_sample f since s edge).0 in
      let w = samples_other b edge before since ms (ibverbs_sample f since s edge).0 others seen in
      ap (λ (r : IbverbsBackend W × Option W). r.1) (sample_read g now s' edge b count w.0 ib k)
      ∙ ap some
          (measure_next (decimal 4 0) b.peak_bw_gbps s'.meter edge before since count now w.1 ne)
