-- ===== src/Telemetry/Range.antt =====
-- telemetry/hw_counters.cpp: what the backends report, and when they refuse.
use Prim.Native.String.{◌++◌ as string_append}
use text.Mathlib.Text.{◌==◌ as str_eq}
use cong_shed.Base.{
  ℕ, ◌≡◌, refl, false, not, ◌&&◌, Option, none, some, List, inl, inr, ltb, if_either, option_either,
  get_or, get_elem?, set, Bool-cases, ◌==◌, sub64, ◌*◌,
}
use cong_shed.Base.Int.{is_nonneg, pos_part}
use cong_shed.Base.Double.{Double, ◌⊕◌, ◌⊗◌, ◌⊘◌, fmax, one, ◌≺◌, fclamp, nought, IsOrdered}
use cong_shed.Model.{nvlink, pcie, cxl, infiniband, fabric_eq}
use cong_shed.Telemetry.Binding.{EdgeHwBinding}
use cong_shed.Telemetry.Meter.{Files, Meter, IsUtil, as_util, rate, measure}
use cong_shed.Telemetry.Sysfs.{IbverbsBackend, ibverbs_sample, xmit_path, pcie_sample}
use cong_shed.Telemetry.Synthetic.{
  Rng, SyntheticBackend, background, burst, fabric_noise, fabric_at, synthetic_sample,
}
use cong_shed.Telemetry.Nvml.{
  NvmlLibrary, NvmlBackend, Outcome, reading, refused, null_call, nvml_sample, sample_nvlink,
  sample_throughput, throughput_util,
}

-- Of the literals the theorems use that 0, 0.05 and 0.1 are in order and none is above 0.99.
pub record HasLiterals (W : Type 0) ⦃d : Double W⦄ : Type 0 where
  pub top : (d.decimal 99 2 ≺ nought) ≡ false
  pub low : (d.decimal 5 2 ≺ nought) ≡ false
  pub low_top : (d.decimal 99 2 ≺ d.decimal 5 2) ≡ false
  pub mid : (d.decimal 1 1 ≺ nought) ≡ false
  pub mid_top : (d.decimal 99 2 ≺ d.decimal 1 1) ≡ false

module _ {W : Type 0} ⦃d : Double W⦄ where
  open d use {decimal, of_nat, narrow}

  -- A reading, where there is one, is a utilization.
  abbrev pub IsReading : Option W → Type 0
  IsReading none = Unit
  IsReading (some x) = IsUtil x

  abbrev pub IsOutcome : Outcome W → Type 0
  IsOutcome (reading x) = IsUtil x
  IsOutcome other = Unit

  abbrev Sampled : {S : Type 0} → S × Option W → Type 0
  Sampled r = IsReading r.1

  module _ (o : IsOrdered W) (c : HasLiterals W) where
    pub fclamp_within :
        (u : W)
        → ((fclamp u nought (decimal 99 2) ≺ nought) ≡ false)
          × ((decimal 99 2 ≺ fclamp u nought (decimal 99 2)) ≡ false)
    fclamp_within u = elim (Bool-cases (u ≺ nought)) [
      | inl low ↦ rw low (o.lt_irrefl nought, c.top)
      | inr ok ↦ elim (Bool-cases (decimal 99 2 ≺ u)) [
        | inl high ↦ rw (ok, high) (c.top, o.lt_irrefl (decimal 99 2))
        | inr within ↦ rw (ok, within) (ok, within)
      ]
    ]

    pub as_util-IsUtil : (u : W) → IsUtil (as_util u)
    unfolding as_util
    as_util-IsUtil u = let w = fclamp_within u in (fclamp u nought (decimal 99 2), refl, w.0, w.1)

    pub nought-IsUtil : IsUtil (narrow nought)
    nought-IsUtil = (nought, refl, o.lt_irrefl nought, c.top)

    rate-IsUtil :
        (bytes peak : W) (count before now since : ℕ)
        → IsUtil (rate bytes peak count before now since)
    unfolding rate
    rate-IsUtil bytes peak count before now since =
        let dt_s = of_nat (sub64 now since) ⊗ decimal 1 9 in
        as_util-IsUtil (
          of_nat (sub64 count before)
          ⊗ bytes
          ⊘ (dt_s ⊗ decimal 1000000000 0 ⊕ decimal 1 12)
          ⊘ fmax peak one)

    measure-IsUtil :
        (bytes peak : W) (m : Meter) (edge count now : ℕ)
        → IsUtil (measure bytes peak m edge count now).1
    unfolding measure
    measure-IsUtil bytes peak m edge count now =
        let m' : Meter = record {
          prev = set m.prev edge count;
          prev_ts = set m.prev_ts edge now;
        } in
        let u = rate bytes peak count (get_or m.prev edge 0) now (get_or m.prev_ts edge 0) in
        if_either (λ (r : Meter × W). IsUtil r.1) (get_or m.prev_ts edge 0 == 0) (m', narrow nought)
          (m', u) nought-IsUtil
          (rate-IsUtil bytes peak count (get_or m.prev edge 0) now (get_or m.prev_ts edge 0))

    ibverbs_sample-IsReading :
        (f : Files) (now : ℕ) (s : IbverbsBackend W) (edge : ℕ)
        → IsReading (ibverbs_sample f now s edge).1
    unfolding ibverbs_sample
    ibverbs_sample-IsReading f now s edge =
        option_either Sampled (get_elem? s.bindings edge) _ _ tt (λ b.
          option_either Sampled (f.number (xmit_path b)) _ _ tt (λ words.
            if_either Sampled (fabric_eq b.fabric infiniband) _ (s, none)
              (measure-IsUtil (decimal 4 0) b.peak_bw_gbps s.meter edge words now) tt))

    literal-IsUtil :
        (m k : ℕ)
        → (decimal m k ≺ nought) ≡ false
        → (decimal 99 2 ≺ decimal m k) ≡ false
        → IsUtil (narrow (decimal m k))
    literal-IsUtil m k low high = (decimal m k, refl, low, high)

    pcie_sample-IsReading :
        (f : Files) (bs : List (EdgeHwBinding W)) (edge : ℕ) → IsReading (pcie_sample f bs edge)
    unfolding pcie_sample
    pcie_sample-IsReading f bs edge = option_either IsReading (get_elem? bs edge) _ _ tt (λ b.
        if_either IsReading (not (fabric_eq b.fabric pcie) && not (fabric_eq b.fabric cxl)) none _
          tt
          (if_either IsReading (str_eq b.pci_sysfs "") none _ tt (
            option_either IsReading (f.number (string_append b.pci_sysfs "/current_link_width")) _ _
              (literal-IsUtil 1 1 c.mid c.mid_top)
              (λ w.
                if_either IsUtil (ltb 0 w) (narrow (decimal 5 2)) (narrow nought)
                  (literal-IsUtil 5 2 c.low c.low_top) nought-IsUtil))))

    synthetic_sample-IsReading :
        {R : Type 0} (g : Rng R W) (now : ℕ) (s : SyntheticBackend R W) (edge : ℕ)
        → IsReading (synthetic_sample g now s edge).1
    unfolding synthetic_sample
    synthetic_sample-IsReading g now s edge =
        option_either Sampled (get_elem? s.state edge) _ _ tt (λ st.
          as_util-IsUtil
            (fabric_noise (fabric_at s.bindings edge) (burst g st (background now edge) s.rng).1))

    nvml_sample-IsOutcome :
        (l : NvmlLibrary) (now : ℕ) (s : NvmlBackend W) (edge : ℕ)
        → IsOutcome (nvml_sample l now s edge).1
    unfolding nvml_sample sample_nvlink sample_throughput throughput_util
    nvml_sample-IsOutcome l now s edge =
        let P : NvmlBackend W × Outcome W → Type 0 = λ r. IsOutcome r.1 in
        option_either P (get_elem? s.bindings edge) _ _ tt (λ b.
          if_either P (not s.ready) (s, refused) _ tt
            (if_either P (fabric_eq b.fabric nvlink && (s.get_nvlink_counter && is_nonneg b.gpu_a))
              _ _
              (if_either P (not s.get_handle_by_index) (s, null_call) _ tt
                (option_either P (l.device (pos_part b.gpu_a)) _ _ tt (λ dev.
                  option_either P (l.nvlink_counter dev (pos_part b.nvlink_id)) _ _ tt
                    (λ tx. measure-IsUtil (decimal 16 0) b.peak_bw_gbps s.meter edge tx now))))
              (if_either P (s.get_pcie_throughput && is_nonneg b.gpu_a) _ (s, refused)
                (if_either IsOutcome (not s.get_handle_by_index) null_call _ tt (
                  option_either IsOutcome (l.device (pos_part b.gpu_a)) _ _ tt (λ dev.
                    option_either IsOutcome (l.pcie_throughput dev 0) _ _ tt (λ kbps.
                      as_util-IsUtil
                        (of_nat kbps ⊘ decimal (1024 * 1024) 0 ⊘ fmax b.peak_bw_gbps one)))))
                tt)))

    -- Whatever the counters say, each backend of hw_counters.cpp reports, if anything, a number that is
    -- neither below 0 nor above 0.99 before its cast to `float`.
    pub backends-IsUtil :
        {R : Type 0} (f : Files) (now edge : ℕ) (ib : IbverbsBackend W)
        (bs : List (EdgeHwBinding W)) (g : Rng R W) (syn : SyntheticBackend R W) (l : NvmlLibrary)
        (nv : NvmlBackend W)
        → IsReading (ibverbs_sample f now ib edge).1
          × IsReading (pcie_sample f bs edge)
          × IsReading (synthetic_sample g now syn edge).1
          × IsOutcome (nvml_sample l now nv edge).1
    backends-IsUtil f now edge ib bs g syn l nv = (
      ibverbs_sample-IsReading f now ib edge,
      pcie_sample-IsReading f bs edge,
      synthetic_sample-IsReading g now syn edge,
      nvml_sample-IsOutcome l now nv edge,
    )
