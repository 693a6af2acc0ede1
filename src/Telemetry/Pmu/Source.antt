-- ===== src/Telemetry/Pmu/Source.antt =====
-- telemetry/pmu_counters.cpp: the state that an opened client is in, and what it reports.
use text.Mathlib.Text.{◌==◌ as str_eq}
use cong_shed.Base.{
  ℕ, ◌-◌, ◌≡◌, refl, sym, ◌∙◌, Bool, true, false, not, ◌&&◌, ◌||◌, Option, none, some, inl, inr,
  if◌then◌else◌, if_either, if_either_eq, option_either, leb, ◌==◌, sub64, Bool-cases,
}
use cong_shed.Base.Int.{pos_part}
use cong_shed.Base.Double.{Double, ◌⊕◌, ◌⊗◌, ◌⊘◌, ◌≺◌, fmin, fclamp, nought, IsOrdered}
use cong_shed.Telemetry.Binding.{EdgeHwBinding}
use cong_shed.Telemetry.Range.{HasLiterals, fclamp_within}
use cong_shed.Telemetry.Sysfs.{is_some}
use cong_shed.Telemetry.Pmu.{
  Machine, PmuCounterClient, open_pmu, close_pmu, open_perf_uncore, open_sysfs_uncore,
  open_nvml_pcie,
}
use cong_shed.Telemetry.Pmu.Sample.{
  PmuSample, sample_pmu, sample_perf, sample_sysfs, sample_nvml, aer_util, link_peak, read_fd,
}

module _ {W : Type 0} ⦃d : Double W⦄ where
  open d use {decimal, of_nat, narrow}

  -- Not above 0.99.
  abbrev pub Within : PmuSample W → Type 0
  Within s = (decimal 99 2 ≺ s.util) ≡ false

  abbrev pub Reports : PmuCounterClient W × Option (PmuSample W) → Type 0
  Reports r = elim r.1 [ none ↦ Unit | some s ↦ Within s ]

  module _ (o : IsOrdered W) (lit : HasLiterals W)
      (low : (decimal 99 2 ≺ narrow (decimal 5 2)) ≡ false) where
    fmin_within : (u : W) → (decimal 99 2 ≺ fmin (decimal 99 2) u) ≡ false
    fmin_within u =
        if_either_eq (λ x. (decimal 99 2 ≺ x) ≡ false) (u ≺ decimal 99 2) u (decimal 99 2)
          (λ e. elim (Bool-cases (decimal 99 2 ≺ u)) [
            | inl h ↦
                h
                ∙ sym (o.lt_trans (decimal 99 2) u (decimal 99 2) h e)
                ∙ o.lt_irrefl (decimal 99 2)
            | inr h ↦ h
          ])
          (λ e. o.lt_irrefl (decimal 99 2))

    aer_util-Within :
        (a : Option ℕ) (before : ℕ) (dt : W) → (decimal 99 2 ≺ aer_util a before dt) ≡ false
    unfolding aer_util
    aer_util-Within a before dt =
        option_either (λ x. (decimal 99 2 ≺ x) ≡ false) a _ _ lit.low_top
          (λ n.
            if_either (λ x. (decimal 99 2 ≺ x) ≡ false) (leb before n) _ _
              (fclamp_within o lit
                (decimal 5 2 ⊕ of_nat (n - before) ⊘ (dt ⊕ decimal 1 12) ⊗ decimal 1 3)).1
              lit.low_top)

    sample_sysfs-Within :
        (m : Machine W) (now : ℕ) (c : PmuCounterClient W) → Within (sample_sysfs m now c).1
    unfolding sample_sysfs
    sample_sysfs-Within m now c =
        let aer : Option ℕ =
          if str_eq c.uncore_read_path "" then none else m.files.number c.uncore_read_path in
        let own = c.binding.peak_bw_gbps in
        let peak = link_peak m c.binding.pci_sysfs in
        let dt = of_nat (sub64 now c.prev_ts_ns) ⊗ decimal 1 9 in
        let base = aer_util aer c.prev_read dt in
        if_either (λ (r : PmuCounterClient W × PmuSample W). Within r.1) (c.prev_ts_ns == 0) _ _ low
          (if_either (λ x. (decimal 99 2 ≺ x) ≡ false) ((nought ≺ peak) && (nought ≺ own))
            (fmin (decimal 99 2) (base ⊗ (own ⊘ peak))) base (fmin_within (base ⊗ (own ⊘ peak)))
            (aer_util-Within aer c.prev_read dt))

    -- No sample of a client, from whichever source it was opened, is above 0.99.
    pub sample_pmu-Within :
        (m : Machine W) (now : ℕ) (c : PmuCounterClient W) → Reports (sample_pmu m now c)
    unfolding sample_pmu sample_perf sample_nvml
    sample_pmu-Within m now c =
        let l = m.nvml_library in
        let Q : Option (PmuSample W) → Type 0 = λ s. elim s [ none ↦ Unit | some x ↦ Within x ] in
        let top : (u : W) → (decimal 99 2 ≺ fclamp u nought (decimal 99 2)) ≡ false =
          λ u. (fclamp_within o lit u).1 in
        if_either Reports (not c.ready) (c, none) _ tt
          (if_either Reports (is_some c.fd_read || is_some c.fd_write) _ _
            (if_either Reports
              (not (is_some (read_fd m c.fd_read)) && not (is_some (read_fd m c.fd_write)))
              (c, none) _ tt (if_either Reports (c.prev_ts_ns == 0) _ _ lit.top (top _)))
            (if_either Reports c.nvml _ _
              (if_either Q (not c.get_handle_by_index || not c.get_pcie_throughput) none _ tt (
                option_either Q (l.device (pos_part c.binding.gpu_a)) _ _ tt
                  (λ dev. option_either Q (l.pcie_throughput dev 0) _ _ tt (λ tx. top _))))
              (sample_sysfs-Within m now c)))

module _ {W : Type 0} ⦃d : Double W⦄ where
  open_ready :
      (m : Machine W) (c : PmuCounterClient W) (b : EdgeHwBinding W)
      → (open_pmu m c b).0.ready ≡ (open_pmu m c b).1
  unfolding open_pmu
  open_ready m c b =
      let P : PmuCounterClient W × Bool → Type 0 = λ r. r.0.ready ≡ r.1 in
      let perf = open_perf_uncore m (record (close_pmu c) { binding = b }) in
      let sysfs = open_sysfs_uncore m perf.0 in
      let nvml = open_nvml_pcie m sysfs.0 in
      if_either P perf.1 _ _ refl (if_either P sysfs.1 _ _ refl (if_either P nvml.1 _ _ refl refl))

  -- Where no source can be opened, each sample fails and changes nothing, whatever the client was before;
  -- else the client is ready.
  pub open_pmu-sample_pmu :
      (m at : Machine W) (c : PmuCounterClient W) (b : EdgeHwBinding W) (now : ℕ)
      → ((open_pmu m c b).1 ≡ false
          → sample_pmu at now (open_pmu m c b).0 ≡ ((open_pmu m c b).0, none))
        × ((open_pmu m c b).1 ≡ true → (open_pmu m c b).0.ready ≡ true)
  unfolding sample_pmu
  open_pmu-sample_pmu m at c b now =
      (λ e. rw (open_ready m c b ∙ e) refl, λ e. open_ready m c b ∙ e)
