-- ===== src/Telemetry/Pmu/Sample.antt =====
-- telemetry/pmu_counters.cpp: the samples of `PmuCounterClient` from each kind of source.
use Prim.Native.String.{String, ◌++◌ as string_append}
use text.Mathlib.Text.{◌==◌ as str_eq}
use cong_shed.Base.{
  ℕ, ◌*◌, ◌-◌, max, Bool, true, not, ◌&&◌, ◌||◌, Option, none, some, leb, ◌==◌, if◌then◌else◌,
  sub64,
}
use cong_shed.Base.Int.{pos_part}
use cong_shed.Base.Double.{Double, ◌⊕◌, ◌⊗◌, ◌⊘◌, ◌≺◌, fmax, fmin, fclamp, nought, one}
use cong_shed.Telemetry.Sysfs.{is_some}
use cong_shed.Telemetry.IbMad.Sample.{counter}
use cong_shed.Telemetry.Pmu.{Machine, PmuCounterClient}

pub record PmuSample (W : Type 0) : Type 0 where
  pub read_bw_gbps : W
  pub write_bw_gbps : W
  pub util : W
  pub valid : Bool

abbrev pub or_zero : Option ℕ → ℕ
or_zero none = 0
or_zero (some n) = n

abbrev pub next_aer : Option ℕ → ℕ → ℕ
next_aer aer before = elim aer [ none ↦ before | some n ↦ if leb before n then n else before ]

module _ {W : Type 0} ⦃d : Double W⦄ where
  open d use {decimal, of_nat, narrow}

  abbrev pub clamp_util : W → W
  clamp_util u = fclamp u nought (decimal 99 2)

  -- `PmuSample{}` with `util` and the mark
  abbrev pub util_only : W → PmuSample W
  util_only u = record { read_bw_gbps = nought; write_bw_gbps = nought; util = u; valid = true }

  -- Both bandwidths against the peak.
  abbrev pub both_bw : W → W → W → PmuSample W
  both_bw peak rb wb = record {
    read_bw_gbps = rb;
    write_bw_gbps = wb;
    util = clamp_util ((rb ⊕ wb) ⊘ fmax peak one);
    valid = true;
  }

  -- Bytes per nanosecond of a count of 64-byte lines; a counter that cannot be read gives 0.
  unfoldable pub line_rate : Option ℕ → ℕ → W → W
  line_rate count before dt =
      (elim count [ none ↦ nought | some n ↦ of_nat (sub64 n before) ⊗ decimal 64 0 ])
      ⊘ (dt ⊗ decimal 1000000000 0 ⊕ decimal 1 12)

  abbrev pub read_fd : Machine W → Option ℕ → Option ℕ
  read_fd m fd = elim fd [ none ↦ none | some n ↦ m.perf_read n ]

  unfoldable pub sample_perf :
      Machine W → ℕ → PmuCounterClient W → PmuCounterClient W × Option (PmuSample W)
  unfolding line_rate
  sample_perf m now c =
      let r = read_fd m c.fd_read in
      let w = read_fd m c.fd_write in
      let c' = record c { prev_read = or_zero r; prev_write = or_zero w; prev_ts_ns = now } in
      let dt = of_nat (sub64 now c.prev_ts_ns) ⊗ decimal 1 9 in
      if not (is_some r) && not (is_some w)
      then (c, none)
      else if c.prev_ts_ns == 0
      then (c', some (util_only nought))
      else (
        c',
        some (
            both_bw c.binding.peak_bw_gbps (line_rate r c.prev_read dt)
              (line_rate w c.prev_write dt)),
      )

  -- The capacity of the link in GB/s, with 16 GT/s where the speed cannot be read.
  unfoldable pub link_peak : Machine W → String → W
  link_peak m pci =
      let gt_s : W = elim (m.leading_number (string_append pci "/current_link_speed")) [
        | none ↦ decimal 16 0
        | some v ↦ v
      ] in
      let width = counter m.files (string_append pci "/current_link_width") in
      gt_s ⊗ of_nat (max width 1) ⊗ decimal 98 2 ⊘ decimal 8 0

  -- The growth of the error counter stands for load; one that cannot be read or went down counts nothing.
  unfoldable pub aer_util : Option ℕ → ℕ → W → W
  aer_util aer before dt = elim aer [
    | none ↦ decimal 5 2
    | some n ↦
        if leb before n
        then clamp_util (decimal 5 2 ⊕ of_nat (n - before) ⊘ (dt ⊕ decimal 1 12) ⊗ decimal 1 3)
        else decimal 5 2
  ]

  unfoldable pub sample_sysfs :
      Machine W → ℕ → PmuCounterClient W → PmuCounterClient W × PmuSample W
  unfolding link_peak aer_util
  sample_sysfs m now c =
      let aer =
        (if str_eq c.uncore_read_path "" then none else m.files.number c.uncore_read_path) in
      let own_peak = c.binding.peak_bw_gbps in
      let peak = link_peak m c.binding.pci_sysfs in
      let base = aer_util aer c.prev_read (of_nat (sub64 now c.prev_ts_ns) ⊗ decimal 1 9) in
      let util =
        (if (nought ≺ peak) && (nought ≺ own_peak)
          then fmin (decimal 99 2) (base ⊗ (own_peak ⊘ peak))
          else base) in
      if c.prev_ts_ns == 0
      then (
        record c { prev_read = or_zero aer; prev_ts_ns = now },
        util_only (narrow (decimal 5 2)),
      )
      else (
        record c { prev_read = next_aer aer c.prev_read; prev_ts_ns = now },
        record {
          read_bw_gbps = util ⊗ own_peak ⊗ decimal 5 1;
          write_bw_gbps = util ⊗ own_peak ⊗ decimal 5 1;
          util = util;
          valid = true;
        },
      )

  -- What was sent and received, where the first can be read.
  unfoldable pub sample_nvml : Machine W → PmuCounterClient W → Option (PmuSample W)
  sample_nvml m c =
      let l = m.nvml_library in
      let gbps : ℕ → W = λ kbps. of_nat kbps ⊘ decimal (1024 * 1024) 0 in
      if not c.get_handle_by_index || not c.get_pcie_throughput
      then none
      else elim (l.device (pos_part c.binding.gpu_a)) [
        | none ↦ none
        | some dev ↦ elim (l.pcie_throughput dev 0) [
          | none ↦ none
          | some tx ↦
              some (
                both_bw c.binding.peak_bw_gbps (gbps (or_zero (l.pcie_throughput dev 1))) (gbps tx))
        ]
      ]

  unfoldable pub sample_pmu :
      Machine W → ℕ → PmuCounterClient W → PmuCounterClient W × Option (PmuSample W)
  unfolding sample_perf sample_sysfs sample_nvml
  sample_pmu m now c =
      let s = sample_sysfs m now c in
      if not c.ready
      then (c, none)
      else if is_some c.fd_read || is_some c.fd_write
      then sample_perf m now c
      else if c.nvml
      then (c, sample_nvml m c)
      else (s.0, some s.1)
