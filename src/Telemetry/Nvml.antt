-- ===== src/Telemetry/Nvml.antt =====
-- telemetry/hw_counters.cpp: `NvmlBackend`. The library that `dlopen` loads is a parameter: what it finds, and
-- what its calls answer at a moment.
use Prim.Native.String.{String}
use cong_shed.Base.{
  ℕ, ◌*◌, Bool, true, false, not, ◌&&◌, ◌||◌, Option, none, some, List, [], if◌then◌else◌,
  get_elem?, length,
}
use cong_shed.Base.Int.{is_nonneg, pos_part}
use cong_shed.Base.Double.{Double, ◌⊘◌, fmax, one}
use cong_shed.Model.{nvlink, fabric_eq}
use cong_shed.Telemetry.Binding.{EdgeHwBinding}
use cong_shed.Telemetry.Meter.{Meter, measure, as_util}
use cong_shed.Telemetry.Sysfs.{blank_meter}

-- A call of the library that returns 0 gives `some`. Devices and counters are named by numbers.
pub record NvmlLibrary : Type 0 where
  pub opens : String → Bool
  pub has : String → Bool
  pub init_ok : Bool
  pub device : ℕ → Option ℕ
  -- the transmit count of a device's link
  pub nvlink_counter : ℕ → ℕ → Option ℕ
  -- the throughput of a device in KB/s, 0 for sent and 1 for received
  pub pcie_throughput : ℕ → ℕ → Option ℕ

-- The function pointers count as set or null.
pub record NvmlBackend (W : Type 0) : Type 0 where
  pub bindings : List (EdgeHwBinding W)
  pub meter : Meter
  pub ready : Bool
  pub handle : Bool
  pub nvml_init : Bool
  pub nvml_shutdown : Bool
  pub get_handle_by_index : Bool
  pub get_nvlink_counter : Bool
  pub get_pcie_throughput : Bool

-- What a sample does: a reading, a refusal, or a call through a null pointer.
pub data Outcome (W : Type 0) : Type 0 where
  reading : W → Outcome W
  refused null_call : Outcome W

-- Either name of the library.
unfoldable pub loads : NvmlLibrary → Bool
loads l = l.opens "libnvidia-ml.so.1" || l.opens "libnvidia-ml.so"

-- `available` loads the library and lets it go again.
unfoldable pub nvml_available : NvmlLibrary → Bool
unfolding loads
nvml_available l = loads l

module _ {W : Type 0} where
  -- What the constructor leaves.
  abbrev pub new_nvml : NvmlBackend W
  new_nvml = record {
    bindings = [];
    meter = blank_meter 0;
    ready = false;
    handle = false;
    nvml_init = false;
    nvml_shutdown = false;
    get_handle_by_index = false;
    get_nvlink_counter = false;
    get_pcie_throughput = false;
  }

  -- `teardown` unloads the library; the pointers into it stay.
  unfoldable pub teardown : NvmlBackend W → NvmlBackend W
  teardown s = record s { handle = false; ready = false }

  -- The `dlsym` calls, with the older names tried where the code does.
  unfoldable pub resolve : NvmlLibrary → NvmlBackend W → NvmlBackend W
  resolve l s = record s {
    handle = true;
    nvml_init = l.has "nvmlInit_v2" || l.has "nvmlInit";
    nvml_shutdown = l.has "nvmlShutdown";
    get_handle_by_index =
        l.has "nvmlDeviceGetHandleByIndex_v2" || l.has "nvmlDeviceGetHandleByIndex";
    get_nvlink_counter = l.has "nvmlDeviceGetNvLinkUtilizationCounter";
    get_pcie_throughput = l.has "nvmlDeviceGetPcieThroughput";
  }

  unfoldable pub nvml_start :
      NvmlLibrary → NvmlBackend W → List (EdgeHwBinding W) → NvmlBackend W × Bool
  unfolding loads resolve teardown
  nvml_start l s bs =
      let fresh = record s { bindings = bs; meter = blank_meter (length bs) } in
      let found = resolve l fresh in
      if not (loads l)
      then (record fresh { handle = false }, false)
      else if found.nvml_init && l.init_ok
      then (record found { ready = true }, true)
      else (teardown found, false)

module _ {W : Type 0} ⦃d : Double W⦄ where
  open d use {decimal, of_nat}

  -- `kbps / 1024²` GB/s against the peak
  unfoldable pub throughput_util : W → W → W
  unfolding as_util
  throughput_util peak kbps = as_util (kbps ⊘ decimal (1024 * 1024) 0 ⊘ fmax peak one)

  unfoldable pub sample_nvlink :
      NvmlLibrary → ℕ → NvmlBackend W → ℕ → EdgeHwBinding W → NvmlBackend W × Outcome W
  unfolding measure
  sample_nvlink l now s edge b =
      if not s.get_handle_by_index then (s, null_call) else elim (l.device (pos_part b.gpu_a)) [
        | none ↦ (s, refused)
        | some dev ↦ elim (l.nvlink_counter dev (pos_part b.nvlink_id)) [
          | none ↦ (s, refused)
          | some tx ↦
              let r = measure (decimal 16 0) b.peak_bw_gbps s.meter edge tx now in
              (record s { meter = r.0 }, reading r.1)
        ]
      ]

  unfoldable pub sample_throughput : NvmlLibrary → NvmlBackend W → EdgeHwBinding W → Outcome W
  unfolding throughput_util
  sample_throughput l s b =
      if not s.get_handle_by_index then null_call else elim (l.device (pos_part b.gpu_a)) [
        | none ↦ refused
        | some dev ↦ elim (l.pcie_throughput dev 0) [
          | none ↦ refused
          | some kbps ↦ reading (throughput_util b.peak_bw_gbps (of_nat kbps))
        ]
      ]

  unfoldable pub nvml_sample : NvmlLibrary → ℕ → NvmlBackend W → ℕ → NvmlBackend W × Outcome W
  unfolding sample_nvlink sample_throughput
  nvml_sample l now s edge = elim (get_elem? s.bindings edge) [
    | none ↦ (s, refused)
    | some b ↦
        if not s.ready
        then (s, refused)
        else if fabric_eq b.fabric nvlink && (s.get_nvlink_counter && is_nonneg b.gpu_a)
        then sample_nvlink l now s edge b
        else if s.get_pcie_throughput && is_nonneg b.gpu_a
        then (s, sample_throughput l s b)
        else (s, refused)
  ]
