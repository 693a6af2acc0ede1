-- ===== src/Telemetry/Pmu.antt =====
-- telemetry/pmu_counters.hpp and pmu_counters.cpp: `PmuCounterClient`, and how it opens a source of counters.
pub mod Sample
pub mod Backend
pub mod Source
use Prim.Native.String.{String, ◌++◌ as string_append}
use Prim.Native.Nat.{bit_or}
use text.Mathlib.Text.{◌==◌ as str_eq, starts_with}
use cong_shed.Base.{
  ℕ, ◌*◌, ◌%◌, Bool, true, false, not, ◌&&◌, ◌||◌, Option, none, some, List, [], ◌∷◌, ltb,
  if◌then◌else◌, word32, word64,
}
use cong_shed.Base.Int.{ℤ, is_nonneg}
use cong_shed.Base.Scan.{scan_after, scan_hex, find_from, or_number}
use cong_shed.Base.Double.{Double, nought}
use cong_shed.Telemetry.Binding.{EdgeHwBinding}
use cong_shed.Telemetry.Meter.{Files}
use cong_shed.Telemetry.Nvml.{NvmlLibrary, loads}
use cong_shed.Telemetry.Sysfs.{is_some}

-- The machine at a moment: its files, the names in a directory, a file's first line and the number with which
-- it starts, the perf events that can be opened and read, and the NVML library.
pub record Machine (W : Type 0) : Type 0 where
  pub files : Files
  pub names : String → Option (List String)
  pub line : String → Option (List ℕ)
  pub leading_number : String → Option W
  pub perf_event_open : ℕ → ℕ → Option ℕ
  pub perf_read : ℕ → Option ℕ
  pub nvml_library : NvmlLibrary

pub record PmuCounterClient (W : Type 0) : Type 0 where
  pub ready : Bool
  pub backend_name : String
  pub binding : EdgeHwBinding W
  -- a descriptor that is -1 is `none`
  pub fd_read : Option ℕ
  pub fd_write : Option ℕ
  pub prev_read : ℕ
  pub prev_write : ℕ
  pub prev_ts_ns : ℕ
  pub uncore_read_path : String
  pub uncore_write_path : String
  pub nvml : Bool
  pub nvml_init : Bool
  pub get_handle_by_index : Bool
  pub get_pcie_throughput : Bool

abbrev pub sources_dir : String
sources_dir = "/sys/bus/event_source/devices"

abbrev pub in_sources : String → String → String
in_sources name path = string_append sources_dir (string_append "/" (string_append name path))

-- The first source named uncore_iio… or uncore_imc… whose type can be read.
unfoldable pub first_iio : Files → List String → Option (ℕ × String)
first_iio f [] = none
first_iio f (n ∷ ns) =
    let rest = first_iio f ns in
    if starts_with n "uncore_iio" || starts_with n "uncore_imc"
    then elim (f.number (in_sources n "/type")) [ none ↦ rest | some t ↦ some (t % word32, n) ]
    else rest

-- "event=", "event=0x", "umask=" and "umask=0x"
abbrev event_prefix : List ℕ
event_prefix = 101 ∷ 118 ∷ 101 ∷ 110 ∷ 116 ∷ 61 ∷ []

abbrev event_prefix_0x : List ℕ
event_prefix_0x = 101 ∷ 118 ∷ 101 ∷ 110 ∷ 116 ∷ 61 ∷ 48 ∷ 120 ∷ []

abbrev umask_prefix : List ℕ
umask_prefix = 117 ∷ 109 ∷ 97 ∷ 115 ∷ 107 ∷ 61 ∷ []

abbrev umask_prefix_0x : List ℕ
umask_prefix_0x = 117 ∷ 109 ∷ 97 ∷ 115 ∷ 107 ∷ 61 ∷ 48 ∷ 120 ∷ []

-- The mask of a line, 0 where it names none.
unfoldable pub umask_of : List ℕ → ℕ
unfolding scan_after find_from
umask_of line = elim (find_from umask_prefix line) [
  | none ↦ 0
  | some at ↦ elim (or_number (scan_after umask_prefix at) (scan_after umask_prefix_0x at)) [
    | none ↦ 0
    | some um ↦ um
  ]
]

-- The configuration that a line of an event file describes.
unfoldable pub event_config : List ℕ → Option ℕ
unfolding umask_of scan_after scan_hex
event_config line =
    elim (or_number (scan_after event_prefix line) (scan_after event_prefix_0x line)) [
      | some ev ↦ some (bit_or ev (umask_of line * 256 % word64))
      | none ↦ scan_hex line
    ]

-- The paths of the last source that was looked at; the loop ends at one whose events can be read.
unfoldable pub scan_uncore : Files → List String → String × String → String × String
scan_uncore f [] paths = paths
scan_uncore f (n ∷ ns) paths =
    let found : String × String =
      (in_sources n "/events/data_read", in_sources n "/events/data_write") in
    let skip = not (starts_with n "uncore_") || not (f.opens (in_sources n "/cpumask")) in
    let rest = scan_uncore f ns (if skip then paths else found) in
    if not skip && (f.opens found.0 || f.opens found.1) then found else rest

module _ {W : Type 0} where
  unfoldable pub find_uncore_iio_type : Machine W → Option (ℕ × String)
  unfolding first_iio
  find_uncore_iio_type m = elim (m.names sources_dir) [
    | none ↦ none
    | some ns ↦ first_iio m.files ns
  ]

  unfoldable pub find_uncore_event_config : Machine W → String → String → Option ℕ
  unfolding event_config
  find_uncore_event_config m pmu event =
      elim (m.line (in_sources pmu (string_append "/events/" event))) [
        | none ↦ none
        | some l ↦ event_config l
      ]

  -- The first of the events that is described.
  unfoldable pub first_config : Machine W → String → List String → Option ℕ
  unfolding find_uncore_event_config
  first_config m pmu [] = none
  first_config m pmu (e ∷ es) = or_number (find_uncore_event_config m pmu e) (first_config m pmu es)

  unfoldable pub close_pmu : PmuCounterClient W → PmuCounterClient W
  close_pmu c = record c { fd_read = none; fd_write = none; nvml = false; ready = false }

  -- A descriptor is opened where there is a configuration for it, and else stays.
  abbrev open_one : Machine W → ℕ → Option ℕ → Option ℕ → Option ℕ
  open_one m type config fd = elim config [ none ↦ fd | some cfg ↦ m.perf_event_open type cfg ]

  -- Without any described event the two generic ones are opened.
  unfoldable pub open_perf_uncore : Machine W → PmuCounterClient W → PmuCounterClient W × Bool
  unfolding find_uncore_iio_type first_config
  open_perf_uncore m c = elim (find_uncore_iio_type m) [
    | none ↦ (c, false)
    | some u ↦
        let r = first_config m u.1 ("data_read" ∷ "read_inserts" ∷ "event_data_read" ∷ []) in
        let w = first_config m u.1 ("data_write" ∷ "write_inserts" ∷ "event_data_write" ∷ []) in
        let generic = not (is_some r) && not (is_some w) in
        let fd_r = open_one m u.0 (if generic then some 1 else r) c.fd_read in
        let fd_w = open_one m u.0 (if generic then some 2 else w) c.fd_write in
        (record c { fd_read = fd_r; fd_write = fd_w }, is_some fd_r || is_some fd_w)
  ]

  -- The link's width marks the source as open. A second `closedir` after the loop was left early is undefined
  -- in C, and is taken to do nothing.
  unfoldable pub open_sysfs_uncore : Machine W → PmuCounterClient W → PmuCounterClient W × Bool
  unfolding scan_uncore
  open_sysfs_uncore m c = elim (m.names sources_dir) [
    | none ↦ (c, false)
    | some ns ↦
        let paths = scan_uncore m.files ns (c.uncore_read_path, c.uncore_write_path) in
        let c' = record c { uncore_read_path = paths.0; uncore_write_path = paths.1 } in
        let aer = string_append c.binding.pci_sysfs "/aer_dev_correctable" in
        if str_eq c.binding.pci_sysfs ""
        then (c', false)
        else elim (m.files.number (string_append c.binding.pci_sysfs "/current_link_width")) [
          | none ↦ (c', false)
          | some width ↦
              if ltb 0 width then (record c' { uncore_read_path = aer }, true) else (c', false)
        ]
  ]

  unfoldable pub open_nvml_pcie : Machine W → PmuCounterClient W → PmuCounterClient W × Bool
  unfolding loads
  open_nvml_pcie m c =
      let l = m.nvml_library in
      let found = record c {
        nvml = true;
        nvml_init = l.has "nvmlInit_v2" || l.has "nvmlInit";
        get_handle_by_index =
            l.has "nvmlDeviceGetHandleByIndex_v2" || l.has "nvmlDeviceGetHandleByIndex";
        get_pcie_throughput = l.has "nvmlDeviceGetPcieThroughput";
      } in
      if not (is_nonneg c.binding.gpu_a)
      then (c, false)
      else if not (loads l)
      then (record c { nvml = false }, false)
      else if found.nvml_init
          && (found.get_handle_by_index && (found.get_pcie_throughput && l.init_ok))
      then (found, true)
      else (record found { nvml = false }, false)

  abbrev opened_as : String → PmuCounterClient W → PmuCounterClient W × Bool
  opened_as name c = (record c { backend_name = name; ready = true }, true)

  -- The sources are tried in this order.
  unfoldable pub open_pmu :
      Machine W → PmuCounterClient W → EdgeHwBinding W → PmuCounterClient W × Bool
  unfolding close_pmu open_perf_uncore open_sysfs_uncore open_nvml_pcie
  open_pmu m c b =
      let perf = open_perf_uncore m (record (close_pmu c) { binding = b }) in
      let sysfs = open_sysfs_uncore m perf.0 in
      let nvml = open_nvml_pcie m sysfs.0 in
      if perf.1
      then opened_as "perf_uncore" perf.0
      else if sysfs.1
      then opened_as "sysfs_uncore" sysfs.0
      else if nvml.1
      then opened_as "nvml_pcie" nvml.0
      else (record nvml.0 { ready = false }, false)
