-- ===== src/Telemetry/Sysfs.antt =====
-- telemetry/hw_counters.cpp: `IbverbsBackend` and `PcieSysfsBackend`.
use Prim.Native.String.{String, ◌++◌ as string_append}
use text.Mathlib.Text.{◌==◌ as str_eq}
use cong_shed.Base.{
  ℕ, Bool, true, false, not, ◌&&◌, ◌||◌, Option, none, some, List, if◌then◌else◌, get_elem?, ltb,
  any, replicate, length,
}
use cong_shed.Base.Double.{Double, nought}
use cong_shed.Base.Text.{show_int}
use cong_shed.Model.{infiniband, pcie, cxl, fabric_eq}
use cong_shed.Telemetry.Binding.{EdgeHwBinding}
use cong_shed.Telemetry.Meter.{Files, Meter, measure}

abbrev pub is_some : {A : Type 0} → Option A → Bool
is_some none = false
is_some (some a) = true

pub record IbverbsBackend (W : Type 0) : Type 0 where
  pub bindings : List (EdgeHwBinding W)
  pub meter : Meter

-- `prev_….assign(n, 0)`
abbrev pub blank_meter : ℕ → Meter
blank_meter n = record { prev = replicate n 0; prev_ts = replicate n 0 }

unfoldable pub ibverbs_available : Files → Bool
ibverbs_available f = f.opens "/sys/class/infiniband"

unfoldable pub pcie_available : Files → Bool
pcie_available f = f.opens "/sys/bus/pci/devices"

module _ {W : Type 0} where
  unfoldable pub xmit_path : EdgeHwBinding W → String
  xmit_path b = string_append "/sys/class/infiniband/" (
      string_append b.ib_device
        (string_append "/ports/" (string_append (show_int b.ib_port) "/counters/port_xmit_data")))

  -- Some InfiniBand edge has a counter that can be read.
  unfoldable pub any_readable : Files → List (EdgeHwBinding W) → Bool
  unfolding xmit_path
  any_readable f bs =
      any (λ b. fabric_eq b.fabric infiniband && is_some (f.number (xmit_path b))) bs

  unfoldable pub ibverbs_init : Files → List (EdgeHwBinding W) → IbverbsBackend W × Bool
  unfolding ibverbs_available any_readable
  ibverbs_init f bs = (
    record { bindings = bs; meter = blank_meter (length bs) },
    any_readable f bs || ibverbs_available f,
  )

module _ {W : Type 0} ⦃d : Double W⦄ where
  open d use {decimal, narrow}

  unfoldable pub ibverbs_sample : Files → ℕ → IbverbsBackend W → ℕ → IbverbsBackend W × Option W
  unfolding measure xmit_path
  ibverbs_sample f now s edge = elim (get_elem? s.bindings edge) [
    | none ↦ (s, none)
    | some b ↦ elim (f.number (xmit_path b)) [
      | none ↦ (s, none)
      | some words ↦
          let r = measure (decimal 4 0) b.peak_bw_gbps s.meter edge words now in
          if fabric_eq b.fabric infiniband then (record s { meter = r.0 }, some r.1) else (s, none)
    ]
  ]

  -- `PcieSysfsBackend` keeps only its bindings.
  unfoldable pub pcie_init : Files → List (EdgeHwBinding W) → List (EdgeHwBinding W) × Bool
  unfolding pcie_available
  pcie_init f bs = (bs, pcie_available f)

  -- The width of the link stands for its load.
  unfoldable pub pcie_sample : Files → List (EdgeHwBinding W) → ℕ → Option W
  pcie_sample f bs edge = elim (get_elem? bs edge) [
    | none ↦ none
    | some b ↦
        let width = f.number (string_append b.pci_sysfs "/current_link_width") in
        if not (fabric_eq b.fabric pcie) && not (fabric_eq b.fabric cxl)
        then none
        else if str_eq b.pci_sysfs ""
        then none
        else elim width [
          | none ↦ some (narrow (decimal 1 1))
          | some w ↦ some (if ltb 0 w then narrow (decimal 5 2) else narrow nought)
        ]
  ]
