-- ===== src/Telemetry/Pmu/Backend.antt =====
-- telemetry/pmu_counters.cpp: `PmuBackend`, with a client of its own for each PCIe and CXL edge.
use Prim.Native.String.{String}
use cong_shed.Base.{
  ℕ, Bool, true, false, ◌&&◌, ◌||◌, Option, none, some, List, [], ◌∷◌, if◌then◌else◌, get_elem?,
  set,
}
use cong_shed.Base.Double.{Double}
use cong_shed.Model.{pcie, cxl, fabric_eq}
use cong_shed.Telemetry.Binding.{EdgeHwBinding}
use cong_shed.Telemetry.Pmu.{Machine, PmuCounterClient, open_pmu}
use cong_shed.Telemetry.Pmu.Sample.{sample_pmu}

pub record PmuBackend (W : Type 0) : Type 0 where
  pub bindings : List (EdgeHwBinding W)
  pub clients : List (Option (PmuCounterClient W))
  pub name : String

module _ {W : Type 0} where
  -- `PmuCounterClient()`, whose binding is set when it is opened
  abbrev pub new_pmu_client : EdgeHwBinding W → PmuCounterClient W
  new_pmu_client b = record {
    ready = false;
    backend_name = "none";
    binding = b;
    fd_read = none;
    fd_write = none;
    prev_read = 0;
    prev_write = 0;
    prev_ts_ns = 0;
    uncore_read_path = "";
    uncore_write_path = "";
    nvml = false;
    nvml_init = false;
    get_handle_by_index = false;
    get_pcie_throughput = false;
  }

  -- The clients of the edges, and the name of the last one that was opened.
  unfoldable pub open_clients :
      Machine W → String → List (EdgeHwBinding W) → List (Option (PmuCounterClient W)) × String
  unfolding open_pmu
  open_clients m name [] = ([], name)
  open_clients m name (b ∷ bs) =
      let r = open_pmu m (new_pmu_client b) b in
      let taken = (fabric_eq b.fabric pcie || fabric_eq b.fabric cxl) && r.1 in
      let rest = open_clients m (if taken then r.0.backend_name else name) bs in
      ((if taken then some r.0 else none) ∷ rest.0, rest.1)

  abbrev pub any_opened : List (Option (PmuCounterClient W)) → Bool
  any_opened [] = false
  any_opened (none ∷ cs) = any_opened cs
  any_opened (some c ∷ cs) = true

  unfoldable pub pmu_init : Machine W → PmuBackend W → List (EdgeHwBinding W) → PmuBackend W × Bool
  unfolding open_clients
  pmu_init m s bs =
      let r = open_clients m s.name bs in
      (record { bindings = bs; clients = r.0; name = r.1 }, any_opened r.0)

module _ {W : Type 0} ⦃d : Double W⦄ where
  open d use {narrow}

  unfoldable pub pmu_sample : Machine W → ℕ → PmuBackend W → ℕ → PmuBackend W × Option W
  unfolding sample_pmu
  pmu_sample m now s edge = elim (get_elem? s.clients edge) [
    | none ↦ (s, none)
    | some client ↦ elim client [
      | none ↦ (s, none)
      | some c ↦
          let r = sample_pmu m now c in
          let s' = record s { clients = set s.clients edge (some r.0) } in
          elim r.1 [
            | none ↦ (s', none)
            | some p ↦ if p.valid then (s', some (narrow p.util)) else (s', none)
          ]
    ]
  ]
