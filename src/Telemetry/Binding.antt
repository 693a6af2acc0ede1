-- ===== src/Telemetry/Binding.antt =====
-- telemetry/hw_counters.cpp: `bindings_from_fabrics`. The device names of sysfs are an argument.
use Prim.Native.String.{String, ◌++◌ as string_append}
use cong_shed.Base.{
  ℕ, suc, ◌+◌, ◌%◌, Option, some, List, [], ◌∷◌, word32, if◌then◌else◌, length, get_elem?, get_or,
  is_empty,
}
use cong_shed.Base.Int.{ℤ, pos}
use cong_shed.Base.Double.{Double}
use cong_shed.Model.{FabricType, infiniband, fabric_eq}

pub record EdgeHwBinding (W : Type 0) : Type 0 where
  pub edge_idx : ℕ
  pub fabric : FabricType
  pub gpu_a : ℤ
  pub gpu_b : ℤ
  pub nvlink_id : ℤ
  pub ib_device : String
  pub ib_port : ℤ
  pub pci_sysfs : String
  pub peak_bw_gbps : W

-- `rail_ids[i] >= 0 ? rail_ids[i] % n : …`, with the edge's number for an InfiniBand edge that has none
unfoldable pub rail_index : ℕ → ℕ → FabricType → Option ℤ → ℕ
rail_index n i f (some (pos r)) = r % n
rail_index n i f other = if fabric_eq f infiniband then i % n else 0

module _ {W : Type 0} ⦃d : Double W⦄ where
  open d use {decimal}

  -- The loop over the fabrics from edge `i` on.
  unfoldable pub bind_from :
      List String → List W → List ℤ → ℕ → List FabricType → List (EdgeHwBinding W)
  unfolding rail_index
  bind_from devs bws rails i [] = []
  bind_from devs bws rails i (f ∷ fs) =
      let dev = get_or devs (rail_index (length devs) i f (get_elem? rails i)) "" in
      record {
        edge_idx = i % word32;
        fabric = f;
        gpu_a = pos (i % 8);
        gpu_b = pos ((i + 1) % 8);
        nvlink_id = pos (i % 18);
        ib_device = dev;
        ib_port = pos 1;
        pci_sysfs = string_append "/sys/class/infiniband/" (string_append dev "/ports/1");
        peak_bw_gbps = get_or bws i (decimal 50 0);
      }
      ∷ bind_from devs bws rails (suc i) fs

  unfoldable pub bindings_from_fabrics :
      List String → List FabricType → List W → List ℤ → List (EdgeHwBinding W)
  unfolding bind_from
  bindings_from_fabrics listed fabrics bws rails =
      bind_from (if is_empty listed then "mlx5_0" ∷ "mlx5_1" ∷ [] else listed) bws rails 0 fabrics
