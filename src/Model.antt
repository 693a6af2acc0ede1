-- ===== src/Model.antt =====
-- model/model.hpp: endpoints, fabrics, edges and requests.
use cong_shed.Base.{ℕ, ◌*◌, Bool, true, false, ◌&&◌, ◌==◌, List}
use cong_shed.Base.Int.{ℤ, negsuc}
use cong_shed.Base.Double.{Double}

pub data FabricType : Type 0 where
  nvlink pcie cxl infiniband : FabricType

pub data TrafficClass : Type 0 where
  tensor_parallel pipeline_parallel kv_migration : TrafficClass

pub data EndpointType : Type 0 where
  gpu cpu cxl_controller ib_port : EndpointType

pub record EndpointId : Type 0 where
  pub node_id : ℕ
  pub local_id : ℕ
  pub kind : EndpointType

abbrev pub fabric_eq : FabricType → FabricType → Bool
fabric_eq nvlink nvlink = true
fabric_eq pcie pcie = true
fabric_eq cxl cxl = true
fabric_eq infiniband infiniband = true
fabric_eq _ _ = false

abbrev pub class_eq : TrafficClass → TrafficClass → Bool
class_eq tensor_parallel tensor_parallel = true
class_eq pipeline_parallel pipeline_parallel = true
class_eq kv_migration kv_migration = true
class_eq _ _ = false

abbrev pub kind_eq : EndpointType → EndpointType → Bool
kind_eq gpu gpu = true
kind_eq cpu cpu = true
kind_eq cxl_controller cxl_controller = true
kind_eq ib_port ib_port = true
kind_eq _ _ = false

-- `EndpointId::operator==`
unfoldable pub endpoint_eq : EndpointId → EndpointId → Bool
endpoint_eq a b = (a.node_id == b.node_id) && ((a.local_id == b.local_id) && kind_eq a.kind b.kind)

pub record EdgeAttributes (W : Type 0) : Type 0 where
  pub fabric : FabricType
  pub bandwidth_gbps : W
  pub latency_us : W
  pub contention_alpha : W
  -- 0 or 1 for the InfiniBand rails, and -1 where there is none
  pub rail_id : ℤ

-- `kKvChunkBytes`, 256 MiB
abbrev pub kv_chunk_bytes : ℕ
kv_chunk_bytes = 256 * 1024 * 1024

-- `kIbRailCount`
abbrev pub ib_rail_count : ℕ
ib_rail_count = 2

pub record TransferRequest (W : Type 0) : Type 0 where
  pub source : EndpointId
  pub dest : EndpointId
  pub size_bytes : ℕ
  pub traffic_class : TrafficClass
  pub deadline_us : W

pub record PathCost (W : Type 0) : Type 0 where
  pub edge_indices : List ℕ
  pub latency_us : W

module _ {W : Type 0} ⦃d : Double W⦄ where
  open d use {decimal}

  unfoldable pub contention_exponent : FabricType → W
  contention_exponent nvlink = decimal 14 1
  contention_exponent infiniband = decimal 18 1
  contention_exponent pcie = decimal 21 1
  contention_exponent cxl = decimal 21 1

  unfoldable pub default_fabric_attrs : FabricType → ℤ → EdgeAttributes W
  default_fabric_attrs nvlink rail = record {
    fabric = nvlink;
    bandwidth_gbps = decimal 900 0;
    latency_us = decimal 1 0;
    contention_alpha = decimal 14 1;
    rail_id = negsuc 0;
  }
  default_fabric_attrs pcie rail = record {
    fabric = pcie;
    bandwidth_gbps = decimal 64 0;
    latency_us = decimal 3 0;
    contention_alpha = decimal 21 1;
    rail_id = negsuc 0;
  }
  default_fabric_attrs cxl rail = record {
    fabric = cxl;
    bandwidth_gbps = decimal 50 0;
    latency_us = decimal 5 0;
    contention_alpha = decimal 21 1;
    rail_id = negsuc 0;
  }
  default_fabric_attrs infiniband rail = record {
    fabric = infiniband;
    bandwidth_gbps = decimal 50 0;
    latency_us = decimal 5 0;
    contention_alpha = decimal 18 1;
    rail_id = rail;
  }
