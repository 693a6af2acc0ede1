-- ===== src/Shim/Plugin/Devices.antt =====
-- shim/nccl_plugin.cpp: the devices that the plugin shows, their properties, and the flush of received
-- buffers. The arrays that are static in `plugin_getProperties` are passed on.
use Prim.Native.Nat.{bit_or}
use Prim.Native.String.{String, ◌++◌ as string_append, slice}
use cong_shed.Base.{
  ℕ, ◌-◌, max, min, map, range, Bool, not, Option, none, some, List, [], ◌∷◌, if◌then◌else◌, length,
  get_elem?, get_or, set,
}
use cong_shed.Base.Int.{ℤ, pos_part}
use cong_shed.Base.Double.{Double}
use cong_shed.Model.{ib_rail_count}
use cong_shed.Ibverbs.{Transport, Host, init}
use cong_shed.CudaMr.{CudaRuntime, MemoryRegistry, supported_ptr_types, flush}
use cong_shed.Shim.Plugin.{NcclResult, success, invalid_argument}

-- `ncclNetProperties_v8`
pub record NetProperties (W : Type 0) : Type 0 where
  pub name : String
  pub pci_path : String
  pub guid : ℕ
  pub ptr_support : ℕ
  pub reg_is_global : ℕ
  pub speed : ℕ
  pub port : ℕ
  pub latency : W
  pub max_comms : ℕ
  pub max_recvs : ℕ
  pub net_device_type : ℕ
  pub net_device_version : ℕ

-- `available` and `init`
unfoldable pub ready_transport : Host → Transport → Transport
unfolding init
ready_transport h t = if t.ready then t else (init h ib_rail_count t).0

unfoldable pub plugin_devices : Host → Transport → Bool → Transport × NcclResult × Option ℕ
unfolding ready_transport
plugin_devices h t wants =
    if not wants
    then (t, invalid_argument, none)
    else (ready_transport h t, success, some (max 1 (length (ready_transport h t).devices)))

-- `snprintf` into 96 bytes, of which the last is the terminator
unfoldable pub device_path : String → String
device_path name =
    slice (string_append "/sys/class/infiniband/" (string_append name "/device")) 0 95

unfoldable pub path_written : Transport → ℕ → List String → List String
unfolding device_path
path_written t rail pcis = elim (get_elem? t.devices rail) [
  | none ↦ pcis
  | some dev ↦ set pcis rail (device_path dev.name)
]

-- The device number is brought into the range of the rails.
abbrev pub rail_of : ℤ → ℕ
rail_of dev = min (pos_part dev) (ib_rail_count - 1)

module _ {W : Type 0} ⦃d : Double W⦄ where
  open d use {decimal, narrow}

  unfoldable pub plugin_get_properties :
      CudaRuntime
      → Host
      → Transport
      → List String
      → ℤ
      → Bool
      → Transport × List String × NcclResult × Option (NetProperties W)
  unfolding ready_transport path_written
  plugin_get_properties rt h t pcis dev wants =
      if not wants
      then (t, pcis, invalid_argument, none)
      else (let t' = ready_transport h t in
          let rail = rail_of dev in
          let pcis' = path_written t' rail pcis in
          (
            t',
            pcis',
            success,
            some (record {
              name = get_or ("hics_rail0" ∷ "hics_rail1" ∷ []) rail "";
              pci_path = get_or pcis' rail "";
              guid = bit_or 0x4849435300000000 rail;
              ptr_support = supported_ptr_types rt;
              reg_is_global = 0;
              speed = 400000;
              port = rail;
              latency = narrow (decimal 8 1);
              max_comms = 65536;
              max_recvs = 64;
              net_device_type = 0;
              net_device_version = 0;
            }),
          ))

abbrev pub handle_at : Option (List ℕ) → ℕ → ℕ
handle_at none i = 0
handle_at (some handles) i = get_or handles i 0

-- What each flush says, which is not read, beside the status and the request, which is the null pointer.
unfoldable pub plugin_iflush :
    CudaRuntime → MemoryRegistry → ℕ → Option (List ℕ) → List Bool × NcclResult × ℕ
unfolding flush
plugin_iflush rt reg n handles =
    (map (λ i. flush rt reg (handle_at handles i)) (range n), success, 0)
