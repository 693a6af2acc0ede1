-- ===== src/Tests/Machine.antt =====
-- Runs of the devices and the libraries of a machine, with whole thousandths for floating-point numbers.
use Prim.Native.String.{String}
use text.Mathlib.Text.{◌==◌ as str_eq}
use cong_shed.Base.{ℕ, ◌<◌, ◌≡◌, ◌↔◌, refl, true, false, Option, none, some, [], ◌∷◌, if◌then◌else◌}
use cong_shed.Base.Int.{pos}
use cong_shed.Base.Double.{Milli, milli}
use cong_shed.Ibverbs.{IbDeviceInfo, Transport, Host}
use cong_shed.CudaMr.{supported_ptr_types}
use cong_shed.CudaMr.Loading.{CudaLibrary, open_first, library_names, no_runtime, cuda_runtime}
use cong_shed.CudaMr.Offered.{HasDevice, supported_ptr_types-HasDevice}
use cong_shed.Shim.Plugin.Devices.{plugin_devices, plugin_get_properties}
use cong_shed.Shim.Plugin.Shown.{Describes, plugin_get_properties-devices}

abbrev library : CudaLibrary
library = record {
  device_count_fn = some (some (pos 2));
  attributes_fn = some (λ p. none);
  register_fn = none;
  unregister_fn = none;
  device_pointer_fn = none;
  synchronize_fn = none;
  memcpy_fn = none;
}

abbrev load : String → Option CudaLibrary
load s = if str_eq s "libcudart.so" then some library else none

supported_ptr_types-HasDevice_example :
    (supported_ptr_types (cuda_runtime load (λ p n. true)) ≡ 3)
    ↔ HasDevice (open_first load library_names)
supported_ptr_types-HasDevice_example = supported_ptr_types-HasDevice load (λ p n. true)

abbrev machine : Host
machine = record {
  can_list = true;
  names = "mlx5_2" ∷ "mlx5_3" ∷ "mlx5_4" ∷ [];
  is_dir = λ s. true;
  has_ibverbs = false;
}

abbrev idle : Transport
idle = record {
  ready = false;
  hardware = false;
  devices = [];
  next_wr = 1;
  next_mr = 1;
  pending = [];
  ibv_handle = false;
}

abbrev second : IbDeviceInfo
second = record { name = "mlx5_3"; port = 1; rail_id = pos 1; guid = 0x4849435300000001 }

plugin_get_properties-devices_example :
    ((n : ℕ) × ((plugin_devices machine idle true).2 ≡ some n) × (1 < n))
    × Describes Milli second
        (plugin_get_properties
          (no_runtime (λ p n. true))
          machine
          (plugin_devices machine idle true).0
          ("" ∷ "" ∷ [])
          (pos 1)
          true).3
unfolding plugin_devices
plugin_get_properties-devices_example =
    plugin_get_properties-devices Milli (no_runtime (λ p n. true)) machine idle ("" ∷ "" ∷ []) 1
      second refl refl refl
