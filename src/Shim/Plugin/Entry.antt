-- ===== src/Shim/Plugin/Entry.antt =====
-- shim/nccl_plugin.cpp: the start of the plugin, and the functions for C.
use Prim.Native.String.{String}
use cong_shed.Base.{ℕ, Bool, true, Option, none, some, List, if◌then◌else◌}
use cong_shed.Base.Int.{ℤ, pos, negsuc}
use cong_shed.Base.Double.{Double}
use cong_shed.Ibverbs.{Transport, Memory, Host}
use cong_shed.CudaMr.{CudaRuntime}
use cong_shed.Telemetry.{Backends}
use cong_shed.Shim.{Clock}
use cong_shed.Shim.Setup.{initialize, default_options, predictor_from}
use cong_shed.Shim.Plugin.{
  Plugin, NcclResult, success, internal_error, PluginComm, plugin_isend, plugin_irecv, plugin_test,
}
use cong_shed.Shim.Plugin.Devices.{plugin_devices}

-- What the start of the shim reads of the machine. `file` is what a path holds, and `rounds` how often the
-- sweep refreshes.
pub record Machine (W : Type 0) : Type 0 where
  pub backends : Backends W
  pub host : Host
  pub wire : Transport
  pub memory : Memory
  pub file : String → Option (List ℕ)
  pub rounds : ℕ

abbrev pub path_or : String → Option String → String
path_or kept none = kept
path_or kept (some path) = path

-- The functions for C return 0 or -1.
abbrev pub code_of : NcclResult → ℤ
code_of success = pos 0
code_of other = negsuc 0

unfoldable pub hics_plugin_devices : Host → Transport → Bool → Transport × ℤ × Option ℕ
unfolding plugin_devices
hics_plugin_devices h t wants = let r = plugin_devices h t wants in (r.0, code_of r.1, r.2)

module _ {W : Type 0} ⦃d : Double W⦄ where
  -- The plugin, `g_weights_path` and what is returned. A shim that is there stays, whatever the path.
  unfoldable pub nccl_plugin_bootstrap :
      Machine W → Plugin W → String → Option String → Plugin W × String × Bool
  unfolding initialize predictor_from
  nccl_plugin_bootstrap m p kept path = elim p.shim [
    | some s ↦ (p, kept, true)
    | none ↦
        let used = path_or kept path in
        let s =
          initialize default_options m.backends m.host m.wire m.memory (predictor_from m.file used)
            m.rounds in
        (record p { shim = some s }, used, true)
  ]

  unfoldable pub plugin_init : Machine W → Plugin W → String → Plugin W × String × NcclResult
  unfolding nccl_plugin_bootstrap
  plugin_init m p kept =
      let r = nccl_plugin_bootstrap m p kept none in
      (r.0, r.1, if r.2 then success else internal_error)

  unfoldable pub hics_plugin_init : Machine W → Plugin W → String → Plugin W × String × ℤ
  unfolding nccl_plugin_bootstrap
  hics_plugin_init m p kept =
      let r = nccl_plugin_bootstrap m p kept none in (r.0, r.1, if r.2 then pos 0 else negsuc 0)

  unfoldable pub hics_plugin_isend :
      CudaRuntime
      → Plugin W
      → Option PluginComm
      → ℕ
      → ℕ
      → ℤ
      → ℕ
      → Bool
      → Clock W
      → Plugin W × ℤ × Option ℕ
  unfolding plugin_isend
  hics_plugin_isend rt p comm ptr size tag h wants clock =
      let r = plugin_isend rt p comm ptr size tag h wants clock in (r.0, code_of r.1, r.2)

  -- A receive of one buffer.
  unfoldable pub hics_plugin_irecv :
      CudaRuntime
      → Plugin W
      → Option PluginComm
      → ℕ
      → ℕ
      → ℤ
      → ℕ
      → Bool
      → Clock W
      → Plugin W × ℤ × Option ℕ
  unfolding plugin_irecv
  hics_plugin_irecv rt p comm ptr size tag h wants clock =
      let r = plugin_irecv rt p comm (pos 1) ptr size tag h wants clock in (r.0, code_of r.1, r.2)

  unfoldable pub hics_plugin_test : Plugin W → ℕ → Clock W → Plugin W × ℤ × Bool × Option ℤ
  unfolding plugin_test
  hics_plugin_test p request clock =
      let r = plugin_test p request clock in (r.0, code_of r.1, r.2, r.3)
