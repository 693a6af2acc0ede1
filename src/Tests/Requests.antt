-- ===== src/Tests/Requests.antt =====
-- A run of the plugin's requests on two GPUs, with whole thousandths for floating-point numbers.
use cong_shed.Base.{◌≡◌, ◌↔◌, refl, true, none, some, List, [], ◌∷◌, arith}
use cong_shed.Base.Int.{pos}
use cong_shed.Base.Double.{Milli, milli}
use cong_shed.CudaMr.{empty_registry}
use cong_shed.CudaMr.Loading.{no_runtime}
use cong_shed.CudaMr.{CudaRuntime}
use cong_shed.Telemetry.{auto, make_daemon}
use cong_shed.Shim.{HicsShim, Clock}
use cong_shed.Shim.Plugin.{
  success, plugin_isend, plugin_reg_mr, PluginComm, Plugin, find_request, pair_up, plugin_irecv,
  plugin_test,
}
use cong_shed.Shim.Plugin.Requests.{
  PluginCall, send, receive, query, IsOrderly, run_calls, run_calls-IsOrderly,
  plugin_test-find_request,
}
use cong_shed.Shim.Plugin.Pairing.{plugin_irecv-pair_up}
use cong_shed.Shim.Plugin.Bounds.{IsWithin, plugin_isend-plugin_reg_mr}
use cong_shed.Tests.{scheduled, wire, memory}

abbrev shim : HicsShim Milli
shim = record {
  engine = scheduled;
  telemetry = make_daemon 3 auto true;
  wire = wire;
  memory = memory;
  cursor = 0;
  decisions_made = 0;
  total_decision_ns = 0;
}

abbrev plugin : Plugin Milli
plugin = record { shim = some shim; next_req = 1; requests = []; registry = empty_registry }

abbrev clock : Clock Milli
clock = record { submitted = 0; ticked = λ n. n; decision_ns = 0 }

abbrev runtime : CudaRuntime
runtime = no_runtime (λ p n. true)

abbrev comm : PluginComm
comm = record { peer_rank = 1; local_gpu = 0; rail = pos 0; is_send = true }

-- A send, a receive of the same size, a test of the send, and a test of an unknown request.
abbrev calls : List (PluginCall Milli)
calls =
    send (some comm) 4096 64 (pos 7) 0 true clock
    ∷ receive (some comm) (pos 1) 8192 64 (pos 7) 0 true clock
    ∷ query 1 clock
    ∷ query 9 clock
    ∷ []

run_calls-IsOrderly_example : IsOrderly (run_calls runtime calls plugin)
run_calls-IsOrderly_example =
    run_calls-IsOrderly runtime calls plugin (omega arith, tt) (omega arith)

plugin_test-find_request_example :
    ((plugin_test (run_calls runtime calls plugin) 2 clock).2 ≡ true)
    ↔ (find_request 2 (plugin_test (run_calls runtime calls plugin) 2 clock).0.requests ≡ none)
plugin_test-find_request_example =
    plugin_test-find_request runtime calls plugin 2 clock refl (omega arith) (omega arith)
      (λ e. ground (arith, e))

-- The first receive is posted before any send.
abbrev early : Plugin Milli
early = (plugin_irecv runtime plugin (some comm) (pos 1) 8192 64 (pos 7) 0 true clock).0

plugin_irecv-pair_up_example : (pair_up 64 4096 early.requests).0 ≡ 8192
unfolding plugin_irecv pair_up
plugin_irecv-pair_up_example =
    plugin_irecv-pair_up runtime plugin comm (pos 1) 8192 64 (pos 7) 0 clock 1 4096
      (λ e. ground (arith, e)) refl refl

plugin_isend-plugin_reg_mr_example :
    ((plugin_reg_mr runtime plugin true 4096 100 1).2 ≡ some 1)
    × (((plugin_isend runtime
            (plugin_reg_mr runtime plugin true 4096 100 1).0
            (some comm)
            4100
            60
            (pos 7)
            1
            true
            clock).1
          ≡ success)
        ↔ IsWithin 4096 100 4100 60)
plugin_isend-plugin_reg_mr_example =
    plugin_isend-plugin_reg_mr runtime plugin shim comm 4096 100 1 4100 60 (pos 7) clock refl
      (omega arith, tt) (λ e. ground (arith, e)) (λ e. ground (arith, e)) (omega arith)
      (omega arith)
