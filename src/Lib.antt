-- ===== src/Lib.antt =====
-- CongShed, the C++ of the repository: a scheduler of GPU transfers over NVLink, PCIe, CXL and two
-- InfiniBand rails. NCCL and UCX hand it transfers; it chooses paths by predicted load, cuts KV-cache
-- migrations into chunks for the two rails, and suspends and reroutes migrations for urgent traffic.
--
-- How the parts interact. `Shim` (shim/shim.cpp) owns the parts. `submit_transfer` reads a snapshot of the
-- telemetry ring, lets the path engine schedule the request, ticks the executor once and drains the
-- deferred reroutes. The path engine asks the graph for paths and the predictor for load, and submits to
-- the executor; the executor moves bytes through the ibverbs transport. A completed migration is taken
-- off the engine's list.
--
-- Which file models which part:
--   Model            model/model.hpp: endpoints, fabrics, requests
--   Topology         topology/topology.cpp: the graph (`Topology`), the path search (`Topology/Search`), its
--                    cache (`Topology/Cached`), the builders (`Topology/Build`)
--   Transfer         transfer/transfer_executor.cpp: data (`State`), submission (`Submit`), pause, cancel,
--                    preemption and reroute (`Control`), `tick` (`Tick`), `drain_ready` and the queries
--                    (`Drain`). The proofs: the rails and bounds (`Rails`, `Steps`, `Sound`), completion (`Work`,
--                    `Progress`), the bytes moved (`Mirror`, `MirrorTick`, `Delivery`), preemption
--                    (`Candidates`, `Victims`)
--   PathEngine       path_engine/path_engine.cpp: costs and candidates (`PathEngine`), `select_path` and
--                    preemption (`Select`), striping (`Stripe`), boundary reroutes (`Reroute`) and
--                    `schedule_and_execute` (`Schedule`); the proofs are in `Choice`, `Tiling`, `Handover`,
--                    `Moved`, `Turn` and `Requests`
--   Ibverbs          shim/ibverbs_transport.cpp
--   Lstm             lstm/lstm_predictor.cpp: caches and histories (`Lstm`, with proofs in `Cache` and
--                    `History`), the forward pass (`Forward`), the default weights (`Shape`), the online update
--                    (`Online`) and the weight file (`File`, with proofs in `RoundTrip` and `Refused`)
--   Telemetry        telemetry/telemetry.cpp: the ring (`Ring`, with its proof in `Latest`), the daemon, its start
--                    and its stop (`Thread`); telemetry/hw_counters.cpp: the bindings (`Binding`) and the back
--                    ends (`Meter`, `Sysfs`, `Synthetic`, `Nvml`, with proofs in `Range`, `Rates` and `Start`);
--                    telemetry/ib_mad.cpp (`IbMad`: `Wire`, `Sample` and `Backend`, with proofs in `Reply`,
--                    `Range` and `Sharing`); telemetry/pmu_counters.cpp (`Pmu`: `Sample` and `Backend`, with
--                    proofs in `Source`)
--   CudaMr           shim/cuda_mr.cpp: the CUDA runtime and its loading (`Loading`, with a proof in
--                    `Offered`), and the memory registry (proofs in `Registry`)
--   Shim             shim/shim.cpp (`Shim`, `Setup`), shim/ucx_transport.cpp (`Ucx`) and shim/nccl_plugin.cpp
--                    (`Plugin`, with proofs in `Bounds`, `Requests` and `Pairing`; `Devices`, with a proof in
--                    `Shown`; and `Entry`, the start and the functions for C)
--   Base             what the modules share: tests, lists, integers and floating point
--   Tests            runs on small inputs
--
-- How the code is modelled. A class is a record of its fields, and a method is a function of the object that
-- returns the object it leaves and its result, under the name of the method; a loop is a function of its own.
-- Each method that takes a lock is one step. A hash table is a list of its entries in the order of its
-- iteration. `double` and `float` are a parameter with the operations the code uses, `Base.Double.Double`; some
-- theorems ask for laws: that `<` is irreflexive and transitive, that the four bytes of a `float` hold it, and
-- that a few literals are in order. `uint64_t` and
-- `uint32_t` keep their wrap-around. The clock, the memory's content, files, random numbers,
-- the machine's devices, and the libraries that are loaded at run time are arguments.
--
-- Fuel. The search has 1 + n + n² + … rounds for n edges and the hop limit, which covers each path that it can
-- try, and the striping loop has two rounds more than the quotient of the size by the chunk size. `drain_ready`
-- has the 10000 rounds of the code.
--
-- Not modelled: the thread of the telemetry daemon, for which its flag stands; the plugin's log; the
-- demonstrations under apps/; and the Rust and Python versions. A back end is a parameter of the daemon, which takes one answer for each
-- edge and moment; the back ends of the repository, which have states of their own, are modelled beside it.
pub mod Base
pub mod Model
pub mod Ibverbs
pub mod Topology
pub mod Transfer
pub mod Lstm
pub mod PathEngine
pub mod Telemetry
pub mod CudaMr
pub mod Shim
pub mod Tests
