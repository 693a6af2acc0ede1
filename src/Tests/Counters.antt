-- ===== src/Tests/Counters.antt =====
-- Runs of the counters' back ends, with whole thousandths for floating-point numbers.
use cong_shed.Base.{
  ◌⊎◌, ◌||◌, ℕ, ◌+◌, ◌%◌, ◌<◌, ◌≡◌, ◌↔◌, refl, Bool, true, false, none, some, List, [], ◌∷◌, ◌++◌,
  All, replicate, arith, length, get_elem?, if◌then◌else◌,
}
use cong_shed.Base.Int.{pos, negsuc}
use cong_shed.Base.Double.{Milli, milli, Milli-IsOrdered}
use cong_shed.Base.Text.{show_int}
use cong_shed.Model.{infiniband, pcie, FabricType}
use cong_shed.Telemetry.Binding.{EdgeHwBinding}
use cong_shed.Telemetry.Meter.{Files, rate}
use cong_shed.Telemetry.Sysfs.{IbverbsBackend, ibverbs_sample, pcie_sample}
use cong_shed.Telemetry.Synthetic.{Rng, SyntheticBackend, synthetic_sample}
use cong_shed.Telemetry.Nvml.{
  NvmlLibrary, NvmlBackend, new_nvml, nvml_start, nvml_sample, reading, refused,
}
use cong_shed.Telemetry.Range.{HasLiterals, IsReading, IsOutcome, backends-IsUtil}
use cong_shed.Telemetry.Rates.{samples, ibverbs_sample-since}
use cong_shed.Telemetry.Start.{calls_found, nvml_start-nvml_sample}
use cong_shed.Telemetry.IbMad.{MadLibrary, IbMadClient, MadSymbols, no_counters}
use cong_shed.Telemetry.IbMad.Wire.{parse_reply}
use cong_shed.Telemetry.IbMad.Sample.{
  sample_util, query_port_counters, query_via_sysfs, take_counters,
}
use cong_shed.Telemetry.IbMad.Backend.{IbMadBackend, ib_mad_init, init_edges, ib_mad_sample, key_of}
use cong_shed.Telemetry.IbMad.Range.{Caches, ib_mad_sample-IsUtil, sample_util-sample_util}
use cong_shed.Telemetry.IbMad.Sharing.{ib_mad_init-shares}
use cong_shed.Telemetry.IbMad.Reply.{
  PortCountersExtBody, PortCountersBody, ext_bytes, basic_bytes, parse_reply-bytes,
}
use cong_shed.Telemetry.Pmu.{Machine, PmuCounterClient, open_pmu}
use cong_shed.Telemetry.Pmu.Sample.{sample_pmu}
use cong_shed.Telemetry.Pmu.Backend.{new_pmu_client}
use cong_shed.Telemetry.Pmu.Source.{Reports, sample_pmu-Within, open_pmu-sample_pmu}

-- Every file can be read, as the given number.
abbrev reads : ℕ → Files
reads n = record { opens = λ p. true; number = λ p. some n }

abbrev bound : FabricType → EdgeHwBinding Milli
bound f = record {
  edge_idx = 0;
  fabric = f;
  gpu_a = pos 0;
  gpu_b = pos 1;
  nvlink_id = pos 0;
  ib_device = "mlx5_0";
  ib_port = pos 1;
  pci_sysfs = "/sys/class/infiniband/mlx5_0/ports/1";
  peak_bw_gbps = 50000;
}

abbrev library : Bool → NvmlLibrary
library ok = record {
  opens = λ n. true;
  has = λ n. true;
  init_ok = ok;
  device = λ i. some i;
  nvlink_counter = λ dev link. some 5000;
  pcie_throughput = λ dev way. some 2000;
}

abbrev counting : Rng ℕ Milli
counting = record {
  seed = λ n. n;
  draw = λ r. (r % 1000, r + 1);
  draw_length = λ r. (5 + r % 36, r + 1);
  draw_peak = λ r. (750, r + 1);
}

Milli-HasLiterals : HasLiterals Milli
Milli-HasLiterals = record { top = refl; low = refl; low_top = refl; mid = refl; mid_top = refl }

abbrev two_ports : IbverbsBackend Milli
two_ports = record {
  bindings = bound infiniband ∷ bound infiniband ∷ [];
  meter = record { prev = 0 ∷ 0 ∷ []; prev_ts = 0 ∷ 0 ∷ [] };
}

abbrev bursty : SyntheticBackend ℕ Milli
bursty = record { bindings = []; state = record { burst_left = 1; burst_peak = 800 } ∷ []; rng = 1 }

abbrev started : NvmlBackend Milli
started = (nvml_start (library true) new_nvml (bound pcie ∷ [])).0

backends-IsUtil_example :
    IsReading (ibverbs_sample (reads 1000) 5000 two_ports 0).1
    × IsReading (pcie_sample (reads 1000) (bound pcie ∷ []) 0)
    × IsReading (synthetic_sample counting 5000 bursty 0).1
    × IsOutcome (nvml_sample (library true) 5000 started 0).1
backends-IsUtil_example =
    backends-IsUtil Milli-IsOrdered Milli-HasLiterals (reads 1000) 5000 0 two_ports
      (bound pcie ∷ []) counting bursty (library true) started

ibverbs_sample-since_example :
    (ibverbs_sample
      (reads 3000)
      2000
      (samples
        (record { files = reads 2000; now = 1500; edge = 1 } ∷ [])
        (ibverbs_sample (reads 1000) 1000 two_ports 0).0)
      0).1
    ≡ some (rate 4000 50000 3000 1000 2000 1000)
ibverbs_sample-since_example =
    ibverbs_sample-since (bound infiniband) 0 1000 1000 3000 2000 (reads 1000) (reads 3000)
      (record { files = reads 2000; now = 1500; edge = 1 } ∷ []) two_ports refl refl (omega arith)
      (omega arith) refl refl (omega arith) (λ e. absurd (omega (arith, e)), tt)

nvml_start-nvml_sample_example :
    (((nvml_start (library false) new_nvml (bound pcie ∷ [])).1 ≡ true)
      ⊎ (nvml_sample (library true) 5000 (nvml_start (library false) new_nvml (bound pcie ∷ [])).0 0
          ≡ ((nvml_start (library false) new_nvml (bound pcie ∷ [])).0, refused)))
    × ((((library false).has "nvmlDeviceGetHandleByIndex_v2"
            || (library false).has "nvmlDeviceGetHandleByIndex")
          ≡ false)
        ⊎ (calls_found
              (nvml_sample
                (library true)
                5000
                (nvml_start (library false) new_nvml (bound pcie ∷ [])).0
                0).1
            ≡ true))
nvml_start-nvml_sample_example =
    nvml_start-nvml_sample (library false) (library true) new_nvml (bound pcie ∷ []) 5000 0 refl

-- A machine without the management library.
abbrev no_library : MadLibrary
no_library = record {
  opens = λ n. false;
  has = λ n. false;
  init_ok = false;
  open_port = λ ca port. negsuc 0;
  register = λ fd. negsuc 0;
  alloc_ok = false;
  send_ok = λ bytes. false;
  recv = λ bytes. none;
}

abbrev no_symbols : MadSymbols
no_symbols = record {
  umad_init = false;
  umad_done = false;
  umad_open_port = false;
  umad_close_port = false;
  umad_register = false;
  umad_unregister = false;
  umad_alloc = false;
  umad_free = false;
  umad_send = false;
  umad_recv = false;
  umad_get_mad = false;
  umad_size = false;
}

-- A client that reads files and has not sampled yet.
abbrev by_files : IbMadClient Milli
by_files = record {
  ready = true;
  use_mad = false;
  ca_name = "mlx5_0";
  port = pos 1;
  backend_name = "ib_sysfs";
  sysfs_base = "/sys/class/infiniband/mlx5_0/ports/1";
  prev_xmit = 0;
  prev_rcv = 0;
  prev_wait = 0;
  prev_ts_ns = 0;
  last_query_ns = 0;
  cached_util = 0;
  umad_fd = negsuc 0;
  umad_agent = negsuc 0;
  symbols = no_symbols;
}

abbrev one_client : IbMadBackend Milli
one_client = record {
  bindings = bound infiniband ∷ [];
  opened = by_files ∷ [];
  clients = some 0 ∷ [];
  name = "ib_sysfs";
}

abbrev nothing_opened : IbMadBackend Milli
nothing_opened = record { bindings = []; opened = []; clients = []; name = "ib_mad" }

ib_mad_sample-IsUtil_example :
    All Caches (ib_mad_sample no_library (reads 1000) 5000 one_client 0).0.opened
    × IsOutcome (ib_mad_sample no_library (reads 1000) 5000 one_client 0).1
ib_mad_sample-IsUtil_example =
    ib_mad_sample-IsUtil Milli-IsOrdered Milli-HasLiterals no_library (reads 1000) 5000 one_client 0
      ((0, refl, refl, refl), tt)

first_reading :
    ((sample_util no_library (reads 1000) 5000 by_files 1000).1 ≡ reading 0)
    × ((sample_util no_library (reads 1000) 5000 by_files 1000).0.last_query_ns ≡ 5000)
unfolding sample_util query_port_counters query_via_sysfs take_counters
first_reading = (refl, refl)

sample_util-sample_util_example :
    sample_util no_library
      (reads 2000)
      6000
      (sample_util no_library (reads 1000) 5000 by_files 1000).0
      3000
    ≡ ((sample_util no_library (reads 1000) 5000 by_files 1000).0, reading 0)
sample_util-sample_util_example =
    sample_util-sample_util no_library no_library (reads 1000) (reads 2000) 5000 6000 by_files 1000
      3000 0 first_reading.0 (λ e. absurd (omega (arith, e))) (omega (arith, first_reading.1))

abbrev two_edges : List (EdgeHwBinding Milli)
two_edges = bound infiniband ∷ bound infiniband ∷ []

both_opened :
    (get_elem? (ib_mad_init no_library (reads 1000) nothing_opened two_edges).0.clients 0
      ≡ some (some 0))
    × (get_elem? (ib_mad_init no_library (reads 1000) nothing_opened two_edges).0.clients 1
        ≡ some (some 0))
unfolding ib_mad_init init_edges show_int
both_opened = (refl, refl)

ib_mad_init-shares_example :
    ((key_of (bound infiniband) ≡ key_of (bound infiniband)) ↔ (◌≡◌ {A = ℕ} 0 0))
    × (0 < length (ib_mad_init no_library (reads 1000) nothing_opened two_edges).0.opened)
ib_mad_init-shares_example =
    ib_mad_init-shares no_library (reads 1000) nothing_opened two_edges 0 1 (bound infiniband)
      (bound infiniband) 0 0 refl refl both_opened.0 both_opened.1

abbrev ext_body : PortCountersExtBody
ext_body = record {
  port_select = 1;
  counter_select = 65535;
  xmit_data = 4294967297;
  rcv_data = 70000;
  xmit_pkts = 300;
  rcv_pkts = 200;
  unicast_xmit = 1;
  unicast_rcv = 2;
  multicast_xmit = 3;
  multicast_rcv = 4;
}

abbrev basic_body : PortCountersBody
basic_body = record {
  port_select = 1;
  counter_select = 65535;
  symbol_err = 300;
  link_err = 1;
  link_downed = 2;
  rcv_err = 3;
  rcv_rem_phys = 4;
  rcv_switch_relay = 5;
  xmit_discards = 6;
  xmit_constraint = 7;
  rcv_constraint = 8;
  link_integ = 9;
  buf_overrun = 10;
  vl15_dropped = 11;
  xmit_data = 70000;
  rcv_data = 60000;
  xmit_pkts = 500;
  rcv_pkts = 400;
  xmit_wait = 12;
}

parse_reply-bytes_example :
    (parse_reply true (replicate 24 0 ++ ext_bytes ext_body) ≡ record no_counters {
      port_xmit_data = 4294967297;
      port_rcv_data = 70000;
      port_xmit_pkts = 300;
      port_rcv_pkts = 200;
      extended = true;
      valid = true;
    })
    × (parse_reply false (replicate 24 0 ++ basic_bytes basic_body) ≡ record no_counters {
      port_xmit_data = 70000;
      port_rcv_data = 60000;
      port_xmit_pkts = 500;
      port_rcv_pkts = 400;
      xmit_wait = 12;
      symbol_err = 300;
      link_err = 1;
      port_xmit_discards = 6;
      valid = true;
    })
parse_reply-bytes_example =
    parse_reply-bytes (replicate 24 0) ext_body basic_body refl (omega arith) (omega arith)
      (omega arith) (omega arith) (omega arith) (omega arith) (omega arith) (omega arith)
      (omega arith) (omega arith)

-- A machine with two event sources, of which one is a counter of the right kind.
abbrev machine : Bool → Machine Milli
machine ok = record {
  files = reads 16;
  names = λ dir. if ok then some ("cpu" ∷ "uncore_iio_0" ∷ []) else none;
  line = λ path. none;
  leading_number = λ path. none;
  perf_event_open = λ type config. some config;
  perf_read = λ fd. some 1000;
  nvml_library = library ok;
}

abbrev pmu_client : PmuCounterClient Milli
pmu_client = (open_pmu (machine true) (new_pmu_client (bound pcie)) (bound pcie)).0

sample_pmu-Within_example : Reports (sample_pmu (machine true) 5000 pmu_client)
sample_pmu-Within_example =
    sample_pmu-Within Milli-IsOrdered Milli-HasLiterals refl (machine true) 5000 pmu_client

open_pmu-sample_pmu_example :
    ((open_pmu (machine false) (new_pmu_client (bound pcie)) (bound pcie)).1 ≡ false
      → sample_pmu
          (machine true)
          5000
          (open_pmu (machine false) (new_pmu_client (bound pcie)) (bound pcie)).0
        ≡ ((open_pmu (machine false) (new_pmu_client (bound pcie)) (bound pcie)).0, none))
    × ((open_pmu (machine false) (new_pmu_client (bound pcie)) (bound pcie)).1 ≡ true
        → (open_pmu (machine false) (new_pmu_client (bound pcie)) (bound pcie)).0.ready ≡ true)
open_pmu-sample_pmu_example =
    open_pmu-sample_pmu (machine false) (machine true) (new_pmu_client (bound pcie)) (bound pcie)
      5000

-- The first event source of the right kind is opened, with the generic events.
opens_uncore : (pmu_client.fd_read ≡ some 1) × (pmu_client.fd_write ≡ some 2)
unfolding open_pmu
opens_uncore = (refl, refl)
