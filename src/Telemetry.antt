-- ===== src/Telemetry.antt =====
-- telemetry/telemetry.cpp: `TelemetryDaemon`. A backend is what its object answers: its name, whether it
-- is available and accepts the bindings, and its reading of an edge at this moment.
pub mod Ring
pub mod Latest
pub mod Binding
pub mod Meter
pub mod Sysfs
pub mod Synthetic
pub mod Nvml
pub mod Range
pub mod Rates
pub mod Start
pub mod Thread
pub mod IbMad
pub mod Pmu
use Prim.Native.String.{String, ◌++◌ as string_append}
use text.Mathlib.Text.{◌==◌ as str_eq}
use cong_shed.Base.{
  ℕ, zero, suc, ◌+◌, ◌-◌, ◌*◌, ◌/◌, ◌%◌, ◌^◌, ◌≤◌, ◌<◌, min, max, ◌≡◌, refl, sym, ap, ap₂, ◌∙◌,
  subst, ◌≢◌, ◌↔◌, ◌⊎◌, inl, inr, Bool, true, false, not, ◌&&◌, ◌||◌, Option, none, some, List, [],
  ◌∷◌, ◌++◌, map, arith, word64, word32, add64, sub64, add32, ltb, leb, ◌==◌, if◌then◌else◌, ltb→lt,
  lt→ltb, leb→le, ==_iff, tests, Bool-cases, Option-cases, length, get_elem?, get_or, set, take,
  replicate, All, any, keep, is_empty, length-append, length-set, get_or-set_self, get_or-set_ne,
  All-append, All-map, All_mono, mem, range_from, range,
}
use cong_shed.Base.Int.{ℤ, pos, negsuc, is_nonneg, pos_part, eqb_ℤ}
use cong_shed.Base.Double.{
  Double, ◌⊕◌, ◌⊖◌, ◌⊗◌, ◌⊘◌, ◌≺◌, fmin, fmax, fclamp, nought, one, IsOrdered,
}
use cong_shed.Model.{
  FabricType, nvlink, pcie, cxl, infiniband, TrafficClass, tensor_parallel, pipeline_parallel,
  kv_migration, EndpointType, gpu, cpu, cxl_controller, ib_port, EndpointId, fabric_eq, class_eq,
  kind_eq, endpoint_eq, EdgeAttributes, kv_chunk_bytes, ib_rail_count, TransferRequest, PathCost,
  contention_exponent, default_fabric_attrs,
}
use cong_shed.Telemetry.Ring.{TelemetryRingBuffer, write, empty_ring}
use cong_shed.Telemetry.Binding.{EdgeHwBinding, bindings_from_fabrics}

pub data TelemetryBackendKind : Type 0 where
  auto nvml ibverbs pcie_sysfs synthetic ib_mad pmu : TelemetryBackendKind

pub record HwCounterBackend (W : Type 0) : Type 0 where
  pub name : String
  pub available : Bool
  pub init : List (EdgeHwBinding W) → Bool
  pub sample : ℕ → Option W

-- What the `make_…_backend` functions return.
pub record Backends (W : Type 0) : Type 0 where
  pub nvml_backend : HwCounterBackend W
  pub ibverbs_backend : HwCounterBackend W
  pub pcie_sysfs_backend : HwCounterBackend W
  pub synthetic_backend : HwCounterBackend W
  pub ib_mad_backend : HwCounterBackend W
  pub pmu_backend : HwCounterBackend W

pub record TelemetryDaemon (W : Type 0) : Type 0 where
  pub num_edges : ℕ
  pub preferred : TelemetryBackendKind
  pub allow_synthetic_fallback : Bool
  pub ring : TelemetryRingBuffer W
  pub running : Bool
  pub override_utils : List W
  pub override_valid : List Bool
  pub bindings : List (EdgeHwBinding W)
  pub backends : List (HwCounterBackend W)
  pub using_hardware : Bool
  pub active_name : String

-- The names of the backends that serve a fabric.
unfoldable pub serves : FabricType → String → Bool
serves nvlink n = str_eq n "nvml"
serves infiniband n = str_eq n "ib_mad" || (str_eq n "ib_sysfs" || str_eq n "ibverbs_sysfs")
serves pcie n =
    str_eq n "perf_uncore"
    || (str_eq n "sysfs_uncore"
        || (str_eq n "nvml_pcie" || (str_eq n "pmu" || (str_eq n "pcie_sysfs" || str_eq n "nvml"))))
serves cxl n =
    str_eq n "perf_uncore"
    || (str_eq n "sysfs_uncore"
        || (str_eq n "nvml_pcie" || (str_eq n "pmu" || (str_eq n "pcie_sysfs" || str_eq n "nvml"))))

module _ {W : Type 0} where
  -- The backends that `select_backends` tries, in order.
  unfoldable pub tried : TelemetryBackendKind → Backends W → List (HwCounterBackend W)
  tried nvml b = b.nvml_backend ∷ []
  tried ibverbs b = b.ibverbs_backend ∷ []
  tried ib_mad b = b.ib_mad_backend ∷ []
  tried pcie_sysfs b = b.pcie_sysfs_backend ∷ []
  tried pmu b = b.pmu_backend ∷ []
  tried synthetic b = []
  tried auto b =
      b.nvml_backend ∷ b.ib_mad_backend ∷ b.ibverbs_backend ∷ b.pmu_backend ∷ b.pcie_sysfs_backend
      ∷ []

  -- `try_add` keeps the backends that are available and accept the bindings.
  abbrev pub accepts : List (EdgeHwBinding W) → HwCounterBackend W → Bool
  accepts bs b = b.available && b.init bs

  abbrev pub join_names : String → List (HwCounterBackend W) → String
  join_names acc [] = acc
  join_names acc (b ∷ bs) = join_names (string_append acc (string_append "+" b.name)) bs

  abbrev pub names_of : Bool → String → String → List (HwCounterBackend W) → String
  names_of fallback before syn [] = if fallback then syn else before
  names_of fallback before syn (b ∷ bs) =
      if fallback then string_append (join_names b.name bs) "+synthetic" else join_names b.name bs

  unfoldable pub select_backends : Backends W → TelemetryDaemon W → TelemetryDaemon W
  unfolding tried
  select_backends all t =
      let chosen = keep (accepts t.bindings) (tried t.preferred all) in
      record t {
        backends = chosen;
        using_hardware = any (λ b. not (str_eq b.name "synthetic")) chosen;
        active_name =
            names_of t.allow_synthetic_fallback t.active_name all.synthetic_backend.name chosen;
      }

  -- The first reading among the backends that pass the test.
  unfoldable pub first_sample :
      (HwCounterBackend W → Bool) → ℕ → List (HwCounterBackend W) → Option W
  first_sample test edge [] = none
  first_sample test edge (b ∷ bs) =
      let rest = first_sample test edge bs in
      if test b then elim (b.sample edge) [ none ↦ rest | some u ↦ some u ] else rest

  abbrev pub or_else : Option W → Option W → Option W
  or_else none o = o
  or_else (some u) o = some u

  abbrev pub fabric_of : TelemetryDaemon W → ℕ → FabricType
  fabric_of t edge = elim (get_elem? t.bindings edge) [ none ↦ infiniband | some b ↦ b.fabric ]

module _ {W : Type 0} ⦃d : Double W⦄ where
  open d use {decimal}

  unfoldable pub make_daemon : ℕ → TelemetryBackendKind → Bool → TelemetryDaemon W
  unfolding empty_ring
  make_daemon edges kind fallback = record {
    num_edges = edges;
    preferred = kind;
    allow_synthetic_fallback = fallback;
    ring = empty_ring;
    running = false;
    override_utils = replicate edges nought;
    override_valid = replicate edges false;
    bindings = [];
    backends = [];
    using_hardware = false;
    active_name = "none";
  }

  -- The fabrics, peaks and rails that `configure_edges` appends until there is one for each edge.
  unfoldable pub padding : ℕ → List FabricType → List W → List ℤ → List FabricType × List W × List ℤ
  padding zero f bw rails = (f, bw, rails)
  padding (suc n) f bw rails =
      let f' = f ++ (infiniband ∷ []) in
      padding n f' (bw ++ (decimal 50 0 ∷ [])) (rails ++ (pos (length f' % 2) ∷ []))

  unfoldable pub configure_edges :
      Backends W
      → List String
      → TelemetryDaemon W
      → List FabricType
      → List W
      → List ℤ
      → TelemetryDaemon W
  unfolding bindings_from_fabrics padding select_backends
  configure_edges all listed t fabrics bws rails =
      let first = bindings_from_fabrics listed fabrics bws rails in
      let padded = padding (t.num_edges - length fabrics) fabrics bws rails in
      let bs =
        (if ltb (length first) t.num_edges
          then bindings_from_fabrics listed padded.0 padded.1 padded.2
          else first) in
      select_backends all (record t { bindings = bs })

  -- Edges past the end are ignored.
  unfoldable pub set_simulated_util : TelemetryDaemon W → ℕ → W → TelemetryDaemon W
  set_simulated_util t edge util = if leb (length t.override_utils) edge then t else record t {
    override_utils = set t.override_utils edge (fclamp util nought one);
    override_valid = set t.override_valid edge true;
  }

  -- An override comes first, then a backend of the edge's fabric (or the only one), then any backend,
  -- then the synthetic one, and last 0.
  unfoldable pub read_edge_util : Backends W → TelemetryDaemon W → ℕ → W
  unfolding first_sample serves
  read_edge_util all t edge =
      let matched =
        first_sample (λ b. serves (fabric_of t edge) b.name || not (ltb 1 (length t.backends))) edge
          t.backends in
      let anyone = first_sample (λ b. true) edge t.backends in
      let fallback =
        (if t.allow_synthetic_fallback then all.synthetic_backend.sample edge else none) in
      if get_or t.override_valid edge false
      then get_or t.override_utils edge nought
      else elim (or_else matched (or_else anyone fallback)) [ none ↦ nought | some u ↦ u ]

  -- One round of `collect_loop`: the edges in order, each written at its time.
  unfoldable pub collect : Backends W → (ℕ → ℕ) → TelemetryDaemon W → List ℕ → TelemetryDaemon W
  unfolding read_edge_util
  collect all now t [] = t
  collect all now t (e ∷ es) =
      collect all now
        (record t { ring = write t.ring (now e) (e % word32) (read_edge_util all t (e % word32)) })
        es

  unfoldable pub collect_round : Backends W → (ℕ → ℕ) → TelemetryDaemon W → TelemetryDaemon W
  unfolding collect
  collect_round all now t = collect all now t (range t.num_edges)
