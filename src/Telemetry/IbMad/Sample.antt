-- ===== src/Telemetry/IbMad/Sample.antt =====
-- telemetry/ib_mad.cpp: the queries of `IbMadClient` and `sample_util`. The clock's readings within one sample
-- count as one.
use Prim.Native.String.{String, ◌++◌ as string_append}
use cong_shed.Base.{
  ℕ, ◌*◌, ◌%◌, Bool, true, false, not, ◌&&◌, Option, none, some, if◌then◌else◌, ltb, ◌==◌, sub64,
  word64,
}
use cong_shed.Base.Int.{is_nonneg}
use cong_shed.Base.Double.{Double, ◌⊕◌, ◌⊗◌, ◌⊘◌, fmax, fmin, nought, one}
use cong_shed.Telemetry.Meter.{Files, as_util}
use cong_shed.Telemetry.Nvml.{Outcome, reading, refused, null_call}
use cong_shed.Telemetry.Sysfs.{is_some}
use cong_shed.Telemetry.IbMad.{IbPortCounters, no_counters, MadLibrary, IbMadClient}
use cong_shed.Telemetry.IbMad.Wire.{query_via_mad}

-- A counter file, with 0 for one that cannot be read.
abbrev pub counter : Files → String → ℕ
counter f path = elim (f.number path) [ none ↦ 0 | some n ↦ n ]

-- The files of both counters of data can be read.
abbrev pub has_counters : Files → String → Bool
has_counters f dir =
    is_some (f.number (string_append dir "/port_xmit_data"))
    && is_some (f.number (string_append dir "/port_rcv_data"))

-- The extended counters where they are present, or else the basic ones.
unfoldable pub query_via_sysfs : Files → String → Option IbPortCounters
query_via_sysfs f base =
    let ext = string_append base "/counters_ext" in
    let dir = string_append base "/counters" in
    if has_counters f ext
    then some (record no_counters {
      port_xmit_data = counter f (string_append ext "/port_xmit_data");
      port_rcv_data = counter f (string_append ext "/port_rcv_data");
      port_xmit_pkts = counter f (string_append ext "/port_xmit_packets");
      port_rcv_pkts = counter f (string_append ext "/port_rcv_packets");
      extended = true;
      valid = true;
    })
    else if has_counters f dir
    then some (record no_counters {
      port_xmit_data = counter f (string_append dir "/port_xmit_data");
      port_rcv_data = counter f (string_append dir "/port_rcv_data");
      port_xmit_pkts = counter f (string_append dir "/port_xmit_packets");
      port_rcv_pkts = counter f (string_append dir "/port_rcv_packets");
      xmit_wait = counter f (string_append dir "/port_xmit_wait");
      port_xmit_discards = counter f (string_append dir "/port_xmit_discards");
      symbol_err = counter f (string_append dir "/symbol_error");
      link_err = counter f (string_append dir "/link_error_recovery");
      extended = false;
      valid = true;
    })
    else none

-- What the bytes of the data counters are: extended ones count bytes, basic ones words of four.
abbrev pub counted_bytes : IbPortCounters → ℕ → ℕ
counted_bytes c n = if c.extended then n else n * 4 % word64

module _ {W : Type 0} where
  abbrev from_files : Files → IbMadClient W → Outcome IbPortCounters
  from_files f c = elim (query_via_sysfs f c.sysfs_base) [ none ↦ refused | some r ↦ reading r ]

  unfoldable pub query_port_counters :
      MadLibrary → Files → ℕ → IbMadClient W → Outcome IbPortCounters
  unfolding query_via_mad query_via_sysfs
  query_port_counters l f now c =
      if not c.ready
      then refused
      else if c.use_mad && is_nonneg c.umad_fd
      then elim (query_via_mad l now c) [
        | reading r ↦ reading r
        | refused ↦ from_files f c
        | null_call ↦ null_call
      ]
      else from_files f c

module _ {W : Type 0} ⦃d : Double W⦄ where
  open d use {decimal, of_nat, narrow}

  -- The load since the last query, and more where the port had to wait.
  unfoldable pub mad_util : IbMadClient W → IbPortCounters → ℕ → W → W
  mad_util c q now peak =
      let dt = of_nat (sub64 now c.prev_ts_ns) ⊗ decimal 1 9 in
      let dtx = of_nat (sub64 (counted_bytes q q.port_xmit_data) c.prev_xmit) in
      let drx = of_nat (sub64 (counted_bytes q q.port_rcv_data) c.prev_rcv) in
      let gbps = (dtx ⊕ drx) ⊘ (dt ⊗ decimal 1000000000 0 ⊕ decimal 1 12) in
      let util = gbps ⊘ fmax peak one in
      let dwait = of_nat (sub64 q.xmit_wait c.prev_wait) in
      if ltb c.prev_wait q.xmit_wait
      then fmax util (fmin (decimal 99 2) (util ⊕ dwait ⊗ decimal 1 6))
      else util

  -- The counters of a query are kept with the utilization that it gives.
  unfoldable pub take_counters : IbMadClient W → IbPortCounters → ℕ → W → IbMadClient W
  take_counters c q now util = record c {
    prev_xmit = counted_bytes q q.port_xmit_data;
    prev_rcv = counted_bytes q q.port_rcv_data;
    prev_wait = q.xmit_wait;
    prev_ts_ns = now;
    cached_util = util;
  }

  -- Within 2 ms of the last query the cached utilization is given again.
  unfoldable pub sample_util :
      MadLibrary → Files → ℕ → IbMadClient W → W → IbMadClient W × Outcome W
  unfolding query_port_counters mad_util take_counters as_util
  sample_util l f now c peak =
      let c' = record c { last_query_ns = now } in
      if ltb (sub64 now c.last_query_ns) 2000000 && not (c.prev_ts_ns == 0)
      then (c, reading c.cached_util)
      else elim (query_port_counters l f now c') [
        | refused ↦ (c', refused)
        | null_call ↦ (c', null_call)
        | reading q ↦
            let util =
              (if c.prev_ts_ns == 0 then narrow nought else as_util (mad_util c q now peak)) in
            (take_counters c' q now util, reading util)
      ]
