-- ===== src/Telemetry/IbMad.antt =====
-- telemetry/ib_mad.hpp and ib_mad.cpp: `IbMadClient`, the counters of an InfiniBand port. The library that
-- sends the management datagrams is a parameter.
pub mod Wire
pub mod Sample
pub mod Backend
pub mod Range
pub mod Sharing
pub mod Reply
use Prim.Native.String.{String, ◌++◌ as string_append}
use cong_shed.Base.{ℕ, Bool, true, false, not, ◌&&◌, ◌||◌, Option, none, some, List, if◌then◌else◌}
use cong_shed.Base.Int.{ℤ, pos, negsuc, is_nonneg}
use cong_shed.Base.Double.{Double, nought}
use cong_shed.Base.Text.{show_int}
use cong_shed.Telemetry.Meter.{Files}
use cong_shed.Telemetry.Sysfs.{is_some}

pub record IbPortCounters : Type 0 where
  pub port_xmit_data : ℕ
  pub port_rcv_data : ℕ
  pub port_xmit_pkts : ℕ
  pub port_rcv_pkts : ℕ
  pub symbol_err : ℕ
  pub link_err : ℕ
  pub xmit_wait : ℕ
  pub port_xmit_discards : ℕ
  pub extended : Bool
  pub valid : Bool

abbrev pub no_counters : IbPortCounters
no_counters = record {
  port_xmit_data = 0;
  port_rcv_data = 0;
  port_xmit_pkts = 0;
  port_rcv_pkts = 0;
  symbol_err = 0;
  link_err = 0;
  xmit_wait = 0;
  port_xmit_discards = 0;
  extended = false;
  valid = false;
}

-- The library at a moment. `recv` gives what the buffer then holds, after the datagram was sent.
pub record MadLibrary : Type 0 where
  pub opens : String → Bool
  pub has : String → Bool
  pub init_ok : Bool
  pub open_port : String → ℤ → ℤ
  pub register : ℤ → ℤ
  pub alloc_ok : Bool
  pub send_ok : List ℕ → Bool
  pub recv : List ℕ → Option (List ℕ)

-- Which function pointers are set.
pub record MadSymbols : Type 0 where
  pub umad_init : Bool
  pub umad_done : Bool
  pub umad_open_port : Bool
  pub umad_close_port : Bool
  pub umad_register : Bool
  pub umad_unregister : Bool
  pub umad_alloc : Bool
  pub umad_free : Bool
  pub umad_send : Bool
  pub umad_recv : Bool
  pub umad_get_mad : Bool
  pub umad_size : Bool

pub record IbMadClient (W : Type 0) : Type 0 where
  pub ready : Bool
  pub use_mad : Bool
  pub ca_name : String
  pub port : ℤ
  pub backend_name : String
  pub sysfs_base : String
  pub prev_xmit : ℕ
  pub prev_rcv : ℕ
  pub prev_wait : ℕ
  pub prev_ts_ns : ℕ
  pub last_query_ns : ℕ
  pub cached_util : W
  pub umad_fd : ℤ
  pub umad_agent : ℤ
  pub symbols : MadSymbols

-- The `dlsym` calls, made only where the library is loaded.
unfoldable pub symbols_of : MadLibrary → MadSymbols
symbols_of l =
    let loaded = l.opens "libibumad.so.3" || l.opens "libibumad.so" in
    let found : String → Bool = λ n. loaded && l.has n in
    record {
      umad_init = found "umad_init";
      umad_done = found "umad_done";
      umad_open_port = found "umad_open_port";
      umad_close_port = found "umad_close_port";
      umad_register = found "umad_register";
      umad_unregister = found "umad_unregister";
      umad_alloc = found "umad_alloc";
      umad_free = found "umad_free";
      umad_send = found "umad_send";
      umad_recv = found "umad_recv";
      umad_get_mad = found "umad_get_mad";
      umad_size = found "umad_size";
    }

-- The functions without which the library is not used.
unfoldable pub usable : MadSymbols → Bool
usable s =
    s.umad_init
    && (s.umad_open_port
        && (s.umad_register && (s.umad_send && (s.umad_recv && (s.umad_alloc && s.umad_get_mad)))))

module _ {W : Type 0} ⦃d : Double W⦄ where
  open d use {narrow}

  -- The constructor, which calls `init_mad_libs`.
  unfoldable pub init_mad_libs : MadLibrary → IbMadClient W
  unfolding symbols_of usable
  init_mad_libs l =
      let s = symbols_of l in
      let mad = usable s && l.init_ok in
      record {
        ready = not mad;
        use_mad = mad;
        ca_name = "";
        port = pos 1;
        backend_name = if mad then "ib_mad" else "ib_sysfs";
        sysfs_base = "";
        prev_xmit = 0;
        prev_rcv = 0;
        prev_wait = 0;
        prev_ts_ns = 0;
        last_query_ns = 0;
        cached_util = narrow nought;
        umad_fd = negsuc 0;
        umad_agent = negsuc 0;
        symbols = s;
      }

unfoldable pub port_base : String → ℤ → String
port_base ca port =
    string_append "/sys/class/infiniband/"
      (string_append ca (string_append "/ports/" (show_int port)))

module _ {W : Type 0} where
  -- The port is closed and its agent unregistered; the fields that stay are those of the code.
  unfoldable pub close_client : IbMadClient W → IbMadClient W
  close_client c = record c { umad_fd = negsuc 0; umad_agent = negsuc 0 }

  -- The port by its counter files, where its datagrams cannot be used.
  unfoldable pub open_sysfs : Files → IbMadClient W → IbMadClient W × Bool
  open_sysfs f c =
      if is_some (f.number (string_append c.sysfs_base "/counters/port_xmit_data"))
        || is_some (f.number (string_append c.sysfs_base "/counters_ext/port_xmit_data"))
      then (record c { backend_name = "ib_sysfs"; ready = true }, true)
      else (record c { ready = false }, false)

  unfoldable pub open_client :
      MadLibrary → Files → IbMadClient W → String → ℤ → IbMadClient W × Bool
  unfolding close_client port_base open_sysfs
  open_client l f c ca port =
      let c' = record (close_client c) {
        ca_name = ca;
        port = port;
        sysfs_base = port_base ca port;
      } in
      let fd = l.open_port ca port in
      let agent = l.register fd in
      if c'.use_mad && c'.symbols.umad_open_port
      then (if is_nonneg fd
          then (if is_nonneg agent
              then (
                record c' {
                  umad_fd = fd;
                  umad_agent = agent;
                  backend_name = "ib_mad";
                  ready = true;
                },
                true,
              )
              else open_sysfs f (record c' { umad_agent = agent }))
          else open_sysfs f (record c' { umad_fd = fd }))
      else open_sysfs f c'
