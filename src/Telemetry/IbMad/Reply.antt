-- ===== src/Telemetry/IbMad/Reply.antt =====
-- telemetry/ib_mad.cpp: the packed structures of a reply, as a port fills them in, and what is read from them.
use cong_shed.Base.{
  ℕ, ◌+◌, ◌*◌, ◌/◌, ◌%◌, ◌^◌, ◌<◌, ◌≡◌, refl, subst, true, false, List, [], ◌∷◌, ◌++◌, length,
  arith,
}
use cong_shed.Base.Bytes.{drop, drop_front}
use cong_shed.Telemetry.IbMad.{no_counters}
use cong_shed.Telemetry.IbMad.Wire.{header_size, be32, be64, parse_body, parse_reply}

-- The bytes of a number, the highest first.
abbrev pub high16 : ℕ → List ℕ → List ℕ
high16 v next = v / 256 % 256 ∷ v % 256 ∷ next

abbrev pub high32 : ℕ → List ℕ → List ℕ
high32 v next = high16 (v / 65536) (high16 v next)

abbrev pub high64 : ℕ → List ℕ → List ℕ
high64 v next = high32 (v / 4294967296) (high32 v next)

pub record PortCountersExtBody : Type 0 where
  pub port_select : ℕ
  pub counter_select : ℕ
  pub xmit_data : ℕ
  pub rcv_data : ℕ
  pub xmit_pkts : ℕ
  pub rcv_pkts : ℕ
  pub unicast_xmit : ℕ
  pub unicast_rcv : ℕ
  pub multicast_xmit : ℕ
  pub multicast_rcv : ℕ

unfoldable pub ext_bytes : PortCountersExtBody → List ℕ
ext_bytes b =
    0
    ∷ b.port_select
    ∷ high16 b.counter_select (
        high32 0 (
          high64 b.xmit_data (
            high64 b.rcv_data (
              high64 b.xmit_pkts (
                high64 b.rcv_pkts (
                  high64 b.unicast_xmit (
                    high64 b.unicast_rcv
                      (high64 b.multicast_xmit (high64 b.multicast_rcv [])))))))))

pub record PortCountersBody : Type 0 where
  pub port_select : ℕ
  pub counter_select : ℕ
  pub symbol_err : ℕ
  pub link_err : ℕ
  pub link_downed : ℕ
  pub rcv_err : ℕ
  pub rcv_rem_phys : ℕ
  pub rcv_switch_relay : ℕ
  pub xmit_discards : ℕ
  pub xmit_constraint : ℕ
  pub rcv_constraint : ℕ
  pub link_integ : ℕ
  pub buf_overrun : ℕ
  pub vl15_dropped : ℕ
  pub xmit_data : ℕ
  pub rcv_data : ℕ
  pub xmit_pkts : ℕ
  pub rcv_pkts : ℕ
  pub xmit_wait : ℕ

unfoldable pub basic_bytes : PortCountersBody → List ℕ
basic_bytes b =
    0
    ∷ b.port_select
    ∷ high16 b.counter_select (
        high16 b.symbol_err (
          b.link_err
          ∷ b.link_downed
          ∷ b.rcv_err
          ∷ b.rcv_rem_phys
          ∷ b.rcv_switch_relay
          ∷ b.xmit_discards
          ∷ b.xmit_constraint
          ∷ b.rcv_constraint
          ∷ 0
          ∷ b.link_integ
          ∷ b.buf_overrun
          ∷ b.vl15_dropped
          ∷ high32 b.xmit_data
              (high32 b.rcv_data (high32 b.xmit_pkts (high32 b.rcv_pkts (high32 b.xmit_wait []))))))

high16_back : (v : ℕ) → v < 2 ^ 16 → v / 256 % 256 * 256 + v % 256 ≡ v
high16_back v h = omega arith

high32_back : (v : ℕ) → v < 2 ^ 32 → be32 (high32 v []) 0 ≡ v
high32_back v h = omega arith

high64_back : (v : ℕ) → v < 2 ^ 64 → be64 (high64 v []) 0 ≡ v
high64_back v h = omega arith

body_of : (h b : List ℕ) → length h ≡ header_size → drop header_size (h ++ b) ≡ b
body_of h b e = subst (λ n. drop n (h ++ b) ≡ b) e (drop_front h b)

-- Behind any header, the counters of an extended body are read as they were written, where they fit 64 bits,
-- and those of a basic one where they fit their fields.
pub parse_reply-bytes :
    (h : List ℕ) (x : PortCountersExtBody) (b : PortCountersBody)
    → length h ≡ header_size
    → x.xmit_data < 2 ^ 64
    → x.rcv_data < 2 ^ 64
    → x.xmit_pkts < 2 ^ 64
    → x.rcv_pkts < 2 ^ 64
    → b.symbol_err < 2 ^ 16
    → b.xmit_data < 2 ^ 32
    → b.rcv_data < 2 ^ 32
    → b.xmit_pkts < 2 ^ 32
    → b.rcv_pkts < 2 ^ 32
    → b.xmit_wait < 2 ^ 32
    → (parse_reply true (h ++ ext_bytes x) ≡ record no_counters {
      port_xmit_data = x.xmit_data;
      port_rcv_data = x.rcv_data;
      port_xmit_pkts = x.xmit_pkts;
      port_rcv_pkts = x.rcv_pkts;
      extended = true;
      valid = true;
    })
      × (parse_reply false (h ++ basic_bytes b) ≡ record no_counters {
        port_xmit_data = b.xmit_data;
        port_rcv_data = b.rcv_data;
        port_xmit_pkts = b.xmit_pkts;
        port_rcv_pkts = b.rcv_pkts;
        xmit_wait = b.xmit_wait;
        symbol_err = b.symbol_err;
        link_err = b.link_err;
        port_xmit_discards = b.xmit_discards;
        valid = true;
      })
unfolding parse_reply parse_body ext_bytes basic_bytes
parse_reply-bytes h x b e h1 h2 h3 h4 h5 h6 h7 h8 h9 h10 = (
  rw
      (
        body_of h (ext_bytes x) e,
        high64_back x.xmit_data h1,
        high64_back x.rcv_data h2,
        high64_back x.xmit_pkts h3,
        high64_back x.rcv_pkts h4,
      )
      refl,
  rw
      (
        body_of h (basic_bytes b) e,
        high16_back b.symbol_err h5,
        high32_back b.xmit_data h6,
        high32_back b.rcv_data h7,
        high32_back b.xmit_pkts h8,
        high32_back b.rcv_pkts h9,
        high32_back b.xmit_wait h10,
      )
      refl,
)
