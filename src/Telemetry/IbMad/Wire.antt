-- ===== src/Telemetry/IbMad/Wire.antt =====
-- telemetry/ib_mad.cpp: the datagrams of `build_and_send_perfmgt`, byte by byte as the packed structures lie in
-- memory. Numbers of a reply stand with their highest byte first.
use cong_shed.Base.{
  ℕ, ◌+◌, ◌*◌, ◌-◌, ◌/◌, ◌^◌, Bool, true, false, not, ◌||◌, none, some, List, [], ◌∷◌, ◌++◌,
  if◌then◌else◌, replicate, get_or, ◌==◌,
}
use cong_shed.Base.Int.{ℤ, is_nonneg}
use cong_shed.Base.Bytes.{u32_bytes, int8_byte, drop}
use cong_shed.Telemetry.Nvml.{Outcome, reading, refused, null_call}
use cong_shed.Telemetry.IbMad.{IbPortCounters, no_counters, MadLibrary, IbMadClient}

-- The least byte first, as the machine keeps a `uint64_t`.
abbrev pub u64_bytes : ℕ → List ℕ
u64_bytes v = u32_bytes v ++ u32_bytes (v / 2 ^ 32)

-- `sizeof` of the two bodies
abbrev pub body_size : Bool → ℕ
body_size true = 72
body_size false = 38

-- `MadHeader` of a request: version 1, class 4, method Get, the clock as transaction id, and the attribute in
-- network order.
unfoldable pub header_bytes : Bool → ℕ → List ℕ
header_bytes extended now =
    (1 ∷ 4 ∷ (if extended then 2 else 1) ∷ 1 ∷ 0 ∷ 0 ∷ 0 ∷ 0 ∷ [])
    ++ (u64_bytes now ++ (0 ∷ (if extended then 29 else 18) ∷ 0 ∷ 0 ∷ 0 ∷ 0 ∷ 0 ∷ 0 ∷ []))

-- The body asks for all counters of the port.
unfoldable pub request_bytes : Bool → ℤ → ℕ → List ℕ
unfolding header_bytes
request_bytes extended port now =
    header_bytes extended now
    ++ ((0 ∷ int8_byte port ∷ 255 ∷ 255 ∷ []) ++ replicate (body_size extended - 4) 0)

-- The numbers of 1, 2, 4 and 8 bytes at an offset: `ntohs`, `ntohl` and `be64toh`.
abbrev pub byte_at : List ℕ → ℕ → ℕ
byte_at bs i = get_or bs i 0

abbrev pub be16 : List ℕ → ℕ → ℕ
be16 bs i = byte_at bs i * 256 + byte_at bs (i + 1)

abbrev pub be32 : List ℕ → ℕ → ℕ
be32 bs i = be16 bs i * 65536 + be16 bs (i + 2)

abbrev pub be64 : List ℕ → ℕ → ℕ
be64 bs i = be32 bs i * 4294967296 + be32 bs (i + 4)

-- `kMadHdrSize`
abbrev pub header_size : ℕ
header_size = 24

-- The counters of a reply, whose body follows the header.
unfoldable pub parse_body : Bool → List ℕ → IbPortCounters
parse_body true b = record no_counters {
  port_xmit_data = be64 b 8;
  port_rcv_data = be64 b 16;
  port_xmit_pkts = be64 b 24;
  port_rcv_pkts = be64 b 32;
  extended = true;
  valid = true;
}
parse_body false b = record no_counters {
  port_xmit_data = be32 b 18;
  port_rcv_data = be32 b 22;
  port_xmit_pkts = be32 b 26;
  port_rcv_pkts = be32 b 30;
  xmit_wait = be32 b 34;
  symbol_err = be16 b 4;
  link_err = byte_at b 6;
  port_xmit_discards = byte_at b 11;
  extended = false;
  valid = true;
}

unfoldable pub parse_reply : Bool → List ℕ → IbPortCounters
unfolding parse_body
parse_reply extended mad = parse_body extended (drop header_size mad)

module _ {W : Type 0} where
  -- Each way out after the buffer was allocated frees it, through a pointer that nobody has checked.
  abbrev freed : IbMadClient W → Outcome IbPortCounters → Outcome IbPortCounters
  freed c r = if c.symbols.umad_free then r else null_call

  unfoldable pub build_and_send_perfmgt :
      MadLibrary → ℕ → Bool → IbMadClient W → Outcome IbPortCounters
  unfolding request_bytes parse_reply
  build_and_send_perfmgt l now extended c =
      let request = request_bytes extended c.port now in
      let s = c.symbols in
      if not (is_nonneg c.umad_fd)
        || (not s.umad_alloc || (not s.umad_send || (not s.umad_recv || not s.umad_get_mad)))
      then refused
      else if not l.alloc_ok
      then refused
      else if not (l.send_ok request)
      then freed c refused
      else elim (l.recv request) [
        | none ↦ freed c refused
        | some reply ↦
            if be16 reply 4 == 0
            then freed c (reading (parse_reply extended reply))
            else freed c refused
      ]

  -- The extended counters, or else the basic ones.
  unfoldable pub query_via_mad : MadLibrary → ℕ → IbMadClient W → Outcome IbPortCounters
  unfolding build_and_send_perfmgt
  query_via_mad l now c = elim (build_and_send_perfmgt l now true c) [
    | reading r ↦ reading r
    | refused ↦ build_and_send_perfmgt l now false c
    | null_call ↦ null_call
  ]
