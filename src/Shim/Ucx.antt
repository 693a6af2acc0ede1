-- ===== src/Shim/Ucx.antt =====
-- shim/ucx_transport.cpp: the UCX endpoint in front of the shim.
use Prim.Native.Nat.{bit_or}
use cong_shed.Base.{
  ℕ, ◌*◌, ◌%◌, ◌^◌, Bool, true, false, not, ◌||◌, Option, none, some, word64, ltb, ◌==◌,
  if◌then◌else◌,
}
use cong_shed.Base.Double.{Double, ◌≺◌, nought}
use cong_shed.Model.{TrafficClass, EndpointId, TransferRequest}
use cong_shed.Transfer.State.{completed, state_eq}
use cong_shed.Shim.{HicsShim, Clock, submit_transfer, poll_transfers, transfer_status}

pub record UcxIfaceConfig (W : Type 0) : Type 0 where
  pub max_zcopy_bytes : ℕ
  pub default_deadline_us : W

pub record UcxEndpoint : Type 0 where
  pub near : EndpointId
  pub remote : EndpointId
  pub uct_ep : ℕ

pub record UcxRequest : Type 0 where
  pub transfer_id : ℕ
  pub len : ℕ
  pub is_completed : Bool

pub record UcxTransport (W : Type 0) : Type 0 where
  pub shim : HicsShim W
  pub cfg : UcxIfaceConfig W
  pub is_open : Bool

-- `|` of the four fields, shifted by 32, 16, 8 and 0 bits
unfoldable pub pack_ep : EndpointId → EndpointId → ℕ
pack_ep near remote =
    bit_or
      (bit_or (bit_or (near.node_id * 2 ^ 32 % word64) (near.local_id * 2 ^ 16))
        (remote.node_id * 2 ^ 8))
      remote.local_id

module _ {W : Type 0} ⦃d : Double W⦄ where
  unfoldable pub open_iface : UcxTransport W → UcxIfaceConfig W → UcxTransport W
  open_iface t cfg = record t { cfg = cfg; is_open = true }

  unfoldable pub close_iface : UcxTransport W → UcxTransport W
  close_iface t = record t { is_open = false }

  unfoldable pub create_ep : UcxTransport W → EndpointId → EndpointId → Option UcxEndpoint
  unfolding pack_ep
  create_ep t near remote =
      if not t.is_open
      then none
      else some (record { near = near; remote = remote; uct_ep = pack_ep near remote })

  -- `none` is -1 with the request left alone; the flag is the status of the call.
  unfoldable pub zcopy_put :
      UcxTransport W
      → UcxEndpoint
      → ℕ
      → ℕ
      → TrafficClass
      → W
      → ℕ
      → Clock W
      → UcxTransport W × Option UcxRequest × Bool
  zcopy_put t ep buf len cls deadline_us remote clock =
      let dl = (if nought ≺ deadline_us then deadline_us else t.cfg.default_deadline_us) in
      let req : TransferRequest W = record {
        source = ep.near;
        dest = ep.remote;
        size_bytes = len;
        traffic_class = cls;
        deadline_us = dl;
      } in
      let r = submit_transfer t.shim req (record { src_buf = buf; dst_buf = remote }) clock in
      if not t.is_open || ltb t.cfg.max_zcopy_bytes len then (t, none, false) else (
        record t { shim = r.0 },
        some (record { transfer_id = r.1; len = len; is_completed = false }),
        not (r.1 == 0),
      )

  -- A get is the put the other way.
  unfoldable pub zcopy_get :
      UcxTransport W
      → UcxEndpoint
      → ℕ
      → ℕ
      → TrafficClass
      → W
      → ℕ
      → Clock W
      → UcxTransport W × Option UcxRequest × Bool
  unfolding zcopy_put
  zcopy_get t ep buf len cls deadline_us remote clock =
      zcopy_put t (record { near = ep.remote; remote = ep.near; uct_ep = ep.uct_ep }) remote len cls
        deadline_us buf clock

  unfoldable pub progress : UcxTransport W → W → Clock W → UcxTransport W × ℕ
  progress t dt clock = let r = poll_transfers t.shim dt clock in (record t { shim = r.0 }, r.1)

  unfoldable pub request_completed : UcxTransport W → UcxRequest → Bool
  request_completed t req =
      let st = transfer_status t.shim req.transfer_id in
      state_eq st.state completed || (st.bytes_remaining == 0)
