-- ===== src/Shim/Plugin.antt =====
-- shim/nccl_plugin.cpp: the NCCL network plugin. A comm is passed as its value, since no call changes
-- one after it was made; a request is its number, and 0 is the null pointer.
pub mod Bounds
pub mod Devices
pub mod Entry
pub mod Shown
pub mod Requests
pub mod Pairing
use cong_shed.Base.{
  ℕ, ◌+◌, ◌-◌, ◌^◌, ◌/◌, ◌%◌, ◌⊎◌, inl, inr, Bool, true, false, not, ◌&&◌, ◌||◌, Option, none, some,
  List, [], ◌∷◌, word32, add64, ltb, leb, ◌==◌, if◌then◌else◌,
}
use cong_shed.Base.Int.{ℤ, pos, negsuc, is_nonneg, pos_part}
use cong_shed.Base.Double.{Double}
use cong_shed.Model.{
  TrafficClass, tensor_parallel, pipeline_parallel, kv_migration, gpu, EndpointId, class_eq,
  kv_chunk_bytes, TransferRequest,
}
use cong_shed.Transfer.State.{completed, cancelled, state_eq}
use cong_shed.Shim.{HicsShim, Clock, submit_transfer, poll_transfers, transfer_status}
use cong_shed.CudaMr.{
  CudaRuntime, MemoryRegistry, MrPtrType, host, cuda, device_pointer, is_found, get_mr, register_mr,
  deregister_mr,
}

pub data NcclResult : Type 0 where
  success unhandled_cuda_error system_error internal_error invalid_argument invalid_usage :
      NcclResult
  remote_error in_progress : NcclResult

pub record PluginComm : Type 0 where
  pub peer_rank : ℕ
  pub local_gpu : ℕ
  pub rail : ℤ
  pub is_send : Bool

pub record PluginRequest : Type 0 where
  pub transfer_id : ℕ
  pub size : ℕ
  pub is_done : Bool
  pub result_size : ℤ
  pub mhandle : ℕ
  pub buf : ℕ
  pub peer_buf : ℕ
  pub is_cuda : Bool
  pub rail : ℤ

-- The globals of the file, with the two singletons that it calls.
pub record Plugin (W : Type 0) : Type 0 where
  pub shim : Option (HicsShim W)
  pub next_req : ℕ
  -- in the order of the map's iteration
  pub requests : List (ℕ × PluginRequest)
  pub registry : MemoryRegistry

unfoldable pub gpu_ep : ℕ → EndpointId
gpu_ep rank = record { node_id = rank / 8; local_id = rank % 8; kind = gpu }

abbrev pub at_least : ℕ → ℤ → Bool
at_least n (pos t) = leb n t
at_least n (negsuc t) = false

unfoldable pub classify_tag : ℤ → ℕ → TrafficClass
classify_tag tag size =
    if leb kv_chunk_bytes size
    then kv_migration
    else if at_least 1000 tag
    then kv_migration
    else if at_least 100 tag
    then pipeline_parallel
    else tensor_parallel

-- `plugin_listen`: the comm, whose address goes into the handle
unfoldable pub plugin_listen : ℤ → PluginComm
plugin_listen dev = record {
  peer_rank = 0;
  local_gpu = 0;
  rail = pos (pos_part dev);
  is_send = false;
}

-- `plugin_connect`, given the comm that the handle points to
unfoldable pub plugin_connect : ℤ → Option PluginComm → PluginComm
plugin_connect dev none = record {
  peer_rank = 0;
  local_gpu = 0;
  rail = pos (pos_part dev);
  is_send = true;
}
plugin_connect dev (some listening) = record {
  peer_rank = listening.local_gpu;
  local_gpu = 0;
  rail = if is_nonneg listening.rail then listening.rail else pos (pos_part dev);
  is_send = true;
}

unfoldable pub plugin_accept : Option PluginComm → NcclResult × Option PluginComm
plugin_accept none = (invalid_argument, none)
plugin_accept (some listening) = (success, some listening)

module _ {W : Type 0} where
  -- `wants` is that the place for the handle is there.
  unfoldable pub plugin_reg_mr :
      CudaRuntime → Plugin W → Bool → ℕ → ℕ → ℕ → Plugin W × NcclResult × Option ℕ
  plugin_reg_mr rt p wants ptr size mask =
      if not wants || ((ptr == 0) || (size == 0))
      then (p, invalid_argument, none)
      else (let r = register_mr rt p.registry ptr size mask in
          let p' = record p { registry = r.0 } in
          elim r.1 [ none ↦ (p', system_error, none) | some h ↦ (p', success, some h) ])

  unfoldable pub plugin_dereg_mr : Plugin W → ℕ → Plugin W × NcclResult
  plugin_dereg_mr p h =
      if h == 0
      then (p, success)
      else (let r = deregister_mr p.registry h in
          (record p { registry = r.0 }, if r.1 then success else invalid_argument))

abbrev pub is_cuda_kind : MrPtrType → Bool
is_cuda_kind cuda = true
is_cuda_kind host = false

-- The check of a send's buffer: an error, or whether it is device memory. The bounds are those of the
-- region when the address is another than its base, and the sums of addresses wrap around.
unfoldable pub check_send : CudaRuntime → MemoryRegistry → ℕ → ℕ → ℕ → NcclResult ⊎ Bool
check_send rt reg h ptr size =
    if h == 0
    then inr (not (ptr == 0) && is_found (device_pointer rt ptr))
    else elim (get_mr reg h) [
      | none ↦ inl invalid_usage
      | some mr ↦
          if not (mr.addr == ptr)
            && (not (ptr == 0) && (ltb ptr mr.addr || ltb (add64 mr.addr mr.size) (add64 ptr size)))
          then inl invalid_argument
          else inr (is_cuda_kind mr.kind)
    ]

-- The check of a receive's buffer has no bounds.
unfoldable pub check_recv : CudaRuntime → MemoryRegistry → ℕ → ℕ → NcclResult ⊎ Bool
check_recv rt reg h ptr =
    if h == 0
    then inr (not (ptr == 0) && is_found (device_pointer rt ptr))
    else elim (get_mr reg h) [ none ↦ inl invalid_usage | some mr ↦ inr (is_cuda_kind mr.kind) ]

-- `static_cast<int>` of a size
abbrev pub size_int : ℕ → ℤ
size_int n = let low = n % word32 in if ltb low (2 ^ 31) then pos low else negsuc (word32 - 1 - low)

-- A send that waits for its receive: it has a buffer, no peer, and the same size.
abbrev pub is_match : ℕ → PluginRequest → Bool
is_match size r = not r.is_done && (not (r.buf == 0) && ((r.peer_buf == 0) && (r.size == size)))

-- The buffer of the first match, which takes `target` for its peer; 0 where there is none.
unfoldable pub pair_up : ℕ → ℕ → List (ℕ × PluginRequest) → ℕ × List (ℕ × PluginRequest)
pair_up size target [] = (0, [])
pair_up size target ((i, r) ∷ rs) =
    let rest = pair_up size target rs in
    if is_match size r
    then (r.buf, (i, record r { peer_buf = target }) ∷ rs)
    else (rest.0, (i, r) ∷ rest.1)

unfoldable pub find_request : ℕ → List (ℕ × PluginRequest) → Option PluginRequest
find_request i [] = none
find_request i ((j, r) ∷ rs) = let rest = find_request i rs in if j == i then some r else rest

unfoldable pub erase_request : ℕ → List (ℕ × PluginRequest) → List (ℕ × PluginRequest)
erase_request i [] = []
erase_request i ((j, r) ∷ rs) = if j == i then rs else (j, r) ∷ erase_request i rs

module _ {W : Type 0} ⦃d : Double W⦄ where
  open d use {decimal}

  abbrev pub deadline_of : TrafficClass → W
  deadline_of cls = if class_eq cls tensor_parallel then decimal 50 0 else decimal 50000 0

  abbrev pub make_request : TrafficClass → EndpointId → EndpointId → ℕ → TransferRequest W
  make_request cls src dst size = record {
    source = src;
    dest = dst;
    size_bytes = size;
    traffic_class = cls;
    deadline_us = deadline_of cls;
  }

  -- Files a request under the next number. The result size is the size as an `int`.
  unfoldable pub file_request :
      Plugin W → HicsShim W → ℕ → ℕ → ℕ → ℕ → ℕ → Bool → ℤ → Plugin W × NcclResult × Option ℕ
  file_request p s tid size h buf peer on_device rail =
      let r : PluginRequest = record {
        transfer_id = tid;
        size = size;
        is_done = false;
        result_size = size_int size;
        mhandle = h;
        buf = buf;
        peer_buf = peer;
        is_cuda = on_device;
        rail = rail;
      } in
      (
        record p {
          shim = some s;
          next_req = add64 p.next_req 1;
          requests = (p.next_req, r) ∷ p.requests;
        },
        success,
        some p.next_req,
      )

  -- `wants` is that the place for the request is there.
  unfoldable pub plugin_isend :
      CudaRuntime
      → Plugin W
      → Option PluginComm
      → ℕ
      → ℕ
      → ℤ
      → ℕ
      → Bool
      → Clock W
      → Plugin W × NcclResult × Option ℕ
  unfolding check_send classify_tag gpu_ep file_request
  plugin_isend rt p none ptr size tag h wants clock = (p, invalid_argument, none)
  plugin_isend rt p (some comm) ptr size tag h wants clock =
      if not wants then (p, invalid_argument, none) else elim p.shim [
        | none ↦ (p, internal_error, none)
        | some s ↦ elim (check_send rt p.registry h ptr size) [
          | inl e ↦ (p, e, none)
          | inr on_device ↦
              let req =
                make_request (classify_tag tag size) (gpu_ep comm.local_gpu) (gpu_ep comm.peer_rank)
                  size in
              let r = submit_transfer s req (record { src_buf = ptr; dst_buf = 0 }) clock in
              file_request p r.0 r.1 size h ptr 0 on_device comm.rail
        ]
      ]

  -- A receive of `n` buffers; only the first of each array is read.
  unfoldable pub plugin_irecv :
      CudaRuntime
      → Plugin W
      → Option PluginComm
      → ℤ
      → ℕ
      → ℕ
      → ℤ
      → ℕ
      → Bool
      → Clock W
      → Plugin W × NcclResult × Option ℕ
  unfolding check_recv classify_tag gpu_ep pair_up file_request
  plugin_irecv rt p none n ptr size tag h wants clock = (p, invalid_argument, none)
  plugin_irecv rt p (some comm) n ptr size tag h wants clock =
      if not wants || not (at_least 1 n) then (p, invalid_argument, none) else elim p.shim [
        | none ↦ (p, internal_error, none)
        | some s ↦ elim (check_recv rt p.registry h ptr) [
          | inl e ↦ (p, e, none)
          | inr on_device ↦
              let paired = pair_up size ptr p.requests in
              let req =
                make_request (classify_tag tag size) (gpu_ep comm.peer_rank) (gpu_ep comm.local_gpu)
                  size in
              let r = submit_transfer s req (record { src_buf = paired.0; dst_buf = ptr }) clock in
              file_request (record p { requests = paired.1 }) r.0 r.1 size h ptr paired.0 on_device
                comm.rail
        ]
      ]

  -- The status, whether the request is done, and the size that is reported. A request that is not
  -- filed is done; without a shim the call is undefined, and reported as an internal error.
  unfoldable pub plugin_test : Plugin W → ℕ → Clock W → Plugin W × NcclResult × Bool × Option ℤ
  unfolding find_request erase_request
  plugin_test p request clock =
      if request == 0 then (p, success, true, none) else elim (find_request request p.requests) [
        | none ↦ (p, success, true, none)
        | some r ↦ elim p.shim [
          | none ↦ (p, internal_error, false, none)
          | some s ↦
              let polled = poll_transfers s (decimal 2 1) clock in
              let prog = transfer_status polled.0 r.transfer_id in
              let p' = record p { shim = some polled.0 } in
              if state_eq prog.state completed
                || (state_eq prog.state cancelled || (prog.bytes_remaining == 0))
              then (
                record p' { requests = erase_request request p.requests },
                success,
                true,
                some r.result_size,
              )
              else (p', success, false, none)
        ]
      ]
