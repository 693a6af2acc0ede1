-- ===== src/Ibverbs.antt =====
-- shim/ibverbs_transport.cpp: the dual-rail transport, whose writes are copies in host memory.
-- Addresses are numbers, and the mutex makes each call one step.
use Prim.Native.Nat.{bit_xor}
use Prim.Native.String.{String}
use cong_shed.Base.{
  ℕ, zero, suc, ◌+◌, ◌-◌, ◌%◌, max, Bool, true, false, not, ◌&&◌, ◌||◌, Option, none, some, List,
  [], ◌∷◌, ◌++◌, word32, add64, ltb, leb, ◌==◌, if◌then◌else◌, length, take, any, is_empty,
}
use cong_shed.Base.Int.{ℤ, pos, negsuc, eqb_ℤ}
use cong_shed.Base.Double.{milli}

pub record IbDeviceInfo : Type 0 where
  pub name : String
  pub port : ℕ
  pub rail_id : ℤ
  pub guid : ℕ

pub record IbMrHandle : Type 0 where
  pub id : ℕ
  pub addr : ℕ
  pub len : ℕ
  pub lkey : ℕ
  pub rkey : ℕ
  pub rail_id : ℤ
  pub registered : Bool

pub record IbWorkRequest : Type 0 where
  pub wr_id : ℕ
  pub rail_id : ℤ
  pub local_addr : ℕ
  pub remote_addr : ℕ
  pub len : ℕ
  pub completed : Bool
  pub success : Bool

-- The singleton's fields. `ibv_handle` is whether libibverbs is loaded.
pub record Transport : Type 0 where
  pub ready : Bool
  pub hardware : Bool
  pub devices : List IbDeviceInfo
  pub next_wr : ℕ
  pub next_mr : ℕ
  pub pending : List IbWorkRequest
  pub ibv_handle : Bool

-- What the machine offers: whether sysfs has a directory of adapters, the sorted names that it lists, which
-- of them are directories, and whether `dlopen` finds libibverbs.
pub record Host : Type 0 where
  pub can_list : Bool
  pub names : List String
  pub is_dir : String → Bool
  pub has_ibverbs : Bool

unfoldable pub discover_ib_device_names : Host → List String
discover_ib_device_names h =
    if not h.can_list then [] else if is_empty h.names then "mlx5_0" ∷ "mlx5_1" ∷ [] else h.names

-- The loop of `discover_sysfs`, from rail `i` on.
unfoldable pub discovered : ℕ → List String → List IbDeviceInfo
discovered i [] = []
discovered i (s ∷ ss) =
    record { name = s; port = 1; rail_id = pos i; guid = 0x4849435300000000 + i }
    ∷ discovered (suc i) ss

unfoldable pub discover_sysfs : Host → ℕ → Transport → Transport × Bool
unfolding discover_ib_device_names discovered
discover_sysfs h preferred t =
    let names = take preferred (discover_ib_device_names h) in
    let found = discovered 0 names in
    (
      record t { devices = found; hardware = t.hardware || any h.is_dir names },
      not (is_empty found),
    )

unfoldable pub load_ibverbs : Host → Transport → Transport
load_ibverbs h t = record t { ibv_handle = t.ibv_handle || h.has_ibverbs }

unfoldable pub init : Host → ℕ → Transport → Transport × Bool
unfolding discover_sysfs load_ibverbs
init h preferred t =
    if t.ready
    then (t, true)
    else (let (found, ok) = discover_sysfs h preferred (record t { hardware = false }) in
        let loaded = load_ibverbs h found in
        if not ok
        then (found, false)
        else if loaded.ibv_handle && loaded.hardware
        then (record loaded { ready = true }, true)
        else (record loaded { ready = true; hardware = false }, true))

unfoldable pub shutdown : Transport → Transport
shutdown t = record t { pending = []; devices = []; ready = false; ibv_handle = false }

-- The loop of `device_for_rail`, from index `i` on; `n` is the number of devices.
unfoldable pub device_from : ℕ → ℕ → ℕ → List IbDeviceInfo → ℕ
device_from rail n i [] = rail % max 1 n
device_from rail n i (dev ∷ ds) =
    let rest = device_from rail n (suc i) ds in if eqb_ℤ dev.rail_id (pos rail) then i else rest

unfoldable pub device_for_rail : Transport → ℤ → ℕ
unfolding device_from
device_for_rail t (negsuc n) = 0
device_for_rail t (pos r) = device_from r (length t.devices) 0 t.devices

unfoldable pub reg_mr : Transport → ℤ → ℕ → ℕ → Transport × Option IbMrHandle
reg_mr t rail addr len = if not t.ready || ((addr == 0) || (len == 0)) then (t, none) else (
  record t { next_mr = add64 t.next_mr 1 },
  some (record {
    id = t.next_mr;
    addr = addr;
    len = len;
    lkey = t.next_mr % word32;
    rkey = bit_xor t.next_mr 0xA5A5A5A5 % word32;
    rail_id = rail;
    registered = true;
  }),
)

unfoldable pub dereg_mr : IbMrHandle → IbMrHandle × Bool
dereg_mr mr = (record mr { registered = false; addr = 0; len = 0 }, true)

-- Host memory, a byte at each address; address 0 is the null pointer.
abbrev pub Memory : Type 0
Memory = ℕ → ℕ

-- `std::memcpy(dst, src, len)`
unfoldable pub memcpy : Memory → ℕ → ℕ → ℕ → Memory
memcpy m dst src len a = if leb dst a && ltb a (dst + len) then m (src + (a - dst)) else m a

unfoldable pub memcpy_transfer : Memory → ℕ → ℕ → ℕ → Memory × Bool
memcpy_transfer m src dst len =
    if (src == 0) || ((dst == 0) || (len == 0))
    then (m, false)
    else if src == dst
    then (m, true)
    else (memcpy m dst src len, true)

-- The request is returned beside the status, 0 or -1; a transport that is not ready leaves it alone.
unfoldable pub post_write :
    ℤ → ℕ → ℕ → ℕ → IbWorkRequest → Transport → Memory → Bool × IbWorkRequest × Transport × Memory
unfolding memcpy_transfer
post_write rail source target len wr t m =
    if not t.ready
    then (false, wr, t, m)
    else (let both = not (source == 0) && not (target == 0) in
        let (m', ok) = (if both then memcpy_transfer m source target len else (m, true)) in
        let posted : IbWorkRequest = record {
          wr_id = t.next_wr;
          rail_id = rail;
          local_addr = source;
          remote_addr = target;
          len = len;
          completed = true;
          success = ok;
        } in
        (
          ok,
          posted,
          record t { next_wr = add64 t.next_wr 1; pending = t.pending ++ (posted ∷ []) },
          m',
        ))

-- The loop of `poll`: erases completed requests while fewer than the budget were erased, and
-- passes over the others.
unfoldable pub poll_pending : ℕ → List IbWorkRequest → ℕ × List IbWorkRequest
poll_pending budget [] = (0, [])
poll_pending zero (w ∷ ws) = (0, w ∷ ws)
poll_pending (suc budget) (w ∷ ws) = elim w.completed [
  | true ↦ let r = poll_pending budget ws in (suc r.0, r.1)
  | false ↦ let r = poll_pending (suc budget) ws in (r.0, w ∷ r.1)
]

unfoldable pub poll : ℕ → Transport → ℕ × Transport
unfolding poll_pending
poll max_cqe t = let (n, rest) = poll_pending max_cqe t.pending in (n, record t { pending = rest })

abbrev pub blank_request : IbWorkRequest
blank_request = record {
  wr_id = 0;
  rail_id = pos 0;
  local_addr = 0;
  remote_addr = 0;
  len = 0;
  completed = false;
  success = false;
}

unfoldable pub transfer_chunk : ℤ → ℕ → ℕ → ℕ → Transport → Memory → Bool × Transport × Memory
unfolding post_write poll
transfer_chunk rail src dst len t m =
    let (ok, wr, t', m') = post_write rail src dst len blank_request t m in
    if not ok then (false, t', m') else (wr.success, (poll 8 t').1, m')
