-- ===== src/CudaMr.antt =====
-- shim/cuda_mr.cpp: the CUDA runtime, loaded at run time, and the registry of memory regions.
pub mod Registry
pub mod Loading
pub mod Offered
use cong_shed.Base.{
  ℕ, ◌-◌, ◌/◌, ◌%◌, Bool, true, false, not, ◌&&◌, ◌||◌, Option, none, some, List, [], ◌∷◌, add64,
  ltb, ◌==◌, if◌then◌else◌, length,
}
use cong_shed.Base.Int.{ℤ, pos, negsuc}

pub data MrPtrType : Type 0 where
  host cuda : MrPtrType

-- `cudaPointerAttributes`
pub record CudaPointerAttributes : Type 0 where
  pub kind : ℕ
  pub device : ℕ
  pub device_pointer : ℕ
  pub host_pointer : ℕ

-- What `dlopen` found, and what its functions answer; `mlock` is the system's. A function that was
-- not found is `none`.
pub record CudaRuntime : Type 0 where
  pub ready : Bool
  pub device_count : ℕ
  pub attributes : ℕ → Option CudaPointerAttributes
  -- address, size and flags; the flag 2 is `cudaHostRegisterMapped`
  pub register_fn : Option (ℕ → ℕ → ℕ → Bool)
  pub unregister_fn : Option (ℕ → Bool)
  pub device_pointer_fn : Option (ℕ → Option ℕ)
  pub synchronize_fn : Option Bool
  -- destination, source, size and kind
  pub memcpy_fn : Option (ℕ → ℕ → ℕ → ℕ → Bool)
  pub mlock : ℕ → ℕ → Bool

pub record MemoryRegion : Type 0 where
  pub id : ℕ
  pub addr : ℕ
  pub size : ℕ
  pub kind : MrPtrType
  pub device_ptr : ℕ
  pub device_id : ℤ
  pub host_registered : Bool
  pub cuda_registered : Bool
  pub refcount : ℕ

-- `regions_` is an association list by id.
pub record MemoryRegistry : Type 0 where
  pub regions : List MemoryRegion
  pub next_id : ℕ

abbrev pub device_of : ℕ → Option CudaPointerAttributes → Option ℕ
device_of ptr none = none
device_of ptr (some a) = if (a.kind == 2) || (a.device_pointer == ptr) then some a.device else none

-- `is_device_pointer`, with the device on success
unfoldable pub device_pointer : CudaRuntime → ℕ → Option ℕ
device_pointer rt ptr =
    if not rt.ready || (ptr == 0) then none else device_of ptr (rt.attributes ptr)

abbrev pub is_pinned : Option CudaPointerAttributes → Bool
is_pinned none = false
is_pinned (some a) = (a.kind == 1) || not (a.host_pointer == 0)

unfoldable pub is_host_registered : CudaRuntime → ℕ → Bool
is_host_registered rt ptr =
    if not rt.ready || (ptr == 0) then false else is_pinned (rt.attributes ptr)

-- Mapped first, then plain, and `mlock` last.
unfoldable pub host_register : CudaRuntime → ℕ → ℕ → Bool
host_register rt ptr size =
    if (ptr == 0) || (size == 0)
    then false
    else if rt.ready
    then elim rt.register_fn [
      | none ↦ rt.mlock ptr size
      | some f ↦ f ptr size 2 || (f ptr size 0 || rt.mlock ptr size)
    ]
    else rt.mlock ptr size

unfoldable pub host_unregister : CudaRuntime → ℕ → Bool
host_unregister rt ptr =
    if ptr == 0
    then false
    else if rt.ready
    then elim rt.unregister_fn [ none ↦ true | some f ↦ f ptr ]
    else true

abbrev pub or_same : ℕ → Option ℕ → ℕ
or_same ptr none = ptr
or_same ptr (some p) = p

-- `none` where the call returns false.
unfoldable pub host_get_device_pointer : CudaRuntime → ℕ → Option ℕ
host_get_device_pointer rt ptr =
    if ptr == 0
    then none
    else if rt.ready
    then elim rt.device_pointer_fn [ none ↦ some ptr | some f ↦ some (or_same ptr (f ptr)) ]
    else some ptr

unfoldable pub stream_sync_default : CudaRuntime → Bool
stream_sync_default rt =
    if rt.ready then elim rt.synchronize_fn [ none ↦ true | some ok ↦ ok ] else true

-- A copy to the host, kind 2, and to the device, kind 1.
unfoldable pub memcpy_dtoh_async : CudaRuntime → ℕ → ℕ → ℕ → Bool
memcpy_dtoh_async rt target source size =
    if rt.ready then elim rt.memcpy_fn [ none ↦ false | some f ↦ f target source size 2 ] else false

unfoldable pub memcpy_htod_async : CudaRuntime → ℕ → ℕ → ℕ → Bool
memcpy_htod_async rt target source size =
    if rt.ready then elim rt.memcpy_fn [ none ↦ false | some f ↦ f target source size 1 ] else false

-- The mask of `NCCL_PTR_HOST`, 1, and `NCCL_PTR_CUDA`, 2.
unfoldable pub supported_ptr_types : CudaRuntime → ℕ
supported_ptr_types rt = if rt.ready && ltb 0 rt.device_count then 3 else 1

abbrev pub empty_registry : MemoryRegistry
empty_registry = record { regions = []; next_id = 1 }

abbrev pub device_id_of : Option ℕ → ℤ
device_id_of none = negsuc 0
device_id_of (some n) = pos n

abbrev pub is_found : Option ℕ → Bool
is_found none = false
is_found (some n) = true

-- The region of a buffer: device memory as it is, host memory pinned if that succeeds.
unfoldable pub new_region : CudaRuntime → ℕ → ℕ → ℕ → ℕ → MemoryRegion
unfolding device_pointer host_register host_get_device_pointer
new_region rt i ptr size mask =
    let asked = mask / 2 % 2 == 1 in
    let found = (if asked then none else device_pointer rt ptr) in
    let on_device = asked || is_found found in
    let pinned = host_register rt ptr size in
    record {
      id = i;
      addr = ptr;
      size = size;
      kind = if on_device then cuda else host;
      device_ptr =
          if on_device
          then ptr
          else if pinned
          then or_same 0 (host_get_device_pointer rt ptr)
          else ptr;
      device_id = device_id_of found;
      host_registered = not on_device && pinned;
      cuda_registered = on_device;
      refcount = 1;
    }

-- The handle is the id; `none` is the null pointer.
unfoldable pub register_mr : CudaRuntime → MemoryRegistry → ℕ → ℕ → ℕ → MemoryRegistry × Option ℕ
unfolding new_region
register_mr rt reg ptr size mask = if (ptr == 0) || (size == 0) then (reg, none) else (
  record {
    regions = new_region rt reg.next_id ptr size mask ∷ reg.regions;
    next_id = add64 reg.next_id 1;
  },
  some reg.next_id,
)

-- `regions_.find(id)`, where the null handle is in no region
unfoldable pub find_region : ℕ → List MemoryRegion → Option MemoryRegion
find_region i [] = none
find_region i (r ∷ rs) = let rest = find_region i rs in if r.id == i then some r else rest

unfoldable pub update_region :
    ℕ → (MemoryRegion → MemoryRegion) → List MemoryRegion → List MemoryRegion
update_region i f [] = []
update_region i f (r ∷ rs) = if r.id == i then f r ∷ rs else r ∷ update_region i f rs

unfoldable pub erase_region : ℕ → List MemoryRegion → List MemoryRegion
erase_region i [] = []
erase_region i (r ∷ rs) = if r.id == i then rs else r ∷ erase_region i rs

unfoldable pub get_mr : MemoryRegistry → ℕ → Option MemoryRegion
unfolding find_region
get_mr reg h = if h == 0 then none else find_region h reg.regions

-- What unregistering a pinned buffer returns is not read.
unfoldable pub deregister_mr : MemoryRegistry → ℕ → MemoryRegistry × Bool
unfolding get_mr update_region erase_region
deregister_mr reg h = elim (get_mr reg h) [
  | none ↦ (reg, false)
  | some r ↦
      if ltb 1 r.refcount
      then (
        record reg {
          regions = update_region h (λ m. record m { refcount = m.refcount - 1 }) reg.regions;
        },
        true,
      )
      else (record reg { regions = erase_region h reg.regions }, true)
]

-- The region is looked up and not used.
unfoldable pub flush : CudaRuntime → MemoryRegistry → ℕ → Bool
unfolding stream_sync_default
flush rt reg h = stream_sync_default rt

unfoldable pub size : MemoryRegistry → ℕ
size reg = length reg.regions
