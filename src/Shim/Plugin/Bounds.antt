-- ===== src/Shim/Plugin/Bounds.antt =====
-- Proofs about shim/nccl_plugin.cpp: which sends from a registered buffer `plugin_isend` takes.
use cong_shed.Base.{
  eq_false, ℕ, ◌+◌, ◌≤◌, ◌<◌, ◌≡◌, ◌≢◌, refl, sym, ap, ◌∙◌, ◌⊎◌, inl, inr, ◌↔◌, Bool, true, false,
  not, ◌&&◌, ◌||◌, some, Bool-cases, ltb, ◌==◌, arith, word64, add64, if◌then◌else◌,
}
use cong_shed.Base.Int.{ℤ}
use cong_shed.Base.Double.{Double}
use cong_shed.CudaMr.{CudaRuntime, MemoryRegion, MemoryRegistry, get_mr, new_region}
use cong_shed.CudaMr.Registry.{IsWell, register_mr-get_mr}
use cong_shed.Shim.{HicsShim, Clock}
use cong_shed.Shim.Plugin.{
  NcclResult, success, invalid_argument, PluginComm, Plugin, is_cuda_kind, check_send, file_request,
  plugin_isend, plugin_reg_mr,
}

-- The buffer is null, or it begins where the region does, or it lies within the region.
abbrev pub IsWithin : ℕ → ℕ → ℕ → ℕ → Type 0
IsWithin base len ptr size = (ptr ≡ 0) ⊎ ((ptr ≡ base) ⊎ ((base ≤ ptr) × (ptr + size ≤ base + len)))

-- The test of the source, for sums that do not wrap around.
abbrev is_outside : ℕ → ℕ → ℕ → ℕ → Bool
is_outside base len ptr size =
    not (base == ptr) && (not (ptr == 0) && (ltb ptr base || ltb (add64 base len) (add64 ptr size)))

is_outside-false :
    (base len ptr size : ℕ)
    → base + len < word64
    → ptr + size < word64
    → is_outside base len ptr size ≡ false
    → IsWithin base len ptr size
is_outside-false base len ptr size m n e = ground (arith, m, n, e)

is_outside-true :
    (base len ptr size : ℕ)
    → base + len < word64
    → ptr + size < word64
    → is_outside base len ptr size ≡ true
    → IsWithin base len ptr size
    → ⊥
is_outside-true base len ptr size m n e w = ground (arith, m, n, e, w)

check_send_found :
    (rt : CudaRuntime) (reg : MemoryRegistry) (h ptr size : ℕ) (mr : MemoryRegion)
    → h ≢ 0
    → get_mr reg h ≡ some mr
    → check_send rt reg h ptr size ≡ (
        if is_outside mr.addr mr.size ptr size
        then inl invalid_argument
        else inr (is_cuda_kind mr.kind))
unfolding check_send
check_send_found rt reg h ptr size mr n e = rw (eq_false h 0 n, e) refl

module _ {W : Type 0} ⦃d : Double W⦄ where
  isend_refused :
      (rt : CudaRuntime) (p : Plugin W) (s : HicsShim W) (comm : PluginComm) (ptr size : ℕ)
      (tag : ℤ) (h : ℕ) (clock : Clock W) (e : NcclResult)
      → p.shim ≡ some s
      → check_send rt p.registry h ptr size ≡ inl e
      → (plugin_isend rt p (some comm) ptr size tag h true clock).1 ≡ e
  unfolding plugin_isend
  isend_refused rt p s comm ptr size tag h clock e k c = rw (k, c) refl

  isend_taken :
      (rt : CudaRuntime) (p : Plugin W) (s : HicsShim W) (comm : PluginComm) (ptr size : ℕ)
      (tag : ℤ) (h : ℕ) (clock : Clock W) (b : Bool)
      → p.shim ≡ some s
      → check_send rt p.registry h ptr size ≡ inr b
      → (plugin_isend rt p (some comm) ptr size tag h true clock).1 ≡ success
  unfolding plugin_isend file_request
  isend_taken rt p s comm ptr size tag h clock b k c = rw (k, c) refl

  -- A send from a region found under a handle is taken just where its buffer is within the region.
  isend_iff :
      (rt : CudaRuntime) (p : Plugin W) (s : HicsShim W) (comm : PluginComm) (ptr size : ℕ)
      (tag : ℤ) (h : ℕ) (clock : Clock W) (mr : MemoryRegion)
      → p.shim ≡ some s
      → h ≢ 0
      → get_mr p.registry h ≡ some mr
      → mr.addr + mr.size < word64
      → ptr + size < word64
      → ((plugin_isend rt p (some comm) ptr size tag h true clock).1 ≡ success)
        ↔ IsWithin mr.addr mr.size ptr size
  isend_iff rt p s comm ptr size tag h clock mr k nz found m n =
      let c = check_send_found rt p.registry h ptr size mr nz found in
      elim (Bool-cases (is_outside mr.addr mr.size ptr size)) [
        | inl e ↦
            let refused =
              isend_refused rt p s comm ptr size tag h clock invalid_argument k
                (c ∙ ap (λ b. if b then inl invalid_argument else inr (is_cuda_kind mr.kind)) e) in
            (
              λ t. absurd (ground (arith, sym refused ∙ t)),
              λ w. absurd (is_outside-true mr.addr mr.size ptr size m n e w),
            )
        | inr e ↦ (
          λ t. is_outside-false mr.addr mr.size ptr size m n e,
          λ w.
              isend_taken rt p s comm ptr size tag h clock (is_cuda_kind mr.kind) k
                (c ∙ ap (λ b. if b then inl invalid_argument else inr (is_cuda_kind mr.kind)) e),
        )
      ]

  -- A buffer that is not null and not empty is registered under the next handle, and a send with that handle
  -- is then taken just where its buffer is null, begins where the registered one does, or lies within it,
  -- and is refused everywhere else. The ends of both buffers are addresses of 64 bits.
  pub plugin_isend-plugin_reg_mr :
      (rt : CudaRuntime) (p : Plugin W) (s : HicsShim W) (comm : PluginComm)
      (base len mask ptr size : ℕ) (tag : ℤ) (clock : Clock W)
      → p.shim ≡ some s
      → IsWell p.registry
      → base ≢ 0
      → len ≢ 0
      → base + len < word64
      → ptr + size < word64
      → ((plugin_reg_mr rt p true base len mask).2 ≡ some p.registry.next_id)
        × (((plugin_isend rt
                (plugin_reg_mr rt p true base len mask).0
                (some comm)
                ptr
                size
                tag
                p.registry.next_id
                true
                clock).1
              ≡ success)
            ↔ IsWithin base len ptr size)
  unfolding plugin_reg_mr new_region
  plugin_isend-plugin_reg_mr rt p s comm base len mask ptr size tag clock k w b l m n =
      let r = register_mr-get_mr rt p.registry base len mask w b l in
      let nz : p.registry.next_id ≢ 0 = λ e. omega (arith, e, w.0) in
      rw (eq_false base 0 b, eq_false len 0 l, r.0)
        (
          refl,
          isend_iff rt _ s comm ptr size tag p.registry.next_id clock
              (new_region rt p.registry.next_id base len mask) k nz r.2 m n,
        )
