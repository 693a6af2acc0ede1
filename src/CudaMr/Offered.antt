-- ===== src/CudaMr/Offered.antt =====
-- Proofs about shim/cuda_mr.cpp: when the registry offers device memory.
use cong_shed.Base.{
  ℕ, ◌<◌, ◌≡◌, ◌↔◌, Bool, Option, none, some, if◌then◌else◌, arith, ltb, lt→ltb, ◌∙◌, sym, some_inj,
  ltb→lt, Bool-cases, ap, inl, inr, option_either_eq, subst,
}
use Prim.Native.String.{String}
use cong_shed.Base.Int.{ℤ, pos, negsuc, pos_part}
use cong_shed.CudaMr.{CudaPointerAttributes, CudaRuntime, supported_ptr_types}
use cong_shed.CudaMr.Loading.{
  CudaLibrary, open_first, library_names, counted, resolved, no_runtime, cuda_runtime,
}

-- The library that was loaded has the two functions that are needed, and counts a device.
abbrev pub HasDevice : Option CudaLibrary → Type 0
HasDevice none = ⊥
HasDevice (some l) =
    (n : ℕ) × (l.device_count_fn ≡ some (some (pos n)))
    × (0 < n)
    × (f : ℕ → Option CudaPointerAttributes) × (l.attributes_fn ≡ some f)

abbrev mask_of : ℕ → ℕ
mask_of n = if ltb 0 n then 3 else 1

pos_inj : (m n : ℕ) → pos m ≡ pos n → m ≡ n
pos_inj m n e = ap pos_part e

mask_both : (n : ℕ) → (mask_of n ≡ 3) ↔ (0 < n)
mask_both n = elim (Bool-cases (ltb 0 n)) [
  | inl e ↦ (λ h. ltb→lt 0 n e, λ h. ground (arith, e))
  | inr e ↦ (λ h. ground (arith, e, h), λ h. ground (arith, e, h, lt→ltb 0 n h))
]

counts_device :
    (l : CudaLibrary) (n : Option ℤ) (f : ℕ → Option CudaPointerAttributes)
    → l.device_count_fn ≡ some n
    → l.attributes_fn ≡ some f
    → (mask_of (counted n) ≡ 3) ↔ HasDevice (some l)
counts_device l none f e p =
    (λ h. absurd (omega (arith, h)), λ h. absurd (ground (arith, sym e ∙ h.1)))
counts_device l (some (negsuc m)) f e p =
    (λ h. absurd (omega (arith, h)), λ h. absurd (ground (arith, sym e ∙ h.1)))
counts_device l (some (pos m)) f e p = (
  λ h. (m, e, (mask_both m).0 h, f, p),
  λ h.
      (mask_both m).1
        (subst (λ k. 0 < k) (pos_inj h.0 m (some_inj _ _ (some_inj _ _ (sym h.1 ∙ e)))) h.2),
)

resolved-HasDevice :
    (mlock : ℕ → ℕ → Bool) (l : CudaLibrary)
    → (supported_ptr_types (resolved mlock l) ≡ 3) ↔ HasDevice (some l)
unfolding resolved supported_ptr_types
resolved-HasDevice mlock l =
    let P : CudaRuntime → Type 0 = λ r. (supported_ptr_types r ≡ 3) ↔ HasDevice (some l) in
    option_either_eq P l.device_count_fn _ _
      (λ e. (λ h. absurd (omega (arith, h)), λ h. absurd (ground (arith, sym e ∙ h.1))))
      (λ n e.
        option_either_eq P l.attributes_fn _ _
          (λ k. (λ h. absurd (omega (arith, h)), λ h. absurd (ground (arith, sym k ∙ h.4))))
          (λ f k. counts_device l n f e k))

-- Device memory is offered just where the first library that loads, of the five that are tried, has the
-- functions for the count and the attributes and counts a device.
pub supported_ptr_types-HasDevice :
    (load : String → Option CudaLibrary) (mlock : ℕ → ℕ → Bool)
    → (supported_ptr_types (cuda_runtime load mlock) ≡ 3)
      ↔ HasDevice (open_first load library_names)
unfolding cuda_runtime supported_ptr_types
supported_ptr_types-HasDevice load mlock =
    let P : Option CudaLibrary → Type 0 = λ o.
      (supported_ptr_types (elim o [ none ↦ no_runtime mlock | some l ↦ resolved mlock l ]) ≡ 3)
      ↔ HasDevice o in
    elim (open_first load library_names) as P [
      | none ↦ (λ h. absurd (omega (arith, h)), λ h. absurd h)
      | some l ↦ resolved-HasDevice mlock l
    ]
