-- ===== src/CudaMr/Registry.antt =====
-- Proofs about shim/cuda_mr.cpp, `MemoryRegistry`: its handles.
use cong_shed.Base.{
  eq_false, ℕ, suc, ◌+◌, ◌-◌, ◌≤◌, ◌<◌, ◌≡◌, refl, sym, ap, ◌∙◌, ◌≢◌, ◌⊎◌, ◌↔◌, subst, inl, inr,
  true, false, ◌||◌, Bool-cases, Option, none, some, Option-cases, List, [], ◌∷◌, arith, word64,
  add64, ◌==◌, length,
}
use cong_shed.CudaMr.{
  CudaRuntime, MemoryRegion, MemoryRegistry, empty_registry, new_region, register_mr, find_region,
  erase_region, get_mr, deregister_mr,
}

-- The ids are positive, fall from the newest on and are below `n`; every region has one owner.
abbrev pub AreFresh : ℕ → List MemoryRegion → Type 0
AreFresh n [] = Unit
AreFresh n (r ∷ rs) = (r.id < n) × (0 < r.id) × (r.refcount ≡ 1) × AreFresh r.id rs

abbrev pub IsWell : MemoryRegistry → Type 0
IsWell reg = (0 < reg.next_id) × AreFresh reg.next_id reg.regions

eq_true : (a b : ℕ) → (a == b) ≡ true → a ≡ b
eq_true a b h = ground arith

AreFresh-mono : (m n : ℕ) (rs : List MemoryRegion) → m ≤ n → AreFresh m rs → AreFresh n rs
AreFresh-mono m n [] h w = tt
AreFresh-mono m n (r ∷ rs) h w = (omega arith, w.1, w.2, w.3)

find_region_above :
    (n h : ℕ) (rs : List MemoryRegion) → AreFresh n rs → n ≤ h → find_region h rs ≡ none
unfolding find_region
find_region_above n h [] w k = refl
find_region_above n h (r ∷ rs) w k =
    rw (eq_false r.id h (λ e. omega arith)) (find_region_above r.id h rs w.3 (omega arith))

find-erase :
    (n h : ℕ) (rs : List MemoryRegion) → AreFresh n rs → find_region h (erase_region h rs) ≡ none
unfolding find_region erase_region
find-erase n h [] w = refl
find-erase n h (r ∷ rs) w = elim (Bool-cases (r.id == h)) [
  | inl e ↦ rw e (find_region_above r.id h rs w.3 (ground arith))
  | inr e ↦ rw e (rw e (find-erase r.id h rs w.3))
]

find-erase_ne :
    (h k : ℕ) (rs : List MemoryRegion)
    → h ≢ k
    → find_region k (erase_region h rs) ≡ find_region k rs
unfolding find_region erase_region
find-erase_ne h k [] n = refl
find-erase_ne h k (r ∷ rs) n = elim (Bool-cases (r.id == h)) [
  | inl e ↦ rw (e, eq_false r.id k (λ q. n (sym (eq_true r.id h e) ∙ q))) refl
  | inr e ↦ rw e (rw (find-erase_ne h k rs n) refl)
]

erase-AreFresh : (n h : ℕ) (rs : List MemoryRegion) → AreFresh n rs → AreFresh n (erase_region h rs)
unfolding erase_region
erase-AreFresh n h [] w = tt
erase-AreFresh n h (r ∷ rs) w = elim (Bool-cases (r.id == h)) [
  | inl e ↦ rw e (AreFresh-mono r.id n rs (omega arith) w.3)
  | inr e ↦ rw e (w.0, w.1, w.2, erase-AreFresh r.id h rs w.3)
]

owners : Option MemoryRegion → ℕ
owners none = 0
owners (some r) = r.refcount

find-refcount :
    (n h : ℕ) (rs : List MemoryRegion) (r : MemoryRegion)
    → AreFresh n rs
    → find_region h rs ≡ some r
    → r.refcount ≡ 1
unfolding find_region owners
find-refcount n h [] r w f = absurd (cc f)
find-refcount n h (x ∷ rs) r w f = elim (Bool-cases (x.id == h)) [
  | inl e ↦ let q : some x ≡ some r = rw e at f in ap owners (sym q) ∙ w.2
  | inr e ↦ find-refcount x.id h rs r w.3 (rw e at f)
]

eq_same : (a : ℕ) → (a == a) ≡ true
eq_same a = ground arith

get_mr-refcount :
    (reg : MemoryRegistry) (h : ℕ) (r : MemoryRegion)
    → IsWell reg
    → get_mr reg h ≡ some r
    → r.refcount ≡ 1
unfolding get_mr
get_mr-refcount reg h r w f = elim (Bool-cases (h == 0)) [
  | inl e ↦ absurd (let q = rw e at f in cc q)
  | inr e ↦ find-refcount reg.next_id h reg.regions r w.1 (rw e at f)
]

-- A call on the registry.
pub data Call : Type 0 where
  registering : ℕ → ℕ → ℕ → Call
  deregistering : ℕ → Call

unfoldable pub after_calls : CudaRuntime → List Call → MemoryRegistry
unfolding register_mr deregister_mr
after_calls rt [] = empty_registry
after_calls rt (registering ptr size mask ∷ cs) =
    (register_mr rt (after_calls rt cs) ptr size mask).0
after_calls rt (deregistering h ∷ cs) = (deregister_mr (after_calls rt cs) h).0

-- `deregister_mr` never finds a second owner, so it erases the region.
deregister_lem :
    (reg : MemoryRegistry) (h : ℕ)
    → IsWell reg
    → ((get_mr reg h ≡ none) × (deregister_mr reg h ≡ (reg, false)))
      ⊎ ((r : MemoryRegion) × (get_mr reg h ≡ some r)
          × (deregister_mr reg h ≡ (record reg { regions = erase_region h reg.regions }, true)))
unfolding deregister_mr
deregister_lem reg h w = elim (Option-cases (get_mr reg h)) [
  | inl e ↦ inl (e, rw (e, deregister_mr) refl)
  | inr (r, e) ↦ inr (r, e, rw (e, deregister_mr, get_mr-refcount reg h r w e) refl)
]

register_lem :
    (rt : CudaRuntime) (reg : MemoryRegistry) (ptr size mask : ℕ)
    → ((register_mr rt reg ptr size mask).0 ≡ reg)
      ⊎ ((register_mr rt reg ptr size mask).0 ≡ record {
        regions = new_region rt reg.next_id ptr size mask ∷ reg.regions;
        next_id = add64 reg.next_id 1;
      })
unfolding register_mr
register_lem rt reg ptr size mask = elim (Bool-cases ((ptr == 0) || (size == 0))) [
  | inl e ↦ inl (rw e refl)
  | inr e ↦ inr (rw e refl)
]

-- Well-formed, with an id counter of at most `n`.
IsWellTo : ℕ → MemoryRegistry → Type 0
IsWellTo n reg = IsWell reg × (reg.next_id ≤ n)

pushed :
    (rt : CudaRuntime) (reg : MemoryRegistry) (ptr size mask n : ℕ)
    → n < word64 - 1
    → IsWellTo n reg
    → IsWellTo (suc n) (record {
      regions = new_region rt reg.next_id ptr size mask ∷ reg.regions;
      next_id = add64 reg.next_id 1;
    })
unfolding IsWellTo new_region
pushed rt reg ptr size mask n h ((p, w), k) =
    ((omega arith, (omega arith, p, refl, w)), omega arith)

after_calls-IsWellTo :
    (rt : CudaRuntime) (cs : List Call)
    → length cs + 1 < word64
    → IsWellTo (suc (length cs)) (after_calls rt cs)
unfolding IsWellTo after_calls
after_calls-IsWellTo rt [] h = ((omega arith, tt), omega arith)
after_calls-IsWellTo rt (registering ptr size mask ∷ cs) h =
    let reg = after_calls rt cs in
    let w = after_calls-IsWellTo rt cs (omega arith) in
    elim (register_lem rt reg ptr size mask) [
      | inl e ↦ subst (IsWellTo (suc (suc (length cs)))) (sym e) (w.0, omega arith)
      | inr e ↦
          subst (IsWellTo (suc (suc (length cs)))) (sym e)
            (pushed rt reg ptr size mask (suc (length cs)) (omega arith) w)
    ]
after_calls-IsWellTo rt (deregistering k ∷ cs) h =
    let reg = after_calls rt cs in
    let w = after_calls-IsWellTo rt cs (omega arith) in
    elim (deregister_lem reg k w.0) [
      | inl (a, e) ↦ subst (λ q. IsWellTo (suc (suc (length cs))) q.0) (sym e) (w.0, omega arith)
      | inr (r, a, e) ↦
          subst (λ q. IsWellTo (suc (suc (length cs))) q.0) (sym e)
            ((w.0.0, erase-AreFresh reg.next_id k reg.regions w.0.1), omega arith)
    ]

-- In fewer than 2 ^ 64 - 1 calls from the empty registry on, the handles stay positive and distinct, no
-- region has a second owner, and the next handle is one that no region has.
pub after_calls-IsWell :
    (rt : CudaRuntime) (cs : List Call) → length cs + 1 < word64 → IsWell (after_calls rt cs)
unfolding IsWellTo
after_calls-IsWell rt cs h = (after_calls-IsWellTo rt cs h).0

-- A buffer that is not null and not empty is registered under a handle that was free, which `get_mr`
-- then finds as the new region of that buffer; what the other handles find does not change.
pub register_mr-get_mr :
    (rt : CudaRuntime) (reg : MemoryRegistry) (ptr size mask : ℕ)
    → IsWell reg
    → ptr ≢ 0
    → size ≢ 0
    → ((register_mr rt reg ptr size mask).1 ≡ some reg.next_id)
      × (get_mr reg reg.next_id ≡ none)
      × (get_mr (register_mr rt reg ptr size mask).0 reg.next_id
          ≡ some (new_region rt reg.next_id ptr size mask))
      × ((k : ℕ) → k ≢ reg.next_id → get_mr (register_mr rt reg ptr size mask).0 k ≡ get_mr reg k)
unfolding register_mr get_mr find_region new_region
register_mr-get_mr rt reg ptr size mask w p q =
    let n : (reg.next_id == 0) ≡ false = eq_false reg.next_id 0 (λ e. omega arith) in
    rw (eq_false ptr 0 p, eq_false size 0 q)
      (
        refl,
        rw n (find_region_above reg.next_id reg.next_id reg.regions w.1 (omega arith)),
        rw n (rw (eq_same reg.next_id) refl),
        λ k h. rw (eq_false reg.next_id k (λ e. h (sym e))) refl,
      )

get_mr-erase :
    (reg : MemoryRegistry) (h : ℕ)
    → IsWell reg
    → get_mr (record reg { regions = erase_region h reg.regions }) h ≡ none
unfolding get_mr
get_mr-erase reg h w =
    rw (find-erase reg.next_id h reg.regions w.1)
      (elim (Bool-cases (h == 0)) [ inl e ↦ rw e refl | inr e ↦ rw e refl ])

get_mr-erase_ne :
    (reg : MemoryRegistry) (h k : ℕ)
    → h ≢ k
    → get_mr (record reg { regions = erase_region h reg.regions }) k ≡ get_mr reg k
unfolding get_mr
get_mr-erase_ne reg h k n = rw (find-erase_ne h k reg.regions n) refl

-- Once deregistered, a handle is not found, and deregistering it again fails; what the other handles
-- find does not change. The call returns true just where the handle was found.
pub deregister_mr-get_mr :
    (reg : MemoryRegistry) (h : ℕ)
    → IsWell reg
    → (get_mr (deregister_mr reg h).0 h ≡ none)
      × (((deregister_mr reg h).1 ≡ false) ↔ (get_mr reg h ≡ none))
      × ((k : ℕ) → k ≢ h → get_mr (deregister_mr reg h).0 k ≡ get_mr reg k)
deregister_mr-get_mr reg h w = elim (deregister_lem reg h w) [
  | inl (a, e) ↦ rw e (a, (λ q. a, λ q. refl), λ k n. refl)
  | inr (r, a, e) ↦ rw e (
    get_mr-erase reg h w,
    (λ q. absurd (cc q), λ q. absurd (cc (a, q))),
    λ k n. get_mr-erase_ne reg h k (λ p. n (sym p)),
  )
]
