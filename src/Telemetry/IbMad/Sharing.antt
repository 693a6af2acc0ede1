-- ===== src/Telemetry/IbMad/Sharing.antt =====
-- telemetry/ib_mad.cpp: which edges `IbMadBackend::init` gives the same client.
use Prim.Native.String.{String}
use text.Mathlib.Text.{◌==◌ as str_eq}
use text.Mathlib.TextEquality.{eq_iff}
use text.Mathlib.TextPositions.{eq_refl}
use cong_shed.Base.{
  ℕ, zero, suc, ◌<◌, ◌≡◌, ◌≢◌, refl, sym, ap, ◌∙◌, subst, ◌↔◌, Bool, not, Option, none, some, List,
  [], ◌∷◌, ◌++◌, if◌then◌else◌, if_either, option_either_eq, get_elem?, length, length-append,
  arith, Bool-cases, ◌⊎◌, inl, inr, some_inj,
}
use cong_shed.Base.Double.{Double}
use cong_shed.Model.{infiniband, fabric_eq}
use cong_shed.Telemetry.Binding.{EdgeHwBinding}
use cong_shed.Telemetry.Meter.{Files}
use cong_shed.Telemetry.IbMad.{MadLibrary, IbMadClient, init_mad_libs, open_client}
use cong_shed.Telemetry.IbMad.Backend.{
  IbMadBackend, Opening, key_of, find_key, init_edge, init_edges, ib_mad_init,
}

-- A table finds under distinct keys distinct places, all below a bound.
pub record IsTable (bound : ℕ) (t : List (String × ℕ)) : Type 0 where
  pub below : (k : String) (i : ℕ) → find_key t k ≡ some i → i < bound
  pub same : (j k : String) (i : ℕ) → find_key t j ≡ some i → find_key t k ≡ some i → j ≡ k

-- What the first finds, the second finds.
abbrev Keeps : List (String × ℕ) → List (String × ℕ) → Type 0
Keeps t u = (k : String) (i : ℕ) → find_key t k ≡ some i → find_key u k ≡ some i

no_place : (i : ℕ) → none ≢ some i
no_place i e = ground arith

-- A key in front of the others is found, and hides no other.
find_front : (t : List (String × ℕ)) (k : String) (i : ℕ) → find_key ((k, i) ∷ t) k ≡ some i
unfolding find_key
find_front t k i = rw (eq_refl k) refl

find_front_cases :
    (t : List (String × ℕ)) (k j : String) (i n : ℕ)
    → find_key ((k, n) ∷ t) j ≡ some i
    → ((k ≡ j) × (n ≡ i)) ⊎ (find_key t j ≡ some i)
unfolding find_key
find_front_cases t k j i n h = elim (Bool-cases (str_eq k j)) [
  | inl e ↦ inl (
    (eq_iff k j).0 e,
    some_inj n i (subst (λ b. (if b then some n else find_key t j) ≡ some i) e h),
  )
  | inr e ↦ inr (subst (λ b. (if b then some n else find_key t j) ≡ some i) e h)
]

Keeps-front :
    (t : List (String × ℕ)) (k : String) (n : ℕ) → find_key t k ≡ none → Keeps t ((k, n) ∷ t)
unfolding find_key
Keeps-front t k n fresh j i h = elim (Bool-cases (str_eq k j)) [
  | inl e ↦
      absurd
        (no_place i (sym fresh ∙ subst (λ x. find_key t x ≡ some i) (sym ((eq_iff k j).0 e)) h))
  | inr e ↦ rw e h
]

grown-IsTable :
    (t : List (String × ℕ)) (n m : ℕ) (k : String) → IsTable n t → n < m → IsTable m ((k, n) ∷ t)
grown-IsTable t n m k h lt = record {
  below = λ j i e. elim (find_front_cases t k j i n e) [
    | inl p ↦ subst (λ x. x < m) p.1 lt
    | inr p ↦ omega (arith, h.below j i p)
  ];
  same = λ a b i e f. elim (find_front_cases t k a i n e) [
    | inl p ↦ elim (find_front_cases t k b i n f) [
      | inl q ↦ sym p.0 ∙ q.0
      | inr q ↦ absurd (omega (arith, p.1, h.below b i q))
    ]
    | inr p ↦ elim (find_front_cases t k b i n f) [
      | inl q ↦ absurd (omega (arith, q.1, h.below a i p))
      | inr q ↦ h.same a b i p q
    ]
  ];
}

-- Each edge that has a client finds it under its key.
abbrev IsFound :
    {W : Type 0} → List (String × ℕ) → List (EdgeHwBinding W) → List (Option ℕ) → Type 0
IsFound {W} t bs cs =
    (e : ℕ) (b : EdgeHwBinding W) (i : ℕ)
    → get_elem? bs e ≡ some b
    → get_elem? cs e ≡ some (some i)
    → find_key t (key_of b) ≡ some i

IsFound-cons :
    {W : Type 0} (t : List (String × ℕ)) (b : EdgeHwBinding W) (bs : List (EdgeHwBinding W))
    (c : Option ℕ) (cs : List (Option ℕ))
    → ((i : ℕ) → c ≡ some i → find_key t (key_of b) ≡ some i)
    → IsFound t bs cs
    → IsFound t (b ∷ bs) (c ∷ cs)
IsFound-cons t b bs c cs h p zero a i e x =
    ap (λ u. find_key t (key_of u)) (sym (some_inj b a e)) ∙ h i (some_inj c (some i) x)
IsFound-cons t b bs c cs h p (suc n) a i e x = p n a i e x

module _ {W : Type 0} ⦃d : Double W⦄ where
  abbrev Fits : Opening W → Type 0
  Fits o = IsTable (length o.objects) o.shared

  -- One edge: the table still fits and keeps what it had, and a client that the edge has is found in it.
  abbrev Edge : Opening W → EdgeHwBinding W → Opening W × Option ℕ → Type 0
  Edge o b r =
      Fits r.0
      × Keeps o.shared r.0.shared
      × ((i : ℕ) → r.1 ≡ some i → find_key r.0.shared (key_of b) ≡ some i)

  init_edge-Edge :
      (l : MadLibrary) (f : Files) (o : Opening W) (b : EdgeHwBinding W)
      → Fits o
      → Edge o b (init_edge l f o b)
  unfolding init_edge
  init_edge-Edge l f o b h =
      let same : Edge o b (o, none) = (h, λ k i e. e, λ i e. absurd (no_place i e)) in
      let key = key_of b in
      let r : IbMadClient W × Bool = open_client l f (init_mad_libs l) b.ib_device b.ib_port in
      let n = length o.objects in
      if_either (Edge o b) (not (fabric_eq b.fabric infiniband)) _ _ same (
        option_either_eq (Edge o b) (find_key o.shared key) _ _
          (λ fresh.
            if_either (Edge o b) r.1 _ _
              (
                grown-IsTable o.shared n (length (o.objects ++ (r.0 ∷ []))) key h
                    (rw (length-append o.objects (r.0 ∷ [])) (omega arith)),
                Keeps-front o.shared key n fresh,
                λ i e. find_front o.shared key n ∙ e,
              )
              same)
          (λ i e. (h, λ k j x. x, λ j x. e ∙ x)))

  -- All edges: each that got a client finds it under its key.
  init_edges-table :
      (l : MadLibrary) (f : Files) (o : Opening W) (bs : List (EdgeHwBinding W))
      → Fits o
      → Fits (init_edges l f o bs).0
        × Keeps o.shared (init_edges l f o bs).0.shared
        × IsFound (init_edges l f o bs).0.shared bs (init_edges l f o bs).1
  unfolding init_edges
  init_edges-table l f o [] h = (h, λ k i e. e, λ e b i x. ground arith)
  init_edges-table l f o (b ∷ bs) h =
      let one = init_edge-Edge l f o b h in
      let r = init_edge l f o b in
      let ih = init_edges-table l f r.0 bs one.0 in
      (
        ih.0,
        λ k i e. ih.1 k i (one.1 k i e),
        IsFound-cons (init_edges l f r.0 bs).0.shared b bs r.1 (init_edges l f r.0 bs).1
            (λ i e. ih.1 (key_of b) i (one.2 i e)) ih.2,
      )

  -- Of two edges that `init` gives clients, the clients are the same object exactly where the edges' devices
  -- and ports read the same, and that object is among those opened.
  pub ib_mad_init-shares :
      (l : MadLibrary) (f : Files) (s : IbMadBackend W) (bs : List (EdgeHwBinding W)) (e g : ℕ)
      (b c : EdgeHwBinding W) (i j : ℕ)
      → get_elem? bs e ≡ some b
      → get_elem? bs g ≡ some c
      → get_elem? (ib_mad_init l f s bs).0.clients e ≡ some (some i)
      → get_elem? (ib_mad_init l f s bs).0.clients g ≡ some (some j)
      → ((key_of b ≡ key_of c) ↔ (i ≡ j)) × (i < length (ib_mad_init l f s bs).0.opened)
  unfolding ib_mad_init
  ib_mad_init-shares l f s bs e g b c i j eb ec ei ej =
      let start : Opening W = record { objects = []; shared = []; name = s.name } in
      let t = init_edges-table l f start bs (record {
        below = λ k n x. absurd (no_place n x);
        same = λ k m n x y. absurd (no_place n x);
      }) in
      let table = (init_edges l f start bs).0.shared in
      let p = t.2 e b i eb ei in
      let q = t.2 g c j ec ej in
      (
        (
          λ same. some_inj i j (sym p ∙ ap (find_key table) same ∙ q),
          λ same. t.0.same (key_of b) (key_of c) i p (q ∙ ap some (sym same)),
        ),
        t.0.below (key_of b) i p,
      )
