-- ===== src/PathEngine/Choice.antt =====
-- Proofs about path_engine/path_engine.cpp: the choice of a path and `flexibility_set`.
use cong_shed.Base.{
  ℕ, ◌≡◌, refl, sym, ap, subst, ◌≢◌, ◌⊎◌, inl, inr, Bool, true, false, ◌&&◌, some, List, [], ◌∷◌,
  arith, Bool-cases, Option-cases, get_elem?, All, keep, is_empty,
}
use cong_shed.Base.Double.{Double, ◌≺◌, IsOrdered}
use cong_shed.Model.{
  FabricType, nvlink, pcie, infiniband, TrafficClass, tensor_parallel, pipeline_parallel,
  kv_migration, fabric_eq, class_eq, PathCost,
}
use cong_shed.Topology.{GraphEdge, TopologyGraph}
use cong_shed.Topology.Search.{paths}
use cong_shed.PathEngine.{flexibility_set, cheapest}
use cong_shed.PathEngine.{path_admits, admits}

-- The path is one of the list.
abbrev pub Among : List ℕ → List (List ℕ) → Type 0
Among p [] = ⊥
Among p (q ∷ qs) = (p ≡ q) ⊎ Among p qs

All-keep :
    {A : Type 0} (P : A → Type 0) (t : A → Bool) (xs : List A)
    → ((x : A) → t x ≡ true → P x)
    → All P (keep t xs)
All-keep P t [] h = tt
All-keep P t (x ∷ xs) h = elim (Bool-cases (t x)) [
  | inl e ↦ rw e (h x e, All-keep P t xs h)
  | inr e ↦ rw e (All-keep P t xs h)
]

-- An empty filter refuses every element.
keep_none :
    {A : Type 0} (t : A → Bool) (xs : List A)
    → is_empty (keep t xs) ≡ true
    → All (λ x. t x ≡ false) xs
keep_none t [] h = tt
keep_none t (x ∷ xs) h = elim (Bool-cases (t x)) [
  | inl e ↦ absurd (let h' = rw e at h in cc h')
  | inr e ↦ (e, keep_none t xs (rw e at h))
]

-- The fabrics that a class may use, in words.
abbrev pub MayUse : TrafficClass → FabricType → Type 0
MayUse tensor_parallel f = (f ≡ nvlink) ⊎ (f ≡ infiniband)
MayUse pipeline_parallel f = Unit
MayUse kv_migration f = f ≢ pcie

admits_sound : (cls : TrafficClass) (f : FabricType) → admits cls f ≡ true → MayUse cls f
unfolding admits
admits_sound tensor_parallel f h = ground arith
admits_sound pipeline_parallel f h = tt
admits_sound kv_migration f h = ground arith

All-map_all :
    {P Q : List ℕ → Type 0} (ps : List (List ℕ)) → ((p : List ℕ) → P p → Q p) → All P ps → All Q ps
All-map_all [] h a = tt
All-map_all (p ∷ ps) h a = (h p a.0, All-map_all ps h a.1)

module _ {W : Type 0} where
  -- Every edge of the path that is in the graph is of a fabric that the class may use.
  abbrev pub KeepsTo : TrafficClass → List (GraphEdge W) → List ℕ → Type 0
  KeepsTo cls edges path =
      All (λ e. (x : GraphEdge W) → get_elem? edges e ≡ some x → MayUse cls x.attrs.fabric) path

  -- Some edge of the path is PCIe.
  abbrev pub TouchesPcie : List (GraphEdge W) → List ℕ → Type 0
  TouchesPcie edges [] = ⊥
  TouchesPcie edges (e ∷ path) =
      ((x : GraphEdge W) × (get_elem? edges e ≡ some x) × (x.attrs.fabric ≡ pcie))
      ⊎ TouchesPcie edges path

  path_admits_sound :
      (cls : TrafficClass) (edges : List (GraphEdge W)) (path : List ℕ)
      → path_admits cls edges path ≡ true
      → KeepsTo cls edges path
  unfolding path_admits
  path_admits_sound cls edges [] h = tt
  path_admits_sound cls edges (e ∷ path) h = (
    (λ x k. admits_sound cls x.attrs.fabric (ground arith)),
    path_admits_sound cls edges path (ground arith),
  )

  path_refused :
      (edges : List (GraphEdge W)) (path : List ℕ)
      → path_admits kv_migration edges path ≡ false
      → TouchesPcie edges path
  unfolding path_admits admits
  path_refused edges [] h = absurd (cc h)
  path_refused edges (e ∷ path) h = elim (Option-cases (get_elem? edges e)) [
    | inl k ↦ inr (path_refused edges path (ground arith))
    | inr (x, k) ↦ elim (Bool-cases (fabric_eq x.attrs.fabric pcie)) [
      | inl p ↦ inl (x, k, ground arith)
      | inr p ↦ inr (path_refused edges path (ground arith))
    ]
  ]

module _ {W : Type 0} ⦃d : Double W⦄ where
  -- Every path offered keeps to the fabrics of its traffic class, except where a migration has no other
  -- path: then all the paths are offered, and each of them crosses PCIe.
  pub flexibility_set-KeepsTo :
      (g : TopologyGraph W) (src dst : ℕ) (cls : TrafficClass)
      → All (KeepsTo cls g.edges) (flexibility_set g src dst cls).1
        ⊎ ((cls ≡ kv_migration)
            × ((flexibility_set g src dst cls).1 ≡ (paths g src dst).1)
            × All (TouchesPcie g.edges) (paths g src dst).1)
  unfolding flexibility_set
  flexibility_set-KeepsTo g src dst cls =
      let all = (paths g src dst).1 in
      let kept = keep (path_admits cls g.edges) all in
      elim (Bool-cases (is_empty kept && class_eq cls kv_migration)) [
        | inr e ↦ rw e (
            inl (
              All-keep (KeepsTo cls g.edges) (path_admits cls g.edges) all
                (path_admits_sound cls g.edges)))
        | inl e ↦
            let k : cls ≡ kv_migration = ground arith in
            rw e (
              inr (
                k,
                refl,
                All-map_all all (path_refused g.edges)
                    (keep_none (path_admits kv_migration g.edges) all (ground (arith, k))),
              ))
      ]

  cheapest_nil : (cost : List ℕ → W) (best : PathCost W) → cheapest cost best [] ≡ best
  unfolding cheapest
  cheapest_nil cost best = refl

  cheapest_less :
      (cost : List ℕ → W) (best : PathCost W) (p : List ℕ) (ps : List (List ℕ))
      → (cost p ≺ best.latency_us) ≡ true
      → cheapest cost best (p ∷ ps)
        ≡ cheapest cost (record { edge_indices = p; latency_us = cost p }) ps
  unfolding cheapest
  cheapest_less cost best p ps e = rw e refl

  cheapest_keep :
      (cost : List ℕ → W) (best : PathCost W) (p : List ℕ) (ps : List (List ℕ))
      → (cost p ≺ best.latency_us) ≡ false
      → cheapest cost best (p ∷ ps) ≡ cheapest cost best ps
  unfolding cheapest
  cheapest_keep cost best p ps e = rw e refl

  -- `c` is the start or a path of the list at its cost.
  abbrev pub IsChoice : (List ℕ → W) → PathCost W → List (List ℕ) → PathCost W → Type 0
  IsChoice cost best ps c =
      (c ≡ best) ⊎ (Among c.edge_indices ps × (c.latency_us ≡ cost c.edge_indices))

  widen :
      (cost : List ℕ → W) (best : PathCost W) (p : List ℕ) (ps : List (List ℕ)) (c : PathCost W)
      → IsChoice cost best ps c
      → IsChoice cost best (p ∷ ps) c
  widen cost best p ps c (inl h) = inl h
  widen cost best p ps c (inr (a, k)) = inr (inr a, k)

  widen_new :
      (cost : List ℕ → W) (best : PathCost W) (p : List ℕ) (ps : List (List ℕ)) (c : PathCost W)
      → IsChoice cost (record { edge_indices = p; latency_us = cost p }) ps c
      → IsChoice cost best (p ∷ ps) c
  widen_new cost best p ps c (inl h) = rw h (inr (inl refl, refl))
  widen_new cost best p ps c (inr (a, k)) = inr (inr a, k)

  pub cheapest-IsChoice :
      (cost : List ℕ → W) (best : PathCost W) (ps : List (List ℕ))
      → IsChoice cost best ps (cheapest cost best ps)
  cheapest-IsChoice cost best [] = inl (cheapest_nil cost best)
  cheapest-IsChoice cost best (p ∷ ps) = elim (Bool-cases (cost p ≺ best.latency_us)) [
    | inl e ↦ subst (IsChoice cost best (p ∷ ps)) (sym (cheapest_less cost best p ps e)) (
        widen_new cost best p ps _
          (cheapest-IsChoice cost (record { edge_indices = p; latency_us = cost p }) ps))
    | inr e ↦
        subst (IsChoice cost best (p ∷ ps)) (sym (cheapest_keep cost best p ps e))
          (widen cost best p ps _ (cheapest-IsChoice cost best ps))
  ]

  -- `c` is the start and no path costs less, or it is a path of the list at a cost below that of the start.
  abbrev pub IsBelow : (List ℕ → W) → PathCost W → List (List ℕ) → PathCost W → Type 0
  IsBelow cost best ps c =
      ((c ≡ best) × All (λ p. (cost p ≺ best.latency_us) ≡ false) ps)
      ⊎ (Among c.edge_indices ps
          × (c.latency_us ≡ cost c.edge_indices)
          × ((c.latency_us ≺ best.latency_us) ≡ true))

  module _ (order : IsOrdered W) where
    open order use {lt_irrefl, lt_trans}

    -- The cost only falls.
    cheapest_falls :
        (cost : List ℕ → W) (best : PathCost W) (ps : List (List ℕ))
        → ((cheapest cost best ps).latency_us ≡ best.latency_us)
          ⊎ (((cheapest cost best ps).latency_us ≺ best.latency_us) ≡ true)
    cheapest_falls cost best [] =
        inl (ap (λ (c : PathCost W). c.latency_us) (cheapest_nil cost best))
    cheapest_falls cost best (p ∷ ps) = elim (Bool-cases (cost p ≺ best.latency_us)) [
      | inl e ↦
          rw (cheapest_less cost best p ps e)
            (elim (cheapest_falls cost (record { edge_indices = p; latency_us = cost p }) ps) [
              | inl h ↦ inr (rw h e)
              | inr h ↦ inr (lt_trans _ (cost p) best.latency_us h e)
            ])
      | inr e ↦ rw (cheapest_keep cost best p ps e) (cheapest_falls cost best ps)
    ]

    below_nothing : (a b c : W) → (c ≡ b) ⊎ ((c ≺ b) ≡ true) → (a ≺ b) ≡ false → (a ≺ c) ≡ false
    below_nothing a b c (inl h) k = rw h k
    below_nothing a b c (inr h) k = elim (Bool-cases (a ≺ c)) [
      | inr e ↦ e
      | inl e ↦ absurd (let q = lt_trans a c b e h in cc (q, k))
    ]

    -- No path of the list costs less than the result.
    pub cheapest-le :
        (cost : List ℕ → W) (best : PathCost W) (ps : List (List ℕ))
        → All (λ p. (cost p ≺ (cheapest cost best ps).latency_us) ≡ false) ps
    cheapest-le cost best [] = tt
    cheapest-le cost best (p ∷ ps) = elim (Bool-cases (cost p ≺ best.latency_us)) [
      | inl e ↦
          subst (λ (c : PathCost W). All (λ q. (cost q ≺ c.latency_us) ≡ false) (p ∷ ps))
            (sym (cheapest_less cost best p ps e))
            (
              (below_nothing (cost p) (cost p) _
                  (cheapest_falls cost (record { edge_indices = p; latency_us = cost p }) ps)
                  (lt_irrefl (cost p))),
              cheapest-le cost (record { edge_indices = p; latency_us = cost p }) ps,
            )
      | inr e ↦
          subst (λ (c : PathCost W). All (λ q. (cost q ≺ c.latency_us) ≡ false) (p ∷ ps))
            (sym (cheapest_keep cost best p ps e))
            (
              (below_nothing (cost p) best.latency_us _ (cheapest_falls cost best ps) e),
              cheapest-le cost best ps,
            )
    ]

    IsBelow-less :
        (cost : List ℕ → W) (best : PathCost W) (p : List ℕ) (ps : List (List ℕ)) (c : PathCost W)
        → (cost p ≺ best.latency_us) ≡ true
        → IsBelow cost (record { edge_indices = p; latency_us = cost p }) ps c
        → IsBelow cost best (p ∷ ps) c
    IsBelow-less cost best p ps c e (inl (q, a)) = rw q (inr (inl refl, refl, e))
    IsBelow-less cost best p ps c e (inr (a, k, l)) =
        inr (inr a, k, lt_trans _ (cost p) best.latency_us l e)

    IsBelow-keep :
        (cost : List ℕ → W) (best : PathCost W) (p : List ℕ) (ps : List (List ℕ)) (c : PathCost W)
        → (cost p ≺ best.latency_us) ≡ false
        → IsBelow cost best ps c
        → IsBelow cost best (p ∷ ps) c
    IsBelow-keep cost best p ps c e (inl (q, a)) = inl (q, (e, a))
    IsBelow-keep cost best p ps c e (inr (a, k, l)) = inr (inr a, k, l)

    -- The choice is the start, and no path costs less; or it is a path of the list at its cost, which is less
    -- than that of the start.
    pub cheapest-IsBelow :
        (cost : List ℕ → W) (best : PathCost W) (ps : List (List ℕ))
        → IsBelow cost best ps (cheapest cost best ps)
    cheapest-IsBelow cost best [] = inl (cheapest_nil cost best, tt)
    cheapest-IsBelow cost best (p ∷ ps) = elim (Bool-cases (cost p ≺ best.latency_us)) [
      | inl e ↦ subst (IsBelow cost best (p ∷ ps)) (sym (cheapest_less cost best p ps e)) (
          IsBelow-less cost best p ps _ e
            (cheapest-IsBelow cost (record { edge_indices = p; latency_us = cost p }) ps))
      | inr e ↦
          subst (IsBelow cost best (p ∷ ps)) (sym (cheapest_keep cost best p ps e))
            (IsBelow-keep cost best p ps _ e (cheapest-IsBelow cost best ps))
    ]
