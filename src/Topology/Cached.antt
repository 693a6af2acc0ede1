-- ===== src/Topology/Cached.antt =====
-- topology/topology.cpp: `paths`, which keeps the paths of a pair once they were asked for.
use cong_shed.Base.{
  ℕ, ◌<◌, ◌≡◌, ◌≢◌, refl, sym, ap₂, ◌∙◌, subst, some, List, [], ◌∷◌, some_inj, ◌==◌, ==_iff,
  if◌then◌else◌, arith, Bool-cases, ◌⊎◌, inl, inr, All, word32, option_either_eq,
}
use cong_shed.Base.Double.{Double}
use cong_shed.Topology.{TopologyGraph, path_key, find_paths}
use cong_shed.Topology.Search.{paths, yen_k_shortest}

-- An entry in front answers for its own key, and leaves the others.
find_front :
    (key k : ℕ) (ps qs : List (List ℕ)) (cache : List (ℕ × List (List ℕ)))
    → find_paths key ((k, qs) ∷ cache) ≡ some ps
    → ((k ≡ key) × (qs ≡ ps)) ⊎ (find_paths key cache ≡ some ps)
unfolding find_paths
find_front key k ps qs cache h = elim (Bool-cases (k == key)) [
  | inl e ↦ inl (
    (==_iff k key).0 e,
    some_inj qs ps (subst (λ b. (if b then some qs else find_paths key cache) ≡ some ps) e h),
  )
  | inr e ↦ inr (subst (λ b. (if b then some qs else find_paths key cache) ≡ some ps) e h)
]

find_paths-[] :
    (key : ℕ) (ps : List (List ℕ)) (cache : List (ℕ × List (List ℕ)))
    → cache ≡ []
    → find_paths key cache ≢ some ps
unfolding find_paths
find_paths-[] key ps [] empty e = ground arith
find_paths-[] key ps (c ∷ cs) empty e = ground arith

-- A pair of vertex numbers.
abbrev pub IsPair : ℕ × ℕ → Type 0
IsPair p = (p.0 < word32) × (p.1 < word32)

path_key_inj :
    (s t u v : ℕ) → IsPair (s, t) → IsPair (u, v) → path_key s t ≡ path_key u v → (s ≡ u) × (t ≡ v)
unfolding path_key
path_key_inj s t u v h k e = (omega (arith, e, h.1, k.1), omega (arith, e, h.1, k.1))

module _ {W : Type 0} ⦃d : Double W⦄ where
  -- What the search finds now.
  abbrev pub searched : TopologyGraph W → ℕ → ℕ → List (List ℕ)
  searched g s t = yen_k_shortest g.edges s t g.default_k g.default_max_hops

  pub queries : List (ℕ × ℕ) → TopologyGraph W → TopologyGraph W
  queries [] g = g
  queries (p ∷ ps) g = queries ps (paths g p.0 p.1).0

  -- Every pair that the cache has, it has with what the search finds.
  abbrev Agrees : TopologyGraph W → Type 0
  Agrees g =
      (s t : ℕ) (ps : List (List ℕ))
      → IsPair (s, t)
      → find_paths (path_key s t) g.path_cache ≡ some ps
      → ps ≡ searched g s t

  -- A query leaves the graph but for the cache, keeps that the cache agrees, and answers as the search does.
  abbrev Answers : TopologyGraph W → ℕ → ℕ → TopologyGraph W × List (List ℕ) → Type 0
  Answers g s t r =
      Agrees r.0 × ((u v : ℕ) → searched r.0 u v ≡ searched g u v) × (r.1 ≡ searched g s t)

  paths-Answers :
      (g : TopologyGraph W) (s t : ℕ) → IsPair (s, t) → Agrees g → Answers g s t (paths g s t)
  unfolding paths
  paths-Answers g s t pair h =
      option_either_eq (Answers g s t) (find_paths (path_key s t) g.path_cache) _ _
        (λ missing. (
          λ u v ps uv e.
              elim (find_front (path_key u v) (path_key s t) ps (searched g s t) g.path_cache e) [
                | inl new ↦
                    let same = path_key_inj s t u v pair uv new.0 in
                    sym new.1 ∙ ap₂ (searched g) same.0 same.1
                | inr old ↦ h u v ps uv old
              ],
          λ u v. refl,
          refl,
        ))
        (λ ps found. (h, λ u v. refl, h s t ps pair found))

  queries-Answers :
      (ps : List (ℕ × ℕ)) (g : TopologyGraph W)
      → All IsPair ps
      → Agrees g
      → Agrees (queries ps g) × ((u v : ℕ) → searched (queries ps g) u v ≡ searched g u v)
  unfolding queries
  queries-Answers [] g ok h = (h, λ u v. refl)
  queries-Answers (p ∷ ps) g ok h =
      let one = paths-Answers g p.0 p.1 ok.0 h in
      let rest = queries-Answers ps (paths g p.0 p.1).0 ok.1 one.0 in
      (rest.0, λ u v. rest.1 u v ∙ one.1 u v)

  -- With an empty cache at first, and after any queries of pairs of 32-bit vertex numbers, a query gives just
  -- the paths that the search finds in the graph.
  pub paths-yen_k_shortest :
      (g : TopologyGraph W) (ps : List (ℕ × ℕ)) (s t : ℕ)
      → g.path_cache ≡ []
      → All IsPair ps
      → IsPair (s, t)
      → (paths (queries ps g) s t).1 ≡ yen_k_shortest g.edges s t g.default_k g.default_max_hops
  paths-yen_k_shortest g ps s t empty ok pair =
      let fresh : Agrees g =
        λ u v qs uv e. absurd (find_paths-[] (path_key u v) qs g.path_cache empty e) in
      let after = queries-Answers ps g ok fresh in
      (paths-Answers (queries ps g) s t pair after.0).2 ∙ after.1 s t
