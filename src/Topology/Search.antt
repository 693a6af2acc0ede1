-- ===== src/Topology/Search.antt =====
-- topology/topology.cpp: `yen_k_shortest`, the best-first search of paths, and `paths`, which keeps its
-- results in the cache.
pub mod Walks
use cong_shed.Base.{
  ℕ, zero, suc, ◌+◌, ◌*◌, ◌%◌, Bool, true, false, not, Option, none, some, List, [], ◌∷◌, ◌++◌,
  word32, leb, ◌==◌, if◌then◌else◌, length, get_elem?, any,
}
use cong_shed.Base.Double.{Double, ◌⊕◌, ◌⊘◌, ◌≺◌, nought}
use cong_shed.Topology.{GraphEdge, TopologyGraph, path_key, find_paths}

-- `State`
pub record SearchState (W : Type 0) : Type 0 where
  pub vertex : ℕ
  pub edge_path : List ℕ
  pub cost : W

-- The edge ends at `v`.
abbrev pub ends_at : {W : Type 0} → ℕ → Option (GraphEdge W) → Bool
ends_at v none = false
ends_at v (some e) = e.dst_vertex == v

abbrev pub or_empty : Option (List (List ℕ)) → List (List ℕ)
or_empty none = []
or_empty (some ps) = ps

-- A bound on the rounds from a state with `hops` more edges to go, in a graph of `n` edges.
unfoldable pub rounds : ℕ → ℕ → ℕ
rounds n zero = 1
rounds n (suc hops) = 1 + n * rounds n hops

module _ {W : Type 0} where
  -- An edge of the path already ends at `v`.
  unfoldable pub has_target : List (GraphEdge W) → List ℕ → ℕ → Bool
  has_target edges path v = any (λ e. ends_at v (get_elem? edges e)) path

module _ {W : Type 0} ⦃d : Double W⦄ where
  open d use {decimal}

  abbrev pub edge_cost : GraphEdge W → W
  edge_cost e = e.attrs.latency_us ⊕ decimal 1000000 0 ⊘ e.attrs.bandwidth_gbps

  -- The states that extend `st` by an edge; the list is the edges from index `i` on.
  unfoldable pub expand :
      List (GraphEdge W) → SearchState W → ℕ → List (GraphEdge W) → List (SearchState W)
  unfolding has_target
  expand all st i [] = []
  expand all st i (e ∷ es) =
      let rest = expand all st (suc i) es in
      if not (e.src_vertex == st.vertex)
      then rest
      else if has_target all st.edge_path e.dst_vertex
      then rest
      else record {
        vertex = e.dst_vertex;
        edge_path = st.edge_path ++ (i % word32 ∷ []);
        cost = st.cost ⊕ edge_cost e;
      }
        ∷ rest

  -- `pq.top()` and `pq.pop()`: takes out the first of the cheapest states.
  unfoldable pub take_cheapest :
      SearchState W → List (SearchState W) → SearchState W × List (SearchState W)
  take_cheapest st [] = (st, [])
  take_cheapest st (x ∷ xs) = elim (x.cost ≺ st.cost) [
    | true ↦ let r = take_cheapest x xs in (r.0, st ∷ r.1)
    | false ↦ let r = take_cheapest st xs in (r.0, x ∷ r.1)
  ]

  -- The `while` loop on fuel; `none` means that the fuel ran out.
  unfoldable pub search_paths :
      ℕ
      → List (GraphEdge W)
      → ℕ
      → ℕ
      → ℕ
      → List (SearchState W)
      → List (List ℕ)
      → Option (List (List ℕ))
  unfolding take_cheapest expand
  search_paths zero edges dst k hops pq found = none
  search_paths (suc fuel) edges dst k hops [] found = some found
  search_paths (suc fuel) edges dst k hops (st ∷ pq) found =
      let r = take_cheapest st pq in
      let reached = search_paths fuel edges dst k hops r.1 (found ++ (r.0.edge_path ∷ [])) in
      let dropped = search_paths fuel edges dst k hops r.1 found in
      let extended = search_paths fuel edges dst k hops (r.1 ++ expand edges r.0 0 edges) found in
      if leb k (length found)
      then some found
      else if r.0.vertex == dst
      then reached
      else if leb hops (length r.0.edge_path)
      then dropped
      else extended

  -- The fuel covers every path of at most `hops` edges.
  unfoldable pub yen_k_shortest : List (GraphEdge W) → ℕ → ℕ → ℕ → ℕ → List (List ℕ)
  unfolding search_paths rounds
  yen_k_shortest edges src dst k hops = or_empty (
      search_paths (suc (rounds (length edges) hops)) edges dst k hops
        (record { vertex = src; edge_path = []; cost = nought } ∷ []) [])

  -- The cache is filled on the first request for a pair and then read.
  unfoldable pub paths : TopologyGraph W → ℕ → ℕ → TopologyGraph W × List (List ℕ)
  unfolding path_key find_paths yen_k_shortest
  paths g src dst = elim (find_paths (path_key src dst) g.path_cache) [
    | some ps ↦ (g, ps)
    | none ↦
        let ps = yen_k_shortest g.edges src dst g.default_k g.default_max_hops in
        (record g { path_cache = (path_key src dst, ps) ∷ g.path_cache }, ps)
  ]
