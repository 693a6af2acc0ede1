-- ===== src/Topology.antt =====
-- topology/topology.hpp and topology.cpp: the latency-weighted graph of endpoints and links.
pub mod Search
pub mod Cached
pub mod Build
use cong_shed.Base.{
  ℕ, suc, ◌+◌, ◌-◌, ◌*◌, ◌%◌, ◌^◌, Option, none, some, List, [], ◌∷◌, ◌++◌, word32, ◌==◌,
  if◌then◌else◌, length,
}
use cong_shed.Base.Double.{Double, ◌⊕◌, ◌⊖◌, ◌⊗◌, ◌⊘◌, fclamp, nought, one}
use cong_shed.Model.{EndpointId, endpoint_eq, EdgeAttributes}

pub record GraphEdge (W : Type 0) : Type 0 where
  pub src_vertex : ℕ
  pub dst_vertex : ℕ
  pub attrs : EdgeAttributes W

pub record TopologyGraph (W : Type 0) : Type 0 where
  pub vertices : List EndpointId
  pub edges : List (GraphEdge W)
  -- `path_cache_`, an association list from `path_key`
  pub path_cache : List (ℕ × List (List ℕ))
  pub default_k : ℕ
  pub default_max_hops : ℕ

-- `UINT32_MAX`
abbrev pub no_vertex : ℕ
no_vertex = 2 ^ 32 - 1

unfoldable pub path_key : ℕ → ℕ → ℕ
path_key src dst = src * word32 + dst

-- The loop of `vertex_of`, from index `i` on.
unfoldable pub vertex_from : ℕ → EndpointId → List EndpointId → ℕ
unfolding endpoint_eq
vertex_from i ep [] = no_vertex
vertex_from i ep (v ∷ vs) =
    let rest = vertex_from (suc i) ep vs in if endpoint_eq v ep then i % word32 else rest

-- `path_cache_.find`
unfoldable pub find_paths : ℕ → List (ℕ × List (List ℕ)) → Option (List (List ℕ))
find_paths key [] = none
find_paths key ((k, ps) ∷ cache) =
    let rest = find_paths key cache in if k == key then some ps else rest

module _ {W : Type 0} where
  abbrev pub empty_graph : TopologyGraph W
  empty_graph = record {
    vertices = [];
    edges = [];
    path_cache = [];
    default_k = 6;
    default_max_hops = 5;
  }

  unfoldable pub add_vertex : TopologyGraph W → EndpointId → TopologyGraph W × ℕ
  add_vertex g ep =
      let vs = g.vertices ++ (ep ∷ []) in (record g { vertices = vs }, (length vs - 1) % word32)

  unfoldable pub add_edge : TopologyGraph W → ℕ → ℕ → EdgeAttributes W → TopologyGraph W × ℕ
  add_edge g src dst attrs =
      let es = g.edges ++ (record { src_vertex = src; dst_vertex = dst; attrs = attrs } ∷ []) in
      (record g { edges = es }, (length es - 1) % word32)

  unfoldable pub vertex_of : TopologyGraph W → EndpointId → ℕ
  unfolding vertex_from
  vertex_of g ep = vertex_from 0 ep g.vertices

  unfoldable pub precompute_paths : TopologyGraph W → ℕ → ℕ → TopologyGraph W
  precompute_paths g k hops = record g { default_k = k; default_max_hops = hops }

module _ {W : Type 0} ⦃d : Double W⦄ where
  open d use {decimal, of_nat, pow}

  unfoldable pub edge_latency_us : EdgeAttributes W → ℕ → W → W
  edge_latency_us attrs size utilization =
      let residual = one ⊖ fclamp utilization nought (decimal 99 2) in
      let transfer_s =
        of_nat size
        ⊘ decimal 1000000000 0
        ⊘ (attrs.bandwidth_gbps ⊗ pow residual attrs.contention_alpha) in
      attrs.latency_us ⊕ transfer_s ⊗ decimal 1000000 0
