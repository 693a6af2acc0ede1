-- ===== src/Topology/Build.antt =====
-- topology/topology.cpp: `build_h100_node` and `build_cluster`.
use cong_shed.Base.{
  ℕ, suc, ◌+◌, ◌%◌, not, List, [], ◌∷◌, word32, add32, ◌==◌, if◌then◌else◌, length, range,
}
use cong_shed.Base.Int.{pos, negsuc}
use cong_shed.Base.Double.{Double}
use cong_shed.Model.{
  nvlink, pcie, cxl, infiniband, gpu, cpu, cxl_controller, ib_port, EndpointId, EdgeAttributes,
  default_fabric_attrs,
}
use cong_shed.Topology.{GraphEdge, TopologyGraph, empty_graph, add_vertex, add_edge}

-- Adds a vertex for each GPU from `i` on; the list holds the ids.
unfoldable pub add_gpus : {W : Type 0} → TopologyGraph W → ℕ → List ℕ → TopologyGraph W × List ℕ
unfolding add_vertex
add_gpus g node [] = (g, [])
add_gpus g node (i ∷ is) =
    let r = add_vertex g (record { node_id = node; local_id = i; kind = gpu }) in
    let rest = add_gpus r.0 node is in (rest.0, r.1 ∷ rest.1)

module _ {W : Type 0} where
  -- Edges one way, and both ways.
  unfoldable pub link : ℕ → ℕ → EdgeAttributes W → TopologyGraph W → TopologyGraph W
  unfolding add_edge
  link a b attrs g = (add_edge g a b attrs).0

  unfoldable pub link_both : ℕ → ℕ → EdgeAttributes W → TopologyGraph W → TopologyGraph W
  unfolding link
  link_both a b attrs g = link b a attrs (link a b attrs g)

  -- NVLink from GPU `i`, the vertex `a`, to each other GPU from `j` on.
  unfoldable pub mesh_row :
      EdgeAttributes W → ℕ → ℕ → ℕ → List ℕ → TopologyGraph W → TopologyGraph W
  unfolding link
  mesh_row attrs i a j [] g = g
  mesh_row attrs i a j (b ∷ bs) g =
      mesh_row attrs i a (suc j) bs (if not (i == j) then link a b attrs g else g)

  unfoldable pub mesh : EdgeAttributes W → List ℕ → ℕ → List ℕ → TopologyGraph W → TopologyGraph W
  unfolding mesh_row
  mesh attrs gpus i [] g = g
  mesh attrs gpus i (a ∷ rest) g = mesh attrs gpus (suc i) rest (mesh_row attrs i a 0 gpus g)

module _ {W : Type 0} ⦃d : Double W⦄ where
  -- The links of each GPU to the CPU, the CXL controller and the two rails.
  unfoldable pub attach : ℕ → ℕ → ℕ → ℕ → List ℕ → TopologyGraph W → TopologyGraph W
  unfolding link_both default_fabric_attrs
  attach host ctl ib0 ib1 [] g = g
  attach host ctl ib0 ib1 (gv ∷ gvs) g = attach host ctl ib0 ib1 gvs (
      link_both gv ib1 (default_fabric_attrs infiniband (pos 1)) (
        link_both gv ib0 (default_fabric_attrs infiniband (pos 0)) (
          link_both gv ctl (default_fabric_attrs cxl (negsuc 0))
            (link_both gv host (default_fabric_attrs pcie (negsuc 0)) g))))

  unfoldable pub build_h100_node : ℕ → ℕ → TopologyGraph W
  unfolding add_gpus add_vertex mesh attach link_both default_fabric_attrs
  build_h100_node node n =
      let gpus = add_gpus empty_graph node (range n) in
      let host = add_vertex gpus.0 (record { node_id = node; local_id = 0; kind = cpu }) in
      let ctl =
        add_vertex host.0 (record { node_id = node; local_id = 0; kind = cxl_controller }) in
      let ib0 = add_vertex ctl.0 (record { node_id = node; local_id = 0; kind = ib_port }) in
      let ib1 = add_vertex ib0.0 (record { node_id = node; local_id = 1; kind = ib_port }) in
      let pcie_attrs = default_fabric_attrs pcie (negsuc 0) in
      let meshed = mesh (default_fabric_attrs nvlink (negsuc 0)) gpus.1 0 gpus.1 ib1.0 in
      let attached = attach host.1 ctl.1 ib0.1 ib1.1 gpus.1 meshed in
      link_both host.1 ib1.1 pcie_attrs (link_both host.1 ib0.1 pcie_attrs attached)

  unfoldable pub copy_vertices : List EndpointId → TopologyGraph W → TopologyGraph W
  unfolding add_vertex
  copy_vertices [] g = g
  copy_vertices (v ∷ vs) g = copy_vertices vs (add_vertex g v).0

  unfoldable pub copy_edges : ℕ → List (GraphEdge W) → TopologyGraph W → TopologyGraph W
  unfolding link
  copy_edges base [] g = g
  copy_edges base (e ∷ es) g =
      copy_edges base es (link (add32 e.src_vertex base) (add32 e.dst_vertex base) e.attrs g)

  -- The nodes in turn, with the ids of their two IB ports.
  unfoldable pub add_nodes : ℕ → List ℕ → TopologyGraph W → TopologyGraph W × List (ℕ × ℕ)
  unfolding build_h100_node copy_vertices copy_edges
  add_nodes gpus [] g = (g, [])
  add_nodes gpus (n ∷ ns) g =
      let node : TopologyGraph W = build_h100_node n gpus in
      let base = length g.vertices % word32 in
      let copied = copy_edges base node.edges (copy_vertices node.vertices g) in
      let rest = add_nodes gpus ns copied in
      (rest.0, (add32 base (gpus + 2), add32 base (gpus + 3)) ∷ rest.1)

  -- Rail to rail, from a node to each later one.
  unfoldable pub join_later : ℕ → ℕ → List (ℕ × ℕ) → TopologyGraph W → TopologyGraph W
  unfolding link_both default_fabric_attrs
  join_later ib0 ib1 [] g = g
  join_later ib0 ib1 ((jb0, jb1) ∷ rest) g = join_later ib0 ib1 rest (
      link_both ib1 jb1 (default_fabric_attrs infiniband (pos 1))
        (link_both ib0 jb0 (default_fabric_attrs infiniband (pos 0)) g))

  unfoldable pub join_nodes : List (ℕ × ℕ) → TopologyGraph W → TopologyGraph W
  unfolding join_later
  join_nodes [] g = g
  join_nodes ((ib0, ib1) ∷ rest) g = join_nodes rest (join_later ib0 ib1 rest g)

  unfoldable pub build_cluster : ℕ → ℕ → TopologyGraph W
  unfolding add_nodes join_nodes
  build_cluster nodes gpus = let r = add_nodes gpus (range nodes) empty_graph in join_nodes r.1 r.0
