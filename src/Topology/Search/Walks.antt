-- ===== src/Topology/Search/Walks.antt =====
-- Proofs about topology/topology.cpp: the paths that `yen_k_shortest` finds.
use cong_shed.Base.{
  ℕ, zero, suc, ◌+◌, ◌-◌, ◌*◌, ◌%◌, ◌≤◌, ◌<◌, ◌≡◌, refl, sym, ap, subst, ◌∙◌, inl, inr, true, false,
  Bool-cases, Option, some, List, [], ◌∷◌, ◌++◌, arith, word32, leb, ◌==◌, length, get_elem?, All,
  All-append,
}
use cong_shed.Base.Double.{Double, ◌≺◌, nought}
use cong_shed.Topology.{GraphEdge}
use cong_shed.Topology.Search.{
  SearchState, rounds, has_target, expand, take_cheapest, search_paths, yen_k_shortest,
}

module _ {W : Type 0} where
  -- The edges of the path lead from `u` to `v`, each from where the one before ends.
  abbrev pub IsWalk : List (GraphEdge W) → ℕ → ℕ → List ℕ → Type 0
  IsWalk edges u v [] = u ≡ v
  IsWalk edges u v (i ∷ path) =
      (e : GraphEdge W) × (get_elem? edges i ≡ some e)
      × (e.src_vertex ≡ u)
      × IsWalk edges e.dst_vertex v path

  IsWalk-on :
      (edges : List (GraphEdge W)) (u v i : ℕ) (e : GraphEdge W) (path : List ℕ)
      → IsWalk edges u v path
      → get_elem? edges i ≡ some e
      → e.src_vertex ≡ v
      → IsWalk edges u e.dst_vertex (path ++ (i ∷ []))
  IsWalk-on edges u v i e [] w g h = (e, g, h ∙ sym w, refl)
  IsWalk-on edges u v i e (j ∷ path) (x, a, b, w) g h =
      (x, a, b, IsWalk-on edges x.dst_vertex v i e path w g h)

  -- A state of the search: a walk of at most `hops` edges from the source.
  abbrev IsState : List (GraphEdge W) → ℕ → ℕ → SearchState W → Type 0
  IsState edges src hops st = IsWalk edges src st.vertex st.edge_path × (length st.edge_path ≤ hops)

  abbrev pub IsPath : List (GraphEdge W) → ℕ → ℕ → ℕ → List ℕ → Type 0
  IsPath edges src dst hops path = IsWalk edges src dst path × (length path ≤ hops)

  -- The rounds that the states can take.
  weight : ℕ → ℕ → List (SearchState W) → ℕ
  weight n hops [] = 0
  weight n hops (st ∷ pq) = rounds n (hops - length st.edge_path) + weight n hops pq

  weight-append :
      (n hops : ℕ) (xs ys : List (SearchState W))
      → weight n hops (xs ++ ys) ≡ weight n hops xs + weight n hops ys
  unfolding weight
  weight-append n hops [] ys = omega arith
  weight-append n hops (x ∷ xs) ys = omega (arith, weight-append n hops xs ys)

swapped : (a b c x y : ℕ) → a + b ≡ x + y → a + (c + b) ≡ c + (x + y)
swapped a b c x y h = omega arith

swapped' : (a b c x y : ℕ) → a + b ≡ x + y → a + (c + b) ≡ x + (c + y)
swapped' a b c x y h = omega arith

lighter : (a r x y z fuel : ℕ) → a ≡ x + y → y ≤ z → r ≡ 1 + z → r + x < suc fuel → a < fuel
lighter a r x y z fuel h i j k = omega arith

length_snoc {ℓ} :
    {A : Type ℓ} (path : List A) (i : A) → length (path ++ (i ∷ [])) ≡ suc (length path)
length_snoc [] i = refl
length_snoc (x ∷ path) i = ap suc (length_snoc path i)

module _ {W : Type 0} ⦃d : Double W⦄ where
  take_less :
      (st x : SearchState W) (xs : List (SearchState W))
      → (x.cost ≺ st.cost) ≡ true
      → take_cheapest st (x ∷ xs) ≡ ((take_cheapest x xs).0, st ∷ (take_cheapest x xs).1)
  unfolding take_cheapest
  take_less st x xs e = rw (e, take_cheapest) refl

  take_keep :
      (st x : SearchState W) (xs : List (SearchState W))
      → (x.cost ≺ st.cost) ≡ false
      → take_cheapest st (x ∷ xs) ≡ ((take_cheapest st xs).0, x ∷ (take_cheapest st xs).1)
  unfolding take_cheapest
  take_keep st x xs e = rw (e, take_cheapest) refl

  take_nil : (st : SearchState W) → take_cheapest st [] ≡ (st, [])
  unfolding take_cheapest
  take_nil st = refl

  take-All :
      (P : SearchState W → Type 0) (st : SearchState W) (pq : List (SearchState W))
      → P st
      → All P pq
      → P (take_cheapest st pq).0 × All P (take_cheapest st pq).1
  take-All P st [] p a = rw (take_nil st) (p, tt)
  take-All P st (x ∷ xs) p a = elim (Bool-cases (x.cost ≺ st.cost)) [
    | inl e ↦ rw (take_less st x xs e) (let q = take-All P x xs a.0 a.1 in (q.0, (p, q.1)))
    | inr e ↦ rw (take_keep st x xs e) (let q = take-All P st xs p a.1 in (q.0, (a.0, q.1)))
  ]

  -- The weight of a choice and of what it leaves.
  abbrev weigh : ℕ → ℕ → SearchState W × List (SearchState W) → ℕ
  weigh n hops r = rounds n (hops - length r.0.edge_path) + weight n hops r.1

  take-weight :
      (n hops : ℕ) (st : SearchState W) (pq : List (SearchState W))
      → weigh n hops (take_cheapest st pq) ≡ weight n hops (st ∷ pq)
  unfolding weight
  take-weight n hops st [] = rw (take_nil st) refl
  take-weight n hops st (x ∷ xs) = elim (Bool-cases (x.cost ≺ st.cost)) [
    | inl e ↦ ap (weigh n hops) (take_less st x xs e) ∙ swapped _ _ _ _ _ (take-weight n hops x xs)
    | inr e ↦
        ap (weigh n hops) (take_keep st x xs e) ∙ swapped' _ _ _ _ _ (take-weight n hops st xs)
  ]

  -- The edges are the ones of the graph from index `i` on.
  abbrev IsFrom : List (GraphEdge W) → ℕ → List (GraphEdge W) → Type 0
  IsFrom all i es =
      (j : ℕ) (e : GraphEdge W) → get_elem? es j ≡ some e → get_elem? all (i + j) ≡ some e

  expand-All :
      (all : List (GraphEdge W)) (src hops : ℕ) (st : SearchState W) (i : ℕ)
      (es : List (GraphEdge W))
      → IsState all src hops st
      → length st.edge_path < hops
      → i + length es ≤ word32
      → IsFrom all i es
      → All (IsState all src hops) (expand all st i es)
  unfolding expand
  expand-All all src hops st i [] w h l f = tt
  expand-All all src hops st i (e ∷ es) w h l f =
      let rest : All (IsState all src hops) (expand all st (suc i) es) =
        expand-All all src hops st (suc i) es w h (omega arith)
          (λ j x g. subst (λ q. get_elem? all q ≡ some x) (omega arith) (f (suc j) x g)) in
      elim (Bool-cases (e.src_vertex == st.vertex)) [
        | inr a ↦ rw a rest
        | inl a ↦ rw a (elim (Bool-cases (has_target all st.edge_path e.dst_vertex)) [
          | inl b ↦ rw b rest
          | inr b ↦ rw b (
            (
              IsWalk-on all src st.vertex (i % word32) e st.edge_path w.0
                  (subst (λ q. get_elem? all q ≡ some e) (omega arith) (f 0 e refl)) (ground arith),
              rw (length_snoc st.edge_path (i % word32)) h,
            ),
            rest,
          )
        ])
      ]

  expand-weight :
      (n hops : ℕ) (all : List (GraphEdge W)) (st : SearchState W) (i : ℕ) (es : List (GraphEdge W))
      → weight n hops (expand all st i es) ≤ length es * rounds n (hops - suc (length st.edge_path))
  unfolding expand weight
  expand-weight n hops all st i [] = omega arith
  expand-weight n hops all st i (e ∷ es) =
      let rest = expand-weight n hops all st (suc i) es in
      elim (Bool-cases (e.src_vertex == st.vertex)) [
        | inr a ↦ rw a (omega (arith, rest))
        | inl a ↦ rw a (elim (Bool-cases (has_target all st.edge_path e.dst_vertex)) [
          | inl b ↦ rw b (omega (arith, rest))
          | inr b ↦ rw b (rw (length_snoc st.edge_path (i % word32)) (omega (arith, rest)))
        ])
      ]

rounds_positive : (n hops : ℕ) → 0 < rounds n hops
unfolding rounds
rounds_positive n zero = omega arith
rounds_positive n (suc hops) = omega arith

begins : (n hops : ℕ) → rounds n (hops - 0) + 0 < suc (rounds n hops)
begins n hops = let e : hops - 0 ≡ hops = omega arith in omega (arith, ap (rounds n) e)

rounds_step : (n hops l : ℕ) → l < hops → rounds n (hops - l) ≡ 1 + n * rounds n (hops - suc l)
unfolding rounds
rounds_step n hops l h = let e : hops - l ≡ suc (hops - suc l) = omega arith in ap (rounds n) e

module _ {W : Type 0} ⦃d : Double W⦄ where
  -- The search ends, with at most `k` paths, each a walk from `src` to `dst` of at most `hops` edges.
  abbrev Finds : List (GraphEdge W) → ℕ → ℕ → ℕ → ℕ → Option (List (List ℕ)) → Type 0
  Finds edges src dst k hops o =
      (ps : List (List ℕ)) × (o ≡ some ps) × All (IsPath edges src dst hops) ps × (length ps ≤ k)

  search_paths-Finds :
      (fuel : ℕ) (edges : List (GraphEdge W)) (src dst k hops : ℕ) (pq : List (SearchState W))
      (found : List (List ℕ))
      → length edges ≤ word32
      → All (IsState edges src hops) pq
      → All (IsPath edges src dst hops) found
      → length found ≤ k
      → weight (length edges) hops pq < fuel
      → Finds edges src dst k hops (search_paths fuel edges dst k hops pq found)
  unfolding search_paths weight
  search_paths-Finds zero edges src dst k hops pq found w a f l m = absurd (omega arith)
  search_paths-Finds (suc fuel) edges src dst k hops [] found w a f l m = (found, refl, f, l)
  search_paths-Finds (suc fuel) edges src dst k hops (st ∷ pq) found w a f l m =
      let n = length edges in
      let r = take_cheapest st pq in
      let t : IsState edges src hops r.0 × All (IsState edges src hops) r.1 =
        take-All (IsState edges src hops) st pq a.0 a.1 in
      let m' : weigh n hops r < suc fuel = rw (take-weight n hops st pq) m in
      let pos = rounds_positive n (hops - length r.0.edge_path) in
      elim (Bool-cases (leb k (length found))) [
        | inl e ↦ rw e (found, refl, f, l)
        | inr e ↦ rw e (elim (Bool-cases (r.0.vertex == dst)) [
          | inl v ↦ rw v (
              search_paths-Finds fuel edges src dst k hops r.1 (found ++ (r.0.edge_path ∷ [])) w t.1
                (All-append (IsPath edges src dst hops) found (r.0.edge_path ∷ []) f
                  ((subst (λ u. IsWalk edges src u r.0.edge_path) (ground arith) t.0.0, t.0.1), tt))
                (rw (length_snoc found r.0.edge_path) (ground arith)) (omega (arith, m', pos)))
          | inr v ↦ rw v (elim (Bool-cases (leb hops (length r.0.edge_path))) [
            | inl h ↦ rw h (
                search_paths-Finds fuel edges src dst k hops r.1 found w t.1 f l
                  (omega (arith, m', pos)))
            | inr h ↦ rw h (
                search_paths-Finds fuel edges src dst k hops (r.1 ++ expand edges r.0 0 edges) found
                  w
                  (All-append (IsState edges src hops) r.1 (expand edges r.0 0 edges) t.1 (
                    expand-All edges src hops r.0 0 edges t.0 (ground arith) (omega arith)
                      (λ j x g. subst (λ q. get_elem? edges q ≡ some x) (omega arith) g)))
                  f l
                  (lighter _ _ _ _ _ fuel (weight-append n hops r.1 (expand edges r.0 0 edges))
                    (expand-weight n hops edges r.0 0 edges)
                    (rounds_step n hops (length r.0.edge_path) (ground arith)) m'))
          ])
        ])
      ]

  -- The fuel of `yen_k_shortest` is enough for its search to end, and what it returns are at most `k` paths,
  -- each a walk from `src` to `dst` of at most `hops` edges. The graph has at most 2 ^ 32 edges.
  pub yen_k_shortest-IsPath :
      (edges : List (GraphEdge W)) (src dst k hops : ℕ)
      → length edges ≤ word32
      → (search_paths
            (suc (rounds (length edges) hops))
            edges
            dst
            k
            hops
            (record { vertex = src; edge_path = []; cost = nought } ∷ [])
            []
          ≡ some (yen_k_shortest edges src dst k hops))
        × All (IsPath edges src dst hops) (yen_k_shortest edges src dst k hops)
        × (length (yen_k_shortest edges src dst k hops) ≤ k)
  unfolding yen_k_shortest weight
  yen_k_shortest-IsPath edges src dst k hops w =
      let start : SearchState W = record { vertex = src; edge_path = []; cost = nought } in
      let found : Finds edges src dst k hops
          (search_paths (suc (rounds (length edges) hops)) edges dst k hops (start ∷ []) []) =
        search_paths-Finds (suc (rounds (length edges) hops)) edges src dst k hops (start ∷ []) [] w
          ((refl, omega arith), tt) tt (omega arith) (begins (length edges) hops) in
      rw (found.1) (refl, found.2, found.3)
