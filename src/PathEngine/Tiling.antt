-- ===== src/PathEngine/Tiling.antt =====
-- Proofs about path_engine/path_engine.cpp: the chunks of `stripe_kv_migration`.
use cong_shed.Base.{
  ℕ, zero, suc, ◌+◌, ◌-◌, ◌*◌, ◌/◌, ◌≤◌, ◌<◌, min, List, [], ◌∷◌, arith, word64, word32, add64,
  add32, ◌==◌, if◌then◌else◌, get_or, is_empty, ◌≡◌, refl, ◌⊎◌, inl, inr, true, false, Bool-cases,
}
use native.Mathlib.Nat.{div-add-mod, mod-lt, mul_comm}
use cong_shed.Base.Double.{Double}
use cong_shed.Model.{kv_chunk_bytes, TransferRequest, PathCost}
use cong_shed.Topology.{vertex_of}
use cong_shed.PathEngine.{ChunkDispatch, PathSelectionEngine, flexibility_set, no_path}
use cong_shed.PathEngine.Choice.{Among, IsChoice, cheapest-IsChoice}
use cong_shed.PathEngine.Stripe.{
  stripe_cost, heat_edges, stripe_path, stripe_from, stripe_kv_migration,
}

-- The dispatches are chunks `seq`, `seq + 1` and so on, one after another from byte `off` on; none is
-- empty or larger than `chunk`, together they are `left` bytes, and each is on one of the paths.
abbrev pub Tiles : List (List ℕ) → ℕ → ℕ → ℕ → ℕ → List ChunkDispatch → Type 0
Tiles candidates chunk seq off left [] = left ≡ 0
Tiles candidates chunk seq off left (x ∷ xs) =
    (x.chunk_seq ≡ seq)
    × (x.byte_offset ≡ off)
    × (0 < x.chunk_size)
    × (x.chunk_size ≤ chunk)
    × (x.chunk_size ≤ left)
    × Among x.edge_indices candidates
    × Tiles candidates chunk (seq + 1) (off + x.chunk_size) (left - x.chunk_size) xs

first-Among : (ps : List (List ℕ)) → is_empty ps ≡ false → Among (get_or ps 0 []) ps
first-Among [] h = absurd (cc h)
first-Among (p ∷ ps) h = inl refl

add32_lem : (a b : ℕ) → a + b < word32 → add32 a b ≡ a + b
add32_lem a b h = omega arith

add64_lem : (a b : ℕ) → a + b < word64 → add64 a b ≡ a + b
add64_lem a b h = omega arith

-- One chunk less is one round less.
left_after : (fuel chunk left : ℕ) → left ≤ suc fuel * chunk → left - min left chunk ≤ fuel * chunk
left_after fuel chunk left h = omega arith

enough : (n chunk : ℕ) → 0 < chunk → n ≤ suc (n / chunk + 1) * chunk
enough n chunk h = omega (arith, div-add-mod n chunk, mod-lt n h, mul_comm chunk (n / chunk))

-- The chunk size, with 0 for the default.
abbrev pub chunk_of : ℕ → ℕ
chunk_of size = if size == 0 then kv_chunk_bytes else size

chunk_of-positive : (size : ℕ) → 0 < chunk_of size
chunk_of-positive size = ground arith

-- The dispatches tile the migration, or there is no candidate and no dispatch.
abbrev pub Migrated : List (List ℕ) → ℕ → ℕ → List ChunkDispatch → Type 0
Migrated candidates chunk size xs =
    ((is_empty candidates ≡ true) × (xs ≡ []))
    ⊎ ((is_empty candidates ≡ false) × Tiles candidates chunk 0 0 size xs)

module _ {W : Type 0} ⦃d : Double W⦄ where
  open d use {narrow, decimal}

  pick-Among :
      (cost : List ℕ → W) (c : PathCost W) (ps : List (List ℕ))
      → is_empty ps ≡ false
      → IsChoice cost no_path ps c
      → Among (if is_empty c.edge_indices then get_or ps 0 [] else c.edge_indices) ps
  pick-Among cost c ps h (inl e) = rw e (first-Among ps h)
  pick-Among cost c ps h (inr (a, k)) = elim (Bool-cases (is_empty c.edge_indices)) [
    | inl e ↦ rw e (first-Among ps h)
    | inr e ↦ rw e a
  ]

  stripe_path-Among :
      (e : PathSelectionEngine W) (current : List W) (size : ℕ) (dur_ms : W) (seq : ℕ)
      (ps : List (List ℕ))
      → is_empty ps ≡ false
      → Among (stripe_path e current size dur_ms seq ps) ps
  unfolding stripe_path
  stripe_path-Among e current size dur_ms seq ps h =
      pick-Among (stripe_cost e current size dur_ms seq) _ ps h
        (cheapest-IsChoice (stripe_cost e current size dur_ms seq) no_path ps)

  stripe_from-Tiles :
      (fuel : ℕ) (e : PathSelectionEngine W) (current : List W) (chunk : ℕ) (dur_ms : W)
      (ps : List (List ℕ)) (seq off left : ℕ)
      → is_empty ps ≡ false
      → 0 < chunk
      → left ≤ fuel * chunk
      → seq + fuel < word32
      → off + left < word64
      → Tiles ps chunk seq off left (stripe_from fuel e current chunk dur_ms ps seq off left).1
  unfolding stripe_from
  stripe_from-Tiles zero e current chunk dur_ms ps seq off left he hc hl hs ho = omega arith
  stripe_from-Tiles (suc fuel) e current chunk dur_ms ps seq off left he hc hl hs ho =
      elim (Bool-cases (left == 0)) [
        | inl z ↦ rw z (ground arith)
        | inr z ↦
            let n = min left chunk in
            let e' = record e {
              utils =
                  heat_edges (narrow (decimal 5 2)) (stripe_path e current n dur_ms seq ps) e.utils;
            } in
            rw z (
              refl,
              refl,
              ground arith,
              omega arith,
              omega arith,
              stripe_path-Among e current n dur_ms seq ps he,
              rw (add32_lem seq 1 (omega arith), add64_lem off n (omega arith))
                  (stripe_from-Tiles fuel e' current chunk dur_ms ps (seq + 1) (off + n) (left - n)
                    he hc (left_after fuel chunk left hl) (omega arith) (omega arith)),
            )
      ]

  -- Where there is a candidate path, the dispatches of `stripe_kv_migration` are chunks 0, 1, 2 and so on, none
  -- empty or larger than the chunk size, that lie end to end from byte 0 on and add up to `size_bytes`, each on
  -- a candidate path. Where there is no candidate, there are no dispatches. A chunk size of 0 stands for the
  -- default. The size is a `uint64_t` of fewer chunks than `uint32_t` counts.
  pub stripe_kv_migration-Tiles :
      (e : PathSelectionEngine W) (req : TransferRequest W) (current : List W) (size : ℕ)
      → req.size_bytes < word64
      → req.size_bytes / chunk_of size + 2 < word32
      → Migrated
          (flexibility_set e.graph
            (vertex_of e.graph req.source)
            (vertex_of e.graph req.dest)
            req.traffic_class).1
          (chunk_of size)
          req.size_bytes
          (stripe_kv_migration e req current size).1
  unfolding stripe_kv_migration
  stripe_kv_migration-Tiles e req current size hs hn =
      let found =
        flexibility_set e.graph (vertex_of e.graph req.source) (vertex_of e.graph req.dest)
          req.traffic_class in
      elim (Bool-cases (is_empty found.1)) [
        | inl k ↦ rw k (inl (refl, refl))
        | inr k ↦ rw k (
            inr (
              refl,
              stripe_from-Tiles _ _ current (chunk_of size) _ found.1 0 0 req.size_bytes k
                  (chunk_of-positive size)
                  (enough req.size_bytes (chunk_of size) (chunk_of-positive size)) (omega arith)
                  (omega arith),
            ))
      ]
