-- ===== src/PathEngine/Handover.antt =====
-- Proofs about path_engine/path_engine.cpp and transfer/transfer_executor.cpp: from
-- `stripe_kv_migration` to `submit_striped`.
use cong_shed.Base.{
  sym, subst, ◌⊎◌, word32, ◌/◌, some, true, ℕ, ◌+◌, ◌-◌, ◌<◌, ◌≡◌, refl, inl, inr, Option, List, [],
  ◌∷◌, map, arith, word64, All,
}
use cong_shed.Base.Double.{Double}
use cong_shed.Model.{TransferRequest, kv_chunk_bytes}
use cong_shed.Topology.{GraphEdge}
use cong_shed.Transfer.State.{
  ChunkPath, ChunkProgress, TransferProgress, SubmitOptions, RailFlags, all_free, TransferExecutor,
}
use cong_shed.Transfer.Submit.{submit, submit_striped, striped_chunks}
use cong_shed.Transfer.Sound.{striped-IsBounded}
use cong_shed.Transfer.Steps.{AreWords}
use cong_shed.Transfer.Work.{IsRunning, IsMoving, total_size}
use cong_shed.PathEngine.{ChunkDispatch, PathSelectionEngine}
use cong_shed.PathEngine.Select.{register_kv_flow}
use cong_shed.PathEngine.Stripe.{stripe_kv_migration}
use cong_shed.PathEngine.Schedule.{chunk_path, is_striped, submit_chunks, schedule_and_execute}
use cong_shed.PathEngine.Tiling.{Tiles, Migrated, stripe_kv_migration-Tiles}

module _ (candidates : List (List ℕ)) (chunk : ℕ) where
  Tiles-AreWords :
      (xs : List ChunkDispatch) (seq off left : ℕ)
      → left < word64
      → Tiles candidates chunk seq off left xs
      → AreWords (map chunk_path xs)
  Tiles-AreWords [] seq off left h t = tt
  Tiles-AreWords (x ∷ xs) seq off left h (_, _, _, _, s, _, t) = (
    omega arith,
    Tiles-AreWords xs (seq + 1) (off + x.chunk_size) (left - x.chunk_size) (omega arith) t,
  )

  Tiles-total_size :
      {W : Type 0} (g : Option (List (GraphEdge W))) (xs : List ChunkDispatch) (offset : ℕ)
      (busy : RailFlags) (seq off left : ℕ)
      → Tiles candidates chunk seq off left xs
      → total_size (striped_chunks g offset busy (map chunk_path xs)) ≡ left
  unfolding striped_chunks
  Tiles-total_size g [] offset busy seq off left t = omega arith
  Tiles-total_size g (x ∷ xs) offset busy seq off left (_, _, _, _, s, _, t) =
      omega
        (arith, Tiles-total_size g xs _ _ (seq + 1) (off + x.chunk_size) (left - x.chunk_size) t)

-- The chunks of a transfer are the dispatches, in their order: number, edges, place and size.
abbrev pub AreCarried : List ChunkDispatch → List ChunkProgress → Type 0
AreCarried [] [] = Unit
AreCarried [] (ch ∷ chs) = ⊥
AreCarried (x ∷ xs) [] = ⊥
AreCarried (x ∷ xs) (ch ∷ chs) =
    (ch.chunk_seq ≡ x.chunk_seq)
    × (ch.edge_indices ≡ x.edge_indices)
    × (ch.byte_offset ≡ x.byte_offset)
    × (ch.chunk_size ≡ x.chunk_size)
    × AreCarried xs chs

striped-AreCarried :
    {W : Type 0} (g : Option (List (GraphEdge W))) (candidates : List (List ℕ)) (chunk : ℕ)
    (xs : List ChunkDispatch) (offset : ℕ) (busy : RailFlags) (seq off left : ℕ)
    → (0 < off) ⊎ (offset ≡ off)
    → Tiles candidates chunk seq off left xs
    → AreCarried xs (striped_chunks g offset busy (map chunk_path xs))
unfolding striped_chunks
striped-AreCarried g candidates chunk [] offset busy seq off left o t = tt
striped-AreCarried g candidates chunk (x ∷ xs) offset busy seq off left o (a, b, c, e, s, f, t) = (
  refl,
  refl,
  ground (arith, b, o),
  refl,
  striped-AreCarried g candidates chunk xs _ _ (seq + 1) (off + x.chunk_size) (left - x.chunk_size)
      (inl (omega (arith, c))) t,
)

striped-IsMoving :
    {W : Type 0} (g : Option (List (GraphEdge W))) (cs : List ChunkPath) (offset : ℕ)
    (busy : RailFlags)
    → All IsMoving (striped_chunks g offset busy cs)
unfolding striped_chunks
striped-IsMoving g [] offset busy = tt
striped-IsMoving g (c ∷ cs) offset busy = (ground arith, striped-IsMoving g cs _ _)

module _ {W : Type 0} ⦃d : Double W⦄ where
  -- The new transfer is the first of the executor's: it is of the request, under the executor's next id, and
  -- it runs. Its chunks add up to the size of the request, and they are the dispatches, if there are any.
  abbrev pub Runs :
      TransferExecutor W → TransferRequest W → List ChunkDispatch → TransferExecutor W → Type 0
  Runs x req xs y =
      (tp : TransferProgress W) × (y.transfers ≡ tp ∷ x.transfers)
      × (tp.request ≡ req)
      × (tp.id ≡ x.next_id)
      × (tp.bytes_total ≡ req.size_bytes)
      × (total_size tp.chunks ≡ req.size_bytes)
      × ((xs ≡ []) ⊎ AreCarried xs tp.chunks)
      × IsRunning tp

  submit_none :
      (x : TransferExecutor W) (now : W) (req : TransferRequest W) (opts : SubmitOptions)
      → req.size_bytes < word64
      → Runs x req [] (submit_striped x now req [] opts).0
  unfolding submit_striped submit
  submit_none x now req opts h = (
    _,
    refl,
    refl,
    refl,
    refl,
    omega arith,
    inl refl,
    record {
      going = refl;
      not_suspended = refl;
      bounded = ((omega arith, h), tt);
      moving = (inr (inl refl), tt);
      tiled = omega arith;
      fits = h;
    },
  )

  -- Chunks that tile a request, submitted striped, are one new transfer of the request under the executor's next
  -- id, which runs: not suspended, each chunk waiting or in flight. Its chunks are the given ones in their
  -- order, if there are any, and their sizes add up to the size of the request.
  pub submit_striped-IsRunning :
      (x : TransferExecutor W) (now : W) (req : TransferRequest W) (opts : SubmitOptions)
      (candidates : List (List ℕ)) (chunk : ℕ) (xs : List ChunkDispatch)
      → req.size_bytes < word64
      → Tiles candidates chunk 0 0 req.size_bytes xs
      → ((submit_striped x now req (map chunk_path xs) opts).1 ≡ x.next_id)
        × Runs x req xs (submit_striped x now req (map chunk_path xs) opts).0
  unfolding submit_striped submit
  submit_striped-IsRunning x now req opts candidates chunk [] h t =
      (refl, submit_none x now req opts h)
  submit_striped-IsRunning x now req opts candidates chunk (c ∷ cs) h t =
      let sum =
        Tiles-total_size candidates chunk x.graph (c ∷ cs) 0 all_free 0 0 req.size_bytes t in
      (
        refl,
        (
          _,
          refl,
          refl,
          refl,
          refl,
          sum,
          inr (
              striped-AreCarried x.graph candidates chunk (c ∷ cs) 0 all_free 0 0 req.size_bytes
                (inr refl) t),
          record {
            going = refl;
            not_suspended = refl;
            bounded =
                striped-IsBounded x.graph (map chunk_path (c ∷ cs)) 0 all_free
                  (Tiles-AreWords candidates chunk (c ∷ cs) 0 0 req.size_bytes h t);
            moving = striped-IsMoving x.graph (map chunk_path (c ∷ cs)) 0 all_free;
            tiled = sum;
            fits = h;
          },
        ),
      )

  Migrated-Runs :
      (x : TransferExecutor W) (now : W) (req : TransferRequest W) (opts : SubmitOptions)
      (candidates : List (List ℕ)) (chunk : ℕ) (xs : List ChunkDispatch)
      → req.size_bytes < word64
      → Migrated candidates chunk req.size_bytes xs
      → ((submit_striped x now req (map chunk_path xs) opts).1 ≡ x.next_id)
        × Runs x req xs (submit_striped x now req (map chunk_path xs) opts).0
  unfolding submit_striped submit
  Migrated-Runs x now req opts candidates chunk xs h (inl (_, e)) =
      subst
        (λ (ds : List ChunkDispatch).
          ((submit_striped x now req (map chunk_path ds) opts).1 ≡ x.next_id)
          × Runs x req ds (submit_striped x now req (map chunk_path ds) opts).0)
        (sym e) (refl, submit_none x now req opts h)
  Migrated-Runs x now req opts candidates chunk xs h (inr (_, t)) =
      submit_striped-IsRunning x now req opts candidates chunk xs h t

  -- A migration of more than one chunk that is scheduled on an executor is under way: before the old transfers,
  -- which are as they were, the executor has one new transfer of the request under the id that is returned. It
  -- runs, its chunks are the dispatches of the stripe in their order, if there are any, and their sizes add up
  -- to the size of the request. The size is a `uint64_t` of fewer chunks than `uint32_t` counts.
  pub schedule_and_execute-Runs :
      (e : PathSelectionEngine W) (x : TransferExecutor W) (now : W) (req : TransferRequest W)
      (current : List W) (opts : SubmitOptions)
      → e.executor ≡ some x
      → is_striped req ≡ true
      → req.size_bytes < word64
      → req.size_bytes / kv_chunk_bytes + 2 < word32
      → (y : TransferExecutor W) × ((schedule_and_execute e now req current opts).0.executor
          ≡ some y)
        × ((schedule_and_execute e now req current opts).1 ≡ x.next_id)
        × Runs x req (stripe_kv_migration e req current kv_chunk_bytes).1 y
  unfolding schedule_and_execute submit_chunks register_kv_flow
  schedule_and_execute-Runs e x now req current opts k s h n =
      let e' = record e { executor = some x } in
      let xs = (stripe_kv_migration e' req current kv_chunk_bytes).1 in
      let run =
        Migrated-Runs x now req opts _ kv_chunk_bytes xs h
          (stripe_kv_migration-Tiles e' req current kv_chunk_bytes h n) in
      rw (k, s) (_, refl, run.0, run.1)
