-- ===== src/Transfer/Sound.antt =====
-- Proofs about transfer/transfer_executor.cpp: the rails and sizes of chunks under every call.
use cong_shed.Base.{
  ℕ, ◌≤◌, ◌<◌, refl, inl, inr, Bool, true, false, Option, List, [], ◌∷◌, map, arith, word64,
  Bool-cases, All,
}
use cong_shed.Base.Double.{Double}
use cong_shed.Model.{TransferRequest, PathCost}
use cong_shed.Topology.{GraphEdge}
use cong_shed.Transfer.State.{
  ChunkPath, ChunkProgress, TransferProgress, SubmitOptions, TransferExecutor, RailFlags, all_free,
  rail_of_path, is_active,
}
use cong_shed.Transfer.Control.{activate}
use cong_shed.Transfer.Submit.{submit, submit_striped, striped_chunks}
use cong_shed.Transfer.Control.{reroute_transfer, reroute_chunk, cancel_chunk}
use cong_shed.Transfer.Tick.{
  World, tick_transfer, prepare, park, advance, advance_chunk, settle, refresh_aggregate,
  finish_chunk,
}
use cong_shed.Transfer.Drain.{force_chunk, force_chunks, force_transfer}
use cong_shed.Transfer.Rails
use cong_shed.Transfer.Rails.{IsExclusive, flying}
use cong_shed.Transfer.Steps.{AreWords, IsKept, Reach, Reach-All}

-- The bytes sent do not exceed the size, which fits a word.
abbrev pub IsBounded : ChunkProgress → Type 0
IsBounded ch = (ch.bytes_sent ≤ ch.chunk_size) × (ch.chunk_size < word64)

pub record IsSound {W : Type 0} (tp : TransferProgress W) : Type 0 where
  pub exclusive : IsExclusive tp.chunks
  pub bounded : All IsBounded tp.chunks

All-map_self :
    {A : Type 0} (P : A → Type 0) (f : A → A) (xs : List A)
    → ((x : A) → P x → P (f x))
    → All P xs
    → All P (map f xs)
All-map_self P f [] h p = tt
All-map_self P f (x ∷ xs) h p = (h x p.0, All-map_self P f xs h p.1)

pub striped-IsBounded :
    {W : Type 0} (g : Option (List (GraphEdge W))) (cs : List ChunkPath) (offset : ℕ)
    (busy : RailFlags)
    → AreWords cs
    → All IsBounded (striped_chunks g offset busy cs)
unfolding striped_chunks
striped-IsBounded g [] offset busy h = tt
striped-IsBounded g (c ∷ cs) offset busy h = (omega arith, striped-IsBounded g cs _ _ h.1)

pub activate-IsBounded :
    (chs : List ChunkProgress) (busy : RailFlags)
    → All IsBounded chs
    → All IsBounded (activate busy chs)
unfolding activate
activate-IsBounded [] busy p = tt
activate-IsBounded (ch ∷ chs) busy p = (ground arith, activate-IsBounded chs _ p.1)

pub prepare-IsBounded :
    (b : Bool) (chs : List ChunkProgress) → All IsBounded chs → All IsBounded (prepare b chs)
unfolding prepare park
prepare-IsBounded true chs p = All-map_self IsBounded park chs (λ ch h. ground arith) p
prepare-IsBounded false chs p = activate-IsBounded chs _ p

pub advance_chunk-IsBounded :
    (src dst rate : ℕ) (ch : ChunkProgress) (w : World)
    → IsBounded ch
    → IsBounded (advance_chunk src dst rate ch w).0
unfolding advance_chunk
advance_chunk-IsBounded src dst rate ch w h = ground arith

pub advance-IsBounded :
    (src dst : ℕ) (rate : List ℕ → ℕ) (chs : List ChunkProgress) (w : World)
    → All IsBounded chs
    → All IsBounded (advance src dst rate chs w).0
unfolding advance
advance-IsBounded src dst rate [] w p = tt
advance-IsBounded src dst rate (ch ∷ chs) w p =
    (advance_chunk-IsBounded src dst _ ch w p.0, advance-IsBounded src dst rate chs _ p.1)

force-IsBounded :
    (src dst : ℕ) (chs : List ChunkProgress) (w : World)
    → All IsBounded chs
    → All IsBounded (force_chunks src dst chs w).0
unfolding force_chunks force_chunk
force-IsBounded src dst [] w p = tt
force-IsBounded src dst (ch ∷ chs) w p = (ground arith, force-IsBounded src dst chs _ p.1)

-- Forcing starts no chunk.
flying-force :
    (s src dst : ℕ) (chs : List ChunkProgress) (w : World)
    → flying s (force_chunks src dst chs w).0 ≤ flying s chs
unfolding force_chunks force_chunk
flying-force s src dst [] w = omega arith
flying-force s src dst (ch ∷ chs) w =
    ground (arith, flying-force s src dst chs (force_chunk src dst ch w).1)

settle-IsSound :
    {W : Type 0} (tp : TransferProgress W) (w : World) → IsSound tp → IsSound (settle tp w).0
unfolding settle
settle-IsSound tp w v = ground (
  arith,
  Rails.flying-finish 0 (inl refl) tp.chunks,
  Rails.flying-finish 1 (inr refl) tp.chunks,
  All-map_self IsBounded finish_chunk tp.chunks (λ ch h. h) v.bounded,
)

module _ {W : Type 0} ⦃d : Double W⦄ where
  tick-IsSound :
      (rate : List ℕ → ℕ) (now : W) (tp : TransferProgress W) (w : World)
      → IsSound tp
      → IsSound (tick_transfer rate now tp w).0
  unfolding tick_transfer refresh_aggregate
  tick-IsSound rate now tp w v =
      let b = tp.suspend_at_boundary in
      let chs = prepare b tp.chunks in
      let moved = advance tp.src_buf tp.dst_buf rate chs w in
      let ok : IsExclusive moved.0 = (
        omega (
          arith,
          Rails.flying-prepare 0 (inl refl) b tp.chunks v.exclusive.0,
          Rails.flying-advance 0 (inl refl) tp.src_buf tp.dst_buf rate chs w,
        ),
        omega (
          arith,
          Rails.flying-prepare 1 (inr refl) b tp.chunks v.exclusive.1,
          Rails.flying-advance 1 (inr refl) tp.src_buf tp.dst_buf rate chs w,
        ),
      ) in
      let small =
        advance-IsBounded tp.src_buf tp.dst_buf rate chs w
          (prepare-IsBounded b tp.chunks v.bounded) in
      elim (Bool-cases (is_active tp)) [
        | inl e ↦ rw e (settle-IsSound _ moved.1 (record { exclusive = ok; bounded = small }))
        | inr e ↦ rw e v
      ]

  reroute-IsSound :
      (g : Option (List (GraphEdge W))) (path : PathCost W) (tp : TransferProgress W)
      → IsSound tp
      → IsSound (reroute_transfer g path tp)
  unfolding reroute_transfer reroute_chunk
  reroute-IsSound g path tp v =
      let rail = rail_of_path g path.edge_indices in
      let waiting = map (reroute_chunk path.edge_indices rail) tp.chunks in
      record {
        exclusive = (
          (Rails.activate-flying 0 (inl refl) all_free waiting).1 refl
              (Rails.flying-reroute 0 (inl refl) path.edge_indices rail tp.chunks),
          (Rails.activate-flying 1 (inr refl) all_free waiting).1 refl
              (Rails.flying-reroute 1 (inr refl) path.edge_indices rail tp.chunks),
        );
        bounded = activate-IsBounded waiting all_free (
            All-map_self IsBounded (reroute_chunk path.edge_indices rail) tp.chunks
              (λ ch h. ground arith) v.bounded);
      }

  force-IsSound :
      (tp : TransferProgress W) (w : World) → IsSound tp → IsSound (force_transfer tp w).0
  unfolding force_transfer refresh_aggregate
  force-IsSound tp w v = ground (
    arith,
    flying-force 0 tp.src_buf tp.dst_buf tp.chunks w,
    flying-force 1 tp.src_buf tp.dst_buf tp.chunks w,
    force-IsBounded tp.src_buf tp.dst_buf tp.chunks w v.bounded,
  )

  submit-IsSound :
      (x : TransferExecutor W) (now : W) (req : TransferRequest W) (path : PathCost W)
      (opts : SubmitOptions)
      → req.size_bytes < word64
      → All IsSound x.transfers
      → All IsSound (submit x now req path opts).0.transfers
  unfolding submit
  submit-IsSound x now req path opts h p =
      (record { exclusive = (ground arith, ground arith); bounded = (omega arith, tt) }, p)

  striped-IsSound :
      (x : TransferExecutor W) (now : W) (req : TransferRequest W) (cs : List ChunkPath)
      (opts : SubmitOptions)
      → req.size_bytes < word64
      → AreWords cs
      → All IsSound x.transfers
      → All IsSound (submit_striped x now req cs opts).0.transfers
  unfolding submit_striped
  striped-IsSound x now req [] opts h k p = submit-IsSound x now req _ opts h p
  striped-IsSound x now req (c ∷ cs) opts h k p = (
    record {
      exclusive = (
        Rails.flying-striped 0 (inl refl) x.graph 0 all_free (c ∷ cs),
        Rails.flying-striped 1 (inr refl) x.graph 0 all_free (c ∷ cs),
      );
      bounded = striped-IsBounded x.graph (c ∷ cs) 0 all_free k;
    },
    p,
  )

  IsSound-kept : IsKept {W = W} IsSound
  unfolding cancel_chunk
  IsSound-kept = record {
    submitted = submit-IsSound;
    striped = striped-IsSound;
    suspended = λ tp v. record { exclusive = v.exclusive; bounded = v.bounded };
    cancelled_too = λ tp v. record {
      exclusive = (
        omega (arith, Rails.flying-cancel 0 (inl refl) tp.chunks),
        omega (arith, Rails.flying-cancel 1 (inr refl) tp.chunks),
      );
      bounded = All-map_self IsBounded cancel_chunk tp.chunks (λ ch h. ground arith) v.bounded;
    };
    rerouted = reroute-IsSound;
    ticked = tick-IsSound;
    forced = force-IsSound;
  }

  -- After any sequence of calls from an executor whose transfers are sound, every transfer has at most
  -- one chunk in flight on each of the two rails, and no chunk has sent more bytes than its size.
  pub Reach-IsSound :
      {x y : TransferExecutor W} → Reach x y → All IsSound x.transfers → All IsSound y.transfers
  Reach-IsSound r p = Reach-All IsSound IsSound-kept r p
