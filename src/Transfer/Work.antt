-- ===== src/Transfer/Work.antt =====
-- Proofs about transfer/transfer_executor.cpp: the work that a running transfer has left.
use cong_shed.Base.{
  ℕ, ◌+◌, ◌-◌, ◌≤◌, ◌<◌, ◌≡◌, refl, ap₂, ◌⊎◌, inl, inr, false, not, List, [], ◌∷◌, arith, word64,
  add64, ◌==◌, ==_iff, Bool-cases, All,
}
use cong_shed.Transfer.State.{
  pending, in_flight, completed, state_eq, ChunkProgress, TransferProgress, slot_of, RailFlags,
  all_free, claim_rail,
}
use cong_shed.Transfer.Control.{activate}
use cong_shed.Transfer.Tick.{World, prepare, advance, advance_chunk, sum_sent}
use cong_shed.Transfer.Tick.{flags_from}
use cong_shed.Transfer.Rails.{one_if}
use cong_shed.Transfer.Sound.{IsBounded}

abbrev pub total_size : List ChunkProgress → ℕ
total_size [] = 0
total_size (ch ∷ chs) = ch.chunk_size + total_size chs

abbrev pub total_sent : List ChunkProgress → ℕ
total_sent [] = 0
total_sent (ch ∷ chs) = ch.bytes_sent + total_sent chs

-- A chunk of a running transfer waits, is in flight, or has sent all its bytes.
abbrev pub IsMoving : ChunkProgress → Type 0
IsMoving ch =
    (ch.state ≡ pending)
    ⊎ ((ch.state ≡ in_flight) ⊎ ((ch.state ≡ completed) × (ch.bytes_sent ≡ ch.chunk_size)))

-- The bytes left, and one for each chunk that is not completed.
abbrev pub chunk_work : ChunkProgress → ℕ
chunk_work ch = (ch.chunk_size - ch.bytes_sent) + one_if (not (state_eq ch.state completed))

abbrev pub work : List ChunkProgress → ℕ
work [] = 0
work (ch ∷ chs) = chunk_work ch + work chs

abbrev pub in_air : List ChunkProgress → ℕ
in_air [] = 0
in_air (ch ∷ chs) = one_if (state_eq ch.state in_flight) + in_air chs

pub record IsRunning {W : Type 0} (tp : TransferProgress W) : Type 0 where
  pub going : tp.state ≡ in_flight
  pub not_suspended : tp.suspend_at_boundary ≡ false
  pub bounded : All IsBounded tp.chunks
  pub moving : All IsMoving tp.chunks
  pub tiled : total_size tp.chunks ≡ tp.bytes_total
  pub fits : tp.bytes_total < word64

pub total_sent-le : (chs : List ChunkProgress) → All IsBounded chs → total_sent chs ≤ total_size chs
total_sent-le [] p = omega arith
total_sent-le (ch ∷ chs) p = omega (arith, total_sent-le chs p.1)

pub total_size-le : (chs : List ChunkProgress) → total_size chs ≤ total_sent chs + work chs
total_size-le [] = omega arith
total_size-le (ch ∷ chs) = omega (arith, total_size-le chs)

pub sum_sent-from :
    (acc : ℕ) (chs : List ChunkProgress)
    → acc + total_sent chs < word64
    → sum_sent acc chs ≡ acc + total_sent chs
unfolding sum_sent
sum_sent-from acc [] h = omega arith
sum_sent-from acc (ch ∷ chs) h = omega (arith, sum_sent-from (add64 acc ch.bytes_sent) chs)

-- All sent means that each chunk is.
pub sent_all :
    (chs : List ChunkProgress)
    → All IsBounded chs
    → total_size chs ≤ total_sent chs
    → All (λ ch. ch.bytes_sent ≡ ch.chunk_size) chs
sent_all [] p h = tt
sent_all (ch ∷ chs) p h =
    (omega (arith, total_sent-le chs p.1), sent_all chs p.1 (omega (arith, total_sent-le chs p.1)))

pub total_size-activate :
    (chs : List ChunkProgress) (busy : RailFlags) → total_size (activate busy chs) ≡ total_size chs
unfolding activate
total_size-activate [] busy = refl
total_size-activate (ch ∷ chs) busy = ap₂ ◌+◌ (ground arith) (total_size-activate chs _)

pub work-activate :
    (chs : List ChunkProgress) (busy : RailFlags) → work (activate busy chs) ≡ work chs
unfolding activate
work-activate [] busy = refl
work-activate (ch ∷ chs) busy = ap₂ ◌+◌ (ground arith) (work-activate chs _)

pub IsMoving-activate :
    (chs : List ChunkProgress) (busy : RailFlags)
    → All IsMoving chs
    → All IsMoving (activate busy chs)
unfolding activate
IsMoving-activate [] busy p = tt
IsMoving-activate (ch ∷ chs) busy p = (ground arith, IsMoving-activate chs _ p.1)

pub in_air-activate :
    (chs : List ChunkProgress) (busy : RailFlags) → in_air chs ≤ in_air (activate busy chs)
unfolding activate
in_air-activate [] busy = omega arith
in_air-activate (ch ∷ chs) busy =
    ground
      (arith, in_air-activate chs busy, in_air-activate chs (claim_rail busy (slot_of ch.rail_id)))

pub flags_none : (chs : List ChunkProgress) → in_air chs ≡ 0 → flags_from all_free chs ≡ all_free
unfolding flags_from
flags_none [] h = refl
flags_none (ch ∷ chs) h = ground (arith, flags_none chs)

-- With no chunk in flight and work left, a chunk starts.
pub starts :
    (chs : List ChunkProgress)
    → All IsMoving chs
    → 0 < work chs
    → 0 < in_air (activate all_free chs)
unfolding activate
starts [] p h = h
starts (ch ∷ chs) p h = ground (arith, starts chs p.1)

pub work-prepare : (chs : List ChunkProgress) → work (prepare false chs) ≡ work chs
unfolding prepare
work-prepare chs = work-activate chs _

pub prepared_in_air :
    (chs : List ChunkProgress) → All IsMoving chs → 0 < work chs → 0 < in_air (prepare false chs)
unfolding prepare
prepared_in_air chs p h = elim (Bool-cases (in_air chs == 0)) [
  | inl e ↦ rw (flags_none chs ((==_iff _ _).0 e)) (starts chs p h)
  | inr e ↦ ground (arith, in_air-activate chs (flags_from all_free chs))
]

module _ (src dst : ℕ) (rate : List ℕ → ℕ) where
  pub total_size-advance :
      (chs : List ChunkProgress) (w : World)
      → total_size (advance src dst rate chs w).0 ≡ total_size chs
  unfolding advance advance_chunk
  total_size-advance [] w = refl
  total_size-advance (ch ∷ chs) w = ap₂ ◌+◌ (ground arith) (total_size-advance chs _)

  pub IsMoving-advance :
      (chs : List ChunkProgress) (w : World)
      → All IsBounded chs
      → All IsMoving chs
      → All IsMoving (advance src dst rate chs w).0
  unfolding advance advance_chunk
  IsMoving-advance [] w b p = tt
  IsMoving-advance (ch ∷ chs) w b p = (ground arith, IsMoving-advance chs _ b.1 p.1)

  pub work-advance_chunk :
      (r : ℕ) (ch : ChunkProgress) (w : World)
      → IsBounded ch
      → 0 < r
      → chunk_work (advance_chunk src dst r ch w).0 + one_if (state_eq ch.state in_flight)
        ≤ chunk_work ch
  unfolding advance_chunk
  work-advance_chunk r ch w b h = ground arith

  pub work-advance :
      (chs : List ChunkProgress) (w : World)
      → ((path : List ℕ) → 0 < rate path)
      → All IsBounded chs
      → work (advance src dst rate chs w).0 + in_air chs ≤ work chs
  unfolding advance
  work-advance [] w h b = omega arith
  work-advance (ch ∷ chs) w h b = omega (
    arith,
    work-advance_chunk (rate ch.edge_indices) ch w b.0 (h ch.edge_indices),
    work-advance chs (advance_chunk src dst (rate ch.edge_indices) ch w).1 h b.1,
  )
