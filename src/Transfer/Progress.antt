-- ===== src/Transfer/Progress.antt =====
-- Proofs about transfer/transfer_executor.cpp: ticks of a running transfer.
use cong_shed.Base.{
  ℕ, ◌+◌, ◌-◌, ◌≤◌, ◌<◌, ◌≡◌, refl, ap, ◌∙◌, ◌⊎◌, inl, inr, Bool, true, false, List, [], ◌∷◌, map,
  arith, word64, ltb, ◌==◌, if◌then◌else◌, Bool-cases, length, All,
}
use cong_shed.Base.Double.{Double}
use cong_shed.Transfer.State.{in_flight, completed, ChunkProgress, TransferProgress, all_free}
use cong_shed.Transfer.Control.{activate}
use cong_shed.Transfer.Tick.{
  World, tick_transfer, prepare, advance, settle, refresh_aggregate, sum_sent, finish_chunk,
}
use cong_shed.Transfer.Tick.{flags_from}
use cong_shed.Transfer.Sound.{IsBounded, activate-IsBounded, prepare-IsBounded, advance-IsBounded}
use cong_shed.Transfer.Work.{
  total_size, total_sent, IsMoving, work, IsRunning, total_sent-le, total_size-le, sum_sent-from,
  sent_all, total_size-activate, IsMoving-activate, work-prepare, prepared_in_air,
  total_size-advance, IsMoving-advance, work-advance,
}

-- What the chunks are after a tick's advance.
pub record IsAdvanced (old new : List ChunkProgress) : Type 0 where
  pub bounded : All IsBounded new
  pub moving : All IsMoving new
  pub same_size : total_size new ≡ total_size old

advanced :
    (src dst : ℕ) (rate : List ℕ → ℕ) (chs : List ChunkProgress) (w : World)
    → All IsBounded chs
    → All IsMoving chs
    → IsAdvanced chs (advance src dst rate (prepare false chs) w).0
unfolding prepare
advanced src dst rate chs w b m =
    let busy = flags_from all_free chs in
    let started = activate busy chs in
    let b' = activate-IsBounded chs busy b in
    record {
      bounded = advance-IsBounded src dst rate started w b';
      moving = IsMoving-advance src dst rate started w b' (IsMoving-activate chs busy m);
      same_size = total_size-advance src dst rate started w ∙ total_size-activate chs busy;
    }

work-falls :
    (src dst : ℕ) (rate : List ℕ → ℕ) (chs : List ChunkProgress) (w : World)
    → ((path : List ℕ) → 0 < rate path)
    → All IsBounded chs
    → All IsMoving chs
    → 0 < work chs
    → work (advance src dst rate (prepare false chs) w).0 < work chs
work-falls src dst rate chs w h b m pos_work = omega (
  arith,
  work-advance src dst rate (prepare false chs) w h (prepare-IsBounded false chs b),
  prepared_in_air chs m pos_work,
  work-prepare chs,
)

finish_whole :
    (chs : List ChunkProgress)
    → All (λ ch. ch.bytes_sent ≡ ch.chunk_size) chs
    → All (λ ch. (ch.bytes_sent ≡ ch.chunk_size) × (ch.state ≡ completed)) (map finish_chunk chs)
finish_whole [] p = tt
finish_whole (ch ∷ chs) p = ((p.0, refl), finish_whole chs p.1)

module _ {W : Type 0} where
  -- A transfer that has sent everything, in whole chunks.
  pub record IsDone (tp : TransferProgress W) : Type 0 where
    pub finished : tp.state ≡ completed
    pub all_sent : tp.bytes_sent ≡ tp.bytes_total
    pub none_left : tp.bytes_remaining ≡ 0
    pub whole : All (λ ch. (ch.bytes_sent ≡ ch.chunk_size) × (ch.state ≡ completed)) tp.chunks

  -- The cases of a tick: it completes the transfer, or leaves it running with bytes to go.
  abbrev pub TickCases : (TransferProgress W) → TransferProgress W × Bool × World → Type 0
  TickCases tp r =
      ((r.1 ≡ true) × IsDone r.0)
      ⊎ ((r.1 ≡ false)
          × IsRunning r.0
          × (r.0.bytes_sent + r.0.bytes_remaining ≡ tp.bytes_total)
          × (0 < r.0.bytes_remaining))

module _ {W : Type 0} where
  settle_running :
      (tp : TransferProgress W) (w : World)
      → tp.state ≡ in_flight
      → tp.suspend_at_boundary ≡ false
      → All IsBounded tp.chunks
      → All IsMoving tp.chunks
      → total_size tp.chunks ≡ tp.bytes_total
      → tp.bytes_total < word64
      → tp.bytes_sent ≡ sum_sent 0 tp.chunks
      → tp.bytes_remaining ≡ (
          if ltb (sum_sent 0 tp.chunks) tp.bytes_total
          then tp.bytes_total - sum_sent 0 tp.chunks
          else 0)
      → TickCases tp (settle tp w)
  unfolding settle
  settle_running tp w going calm b m tiled fits sent left =
      let sum : sum_sent 0 tp.chunks ≡ total_sent tp.chunks =
        omega (arith, sum_sent-from 0 tp.chunks, total_sent-le tp.chunks b) in
      elim (Bool-cases (tp.bytes_remaining == 0)) [
        | inl e ↦
            let full : total_size tp.chunks ≤ total_sent tp.chunks = ground (arith, sum) in
            rw e (
              inl (
                refl,
                record {
                  finished = refl;
                  all_sent = omega (arith, sum, total_sent-le tp.chunks b);
                  none_left = refl;
                  whole = finish_whole tp.chunks (sent_all tp.chunks b full);
                },
              ))
        | inr e ↦
            rw (e, calm)
              (inr (
                refl,
                record {
                  going = going;
                  not_suspended = refl;
                  bounded = b;
                  moving = m;
                  tiled = tiled;
                  fits = fits;
                },
                ground (arith, sum),
                ground (arith, sum),
              ))
      ]

module _ {W : Type 0} ⦃d : Double W⦄ where
  -- A tick of a running transfer either completes it, with every chunk sent whole and all its bytes
  -- counted, or leaves it running, and then the bytes sent and the bytes remaining make up the total
  -- and some remain.
  pub tick-running :
      (rate : List ℕ → ℕ) (now : W) (tp : TransferProgress W) (w : World)
      → IsRunning tp
      → TickCases tp (tick_transfer rate now tp w)
  unfolding tick_transfer refresh_aggregate
  tick-running rate now tp w v =
      let new = advance tp.src_buf tp.dst_buf rate (prepare false tp.chunks) w in
      let a = advanced tp.src_buf tp.dst_buf rate tp.chunks w v.bounded v.moving in
      rw (v.going, v.not_suspended)
        (settle_running _ new.1 refl refl a.bounded a.moving (a.same_size ∙ v.tiled) v.fits refl
          refl)

-- The circumstances of one tick: the rate of each path, the clock, and the world that other transfers
-- leave.
pub record Round (W : Type 0) : Type 0 where
  pub rate : List ℕ → ℕ
  pub now : W
  pub world : World

module _ {W : Type 0} ⦃d : Double W⦄ where
  -- The transfer after the rounds.
  unfoldable pub tick_rounds : List (Round W) → TransferProgress W → TransferProgress W
  tick_rounds [] tp = tp
  tick_rounds (r ∷ rs) tp = tick_rounds rs (tick_transfer r.rate r.now tp r.world).0

  tick_done :
      (rate : List ℕ → ℕ) (now : W) (tp : TransferProgress W) (w : World)
      → tp.state ≡ completed
      → (tick_transfer rate now tp w).0 ≡ tp
  unfolding tick_transfer
  tick_done rate now tp w h = ground arith

  done_stays : (rs : List (Round W)) (tp : TransferProgress W) → IsDone tp → tick_rounds rs tp ≡ tp
  unfolding tick_rounds
  done_stays [] tp h = refl
  done_stays (r ∷ rs) tp h =
      ap (tick_rounds rs) (tick_done r.rate r.now tp r.world h.finished) ∙ done_stays rs tp h

  work-settle :
      (tp : TransferProgress W) (w : World) (old : ℕ)
      → tp.suspend_at_boundary ≡ false
      → All IsBounded tp.chunks
      → total_size tp.chunks ≡ tp.bytes_total
      → tp.bytes_total < word64
      → tp.bytes_remaining ≡ (
          if ltb (sum_sent 0 tp.chunks) tp.bytes_total
          then tp.bytes_total - sum_sent 0 tp.chunks
          else 0)
      → work tp.chunks ≤ old
      → (0 < old → work tp.chunks < old)
      → (settle tp w).1 ≡ false
      → work (settle tp w).0.chunks < old
  unfolding settle
  work-settle tp w old calm b tiled fits left le lt =
      let sum : sum_sent 0 tp.chunks ≡ total_sent tp.chunks =
        omega (arith, sum_sent-from 0 tp.chunks, total_sent-le tp.chunks b) in
      elim (Bool-cases (tp.bytes_remaining == 0)) [
        | inl e ↦ rw e (λ f. absurd (cc f))
        | inr e ↦
            let some_left : 0 < old = ground (arith, sum, total_size-le tp.chunks) in
            rw (e, calm) (λ f. lt some_left)
      ]

  work_tick :
      (rate : List ℕ → ℕ) (now : W) (tp : TransferProgress W) (w : World)
      → IsRunning tp
      → ((path : List ℕ) → 0 < rate path)
      → (tick_transfer rate now tp w).1 ≡ false
      → work (tick_transfer rate now tp w).0.chunks < work tp.chunks
  unfolding tick_transfer refresh_aggregate
  work_tick rate now tp w v h =
      let src = tp.src_buf in
      let dst = tp.dst_buf in
      let new = advance src dst rate (prepare false tp.chunks) w in
      let a = advanced src dst rate tp.chunks w v.bounded v.moving in
      let le : work new.0 ≤ work tp.chunks = omega (
        arith,
        work-advance src dst rate (prepare false tp.chunks) w h
            (prepare-IsBounded false tp.chunks v.bounded),
        work-prepare tp.chunks,
      ) in
      rw (v.going, v.not_suspended)
        (work-settle _ new.1 (work tp.chunks) refl a.bounded (a.same_size ∙ v.tiled) v.fits refl le
          (work-falls src dst rate tp.chunks w h v.bounded v.moving))

  -- A running transfer whose paths all move at least a byte in each tick is completed, with every byte
  -- sent, after more ticks than it has bytes and chunks left, whatever other transfers do meanwhile.
  pub tick_rounds-completes :
      (rs : List (Round W)) (tp : TransferProgress W)
      → IsRunning tp
      → All (λ r. (path : List ℕ) → 0 < r.rate path) rs
      → work tp.chunks < length rs
      → IsDone (tick_rounds rs tp)
  unfolding tick_rounds
  tick_rounds-completes [] tp v h k = absurd (omega arith)
  tick_rounds-completes (r ∷ rs) tp v h k = elim (tick-running r.rate r.now tp r.world v) [
    | inl (_, fin) ↦ rw (done_stays rs _ fin) fin
    | inr (e, run, _, _) ↦
        tick_rounds-completes rs _ run h.1
          (omega (arith, work_tick r.rate r.now tp r.world v h.0 e))
  ]
