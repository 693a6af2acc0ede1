-- ===== src/Transfer/MirrorTick.antt =====
-- Proofs about transfer/transfer_executor.cpp: the bytes that a tick moves.
use cong_shed.Base.{
  ℕ, ◌≡◌, refl, sym, subst, inl, inr, Bool, true, Bool-cases, List, ◌==◌, All, any,
}
use cong_shed.Base.Double.{Double, ◌⊖◌, ◌⊘◌}
use cong_shed.Ibverbs.{Memory}
use cong_shed.Transfer.State.{in_flight, state_eq, ChunkProgress, TransferProgress, is_active}
use cong_shed.Transfer.Tick.{World, prepare, advance, refresh_aggregate, settle, tick_transfer}
use cong_shed.Transfer.Mirror.{
  AreApart, IsMirrored, advance-IsMoved, IsMirrored-prepare, IsMirrored-finish,
}

module _ {W : Type 0} (total : ℕ) where
  -- Every byte that a chunk of the transfer counts as sent is in the destination buffer as in the source.
  abbrev pub HasMirrored : Memory → TransferProgress W → Type 0
  HasMirrored m tp = All (IsMirrored tp.src_buf tp.dst_buf total m) tp.chunks

  HasMirrored-settle :
      (tp : TransferProgress W) (w : World)
      → HasMirrored w.memory tp
      → HasMirrored (settle tp w).2.memory (settle tp w).0
  unfolding settle
  HasMirrored-settle tp w p = elim (Bool-cases (tp.bytes_remaining == 0)) [
    | inl e ↦ rw e (IsMirrored-finish tp.src_buf tp.dst_buf total w.memory tp.chunks p)
    | inr e ↦ rw e (elim (Bool-cases tp.suspend_at_boundary) [
      | inr k ↦ rw k p
      | inl k ↦ rw k (elim (Bool-cases (any (λ ch. state_eq ch.state in_flight) tp.chunks)) [
        | inl q ↦ rw q p
        | inr q ↦ rw q p
      ])
    ])
  ]

module _ {W : Type 0} ⦃d : Double W⦄ where
  -- On a ready transport, with two buffers that hold the chunks and lie apart, a tick keeps this: each byte
  -- that a chunk counts as sent is in the destination buffer as in the source.
  pub tick_transfer-HasMirrored :
      (total : ℕ) (rate : List ℕ → ℕ) (now : W) (tp : TransferProgress W) (w : World)
      → AreApart tp.src_buf tp.dst_buf total
      → w.wire.ready ≡ true
      → HasMirrored total w.memory tp
      → HasMirrored total (tick_transfer rate now tp w).2.memory (tick_transfer rate now tp w).0
  unfolding tick_transfer refresh_aggregate
  tick_transfer-HasMirrored total rate now tp w h r p = elim (Bool-cases (is_active tp)) [
    | inr e ↦ rw e p
    | inl e ↦
        let chs = prepare tp.suspend_at_boundary tp.chunks in
        let q = advance-IsMoved tp.src_buf tp.dst_buf total rate chs w h r (
          IsMirrored-prepare tp.src_buf tp.dst_buf total w.memory tp.suspend_at_boundary tp.chunks
            p) in
        rw e (HasMirrored-settle total _ _ q.0)
  ]

  -- The transfer that a tick settles.
  abbrev moved : W → TransferProgress W → List ChunkProgress → TransferProgress W
  moved now tp chs = record (refresh_aggregate (record tp { chunks = chs })) {
    slack_us = tp.request.deadline_us ⊖ (now ⊖ tp.started_ns) ⊘ d.decimal 1000 0;
  }

  tick_active :
      (rate : List ℕ → ℕ) (now : W) (tp : TransferProgress W) (w : World)
      → is_active tp ≡ true
      → tick_transfer rate now tp w
        ≡ settle
            (moved now tp
              (advance tp.src_buf tp.dst_buf rate (prepare tp.suspend_at_boundary tp.chunks) w).0)
            (advance tp.src_buf tp.dst_buf rate (prepare tp.suspend_at_boundary tp.chunks) w).1
  unfolding tick_transfer
  tick_active rate now tp w e = rw e refl

  settle_ready :
      (tp : TransferProgress W) (w : World)
      → w.wire.ready ≡ true
      → (settle tp w).2.wire.ready ≡ true
  unfolding settle
  settle_ready tp w r = elim (Bool-cases (tp.bytes_remaining == 0)) [
    | inl e ↦ rw e r
    | inr e ↦ rw e (elim (Bool-cases tp.suspend_at_boundary) [
      | inr k ↦ rw k r
      | inl k ↦ rw k (elim (Bool-cases (any (λ ch. state_eq ch.state in_flight) tp.chunks)) [
        | inl q ↦ rw q r
        | inr q ↦ rw q r
      ])
    ])
  ]

  pub ready_after :
      (total : ℕ) (rate : List ℕ → ℕ) (now : W) (tp : TransferProgress W) (w : World)
      → AreApart tp.src_buf tp.dst_buf total
      → w.wire.ready ≡ true
      → HasMirrored total w.memory tp
      → (tick_transfer rate now tp w).2.wire.ready ≡ true
  unfolding tick_transfer refresh_aggregate
  ready_after total rate now tp w h r p = elim (Bool-cases (is_active tp)) [
    | inr e ↦ rw e r
    | inl e ↦
        let chs = prepare tp.suspend_at_boundary tp.chunks in
        let q = advance-IsMoved tp.src_buf tp.dst_buf total rate chs w h r (
          IsMirrored-prepare tp.src_buf tp.dst_buf total w.memory tp.suspend_at_boundary tp.chunks
            p) in
        subst (λ (x : TransferProgress W × Bool × World). x.2.wire.ready ≡ true)
          (sym (tick_active rate now tp w e))
          (settle_ready (moved now tp (advance tp.src_buf tp.dst_buf rate chs w).0)
            (advance tp.src_buf tp.dst_buf rate chs w).1 q.2)
  ]

  settle_buffers :
      (tp : TransferProgress W) (w : World)
      → ((settle tp w).0.src_buf ≡ tp.src_buf) × ((settle tp w).0.dst_buf ≡ tp.dst_buf)
  unfolding settle
  settle_buffers tp w = elim (Bool-cases (tp.bytes_remaining == 0)) [
    | inl e ↦ rw e (refl, refl)
    | inr e ↦ rw e (elim (Bool-cases tp.suspend_at_boundary) [
      | inr k ↦ rw k (refl, refl)
      | inl k ↦ rw k (elim (Bool-cases (any (λ ch. state_eq ch.state in_flight) tp.chunks)) [
        | inl q ↦ rw q (refl, refl)
        | inr q ↦ rw q (refl, refl)
      ])
    ])
  ]

  pub same_buffers :
      (rate : List ℕ → ℕ) (now : W) (tp : TransferProgress W) (w : World)
      → ((tick_transfer rate now tp w).0.src_buf ≡ tp.src_buf)
        × ((tick_transfer rate now tp w).0.dst_buf ≡ tp.dst_buf)
  unfolding tick_transfer refresh_aggregate
  same_buffers rate now tp w = elim (Bool-cases (is_active tp)) [
    | inr e ↦ rw e (refl, refl)
    | inl e ↦
        let r = advance tp.src_buf tp.dst_buf rate (prepare tp.suspend_at_boundary tp.chunks) w in
        subst
          (λ (x : TransferProgress W × Bool × World).
            (x.0.src_buf ≡ tp.src_buf) × (x.0.dst_buf ≡ tp.dst_buf))
          (sym (tick_active rate now tp w e)) (settle_buffers (moved now tp r.0) r.1)
  ]
