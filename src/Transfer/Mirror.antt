-- ===== src/Transfer/Mirror.antt =====
-- Proofs about transfer/transfer_executor.cpp and shim/ibverbs_transport.cpp: the bytes that chunks move.
use cong_shed.Base.{
  ℕ, ◌+◌, ◌-◌, ◌≤◌, ◌<◌, ◌≡◌, refl, sym, ap, ◌∙◌, ◌≢◌, ◌⊎◌, inl, inr, Bool, true, false, not, ◌&&◌,
  Bool-cases, List, [], ◌∷◌, map, arith, add64, sub64, ltb, leb, eq_false, ◌==◌, if◌then◌else◌, All,
  All_mono,
}
use cong_shed.Base.Int.{ℤ}
use cong_shed.Ibverbs.{Transport, Memory, memcpy, memcpy_transfer, post_write, poll, transfer_chunk}
use cong_shed.Transfer.State.{
  pending, in_flight, state_eq, ChunkProgress, RailFlags, is_taken, claim_rail, slot_of,
}
use cong_shed.Transfer.Control.{activate}
use cong_shed.Transfer.Sound.{IsBounded}
use cong_shed.Transfer.Tick.{
  World, park, prepare, maybe_wire_chunk, advance_chunk, advance, finish_chunk,
}

-- Two buffers of `total` bytes, neither null, apart from each other.
abbrev pub AreApart : ℕ → ℕ → ℕ → Type 0
AreApart src dst total =
    (0 < src) × (0 < dst) × (0 < total) × ((src + total ≤ dst) ⊎ (dst + total ≤ src))

memcpy_in :
    (m : Memory) (target source len a : ℕ)
    → target ≤ a
    → a < target + len
    → memcpy m target source len a ≡ m (source + (a - target))
unfolding memcpy
memcpy_in m target source len a h k = ground arith

memcpy_out :
    (m : Memory) (target source len a : ℕ)
    → (a < target) ⊎ (target + len ≤ a)
    → memcpy m target source len a ≡ m a
unfolding memcpy
memcpy_out m target source len a h = ground arith

chunk_lem :
    (rail : ℤ) (source target len : ℕ) (t : Transport) (m : Memory)
    → t.ready ≡ true
    → source ≢ 0
    → target ≢ 0
    → source ≢ target
    → len ≢ 0
    → ((transfer_chunk rail source target len t m).2 ≡ memcpy m target source len)
      × ((transfer_chunk rail source target len t m).1.ready ≡ true)
unfolding transfer_chunk post_write memcpy_transfer poll
chunk_lem rail source target len t m r p q d n =
    rw (r, eq_false source 0 p, eq_false target 0 q, eq_false len 0 n, eq_false source target d)
      (refl, refl)

module _ (src dst total : ℕ) where
  -- Byte `a` of the buffers is the same.
  abbrev pub IsSame : Memory → ℕ → Type 0
  IsSame m a = m (dst + a) ≡ m (src + a)

  memcpy_copies :
      (m : Memory) (at step a : ℕ)
      → AreApart src dst total
      → at + step ≤ total
      → at ≤ a
      → a < at + step
      → IsSame (memcpy m (dst + at) (src + at) step) a
  memcpy_copies m at step a (p, q, r, h) f l k =
      memcpy_in m (dst + at) (src + at) step (dst + a) (omega arith) (omega arith)
      ∙ ap m (omega arith)
      ∙ sym (memcpy_out m (dst + at) (src + at) step (src + a) (ground arith))

  memcpy_keeps :
      (m : Memory) (at step a : ℕ)
      → AreApart src dst total
      → at + step ≤ total
      → a < total
      → IsSame m a
      → IsSame (memcpy m (dst + at) (src + at) step) a
  memcpy_keeps m at step a h f l e = elim (Bool-cases (leb at a && ltb a (at + step))) [
    | inl k ↦ memcpy_copies m at step a h f (ground arith) (ground arith)
    | inr k ↦
        memcpy_out m (dst + at) (src + at) step (dst + a) (ground arith)
        ∙ e
        ∙ sym (memcpy_out m (dst + at) (src + at) step (src + a) (ground (arith, h)))
  ]

  -- A ready transport writes the bytes and stays ready.
  wire_lem :
      (ch : ChunkProgress) (step : ℕ) (w : World)
      → AreApart src dst total
      → w.wire.ready ≡ true
      → step ≢ 0
      → ((maybe_wire_chunk src dst ch step w).memory
          ≡ memcpy w.memory
              (dst + (ch.byte_offset + ch.bytes_sent))
              (src + (ch.byte_offset + ch.bytes_sent))
              step)
        × ((maybe_wire_chunk src dst ch step w).wire.ready ≡ true)
  unfolding maybe_wire_chunk
  wire_lem ch step w (p, q, s, h) r n =
      let at = ch.byte_offset + ch.bytes_sent in
      let sent =
        chunk_lem ch.rail_id (src + at) (dst + at) step w.wire w.memory r (λ e. omega arith)
          (λ e. omega arith) (λ e. ground arith) n in
      rw (eq_false step 0 n, eq_false src 0 (λ e. omega arith), eq_false dst 0 (λ e. omega arith))
        sent

  -- What a chunk counts as sent is in the destination buffer; the chunk lies within the buffers.
  abbrev pub IsMirrored : Memory → ChunkProgress → Type 0
  IsMirrored m ch =
      IsBounded ch
      × (ch.byte_offset + ch.chunk_size ≤ total)
      × ((j : ℕ) → j < ch.bytes_sent → IsSame m (ch.byte_offset + j))

  -- Bytes that are the same stay so.
  abbrev Keeps : Memory → Memory → Type 0
  Keeps m m' = (a : ℕ) → a < total → IsSame m a → IsSame m' a

  keep-IsMirrored :
      (m m' : Memory) (ch : ChunkProgress) → Keeps m m' → IsMirrored m ch → IsMirrored m' ch
  keep-IsMirrored m m' ch k (b, f, c) = (b, f, λ j l. k (ch.byte_offset + j) (omega arith) (c j l))

  idle_lem :
      (ch : ChunkProgress) (step : ℕ) (w : World)
      → (step == 0) ≡ true
      → maybe_wire_chunk src dst ch step w ≡ w
  unfolding maybe_wire_chunk
  idle_lem ch step w e = rw e refl

  wire-Keeps :
      (ch : ChunkProgress) (step : ℕ) (w : World)
      → AreApart src dst total
      → w.wire.ready ≡ true
      → ch.byte_offset + ch.bytes_sent + step ≤ total
      → ((j : ℕ) → j < ch.bytes_sent → IsSame w.memory (ch.byte_offset + j))
      → Keeps w.memory (maybe_wire_chunk src dst ch step w).memory
        × ((j : ℕ)
            → j < ch.bytes_sent + step
            → IsSame (maybe_wire_chunk src dst ch step w).memory (ch.byte_offset + j))
        × ((maybe_wire_chunk src dst ch step w).wire.ready ≡ true)
  wire-Keeps ch step w h r f c = elim (Bool-cases (step == 0)) [
    | inl e ↦ rw (idle_lem ch step w e) ((λ a l q. q), (λ j l. c j (ground arith)), r)
    | inr e ↦
        let (me, re) = wire_lem ch step w h r (λ z. ground arith) in
        let at = ch.byte_offset + ch.bytes_sent in
        rw me (
          (λ a l s. memcpy_keeps w.memory at step a h f l s),
          (λ j l. elim (Bool-cases (ltb j ch.bytes_sent)) [
            | inl k ↦
                memcpy_keeps w.memory at step (ch.byte_offset + j) h f (ground arith)
                  (c j (ground arith))
            | inr k ↦
                memcpy_copies w.memory at step (ch.byte_offset + j) h f (ground arith)
                  (ground arith)
          ]),
          re,
        )
  ]

  -- A step that leaves a chunk mirrored, keeps the bytes that are the same and leaves the transport ready.
  abbrev IsMoved : World → World → ChunkProgress → Type 0
  IsMoved w w' ch = IsMirrored w'.memory ch × Keeps w.memory w'.memory × (w'.wire.ready ≡ true)

  advance_chunk-IsMoved :
      (rate : ℕ) (ch : ChunkProgress) (w : World)
      → AreApart src dst total
      → w.wire.ready ≡ true
      → IsMirrored w.memory ch
      → IsMoved w (advance_chunk src dst rate ch w).1 (advance_chunk src dst rate ch w).0
  unfolding advance_chunk
  advance_chunk-IsMoved rate ch w h r (b, f, c) = elim (Bool-cases (state_eq ch.state in_flight)) [
    | inr e ↦ rw e ((b, f, c), (λ a l q. q), r)
    | inl e ↦ rw e (elim (Bool-cases (sub64 ch.chunk_size ch.bytes_sent == 0)) [
      | inl z ↦ rw z ((b, f, c), (λ a l q. q), r)
      | inr z ↦
          let remain = sub64 ch.chunk_size ch.bytes_sent in
          let step = (if ltb remain rate then remain else rate) in
          let fits : ch.bytes_sent + step ≤ ch.chunk_size = ground arith in
          let (kept, new, ready) = wire-Keeps ch step w h r (omega arith) c in
          rw z (elim (Bool-cases (leb ch.chunk_size (add64 ch.bytes_sent step))) [
            | inl k ↦ rw k (((ground arith, b.1), f, λ j l. new j (ground arith)), kept, ready)
            | inr k ↦ rw k (((ground arith, b.1), f, λ j l. new j (ground arith)), kept, ready)
          ])
    ])
  ]

  pub advance-IsMoved :
      (rate : List ℕ → ℕ) (chs : List ChunkProgress) (w : World)
      → AreApart src dst total
      → w.wire.ready ≡ true
      → All (IsMirrored w.memory) chs
      → All (IsMirrored (advance src dst rate chs w).1.memory) (advance src dst rate chs w).0
        × Keeps w.memory (advance src dst rate chs w).1.memory
        × ((advance src dst rate chs w).1.wire.ready ≡ true)
  unfolding advance
  advance-IsMoved rate [] w h r p = (tt, (λ a l q. q), r)
  advance-IsMoved rate (ch ∷ chs) w h r p =
      let one = advance_chunk src dst (rate ch.edge_indices) ch w in
      let (m, k, r') = advance_chunk-IsMoved (rate ch.edge_indices) ch w h r p.0 in
      let (ms, ks, r'') = advance-IsMoved rate chs one.1 h r' (
        All_mono (IsMirrored w.memory) (IsMirrored one.1.memory) chs
          (λ x. keep-IsMirrored w.memory one.1.memory x k) p.1) in
      (
        (keep-IsMirrored one.1.memory (advance src dst rate chs one.1).1.memory one.0 ks m, ms),
        (λ a l q. ks a l (k a l q)),
        r'',
      )

  -- Only the states of the chunks change.
  IsMirrored-activate :
      (m : Memory) (chs : List ChunkProgress) (busy : RailFlags)
      → All (IsMirrored m) chs
      → All (IsMirrored m) (activate busy chs)
  unfolding activate
  IsMirrored-activate m [] busy p = tt
  IsMirrored-activate m (ch ∷ chs) busy p =
      elim (Bool-cases (state_eq ch.state pending && not (is_taken busy (slot_of ch.rail_id)))) [
        | inl e ↦ rw e (p.0, IsMirrored-activate m chs (claim_rail busy (slot_of ch.rail_id)) p.1)
        | inr e ↦ rw e (p.0, IsMirrored-activate m chs busy p.1)
      ]

  IsMirrored-park :
      (m : Memory) (chs : List ChunkProgress)
      → All (IsMirrored m) chs
      → All (IsMirrored m) (map park chs)
  unfolding park
  IsMirrored-park m [] p = tt
  IsMirrored-park m (ch ∷ chs) p = (
    elim (Bool-cases (state_eq ch.state pending)) [ inl e ↦ rw e p.0 | inr e ↦ rw e p.0 ],
    IsMirrored-park m chs p.1,
  )

  pub IsMirrored-prepare :
      (m : Memory) (b : Bool) (chs : List ChunkProgress)
      → All (IsMirrored m) chs
      → All (IsMirrored m) (prepare b chs)
  unfolding prepare
  IsMirrored-prepare m true chs p = IsMirrored-park m chs p
  IsMirrored-prepare m false chs p = IsMirrored-activate m chs _ p

  pub IsMirrored-finish :
      (m : Memory) (chs : List ChunkProgress)
      → All (IsMirrored m) chs
      → All (IsMirrored m) (map finish_chunk chs)
  IsMirrored-finish m [] p = tt
  IsMirrored-finish m (ch ∷ chs) p = (p.0, IsMirrored-finish m chs p.1)
