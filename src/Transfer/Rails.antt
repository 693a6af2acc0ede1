-- ===== src/Transfer/Rails.antt =====
-- Proofs about transfer/transfer_executor.cpp: the chunks in flight on a rail.
use cong_shed.Base.{
  ℕ, ◌+◌, ◌≤◌, ◌≡◌, refl, sym, ap, ap₂, ◌∙◌, ◌⊎◌, inl, inr, Bool, true, false, not, ◌&&◌, ◌||◌,
  Option, List, [], ◌∷◌, map, arith, add64, ◌==◌, if◌then◌else◌, Bool-cases,
}
use cong_shed.Base.Int.{ℤ, pos, negsuc, is_nonneg}
use cong_shed.Topology.{GraphEdge}
use cong_shed.Transfer.State.{
  TransferState, pending, in_flight, state_eq, ChunkPath, ChunkProgress, slot_of, RailFlags,
  all_free, is_taken, claim_rail, rail_of_path,
}
use cong_shed.Transfer.Control.{activate}
use cong_shed.Transfer.Submit.{striped_chunks}
use cong_shed.Transfer.Control.{cancel_chunk, reroute_chunk}
use cong_shed.Transfer.Tick.{park, flags_from, prepare, advance_chunk, advance, finish_chunk, World}

-- The chunk is in flight on rail `s`.
abbrev pub flies_on : ℕ → ChunkProgress → Bool
flies_on s ch = state_eq ch.state in_flight && (slot_of ch.rail_id == s)

abbrev pub one_if : Bool → ℕ
one_if true = 1
one_if false = 0

-- How many chunks are in flight on rail `s`.
abbrev pub flying : ℕ → List ChunkProgress → ℕ
flying s [] = 0
flying s (ch ∷ chs) = one_if (flies_on s ch) + flying s chs

abbrev pub IsExclusive : List ChunkProgress → Type 0
IsExclusive chs = (flying 0 chs ≤ 1) × (flying 1 chs ≤ 1)

slot_cases : (r : ℤ) → (slot_of r ≡ 0) ⊎ (slot_of r ≡ 1)
slot_cases (pos n) = ground arith
slot_cases (negsuc n) = inl refl

-- A rail is free after a claim exactly when it was and is another one.
taken-claim :
    (f : RailFlags) (s t : ℕ)
    → (s ≡ 0) ⊎ (s ≡ 1)
    → (t ≡ 0) ⊎ (t ≡ 1)
    → is_taken (claim_rail f t) s ≡ (is_taken f s || (t == s))
taken-claim f s t h k = ground arith

-- A chunk that starts was pending, on a free rail.
start-pending :
    (st : TransferState) (q : Bool)
    → (state_eq st pending && not q) ≡ true
    → (state_eq st in_flight ≡ false) × (q ≡ false)
start-pending st q h = ground arith

and-eq : (p q : Bool) → p ≡ false → (p && q) ≡ false
and-eq p q h = ground arith

-- The count under `activate`, for a chunk that starts and for one that stays as it is.
fly_start :
    (s t : ℕ) (taken taken' own : Bool) (n : ℕ) {m : ℕ}
    → own ≡ false
    → taken' ≡ (taken || (t == s))
    → (taken' ≡ true → m ≡ n) × (taken' ≡ false → n ≡ 0 → m ≤ 1)
    → (t ≡ s → taken ≡ own)
    → (taken ≡ true → one_if (t == s) + m ≡ 0 + n)
      × (taken ≡ false → 0 + n ≡ 0 → one_if (t == s) + m ≤ 1)
fly_start s t taken taken' own n h k ih same = (λ a. ground arith, λ a b. ground arith)

fly_keep :
    (f taken : Bool) (n : ℕ) {m : ℕ}
    → (taken ≡ true → m ≡ n) × (taken ≡ false → n ≡ 0 → m ≤ 1)
    → (taken ≡ true → one_if f + m ≡ one_if f + n)
      × (taken ≡ false → one_if f + n ≡ 0 → one_if f + m ≤ 1)
fly_keep f taken n ih = (λ a. ground arith, λ a b. ground arith)

striped_start :
    (s t : ℕ) (taken taken' : Bool) {m : ℕ}
    → taken' ≡ (taken || (t == s))
    → m ≤ one_if (not taken')
    → (t ≡ s → taken ≡ false)
    → one_if (t == s) + m ≤ one_if (not taken)
striped_start s t taken taken' k ih free = ground arith

module _ (s : ℕ) (valid : (s ≡ 0) ⊎ (s ≡ 1)) where
  pub activate-flying :
      (busy : RailFlags) (chs : List ChunkProgress)
      → (is_taken busy s ≡ true → flying s (activate busy chs) ≡ flying s chs)
        × (is_taken busy s ≡ false → flying s chs ≡ 0 → flying s (activate busy chs) ≤ 1)
  unfolding activate
  activate-flying busy [] = ((λ _. refl), (λ _ _. omega arith))
  activate-flying busy (ch ∷ chs) =
      let t = slot_of ch.rail_id in
      elim (Bool-cases (state_eq ch.state pending && not (is_taken busy t))) [
        | inl e ↦ rw e (
            let waits = start-pending ch.state (is_taken busy t) e in
            let was = and-eq (state_eq ch.state in_flight) (t == s) waits.0 in
            let now = taken-claim busy s t valid (slot_cases ch.rail_id) in
            rw was (
              fly_start s t (is_taken busy s) (is_taken (claim_rail busy t) s) (is_taken busy t)
                (flying s chs) waits.1 now (activate-flying (claim_rail busy t) chs)
                (λ e'. ap (is_taken busy) (sym e'))))
        | inr e ↦
            rw e
              (fly_keep (flies_on s ch) (is_taken busy s) (flying s chs) (activate-flying busy chs))
      ]

  -- A rail is flagged when it was or when a chunk flies on it.
  pub taken-flags_from :
      (busy : RailFlags) (chs : List ChunkProgress)
      → is_taken (flags_from busy chs) s ≡ (is_taken busy s || not (flying s chs == 0))
  unfolding flags_from
  taken-flags_from busy [] = ground arith
  taken-flags_from busy (ch ∷ chs) = ground (
    arith,
    taken-flags_from (claim_rail busy (slot_of ch.rail_id)) chs,
    taken-flags_from busy chs,
    taken-claim busy s (slot_of ch.rail_id) valid (slot_cases ch.rail_id),
  )

  pub flying-park : (chs : List ChunkProgress) → flying s (map park chs) ≡ flying s chs
  unfolding park
  flying-park [] = refl
  flying-park (ch ∷ chs) = ap₂ ◌+◌ (ground arith) (flying-park chs)

  pub flying-prepare :
      (b : Bool) (chs : List ChunkProgress) → flying s chs ≤ 1 → flying s (prepare b chs) ≤ 1
  unfolding prepare
  flying-prepare true chs h = omega (arith, flying-park chs)
  flying-prepare false chs h =
      ground (arith, activate-flying (flags_from all_free chs) chs, taken-flags_from all_free chs)

  flies-advance :
      (src dst rate : ℕ) (ch : ChunkProgress) (w : World)
      → one_if (flies_on s (advance_chunk src dst rate ch w).0) ≤ one_if (flies_on s ch)
  unfolding advance_chunk
  flies-advance src dst rate ch w = ground arith

  pub flying-advance :
      (src dst : ℕ) (rate : List ℕ → ℕ) (chs : List ChunkProgress) (w : World)
      → flying s (advance src dst rate chs w).0 ≤ flying s chs
  unfolding advance
  flying-advance src dst rate [] w = omega arith
  flying-advance src dst rate (ch ∷ chs) w = omega (
    arith,
    flies-advance src dst (rate ch.edge_indices) ch w,
    flying-advance src dst rate chs (advance_chunk src dst (rate ch.edge_indices) ch w).1,
  )

  pub flying-finish : (chs : List ChunkProgress) → flying s (map finish_chunk chs) ≡ 0
  flying-finish [] = refl
  flying-finish (ch ∷ chs) = omega (arith, flying-finish chs)

  pub flying-cancel : (chs : List ChunkProgress) → flying s (map cancel_chunk chs) ≡ 0
  unfolding cancel_chunk
  flying-cancel [] = refl
  flying-cancel (ch ∷ chs) = ground (arith, flying-cancel chs)

  pub flying-reroute :
      (edges : List ℕ) (rail : ℤ) (chs : List ChunkProgress)
      → flying s (map (reroute_chunk edges rail) chs) ≡ 0
  unfolding reroute_chunk
  flying-reroute edges rail [] = refl
  flying-reroute edges rail (ch ∷ chs) = ground (arith, flying-reroute edges rail chs)

  pub flying-striped :
      {W : Type 0} (g : Option (List (GraphEdge W))) (offset : ℕ) (busy : RailFlags)
      (cs : List ChunkPath)
      → flying s (striped_chunks g offset busy cs) ≤ one_if (not (is_taken busy s))
  unfolding striped_chunks
  flying-striped g offset busy [] = omega arith
  flying-striped g offset busy (c ∷ cs) =
      let rail = (if is_nonneg c.rail_id then c.rail_id else rail_of_path g c.edge_indices) in
      let t = slot_of rail in
      elim (Bool-cases (is_taken busy t)) [
        | inl e ↦ rw e (omega (arith, flying-striped g (add64 offset c.chunk_size) busy cs))
        | inr e ↦ rw e (
            striped_start s t (is_taken busy s) (is_taken (claim_rail busy t) s)
              (taken-claim busy s t valid (slot_cases rail))
              (flying-striped g (add64 offset c.chunk_size) (claim_rail busy t) cs)
              (λ e'. ap (is_taken busy) (sym e') ∙ e))
      ]
