-- ===== src/Telemetry/Latest.antt =====
-- Proofs about telemetry/telemetry.cpp: the samples that the ring remembers.
use cong_shed.Base.{
  length-replicate, get_elem?-set_self, get_elem?-set_ne, ℕ, zero, suc, ◌+◌, ◌-◌, ◌%◌, ◌≤◌, ◌<◌,
  ◌≡◌, refl, ap, ap₂, ◌≢◌, inl, inr, ◌∙◌, sym, false, Bool-cases, ◌==◌, Option, none, some, List,
  [], ◌∷◌, ◌++◌, arith, word32, add32, length, length-set, if◌then◌else◌, get_elem?, set, replicate,
  take,
}
use cong_shed.Base.Double.{Double, nought}
use cong_shed.Telemetry.Ring.{
  ring_size, TelemetrySample, TelemetryRingBuffer, write, sample_hit, see, scan, read_latest,
  empty_ring,
}

-- The place of the `i`-th newest sample.
abbrev slot : ℕ → ℕ → ℕ
slot w i = (w + ring_size - 1 - i) % ring_size

slot_newest : (w : ℕ) → w < word32 → slot (add32 w 1) 0 ≡ w % ring_size
slot_newest w h = omega arith

slot_older : (w i : ℕ) → w < word32 → suc i < ring_size → slot (add32 w 1) (suc i) ≡ slot w i
slot_older w i h k = omega arith

slot_apart : (w i : ℕ) → w < word32 → suc i < ring_size → w % ring_size ≢ slot w i
slot_apart w i h k = omega arith

slot_in : (w i : ℕ) → slot w i < ring_size
slot_in w i = omega arith

get_elem?-replicate {ℓ} :
    {A : Type ℓ} (n i : ℕ) (v : A) → i < n → get_elem? (replicate n v) i ≡ some v
get_elem?-replicate zero i v h = absurd (omega arith)
get_elem?-replicate (suc n) zero v h = refl
get_elem?-replicate (suc n) (suc i) v h = get_elem?-replicate n i v (omega arith)

module _ {W : Type 0} where
  -- The utilization of the newest sample of the edge, in a list with the newest sample first.
  abbrev pub newest : ℕ → List (TelemetrySample W) → Option W
  newest edge [] = none
  newest edge (s ∷ ss) = if sample_hit edge s then some s.utilization else newest edge ss

  -- The ring shows the history, newest first.
  abbrev Shows : TelemetryRingBuffer W → List (TelemetrySample W) → Type 0
  Shows r hist =
      (length r.buffer ≡ ring_size)
      × (r.write_idx < word32)
      × ((i : ℕ) → i < ring_size → get_elem? r.buffer (slot r.write_idx i) ≡ get_elem? hist i)

  write-Shows :
      (r : TelemetryRingBuffer W) (hist : List (TelemetrySample W)) (s : TelemetrySample W)
      → Shows r hist
      → Shows (write r s.timestamp_ns s.edge_idx s.utilization) (s ∷ hist)
  unfolding write
  write-Shows r hist s (l, h, k) =
      (length-set r.buffer (r.write_idx % ring_size) s ∙ l, omega arith, λ i q. shown i q)
    where
      shown :
          (i : ℕ)
          → i < ring_size
          → get_elem? (set r.buffer (r.write_idx % ring_size) s) (slot (add32 r.write_idx 1) i)
            ≡ get_elem? (s ∷ hist) i
      shown zero q =
          rw (slot_newest r.write_idx h)
            (get_elem?-set_self r.buffer (r.write_idx % ring_size) s (omega arith))
      shown (suc i) q = rw (slot_older r.write_idx i h q) (
          get_elem?-set_ne r.buffer (r.write_idx % ring_size) (slot r.write_idx i) s
            (slot_apart r.write_idx i h q)
          ∙ k i (omega arith))

  -- The scan over the list that the ring shows.
  look : List (TelemetrySample W) → ℕ → ℕ → ℕ → Option W
  look hist edge i zero = none
  look hist edge i (suc left) = see edge (get_elem? hist i) (look hist edge (suc i) left)

  scan-look :
      (r : TelemetryRingBuffer W) (hist : List (TelemetrySample W)) (edge i left : ℕ)
      → Shows r hist
      → i + left ≤ ring_size
      → scan r edge i left ≡ look hist edge i left
  unfolding scan look
  scan-look r hist edge i zero v h = refl
  scan-look r hist edge i (suc left) v h =
      ap₂ (see edge) (v.2 i (omega arith)) (scan-look r hist edge (suc i) left v (omega arith))

  look_tail :
      (s : TelemetrySample W) (hist : List (TelemetrySample W)) (edge i left : ℕ)
      → look (s ∷ hist) edge (suc i) left ≡ look hist edge i left
  unfolding look
  look_tail s hist edge i zero = refl
  look_tail s hist edge i (suc left) =
      ap (see edge (get_elem? hist i)) (look_tail s hist edge (suc i) left)

  look_nil : (edge i left : ℕ) → look [] edge i left ≡ none
  unfolding look
  look_nil edge i zero = refl
  look_nil edge i (suc left) = look_nil edge (suc i) left

  look-newest :
      (hist : List (TelemetrySample W)) (edge left : ℕ)
      → look hist edge 0 left ≡ newest edge (take left hist)
  unfolding look
  look-newest hist edge zero = refl
  look-newest [] edge (suc left) = look_nil edge 1 left
  look-newest (s ∷ hist) edge (suc left) =
      rw (look_tail s hist edge 0 left, look-newest hist edge left) refl

  -- Samples that never hit are not seen.
  newest_blank :
      (blank : TelemetrySample W) (edge n m : ℕ)
      → sample_hit edge blank ≡ false
      → newest edge (take n (replicate m blank)) ≡ none
  newest_blank blank edge zero m h = refl
  newest_blank blank edge (suc n) zero h = refl
  newest_blank blank edge (suc n) (suc m) h = rw h (newest_blank blank edge n m h)

  newest_pad :
      (blank : TelemetrySample W) (edge n m : ℕ) (ss : List (TelemetrySample W))
      → sample_hit edge blank ≡ false
      → newest edge (take n (ss ++ replicate m blank)) ≡ newest edge (take n ss)
  newest_pad blank edge zero m ss h = refl
  newest_pad blank edge (suc n) m [] h = newest_blank blank edge (suc n) m h
  newest_pad blank edge (suc n) m (s ∷ ss) h =
      ap (see edge (some s)) (newest_pad blank edge n m ss h)

  blank_hit :
      (u : W) (edge : ℕ)
      → sample_hit edge (record { timestamp_ns = 0; edge_idx = 0; utilization = u }) ≡ false
  blank_hit u edge = elim (Bool-cases (0 == edge)) [ inl e ↦ rw e refl | inr e ↦ rw e refl ]

module _ {W : Type 0} ⦃d : Double W⦄ where
  abbrev blank : TelemetrySample W
  blank = record { timestamp_ns = 0; edge_idx = 0; utilization = nought }

  -- The ring after these writes, the newest first.
  unfoldable pub after : List (TelemetrySample W) → TelemetryRingBuffer W
  after [] = empty_ring
  after (s ∷ ss) = write (after ss) s.timestamp_ns s.edge_idx s.utilization

  after-Shows : (ss : List (TelemetrySample W)) → Shows (after ss) (ss ++ replicate ring_size blank)
  unfolding after empty_ring
  after-Shows [] = (
    length-replicate ring_size blank,
    omega arith,
    λ i q.
        get_elem?-replicate ring_size (slot 0 i) blank (slot_in 0 i)
        ∙ sym (get_elem?-replicate ring_size i blank q),
  )
  after-Shows (s ∷ ss) = write-Shows (after ss) (ss ++ replicate ring_size blank) s (after-Shows ss)

  -- After any writes, `read_latest` returns the utilization of the newest sample of the edge among the
  -- newest 512 samples, and nothing where none of those is of the edge. A sample of time 0 does not count.
  pub read_latest-newest :
      (ss : List (TelemetrySample W)) (edge : ℕ)
      → read_latest (after ss) edge ≡ newest edge (take ring_size ss)
  unfolding read_latest
  read_latest-newest ss edge =
      scan-look (after ss) (ss ++ replicate ring_size blank) edge 0 ring_size (after-Shows ss)
        (omega arith)
      ∙ look-newest (ss ++ replicate ring_size blank) edge ring_size
      ∙ newest_pad blank edge ring_size ring_size ss (blank_hit {W = W} nought edge)
