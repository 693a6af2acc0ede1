-- ===== src/Lstm/Refused.antt =====
-- lstm/lstm_predictor.cpp: the weight files that `load_weights` refuses before it writes anything.
use cong_shed.Base.{
  ℕ, ◌+◌, ◌^◌, ◌≡◌, refl, ap, ◌∙◌, true, false, none, some, List, ◌++◌, length, ◌<◌, arith, ◌⊎◌,
  inl, inr, Bool-cases, ◌&&◌, ◌==◌, ◌≢◌,
}
use cong_shed.Base.Bytes.{Stream, read_into, u32_bytes, read_into_good, length-u32_bytes}
use cong_shed.Base.Double.{Double}
use cong_shed.Lstm.{hidden_size, num_layers, Weights}
use cong_shed.Lstm.RoundTrip.{at_front, read_u32_front, load_magic}
use cong_shed.Lstm.File.{read_u32, weight_magic, weight_version, load_weights, load_versioned}

-- A read that leaves the stream good found it good, with four bytes more.
read_u32_good :
    (v : ℕ) (s : Stream)
    → (read_u32 v s).1.good ≡ true
    → (s.good ≡ true) × (length s.rest ≡ 4 + length (read_u32 v s).1.rest)
unfolding read_u32
read_u32_good v s h =
    let g = read_into_good (u32_bytes v) s h in
    (g.0, g.1 ∙ ap (λ n. n + length (read_into (u32_bytes v) s).1.rest) (length-u32_bytes v))

header_differs :
    (version hidden nlayers : ℕ)
    → (version ≢ weight_version) ⊎ ((hidden ≢ hidden_size) ⊎ (nlayers ≢ num_layers))
    → ((version == weight_version) && ((hidden == hidden_size) && (nlayers == num_layers))) ≡ false
header_differs v h n wrong = ground arith

module _ {W : Type 0} ⦃d : Double W⦄ where
  short_header :
      (old : Weights W) (next : List ℕ)
      → length next < 16
      → load_versioned old (at_front next) ≡ (old, false)
  unfolding load_versioned
  short_header old next h =
      let s1 = (read_u32 0 (at_front next)).1 in
      let s2 = (read_u32 0 s1).1 in
      let s3 = (read_u32 0 s2).1 in
      let s4 = (read_u32 0 s3).1 in
      elim (Bool-cases s4.good) [
        | inl g ↦
            let g4 = read_u32_good 0 s3 g in
            let g3 = read_u32_good 0 s2 g4.0 in
            let g2 = read_u32_good 0 s1 g3.0 in
            let g1 = read_u32_good 0 (at_front next) g2.0 in
            absurd (omega (arith, g1.1, g2.1, g3.1, g4.1))
        | inr bad ↦ rw bad refl
      ]

  wrong_header :
      (old : Weights W) (version hidden nlayers history : ℕ) (next : List ℕ)
      → version < 2 ^ 32
      → hidden < 2 ^ 32
      → nlayers < 2 ^ 32
      → history < 2 ^ 32
      → (version ≢ weight_version) ⊎ ((hidden ≢ hidden_size) ⊎ (nlayers ≢ num_layers))
      → load_versioned old (
          at_front (
            u32_bytes version
            ++ (u32_bytes hidden ++ (u32_bytes nlayers ++ (u32_bytes history ++ next)))))
        ≡ (old, false)
  unfolding load_versioned
  wrong_header old v h n t next hv hh hn ht wrong =
      let n4 = u32_bytes t ++ next in
      let n3 = u32_bytes n ++ n4 in
      let n2 = u32_bytes h ++ n3 in
      rw
        (
          read_u32_front 0 v n2 hv,
          read_u32_front 0 h n3 hh,
          read_u32_front 0 n n4 hn,
          read_u32_front 0 t next ht,
        )
        (rw (header_differs v h n wrong) refl)

  -- A file that cannot be opened, one whose header after the magic is cut short, and one whose header
  -- names another version, number of units or number of layers are refused, and the weights stay.
  pub load_weights-refuses :
      (old : Weights W) (short : List ℕ) (version hidden nlayers history : ℕ) (next : List ℕ)
      → length short < 16
      → version < 2 ^ 32
      → hidden < 2 ^ 32
      → nlayers < 2 ^ 32
      → history < 2 ^ 32
      → (version ≢ weight_version) ⊎ ((hidden ≢ hidden_size) ⊎ (nlayers ≢ num_layers))
      → (load_weights none old ≡ (old, false))
        × (load_weights (some (weight_magic ++ short)) old ≡ (old, false))
        × (load_weights
              (some (
                weight_magic
                ++ (u32_bytes version
                    ++ (u32_bytes hidden ++ (u32_bytes nlayers ++ (u32_bytes history ++ next))))))
              old
            ≡ (old, false))
  unfolding load_weights
  load_weights-refuses old short v h n t next lt hv hh hn ht wrong = (
    refl,
    load_magic old short ∙ short_header old short lt,
    load_magic old _ ∙ wrong_header old v h n t next hv hh hn ht wrong,
  )
