-- ===== src/Transfer/Candidates.antt =====
-- Proofs about transfer/transfer_executor.cpp: which transfers `preempt_sharing` may suspend, in words.
use cong_shed.Base.{
  ℕ, ◌≡◌, refl, ◌⊎◌, inl, inr, true, Bool-cases, List, [], ◌∷◌, arith, mem, any, Bool, ap, sym, ◌∙◌,
  ◌↔◌, ◌==◌, ==_iff, ◌&&◌, ◌||◌,
}
use cong_shed.Transfer.State.{
  TransferState, in_flight, state_eq, shares_edge, ChunkProgress, TransferProgress,
}
use cong_shed.Transfer.Control.{is_candidate}

-- The element is one of the list.
abbrev pub IsIn : {A : Type 0} → A → List A → Type 0
IsIn a [] = ⊥
IsIn a (x ∷ xs) = (a ≡ x) ⊎ IsIn a xs

any-IsIn :
    {A : Type 0} (t : A → Bool) (xs : List A) → any t xs ≡ true → (a : A) × IsIn a xs × (t a ≡ true)
any-IsIn t [] h = absurd (ground (arith, h))
any-IsIn t (x ∷ xs) h = elim (Bool-cases (t x)) [
  | inl e ↦ (x, inl refl, e)
  | inr e ↦ let r = any-IsIn t xs (ground (arith, e, h)) in (r.0, inr r.1, r.2)
]

IsIn-any :
    {A : Type 0} (t : A → Bool) (xs : List A) (a : A) → IsIn a xs → t a ≡ true → any t xs ≡ true
IsIn-any t [] a i e = absurd i
IsIn-any t (x ∷ xs) a (inl q) e = rw (ap t (sym q) ∙ e) refl
IsIn-any t (x ∷ xs) a (inr i) e = let rest = IsIn-any t xs a i e in ground (arith, rest)

mem-IsIn : (i : ℕ) (xs : List ℕ) → mem i xs ≡ true → IsIn i xs
mem-IsIn i [] h = absurd (ground (arith, h))
mem-IsIn i (x ∷ xs) h = elim (Bool-cases (x == i)) [
  | inl e ↦ inl (sym ((==_iff x i).0 e))
  | inr e ↦ inr (mem-IsIn i xs (ground (arith, e, h)))
]

IsIn-mem : (i : ℕ) (xs : List ℕ) → IsIn i xs → mem i xs ≡ true
IsIn-mem i [] h = absurd h
IsIn-mem i (x ∷ xs) (inl q) = rw ((==_iff x i).1 (sym q)) refl
IsIn-mem i (x ∷ xs) (inr h) = let rest = IsIn-mem i xs h in ground (arith, rest)

in_flight_iff : (s : TransferState) → (state_eq s in_flight ≡ true) ↔ (s ≡ in_flight)
in_flight_iff s = ground arith

and_iff : (a b : Bool) → ((a && b) ≡ true) ↔ ((a ≡ true) × (b ≡ true))
and_iff a b = ground arith

or_iff : (a b : Bool) → ((a || b) ≡ true) ↔ ((a ≡ true) ⊎ (b ≡ true))
or_iff a b = ground arith

-- An edge of the path is busy.
abbrev pub Shares : List ℕ → List ℕ → Type 0
Shares path busy = (e : ℕ) × IsIn e path × IsIn e busy

shares_edge_iff : (path busy : List ℕ) → (shares_edge path busy ≡ true) ↔ Shares path busy
unfolding shares_edge
shares_edge_iff path busy = (
  λ h. let r = any-IsIn (λ e. mem e busy) path h in (r.0, r.1, mem-IsIn r.0 busy r.2),
  λ s. IsIn-any (λ e. mem e busy) path s.0 s.1 (IsIn-mem s.0 busy s.2),
)

module _ {W : Type 0} where
  -- A preemptible transfer in flight, of which the path or a chunk in flight shares a busy edge.
  abbrev pub IsPreemptable : List ℕ → TransferProgress W → Type 0
  IsPreemptable busy tp =
      (tp.preemptible ≡ true)
      × (tp.state ≡ in_flight)
      × (Shares tp.path_edges busy
          ⊎ ((ch : ChunkProgress) × IsIn ch tp.chunks
              × (ch.state ≡ in_flight)
              × Shares ch.edge_indices busy))

  pub is_candidate_iff :
      (busy : List ℕ) (tp : TransferProgress W)
      → (is_candidate busy tp ≡ true) ↔ IsPreemptable busy tp
  unfolding is_candidate
  is_candidate_iff busy tp =
      let flying =
        λ (ch : ChunkProgress). state_eq ch.state in_flight && shares_edge ch.edge_indices busy in
      (
        λ h.
            let p = (and_iff tp.preemptible _).0 h in
            let q = (and_iff (state_eq tp.state in_flight) _).0 p.1 in
            (
              p.0,
              (in_flight_iff tp.state).0 q.0,
              elim ((or_iff (shares_edge tp.path_edges busy) _).0 q.1) [
                | inl e ↦ inl ((shares_edge_iff tp.path_edges busy).0 e)
                | inr e ↦
                    let r = any-IsIn flying tp.chunks e in
                    let f = (and_iff (state_eq r.0.state in_flight) _).0 r.2 in
                    inr (
                      r.0,
                      r.1,
                      (in_flight_iff r.0.state).0 f.0,
                      (shares_edge_iff r.0.edge_indices busy).0 f.1,
                    )
              ],
            ),
        λ h. (and_iff tp.preemptible _).1 (
          h.0,
          (and_iff (state_eq tp.state in_flight) _).1 (
            (in_flight_iff tp.state).1 h.1,
            (or_iff (shares_edge tp.path_edges busy) _).1 (elim h.2 [
              | inl e ↦ inl ((shares_edge_iff tp.path_edges busy).1 e)
              | inr (ch, i, f, e) ↦ inr (
                  IsIn-any flying tp.chunks ch i (
                    (and_iff (state_eq ch.state in_flight) _).1
                      ((in_flight_iff ch.state).1 f, (shares_edge_iff ch.edge_indices busy).1 e)))
            ]),
          ),
        ),
      )
