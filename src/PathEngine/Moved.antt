-- ===== src/PathEngine/Moved.antt =====
-- Proofs about transfer/transfer_executor.cpp: what `reroute` does to the transfers that `get` reads.
use cong_shed.Base.{
  ℕ, ◌≡◌, ◌≢◌, refl, sym, ap, ◌∙◌, ◌⊎◌, inl, inr, Bool, true, false, not, Bool-cases, some, List,
  [], ◌∷◌, ◌==◌, ==_iff, add64, option_either_eq, if_either, arith,
}
use cong_shed.Base.Double.{Double}
use cong_shed.Model.{PathCost}
use cong_shed.Transfer.State.{paused, in_flight, TransferProgress, TransferExecutor, find, update}
use cong_shed.Transfer.Control.{can_reroute, reroute, reroute_transfer}
use cong_shed.Transfer.Drain.{get}

module _ {W : Type 0} where
  find_head :
      (j : ℕ) (tp : TransferProgress W) (tps : List (TransferProgress W))
      → (tp.id == j) ≡ true
      → find j (tp ∷ tps) ≡ some tp
  unfolding find
  find_head j tp tps e = rw e refl

  find_later :
      (j : ℕ) (tp : TransferProgress W) (tps : List (TransferProgress W))
      → (tp.id == j) ≡ false
      → find j (tp ∷ tps) ≡ find j tps
  unfolding find
  find_later j tp tps e = rw e refl

  -- An update that keeps the id changes what is found under it, and nothing else.
  abbrev Updated :
      ℕ
      → ℕ
      → (TransferProgress W → TransferProgress W)
      → List (TransferProgress W)
      → List (TransferProgress W)
      → Type 0
  Updated i j f tps us =
      (find j us ≡ find j tps)
      ⊎ ((tp : TransferProgress W) × (j ≡ i) × (find j tps ≡ some tp) × (find j us ≡ some (f tp)))

  find-update :
      (i j : ℕ) (f : TransferProgress W → TransferProgress W) (tps : List (TransferProgress W))
      → ((tp : TransferProgress W) → (f tp).id ≡ tp.id)
      → Updated i j f tps (update i f tps)
  unfolding update
  find-update i j f [] k = inl refl
  find-update i j f (tp ∷ tps) k = elim (Bool-cases (tp.id == i)) [
    | inl e ↦ rw e (elim (Bool-cases (tp.id == j)) [
      | inl h ↦ inr (
        tp,
        sym ((==_iff tp.id j).0 h) ∙ (==_iff tp.id i).0 e,
        find_head j tp tps h,
        find_head j (f tp) tps (ap (λ n. n == j) (k tp) ∙ h),
      )
      | inr h ↦
          inl (find_later j (f tp) tps (ap (λ n. n == j) (k tp) ∙ h) ∙ sym (find_later j tp tps h))
    ])
    | inr e ↦ rw e (elim (Bool-cases (tp.id == j)) [
      | inl h ↦ inl (find_head j tp _ h ∙ sym (find_head j tp tps h))
      | inr h ↦ elim (find-update i j f tps k) [
        | inl q ↦ inl (find_later j tp _ h ∙ q ∙ sym (find_later j tp tps h))
        | inr (u, q, r, t) ↦ inr (u, q, find_later j tp tps h ∙ r, find_later j tp _ h ∙ t)
      ]
    ])
  ]

  find-update_self :
      (i : ℕ) (f : TransferProgress W → TransferProgress W) (tps : List (TransferProgress W))
      (tp : TransferProgress W)
      → ((u : TransferProgress W) → (f u).id ≡ u.id)
      → find i tps ≡ some tp
      → (u : TransferProgress W) × (find i (update i f tps) ≡ some (f u))
  unfolding find update
  find-update_self i f [] tp k h = absurd (ground (arith, h))
  find-update_self i f (x ∷ xs) tp k h = elim (Bool-cases (x.id == i)) [
    | inl e ↦ (x, rw e (find_head i (f x) xs (ap (λ n. n == i) (k x) ∙ e)))
    | inr e ↦
        let r = find-update_self i f xs tp k (sym (find_later i x xs e) ∙ h) in
        (r.0, rw e (find_later i x (update i f xs) e ∙ r.1))
  ]

module _ {W : Type 0} ⦃d : Double W⦄ where
  got :
      (x : TransferExecutor W) (i : ℕ) (tp : TransferProgress W)
      → find i x.transfers ≡ some tp
      → get x i ≡ tp
  unfolding get
  got x i tp e = rw (get, e) refl

  got_same :
      (x y : TransferExecutor W) (i : ℕ)
      → find i x.transfers ≡ find i y.transfers
      → get x i ≡ get y i
  unfolding get
  got_same x y i e = rw (get, e) refl

  -- Every transfer is as it was, or it was paused with bytes left and is in flight again.
  abbrev pub Moved : TransferExecutor W → TransferExecutor W → Type 0
  Moved x y =
      (i : ℕ)
      → (get y i ≡ get x i)
        ⊎ (((get x i).state ≡ paused)
            × ((get x i).bytes_remaining ≢ 0)
            × ((get y i).state ≡ in_flight))

  pub Moved-trans : (x y z : TransferExecutor W) → Moved x y → Moved y z → Moved x z
  Moved-trans x y z p q i = elim (p i) [
    | inl a ↦ elim (q i) [
      | inl b ↦ inl (b ∙ a)
      | inr (b, n, c) ↦
          inr (ap (λ u. u.state) (sym a) ∙ b, (λ q. n (ap (λ u. u.bytes_remaining) a ∙ q)), c)
    ]
    | inr (a, n, c) ↦ elim (q i) [
      | inl b ↦ inr (a, n, ap (λ u. u.state) b ∙ c)
      | inr (b, m, e) ↦ inr (a, n, e)
    ]
  ]

  -- A paused transfer with bytes left that `reroute` takes is in flight again, and the others are as they were.
  pub reroute-Moved :
      (x : TransferExecutor W) (i : ℕ) (path : PathCost W)
      → (get x i).state ≡ paused
      → (get x i).bytes_remaining ≢ 0
      → ((reroute x i path).1 ≡ true)
      → Moved x (reroute x i path).0 × ((get (reroute x i path).0 i).state ≡ in_flight)
  unfolding reroute reroute_transfer
  reroute-Moved x i path k left =
      let f = reroute_transfer x.graph path in
      let P : TransferExecutor W × Bool → Type 0 =
        λ r. (r.1 ≡ true) → Moved x r.0 × ((get r.0 i).state ≡ in_flight) in
      option_either_eq P (find i x.transfers) (x, false) _ (λ e t. absurd (ground (arith, t)))
        (λ tp e.
          if_either P (not (can_reroute tp.state)) (x, false) _ (λ t. absurd (ground (arith, t)))
            (λ t.
              let y : TransferExecutor W = record x {
                transfers = update i f x.transfers;
                counters = record x.counters { reroutes = add64 x.counters.reroutes 1 };
              } in
              let self = find-update_self i f x.transfers tp (λ u. refl) e in
              (
                λ j. elim (find-update i j f x.transfers (λ u. refl)) [
                  | inl q ↦ inl (got_same y x j q)
                  | inr (u, q, r, v) ↦ inr (
                    ap (λ n. (get x n).state) q ∙ k,
                    (λ z. left (ap (λ n. (get x n).bytes_remaining) (sym q) ∙ z)),
                    ap (λ w. w.state) (got y j (f u) v),
                  )
                ],
                ap (λ w. w.state) (got y i (f self.0) self.1),
              )))
