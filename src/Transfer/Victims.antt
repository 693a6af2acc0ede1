-- ===== src/Transfer/Victims.antt =====
-- Proofs about transfer/transfer_executor.cpp: the transfers that `preempt_sharing` suspends.
use cong_shed.Base.{
  ℕ, zero, suc, ◌≤◌, ◌≡◌, refl, ◌⊎◌, inl, inr, true, false, Bool-cases, List, [], ◌∷◌, map, arith,
  take, All, keep, length, mem, Bool, subst, ap, sym, ◌∙◌,
}
use cong_shed.Base.Double.{Double, ◌≺◌}
use cong_shed.Transfer.State.{TransferProgress, TransferExecutor}
use cong_shed.Transfer.Control.{
  is_candidate, insert_slack, sort_slack, victims, preempt_sharing, suspend, suspend_all,
}
use cong_shed.Transfer.Candidates.{IsIn, IsPreemptable, is_candidate_iff}

module _ {W : Type 0} where
  -- A preemptible transfer as above that is one of the transfers.
  abbrev pub IsCandidateOf : List ℕ → List (TransferProgress W) → TransferProgress W → Type 0
  IsCandidateOf busy tps tp = IsIn tp tps × IsPreemptable busy tp

  -- The id is that of such a transfer.
  abbrev pub IsVictimOf : List ℕ → List (TransferProgress W) → ℕ → Type 0
  IsVictimOf busy tps i = (tp : TransferProgress W) × IsCandidateOf busy tps tp × (tp.id ≡ i)

  later :
      (busy : List ℕ) (x : TransferProgress W) (tps ys : List (TransferProgress W))
      → All (IsCandidateOf busy tps) ys
      → All (IsCandidateOf busy (x ∷ tps)) ys
  later busy x tps [] a = tt
  later busy x tps (y ∷ ys) a = ((inr a.0.0, a.0.1), later busy x tps ys a.1)

  kept_candidates :
      (busy : List ℕ) (tps : List (TransferProgress W))
      → All (IsCandidateOf busy tps) (keep (is_candidate busy) tps)
  kept_candidates busy [] = tt
  kept_candidates busy (tp ∷ tps) = elim (Bool-cases (is_candidate busy tp)) [
    | inl e ↦
        rw e (
          (inl refl, (is_candidate_iff busy tp).0 e),
          later busy tp tps _ (kept_candidates busy tps),
        )
    | inr e ↦ rw e (later busy tp tps _ (kept_candidates busy tps))
  ]

  All-take :
      (P : TransferProgress W → Type 0) (n : ℕ) (xs : List (TransferProgress W))
      → All P xs
      → All P (take n xs)
  All-take P zero xs a = tt
  All-take P (suc n) [] a = tt
  All-take P (suc n) (x ∷ xs) a = (a.0, All-take P n xs a.1)

  length-take_le :
      (n : ℕ) (xs : List (TransferProgress W)) → length (map (λ tp. tp.id) (take n xs)) ≤ n
  length-take_le zero xs = omega arith
  length-take_le (suc n) [] = omega arith
  length-take_le (suc n) (x ∷ xs) = omega (arith, length-take_le n xs)

  All-ids :
      (busy : List ℕ) (tps xs : List (TransferProgress W))
      → All (IsCandidateOf busy tps) xs
      → All (IsVictimOf busy tps) (map (λ tp. tp.id) xs)
  All-ids busy tps [] a = tt
  All-ids busy tps (x ∷ xs) a = ((x, a.0, refl), All-ids busy tps xs a.1)

  IsIn-keep :
      (t : TransferProgress W → Bool) (tp : TransferProgress W) (xs : List (TransferProgress W))
      → IsIn tp xs
      → t tp ≡ true
      → IsIn tp (keep t xs)
  IsIn-keep t tp [] i e = i
  IsIn-keep t tp (x ∷ xs) (inl q) e = rw (ap t (sym q) ∙ e) (inl q)
  IsIn-keep t tp (x ∷ xs) (inr i) e = elim (Bool-cases (t x)) [
    | inl k ↦ rw k (inr (IsIn-keep t tp xs i e))
    | inr k ↦ rw k (IsIn-keep t tp xs i e)
  ]

  ids_have :
      (tp : TransferProgress W) (xs : List (TransferProgress W))
      → IsIn tp xs
      → IsIn tp.id (map (λ x. x.id) xs)
  ids_have tp [] i = i
  ids_have tp (x ∷ xs) (inl q) = inl (ap (λ u. u.id) q)
  ids_have tp (x ∷ xs) (inr i) = inr (ids_have tp xs i)

  take_all :
      (n : ℕ) (xs : List (TransferProgress W))
      → (length (map (λ tp. tp.id) (take n xs)) ≡ n) ⊎ (take n xs ≡ xs)
  take_all zero xs = inl refl
  take_all (suc n) [] = inr refl
  take_all (suc n) (x ∷ xs) = elim (take_all n xs) [
    | inl e ↦ inl (ap suc e)
    | inr e ↦ inr (ap (λ ys. x ∷ ys) e)
  ]

  -- A transfer is as it was, or it is one of the ids and suspended.
  abbrev pub Suspends : List ℕ → List (TransferProgress W) → List (TransferProgress W) → Type 0
  Suspends ids [] [] = Unit
  Suspends ids [] (y ∷ ys) = ⊥
  Suspends ids (x ∷ xs) [] = ⊥
  Suspends ids (x ∷ xs) (y ∷ ys) =
      (((mem x.id ids ≡ false) × (y ≡ x)) ⊎ ((mem x.id ids ≡ true) × (y ≡ suspend x)))
      × Suspends ids xs ys

  suspend_all-Suspends :
      (ids : List ℕ) (tps : List (TransferProgress W)) → Suspends ids tps (suspend_all ids tps)
  unfolding suspend_all
  suspend_all-Suspends ids [] = tt
  suspend_all-Suspends ids (tp ∷ tps) = elim (Bool-cases (mem tp.id ids)) [
    | inl e ↦ (inr (e, rw e refl), suspend_all-Suspends ids tps)
    | inr e ↦ (inl (e, rw e refl), suspend_all-Suspends ids tps)
  ]

module _ {W : Type 0} ⦃d : Double W⦄ where
  All-insert :
      (P : TransferProgress W → Type 0) (tp : TransferProgress W) (xs : List (TransferProgress W))
      → P tp
      → All P xs
      → All P (insert_slack tp xs)
  unfolding insert_slack
  All-insert P tp [] p a = (p, tt)
  All-insert P tp (x ∷ xs) p a = elim (Bool-cases (tp.slack_us ≺ x.slack_us)) [
    | inl e ↦ rw e (a.0, All-insert P tp xs p a.1)
    | inr e ↦ rw e (p, (a.0, a.1))
  ]

  All-sort :
      (P : TransferProgress W → Type 0) (xs : List (TransferProgress W))
      → All P xs
      → All P (sort_slack xs)
  unfolding sort_slack
  All-sort P [] a = tt
  All-sort P (x ∷ xs) a = All-insert P x (sort_slack xs) a.0 (All-sort P xs a.1)

  IsIn-insert :
      (y tp : TransferProgress W) (xs : List (TransferProgress W))
      → (y ≡ tp) ⊎ IsIn y xs
      → IsIn y (insert_slack tp xs)
  unfolding insert_slack
  IsIn-insert y tp [] i = i
  IsIn-insert y tp (x ∷ xs) i = elim (Bool-cases (tp.slack_us ≺ x.slack_us)) [
    | inr e ↦ rw e i
    | inl e ↦ rw e (elim i [
      | inl q ↦ inr (IsIn-insert y tp xs (inl q))
      | inr (inl q) ↦ inl q
      | inr (inr j) ↦ inr (IsIn-insert y tp xs (inr j))
    ])
  ]

  IsIn-sort :
      (y : TransferProgress W) (xs : List (TransferProgress W)) → IsIn y xs → IsIn y (sort_slack xs)
  unfolding sort_slack
  IsIn-sort y [] i = i
  IsIn-sort y (x ∷ xs) (inl q) = IsIn-insert y x (sort_slack xs) (inl q)
  IsIn-sort y (x ∷ xs) (inr i) = IsIn-insert y x (sort_slack xs) (inr (IsIn-sort y xs i))

  -- There are `limit` ids, or every preemptible transfer in flight that shares a busy edge is among them.
  abbrev pub AreEnough : TransferExecutor W → List ℕ → ℕ → List ℕ → Type 0
  AreEnough x busy limit ids =
      (length ids ≡ limit)
      ⊎ ((tp : TransferProgress W) → IsCandidateOf busy x.transfers tp → IsIn tp.id ids)

  victims-AreEnough :
      (x : TransferExecutor W) (busy : List ℕ) (limit : ℕ)
      → AreEnough x busy limit (victims x busy limit)
  unfolding victims
  victims-AreEnough x busy limit =
      let cs = keep (is_candidate busy) x.transfers in
      elim (take_all limit (sort_slack cs)) [
        | inl e ↦ inl e
        | inr e ↦ inr (λ tp c.
            subst (λ ys. IsIn tp.id (map (λ u. u.id) ys)) (sym e)
              (ids_have tp (sort_slack cs) (
                IsIn-sort tp cs (
                  IsIn-keep (is_candidate busy) tp x.transfers c.0
                    ((is_candidate_iff busy tp).1 c.1)))))
      ]

  -- `preempt_sharing` returns at most `limit` ids, each of a preemptible transfer in flight of which the path or a
  -- chunk in flight shares a busy edge; it returns fewer only if the ids of all such transfers are among them.
  -- It suspends the transfers of these ids and changes no other.
  pub preempt_sharing-victims :
      (x : TransferExecutor W) (busy : List ℕ) (limit : ℕ)
      → (length (preempt_sharing x busy limit).1 ≤ limit)
        × All (IsVictimOf busy x.transfers) (preempt_sharing x busy limit).1
        × AreEnough x busy limit (preempt_sharing x busy limit).1
        × Suspends
            (preempt_sharing x busy limit).1
            x.transfers
            (preempt_sharing x busy limit).0.transfers
  unfolding preempt_sharing victims
  preempt_sharing-victims x busy limit =
      let cs = keep (is_candidate busy) x.transfers in
      let P = IsCandidateOf busy x.transfers in
      (
        length-take_le limit (sort_slack cs),
        All-ids busy x.transfers (take limit (sort_slack cs))
            (All-take P limit (sort_slack cs) (All-sort P cs (kept_candidates busy x.transfers))),
        victims-AreEnough x busy limit,
        suspend_all-Suspends (victims x busy limit) x.transfers,
      )
