-- ===== src/PathEngine/Turn.antt =====
-- Proofs about path_engine/path_engine.cpp: one request of `drain_boundary_reroutes` at its turn.
use cong_shed.Base.{
  ℕ, suc, ◌≡◌, ◌≢◌, refl, ◌⊎◌, inl, inr, Bool, true, false, not, ◌||◌, if◌then◌else◌, some, List,
  [], ◌∷◌, arith, ◌==◌, ==_iff, if_either_eq,
}
use cong_shed.Base.Double.{Double}
use cong_shed.Model.{PathCost}
use cong_shed.Transfer.State.{
  TransferState, paused, in_flight, completed, cancelled, state_eq, TransferExecutor,
}
use cong_shed.Transfer.Control.{reroute}
use cong_shed.Transfer.Drain.{get}
use cong_shed.PathEngine.{PendingReroute, PathSelectionEngine}
use cong_shed.PathEngine.Reroute.{reroute_paused, drain_one}
use cong_shed.PathEngine.Moved.{Moved, reroute-Moved}

ended :
    (s : TransferState)
    → (state_eq s completed || state_eq s cancelled) ≡ true
    → (s ≡ completed) ⊎ (s ≡ cancelled)
ended s h = ground arith

going :
    (s : TransferState)
    → (state_eq s completed || state_eq s cancelled) ≡ false
    → (s ≢ completed) × (s ≢ cancelled)
going s h = ground arith

held : (s : TransferState) → not (state_eq s paused) ≡ false → s ≡ paused
held s h = ground arith

free : (s : TransferState) → not (state_eq s paused) ≡ true → s ≢ paused
free s h = ground arith

taken : (a b : Bool) → (a || not b) ≡ false → b ≡ true
taken a b h = ground arith

pub not_both :
    (s : TransferState) → s ≡ in_flight → (s ≡ paused) ⊎ ((s ≡ completed) ⊎ (s ≡ cancelled)) → ⊥
not_both s h k = ground (arith, h, k)

pub paused_going : (s : TransferState) → s ≡ paused → (s ≢ completed) × (s ≢ cancelled)
paused_going s h = ground (arith, h)

module _ {W : Type 0} ⦃d : Double W⦄ where
  -- The transfer had ended, or it was suspended and has nothing left to send or is in flight again.
  abbrev pub IsDropped : TransferExecutor W → TransferExecutor W → PendingReroute → Type 0
  IsDropped x y pr =
      (((get x pr.id).state ≡ completed) ⊎ ((get x pr.id).state ≡ cancelled))
      ⊎ (((get x pr.id).state ≡ paused)
          × (((get x pr.id).bytes_remaining ≡ 0) ⊎ ((get y pr.id).state ≡ in_flight)))

  -- The transfer had not ended, and it was not suspended or had bytes to send.
  abbrev pub IsKept : TransferExecutor W → PendingReroute → Type 0
  IsKept x pr =
      ((get x pr.id).state ≢ completed)
      × ((get x pr.id).state ≢ cancelled)
      × (((get x pr.id).state ≢ paused) ⊎ ((get x pr.id).bytes_remaining ≢ 0))

  -- The requests in turn, those that stay, and the number of the others.
  abbrev pub Splits :
      TransferExecutor W
      → TransferExecutor W
      → List PendingReroute
      → List PendingReroute
      → ℕ
      → Type 0
  Splits x y [] stays n = (stays ≡ []) × (n ≡ 0)
  Splits x y (pr ∷ prs) stays n =
      (IsDropped x y pr × (m : ℕ) × (n ≡ suc m) × Splits x y prs stays m)
      ⊎ (IsKept x pr × (rest : List PendingReroute) × (stays ≡ pr ∷ rest) × Splits x y prs rest n)

  unfoldable pub Step : TransferExecutor W → PendingReroute → PathSelectionEngine W × Bool → Type 0
  Step x pr r =
      (y : TransferExecutor W) × (r.0.executor ≡ some y)
      × Moved x y
      × (((r.1 ≡ true) × IsDropped x y pr) ⊎ ((r.1 ≡ false) × IsKept x pr))

  rerouted-Step :
      (x : TransferExecutor W) (pr : PendingReroute) (best : PathCost W) (b : Bool)
      (e e' : PathSelectionEngine W)
      → (get x pr.id).state ≡ paused
      → (get x pr.id).bytes_remaining ≢ 0
      → e.executor ≡ some x
      → e'.executor ≡ some (reroute x pr.id best).0
      → Step x pr (if b || not (reroute x pr.id best).1 then (e, false) else (e', true))
  unfolding Step
  rerouted-Step x pr best b e e' p left k k' =
      if_either_eq (Step x pr) (b || not (reroute x pr.id best).1) (e, false) (e', true)
        (λ t. (
          x,
          k,
          (λ i. inl refl),
          inr (
            refl,
            (
              (paused_going (get x pr.id).state p).0,
              (paused_going (get x pr.id).state p).1,
              inr left,
            ),
          ),
        ))
        (λ t.
          let m = reroute-Moved x pr.id best p left (taken b (reroute x pr.id best).1 t) in
          ((reroute x pr.id best).0, k', m.0, inl (refl, inr (p, inr m.1))))

  pub drain_one-Step :
      (e : PathSelectionEngine W) (x : TransferExecutor W) (pr : PendingReroute) (current : List W)
      → e.executor ≡ some x
      → Step x pr (drain_one e x pr current)
  unfolding drain_one reroute_paused Step
  drain_one-Step e x pr current k =
      let s = (get x pr.id).state in
      let n = (get x pr.id).bytes_remaining in
      if_either_eq (Step x pr) (state_eq s completed || state_eq s cancelled) (e, true) _
        (λ c. (x, k, (λ i. inl refl), inl (refl, inl (ended s c))))
        (λ c.
          if_either_eq (Step x pr) (not (state_eq s paused)) (e, false) _
            (λ f.
              (x, k, (λ i. inl refl), inr (refl, ((going s c).0, (going s c).1, inl (free s f)))))
            (λ f.
              if_either_eq (Step x pr) (n == 0) (e, true) _
                (λ z. (x, k, (λ i. inl refl), inl (refl, inr (held s f, inl ((==_iff n 0).0 z)))))
                (λ z. rerouted-Step x pr _ _ _ _ (held s f) (λ q. ground (arith, q, z)) k refl)))
