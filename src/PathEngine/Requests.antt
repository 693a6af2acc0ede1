-- ===== src/PathEngine/Requests.antt =====
-- Proofs about path_engine/path_engine.cpp: the requests of `drain_boundary_reroutes`.
use cong_shed.Base.{
  ℕ, suc, ◌≡◌, ◌≢◌, refl, sym, ap, ◌∙◌, subst, ◌⊎◌, inl, inr, Bool, true, false, if◌then◌else◌,
  some, List, [], ◌∷◌,
}
use cong_shed.Base.Double.{Double}
use cong_shed.Transfer.State.{
  paused, in_flight, completed, cancelled, TransferProgress, TransferExecutor,
}
use cong_shed.Transfer.Drain.{get}
use cong_shed.PathEngine.{PendingReroute, PathSelectionEngine}
use cong_shed.PathEngine.Reroute.{drain_one, drain_requests, drain_boundary_reroutes}
use cong_shed.PathEngine.Moved.{Moved, Moved-trans}
use cong_shed.PathEngine.Turn.{
  paused_going, not_both, IsDropped, IsKept, Splits, Step, drain_one-Step,
}

module _ {W : Type 0} ⦃d : Double W⦄ where
  -- What holds of a request at its turn holds for the executor before and the one after.
  Dropped-before :
      (x z y : TransferExecutor W) (pr : PendingReroute)
      → Moved x z
      → IsDropped z y pr
      → IsDropped x y pr
  Dropped-before x z y pr m h = elim (m pr.id) [
    | inl q ↦
        subst
          (λ (tp : TransferProgress W).
            ((tp.state ≡ completed) ⊎ (tp.state ≡ cancelled))
            ⊎ ((tp.state ≡ paused)
                × ((tp.bytes_remaining ≡ 0) ⊎ ((get y pr.id).state ≡ in_flight))))
          q h
    | inr (p, n, f) ↦ elim h [
      | inl e ↦ absurd (not_both (get z pr.id).state f (inr e))
      | inr (e, k) ↦ absurd (not_both (get z pr.id).state f (inl e))
    ]
  ]

  Dropped-after :
      (x z y : TransferExecutor W) (pr : PendingReroute)
      → Moved z y
      → IsDropped x z pr
      → IsDropped x y pr
  Dropped-after x z y pr m (inl e) = inl e
  Dropped-after x z y pr m (inr (p, inl e)) = inr (p, inl e)
  Dropped-after x z y pr m (inr (p, inr f)) = elim (m pr.id) [
    | inl q ↦ inr (p, inr (ap (λ u. u.state) q ∙ f))
    | inr (a, n, c) ↦ inr (p, inr c)
  ]

  Kept-before :
      (x z : TransferExecutor W) (pr : PendingReroute) → Moved x z → IsKept z pr → IsKept x pr
  Kept-before x z pr m h = elim (m pr.id) [
    | inl q ↦
        subst
          (λ (tp : TransferProgress W).
            (tp.state ≢ completed)
            × (tp.state ≢ cancelled)
            × ((tp.state ≢ paused) ⊎ (tp.bytes_remaining ≢ 0)))
          q h
    | inr (p, n, f) ↦ let g = paused_going (get x pr.id).state p in (g.0, g.1, inr n)
  ]

  Splits-before :
      (x z y : TransferExecutor W) (prs stays : List PendingReroute) (n : ℕ)
      → Moved x z
      → Splits z y prs stays n
      → Splits x y prs stays n
  Splits-before x z y [] stays n m h = h
  Splits-before x z y (pr ∷ prs) stays n m (inl (a, k, e, h)) =
      inl (Dropped-before x z y pr m a, k, e, Splits-before x z y prs stays k m h)
  Splits-before x z y (pr ∷ prs) stays n m (inr (a, rest, e, h)) =
      inr (Kept-before x z pr m a, rest, e, Splits-before x z y prs rest n m h)

  -- The result of the drain, given that of one request and that of the others.
  abbrev with_one :
      Bool
      → PendingReroute
      → PathSelectionEngine W × ℕ × List PendingReroute
      → PathSelectionEngine W × ℕ × List PendingReroute
  with_one b pr r = (r.0, if b then suc r.1 else r.1, if b then r.2 else pr ∷ r.2)

  drain_none :
      (e : PathSelectionEngine W) (current : List W) → drain_requests e [] current ≡ (e, 0, [])
  unfolding drain_requests
  drain_none e current = refl

  drain_some :
      (pr : PendingReroute) (prs : List PendingReroute) (e : PathSelectionEngine W)
      (x : TransferExecutor W) (current : List W)
      → e.executor ≡ some x
      → drain_requests e (pr ∷ prs) current
        ≡ with_one
            (drain_one e x pr current).1
            pr
            (drain_requests (drain_one e x pr current).0 prs current)
  unfolding drain_requests
  drain_some pr prs e x current k = rw k refl

  -- The drained engine has an executor, whose transfers moved at most, and the requests are split.
  Drained :
      TransferExecutor W
      → List PendingReroute
      → PathSelectionEngine W × ℕ × List PendingReroute
      → Type 0
  Drained x prs r =
      (y : TransferExecutor W) × (r.0.executor ≡ some y) × Moved x y × Splits x y prs r.2 r.1

  with_one-Drained :
      (x z : TransferExecutor W) (pr : PendingReroute) (prs : List PendingReroute) (b : Bool)
      (r : PathSelectionEngine W × ℕ × List PendingReroute)
      → Moved x z
      → ((b ≡ true) × IsDropped x z pr) ⊎ ((b ≡ false) × IsKept x pr)
      → Drained z prs r
      → Drained x (pr ∷ prs) (with_one b pr r)
  unfolding Drained
  with_one-Drained x z pr prs b r m (inl (t, a)) (y, k, m', h) = rw t (
    y,
    k,
    Moved-trans x z y m m',
    inl (Dropped-after x z y pr m' a, r.1, refl, Splits-before x z y prs r.2 r.1 m h),
  )
  with_one-Drained x z pr prs b r m (inr (t, a)) (y, k, m', h) =
      rw t (y, k, Moved-trans x z y m m', inr (a, r.2, refl, Splits-before x z y prs r.2 r.1 m h))

  drain_requests-Drained :
      (prs : List PendingReroute) (e : PathSelectionEngine W) (x : TransferExecutor W)
      (current : List W)
      → e.executor ≡ some x
      → Drained x prs (drain_requests e prs current)
  unfolding Drained Step
  drain_requests-Drained [] e x current k =
      subst (Drained x []) (sym (drain_none e current)) (x, k, (λ i. inl refl), (refl, refl))
  drain_requests-Drained (pr ∷ prs) e x current k =
      let one = drain_one-Step e x pr current k in
      subst (Drained x (pr ∷ prs)) (sym (drain_some pr prs e x current k)) (
        with_one-Drained x one.0 pr prs (drain_one e x pr current).1
          (drain_requests (drain_one e x pr current).0 prs current) one.2 one.3
          (drain_requests-Drained prs (drain_one e x pr current).0 one.0 current one.1))

  -- A drain over an executor tells the requests apart, in their order, and counts those that it drops. A
  -- request is dropped whose transfer had ended before the drain, or was suspended and either had nothing left
  -- to send or is in flight again after the drain. A request stays whose transfer had not ended, and was not
  -- suspended or had bytes to send.
  pub drain_boundary_reroutes-Splits :
      (e : PathSelectionEngine W) (x : TransferExecutor W) (current : List W)
      → e.executor ≡ some x
      → (y : TransferExecutor W) × ((drain_boundary_reroutes e current).0.executor ≡ some y)
        × Splits x y e.pending_reroutes
            (drain_boundary_reroutes e current).0.pending_reroutes
            (drain_boundary_reroutes e current).1
  unfolding drain_boundary_reroutes Drained
  drain_boundary_reroutes-Splits e x current k =
      let r = drain_requests-Drained e.pending_reroutes e x current k in (r.0, r.1, r.3)
