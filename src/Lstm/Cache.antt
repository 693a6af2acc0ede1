-- ===== src/Lstm/Cache.antt =====
-- Proofs about lstm/lstm_predictor.cpp: the prediction cache.
use cong_shed.Base.{
  ℕ, zero, suc, ◌+◌, word32, add32, ◌≤◌, ◌<◌, ◌≡◌, refl, sym, ap, ◌∙◌, ◌≢◌, inl, inr, Bool-cases,
  List, [], ◌∷◌, arith, leb, if◌then◌else◌, length, get_or, get_or-set_self, get_or-set_ne,
}
use cong_shed.Base.Double.{Double, nought}
use cong_shed.Lstm.{LstmPredictor, resize, update_cache, cached_prediction}

module _ {A : Type 0} where
  pub length-resize : (n : ℕ) (v : A) (xs : List A) → length (resize n v xs) ≡ n
  length-resize zero v xs = refl
  length-resize (suc n) v [] = ap suc (length-resize n v [])
  length-resize (suc n) v (x ∷ xs) = ap suc (length-resize n v xs)

  get_or-resize :
      (n : ℕ) (v : A) (xs : List A) (k : ℕ)
      → length xs ≤ n
      → get_or (resize n v xs) k v ≡ get_or xs k v
  get_or-resize zero v [] k h = refl
  get_or-resize zero v (x ∷ xs) k h = absurd (omega arith)
  get_or-resize (suc n) v [] zero h = refl
  get_or-resize (suc n) v [] (suc k) h = get_or-resize n v [] k (omega arith)
  get_or-resize (suc n) v (x ∷ xs) zero h = refl
  get_or-resize (suc n) v (x ∷ xs) (suc k) h = get_or-resize n v xs k (omega arith)

  -- The cache with a place for the edge.
  abbrev grown : A → ℕ → List A → List A
  grown v e xs =
      if leb (length xs) e
      then resize (if leb (length xs) e then add32 e 1 else length xs) v xs
      else xs

  place-grown : (v : A) (e : ℕ) (xs : List A) → e + 1 < word32 → e < length (grown v e xs)
  place-grown v e xs h = elim (Bool-cases (leb (length xs) e)) [
    | inl k ↦ rw k (omega (arith, h, length-resize (add32 e 1) v xs))
    | inr k ↦ rw k (ground arith)
  ]

  get_or-grown :
      (v : A) (e : ℕ) (xs : List A) (k : ℕ)
      → e + 1 < word32
      → get_or (grown v e xs) k v ≡ get_or xs k v
  get_or-grown v e xs k h = elim (Bool-cases (leb (length xs) e)) [
    | inl b ↦ rw b (get_or-resize (add32 e 1) v xs k (ground (arith, h)))
    | inr b ↦ rw b refl
  ]

module _ {W : Type 0} ⦃d : Double W⦄ where
  -- An update of the cache is what the cache then predicts for the edge, at any index but the last of a
  -- `uint32_t`, and it changes the prediction of no other edge.
  pub cached_prediction-update_cache :
      (p : LstmPredictor W) (e : ℕ) (current predicted : W)
      → e + 1 < word32
      → (cached_prediction (update_cache p e current predicted) e ≡ predicted)
        × ((k : ℕ)
            → k ≢ e
            → cached_prediction (update_cache p e current predicted) k ≡ cached_prediction p k)
  unfolding cached_prediction update_cache
  cached_prediction-update_cache p e current predicted h =
      let xs = grown nought e p.prediction_cache in
      (
        get_or-set_self xs e predicted nought (place-grown nought e p.prediction_cache h),
        λ k n.
            get_or-set_ne xs e k predicted nought (λ q. n (sym q))
            ∙ get_or-grown nought e p.prediction_cache k h,
      )
