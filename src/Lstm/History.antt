-- ===== src/Lstm/History.antt =====
-- Proofs about lstm/lstm_predictor.cpp: the rolling history of an edge.
use cong_shed.Base.{
  length-replicate, ℕ, zero, suc, ◌+◌, ◌-◌, ◌<◌, ◌≡◌, refl, ap, ◌∙◌, inl, inr, Bool-cases, some,
  List, [], ◌∷◌, arith, min, ltb, length, length-set, get_elem?, set, get_elem?-set_self,
  get_elem?-set_ne,
}
use cong_shed.Base.Double.{Double, nought}
use cong_shed.Lstm.{history_len, shift_in, blank_history, push_history}

module _ {A : Type 0} where
  length-shift_in : (u : A) (xs : List A) → length (shift_in u xs) ≡ length xs
  length-shift_in u [] = refl
  length-shift_in u (x ∷ []) = refl
  length-shift_in u (x ∷ y ∷ xs) = ap suc (length-shift_in u (y ∷ xs))

  shift_in_last :
      (u : A) (xs : List A) (n : ℕ) → length xs ≡ suc n → get_elem? (shift_in u xs) n ≡ some u
  shift_in_last u [] n h = absurd (omega arith)
  shift_in_last u (x ∷ []) zero h = refl
  shift_in_last u (x ∷ []) (suc n) h = absurd (omega arith)
  shift_in_last u (x ∷ y ∷ xs) zero h = absurd (omega arith)
  shift_in_last u (x ∷ y ∷ xs) (suc n) h = shift_in_last u (y ∷ xs) n (omega arith)

  shift_in_before :
      (u : A) (xs : List A) (i : ℕ)
      → suc i < length xs
      → get_elem? (shift_in u xs) i ≡ get_elem? xs (suc i)
  shift_in_before u [] i h = absurd (omega arith)
  shift_in_before u (x ∷ []) i h = absurd (omega arith)
  shift_in_before u (x ∷ y ∷ xs) zero h = refl
  shift_in_before u (x ∷ y ∷ xs) (suc i) h = shift_in_before u (y ∷ xs) i (omega arith)

  -- The first `n` places of the history are the newest `n` samples, the newest last, for `n` the number of samples
  -- or the length of the history.
  abbrev pub Holds : List A → List A → ℕ → Type 0
  Holds ss hist n =
      (n ≡ min (length ss) history_len)
      × (length hist ≡ history_len)
      × ((j : ℕ) → j < n → get_elem? hist (n - 1 - j) ≡ get_elem? ss j)

  placed :
      (ss hist : List A) (n : ℕ) (u : A)
      → n < length hist
      → ((j : ℕ) → j < n → get_elem? hist (n - 1 - j) ≡ get_elem? ss j)
      → (j : ℕ) → j < n + 1
      → get_elem? (set hist n u) (n + 1 - 1 - j) ≡ get_elem? (u ∷ ss) j
  placed ss hist n u h c zero k =
      let e : n + 1 - 1 - 0 ≡ n = omega arith in
      ap (get_elem? (set hist n u)) e ∙ get_elem?-set_self hist n u h
  placed ss hist n u h c (suc j) k =
      let e : n + 1 - 1 - suc j ≡ n - 1 - j = omega arith in
      ap (get_elem? (set hist n u)) e
      ∙ get_elem?-set_ne hist n (n - 1 - j) u (λ q. omega arith)
      ∙ c j (omega arith)

  shifted :
      (ss hist : List A) (n : ℕ) (u : A)
      → n ≡ length hist
      → ((j : ℕ) → j < n → get_elem? hist (n - 1 - j) ≡ get_elem? ss j)
      → (j : ℕ) → j < n
      → get_elem? (shift_in u hist) (n - 1 - j) ≡ get_elem? (u ∷ ss) j
  shifted ss hist n u h c zero k =
      let e : n - 1 - 0 ≡ n - 1 = omega arith in
      ap (get_elem? (shift_in u hist)) e ∙ shift_in_last u hist (n - 1) (omega arith)
  shifted ss hist n u h c (suc j) k =
      let e : n - 1 - suc j ≡ n - 2 - j = omega arith in
      let f : suc (n - 2 - j) ≡ n - 1 - j = omega arith in
      ap (get_elem? (shift_in u hist)) e
      ∙ shift_in_before u hist (n - 2 - j) (omega arith)
      ∙ ap (get_elem? hist) f
      ∙ c j (omega arith)

module _ {W : Type 0} ⦃d : Double W⦄ where
  push_history-Holds :
      (ss hist : List W) (n : ℕ) (u : W)
      → Holds ss hist n
      → Holds (u ∷ ss) (push_history hist n u).0 (push_history hist n u).1
  unfolding push_history
  push_history-Holds ss hist n u (a, b, c) = elim (Bool-cases (ltb n history_len)) [
    | inl e ↦ rw e (ground arith, length-set hist n u ∙ b, placed ss hist n u (ground arith) c)
    | inr e ↦ rw e (ground arith, length-shift_in u hist ∙ b, shifted ss hist n u (ground arith) c)
  ]

  -- The history of an edge, and its count, after these samples, the newest first.
  unfoldable pub pushed : List W → List W × ℕ
  pushed [] = (blank_history, 0)
  pushed (s ∷ ss) = push_history (pushed ss).0 (pushed ss).1 s

  -- After any samples, the history of an edge counts them up to its 16 places, and holds the newest of them in the
  -- order in which they came.
  pub push_history-newest : (ss : List W) → Holds ss (pushed ss).0 (pushed ss).1
  unfolding pushed
  push_history-newest [] =
      (omega arith, length-replicate {A = W} history_len nought, λ j h. absurd (omega arith))
  push_history-newest (s ∷ ss) =
      push_history-Holds ss (pushed ss).0 (pushed ss).1 s (push_history-newest ss)
