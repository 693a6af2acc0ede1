-- ===== src/Lstm/Forward.antt =====
-- lstm/lstm_predictor.cpp: the forward pass. A row of a matrix is the part of the weights from `r * n` on.
use cong_shed.Base.{ℕ, suc, ◌+◌, ◌*◌, List, [], ◌∷◌, map, get_or, take, replicate, range}
use cong_shed.Base.Int.{ℤ, pos}
use cong_shed.Base.Double.{Double, ◌⊕◌, ◌⊖◌, ◌⊗◌, ◌⊘◌, fclamp, nought, one}
use cong_shed.Lstm.{hidden_size, LstmLayerWeights, Weights, LstmPredictor, blank_history}

module _ {W : Type 0} ⦃d : Double W⦄ where
  open d use {decimal, of_int, exp, tanh, narrow}

  unfoldable pub sigmoid : W → W
  sigmoid x =
      let y = fclamp x (nought ⊖ decimal 20 0) (decimal 20 0) in one ⊘ (one ⊕ exp (nought ⊖ y))

  -- `sum += x[i] * (w[at + i] * scale)` for each `x[i]`
  unfoldable pub dot_from : List ℤ → ℕ → W → W → List W → W
  dot_from w at scale acc [] = acc
  dot_from w at scale acc (x ∷ xs) =
      dot_from w (suc at) scale (acc ⊕ x ⊗ narrow (of_int (get_or w at (pos 0)) ⊗ scale)) xs

  unfoldable pub gate_sum : LstmLayerWeights W → List W → List W → ℕ → W
  unfolding dot_from
  gate_sum layer x h r =
      let bias = narrow (get_or layer.b_ih r nought ⊕ get_or layer.b_hh r nought) in
      let inputs =
        dot_from layer.w_ih (r * layer.input_size) layer.scale_ih bias (take layer.input_size x) in
      dot_from layer.w_hh (r * hidden_size) layer.scale_hh inputs h

  -- The new hidden and cell value of unit `u`.
  unfoldable pub unit_step : LstmLayerWeights W → List W → List W → List W → ℕ → W × W
  unfolding gate_sum sigmoid
  unit_step layer x h c u =
      let i_g = sigmoid (gate_sum layer x h u) in
      let f_g = sigmoid (gate_sum layer x h (hidden_size + u)) in
      let g_g = tanh (gate_sum layer x h (2 * hidden_size + u)) in
      let o_g = sigmoid (gate_sum layer x h (3 * hidden_size + u)) in
      let cell = f_g ⊗ get_or c u nought ⊕ i_g ⊗ g_g in (o_g ⊗ tanh cell, cell)

  unfoldable pub lstm_layer_forward :
      LstmLayerWeights W → List W → List W → List W → List W × List W
  unfolding unit_step
  lstm_layer_forward layer x h c =
      let new = map (unit_step layer x h c) (range hidden_size) in
      (map (λ u. u.0) new, map (λ u. u.1) new)

  unfoldable pub head_forward : Weights W → List W → W
  unfolding dot_from sigmoid
  head_forward w h = sigmoid (dot_from w.head_w 0 w.head_scale w.head_b (take hidden_size h))

  abbrev pub zeros : List W
  zeros = replicate hidden_size nought

  -- The time steps; the result is the second layer's hidden state.
  unfoldable pub run_steps :
      LstmLayerWeights W → LstmLayerWeights W → List W → List W → List W → List W → List W → List W
  unfolding lstm_layer_forward
  run_steps l0 l1 h0 c0 h1 c1 [] = h1
  run_steps l0 l1 h0 c0 h1 c1 (x ∷ xs) =
      let r0 = lstm_layer_forward l0 (x ∷ []) h0 c0 in
      let r1 = lstm_layer_forward l1 r0.0 h1 c1 in run_steps l0 l1 r0.0 r0.1 r1.0 r1.1 xs

  -- `LstmLayerWeights{}`
  abbrev pub blank_layer : LstmLayerWeights W
  blank_layer = record {
    w_ih = [];
    w_hh = [];
    b_ih = [];
    b_hh = [];
    scale_ih = narrow (decimal 1 2);
    scale_hh = narrow (decimal 1 2);
    input_size = 1;
  }

  unfoldable pub predict : Weights W → List W → W
  unfolding run_steps head_forward
  predict w history =
      let l0 = get_or w.layers 0 blank_layer in
      let l1 = get_or w.layers 1 blank_layer in
      fclamp (head_forward w (run_steps l0 l1 zeros zeros zeros zeros history)) nought one

  unfoldable pub predict_edge : LstmPredictor W → ℕ → W
  unfolding predict
  predict_edge p edge = predict p.weights (get_or p.edge_history edge blank_history)
