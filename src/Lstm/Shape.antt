-- ===== src/Lstm/Shape.antt =====
-- lstm/lstm_predictor.cpp and lstm_predictor.hpp: the default weights, and the shape that the comments of
-- `LstmLayerWeights` give the arrays.
use cong_shed.Base.{
  ℕ, ◌+◌, ◌*◌, ◌%◌, ◌≡◌, refl, false, List, [], ◌∷◌, map, ◌==◌, if◌then◌else◌, length, replicate,
  All, All-set, All-replicate, length-set, length-replicate, ◌∙◌, arith, sub64, set, range,
}
use cong_shed.Base.Int.{ℤ, pos, diff}
use cong_shed.Base.Bytes.{IsInt8, IsFloat, byte_int8, byte_int8-IsInt8, to_int8, to_int8-IsInt8}
use cong_shed.Base.Double.{Double, nought, one, IsFloating}
use cong_shed.Lstm.{hidden_size, num_layers, gates, LstmLayerWeights, Weights, LstmPredictor}

module _ {W : Type 0} ⦃d : Double W⦄ where
  open d use {decimal, narrow}

  -- A layer of 32 units with so many inputs, of quantised weights.
  pub record IsLayer (inputs : ℕ) (l : LstmLayerWeights W) : Type 0 where
    pub input_size : l.input_size ≡ inputs
    pub length-w_ih : length l.w_ih ≡ gates * hidden_size * inputs
    pub length-w_hh : length l.w_hh ≡ gates * hidden_size * hidden_size
    pub length-b_ih : length l.b_ih ≡ gates * hidden_size
    pub length-b_hh : length l.b_hh ≡ gates * hidden_size
    pub w_ih-IsInt8 : All IsInt8 l.w_ih
    pub w_hh-IsInt8 : All IsInt8 l.w_hh
    pub b_ih-IsFloat : All IsFloat l.b_ih
    pub b_hh-IsFloat : All IsFloat l.b_hh
    pub scale_ih-IsFloat : IsFloat l.scale_ih
    pub scale_hh-IsFloat : IsFloat l.scale_hh

  -- Two layers, the second on the first one's units, and a head.
  pub record IsWeights (w : Weights W) : Type 0 where
    pub first : LstmLayerWeights W
    pub second : LstmLayerWeights W
    pub layers : w.layers ≡ first ∷ second ∷ []
    pub first-IsLayer : IsLayer 1 first
    pub second-IsLayer : IsLayer hidden_size second
    pub length-head_w : length w.head_w ≡ hidden_size
    pub head_w-IsInt8 : All IsInt8 w.head_w
    pub head_scale-IsFloat : IsFloat w.head_scale
    pub head_b-IsFloat : IsFloat w.head_b
    pub length-ada_head : length w.ada_head ≡ hidden_size
    pub length-ada_w_ih0 : length w.ada_w_ih0 ≡ gates * hidden_size

-- `for (…) xs[i] = f(i)` over the indices.
unfoldable pub assign_each : {A : Type 0} → (ℕ → A) → List ℕ → List A → List A
assign_each f [] xs = xs
assign_each f (i ∷ is) xs = assign_each f is (set xs i (f i))

module _ {A : Type 0} where
  length-assign_each :
      (f : ℕ → A) (is : List ℕ) (xs : List A) → length (assign_each f is xs) ≡ length xs
  unfolding assign_each
  length-assign_each f [] xs = refl
  length-assign_each f (i ∷ is) xs =
      length-assign_each f is (set xs i (f i)) ∙ length-set xs i (f i)

  All-assign_each :
      (P : A → Type 0) (f : ℕ → A) (is : List ℕ) (xs : List A)
      → ((i : ℕ) → P (f i))
      → All P xs
      → All P (assign_each f is xs)
  unfolding assign_each
  All-assign_each P f [] xs h p = p
  All-assign_each P f (i ∷ is) xs h p =
      All-assign_each P f is (set xs i (f i)) h (All-set P xs i (f i) (h i) p)

-- The quantised weight of index `i` of the two matrices of layer `l`, computed in `size_t`.
abbrev seed_ih : ℕ → ℕ → ℤ
seed_ih l i = byte_int8 (sub64 ((i * 17 + l * 3) % 11) 5 % 256)

abbrev seed_hh : ℕ → ℕ → ℤ
seed_hh l i = byte_int8 (sub64 ((i * 13 + l * 7) % 9) 4 % 256)

-- `HIDDEN_SIZE + h`: the rows of the forget gate
abbrev forget_rows : List ℕ
forget_rows = map (λ u. hidden_size + u) (range hidden_size)

-- An array of `n` weights, assigned one by one.
unfoldable pub seeded : (ℕ → ℤ) → ℕ → List ℤ
unfolding assign_each
seeded f n = assign_each f (range n) (replicate n (pos 0))

seeded_shape :
    (f : ℕ → ℤ) (n : ℕ)
    → ((i : ℕ) → IsInt8 (f i))
    → (length (seeded f n) ≡ n) × All IsInt8 (seeded f n)
unfolding seeded
seeded_shape f n h = (
  length-assign_each f (range n) (replicate n (pos 0)) ∙ length-replicate n (pos 0),
  All-assign_each IsInt8 f (range n) (replicate n (pos 0)) h
      (All-replicate IsInt8 n (pos 0) (omega arith)),
)

module _ {W : Type 0} ⦃d : Double W⦄ where
  open d use {decimal, narrow}

  -- A bias of `n` zeros with `v` at the forget gate.
  unfoldable pub gate_bias : W → ℕ → List W
  unfolding assign_each
  gate_bias v n = assign_each (λ i. v) forget_rows (replicate n (narrow nought))

  unfoldable pub default_layer : ℕ → LstmLayerWeights W
  unfolding seeded gate_bias
  default_layer l =
      let inputs = (if l == 0 then 1 else hidden_size) in
      record {
        input_size = inputs;
        w_ih = seeded (seed_ih l) (gates * hidden_size * inputs);
        w_hh = seeded (seed_hh l) (gates * hidden_size * hidden_size);
        b_ih = gate_bias (narrow one) (gates * hidden_size);
        b_hh = gate_bias (narrow nought) (gates * hidden_size);
        scale_ih = narrow (decimal 2 2);
        scale_hh = narrow (decimal 2 2);
      }

  unfoldable pub init_default_weights : Weights W
  unfolding default_layer
  init_default_weights = record {
    layers = map default_layer (range num_layers);
    head_w = seeded (λ i. to_int8 (diff (i % 7) 3)) hidden_size;
    head_scale = narrow (decimal 5 2);
    head_b = narrow nought;
    weights_loaded = false;
    ada_head = replicate hidden_size (narrow nought);
    ada_w_ih0 = replicate (length (default_layer 0).w_ih) (narrow nought);
  }

  -- The constructor.
  unfoldable pub new_predictor : LstmPredictor W
  unfolding init_default_weights
  new_predictor = record {
    weights = init_default_weights;
    prediction_cache = [];
    current_util_cache = [];
    edge_history = [];
    edge_hist_count = [];
  }

  module _ (fl : IsFloating W) where
    gate_bias_shape :
        (v : W) (n : ℕ) → IsFloat v → (length (gate_bias v n) ≡ n) × All IsFloat (gate_bias v n)
    unfolding gate_bias
    gate_bias_shape v n h = (
      length-assign_each (λ i. v) forget_rows (replicate n (narrow nought))
          ∙ length-replicate n (narrow nought),
      All-assign_each IsFloat (λ i. v) forget_rows (replicate n (narrow nought)) (λ i. h)
          (All-replicate IsFloat n (narrow nought) (fl.narrow-narrow nought)),
    )

    default_layer-IsLayer : (l : ℕ) → IsLayer (if l == 0 then 1 else hidden_size) (default_layer l)
    unfolding default_layer
    default_layer-IsLayer l =
        let inputs = (if l == 0 then 1 else hidden_size) in
        let ih =
          seeded_shape (seed_ih l) (gates * hidden_size * inputs)
            (λ i. byte_int8-IsInt8 _ (omega arith)) in
        let hh =
          seeded_shape (seed_hh l) (gates * hidden_size * hidden_size)
            (λ i. byte_int8-IsInt8 _ (omega arith)) in
        let b1 = gate_bias_shape (narrow one) (gates * hidden_size) (fl.narrow-narrow one) in
        let b2 = gate_bias_shape (narrow nought) (gates * hidden_size) (fl.narrow-narrow nought) in
        record {
          input_size = refl;
          length-w_ih = ih.0;
          length-w_hh = hh.0;
          length-b_ih = b1.0;
          length-b_hh = b2.0;
          w_ih-IsInt8 = ih.1;
          w_hh-IsInt8 = hh.1;
          b_ih-IsFloat = b1.1;
          b_hh-IsFloat = b2.1;
          scale_ih-IsFloat = fl.narrow-narrow _;
          scale_hh-IsFloat = fl.narrow-narrow _;
        }

    -- The default weights have the shape that the forward pass and the weight file ask for.
    pub init_default_weights-IsWeights : IsWeights init_default_weights
    unfolding init_default_weights
    init_default_weights-IsWeights =
        let head =
          seeded_shape (λ i. to_int8 (diff (i % 7) 3)) hidden_size (λ i. to_int8-IsInt8 _) in
        record {
          first = default_layer 0;
          second = default_layer 1;
          layers = refl;
          first-IsLayer = default_layer-IsLayer 0;
          second-IsLayer = default_layer-IsLayer 1;
          length-head_w = head.0;
          head_w-IsInt8 = head.1;
          head_scale-IsFloat = fl.narrow-narrow _;
          head_b-IsFloat = fl.narrow-narrow _;
          length-ada_head = length-replicate hidden_size (narrow nought);
          length-ada_w_ih0 =
              length-replicate (length (default_layer 0).w_ih) (narrow nought)
              ∙ (default_layer-IsLayer 0).length-w_ih;
        }
