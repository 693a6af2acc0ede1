-- ===== src/Lstm/RoundTrip.antt =====
-- lstm/lstm_predictor.cpp: what `save_weights` writes, `load_weights` reads.
use cong_shed.Base.{
  ℕ, ◌*◌, ◌^◌, ◌≡◌, refl, sym, ◌∙◌, subst, Bool, true, some, List, [], ◌∷◌, ◌++◌, length, replicate,
  ◌<◌, All, arith, length-replicate,
}
use cong_shed.Base.Int.{ℤ, pos}
use cong_shed.Base.Bytes.{
  Stream, u32_bytes, int8_bytes, float_bytes, floats_bytes, read_into_front, bytes_u32-u32_bytes,
  bytes_int8-int8_bytes, bytes_float-float_bytes, bytes_floats-floats_bytes, length-int8_bytes,
  length-floats_bytes, length-u32_bytes, length-float_bytes, IsInt8, IsFloat,
}
use cong_shed.Base.Double.{Double, nought, IsFloating}
use cong_shed.Lstm.{resize, history_len, hidden_size, num_layers, gates, LstmLayerWeights, Weights}
use cong_shed.Lstm.Cache.{length-resize}
use cong_shed.Lstm.Shape.{IsLayer, IsWeights}
use cong_shed.Lstm.File.{
  read_u32, read_int8s, read_float, read_floats, save_layer, read_layer, read_inputs, read_hidden,
  read_biases, sized_layer, save_layers, read_layers, save_head, read_head, load_body,
  load_versioned, weight_magic, weight_version, same_bytes, save_weights, load_weights,
}

abbrev pub at_front : List ℕ → Stream
at_front bytes = record { rest = bytes; good = true }

pub read_u32_front :
    (v w : ℕ) (next : List ℕ)
    → w < 2 ^ 32
    → read_u32 v (at_front (u32_bytes w ++ next)) ≡ (w, at_front next)
unfolding read_u32
read_u32_front v w next h =
    rw
      (
        read_into_front (u32_bytes v) (u32_bytes w) next
            (length-u32_bytes v ∙ sym (length-u32_bytes w)),
        bytes_u32-u32_bytes w h,
      )
      refl

read_int8s_front :
    (vs ws : List ℤ) (next : List ℕ)
    → length vs ≡ length ws
    → All IsInt8 ws
    → read_int8s vs (at_front (int8_bytes ws ++ next)) ≡ (ws, at_front next)
unfolding read_int8s
read_int8s_front vs ws next e h =
    rw
      (
        read_into_front (int8_bytes vs) (int8_bytes ws) next
            (length-int8_bytes vs ∙ e ∙ sym (length-int8_bytes ws)),
        bytes_int8-int8_bytes ws h,
      )
      refl

module _ {W : Type 0} ⦃d : Double W⦄ where
  -- What a load leaves: the weights of the file, and accumulators that start from 0.
  pub record IsLoaded (saved : Weights W) (loaded : Weights W) : Type 0 where
    pub layers : loaded.layers ≡ saved.layers
    pub head_w : loaded.head_w ≡ saved.head_w
    pub head_scale : loaded.head_scale ≡ saved.head_scale
    pub head_b : loaded.head_b ≡ saved.head_b
    pub weights_loaded : loaded.weights_loaded ≡ true
    pub ada_head : loaded.ada_head ≡ replicate hidden_size nought

  load_versioned_front :
      (old : Weights W) (next : List ℕ)
      → load_versioned old (
          at_front (
            u32_bytes weight_version
            ++ (u32_bytes hidden_size
                ++ (u32_bytes num_layers ++ (u32_bytes history_len ++ next)))))
        ≡ load_body old (at_front next)
  unfolding load_versioned
  load_versioned_front old next =
      let n4 = u32_bytes history_len ++ next in
      let n3 = u32_bytes num_layers ++ n4 in
      let n2 = u32_bytes hidden_size ++ n3 in
      rw
        (
          read_u32_front 0 weight_version n2 (omega arith),
          read_u32_front 0 hidden_size n3 (omega arith),
          read_u32_front 0 num_layers n4 (omega arith),
          read_u32_front 0 history_len next (omega arith),
        )
        refl

  pub load_magic :
      (old : Weights W) (next : List ℕ)
      → load_weights (some (weight_magic ++ next)) old ≡ load_versioned old (at_front next)
  unfolding load_weights same_bytes
  load_magic old next = rw (read_into_front (replicate 8 0) weight_magic next refl) refl

module _ {W : Type 0} ⦃d : Double W⦄ (l : IsFloating W) where
  open d use {decimal, narrow}

  read_float_front :
      (v w : W) (next : List ℕ)
      → IsFloat w
      → read_float v (at_front (float_bytes w ++ next)) ≡ (w, at_front next)
  unfolding read_float
  read_float_front v w next h =
      rw
        (
          read_into_front (float_bytes v) (float_bytes w) next
              (length-float_bytes v ∙ sym (length-float_bytes w)),
          bytes_float-float_bytes l w h,
        )
        refl

  read_floats_front :
      (vs ws : List W) (next : List ℕ)
      → length vs ≡ length ws
      → All IsFloat ws
      → read_floats vs (at_front (floats_bytes ws ++ next)) ≡ (ws, at_front next)
  unfolding read_floats
  read_floats_front vs ws next e h =
      rw
        (
          read_into_front (floats_bytes vs) (floats_bytes ws) next (length-floats_bytes vs ws e),
          bytes_floats-floats_bytes l ws h,
        )
        refl

  read_biases_front :
      (y : LstmLayerWeights W) (ih hh : List W) (next : List ℕ)
      → length y.b_ih ≡ length ih
      → length y.b_hh ≡ length hh
      → All IsFloat ih
      → All IsFloat hh
      → read_biases y (at_front (floats_bytes ih ++ (floats_bytes hh ++ next)))
        ≡ (record y { b_ih = ih; b_hh = hh }, at_front next)
  unfolding read_biases
  read_biases_front y ih hh next e f p q =
      rw
        (
          read_floats_front y.b_ih ih (floats_bytes hh ++ next) e p,
          read_floats_front y.b_hh hh next f q,
        )
        refl

  read_hidden_front :
      (y : LstmLayerWeights W) (ws : List ℤ) (scale : W) (next : List ℕ)
      → length y.w_hh ≡ length ws
      → All IsInt8 ws
      → IsFloat scale
      → read_hidden y (at_front (int8_bytes ws ++ (float_bytes scale ++ next)))
        ≡ read_biases (record y { w_hh = ws; scale_hh = scale }) (at_front next)
  unfolding read_hidden
  read_hidden_front y ws scale next e p q =
      rw
        (
          read_int8s_front y.w_hh ws (float_bytes scale ++ next) e p,
          read_float_front y.scale_hh scale next q,
        )
        refl

  read_inputs_front :
      (y : LstmLayerWeights W) (ws : List ℤ) (scale : W) (next : List ℕ)
      → length y.w_ih ≡ length ws
      → All IsInt8 ws
      → IsFloat scale
      → read_inputs y (at_front (int8_bytes ws ++ (float_bytes scale ++ next)))
        ≡ read_hidden (record y { w_ih = ws; scale_ih = scale }) (at_front next)
  unfolding read_inputs
  read_inputs_front y ws scale next e p q =
      rw
        (
          read_int8s_front y.w_ih ws (float_bytes scale ++ next) e p,
          read_float_front y.scale_ih scale next q,
        )
        refl

  read_layer_front :
      (y : LstmLayerWeights W) (next : List ℕ)
      → y.input_size < 2 ^ 32
      → IsLayer y.input_size y
      → read_layer (at_front (save_layer y next)) ≡ (y, at_front next)
  unfolding read_layer save_layer
  read_layer_front y next lt h =
      let bias_bytes = floats_bytes y.b_ih ++ (floats_bytes y.b_hh ++ next) in
      let ih_next = int8_bytes y.w_hh ++ (float_bytes y.scale_hh ++ bias_bytes) in
      let body = int8_bytes y.w_ih ++ (float_bytes y.scale_ih ++ ih_next) in
      rw
        (
          read_u32_front 0 y.input_size (u32_bytes (gates * hidden_size) ++ body) lt,
          read_u32_front 0 (gates * hidden_size) body (omega arith),
        )
        (read_inputs_front (sized_layer (gates * hidden_size) y.input_size) y.w_ih y.scale_ih
            ih_next
            (length-replicate (gates * hidden_size * y.input_size) (pos 0) ∙ sym h.length-w_ih)
            h.w_ih-IsInt8 h.scale_ih-IsFloat
          ∙ read_hidden_front _ y.w_hh y.scale_hh bias_bytes
              (length-replicate (gates * hidden_size * hidden_size) (pos 0) ∙ sym h.length-w_hh)
              h.w_hh-IsInt8 h.scale_hh-IsFloat
          ∙ read_biases_front _ y.b_ih y.b_hh next
              (length-replicate {A = W} (gates * hidden_size) nought ∙ sym h.length-b_ih)
              (length-replicate {A = W} (gates * hidden_size) nought ∙ sym h.length-b_hh)
              h.b_ih-IsFloat h.b_hh-IsFloat)

  read_layers_front :
      (a b : LstmLayerWeights W) (next : List ℕ)
      → IsLayer 1 a
      → IsLayer hidden_size b
      → read_layers 2 (at_front (save_layers (a ∷ b ∷ []) next)) ≡ (a ∷ b ∷ [], at_front next)
  unfolding read_layers save_layers
  read_layers_front a b next p q =
      rw
        (
          read_layer_front a (save_layer b next) (rw p.input_size (omega arith))
              (subst (λ n. IsLayer n a) (sym p.input_size) p),
          read_layer_front b next (rw q.input_size (omega arith))
              (subst (λ n. IsLayer n b) (sym q.input_size) q),
        )
        refl

  read_head_front :
      (w old : Weights W)
      → IsWeights w
      → old.layers ≡ w.layers
      → ((read_head old (
            at_front (
              int8_bytes w.head_w ++ (float_bytes w.head_scale ++ (float_bytes w.head_b ++ []))))).1
          ≡ true)
        × IsLoaded w
            (read_head old (
              at_front (
                int8_bytes w.head_w
                ++ (float_bytes w.head_scale ++ (float_bytes w.head_b ++ []))))).0
  unfolding read_head
  read_head_front w old h same =
      rw
        (
          read_int8s_front (resize hidden_size (pos 0) old.head_w) w.head_w
              (float_bytes w.head_scale ++ (float_bytes w.head_b ++ []))
              (length-resize hidden_size (pos 0) old.head_w ∙ sym h.length-head_w) h.head_w-IsInt8,
          read_float_front old.head_scale w.head_scale (float_bytes w.head_b ++ [])
              h.head_scale-IsFloat,
          read_float_front old.head_b w.head_b [] h.head_b-IsFloat,
        )
        (
          refl,
          record {
            layers = same;
            head_w = refl;
            head_scale = refl;
            head_b = refl;
            weights_loaded = refl;
            ada_head = refl;
          },
        )

  load_body_front :
      (old : Weights W) (ls : List (LstmLayerWeights W)) (a b : LstmLayerWeights W) (tail : List ℕ)
      → ls ≡ a ∷ b ∷ []
      → IsLayer 1 a
      → IsLayer hidden_size b
      → load_body old (at_front (save_layers ls (u32_bytes hidden_size ++ tail)))
        ≡ read_head (record old { layers = ls }) (at_front tail)
  unfolding load_body
  load_body_front old ls a b tail e p q =
      rw
        (
          e,
          read_layers_front a b (u32_bytes hidden_size ++ tail) p q,
          read_u32_front 0 hidden_size tail (omega arith),
        )
        refl

  -- Weights of two layers of quantised numbers, as the code makes them, are saved to a file from which any
  -- predictor loads the same layers and head, with the load reported, marked as loaded, and with the head's
  -- accumulators at 0.
  pub load_weights-save_weights :
      (w old : Weights W)
      → IsWeights w
      → ((load_weights (save_weights true w) old).1 ≡ true)
        × IsLoaded w (load_weights (save_weights true w) old).0
  unfolding save_weights save_head
  load_weights-save_weights w old h =
      let head =
        int8_bytes w.head_w ++ (float_bytes w.head_scale ++ (float_bytes w.head_b ++ [])) in
      subst (λ (r : Weights W × Bool). (r.1 ≡ true) × IsLoaded w r.0)
        (sym (
          load_magic old _
          ∙ load_versioned_front old (save_layers w.layers (u32_bytes hidden_size ++ head))
          ∙ load_body_front old w.layers h.first h.second head h.layers h.first-IsLayer
              h.second-IsLayer))
        (read_head_front w (record old { layers = w.layers }) h refl)
