-- ===== src/Lstm/File.antt =====
-- lstm/lstm_predictor.cpp: the weight file, `save_weights` and `load_weights`. A file is the list of its bytes.
use cong_shed.Base.{
  ℕ, zero, suc, ◌*◌, Bool, true, false, ◌&&◌, Option, none, some, List, [], ◌∷◌, ◌++◌, ◌==◌,
  if◌then◌else◌, length, replicate, get_or, set,
}
use cong_shed.Base.Int.{ℤ, pos}
use cong_shed.Base.Bytes.{
  Stream, read_into, u32_bytes, bytes_u32, int8_bytes, bytes_int8, float_bytes, bytes_float,
  floats_bytes, bytes_floats,
}
use cong_shed.Base.Double.{Double, nought}
use cong_shed.Lstm.Forward.{blank_layer}
use cong_shed.Lstm.{hidden_size, history_len, num_layers, gates, LstmLayerWeights, Weights, resize}

-- "HICSLSTM"
abbrev pub weight_magic : List ℕ
weight_magic = 72 ∷ 73 ∷ 67 ∷ 83 ∷ 76 ∷ 83 ∷ 84 ∷ 77 ∷ []

abbrev pub weight_version : ℕ
weight_version = 2

-- `std::memcmp(a, b, n) == 0` for lists of one length
unfoldable pub same_bytes : List ℕ → List ℕ → Bool
same_bytes [] [] = true
same_bytes (x ∷ xs) (y ∷ ys) = (x == y) && same_bytes xs ys
same_bytes _ _ = false

-- `read_pod` of a `uint32_t`, over the value that the variable has
unfoldable pub read_u32 : ℕ → Stream → ℕ × Stream
read_u32 v s = let r = read_into (u32_bytes v) s in (bytes_u32 r.0, r.1)

unfoldable pub read_int8s : List ℤ → Stream → List ℤ × Stream
read_int8s zs s = let r = read_into (int8_bytes zs) s in (bytes_int8 r.0, r.1)

module _ {W : Type 0} ⦃d : Double W⦄ where
  open d use {decimal, narrow}

  unfoldable pub read_float : W → Stream → W × Stream
  read_float w s = let r = read_into (float_bytes w) s in (bytes_float r.0, r.1)

  unfoldable pub read_floats : List W → Stream → List W × Stream
  read_floats ws s = let r = read_into (floats_bytes ws) s in (bytes_floats r.0, r.1)

  -- The bytes of a layer, before those that are written next.
  unfoldable pub save_layer : LstmLayerWeights W → List ℕ → List ℕ
  save_layer l next =
      u32_bytes l.input_size
      ++ (u32_bytes (gates * hidden_size)
          ++ (int8_bytes l.w_ih
              ++ (float_bytes l.scale_ih
                  ++ (int8_bytes l.w_hh
                      ++ (float_bytes l.scale_hh
                          ++ (floats_bytes l.b_ih ++ (floats_bytes l.b_hh ++ next)))))))

  unfoldable pub save_layers : List (LstmLayerWeights W) → List ℕ → List ℕ
  save_layers [] next = next
  save_layers (l ∷ ls) next = save_layer l (save_layers ls next)

  unfoldable pub save_head : Weights W → List ℕ
  save_head w =
      u32_bytes hidden_size
      ++ (int8_bytes w.head_w ++ (float_bytes w.head_scale ++ (float_bytes w.head_b ++ [])))

  -- The file that is written, where it could be opened.
  unfoldable pub save_weights : Bool → Weights W → Option (List ℕ)
  save_weights false w = none
  save_weights true w = some (
      weight_magic
      ++ (u32_bytes weight_version
          ++ (u32_bytes hidden_size
              ++ (u32_bytes num_layers
                  ++ (u32_bytes history_len ++ save_layers w.layers (save_head w))))))

  -- The last two arrays of a layer.
  unfoldable pub read_biases : LstmLayerWeights W → Stream → LstmLayerWeights W × Stream
  read_biases l s =
      let ih = read_floats l.b_ih s in
      let hh = read_floats l.b_hh ih.1 in (record l { b_ih = ih.0; b_hh = hh.0 }, hh.1)

  unfoldable pub read_hidden : LstmLayerWeights W → Stream → LstmLayerWeights W × Stream
  read_hidden l s =
      let w = read_int8s l.w_hh s in
      let scale = read_float l.scale_hh w.1 in
      let l' : LstmLayerWeights W = record l { w_hh = w.0; scale_hh = scale.0 } in
      if scale.1.good then read_biases l' scale.1 else (l', scale.1)

  unfoldable pub read_inputs : LstmLayerWeights W → Stream → LstmLayerWeights W × Stream
  read_inputs l s =
      let w = read_int8s l.w_ih s in
      let scale = read_float l.scale_ih w.1 in
      let l' : LstmLayerWeights W = record l { w_ih = w.0; scale_ih = scale.0 } in
      if scale.1.good then read_hidden l' scale.1 else (l', scale.1)

  -- The layer that the sizes of the file ask for, before its arrays are read.
  abbrev pub sized_layer : ℕ → ℕ → LstmLayerWeights W
  sized_layer rows inputs = record blank_layer {
    input_size = inputs;
    w_ih = replicate (rows * inputs) (pos 0);
    w_hh = replicate (rows * hidden_size) (pos 0);
    b_ih = replicate rows nought;
    b_hh = replicate rows nought;
  }

  -- The layer as it is left, and the stream, which has failed where the code returns.
  unfoldable pub read_layer : Stream → LstmLayerWeights W × Stream
  read_layer s =
      let inputs = read_u32 0 s in
      let rows = read_u32 0 inputs.1 in
      if rows.1.good
      then read_inputs (sized_layer rows.0 inputs.0) rows.1
      else (blank_layer, rows.1)

  unfoldable pub read_layers : ℕ → Stream → List (LstmLayerWeights W) × Stream
  read_layers zero s = ([], s)
  read_layers (suc n) s =
      let r = read_layer s in
      let more = read_layers n r.1 in
      if r.1.good then (r.0 ∷ more.0, more.1) else (r.0 ∷ replicate n blank_layer, r.1)

  unfoldable pub read_head : Weights W → Stream → Weights W × Bool
  read_head w s =
      let hw = read_int8s (resize hidden_size (pos 0) w.head_w) s in
      let scale = read_float w.head_scale hw.1 in
      let bias = read_float w.head_b scale.1 in
      let w' : Weights W = record w { head_w = hw.0; head_scale = scale.0 } in
      if scale.1.good
      then (if bias.1.good
          then (
            record w' {
              head_b = bias.0;
              ada_head = replicate hidden_size nought;
              ada_w_ih0 = replicate (length (get_or w.layers 0 blank_layer).w_ih) nought;
              weights_loaded = true;
            },
            true,
          )
          else (record w' { head_b = bias.0 }, false))
      else (w', false)

  unfoldable pub load_body : Weights W → Stream → Weights W × Bool
  load_body w s =
      let r = read_layers num_layers s in
      let w' : Weights W = record w { layers = r.0 } in
      let n = read_u32 0 r.1 in
      if r.1.good && (n.1.good && (n.0 == hidden_size)) then read_head w' n.1 else (w', false)

  -- What follows the magic: a header that does not fit is refused before anything is written.
  unfoldable pub load_versioned : Weights W → Stream → Weights W × Bool
  load_versioned w s =
      let version = read_u32 0 s in
      let hidden = read_u32 0 version.1 in
      let nlayers = read_u32 0 hidden.1 in
      let history = read_u32 0 nlayers.1 in
      if history.1.good
        && ((version.0 == weight_version)
            && ((hidden.0 == hidden_size) && (nlayers.0 == num_layers)))
      then load_body w history.1
      else (w, false)

  -- A file of the first version: two arrays of the first layer, as long as they are, and two scales.
  unfoldable pub load_legacy : Weights W → Stream → Weights W × Bool
  load_legacy w s =
      let layer = get_or w.layers 0 blank_layer in
      let ih = read_int8s layer.w_ih s in
      let hh = read_int8s layer.w_hh ih.1 in
      let s_ih = read_float (narrow (decimal 1 2)) hh.1 in
      let s_hh = read_float (narrow (decimal 1 2)) s_ih.1 in
      let arrays : LstmLayerWeights W = record layer { w_ih = ih.0; w_hh = hh.0 } in
      if s_hh.1.good
      then (
        record w {
          layers = set w.layers 0 (record arrays { scale_ih = s_ih.0; scale_hh = s_hh.0 });
          weights_loaded = true;
        },
        true,
      )
      else (record w { layers = set w.layers 0 arrays }, false)

  unfoldable pub load_weights : Option (List ℕ) → Weights W → Weights W × Bool
  load_weights none w = (w, false)
  load_weights (some bytes) w =
      let start : Stream = record { rest = bytes; good = true } in
      let magic = read_into (replicate 8 0) start in
      if same_bytes magic.0 weight_magic then load_versioned w magic.1 else load_legacy w start
