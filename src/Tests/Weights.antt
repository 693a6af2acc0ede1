-- ===== src/Tests/Weights.antt =====
-- Runs of the predictor's weights, with whole thousandths for floating-point numbers.
use cong_shed.Base.{
  ◌≤◌, ◌≡◌, inl, true, false, none, some, List, [], ◌∷◌, ◌++◌, All, replicate, arith, length,
  get_or,
}
use cong_shed.Base.Int.{Between}
use cong_shed.Base.Bytes.{u32_bytes}
use cong_shed.Base.Double.{Milli, milli, Milli-IsFloating}
use cong_shed.Lstm.{history_len, Weights}
use cong_shed.Lstm.Forward.{blank_layer}
use cong_shed.Lstm.File.{weight_magic, save_weights, load_weights}
use cong_shed.Lstm.Shape.{IsWeights, init_default_weights, init_default_weights-IsWeights}
use cong_shed.Lstm.RoundTrip.{IsLoaded, load_weights-save_weights}
use cong_shed.Lstm.Refused.{load_weights-refuses}
use cong_shed.Lstm.Online.{online_update, online_update-IsWeights}

abbrev defaults : Weights Milli
defaults = init_default_weights

abbrev samples : List Milli
samples = replicate 16 500

init_default_weights-IsWeights_example : IsWeights {W = Milli} defaults
init_default_weights-IsWeights_example = init_default_weights-IsWeights Milli-IsFloating

load_weights-save_weights_example :
    ((load_weights (save_weights true defaults) defaults).1 ≡ true)
    × IsLoaded {W = Milli} defaults (load_weights (save_weights true defaults) defaults).0
load_weights-save_weights_example =
    load_weights-save_weights Milli-IsFloating defaults defaults
      (init_default_weights-IsWeights Milli-IsFloating)

-- A header that names version 3.
load_weights-refuses_example :
    (load_weights none defaults ≡ (defaults, false))
    × (load_weights (some (weight_magic ++ (2 ∷ []))) defaults ≡ (defaults, false))
    × (load_weights
          (some (
            weight_magic
            ++ (u32_bytes 3 ++ (u32_bytes 32 ++ (u32_bytes 2 ++ (u32_bytes 16 ++ []))))))
          defaults
        ≡ (defaults, false))
load_weights-refuses_example =
    load_weights-refuses defaults (2 ∷ []) 3 32 2 16 [] (omega arith) (omega arith) (omega arith)
      (omega arith) (omega arith) (inl (λ e. absurd (omega (arith, e))))

online_update-IsWeights_example :
    IsWeights {W = Milli} (online_update defaults samples 700)
    × (history_len ≤ length samples
        → All (Between 127) (online_update defaults samples 700).head_w
          × All
              (Between 127)
              (get_or (online_update defaults samples 700).layers 0 blank_layer).w_ih)
online_update-IsWeights_example =
    online_update-IsWeights Milli-IsFloating defaults samples 700
      (init_default_weights-IsWeights Milli-IsFloating)
