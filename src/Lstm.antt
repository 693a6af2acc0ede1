-- ===== src/Lstm.antt =====
-- lstm/lstm_predictor.hpp and lstm_predictor.cpp: the predictor of link utilization.
pub mod Forward
pub mod Cache
pub mod History
pub mod File
pub mod Shape
pub mod RoundTrip
pub mod Refused
pub mod Online
use cong_shed.Base.{
  add32, ℕ, zero, suc, ◌+◌, ◌-◌, ◌*◌, ◌/◌, ◌%◌, ◌^◌, ◌≤◌, ◌<◌, min, max, ◌≡◌, refl, sym, ap, ap₂,
  ◌∙◌, subst, ◌≢◌, ◌↔◌, ◌⊎◌, inl, inr, Bool, true, false, not, ◌&&◌, ◌||◌, Option, none, some, List,
  [], ◌∷◌, ◌++◌, map, arith, word64, word32, add64, sub64, add32, ltb, leb, ◌==◌, if◌then◌else◌,
  ltb→lt, lt→ltb, leb→le, ==_iff, tests, Bool-cases, Option-cases, length, get_elem?, get_or, set,
  take, replicate, All, any, keep, is_empty, length-append, length-set, get_or-set_self,
  get_or-set_ne, All-append, All-map, All_mono, mem, range_from, range,
}
use cong_shed.Base.Int.{ℤ, pos, negsuc, is_nonneg, pos_part, eqb_ℤ}
use cong_shed.Base.Double.{
  Double, ◌⊕◌, ◌⊖◌, ◌⊗◌, ◌⊘◌, ◌≺◌, fmin, fmax, fclamp, nought, one, IsOrdered, Milli,
  Milli-IsOrdered,
}
use cong_shed.Model.{
  FabricType, nvlink, pcie, cxl, infiniband, TrafficClass, tensor_parallel, pipeline_parallel,
  kv_migration, EndpointType, gpu, cpu, cxl_controller, ib_port, EndpointId, fabric_eq, class_eq,
  kind_eq, endpoint_eq, EdgeAttributes, kv_chunk_bytes, ib_rail_count, TransferRequest, PathCost,
  contention_exponent, default_fabric_attrs,
}

abbrev pub hidden_size : ℕ
hidden_size = 32

abbrev pub history_len : ℕ
history_len = 16

abbrev pub num_layers : ℕ
num_layers = 2

abbrev pub gates : ℕ
gates = 4

pub record LstmLayerWeights (W : Type 0) : Type 0 where
  pub w_ih : List ℤ
  pub w_hh : List ℤ
  pub b_ih : List W
  pub b_hh : List W
  pub scale_ih : W
  pub scale_hh : W
  pub input_size : ℕ

-- The weights, with the accumulators of the online update.
pub record Weights (W : Type 0) : Type 0 where
  pub layers : List (LstmLayerWeights W)
  pub head_w : List ℤ
  pub head_scale : W
  pub head_b : W
  pub weights_loaded : Bool
  pub ada_head : List W
  pub ada_w_ih0 : List W

pub record LstmPredictor (W : Type 0) : Type 0 where
  pub weights : Weights W
  pub prediction_cache : List W
  pub current_util_cache : List W
  pub edge_history : List (List W)
  pub edge_hist_count : List ℕ

-- `vector::resize`: cut to `n`, or filled up with `v`.
abbrev pub resize : {A : Type 0} → ℕ → A → List A → List A
resize zero v xs = []
resize (suc n) v [] = v ∷ resize n v []
resize (suc n) v (x ∷ xs) = x ∷ resize n v xs

-- `hist[i - 1] = hist[i]` for each `i` up, and `util` at the end.
abbrev pub shift_in : {A : Type 0} → A → List A → List A
shift_in util [] = []
shift_in util (x ∷ []) = util ∷ []
shift_in util (x ∷ y ∷ xs) = y ∷ shift_in util (y ∷ xs)

module _ {W : Type 0} ⦃d : Double W⦄ where
  open d use {of_nat}

  abbrev pub blank_history : List W
  blank_history = replicate history_len nought

  -- The new size is a `uint32_t`, so the last index gives 0; a write past the end, which the source does not
  -- check, is none here.
  unfoldable pub update_cache : LstmPredictor W → ℕ → W → W → LstmPredictor W
  update_cache p edge current predicted =
      let size =
        (if leb (length p.prediction_cache) edge
          then add32 edge 1
          else length p.prediction_cache) in
      let preds =
        (if leb (length p.prediction_cache) edge
          then resize size nought p.prediction_cache
          else p.prediction_cache) in
      let utils =
        (if leb (length p.prediction_cache) edge
          then resize size nought p.current_util_cache
          else p.current_util_cache) in
      record p {
        prediction_cache = set preds edge predicted;
        current_util_cache = set utils edge current;
      }

  unfoldable pub cached_prediction : LstmPredictor W → ℕ → W
  cached_prediction p edge = get_or p.prediction_cache edge nought

  unfoldable pub effective_util : LstmPredictor W → ℕ → W → W → W
  unfolding cached_prediction
  effective_util p edge current dur_ms =
      let weight = fmin (dur_ms ⊘ of_nat 5) one in
      fmax current (cached_prediction p edge ⊗ weight ⊕ current ⊗ (one ⊖ weight))

  -- The sample fills the history up, and then pushes the oldest one out.
  unfoldable pub push_history : List W → ℕ → W → List W × ℕ
  push_history hist n util =
      if ltb n history_len then (set hist n util, n + 1) else (shift_in util hist, n)

  -- Grown histories start blank, as do those that no sample has reached.
  unfoldable pub clear_unused : List (List W) → List ℕ → List (List W)
  clear_unused [] counts = []
  clear_unused (h ∷ hs) [] = h ∷ hs
  clear_unused (h ∷ hs) (n ∷ ns) = (if n == 0 then blank_history else h) ∷ clear_unused hs ns

  -- The new size is a `uint32_t`, as in `update_cache`.
  unfoldable pub push_sample : LstmPredictor W → ℕ → W → LstmPredictor W
  unfolding push_history clear_unused
  push_sample p edge util =
      let grow = leb (length p.edge_history) edge in
      let counts =
        (if grow then resize (add32 edge 1) 0 p.edge_hist_count else p.edge_hist_count) in
      let hists =
        (if grow
          then clear_unused (resize (add32 edge 1) blank_history p.edge_history) counts
          else p.edge_history) in
      let r = push_history (get_or hists edge blank_history) (get_or counts edge 0) util in
      record p { edge_history = set hists edge r.0; edge_hist_count = set counts edge r.1 }
