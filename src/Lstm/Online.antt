-- ===== src/Lstm/Online.antt =====
-- lstm/lstm_predictor.cpp: `online_update`, an Adagrad step on the quantised weights.
use cong_shed.Base.{
  suc, ◌≡◌, ◌≤◌, refl, ap, List, [], ◌∷◌, ltb, if◌then◌else◌, length, take, get_or, set, All, arith,
  inl, inr, Bool-cases, All_mono, ltb→lt, subst, sym, ◌∙◌,
}
use cong_shed.Base.Int.{ℤ, pos, negsuc, ◌+ℤ◌, clamp_ℤ, Between, clamp_ℤ-Between}
use cong_shed.Base.Bytes.{IsInt8, IsFloat, to_int8, byte_int8-int8_byte}
use cong_shed.Base.Double.{Double, ◌⊕◌, ◌⊖◌, ◌⊗◌, ◌⊘◌, fmax, ◌≺◌, IsFloating}
use cong_shed.Lstm.{history_len, LstmLayerWeights, Weights}
use cong_shed.Lstm.Forward.{predict, blank_layer}
use cong_shed.Lstm.Shape.{IsLayer, IsWeights}

-- `static_cast<int8_t>(std::clamp(q, -127, 127))`
unfoldable pub quantise : ℤ → ℤ
quantise q = to_int8 (clamp_ℤ q (negsuc 126) (pos 127))

-- What the loop over the head's weights leaves.
pub record HeadUpdate (W : Type 0) : Type 0 where
  pub head_w : List ℤ
  pub ada_head : List W
  pub head_scale : W

module _ {W : Type 0} ⦃d : Double W⦄ where
  open d use {decimal, narrow, of_int, sqrt, abs, lround}

  -- The accumulator of a weight after the gradient `g`.
  abbrev pub accumulate : W → W → W
  accumulate g a = narrow (a ⊕ narrow (g ⊗ g))

  -- The step of a weight whose accumulator is now `a`: the rate is 10⁻³ and the smallest divisor 10⁻⁸.
  abbrev pub ada_step : W → W → W
  ada_step g a = decimal 1 3 ⊗ g ⊘ (narrow (sqrt a) ⊕ decimal 1 8)

  -- The stepped weight as a number, and the scale that holds it.
  abbrev stepped : W → W → ℤ → W → W
  stepped g scale q acc = narrow (of_int q ⊗ scale) ⊕ ada_step g acc

  abbrev wider : W → W → W
  wider scale w = fmax scale (narrow (abs w ⊘ decimal 127 0 ⊕ decimal 1 8))

  -- The loop over the head's weights, from an index on, with the scale that it has there.
  unfoldable pub update_head : W → W → List ℤ → List W → HeadUpdate W
  unfolding quantise
  update_head g scale (q ∷ qs) (a ∷ accs) =
      let acc = accumulate g a in
      let w = stepped g scale q acc in
      let new_scale = wider scale w in
      let rest = update_head g new_scale qs accs in
      record {
        head_w = quantise (lround (w ⊘ new_scale)) ∷ rest.head_w;
        ada_head = acc ∷ rest.ada_head;
        head_scale = rest.head_scale;
      }
  update_head g scale qs accs = record { head_w = qs; ada_head = accs; head_scale = scale }

  -- The loop over the first layer's input weights, as far as there are accumulators.
  unfoldable pub update_inputs : W → W → List ℤ → List W → List ℤ × List W
  unfolding quantise
  update_inputs g scale (q ∷ qs) (a ∷ accs) =
      let acc = accumulate g a in
      let rest = update_inputs g scale qs accs in
      (quantise (q +ℤ lround (ada_step g acc ⊘ scale)) ∷ rest.0, acc ∷ rest.1)
  update_inputs g scale qs accs = (qs, accs)

  unfoldable pub online_update : Weights W → List W → W → Weights W
  unfolding predict update_head update_inputs
  online_update w history target =
      let err = target ⊖ predict w (take history_len history) in
      let head = update_head err w.head_scale w.head_w w.ada_head in
      let layer = get_or w.layers 0 blank_layer in
      let inputs = update_inputs (err ⊗ decimal 1 1) layer.scale_ih layer.w_ih w.ada_w_ih0 in
      if ltb (length history) history_len then w else record w {
        layers = set w.layers 0 (record layer { w_ih = inputs.0 });
        head_w = head.head_w;
        head_scale = head.head_scale;
        head_b = narrow (w.head_b ⊕ decimal 1 3 ⊗ err);
        ada_head = head.ada_head;
        ada_w_ih0 = inputs.1;
      }

Between-IsInt8 : (z : ℤ) → Between 127 z → IsInt8 z
Between-IsInt8 (pos n) h = omega arith
Between-IsInt8 (negsuc n) h = omega arith

quantise-Between : (q : ℤ) → Between 127 (quantise q)
unfolding quantise to_int8
quantise-Between q =
    let c = clamp_ℤ q (negsuc 126) (pos 127) in
    let b = clamp_ℤ-Between 126 q in
    subst (λ z. Between 127 z) (sym (byte_int8-int8_byte c (Between-IsInt8 c b))) b

module _ {W : Type 0} ⦃d : Double W⦄ where
  open d use {decimal, narrow, abs, lround}

  fmax-IsFloat : (a b : W) → IsFloat a → IsFloat b → IsFloat (fmax a b)
  fmax-IsFloat a b p q = elim (Bool-cases (a ≺ b)) [ inl e ↦ rw e q | inr e ↦ rw e p ]

  update_head-length :
      (g scale : W) (qs : List ℤ) (accs : List W)
      → (length (update_head g scale qs accs).head_w ≡ length qs)
        × (length (update_head g scale qs accs).ada_head ≡ length accs)
  unfolding update_head
  update_head-length g scale (q ∷ qs) (a ∷ accs) =
      let ih = update_head-length g (wider scale (stepped g scale q (accumulate g a))) qs accs in
      (ap suc ih.0, ap suc ih.1)
  update_head-length g scale [] accs = (refl, refl)
  update_head-length g scale (q ∷ qs) [] = (refl, refl)

  -- With an accumulator for each weight.
  update_head-Between :
      (g scale : W) (qs : List ℤ) (accs : List W)
      → length qs ≤ length accs
      → All (Between 127) (update_head g scale qs accs).head_w
  unfolding update_head
  update_head-Between g scale (q ∷ qs) (a ∷ accs) h =
      let w = stepped g scale q (accumulate g a) in
      let scale' = wider scale w in
      (quantise-Between (lround (w ⊘ scale')), update_head-Between g scale' qs accs (omega arith))
  update_head-Between g scale [] accs h = tt
  update_head-Between g scale (q ∷ qs) [] h = absurd (omega arith)

  update_head-IsFloat :
      (fl : IsFloating W) (g scale : W) (qs : List ℤ) (accs : List W)
      → IsFloat scale
      → IsFloat (update_head g scale qs accs).head_scale
  unfolding update_head
  update_head-IsFloat fl g scale (q ∷ qs) (a ∷ accs) h =
      let w = stepped g scale q (accumulate g a) in
      update_head-IsFloat fl g (wider scale w) qs accs
        (fmax-IsFloat scale _ h (fl.narrow-narrow (abs w ⊘ decimal 127 0 ⊕ decimal 1 8)))
  update_head-IsFloat fl g scale [] accs h = h
  update_head-IsFloat fl g scale (q ∷ qs) [] h = h

  update_inputs-length :
      (g scale : W) (qs : List ℤ) (accs : List W)
      → (length (update_inputs g scale qs accs).0 ≡ length qs)
        × (length (update_inputs g scale qs accs).1 ≡ length accs)
  unfolding update_inputs
  update_inputs-length g scale (q ∷ qs) (a ∷ accs) =
      let ih = update_inputs-length g scale qs accs in (ap suc ih.0, ap suc ih.1)
  update_inputs-length g scale [] accs = (refl, refl)
  update_inputs-length g scale (q ∷ qs) [] = (refl, refl)

  update_inputs-Between :
      (g scale : W) (qs : List ℤ) (accs : List W)
      → length qs ≤ length accs
      → All (Between 127) (update_inputs g scale qs accs).0
  unfolding update_inputs
  update_inputs-Between g scale (q ∷ qs) (a ∷ accs) h = (
    quantise-Between (q +ℤ lround (ada_step g (accumulate g a) ⊘ scale)),
    update_inputs-Between g scale qs accs (omega arith),
  )
  update_inputs-Between g scale [] accs h = tt
  update_inputs-Between g scale (q ∷ qs) [] h = absurd (omega arith)

  -- The first layer, once its input weights are updated.
  trained-IsLayer :
      (l : LstmLayerWeights W) (qs : List ℤ)
      → IsLayer 1 l
      → length qs ≡ length l.w_ih
      → All (Between 127) qs
      → IsLayer 1 (record l { w_ih = qs })
  trained-IsLayer l qs h e b = record {
    input_size = h.input_size;
    length-w_ih = e ∙ h.length-w_ih;
    length-w_hh = h.length-w_hh;
    length-b_ih = h.length-b_ih;
    length-b_hh = h.length-b_hh;
    w_ih-IsInt8 = All_mono (Between 127) IsInt8 qs Between-IsInt8 b;
    w_hh-IsInt8 = h.w_hh-IsInt8;
    b_ih-IsFloat = h.b_ih-IsFloat;
    b_hh-IsFloat = h.b_hh-IsFloat;
    scale_ih-IsFloat = h.scale_ih-IsFloat;
    scale_hh-IsFloat = h.scale_hh-IsFloat;
  }

  -- A step of the online update keeps the shape of the weights, and after a full history every weight of
  -- the head and every input weight of the first layer is between -127 and 127.
  pub online_update-IsWeights :
      (fl : IsFloating W) (w : Weights W) (history : List W) (target : W)
      → IsWeights w
      → IsWeights (online_update w history target)
        × (history_len ≤ length history
            → All (Between 127) (online_update w history target).head_w
              × All
                  (Between 127)
                  (get_or (online_update w history target).layers 0 blank_layer).w_ih)
  unfolding online_update
  online_update-IsWeights fl w history target h =
      let err = target ⊖ predict w (take history_len history) in
      let layer = get_or w.layers 0 blank_layer in
      let layer_ok =
        subst (λ ls. IsLayer 1 (get_or ls 0 blank_layer)) (sym h.layers) h.first-IsLayer in
      let head = update_head err w.head_scale w.head_w w.ada_head in
      let inputs = update_inputs (err ⊗ decimal 1 1) layer.scale_ih layer.w_ih w.ada_w_ih0 in
      let head_b =
        update_head-Between err w.head_scale w.head_w w.ada_head
          (omega (arith, h.length-head_w, h.length-ada_head)) in
      let inputs_b =
        update_inputs-Between (err ⊗ decimal 1 1) layer.scale_ih layer.w_ih w.ada_w_ih0
          (omega (arith, layer_ok.length-w_ih, h.length-ada_w_ih0)) in
      let head_l = update_head-length err w.head_scale w.head_w w.ada_head in
      let inputs_l =
        update_inputs-length (err ⊗ decimal 1 1) layer.scale_ih layer.w_ih w.ada_w_ih0 in
      let first : LstmLayerWeights W = record layer { w_ih = inputs.0 } in
      elim (Bool-cases (ltb (length history) history_len)) [
        | inl e ↦ rw e (h, λ le. absurd (omega (arith, ltb→lt (length history) history_len e, le)))
        | inr e ↦ rw e (
          record {
            first = first;
            second = h.second;
            layers = ap (λ (ls : List (LstmLayerWeights W)). set ls 0 first) h.layers;
            first-IsLayer = trained-IsLayer layer inputs.0 layer_ok inputs_l.0 inputs_b;
            second-IsLayer = h.second-IsLayer;
            length-head_w = head_l.0 ∙ h.length-head_w;
            head_w-IsInt8 = All_mono (Between 127) IsInt8 head.head_w Between-IsInt8 head_b;
            head_scale-IsFloat =
                update_head-IsFloat fl err w.head_scale w.head_w w.ada_head h.head_scale-IsFloat;
            head_b-IsFloat = fl.narrow-narrow (w.head_b ⊕ decimal 1 3 ⊗ err);
            length-ada_head = head_l.1 ∙ h.length-ada_head;
            length-ada_w_ih0 = inputs_l.1 ∙ h.length-ada_w_ih0;
          },
          λ le. (
            head_b,
            subst
                (λ (ls : List (LstmLayerWeights W)).
                  All (Between 127) (get_or (set ls 0 first) 0 blank_layer).w_ih)
                (sym h.layers) inputs_b,
          ),
        )
      ]
