-- ===== src/Telemetry/IbMad/Range.antt =====
-- telemetry/ib_mad.cpp: what the clients report, over all the edges that share them.
use cong_shed.Base.{
  ℕ, ◌<◌, ◌≡◌, ◌≢◌, refl, ap, ◌∙◌, Bool, true, not, ◌&&◌, if_either, if_either_eq, option_either,
  option_either_eq, All-get_elem?, ltb, lt→ltb, ◌==◌, sub64, eq_false, get_elem?, All, All-set,
  arith,
}
use cong_shed.Base.Double.{Double, nought, IsOrdered}
use cong_shed.Telemetry.Meter.{Files, IsUtil}
use cong_shed.Telemetry.Nvml.{Outcome, reading, refused, null_call}
use cong_shed.Telemetry.Range.{HasLiterals, IsOutcome, as_util-IsUtil, nought-IsUtil}
use cong_shed.Telemetry.IbMad.{MadLibrary, IbMadClient}
use cong_shed.Telemetry.IbMad.Sample.{query_port_counters, mad_util, take_counters, sample_util}
use cong_shed.Telemetry.IbMad.Backend.{IbMadBackend, ib_mad_sample}

-- What holds of all three outcomes holds of the split.
pub outcome_either :
    {A B : Type 0} (P : B → Type 0) (o : Outcome A) (n m : B) (f : A → B)
    → P n
    → P m
    → ((a : A) → P (f a))
    → P (elim o [ refused ↦ n | null_call ↦ m | reading a ↦ f a ])
outcome_either P (reading a) n m f p q r = r a
outcome_either P refused n m f p q r = p
outcome_either P null_call n m f p q r = q

reading_inj : {A : Type 0} (a b : A) → reading a ≡ reading b → a ≡ b
reading_inj {A} a b e = ap (λ (o : Outcome A). elim o [ reading x ↦ x | _ ↦ a ]) e

timed : (b : Bool) (n : ℕ) → (b && not (n == 0)) ≡ true → n ≢ 0
timed b n e = ground arith

module _ {W : Type 0} ⦃d : Double W⦄ where
  open d use {narrow}

  -- The cached utilization is one.
  abbrev pub Caches : IbMadClient W → Type 0
  Caches c = IsUtil c.cached_util

  abbrev Keeps : IbMadClient W × Outcome W → Type 0
  Keeps r = Caches r.0 × IsOutcome r.1

  module _ (o : IsOrdered W) (lit : HasLiterals W) where
    sample_util-Keeps :
        (l : MadLibrary) (f : Files) (now : ℕ) (c : IbMadClient W) (peak : W)
        → Caches c
        → Keeps (sample_util l f now c peak)
    unfolding sample_util take_counters
    sample_util-Keeps l f now c peak h =
        let c' = record c { last_query_ns = now } in
        if_either Keeps (ltb (sub64 now c.last_query_ns) 2000000 && not (c.prev_ts_ns == 0)) _ _
          (h, h)
          (outcome_either Keeps (query_port_counters l f now c') _ _ _ (h, tt) (h, tt)
            (λ q.
              let u =
                if_either IsUtil (c.prev_ts_ns == 0) (narrow nought) _ (nought-IsUtil o lit)
                  (as_util-IsUtil o lit (mad_util c q now peak)) in
              (u, u)))

    -- A sample of an edge keeps that every client's cached utilization is neither below 0 nor above 0.99
    -- before its cast, and so is what it reports.
    pub ib_mad_sample-IsUtil :
        (l : MadLibrary) (f : Files) (now : ℕ) (s : IbMadBackend W) (edge : ℕ)
        → All Caches s.opened
        → All Caches (ib_mad_sample l f now s edge).0.opened
          × IsOutcome (ib_mad_sample l f now s edge).1
    unfolding ib_mad_sample
    ib_mad_sample-IsUtil l f now s edge h =
        let P : IbMadBackend W × Outcome W → Type 0 = λ r. All Caches r.0.opened × IsOutcome r.1 in
        option_either P (get_elem? s.bindings edge) _ _ (h, tt)
          (λ b.
            option_either P (get_elem? s.clients edge) _ _ (h, tt)
              (λ client.
                option_either P client _ _ (h, tt)
                  (λ i.
                    option_either_eq P (get_elem? s.opened i) _ _ (λ e. (h, tt))
                      (λ c e.
                        let k =
                          sample_util-Keeps l f now c b.peak_bw_gbps
                            (All-get_elem? Caches s.opened i c h e) in
                        (
                          All-set Caches s.opened i (sample_util l f now c b.peak_bw_gbps).0 k.0 h,
                          k.1,
                        )))))

  -- A client that has just reported `u` has it cached, and the time of its counters.
  Fresh : W → IbMadClient W × Outcome W → Type 0
  Fresh u r = r.1 ≡ reading u → (r.0.cached_util ≡ u) × (r.0.prev_ts_ns ≢ 0)

  sample_util-Fresh :
      (l : MadLibrary) (f : Files) (now : ℕ) (c : IbMadClient W) (peak u : W)
      → now ≢ 0
      → Fresh u (sample_util l f now c peak)
  unfolding sample_util take_counters Fresh
  sample_util-Fresh l f now c peak u ne =
      let c' = record c { last_query_ns = now } in
      let recent = ltb (sub64 now c.last_query_ns) 2000000 in
      if_either_eq (Fresh u) (recent && not (c.prev_ts_ns == 0)) _ _
        (λ e h. (reading_inj c.cached_util u h, timed recent c.prev_ts_ns e))
        (λ e.
          outcome_either (Fresh u) (query_port_counters l f now c') _ _ _ (λ h. ground arith)
            (λ h. ground arith) (λ q h. (reading_inj _ u h, ne)))

  sample_recent :
      (l : MadLibrary) (f : Files) (now : ℕ) (c : IbMadClient W) (peak : W)
      → ltb (sub64 now c.last_query_ns) 2000000 ≡ true
      → c.prev_ts_ns ≢ 0
      → sample_util l f now c peak ≡ (c, reading c.cached_util)
  unfolding sample_util
  sample_recent l f now c peak soon ne = rw (sample_util, soon, eq_false c.prev_ts_ns 0 ne) refl

  -- After a sample that was reported at a time that is not 0, each sample of the same client in less than
  -- 2 ms after its last query reports the same number, for whatever peak, and changes nothing.
  pub sample_util-sample_util :
      (l m : MadLibrary) (f g : Files) (now later : ℕ) (c : IbMadClient W) (peak other u : W)
      → (sample_util l f now c peak).1 ≡ reading u
      → now ≢ 0
      → sub64 later (sample_util l f now c peak).0.last_query_ns < 2000000
      → sample_util m g later (sample_util l f now c peak).0 other
        ≡ ((sample_util l f now c peak).0, reading u)
  unfolding Fresh
  sample_util-sample_util l m f g now later c peak other u h ne soon =
      let c' = (sample_util l f now c peak).0 in
      let fresh = sample_util-Fresh l f now c peak u ne h in
      sample_recent m g later c' other (lt→ltb (sub64 later c'.last_query_ns) 2000000 soon) fresh.1
      ∙ ap (λ (v : W). (c', reading v)) fresh.0
