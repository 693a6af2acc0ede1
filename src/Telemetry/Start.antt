-- ===== src/Telemetry/Start.antt =====
-- telemetry/hw_counters.cpp: `NvmlBackend` after its start, with and without the library.
use cong_shed.Base.{
  ℕ, ◌≡◌, refl, ap, ◌∙◌, Bool, true, false, not, ◌&&◌, ◌||◌, List, ◌⊎◌, inl, inr, Bool-cases,
  if_either, option_either, get_elem?,
}
use cong_shed.Base.Int.{is_nonneg, pos_part}
use cong_shed.Base.Double.{Double}
use cong_shed.Model.{nvlink, fabric_eq}
use cong_shed.Telemetry.Binding.{EdgeHwBinding}
use cong_shed.Telemetry.Nvml.{
  NvmlLibrary, NvmlBackend, Outcome, refused, null_call, nvml_start, nvml_sample, sample_nvlink,
  sample_throughput, loads, resolve, teardown,
}

-- Every function that was called had been found.
abbrev pub calls_found : {W : Type 0} → Outcome W → Bool
calls_found null_call = false
calls_found other = true

module _ {W : Type 0} where
  -- From a backend that is not ready, a start reports whether the backend is ready.
  start_ready :
      (l : NvmlLibrary) (s : NvmlBackend W) (bs : List (EdgeHwBinding W))
      → s.ready ≡ false
      → (nvml_start l s bs).0.ready ≡ (nvml_start l s bs).1
  unfolding nvml_start resolve teardown
  start_ready l s bs h =
      let P : NvmlBackend W × Bool → Type 0 = λ r. r.0.ready ≡ r.1 in
      if_either P (not (loads l)) _ _ h
        (if_either P ((l.has "nvmlInit_v2" || l.has "nvmlInit") && l.init_ok) _ _ refl refl)

  -- A backend that is ready has the lookup of devices if the library has it.
  start_handle :
      (l : NvmlLibrary) (s : NvmlBackend W) (bs : List (EdgeHwBinding W))
      → s.ready ≡ false
      → (l.has "nvmlDeviceGetHandleByIndex_v2" || l.has "nvmlDeviceGetHandleByIndex") ≡ true
      → ((nvml_start l s bs).0.ready ≡ false) ⊎ ((nvml_start l s bs).0.get_handle_by_index ≡ true)
  unfolding nvml_start resolve teardown
  start_handle l s bs h has =
      let P : NvmlBackend W × Bool → Type 0 =
        λ r. (r.0.ready ≡ false) ⊎ (r.0.get_handle_by_index ≡ true) in
      if_either P (not (loads l)) _ _ (inl h) (
        if_either P ((l.has "nvmlInit_v2" || l.has "nvmlInit") && l.init_ok) _ _ (inr has)
          (inl refl))

module _ {W : Type 0} ⦃d : Double W⦄ where
  sample_unready :
      (l : NvmlLibrary) (now : ℕ) (s : NvmlBackend W) (edge : ℕ)
      → s.ready ≡ false
      → nvml_sample l now s edge ≡ (s, refused)
  unfolding nvml_sample
  sample_unready l now s edge h =
      option_either (λ (r : NvmlBackend W × Outcome W). r ≡ (s, refused))
        (get_elem? s.bindings edge) _ _ refl (λ b. rw h refl)

  sample_found :
      (l : NvmlLibrary) (now : ℕ) (s : NvmlBackend W) (edge : ℕ)
      → s.get_handle_by_index ≡ true
      → calls_found (nvml_sample l now s edge).1 ≡ true
  unfolding nvml_sample sample_nvlink sample_throughput
  sample_found l now s edge h =
      let P : NvmlBackend W × Outcome W → Type 0 = λ r. calls_found r.1 ≡ true in
      let Q : Outcome W → Type 0 = λ r. calls_found r ≡ true in
      option_either P (get_elem? s.bindings edge) _ _ refl (λ b.
        if_either P (not s.ready) (s, refused) _ refl
          (if_either P (fabric_eq b.fabric nvlink && (s.get_nvlink_counter && is_nonneg b.gpu_a)) _
            _
            (rw h (
              option_either P (l.device (pos_part b.gpu_a)) _ _ refl (λ dev.
                option_either P (l.nvlink_counter dev (pos_part b.nvlink_id)) _ _ refl
                  (λ tx. refl))))
            (if_either P (s.get_pcie_throughput && is_nonneg b.gpu_a) _ (s, refused)
              (rw h (
                option_either Q (l.device (pos_part b.gpu_a)) _ _ refl
                  (λ dev. option_either Q (l.pcie_throughput dev 0) _ _ refl (λ kbps. refl))))
              refl)))

  -- After a start each sample is refused and changes nothing, or the start succeeded; and no sample calls
  -- through a null pointer, or the library lacks the lookup of devices. The backend was not ready before.
  pub nvml_start-nvml_sample :
      (l at : NvmlLibrary) (s : NvmlBackend W) (bs : List (EdgeHwBinding W)) (now edge : ℕ)
      → s.ready ≡ false
      → (((nvml_start l s bs).1 ≡ true)
          ⊎ (nvml_sample at now (nvml_start l s bs).0 edge ≡ ((nvml_start l s bs).0, refused)))
        × (((l.has "nvmlDeviceGetHandleByIndex_v2" || l.has "nvmlDeviceGetHandleByIndex") ≡ false)
            ⊎ (calls_found (nvml_sample at now (nvml_start l s bs).0 edge).1 ≡ true))
  nvml_start-nvml_sample l at s bs now edge h =
      let s' = (nvml_start l s bs).0 in
      let off_calls = λ (off : s'.ready ≡ false).
        ap (λ (r : NvmlBackend W × Outcome W). calls_found r.1)
          (sample_unready at now s' edge off) in
      (
        elim (Bool-cases (nvml_start l s bs).1) [
          | inl started ↦ inl started
          | inr failed ↦ inr (sample_unready at now s' edge (start_ready l s bs h ∙ failed))
        ],
        elim (Bool-cases
            (l.has "nvmlDeviceGetHandleByIndex_v2" || l.has "nvmlDeviceGetHandleByIndex")) [
              | inr lacks ↦ inl lacks
              | inl has ↦ elim (start_handle l s bs h has) [
                | inl off ↦ inr (off_calls off)
                | inr found ↦ inr (sample_found at now s' edge found)
              ]
            ],
      )
