-- ===== src/Shim/Plugin/Shown.antt =====
-- Proofs about shim/nccl_plugin.cpp: the devices that the plugin shows are the adapters of the transport.
use Prim.Native.Nat.{bit_or}
use Prim.Native.String.{String}
use cong_shed.Base.{
  ℕ, zero, suc, ◌<◌, ◌≡◌, ◌≢◌, refl, sym, ap, ◌∙◌, Bool, true, false, Option, none, some, List, [],
  ◌∷◌, arith, length, take, get_elem?, get_or, set, get_elem?-length, get_or-set_self, ◌&&◌,
  if_either_eq, if_either, if◌then◌else◌, is_empty, not, some_inj, max,
}
use cong_shed.Base.Int.{pos}
use cong_shed.Base.Double.{Double}
use cong_shed.Model.{ib_rail_count}
use cong_shed.Ibverbs.{
  IbDeviceInfo, Transport, Host, discovered, discover_ib_device_names, discover_sysfs, init,
  load_ibverbs,
}
use cong_shed.CudaMr.{CudaRuntime}
use cong_shed.Shim.Plugin.Devices.{
  NetProperties, ready_transport, plugin_devices, device_path, path_written, rail_of,
  plugin_get_properties,
}

no_element :
    {A : Type 0} (xs : List A) (i : ℕ) (x : A)
    → not (not (is_empty xs)) ≡ true
    → get_elem? xs i ≢ some x
no_element [] i x h e = ground (arith, e)
no_element (y ∷ ys) i x h e = ground (arith, h)

discovered-guid :
    (names : List String) (i : ℕ) (dev : IbDeviceInfo)
    → get_elem? (discovered 0 (take 2 names)) i ≡ some dev
    → (i < 2) × (bit_or 0x4849435300000000 i ≡ dev.guid) × (dev.rail_id ≡ pos i)
unfolding discovered
discovered-guid [] i dev e = absurd (ground arith)
discovered-guid (s ∷ []) zero dev e =
    let same = some_inj _ dev e in
    (omega arith, ap (λ u. u.guid) same, ap (λ u. u.rail_id) (sym same))
discovered-guid (s ∷ []) (suc i) dev e = absurd (ground arith)
discovered-guid (s ∷ u ∷ ss) zero dev e =
    let same = some_inj _ dev e in
    (omega arith, ap (λ u. u.guid) same, ap (λ u. u.rail_id) (sym same))
discovered-guid (s ∷ u ∷ ss) (suc zero) dev e =
    let same = some_inj _ dev e in
    (omega arith, ap (λ u. u.guid) same, ap (λ u. u.rail_id) (sym same))
discovered-guid (s ∷ u ∷ ss) (suc (suc i)) dev e = absurd (ground arith)

-- Where a transport that was not ready has a device, it became ready, and the device was discovered.
ready_transport-devices :
    (h : Host) (t : Transport) (i : ℕ) (dev : IbDeviceInfo)
    → t.ready ≡ false
    → get_elem? (ready_transport h t).devices i ≡ some dev
    → ((ready_transport h t).ready ≡ true)
      × (get_elem? (discovered 0 (take 2 (discover_ib_device_names h))) i ≡ some dev)
unfolding ready_transport init discover_sysfs load_ibverbs
ready_transport-devices h t i dev e =
    let listed = discovered 0 (take 2 (discover_ib_device_names h)) in
    let P : Transport → Type 0 =
      λ u. get_elem? u.devices i ≡ some dev → (u.ready ≡ true) × (get_elem? listed i ≡ some dev) in
    let Q : Transport × Bool → Type 0 = λ r. P r.0 in
    let found = discover_sysfs h ib_rail_count (record t { hardware = false }) in
    let loaded = load_ibverbs h found.0 in
    if_either_eq P t.ready _ _ (λ k. absurd (ground (arith, e, k)))
      (λ k.
        if_either_eq Q t.ready _ _ (λ k2. absurd (ground (arith, e, k2)))
          (λ k2.
            if_either_eq Q (not found.1) (found.0, false) _
              (λ missing x. absurd (no_element listed i dev missing x))
              (λ y.
                if_either Q (loaded.ibv_handle && loaded.hardware)
                  (record loaded { ready = true }, true)
                  (record loaded { ready = true; hardware = false }, true) (λ x. (refl, x))
                  (λ x. (refl, x)))))

ready_transport-ready : (h : Host) (t : Transport) → t.ready ≡ true → ready_transport h t ≡ t
unfolding ready_transport
ready_transport-ready h t e = ap (λ b. if b then t else (init h ib_rail_count t).0) e

module _ (W : Type 0) ⦃d : Double W⦄ where
  -- The properties are those of the adapter.
  abbrev pub Describes : IbDeviceInfo → Option (NetProperties W) → Type 0
  Describes dev none = ⊥
  Describes dev (some p) =
      (p.guid ≡ dev.guid) × (pos p.port ≡ dev.rail_id) × (p.pci_path ≡ device_path dev.name)

  -- On a transport that was not ready, each adapter that `plugin_devices` finds has a number below the one that
  -- is reported, and the properties under that number, in a table of two paths, are those of the adapter: its
  -- guid, its rail and its path.
  pub plugin_get_properties-devices :
      (rt : CudaRuntime) (h : Host) (t : Transport) (pcis : List String) (i : ℕ)
      (dev : IbDeviceInfo)
      → t.ready ≡ false
      → length pcis ≡ 2
      → get_elem? (plugin_devices h t true).0.devices i ≡ some dev
      → ((n : ℕ) × ((plugin_devices h t true).2 ≡ some n) × (i < n))
        × Describes dev (plugin_get_properties rt h (plugin_devices h t true).0 pcis (pos i) true).3
  unfolding plugin_devices plugin_get_properties path_written
  plugin_get_properties-devices rt h t pcis i dev off two e =
      let u = ready_transport h t in
      let r = ready_transport-devices h t i dev off e in
      let g = discovered-guid (discover_ib_device_names h) i dev r.1 in
      let same : rail_of (pos i) ≡ i = omega (arith, g.0) in
      let below = get_elem?-length u.devices i dev e in
      (
        (max 1 (length u.devices), refl, omega (arith, below)),
        (
          ap (bit_or 0x4849435300000000) same ∙ g.1,
          ap pos same ∙ sym g.2,
          ap (λ v. get_or (path_written v (rail_of (pos i)) pcis) (rail_of (pos i)) "")
                (ready_transport-ready h u r.0)
              ∙ (ap (λ k. get_or (path_written u k pcis) k "") same
                  ∙ (ap
                        (λ (o : Option IbDeviceInfo).
                          get_or (elim o [ none ↦ pcis | some v ↦ set pcis i (device_path v.name) ])
                            i "")
                        e
                      ∙ get_or-set_self pcis i (device_path dev.name) ""
                          (omega (arith, g.0, two)))),
        ),
      )
