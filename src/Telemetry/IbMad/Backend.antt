-- ===== src/Telemetry/IbMad/Backend.antt =====
-- telemetry/ib_mad.cpp: `IbMadBackend`, whose edges share the clients of their ports. A client is the place that
-- it has among the clients that were opened.
use Prim.Native.String.{String, ◌++◌ as string_append}
use text.Mathlib.Text.{◌==◌ as str_eq}
use cong_shed.Base.{
  ℕ, Bool, true, false, not, Option, none, some, List, [], ◌∷◌, ◌++◌, if◌then◌else◌, get_elem?, set,
  length,
}
use cong_shed.Base.Double.{Double}
use cong_shed.Base.Text.{show_int}
use cong_shed.Model.{infiniband, fabric_eq}
use cong_shed.Telemetry.Binding.{EdgeHwBinding}
use cong_shed.Telemetry.Meter.{Files}
use cong_shed.Telemetry.Nvml.{Outcome, refused}
use cong_shed.Telemetry.IbMad.{MadLibrary, IbMadClient, init_mad_libs, open_client}
use cong_shed.Telemetry.IbMad.Sample.{sample_util}

pub record IbMadBackend (W : Type 0) : Type 0 where
  pub bindings : List (EdgeHwBinding W)
  -- the objects, and which of them each edge has
  pub opened : List (IbMadClient W)
  pub clients : List (Option ℕ)
  pub name : String

unfoldable pub ib_mad_available : Files → Bool
ib_mad_available f = f.opens "/sys/class/infiniband"

-- "device:port"
unfoldable pub key_of : {W : Type 0} → EdgeHwBinding W → String
key_of b = string_append b.ib_device (string_append ":" (show_int b.ib_port))

-- `shared.find(key)`
unfoldable pub find_key : List (String × ℕ) → String → Option ℕ
find_key [] key = none
find_key (e ∷ es) key = if str_eq e.0 key then some e.1 else find_key es key

abbrev pub any_client : List (Option ℕ) → Bool
any_client [] = false
any_client (none ∷ cs) = any_client cs
any_client (some i ∷ cs) = true

-- What the loop of `init` has made so far.
pub record Opening (W : Type 0) : Type 0 where
  pub objects : List (IbMadClient W)
  pub shared : List (String × ℕ)
  pub name : String

module _ {W : Type 0} ⦃d : Double W⦄ where
  -- One edge: a client of its port that there is, or one that is opened now.
  unfoldable pub init_edge : MadLibrary → Files → Opening W → EdgeHwBinding W → Opening W × Option ℕ
  unfolding init_mad_libs open_client find_key key_of
  init_edge l f o b =
      let key = key_of b in
      let r = open_client l f (init_mad_libs l) b.ib_device b.ib_port in
      let grown : Opening W = record {
        objects = o.objects ++ (r.0 ∷ []);
        shared = (key, length o.objects) ∷ o.shared;
        name = r.0.backend_name;
      } in
      if not (fabric_eq b.fabric infiniband) then (o, none) else elim (find_key o.shared key) [
        | none ↦ if r.1 then (grown, some (length o.objects)) else (o, none)
        | some i ↦ (o, some i)
      ]

  unfoldable pub init_edges :
      MadLibrary → Files → Opening W → List (EdgeHwBinding W) → Opening W × List (Option ℕ)
  unfolding init_edge
  init_edges l f o [] = (o, [])
  init_edges l f o (b ∷ bs) =
      let r = init_edge l f o b in let rest = init_edges l f r.0 bs in (rest.0, r.1 ∷ rest.1)

  unfoldable pub ib_mad_init :
      MadLibrary → Files → IbMadBackend W → List (EdgeHwBinding W) → IbMadBackend W × Bool
  unfolding init_edges
  ib_mad_init l f s bs =
      let r = init_edges l f (record { objects = []; shared = []; name = s.name }) bs in
      (
        record { bindings = bs; opened = r.0.objects; clients = r.1; name = r.0.name },
        any_client r.1,
      )

  unfoldable pub ib_mad_sample :
      MadLibrary → Files → ℕ → IbMadBackend W → ℕ → IbMadBackend W × Outcome W
  unfolding sample_util
  ib_mad_sample l f now s edge = elim (get_elem? s.bindings edge) [
    | none ↦ (s, refused)
    | some b ↦ elim (get_elem? s.clients edge) [
      | none ↦ (s, refused)
      | some client ↦ elim client [
        | none ↦ (s, refused)
        | some i ↦ elim (get_elem? s.opened i) [
          | none ↦ (s, refused)
          | some c ↦
              let r = sample_util l f now c b.peak_bw_gbps in
              (record s { opened = set s.opened i r.0 }, r.1)
        ]
      ]
    ]
  ]
