-- ===== src/Shim/Plugin/Pairing.antt =====
-- Proofs about shim/nccl_plugin.cpp: which buffer a receive takes for its source.
use cong_shed.Base.{
  eq_false, ℕ, ◌≡◌, refl, ◌≢◌, true, not, ◌&&◌, ◌||◌, Option, none, some, ◌==◌, ==_iff, if_either,
  option_either, arith,
}
use cong_shed.Base.Int.{ℤ}
use cong_shed.Base.Double.{Double}
use cong_shed.CudaMr.{CudaRuntime}
use cong_shed.Shim.{Clock}
use cong_shed.Shim.Plugin.{
  NcclResult, invalid_argument, internal_error, at_least, PluginComm, Plugin, check_recv, pair_up,
  file_request, plugin_irecv,
}
use cong_shed.Shim.Plugin.Requests.{checked_either}

is_match_waiting :
    (size buf peer : ℕ)
    → buf ≢ 0
    → peer ≡ 0
    → (not (buf == 0) && ((peer == 0) && (size == size))) ≡ true
is_match_waiting size buf peer b p =
    rw (eq_false buf 0 b, (==_iff peer 0).1 p, (==_iff size size).1 refl) refl

module _ {W : Type 0} ⦃d : Double W⦄ where
  -- A receive with a buffer that finds no waiting send is itself taken for one: the next receive of the same
  -- size has its buffer for source.
  pub plugin_irecv-pair_up :
      (rt : CudaRuntime) (p : Plugin W) (comm : PluginComm) (n : ℤ) (ptr size : ℕ) (tag : ℤ) (h : ℕ)
      (clock : Clock W) (i target : ℕ)
      → ptr ≢ 0
      → (pair_up size ptr p.requests).0 ≡ 0
      → (plugin_irecv rt p (some comm) n ptr size tag h true clock).2 ≡ some i
      → (pair_up size target
          (plugin_irecv rt p (some comm) n ptr size tag h true clock).0.requests).0
        ≡ ptr
  unfolding plugin_irecv file_request pair_up
  plugin_irecv-pair_up rt p comm n ptr size tag h clock i target nz alone =
      let P : Plugin W × NcclResult × Option ℕ → Type 0 =
        λ r. r.2 ≡ some i → (pair_up size target r.0.requests).0 ≡ ptr in
      if_either P (not true || not (at_least 1 n)) (p, invalid_argument, none) _
        (λ e. absurd (ground (arith, e)))
        (option_either P p.shim (p, internal_error, none) _ (λ e. absurd (ground (arith, e)))
          (λ s.
            checked_either P (check_recv rt p.registry h ptr) (λ x. (p, x, none)) _
              (λ r e. absurd (ground (arith, e)))
              (λ b e.
                rw (is_match_waiting size ptr (pair_up size ptr p.requests).0 nz alone) refl)))
