-- ===== src/Shim/Plugin/Requests.antt =====
-- Proofs about shim/nccl_plugin.cpp: the numbers of the requests over any calls.
use cong_shed.Base.{
  eq_false, ℕ, zero, suc, ◌+◌, ◌≤◌, ◌<◌, ◌≡◌, refl, sym, ◌∙◌, ◌≢◌, ◌⊎◌, ◌↔◌, subst, inl, inr, Bool,
  true, Bool-cases, Option, none, some, List, [], ◌∷◌, arith, word64, ◌==◌, ==_iff, length,
  if_either, if_either_eq, option_either, option_either_eq,
}
use cong_shed.Base.Int.{ℤ}
use cong_shed.Base.Double.{Double}
use cong_shed.CudaMr.{CudaRuntime}
use cong_shed.Shim.{Clock}
use cong_shed.Shim.Plugin.{
  NcclResult, PluginComm, PluginRequest, Plugin, check_send, check_recv, is_match, pair_up,
  find_request, erase_request, file_request, plugin_isend, plugin_irecv, plugin_test,
}

-- The numbers are positive, fall from the newest on and are below `n`.
abbrev pub AreFiled : ℕ → List (ℕ × PluginRequest) → Type 0
AreFiled n [] = Unit
AreFiled n (r ∷ rs) = (r.0 < n) × (0 < r.0) × AreFiled r.0 rs

AreFiled-mono : (m n : ℕ) (rs : List (ℕ × PluginRequest)) → m ≤ n → AreFiled m rs → AreFiled n rs
AreFiled-mono m n [] h w = tt
AreFiled-mono m n (r ∷ rs) h w = (omega arith, w.1, w.2)

find_request_above :
    (n i : ℕ) (rs : List (ℕ × PluginRequest)) → AreFiled n rs → n ≤ i → find_request i rs ≡ none
unfolding find_request
find_request_above n i [] w k = refl
find_request_above n i ((j, r) ∷ rs) w k =
    rw (eq_false j i (λ e. omega arith)) (find_request_above j i rs w.2 (omega arith))

find-erase_request :
    (n i : ℕ) (rs : List (ℕ × PluginRequest))
    → AreFiled n rs
    → find_request i (erase_request i rs) ≡ none
unfolding find_request erase_request
find-erase_request n i [] w = refl
find-erase_request n i ((j, r) ∷ rs) w = elim (Bool-cases (j == i)) [
  | inl e ↦ rw e (find_request_above j i rs w.2 (ground arith))
  | inr e ↦ rw e (rw e (find-erase_request j i rs w.2))
]

erase_request-AreFiled :
    (n i : ℕ) (rs : List (ℕ × PluginRequest)) → AreFiled n rs → AreFiled n (erase_request i rs)
unfolding erase_request
erase_request-AreFiled n i [] w = tt
erase_request-AreFiled n i ((j, r) ∷ rs) w = elim (Bool-cases (j == i)) [
  | inl e ↦ rw e (AreFiled-mono j n rs (omega arith) w.2)
  | inr e ↦ rw e (w.0, w.1, erase_request-AreFiled j i rs w.2)
]

pair_up-AreFiled :
    (size target n : ℕ) (rs : List (ℕ × PluginRequest))
    → AreFiled n rs
    → AreFiled n (pair_up size target rs).1
unfolding pair_up
pair_up-AreFiled size target n [] w = tt
pair_up-AreFiled size target n ((j, r) ∷ rs) w =
    let P : ℕ × List (ℕ × PluginRequest) → Type 0 = λ q. AreFiled n q.1 in
    if_either P (is_match size r) _ _ (w.0, w.1, w.2)
      (w.0, w.1, pair_up-AreFiled size target j rs w.2)

pub checked_either :
    {A : Type 0} (P : A → Type 0) (c : NcclResult ⊎ Bool) (x : NcclResult → A) (y : Bool → A)
    → ((e : NcclResult) → P (x e))
    → ((b : Bool) → P (y b))
    → P (elim c [ inl e ↦ x e | inr b ↦ y b ])
checked_either P (inl e) x y p q = p e
checked_either P (inr b) x y p q = q b

-- The calls that change the requests, with their arguments; a receive also has its number of buffers.
pub data PluginCall (W : Type 0) : Type 0 where
  send : Option PluginComm → ℕ → ℕ → ℤ → ℕ → Bool → Clock W → PluginCall W
  receive : Option PluginComm → ℤ → ℕ → ℕ → ℤ → ℕ → Bool → Clock W → PluginCall W
  query : ℕ → Clock W → PluginCall W

module _ {W : Type 0} ⦃d : Double W⦄ where
  abbrev pub IsOrderly : Plugin W → Type 0
  IsOrderly p = (0 < p.next_req) × AreFiled p.next_req p.requests

  -- What a call leaves, and how many numbers it takes.
  abbrev Keeps : Plugin W → Plugin W × NcclResult × Option ℕ → Type 0
  Keeps p r = IsOrderly r.0 × (r.0.next_req ≤ p.next_req + 1)

  plugin_isend-Keeps :
      (rt : CudaRuntime) (p : Plugin W) (comm : Option PluginComm) (ptr size : ℕ) (tag : ℤ) (h : ℕ)
      (wants : Bool) (clock : Clock W)
      → IsOrderly p
      → p.next_req + 1 < word64
      → Keeps p (plugin_isend rt p comm ptr size tag h wants clock)
  unfolding plugin_isend file_request
  plugin_isend-Keeps rt p none ptr size tag h wants clock ok n = (ok, omega arith)
  plugin_isend-Keeps rt p (some comm) ptr size tag h wants clock ok n =
      if_either (Keeps p) _ _ _ (ok, omega arith)
        (option_either (Keeps p) p.shim _ _ (ok, omega arith)
          (λ s.
            checked_either (Keeps p) (check_send rt p.registry h ptr size) _ _
              (λ e. (ok, omega arith))
              (λ b. ((omega (arith, n), (omega (arith, n), ok.0, ok.1)), omega (arith, n)))))

  plugin_irecv-Keeps :
      (rt : CudaRuntime) (p : Plugin W) (comm : Option PluginComm) (n : ℤ) (ptr size : ℕ) (tag : ℤ)
      (h : ℕ) (wants : Bool) (clock : Clock W)
      → IsOrderly p
      → p.next_req + 1 < word64
      → Keeps p (plugin_irecv rt p comm n ptr size tag h wants clock)
  unfolding plugin_irecv file_request
  plugin_irecv-Keeps rt p none m ptr size tag h wants clock ok n = (ok, omega arith)
  plugin_irecv-Keeps rt p (some comm) m ptr size tag h wants clock ok n =
      if_either (Keeps p) _ _ _ (ok, omega arith)
        (option_either (Keeps p) p.shim _ _ (ok, omega arith)
          (λ s.
            checked_either (Keeps p) (check_recv rt p.registry h ptr) _ _ (λ e. (ok, omega arith))
              (λ b. (
                (
                  omega (arith, n),
                  (omega (arith, n), ok.0, pair_up-AreFiled size ptr p.next_req p.requests ok.1),
                ),
                omega (arith, n),
              ))))

  -- After a test, the requests are as orderly, and a request is reported done just where it is not filed.
  Tested : Plugin W → ℕ → Plugin W × NcclResult × Bool × Option ℤ → Type 0
  Tested p i r =
      IsOrderly r.0
      × (r.0.next_req ≡ p.next_req)
      × ((r.2 ≡ true) ↔ (find_request i r.0.requests ≡ none))

  plugin_test-Tested :
      (p : Plugin W) (i : ℕ) (clock : Clock W)
      → IsOrderly p
      → i ≢ 0
      → Tested p i (plugin_test p i clock)
  unfolding plugin_test Tested
  plugin_test-Tested p i clock ok nz =
      if_either_eq (Tested p i) (i == 0) _ _ (λ e. absurd (nz ((==_iff i 0).0 e)))
        (λ e.
          option_either_eq (Tested p i) (find_request i p.requests) _ _
            (λ k. (ok, refl, (λ x. k, λ x. refl)))
            (λ q k.
              option_either (Tested p i) p.shim _ _
                (
                  ok,
                  refl,
                  (λ x. absurd (ground (arith, x)), λ x. absurd (ground (arith, sym k ∙ x))),
                )
                (λ s.
                  if_either (Tested p i) _ _ _
                    (
                      (ok.0, erase_request-AreFiled p.next_req i p.requests ok.1),
                      refl,
                      (λ x. find-erase_request p.next_req i p.requests ok.1, λ x. refl),
                    )
                    (
                      ok,
                      refl,
                      (λ x. absurd (ground (arith, x)), λ x. absurd (ground (arith, sym k ∙ x))),
                    ))))

  pub run_call : CudaRuntime → PluginCall W → Plugin W → Plugin W
  run_call rt (send comm ptr size tag h wants clock) p =
      (plugin_isend rt p comm ptr size tag h wants clock).0
  run_call rt (receive comm n ptr size tag h wants clock) p =
      (plugin_irecv rt p comm n ptr size tag h wants clock).0
  run_call rt (query i clock) p = (plugin_test p i clock).0

  pub run_calls : CudaRuntime → List (PluginCall W) → Plugin W → Plugin W
  run_calls rt [] p = p
  run_calls rt (c ∷ cs) p = run_calls rt cs (run_call rt c p)

  run_call-IsOrderly :
      (rt : CudaRuntime) (c : PluginCall W) (p : Plugin W)
      → IsOrderly p
      → p.next_req + 1 < word64
      → IsOrderly (run_call rt c p) × ((run_call rt c p).next_req ≤ p.next_req + 1)
  unfolding run_call plugin_test Tested
  run_call-IsOrderly rt (send comm ptr size tag h wants clock) p ok n =
      plugin_isend-Keeps rt p comm ptr size tag h wants clock ok n
  run_call-IsOrderly rt (receive comm m ptr size tag h wants clock) p ok n =
      plugin_irecv-Keeps rt p comm m ptr size tag h wants clock ok n
  run_call-IsOrderly rt (query zero clock) p ok n = (ok, omega arith)
  run_call-IsOrderly rt (query (suc i) clock) p ok n =
      let t = plugin_test-Tested p (suc i) clock ok (λ e. ground (arith, e)) in
      (t.0, omega (arith, t.1))

  -- Any calls, fewer than the numbers that are left, keep the requests orderly: their numbers are positive,
  -- distinct, and below the next one.
  pub run_calls-IsOrderly :
      (rt : CudaRuntime) (cs : List (PluginCall W)) (p : Plugin W)
      → IsOrderly p
      → p.next_req + length cs < word64
      → IsOrderly (run_calls rt cs p)
  unfolding run_calls
  run_calls-IsOrderly rt [] p ok n = ok
  run_calls-IsOrderly rt (c ∷ cs) p ok n =
      let one = run_call-IsOrderly rt c p ok (omega (arith, n)) in
      run_calls-IsOrderly rt cs (run_call rt c p) one.0 (omega (arith, one.1, n))

  -- On a plugin without requests, and after any calls, fewer than the numbers that are left, a test of a
  -- request other than the null pointer reports it done just where it is not filed after the test.
  pub plugin_test-find_request :
      (rt : CudaRuntime) (cs : List (PluginCall W)) (p : Plugin W) (i : ℕ) (clock : Clock W)
      → p.requests ≡ []
      → 0 < p.next_req
      → p.next_req + length cs < word64
      → i ≢ 0
      → ((plugin_test (run_calls rt cs p) i clock).2 ≡ true)
        ↔ (find_request i (plugin_test (run_calls rt cs p) i clock).0.requests ≡ none)
  unfolding Tested
  plugin_test-find_request rt cs p i clock empty first n nz =
      let start : IsOrderly p = (first, subst (AreFiled p.next_req) (sym empty) tt) in
      (plugin_test-Tested (run_calls rt cs p) i clock (run_calls-IsOrderly rt cs p start n) nz).2
