-- ===== src/CudaMr/Loading.antt =====
-- shim/cuda_mr.cpp: the constructor of `CudaRuntime`, which loads the library. A library is what `dlsym`
-- finds in it, with what its functions answer.
use Prim.Native.String.{String}
use cong_shed.Base.{ℕ, Bool, true, false, Option, none, some, List, [], ◌∷◌}
use cong_shed.Base.Int.{ℤ, pos, negsuc}
use cong_shed.CudaMr.{CudaPointerAttributes, CudaRuntime}

pub record CudaLibrary : Type 0 where
  -- the number of devices, if `cudaGetDeviceCount` succeeds
  pub device_count_fn : Option (Option ℤ)
  pub attributes_fn : Option (ℕ → Option CudaPointerAttributes)
  pub register_fn : Option (ℕ → ℕ → ℕ → Bool)
  pub unregister_fn : Option (ℕ → Bool)
  pub device_pointer_fn : Option (ℕ → Option ℕ)
  pub synchronize_fn : Option Bool
  pub memcpy_fn : Option (ℕ → ℕ → ℕ → ℕ → Bool)

abbrev pub library_names : List String
library_names =
    "libcudart.so.12" ∷ "libcudart.so.11.0" ∷ "libcudart.so.11" ∷ "libcudart.so" ∷ "libcudart.dylib"
    ∷ []

-- The first library of the list that loads.
unfoldable pub open_first : (String → Option CudaLibrary) → List String → Option CudaLibrary
open_first load [] = none
open_first load (s ∷ ss) = elim (load s) [ none ↦ open_first load ss | some l ↦ some l ]

-- What an object without a library answers.
abbrev pub no_runtime : (ℕ → ℕ → Bool) → CudaRuntime
no_runtime mlock = record {
  ready = false;
  device_count = 0;
  attributes = λ p. none;
  register_fn = none;
  unregister_fn = none;
  device_pointer_fn = none;
  synchronize_fn = none;
  memcpy_fn = none;
  mlock = mlock;
}

-- An error, or a count that is not positive, counts as no device.
abbrev pub counted : Option ℤ → ℕ
counted none = 0
counted (some (negsuc n)) = 0
counted (some (pos n)) = n

-- The functions are found before it is seen that one that is needed lacks.
unfoldable pub resolved : (ℕ → ℕ → Bool) → CudaLibrary → CudaRuntime
resolved mlock l =
    let found : CudaRuntime = record (no_runtime mlock) {
      register_fn = l.register_fn;
      unregister_fn = l.unregister_fn;
      device_pointer_fn = l.device_pointer_fn;
      synchronize_fn = l.synchronize_fn;
      memcpy_fn = l.memcpy_fn;
    } in
    elim l.device_count_fn [
      | none ↦ found
      | some n ↦ elim l.attributes_fn [
        | none ↦ found
        | some attributes ↦ record found {
          ready = true;
          device_count = counted n;
          attributes = attributes;
        }
      ]
    ]

unfoldable pub cuda_runtime : (String → Option CudaLibrary) → (ℕ → ℕ → Bool) → CudaRuntime
unfolding open_first resolved
cuda_runtime load mlock = elim (open_first load library_names) [
  | none ↦ no_runtime mlock
  | some l ↦ resolved mlock l
]
