-- ===== src/Base/Bytes.antt =====
-- Bytes as the machine stores numbers, least byte first, and a file that is read from its start.
use Prim.Native.Nat.{ℕ, zero, suc, ◌+◌, ◌-◌, ◌*◌, ◌/◌, ◌%◌, ◌^◌, ◌<◌}
use mathlib.Core.Bool.{Bool, true, false}
use mathlib.Core.Path.{◌≡◌, refl, ap, ap₂, ◌∙◌, subst}
use mathlib.Core.List.{List, [], ◌∷◌, ◌++◌}
use native.Mathlib.Omega.{arith}
use cong_shed.Base.Tests.{ltb, leb, if◌then◌else◌}
use cong_shed.Base.Lists.{length, take, All, length-append}
use cong_shed.Base.Int.{ℤ, pos, negsuc}
use cong_shed.Base.Double.{Double, IsFloating}

abbrev pub drop {ℓ} : {A : Type ℓ} → ℕ → List A → List A
drop zero xs = xs
drop (suc n) [] = []
drop (suc n) (x ∷ xs) = drop n xs

unfoldable pub u32_bytes : ℕ → List ℕ
u32_bytes v = v % 256 ∷ v / 256 % 256 ∷ v / 65536 % 256 ∷ v / 16777216 % 256 ∷ []

unfoldable pub bytes_u32 : List ℕ → ℕ
bytes_u32 [] = 0
bytes_u32 (b ∷ bs) = b + 256 * bytes_u32 bs

pub bytes_u32-u32_bytes : (v : ℕ) → v < 2 ^ 32 → bytes_u32 (u32_bytes v) ≡ v
unfolding u32_bytes bytes_u32
bytes_u32-u32_bytes v h = omega arith

pub length-u32_bytes : (v : ℕ) → length (u32_bytes v) ≡ 4
unfolding u32_bytes
length-u32_bytes v = refl

-- The byte of an `int8_t`, and the `int8_t` of a byte.
unfoldable pub int8_byte : ℤ → ℕ
int8_byte (pos n) = n % 256
int8_byte (negsuc n) = 255 - n % 256

unfoldable pub byte_int8 : ℕ → ℤ
byte_int8 b = if ltb b 128 then pos b else negsuc (255 - b)

abbrev pub IsInt8 : ℤ → Type 0
IsInt8 (pos n) = n < 128
IsInt8 (negsuc n) = n < 128

pub byte_int8-int8_byte : (z : ℤ) → IsInt8 z → byte_int8 (int8_byte z) ≡ z
unfolding byte_int8 int8_byte
byte_int8-int8_byte (pos n) h = ground arith
byte_int8-int8_byte (negsuc n) h = ground arith

pub byte_int8-IsInt8 : (b : ℕ) → b < 256 → IsInt8 (byte_int8 b)
unfolding byte_int8
byte_int8-IsInt8 b h = ground arith

-- `static_cast<int8_t>` of an `int`
unfoldable pub to_int8 : ℤ → ℤ
to_int8 z = byte_int8 (int8_byte z)

pub to_int8-IsInt8 : (z : ℤ) → IsInt8 (to_int8 z)
unfolding to_int8 int8_byte
to_int8-IsInt8 (pos n) = byte_int8-IsInt8 (n % 256) (omega arith)
to_int8-IsInt8 (negsuc n) = byte_int8-IsInt8 (255 - n % 256) (omega arith)

-- An input stream: what is left of the file, and whether no read has failed.
pub record Stream : Type 0 where
  pub rest : List ℕ
  pub good : Bool

-- `f.read(dest, n)` for the `n` bytes of `dest`: a file that is too short fills a part of them, and
-- fails the stream, which then reads nothing any more.
unfoldable pub read_into : List ℕ → Stream → List ℕ × Stream
read_into dest s =
    let n = length dest in
    if s.good
    then (if leb n (length s.rest)
        then (take n s.rest, record { rest = drop n s.rest; good = true })
        else (s.rest ++ drop (length s.rest) dest, record { rest = []; good = false }))
    else (dest, s)

take_front : (bs rest : List ℕ) → take (length bs) (bs ++ rest) ≡ bs
take_front [] rest = refl
take_front (b ∷ bs) rest = ap (b ∷◌) (take_front bs rest)

pub drop_front : (bs rest : List ℕ) → drop (length bs) (bs ++ rest) ≡ rest
drop_front [] rest = refl
drop_front (b ∷ bs) rest = drop_front bs rest

front_fits : (bs rest : List ℕ) → leb (length bs) (length (bs ++ rest)) ≡ true
front_fits bs rest = rw (length-append bs rest) (ground arith)

-- A stream that starts with as many bytes as the destination has.
pub read_into_front :
    (dest bs rest : List ℕ)
    → length dest ≡ length bs
    → read_into dest (record { rest = bs ++ rest; good = true })
      ≡ (bs, record { rest = rest; good = true })
unfolding read_into
read_into_front dest bs rest h =
    rw (h, front_fits bs rest, take_front bs rest, drop_front bs rest) refl

length-drop {ℓ} : {A : Type ℓ} (n : ℕ) (xs : List A) → length (drop n xs) ≡ length xs - n
length-drop zero xs = omega arith
length-drop (suc n) [] = omega arith
length-drop (suc n) (x ∷ xs) = omega (arith, length-drop n xs)

-- A read that leaves the stream good found it good, and took its bytes.
pub read_into_good :
    (dest : List ℕ) (s : Stream)
    → (read_into dest s).1.good ≡ true
    → (s.good ≡ true) × (length s.rest ≡ length dest + length (read_into dest s).1.rest)
unfolding read_into
read_into_good dest s h = ground (arith, length-drop (length dest) s.rest)

-- Arrays of `int8_t` and of four-byte numbers, as they lie in memory.
unfoldable pub int8_bytes : List ℤ → List ℕ
unfolding int8_byte
int8_bytes [] = []
int8_bytes (z ∷ zs) = int8_byte z ∷ int8_bytes zs

unfoldable pub bytes_int8 : List ℕ → List ℤ
unfolding byte_int8
bytes_int8 [] = []
bytes_int8 (b ∷ bs) = byte_int8 b ∷ bytes_int8 bs

pub bytes_int8-int8_bytes : (zs : List ℤ) → All IsInt8 zs → bytes_int8 (int8_bytes zs) ≡ zs
unfolding bytes_int8 int8_bytes
bytes_int8-int8_bytes [] h = refl
bytes_int8-int8_bytes (z ∷ zs) h =
    ap₂ ◌∷◌ (byte_int8-int8_byte z h.0) (bytes_int8-int8_bytes zs h.1)

pub length-int8_bytes : (zs : List ℤ) → length (int8_bytes zs) ≡ length zs
unfolding int8_bytes
length-int8_bytes [] = refl
length-int8_bytes (z ∷ zs) = ap suc (length-int8_bytes zs)

-- Floats
module _ {W : Type 0} ⦃d : Double W⦄ where
  open d use {narrow, float_bits, bits_float}

  abbrev pub IsFloat : W → Type 0
  IsFloat w = narrow w ≡ w

  unfoldable pub float_bytes : W → List ℕ
  float_bytes w = u32_bytes (float_bits w)

  pub length-float_bytes : (w : W) → length (float_bytes w) ≡ 4
  unfolding float_bytes
  length-float_bytes w = length-u32_bytes (float_bits w)

  unfoldable pub bytes_float : List ℕ → W
  bytes_float bs = bits_float (bytes_u32 bs)

  unfoldable pub floats_bytes : List W → List ℕ
  floats_bytes [] = []
  floats_bytes (w ∷ ws) = float_bytes w ++ floats_bytes ws

  unfoldable pub bytes_floats : List ℕ → List W
  bytes_floats (a ∷ b ∷ c ∷ e ∷ bs) = bytes_float (a ∷ b ∷ c ∷ e ∷ []) ∷ bytes_floats bs
  bytes_floats _ = []

  module _ (l : IsFloating W) where
    pub bytes_float-float_bytes : (w : W) → IsFloat w → bytes_float (float_bytes w) ≡ w
    unfolding bytes_float float_bytes
    bytes_float-float_bytes w h =
        ap bits_float (bytes_u32-u32_bytes (float_bits w) (l.bits_lt w))
        ∙ subst (λ v. bits_float (float_bits v) ≡ v) h (l.bits_float-float_bits w)

    pub bytes_floats-floats_bytes :
        (ws : List W) → All IsFloat ws → bytes_floats (floats_bytes ws) ≡ ws
    unfolding bytes_floats floats_bytes float_bytes u32_bytes
    bytes_floats-floats_bytes [] h = refl
    bytes_floats-floats_bytes (w ∷ ws) h =
        ap₂ ◌∷◌ (bytes_float-float_bytes w h.0) (bytes_floats-floats_bytes ws h.1)

  pub length-floats_bytes :
      (ws vs : List W) → length ws ≡ length vs → length (floats_bytes ws) ≡ length (floats_bytes vs)
  unfolding floats_bytes float_bytes u32_bytes
  length-floats_bytes [] [] h = refl
  length-floats_bytes [] (v ∷ vs) h = absurd (omega (arith, h))
  length-floats_bytes (w ∷ ws) [] h = absurd (omega (arith, h))
  length-floats_bytes (w ∷ ws) (v ∷ vs) h =
      omega (arith, length-floats_bytes ws vs (omega (arith, h)))
