-- ===== src/Base/Text.antt =====
-- Numbers as the streams and `std::to_string` print them.
use Prim.Native.String.{String, ◌++◌ as string_append}
use cong_shed.Base.{ℕ, zero, suc, ◌/◌, ◌%◌, [], ◌∷◌, get_or, ltb, if◌then◌else◌}
use cong_shed.Base.Int.{ℤ, pos, negsuc}

abbrev digit : ℕ → String
digit n = get_or ("0" ∷ "1" ∷ "2" ∷ "3" ∷ "4" ∷ "5" ∷ "6" ∷ "7" ∷ "8" ∷ "9" ∷ []) n ""

-- The last digits, as many as the fuel, of which `n` itself is more than enough.
unfoldable pub show_digits : ℕ → ℕ → String
show_digits zero n = ""
show_digits (suc fuel) n =
    let rest = show_digits fuel (n / 10) in
    if ltb n 10 then digit n else string_append rest (digit (n % 10))

unfoldable pub show_int : ℤ → String
unfolding show_digits
show_int (pos n) = show_digits (suc n) n
show_int (negsuc n) = string_append "-" (show_digits (suc (suc n)) (suc n))
