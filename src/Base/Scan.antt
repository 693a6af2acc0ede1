-- ===== src/Base/Scan.antt =====
-- What `std::sscanf` and `std::string::find` do on a line, which is the list of its characters' codes.
use cong_shed.Base.{
  ℕ, ◌+◌, ◌-◌, ◌*◌, ◌%◌, ◌^◌, ◌&&◌, ◌||◌, Option, none, some, List, [], ◌∷◌, leb, ◌==◌,
  if◌then◌else◌, min,
}

-- What follows the prefix.
unfoldable pub strip_prefix : List ℕ → List ℕ → Option (List ℕ)
strip_prefix [] s = some s
strip_prefix (p ∷ ps) [] = none
strip_prefix (p ∷ ps) (c ∷ cs) = let rest = strip_prefix ps cs in if p == c then rest else none

-- The line from the first place where the prefix stands.
unfoldable pub find_from : List ℕ → List ℕ → Option (List ℕ)
unfolding strip_prefix
find_from p [] = elim (strip_prefix p []) [ none ↦ none | some r ↦ some [] ]
find_from p (c ∷ cs) =
    let rest = find_from p cs in
    elim (strip_prefix p (c ∷ cs)) [ none ↦ rest | some r ↦ some (c ∷ cs) ]

unfoldable pub hex_digit : ℕ → Option ℕ
hex_digit c =
    if leb 48 c && leb c 57
    then some (c - 48)
    else if leb 97 c && leb c 102
    then some (c - 87)
    else if leb 65 c && leb c 70
    then some (c - 55)
    else none

-- The value of the digits that come next, after those read so far; `ULLONG_MAX` is the largest.
unfoldable pub hex_digits : ℕ → List ℕ → ℕ
unfolding hex_digit
hex_digits acc [] = acc
hex_digits acc (c ∷ cs) = elim (hex_digit c) [
  | none ↦ acc
  | some v ↦ hex_digits (min (acc * 16 + v) (2 ^ 64 - 1)) cs
]

-- A number starts with a digit.
unfoldable pub hex_number : List ℕ → Option ℕ
unfolding hex_digits
hex_number [] = none
hex_number (c ∷ cs) = elim (hex_digit c) [ none ↦ none | some v ↦ some (hex_digits v cs) ]

abbrev pub or_number : Option ℕ → Option ℕ → Option ℕ
or_number none o = o
or_number (some n) o = some n

-- A number, with "0x" or "0X" before it or without.
unfoldable pub prefixed_number : List ℕ → Option ℕ
unfolding hex_number
prefixed_number (z ∷ x ∷ cs) =
    let plain = hex_number (z ∷ x ∷ cs) in
    if (z == 48) && ((x == 120) || (x == 88)) then or_number (hex_number cs) plain else plain
prefixed_number cs = hex_number cs

-- A number after its sign; one after a minus wraps around.
unfoldable pub signed_number : List ℕ → Option ℕ
unfolding prefixed_number
signed_number [] = none
signed_number (c ∷ cs) =
    if c == 43
    then prefixed_number cs
    else if c == 45
    then elim (prefixed_number cs) [ none ↦ none | some n ↦ some ((2 ^ 64 - n) % 2 ^ 64) ]
    else prefixed_number (c ∷ cs)

-- `%llx`: blanks, then the number.
unfoldable pub scan_hex : List ℕ → Option ℕ
unfolding signed_number
scan_hex [] = none
scan_hex (c ∷ cs) =
    let rest = scan_hex cs in
    if (c == 32) || (leb 9 c && leb c 13) then rest else signed_number (c ∷ cs)

-- A literal prefix, and then `%llx`.
unfoldable pub scan_after : List ℕ → List ℕ → Option ℕ
unfolding strip_prefix scan_hex
scan_after p s = elim (strip_prefix p s) [ none ↦ none | some r ↦ scan_hex r ]
