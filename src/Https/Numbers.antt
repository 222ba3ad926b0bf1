-- ===== src/Https/Numbers.antt =====
-- Numbers in a text, as `atol` and `atoll` read them. A `long` has 64 bits.
use libwebsocket_component.Prelude.{
  ℕ, zero, suc, ◌+◌, ◌-◌, ◌*◌, ◌%◌, ◌^◌, Bool, true, false, ◌&&◌, ◌||◌, [], ◌∷◌, ltb, leb, ◌==◌,
  if◌then◌else◌,
}
use libwebsocket_component.Https.Query.{Text}

-- `negsuc n` is -(n + 1).
pub data ℤ : Type 0 where
  pos : ℕ → ℤ
  negsuc : ℕ → ℤ

abbrev pub minus : ℕ → ℤ
minus zero = pos 0
minus (suc n) = negsuc n

abbrev pub is_below_zero : ℤ → Bool
is_below_zero (pos n) = false
is_below_zero (negsuc n) = true

abbrev pub is_at_most_zero : ℤ → Bool
is_at_most_zero (pos n) = n == 0
is_at_most_zero (negsuc n) = true

abbrev pub equals : ℤ → ℕ → Bool
equals (pos n) m = n == m
equals (negsuc n) m = false

abbrev pub times100 : ℤ → ℤ
times100 (pos n) = pos (n * 100)
times100 (negsuc n) = minus (suc n * 100)

abbrev pub is_digit : ℕ → Bool
is_digit c = leb b'0' c && leb c b'9'

-- `isspace`.
abbrev pub is_space : ℕ → Bool
is_space c = c == 32 || (leb 9 c && leb c 13)

-- The number of the digits at the front, after one that has been read.
unfoldable pub read_digits : ℕ → Text → ℕ
read_digits n [] = n
read_digits n (c ∷ cs) = elim (is_digit c) [
  | true ↦ read_digits (n * 10 + (c - b'0')) cs
  | false ↦ n
]

-- A number that is too large is the largest one.
abbrev pub max_long : ℕ
max_long = 2 ^ 63 - 1

abbrev pub saturated : ℕ → ℕ → ℕ
saturated bound n = if leb n bound then n else bound

unfoldable pub read_signed : Text → ℤ
read_signed [] = pos 0
read_signed (c ∷ cs) =
    if c == b'-'
    then minus (saturated (max_long + 1) (read_digits 0 cs))
    else if c == b'+'
    then pos (saturated max_long (read_digits 0 cs))
    else pos (saturated max_long (read_digits 0 (c ∷ cs)))

unfoldable pub atol : Text → ℤ
atol [] = pos 0
atol (c ∷ cs) = elim (is_space c) [ true ↦ atol cs | false ↦ read_signed (c ∷ cs) ]

-- A `long` where an `int` is wanted: the low 32 bits, with a sign.
abbrev pub signed32 : ℕ → ℤ
signed32 x = if ltb x (2 ^ 31) then pos x else minus (2 ^ 32 - x)

abbrev pub to_int : ℤ → ℤ
to_int (pos n) = signed32 (n % 2 ^ 32)
to_int (negsuc n) = signed32 (2 ^ 32 - 1 - n % 2 ^ 32)
