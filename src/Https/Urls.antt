-- ===== src/Https/Urls.antt =====
-- https/urlcodec.cpp: `Encode` and `Decode` (`Encode_1` and `Decode_1`), `MultipleEncode` and
-- `MultipleDecode` (`Encode_2`, and `Decode_2` with its passes `Decode_`).
pub mod RoundTrip
pub mod Passes
use libwebsocket_component.Prelude.{
  ℕ, zero, suc, ◌+◌, ◌-◌, ◌*◌, ◌/◌, ◌%◌, Bool, true, false, ◌&&◌, ◌||◌, List, [], ◌∷◌, ◌++◌, ◌^◌,
  ltb, leb, ◌==◌, if◌then◌else◌, length, Outcome, done, aborted, unfinished, ◌>>=◌,
}
use libwebsocket_component.Https.Query.{Text}
use libwebsocket_component.Https.Numbers.{is_space}

abbrev pub in_range : ℕ → ℕ → ℕ → Bool
in_range lo hi c = leb lo c && leb c hi

-- `isalnum`, and the characters that `Encode` leaves as they are.
abbrev pub is_alnum : ℕ → Bool
is_alnum c = in_range b'0' b'9' c || in_range b'A' b'Z' c || in_range b'a' b'z' c

abbrev pub is_plain : ℕ → Bool
is_plain c = is_alnum c || c == b'-' || c == b'_' || c == b'.' || c == b'~'

-- A digit of base 16, as `%X` prints it, and what a digit stands for; any other character stands for
-- itself.
abbrev pub hex_digit : ℕ → ℕ
hex_digit x = if ltb 9 x then x + 55 else x + 48

abbrev pub inline_h_2_c : ℕ → ℕ
inline_h_2_c x =
    if in_range b'A' b'Z' x
    then x - b'A' + 10
    else if in_range b'a' b'z' x
    then x - b'a' + 10
    else if in_range b'0' b'9' x
    then x - b'0'
    else x

abbrev pub percent : ℕ → Text → Text
percent c rest = b'%' ∷ hex_digit (c / 16) ∷ hex_digit (c % 16) ∷ rest

-- `>>` on an `int` of 32 bits that is not negative. To shift by its width or more is undefined, for
-- which the model aborts.
unfoldable pub shift_right : ℕ → ℕ → Outcome ℕ
shift_right x n = if ltb n 32 then done (x / 2 ^ n) else aborted

-- `_INLINE_C_2_H((unsigned char)d.at(i) >> 4)`. The macro does not put its argument in parentheses,
-- and `+` binds more strongly than `>>`: the character is shifted by 4 + 55 or by 4 + 48.
unfoldable pub inline_c_2_h_high : ℕ → Outcome ℕ
inline_c_2_h_high c = if ltb 9 (c / 16) then shift_right c (4 + 55) else shift_right c (4 + 48)

-- `_INLINE_C_2_H((unsigned char)d.at(i) % 16)`.
abbrev pub inline_c_2_h_low : ℕ → ℕ
inline_c_2_h_low c = if ltb 9 (c % 16) then c % 16 + 55 else c % 16 + 48

-- `e` is what is written so far.
unfoldable pub url_encode_loop : Text → Text → Outcome Text
url_encode_loop e [] = done e
url_encode_loop e (c ∷ cs) = elim (is_plain c) [
  | true ↦ url_encode_loop (e ++ (c ∷ [])) cs
  | false ↦ elim (c == b' ') [
    | true ↦ url_encode_loop (e ++ (b'+' ∷ [])) cs
    | false ↦ inline_c_2_h_high c >>= λ high.
        url_encode_loop (e ++ (b'%' ∷ high % 256 ∷ inline_c_2_h_low c ∷ [])) cs
  ]
]

unfoldable pub url_encode : Text → Outcome Text
url_encode d = url_encode_loop [] d

abbrev pub unless_plus : ℕ → ℕ
unless_plus c = if c == b'+' then b' ' else c

-- A `%` with fewer than two characters behind it is left, with what is behind it.
unfoldable pub url_decode : Text → Text
url_decode [] = []
url_decode (c ∷ []) = unless_plus c ∷ []
url_decode (c ∷ a ∷ []) = elim (c == b'%') [
  | true ↦ c ∷ a ∷ []
  | false ↦ unless_plus c ∷ url_decode (a ∷ [])
]
url_decode (c ∷ a ∷ b ∷ r) = elim (c == b'%') [
  | true ↦ (inline_h_2_c a * 16 + inline_h_2_c b) % 256 ∷ url_decode r
  | false ↦ unless_plus c ∷ url_decode (a ∷ b ∷ r)
]

unfoldable pub multiple_encode : Text → Text
multiple_encode [] = []
multiple_encode (c ∷ cs) =
    let rest = multiple_encode cs in
    if is_alnum c then c ∷ rest else if is_space c then b'+' ∷ rest else percent c rest

-- A `char`, as an octet: no digit is -1.
abbrev pub char_to_int : ℕ → ℕ
char_to_int c =
    if in_range b'0' b'9' c
    then c - b'0'
    else if in_range b'a' b'f' c
    then c - b'a' + 10
    else if in_range b'A' b'F' c
    then c - b'A' + 10
    else 255

-- `(high << 4) | low` in a `char`; -1 has all bits.
unfoldable pub str_to_bin : ℕ → ℕ → ℕ
str_to_bin a b = if char_to_int b == 255 then 255 else char_to_int a * 16 % 256 + char_to_int b

-- One round of a pass: is there more to decode, the character, and what is left. The octet behind
-- the last one is 0, which is no digit; to read further is an error, for which the model aborts.
unfoldable pub escape_twice : Text → Outcome (Bool × ℕ × Text)
escape_twice [] = aborted
escape_twice (a ∷ []) = done (false, str_to_bin a 0, [])
escape_twice (a ∷ b ∷ r) = done (str_to_bin a b == b'%', str_to_bin a b, r)

unfoldable pub escape : Text → Outcome (Bool × ℕ × Text)
escape [] = aborted
escape (a ∷ []) = done (false, str_to_bin a 0, [])
escape (a ∷ b ∷ r) =
    if str_to_bin a b == b'%' then escape_twice r else done (false, str_to_bin a b, r)

unfoldable pub decode_round : ℕ → Text → Outcome (Bool × ℕ × Text)
decode_round c cs = if c == b'%' then escape cs else done (false, unless_plus c, cs)

-- `while (i < nLength)`, with fuel.
unfoldable pub pass_loop : ℕ → Text → Outcome (Bool × Text)
pass_loop fuel [] = done (false, [])
pass_loop zero (c ∷ cs) = unfinished
pass_loop (suc fuel) (c ∷ cs) = do
  (again, ch, rest) ← decode_round c cs
  (more, text) ← pass_loop fuel rest
  done (again || more, ch ∷ text)

unfoldable pub decode_pass : Text → Outcome (Bool × Text)
decode_pass s = pass_loop (length s) s

-- As long as a pass finds more to decode, with fuel.
unfoldable pub multiple_loop : ℕ → Text → Outcome Text
multiple_loop zero s = unfinished
multiple_loop (suc fuel) s = decode_pass s >>= λ (again, text). elim again [
  | true ↦ multiple_loop fuel text
  | false ↦ done text
]

unfoldable pub multiple_decode : Text → Outcome Text
multiple_decode s = multiple_loop (suc (length s)) s
