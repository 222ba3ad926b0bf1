-- ===== src/Base64.antt =====
-- libwebsocket/private/base64.cc: `Encode` and `Decode`. An `unsigned char` is a number below 256.
pub mod Alphabet
pub mod RoundTrip
use Prim.Native.Nat.{bit_and}
use libwebsocket_component.Prelude.{
  ℕ, zero, suc, ◌+◌, ◌-◌, ◌*◌, ◌/◌, ◌%◌, Bool, true, false, ◌&&◌, ◌||◌, not, List, [], ◌∷◌, ◌++◌,
  Option, none, some, leb, ◌==◌, if◌then◌else◌, get_or, take,
}

-- `base64_chars`, as the ranges that it lists.
abbrev pub base64_char : ℕ → ℕ
base64_char k =
    if leb k 25
    then b'A' + k
    else if leb k 51
    then b'a' + (k - 26)
    else if leb k 61
    then b'0' + (k - 52)
    else if k == 62
    then b'+'
    else b'/'

-- `isalnum(c) || c == '+' || c == '/'`
abbrev pub is_base64 : ℕ → Bool
is_base64 c =
    leb b'0' c && leb c b'9'
    || leb b'A' c && leb c b'Z'
    || leb b'a' c && leb c b'z'
    || c == b'+'
    || c == b'/'

-- `base64_chars.find(c)` as it is stored in an `unsigned char`; `npos` becomes 255.
abbrev pub find_char : ℕ → ℕ
find_char c =
    if leb b'A' c && leb c b'Z'
    then c - b'A'
    else if leb b'a' c && leb c b'z'
    then c - b'a' + 26
    else if leb b'0' c && leb c b'9'
    then c - b'0' + 52
    else if c == b'+'
    then 62
    else if c == b'/'
    then 63
    else 255

-- `char_array_4` from `char_array_3`.
abbrev pub group0 : ℕ → ℕ
group0 a = bit_and a 0xfc / 4

abbrev pub group1 : ℕ → ℕ → ℕ
group1 a b = bit_and a 0x03 * 16 + bit_and b 0xf0 / 16

abbrev pub group2 : ℕ → ℕ → ℕ
group2 b c = bit_and b 0x0f * 4 + bit_and c 0xc0 / 64

abbrev pub group3 : ℕ → ℕ
group3 c = bit_and c 0x3f

-- Three octets a round; what is left is filled up with zeros, and `=` stands for what is missing.
unfoldable pub encode : List ℕ → List ℕ
encode [] = []
encode (a ∷ []) = base64_char (group0 a) ∷ base64_char (group1 a 0) ∷ b'=' ∷ b'=' ∷ []
encode (a ∷ b ∷ []) =
    base64_char (group0 a) ∷ base64_char (group1 a b) ∷ base64_char (group2 b 0) ∷ b'=' ∷ []
encode (a ∷ b ∷ c ∷ rest) =
    base64_char (group0 a)
    ∷ base64_char (group1 a b)
    ∷ base64_char (group2 b c)
    ∷ base64_char (group3 c)
    ∷ encode rest

-- `char_array_3` from the four indices.
abbrev pub octet0 : ℕ → ℕ → ℕ
octet0 p q = (p * 4 + bit_and q 0x30 / 16) % 256

abbrev pub octet1 : ℕ → ℕ → ℕ
octet1 q r = (bit_and q 0x0f * 16 + bit_and r 0x3c / 4) % 256

abbrev pub octet2 : ℕ → ℕ → ℕ
octet2 r s = (bit_and r 0x03 * 64 + s) % 256

-- The test of the `while` on one character.
abbrev pub goes_on : ℕ → Bool
goes_on c = not (c == b'=') && is_base64 c

-- The last group of `Decode`, of which `i` characters are there and the others are zero characters:
-- `i - 1` octets.
abbrev decode_last : List ℕ → List ℕ
decode_last [] = []
decode_last (p ∷ []) = []
decode_last (p ∷ q ∷ []) = octet0 (find_char p) (find_char q) ∷ []
decode_last (p ∷ q ∷ r ∷ more) =
    octet0 (find_char p) (find_char q) ∷ octet1 (find_char q) (find_char r) ∷ []

-- `i == 4` after the next character.
abbrev is_three : List ℕ → Bool
is_three (p ∷ q ∷ r ∷ []) = true
is_three _ = false

-- The loop, with the characters of the group that is begun.
unfoldable pub decode_loop : List ℕ → List ℕ → List ℕ
decode_loop group [] = decode_last group
decode_loop group (c ∷ cs) =
    let full =
      octet0 (find_char (get_or group 0 0)) (find_char (get_or group 1 0))
      ∷ octet1 (find_char (get_or group 1 0)) (find_char (get_or group 2 0))
      ∷ octet2 (find_char (get_or group 2 0)) (find_char c)
      ∷ decode_loop [] cs in
    let begun = decode_loop (group ++ (c ∷ [])) cs in
    if goes_on c then (if is_three group then full else begun) else decode_last group

unfoldable pub decode : List ℕ → List ℕ
unfolding decode_loop
decode cs = decode_loop [] cs
