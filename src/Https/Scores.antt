-- ===== src/Https/Scores.antt =====
-- `rate100`, `floors` and `IsDigitalStr` of https/ApiServer.cpp: the score of an order in its text.
pub mod Cents
use libwebsocket_component.Prelude.{
  is_empty, ℕ, suc, ◌+◌, ◌-◌, Bool, true, false, ◌&&◌, not, List, [], ◌∷◌, ◌++◌, Option, none, some,
  ltb, leb, ◌==◌, if◌then◌else◌, length, take, drop, Outcome, done, assert, ◌>>=◌, ◌>>◌,
}
use libwebsocket_component.Https.Query.{Text, find_first_of}
use libwebsocket_component.Https.Numbers.{ℤ, pos, times100, is_digit, atol}

-- The first two digits behind the point, or one and a zero.
unfoldable pub two_digits : Text → Text
two_digits suffix = if leb 2 (length suffix) then take 2 suffix else take 1 suffix ++ (b'0' ∷ [])

-- With a point the number has at most 9 + 2 digits, with none at most 9.
unfoldable pub rate100 : Text → Outcome ℤ
rate100 s = elim (find_first_of b'.' s) [
  | none ↦ done (if leb (length s) 9 then times100 (atol s) else pos 0)
  | some n ↦
      assert (not (is_empty (drop (n + 1) s)))
      >> done (
          if leb (length (take n s ++ two_digits (drop (n + 1) s))) 11
          then atol (take n s ++ two_digits (drop (n + 1) s))
          else pos 0)
]

-- The text that `floors` gives to `atof`.
unfoldable pub floors_text : Text → Text
floors_text s = elim (find_first_of b'.' s) [
  | none ↦ s
  | some n ↦ take n s ++ (b'.' ∷ take 2 (drop (n + 1) s))
]

abbrev pub all_digits : Text → Bool
all_digits [] = true
all_digits (c ∷ cs) = is_digit c && all_digits cs

abbrev pub some_digits : Text → Bool
some_digits s = not (is_empty s) && all_digits s

-- `^[0-9]+([.]{1}[0-9]+){0,1}$`.
unfoldable pub is_digital_str : Text → Bool
is_digital_str s = elim (find_first_of b'.' s) [
  | none ↦ some_digits s
  | some n ↦ some_digits (take n s) && some_digits (drop (n + 1) s)
]
