-- ===== src/Https/Urls/RoundTrip.antt =====
-- What the decoders make of what the encoders write.
use libwebsocket_component.Prelude.{
  ℕ, zero, suc, ◌/◌, ◌%◌, ◌≤◌, ◌<◌, ◌≡◌, refl, ap, ◌⊎◌, inl, inr, arith, false, [], ◌∷◌, ◌==◌, ◌++◌,
  true, Outcome, aborted, length, done, All, Bool-cases,
}
use libwebsocket_component.Prelude.Octets.{IsOctet}
use libwebsocket_component.Https.Query.{Text}
use libwebsocket_component.Https.Numbers.{is_space}
use libwebsocket_component.Https.Urls.{
  is_alnum, is_plain, hex_digit, unless_plus, url_decode, multiple_encode, char_to_int, str_to_bin,
  escape, decode_round, pass_loop, decode_pass, multiple_loop, multiple_decode,
}

-- A character that Encode writes without a percent sign.
abbrev pub IsUncoded : ℕ → Type 0
IsUncoded c = (is_plain c ≡ true) ⊎ (c ≡ b' ')

-- What the loop makes of the characters that are left.
abbrev Encodes : Text → Text → Outcome Text → Type 0
Encodes e s m =
    ((t : Text) × (m ≡ done (e ++ t)) × (url_decode t ≡ s) × All IsUncoded s)
    ⊎ ((m ≡ aborted) × ((xs : Text) × (c : ℕ) × (ys : Text) × (s ≡ xs ++ (c ∷ ys)) × ¬ IsUncoded c))

-- An octet that both codings keep apart: no `%`, and no white space but the blank.
abbrev pub IsEasy : ℕ → Type 0
IsEasy c = IsOctet c × ((c == b'%') ≡ false) × ((is_space c ≡ false) ⊎ (c ≡ b' '))

digit_back : (x : ℕ) → x < 16 → char_to_int (hex_digit x) ≡ x
digit_back x h = ground arith

str_to_bin-percent : (c : ℕ) → c < 256 → str_to_bin (hex_digit (c / 16)) (hex_digit (c % 16)) ≡ c
unfolding str_to_bin
str_to_bin-percent c h =
    rw (digit_back (c / 16) (omega arith), digit_back (c % 16) (omega arith)) (ground arith)

decode_round-percent :
    (c : ℕ) (rest : Text)
    → c < 256
    → (c == b'%') ≡ false
    → decode_round b'%' (hex_digit (c / 16) ∷ hex_digit (c % 16) ∷ rest) ≡ done (false, c, rest)
unfolding decode_round escape
decode_round-percent c rest h n = rw (str_to_bin-percent c h, n) refl

decode_round-one :
    (c : ℕ) (rest : Text)
    → (c == b'%') ≡ false
    → decode_round c rest ≡ done (false, unless_plus c, rest)
unfolding decode_round
decode_round-one c rest h = rw h refl

pass_loop-multiple_encode :
    (s : Text) (fuel : ℕ)
    → length s ≤ fuel
    → All IsEasy s
    → pass_loop fuel (multiple_encode s) ≡ done (false, s)
unfolding multiple_encode pass_loop
pass_loop-multiple_encode [] fuel n h = refl
pass_loop-multiple_encode (c ∷ cs) zero n h = absurd (omega arith)
pass_loop-multiple_encode (c ∷ cs) (suc fuel) n ((o, p, b), hs) =
    let rest : pass_loop fuel (multiple_encode cs) ≡ done (false, cs) =
      pass_loop-multiple_encode cs fuel (omega arith) hs in
    elim (Bool-cases (is_alnum c)) [
      | inl e ↦
          rw (e, decode_round-one c (multiple_encode cs) p, rest)
            (ap (λ x. done (false, x ∷ cs)) (ground arith))
      | inr e ↦ elim (Bool-cases (is_space c)) [
        | inl s ↦
            rw (e, s, decode_round-one b'+' (multiple_encode cs) refl, rest)
              (ap (λ x. done (false, x ∷ cs)) (ground arith))
        | inr s ↦ rw (e, s, decode_round-percent c (multiple_encode cs) o p, rest) refl
      ]
    ]

length-multiple_encode : (s : Text) → length s ≤ length (multiple_encode s)
unfolding multiple_encode
length-multiple_encode [] = omega arith
length-multiple_encode (c ∷ cs) = ground (arith, length-multiple_encode cs)

-- Octets without `%`, whose only white space is the blank, are the same after MultipleEncode and
-- MultipleDecode.
pub multiple_decode-multiple_encode :
    (s : Text) → All IsEasy s → multiple_decode (multiple_encode s) ≡ done s
unfolding multiple_decode multiple_loop decode_pass
multiple_decode-multiple_encode s h =
    rw (pass_loop-multiple_encode s (length (multiple_encode s)) (length-multiple_encode s) h) refl
