-- ===== src/Base64/RoundTrip.antt =====
-- `Decode` after `Encode` gives the octets back.
use libwebsocket_component.Prelude.{ℕ, ◌<◌, ◌≡◌, refl, ap, ◌∙◌, arith, true, List, [], ◌∷◌, All}
use libwebsocket_component.Prelude.Octets.{IsOctet}
use libwebsocket_component.Base64.{
  base64_char, find_char, goes_on, group0, group1, group2, group3, octet0, octet1, octet2, encode,
  decode_loop, decode,
}
use libwebsocket_component.Base64.Alphabet.{
  find_char-base64_char, goes_on-base64_char, mask_fc, mask_03, mask_f0, mask_0f, mask_c0, mask_3f,
  mask_30, mask_3c,
}

groups_lt :
    (a b : ℕ)
    → IsOctet a
    → IsOctet b
    → (group0 a < 64) × (group1 a b < 64) × (group2 a b < 64) × (group3 a < 64)
groups_lt a b ha hb =
    omega
      (arith, mask_fc a ha, mask_03 a ha, mask_f0 b hb, mask_0f a ha, mask_c0 b hb, mask_3f a ha)

-- The masks of both directions undo one another.
octet0-group : (a b : ℕ) → IsOctet a → IsOctet b → octet0 (group0 a) (group1 a b) ≡ a
octet0-group a b ha hb = omega (
  arith,
  mask_fc a ha,
  mask_03 a ha,
  mask_f0 b hb,
  mask_30 (group1 a b) (omega (arith, groups_lt a b ha hb)),
)

octet1-group :
    (a b c : ℕ) → IsOctet a → IsOctet b → IsOctet c → octet1 (group1 a b) (group2 b c) ≡ b
octet1-group a b c ha hb hc = omega (
  arith,
  mask_03 a ha,
  mask_f0 b hb,
  mask_0f b hb,
  mask_c0 c hc,
  mask_0f (group1 a b) (omega (arith, groups_lt a b ha hb)),
  mask_3c (group2 b c) (omega (arith, groups_lt b c hb hc)),
)

octet2-group : (b c : ℕ) → IsOctet b → IsOctet c → octet2 (group2 b c) (group3 c) ≡ c
octet2-group b c hb hc = omega (
  arith,
  mask_0f b hb,
  mask_c0 c hc,
  mask_3f c hc,
  mask_03 (group2 b c) (omega (arith, groups_lt b c hb hc)),
)

-- A full group of characters that go on.
four :
    (p q r s : ℕ) (cs : List ℕ)
    → goes_on p ≡ true
    → goes_on q ≡ true
    → goes_on r ≡ true
    → goes_on s ≡ true
    → decode_loop [] (p ∷ q ∷ r ∷ s ∷ cs)
      ≡ octet0 (find_char p) (find_char q)
        ∷ octet1 (find_char q) (find_char r)
        ∷ octet2 (find_char r) (find_char s)
        ∷ decode_loop [] cs
unfolding decode_loop
four p q r s cs hp hq hr hs = rw (hp, hq, hr, hs) refl

-- The last group, before its `=`.
three :
    (p q r : ℕ) (cs : List ℕ)
    → goes_on p ≡ true
    → goes_on q ≡ true
    → goes_on r ≡ true
    → decode_loop [] (p ∷ q ∷ r ∷ b'=' ∷ cs)
      ≡ octet0 (find_char p) (find_char q) ∷ octet1 (find_char q) (find_char r) ∷ []
unfolding decode_loop
three p q r cs hp hq hr = rw (hp, hq, hr) refl

two :
    (p q : ℕ) (cs : List ℕ)
    → goes_on p ≡ true
    → goes_on q ≡ true
    → decode_loop [] (p ∷ q ∷ b'=' ∷ cs) ≡ octet0 (find_char p) (find_char q) ∷ []
unfolding decode_loop
two p q cs hp hq = rw (hp, hq) refl

-- Indices below 64 in place of their characters.
indices :
    (p q r s : ℕ) (rest : List ℕ)
    → p < 64
    → q < 64
    → r < 64
    → s < 64
    → decode_loop [] (base64_char p ∷ base64_char q ∷ base64_char r ∷ base64_char s ∷ rest)
      ≡ octet0 p q ∷ octet1 q r ∷ octet2 r s ∷ decode_loop [] rest
indices p q r s rest hp hq hr hs =
    four (base64_char p) (base64_char q) (base64_char r) (base64_char s) rest
      (goes_on-base64_char p hp) (goes_on-base64_char q hq) (goes_on-base64_char r hr)
      (goes_on-base64_char s hs)
    ∙ (λ i.
        octet0 (find_char-base64_char p hp i) (find_char-base64_char q hq i)
        ∷ octet1 (find_char-base64_char q hq i) (find_char-base64_char r hr i)
        ∷ octet2 (find_char-base64_char r hr i) (find_char-base64_char s hs i)
        ∷ decode_loop [] rest)

decode_loop-encode : (bs : List ℕ) → All IsOctet bs → decode_loop [] (encode bs) ≡ bs
unfolding encode
decode_loop-encode [] h = unfold decode_loop in refl
decode_loop-encode (a ∷ []) (ha, h) =
    let (p, q, _, _) = groups_lt a 0 ha (omega arith) in
    two (base64_char (group0 a)) (base64_char (group1 a 0)) (b'=' ∷ []) (goes_on-base64_char _ p)
      (goes_on-base64_char _ q)
    ∙ (λ i. octet0 (find_char-base64_char _ p i) (find_char-base64_char _ q i) ∷ [])
    ∙ ap (λ (x : ℕ). x ∷ []) (octet0-group a 0 ha (omega arith))
decode_loop-encode (a ∷ b ∷ []) (ha, (hb, h)) =
    let (p, q, _, _) = groups_lt a b ha hb in
    let r : group2 b 0 < 64 = (groups_lt b 0 hb (omega arith)).2 in
    three (base64_char (group0 a)) (base64_char (group1 a b)) (base64_char (group2 b 0)) []
      (goes_on-base64_char _ p) (goes_on-base64_char _ q) (goes_on-base64_char _ r)
    ∙ (λ i.
        octet0 (find_char-base64_char _ p i) (find_char-base64_char _ q i)
        ∷ octet1 (find_char-base64_char _ q i) (find_char-base64_char _ r i)
        ∷ [])
    ∙ (λ i. octet0-group a b ha hb i ∷ octet1-group a b 0 ha hb (omega arith) i ∷ [])
decode_loop-encode (a ∷ b ∷ c ∷ rest) (ha, (hb, (hc, h))) =
    let (p, q, _, _) = groups_lt a b ha hb in
    let r : group2 b c < 64 = (groups_lt b c hb hc).2 in
    let s : group3 c < 64 = (groups_lt c c hc hc).3 in
    indices _ _ _ _ (encode rest) p q r s ∙ (λ i.
      octet0-group a b ha hb i
      ∷ octet1-group a b c ha hb hc i
      ∷ octet2-group b c hb hc i
      ∷ decode_loop-encode rest h i)

-- Any octets come back from their encoding in Base64.
pub decode-encode : (bs : List ℕ) → All IsOctet bs → decode (encode bs) ≡ bs
unfolding decode
decode-encode bs h = decode_loop-encode bs h
