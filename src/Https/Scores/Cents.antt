-- ===== src/Https/Scores/Cents.antt =====
-- `rate100` on decimal numbers.
use libwebsocket_component.Prelude.{
  is_empty, ℕ, zero, suc, ◌+◌, ◌-◌, ◌*◌, ◌≤◌, ◌<◌, ◌≡◌, refl, ap, ◌∙◌, inl, inr, Bool-cases, arith,
  true, false, [], ◌∷◌, ◌++◌, leb, ◌==◌, if◌then◌else◌, length, take, drop, length-append,
  take-length-append, done, All, none, some,
}
use libwebsocket_component.Https.Query.{Text, find_first_of}
use libwebsocket_component.Https.Query.RoundTrip.{
  Lacks, find_first_of-none, find_first_of-some, drop_suc,
}
use libwebsocket_component.Https.Numbers.{
  ℤ, pos, times100, is_digit, is_space, read_digits, max_long, read_signed, atol,
}
use libwebsocket_component.Https.Scores.{two_digits, rate100}

abbrev pub IsDigits : Text → Type 0
IsDigits s = All (λ c. is_digit c ≡ true) s

-- The number that digits stand for, the first one being the highest.
abbrev pub number_from : ℕ → Text → ℕ
number_from n [] = n
number_from n (c ∷ cs) = number_from (n * 10 + (c - b'0')) cs

-- A number with its places behind the point.
abbrev pub decimal : Text → Text → Text
decimal ds [] = ds
decimal ds (f ∷ fs) = ds ++ (b'.' ∷ f ∷ fs)

abbrev pub hundredths : Text → ℕ
hundredths [] = 0
hundredths (f ∷ []) = (f - b'0') * 10
hundredths (f ∷ g ∷ fs) = (f - b'0') * 10 + (g - b'0')

abbrev pow10 : ℕ → ℕ
pow10 zero = 1
pow10 (suc n) = 10 * pow10 n

read_digits-number : (n : ℕ) (s : Text) → IsDigits s → read_digits n s ≡ number_from n s
unfolding read_digits
read_digits-number n [] h = refl
read_digits-number n (c ∷ s) (h, hs) =
    rw (h, read_digits) (read_digits-number (n * 10 + (c - b'0')) s hs)

digit_small : (c : ℕ) → is_digit c ≡ true → c - b'0' < 10
digit_small c h = ground arith

scale : (n d p q : ℕ) → d < 10 → q < (n * 10 + d + 1) * p → q < (n + 1) * (10 * p)
scale n d p q h k = grind arith

number_from-lt : (n : ℕ) (s : Text) → IsDigits s → number_from n s < (n + 1) * pow10 (length s)
number_from-lt n [] h = omega arith
number_from-lt n (c ∷ s) (h, hs) =
    scale n (c - b'0') (pow10 (length s)) (number_from (n * 10 + (c - b'0')) s) (digit_small c h)
      (number_from-lt (n * 10 + (c - b'0')) s hs)

pow10_mono : (n k : ℕ) → pow10 n ≤ pow10 (k + n)
pow10_mono n zero = grind arith
pow10_mono n (suc k) = grind (arith, pow10_mono n k)

number_from-append : (n : ℕ) (s r : Text) → number_from n (s ++ r) ≡ number_from (number_from n s) r
number_from-append n [] r = refl
number_from-append n (c ∷ s) r = number_from-append (n * 10 + (c - b'0')) s r

IsDigits-append : (s r : Text) → IsDigits s → IsDigits r → IsDigits (s ++ r)
IsDigits-append [] r h k = k
IsDigits-append (c ∷ s) r (h, hs) k = (h, IsDigits-append s r hs k)

number_from-small : (s : Text) → IsDigits s → length s ≤ 11 → number_from 0 s ≤ max_long
number_from-small s h n =
    let below = number_from-lt 0 s h in
    let up = pow10_mono (length s) (11 - length s) in
    let whole : 11 - length s + length s ≡ 11 = omega arith in
    let up' : pow10 (length s) ≤ pow10 11 = rw whole at up in omega (arith, below, up')

atol-digits :
    (c : ℕ) (s : Text)
    → IsDigits (c ∷ s)
    → length (c ∷ s) ≤ 11
    → atol (c ∷ s) ≡ pos (number_from 0 (c ∷ s))
unfolding atol read_signed
atol-digits c s h n =
    let no_space : is_space c ≡ false = ground (arith, h.0) in
    let no_minus : (c == b'-') ≡ false = ground (arith, h.0) in
    let no_plus : (c == b'+') ≡ false = ground (arith, h.0) in
    let small : leb (number_from 0 (c ∷ s)) max_long ≡ true =
      (let k = number_from-small (c ∷ s) h n in ground arith) in
    rw (no_space, no_minus, no_plus, read_digits-number 0 (c ∷ s) h, small, atol) refl

IsDigits-Lacks : (s : Text) → IsDigits s → Lacks b'.' s
IsDigits-Lacks [] h = tt
IsDigits-Lacks (c ∷ s) (h, hs) = (ground arith, IsDigits-Lacks s hs)

two_digits_lem :
    (f : ℕ) (fs : Text)
    → IsDigits (f ∷ fs)
    → (length (two_digits (f ∷ fs)) ≡ 2)
      × IsDigits (two_digits (f ∷ fs))
      × ((n : ℕ) → number_from n (two_digits (f ∷ fs)) ≡ n * 100 + hundredths (f ∷ fs))
unfolding two_digits
two_digits_lem f [] (h, hs) = (refl, (h, (refl, tt)), λ n. omega arith)
two_digits_lem f (g ∷ []) (h, hs) = (refl, (h, (hs.0, tt)), λ n. omega arith)
two_digits_lem f (g ∷ e ∷ fs) (h, hs) =
    let long : leb 2 (suc (suc (suc (length fs)))) ≡ true = ground arith in
    rw long (refl, (h, (hs.0, tt)), λ n. omega arith)

-- The two branches, in terms of the parts of the text.
pub rate100-none :
    (s : Text)
    → find_first_of b'.' s ≡ none
    → rate100 s ≡ done (if leb (length s) 9 then times100 (atol s) else pos 0)
unfolding rate100
rate100-none s e = rw (e, rate100) refl

pub rate100-some :
    (s a b : Text) (n : ℕ)
    → find_first_of b'.' s ≡ some n
    → take n s ≡ a
    → drop (n + 1) s ≡ b
    → is_empty b ≡ false
    → rate100 s
      ≡ done (if leb (length (a ++ two_digits b)) 11 then atol (a ++ two_digits b) else pos 0)
unfolding rate100
rate100-some s a b n e ea eb h = rw (e, ea, eb, h, rate100) refl

rate100-whole :
    (c : ℕ) (s : Text)
    → IsDigits (c ∷ s)
    → rate100 (c ∷ s)
      ≡ done (pos (if leb (length (c ∷ s)) 9 then number_from 0 (c ∷ s) * 100 else 0))
rate100-whole c s h =
    rate100-none (c ∷ s) (find_first_of-none b'.' (c ∷ s) (IsDigits-Lacks (c ∷ s) h))
    ∙ elim (Bool-cases (leb (length (c ∷ s)) 9)) [
      | inl b ↦ rw (b, atol-digits c s h (ground arith)) refl
      | inr b ↦ rw b refl
    ]

rate100-point :
    (c : ℕ) (s : Text) (f : ℕ) (fs : Text)
    → IsDigits (c ∷ s)
    → IsDigits (f ∷ fs)
    → rate100 ((c ∷ s) ++ (b'.' ∷ f ∷ fs))
      ≡ done (
          pos (
            if leb (length (c ∷ s)) 9
            then number_from 0 (c ∷ s) * 100 + hundredths (f ∷ fs)
            else 0))
rate100-point c s f fs h k =
    let (l, d, v) = two_digits_lem f fs k in
    let joined = length-append (c ∷ s) (two_digits (f ∷ fs)) in
    rate100-some ((c ∷ s) ++ (b'.' ∷ f ∷ fs)) (c ∷ s) (f ∷ fs) (length (c ∷ s))
      (find_first_of-some b'.' (c ∷ s) (f ∷ fs) (IsDigits-Lacks (c ∷ s) h))
      (take-length-append (c ∷ s) (b'.' ∷ f ∷ fs)) (drop_suc (c ∷ s) (f ∷ fs) b'.') refl
    ∙ elim (Bool-cases (leb (length (c ∷ s)) 9)) [
      | inl b ↦
          (let fits : leb (length ((c ∷ s) ++ two_digits (f ∷ fs))) 11 ≡ true = ground arith in
            let read =
              atol-digits c (s ++ two_digits (f ∷ fs))
                (IsDigits-append (c ∷ s) (two_digits (f ∷ fs)) h d) (ground arith) in
            let value =
              number_from-append 0 (c ∷ s) (two_digits (f ∷ fs)) ∙ v (number_from 0 (c ∷ s)) in
            rw (fits, b) (ap (λ (z : ℤ). done z) (read ∙ ap (λ n. pos n) value)))
      | inr b ↦
          (let long : leb (length ((c ∷ s) ++ two_digits (f ∷ fs))) 11 ≡ false = ground arith in
            rw (long, b) refl)
    ]

-- For a number of digits, with places behind a point or without: at most 9 digits in front of the
-- point give the number times a hundred with what is behind two places cut off, more give 0. No
-- assertion fails.
pub rate100-decimal :
    (c : ℕ) (s fs : Text)
    → IsDigits (c ∷ s)
    → IsDigits fs
    → rate100 (decimal (c ∷ s) fs)
      ≡ done
          (pos (if leb (length (c ∷ s)) 9 then number_from 0 (c ∷ s) * 100 + hundredths fs else 0))
rate100-decimal c s [] h k =
    rate100-whole c s h
    ∙ ap (λ n. done (pos (if leb (length (c ∷ s)) 9 then n else 0))) (omega arith)
rate100-decimal c s (f ∷ fs) h k = rate100-point c s f fs h k
