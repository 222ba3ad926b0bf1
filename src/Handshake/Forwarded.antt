-- ===== src/Handshake/Forwarded.antt =====
-- Which address `do_handshake` of libwebsocket/private/websocket.cc takes from `X-Forwarded-For`.
use libwebsocket_component.Prelude.{
  ℕ, ◌≡◌, refl, ap, ◌⊎◌, inl, inr, Bool, true, false, List, [], ◌∷◌, ◌++◌, ◌==◌, ==_iff,
  if◌then◌else◌, All, codes, arith, ◌≢◌, Bool-cases,
}
use libwebsocket_component.Handshake.Address.{
  remove_spaces, split, has_prefix, is_public, first_public, client_address, IsSplit, split-IsSplit,
}

-- The texts that the loop passes over: the empty one, and those with one of three prefixes.
abbrev pub HasPrefix : List ℕ → List ℕ → Type 0
HasPrefix p a = (r : List ℕ) × (a ≡ p ++ r)

abbrev pub IsSkipped : List ℕ → Type 0
IsSkipped a =
    (a ≡ [])
    ⊎ HasPrefix (codes "10.") a
    ⊎ HasPrefix (codes "192.168") a
    ⊎ HasPrefix (codes "172.16.") a

-- The first text that is not passed over; or all are, and the address is empty.
abbrev pub IsFirstKept : List (List ℕ) → List ℕ → Type 0
IsFirstKept ps a =
    ((xs : List (List ℕ)) × (ys : List (List ℕ)) × (ps ≡ xs ++ (a ∷ ys))
      × ¬ IsSkipped a
      × All IsSkipped xs)
    ⊎ ((a ≡ []) × All IsSkipped ps)

-- `Despaced xs ys`: `ys` is `xs` without its spaces.
pub data Despaced : List ℕ → List ℕ → Type 0 where
  at_end : Despaced [] []
  leaves_out : (xs ys : List ℕ) → Despaced xs ys → Despaced (b' ' ∷ xs) ys
  keeps : (c : ℕ) (xs ys : List ℕ) → c ≢ b' ' → Despaced xs ys → Despaced (c ∷ xs) (c ∷ ys)

remove_spaces-Despaced : (cs : List ℕ) → Despaced cs (remove_spaces cs)
unfolding remove_spaces
remove_spaces-Despaced [] = at_end
remove_spaces-Despaced (c ∷ cs) = elim (Bool-cases (c == b' ')) [
  | inl e ↦ rw (e, (==_iff c _).0 e) (leaves_out cs (remove_spaces cs) (remove_spaces-Despaced cs))
  | inr e ↦ rw e (keeps c cs (remove_spaces cs) (λ h. ground arith) (remove_spaces-Despaced cs))
]

has_prefix-HasPrefix : (p a : List ℕ) → has_prefix p a ≡ true → HasPrefix p a
has_prefix-HasPrefix [] a h = (a, refl)
has_prefix-HasPrefix (p ∷ ps) [] h = absurd (ground arith)
has_prefix-HasPrefix (p ∷ ps) (c ∷ cs) h =
    let same : p ≡ c = ground arith in
    let (r, e) = has_prefix-HasPrefix ps cs (ground arith) in (r, rw (same, e) refl)

has_prefix-append : (p r : List ℕ) → has_prefix p (p ++ r) ≡ true
has_prefix-append [] r = refl
has_prefix-append (p ∷ ps) r = ground (arith, has_prefix-append ps r)

HasPrefix-has_prefix : (p a : List ℕ) → HasPrefix p a → has_prefix p a ≡ true
HasPrefix-has_prefix p a (r, e) = rw e (has_prefix-append p r)

not_public : (a : List ℕ) → is_public a ≡ false → IsSkipped a
not_public [] h = inl refl
not_public (c ∷ cs) h = elim (Bool-cases (has_prefix (codes "10.") (c ∷ cs))) [
  | inl x ↦ inr (inl (has_prefix-HasPrefix (codes "10.") (c ∷ cs) x))
  | inr x ↦ elim (Bool-cases (has_prefix (codes "192.168") (c ∷ cs))) [
    | inl y ↦ inr (inr (inl (has_prefix-HasPrefix (codes "192.168") (c ∷ cs) y)))
    | inr y ↦ elim (Bool-cases (has_prefix (codes "172.16.") (c ∷ cs))) [
      | inl z ↦ inr (inr (inr (has_prefix-HasPrefix (codes "172.16.") (c ∷ cs) z)))
      | inr z ↦ absurd (ground arith)
    ]
  ]
]

public_kept : (a : List ℕ) → is_public a ≡ true → ¬ IsSkipped a
public_kept a h (inl e) = let k : is_public [] ≡ true = rw e at h in cc
public_kept a h (inr (inl x)) =
    let y : has_prefix (codes "10.") a ≡ true = HasPrefix-has_prefix (codes "10.") a x in
    ground arith
public_kept a h (inr (inr (inl x))) =
    let y : has_prefix (codes "192.168") a ≡ true = HasPrefix-has_prefix (codes "192.168") a x in
    ground arith
public_kept a h (inr (inr (inr x))) =
    let y : has_prefix (codes "172.16.") a ≡ true = HasPrefix-has_prefix (codes "172.16.") a x in
    ground arith

IsFirstKept-step :
    (a r : List ℕ) (ps : List (List ℕ)) (b : Bool)
    → is_public a ≡ b
    → IsFirstKept ps r
    → IsFirstKept (a ∷ ps) (if b then a else r)
IsFirstKept-step a r ps true e h = inl ([], ps, refl, public_kept a e, tt)
IsFirstKept-step a r ps false e (inl (xs, ys, hs, hr, hx)) =
    inl (a ∷ xs, ys, ap (◌∷◌ a) hs, hr, (not_public a e, hx))
IsFirstKept-step a r ps false e (inr (hr, hx)) = inr (hr, (not_public a e, hx))

first_public-IsFirstKept : (ps : List (List ℕ)) → IsFirstKept ps (first_public ps)
unfolding first_public
first_public-IsFirstKept [] = inr (refl, tt)
first_public-IsFirstKept (a ∷ more) =
    IsFirstKept-step a (first_public more) more (is_public a) refl (first_public-IsFirstKept more)

-- With a header that is not empty there are parts without a comma that, joined by commas, are its
-- text without spaces, and the address that the handler is told is the first of them that is not
-- empty and begins with none of `10.`, `192.168` and `172.16.`, or the empty text if there is none.
pub client_address-forwarded :
    (peer : List ℕ) (c : ℕ) (cs : List ℕ)
    → (text : List ℕ) × (ps : List (List ℕ)) × Despaced (c ∷ cs) text
      × IsSplit text ps
      × IsFirstKept ps (client_address peer (c ∷ cs))
unfolding client_address
client_address-forwarded peer c cs = (
  remove_spaces (c ∷ cs),
  split (remove_spaces (c ∷ cs)),
  remove_spaces-Despaced (c ∷ cs),
  split-IsSplit (remove_spaces (c ∷ cs)),
  first_public-IsFirstKept (split (remove_spaces (c ∷ cs))),
)
