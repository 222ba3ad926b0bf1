-- ===== src/Handshake/Address.antt =====
-- The choice of the client's address from `X-Forwarded-For`, in `do_handshake` of
-- libwebsocket/private/websocket.cc.
use libwebsocket_component.Prelude.{
  is_empty, ℕ, ◌≡◌, refl, ap, Bool, true, false, ◌&&◌, not, List, [], ◌∷◌, ◌++◌, ◌==◌, ==_iff,
  if◌then◌else◌, All, codes, arith, ◌≢◌, ◌∙◌, sym,
}

-- `boost::replace_all` of a space by nothing.
unfoldable pub remove_spaces : List ℕ → List ℕ
remove_spaces [] = []
remove_spaces (c ∷ cs) = let rest = remove_spaces cs in if c == b' ' then rest else c ∷ rest

-- One more character in front of the first part.
abbrev pub grow : ℕ → List (List ℕ) → List (List ℕ)
grow c [] = (c ∷ []) ∷ []
grow c (p ∷ ps) = (c ∷ p) ∷ ps

-- `boost::algorithm::split` at every comma; parts may be empty.
unfoldable pub split : List ℕ → List (List ℕ)
split [] = [] ∷ []
split (c ∷ cs) = let rest = split cs in if c == b',' then [] ∷ rest else grow c rest

-- `strncasecmp` with the length of the prefix, which has no letters.
abbrev pub has_prefix : List ℕ → List ℕ → Bool
has_prefix [] cs = true
has_prefix (p ∷ ps) [] = false
has_prefix (p ∷ ps) (c ∷ cs) = p == c && has_prefix ps cs

-- A part that the loop takes: not empty, and with none of the prefixes that it takes for private.
abbrev pub is_public : List ℕ → Bool
is_public a =
    not (is_empty a)
    && not (has_prefix (codes "10.") a)
    && not (has_prefix (codes "192.168") a)
    && not (has_prefix (codes "172.16.") a)

unfoldable pub first_public : List (List ℕ) → List ℕ
first_public [] = []
first_public (a ∷ more) = let rest = first_public more in if is_public a then a else rest

-- The address that the handler is told: that of the peer if there is no header.
unfoldable pub client_address : List ℕ → List ℕ → List ℕ
client_address peer [] = peer
client_address peer (c ∷ cs) = first_public (split (remove_spaces (c ∷ cs)))

-- The parts with commas between them.
abbrev pub join : List (List ℕ) → List ℕ
join [] = []
join (p ∷ []) = p
join (p ∷ q ∷ ps) = p ++ (b',' ∷ join (q ∷ ps))

abbrev pub HasNoComma : List ℕ → Type 0
HasNoComma p = All (λ c. c ≢ b',') p

abbrev pub IsSplit : List ℕ → List (List ℕ) → Type 0
IsSplit cs ps = (join ps ≡ cs) × All HasNoComma ps × (ps ≢ [])

join-comma : (ps : List (List ℕ)) → ps ≢ [] → join ([] ∷ ps) ≡ b',' ∷ join ps
join-comma [] h = absurd (h refl)
join-comma (p ∷ ps) h = refl

join-grow : (c : ℕ) (ps : List (List ℕ)) → join (grow c ps) ≡ c ∷ join ps
join-grow c [] = refl
join-grow c (p ∷ []) = refl
join-grow c (p ∷ q ∷ ps) = refl

grow-HasNoComma :
    (c : ℕ) (ps : List (List ℕ)) → c ≢ b',' → All HasNoComma ps → All HasNoComma (grow c ps)
grow-HasNoComma c [] hc h = ((hc, tt), tt)
grow-HasNoComma c (p ∷ ps) hc (hp, h) = ((hc, hp), h)

grow-ne-nil : (c : ℕ) (ps : List (List ℕ)) → grow c ps ≢ []
grow-ne-nil c [] = λ h. cc
grow-ne-nil c (p ∷ ps) = λ h. cc

not-comma : (c : ℕ) → (c == b',') ≡ false → c ≢ b','
not-comma c h = λ e. ground arith

IsSplit-comma :
    (c : ℕ) (cs : List ℕ) (ps : List (List ℕ))
    → c ≡ b','
    → IsSplit cs ps
    → IsSplit (c ∷ cs) ([] ∷ ps)
IsSplit-comma c cs ps hc (hj, ha, hn) =
    (join-comma ps hn ∙ ap (◌∷◌ b',') hj ∙ ap (λ d. d ∷ cs) (sym hc), (tt, ha), λ h. cc)

IsSplit-grow :
    (c : ℕ) (cs : List ℕ) (ps : List (List ℕ))
    → c ≢ b','
    → IsSplit cs ps
    → IsSplit (c ∷ cs) (grow c ps)
IsSplit-grow c cs ps hc (hj, ha, hn) =
    (join-grow c ps ∙ ap (◌∷◌ c) hj, grow-HasNoComma c ps hc ha, grow-ne-nil c ps)

IsSplit-step :
    (c : ℕ) (cs : List ℕ) (ps : List (List ℕ)) (b : Bool)
    → (c == b',') ≡ b
    → IsSplit cs ps
    → IsSplit (c ∷ cs) (if b then [] ∷ ps else grow c ps)
IsSplit-step c cs ps true e h = IsSplit-comma c cs ps ((==_iff c _).0 e) h
IsSplit-step c cs ps false e h = IsSplit-grow c cs ps (not-comma c e) h

-- The parts joined by commas are the text, and no part has a comma in it.
pub split-IsSplit : (cs : List ℕ) → IsSplit cs (split cs)
unfolding split
split-IsSplit [] = (refl, (tt, tt), λ h. cc)
split-IsSplit (c ∷ cs) = IsSplit-step c cs (split cs) (c == b',') refl (split-IsSplit cs)
