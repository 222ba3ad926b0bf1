-- ===== src/Https/Buckets/Expiry.antt =====
-- What becomes of a connection on which nothing happens.
use libwebsocket_component.Prelude.{
  ℕ, zero, suc, ◌≤◌, ◌≡◌, refl, ap, ◌∙◌, inl, inr, arith, Bool, true, false, List, [], ◌∷◌, ◌++◌,
  ◌==◌, ==_iff, if◌then◌else◌, drop, Bool-cases, All,
}
use libwebsocket_component.Https.Buckets.{
  EntryType, http_ty, tcp_ty, Entry, Closing, timeout_response, force_close, Wheel, replace, holds,
  in_buckets, insert, insert_back, alive, on_timeout_expired, destroy, release, release_all,
  Happening, ticks, updates, locks, unlocks, goes, comes,
}
use libwebsocket_component.Https.Buckets.Keeping.{closings_of, closings_of-destroy}

-- What the end of an entry does to its connection.
abbrev pub closing : ℕ → EntryType → Closing
closing c http_ty = timeout_response c
closing c tcp_ty = force_close c

abbrev pub count : ℕ → List ℕ → ℕ
count c [] = 0
count c (d ∷ ds) = if d == c then suc (count c ds) else count c ds

-- A bucket is a set.
abbrev pub Once : ℕ → List (List ℕ) → Type 0
Once c bs = All (λ b. count c b ≤ 1) bs

-- The entry of a connection that is there, not locked, with no pointer to it outside the buckets.
abbrev pub Rests : ℕ → EntryType → Wheel → Type 0
Rests c t w =
    (w.conn c ≡ true)
    × (w.entry c ≡ record { ty = t; locked = false })
    × (w.held c ≡ 0)
    × Once c w.buckets

-- Nothing that happens to this connection.
abbrev pub Quiet : ℕ → Happening → Type 0
Quiet c ticks = Unit {0}
Quiet c (updates d) = (d == c) ≡ false
Quiet c (locks d) = (d == c) ≡ false
Quiet c (unlocks d) = (d == c) ≡ false
Quiet c (goes d) = (d == c) ≡ false
Quiet c (comes d t) = (d == c) ≡ false

pub count-holds : (c : ℕ) (b : List ℕ) → holds c b ≡ false → count c b ≡ 0
count-holds c [] h = refl
count-holds c (d ∷ b) h = ground (arith, count-holds c b)

pub holds-count : (c : ℕ) (b : List ℕ) → holds c b ≡ true → 1 ≤ count c b
holds-count c [] h = cc
holds-count c (d ∷ b) h = ground (arith, holds-count c b)

pub holds-of_count : (c : ℕ) (b : List ℕ) → count c b ≡ 0 → holds c b ≡ false
holds-of_count c [] h = refl
holds-of_count c (d ∷ b) h = ground (arith, holds-of_count c b)

holds-insert_ne : (c d : ℕ) (b : List ℕ) → (d == c) ≡ false → holds c (insert d b) ≡ holds c b
holds-insert_ne c d b h = ground arith

count-insert_ne : (c d : ℕ) (b : List ℕ) → (d == c) ≡ false → count c (insert d b) ≡ count c b
count-insert_ne c d b h = ground arith

pub in_buckets-insert_back_ne :
    (j c d : ℕ) (bs : List (List ℕ))
    → (d == c) ≡ false
    → in_buckets c (drop j (insert_back d bs)) ≡ in_buckets c (drop j bs)
unfolding insert_back
in_buckets-insert_back_ne j c d [] h = refl
in_buckets-insert_back_ne zero c d (b ∷ []) h = rw (holds-insert_ne c d b h) refl
in_buckets-insert_back_ne (suc j) c d (b ∷ []) h = refl
in_buckets-insert_back_ne zero c d (b ∷ e ∷ bs) h =
    rw (in_buckets-insert_back_ne zero c d (e ∷ bs) h) refl
in_buckets-insert_back_ne (suc j) c d (b ∷ e ∷ bs) h = in_buckets-insert_back_ne j c d (e ∷ bs) h

pub Once-insert_back :
    (c d : ℕ) (bs : List (List ℕ)) → (d == c) ≡ false → Once c bs → Once c (insert_back d bs)
unfolding insert_back
Once-insert_back c d [] h o = o
Once-insert_back c d (b ∷ []) h (o, os) = (omega (arith, count-insert_ne c d b h), tt)
Once-insert_back c d (b ∷ e ∷ bs) h (o, os) = (o, Once-insert_back c d (e ∷ bs) h os)

pub Once-append : (c : ℕ) (bs : List (List ℕ)) → Once c bs → Once c (bs ++ ([] ∷ []))
Once-append c [] o = (omega arith, tt)
Once-append c (b ∷ bs) (o, os) = (o, Once-append c bs os)

pub in_buckets-empty :
    (j c : ℕ) (bs : List (List ℕ))
    → in_buckets c (drop j (bs ++ ([] ∷ []))) ≡ in_buckets c (drop j bs)
in_buckets-empty zero c [] = refl
in_buckets-empty (suc zero) c [] = refl
in_buckets-empty (suc (suc j)) c [] = refl
in_buckets-empty zero c (b ∷ bs) = rw (in_buckets-empty zero c bs) refl
in_buckets-empty (suc j) c (b ∷ bs) = in_buckets-empty j c bs

-- The end of a pointer changes nothing but what has been done to connections.
pub only_closings :
    (d : ℕ) (w : Wheel) → release d w ≡ record w { closings = (release d w).closings }
unfolding release destroy on_timeout_expired
only_closings d w = go (alive d w) (w.conn d) (w.entry d).locked (w.entry d).ty
  where
    go :
        (a b l : Bool) (t : EntryType)
        → (if a then w else if b then if l then w else on_timeout_expired d t w else w) ≡ record w {
          closings =
              (if a
                then w
                else if b
                then if l then w else on_timeout_expired d t w
                else w).closings;
        }
    go true b l t = refl
    go false true true t = refl
    go false true false http_ty = refl
    go false true false tcp_ty = refl
    go false false l t = refl

pub closings_of-release_ne :
    (c d : ℕ) (w : Wheel)
    → (d == c) ≡ false
    → closings_of c (release d w).closings ≡ closings_of c w.closings
unfolding release
closings_of-release_ne c d w h = elim (Bool-cases (alive d w)) [
  | inl e ↦ rw e refl
  | inr e ↦ rw e (closings_of-destroy c d w h)
]

release-expires :
    (c : ℕ) (t : EntryType) (w : Wheel)
    → alive c w ≡ false
    → w.conn c ≡ true
    → w.entry c ≡ record { ty = t; locked = false }
    → closings_of c (release c w).closings ≡ closing c t ∷ closings_of c w.closings
unfolding release destroy on_timeout_expired
release-expires c http_ty w a e f =
    let same : (c == c) ≡ true = (==_iff c c).1 refl in
    let ty : (w.entry c).ty ≡ http_ty = ap (λ (x : Entry). x.ty) f in
    let open_ : (w.entry c).locked ≡ false = ap (λ (x : Entry). x.locked) f in
    rw (a, e, open_, ty, same) refl
release-expires c tcp_ty w a e f =
    let same : (c == c) ≡ true = (==_iff c c).1 refl in
    let ty : (w.entry c).ty ≡ tcp_ty = ap (λ (x : Entry). x.ty) f in
    let open_ : (w.entry c).locked ≡ false = ap (λ (x : Entry). x.locked) f in
    rw (a, e, open_, ty, same) refl

pub release_all-none :
    (c : ℕ) (ds : List ℕ) (w : Wheel)
    → count c ds ≡ 0
    → closings_of c (release_all ds w).closings ≡ closings_of c w.closings
unfolding release_all
release_all-none c [] w n = refl
release_all-none c (d ∷ ds) w n = elim (Bool-cases (d == c)) [
  | inl e ↦ absurd (ground arith)
  | inr e ↦ release_all-none c ds (release d w) (ground arith) ∙ closings_of-release_ne c d w e
]

pub release_all-one :
    (c : ℕ) (t : EntryType) (ds : List ℕ) (w : Wheel)
    → alive c w ≡ false
    → w.conn c ≡ true
    → w.entry c ≡ record { ty = t; locked = false }
    → count c ds ≡ 1
    → closings_of c (release_all ds w).closings ≡ closing c t ∷ closings_of c w.closings
unfolding release_all
release_all-one c t [] w a e f n = absurd (omega arith)
release_all-one c t (d ∷ ds) w a e f n = elim (Bool-cases (d == c)) [
  | inl s ↦
      release_all-none c ds (release d w) (ground arith)
      ∙ rw ((==_iff d c).0 s) (release-expires c t w a e f)
  | inr s ↦
      release_all-one c t ds (release d w) (ap (alive c) (only_closings d w) ∙ a)
        (ap (λ (v : Wheel). v.conn c) (only_closings d w) ∙ e)
        (ap (λ (v : Wheel). v.entry c) (only_closings d w) ∙ f) (ground arith)
      ∙ ap (◌∷◌ (closing c t)) (closings_of-release_ne c d w s)
]

pub release_all-only_closings :
    (ds : List ℕ) (w : Wheel)
    → release_all ds w ≡ record w { closings = (release_all ds w).closings }
unfolding release_all
release_all-only_closings [] w = refl
release_all-only_closings (d ∷ ds) w =
    release_all-only_closings ds (release d w)
    ∙ ap (λ (v : Wheel). record v { closings = (release_all ds (release d w)).closings })
        (only_closings d w)

-- What does not concern a connection leaves its entry, its place and what has been done to it.
abbrev pub Left : ℕ → Wheel → Wheel → Type 0
Left c w v =
    (v.conn c ≡ w.conn c)
    × (v.entry c ≡ w.entry c)
    × (v.held c ≡ w.held c)
    × (closings_of c v.closings ≡ closings_of c w.closings)

pub replace_ne {ℓ} :
    {A : Type ℓ} (f : ℕ → A) (d c : ℕ) (a : A) → (d == c) ≡ false → replace f d a c ≡ f c
replace_ne f d c a h = let other : (c == d) ≡ false = ground arith in rw other refl

pub release-Left : (c d : ℕ) (w : Wheel) → (d == c) ≡ false → Left c w (release d w)
release-Left c d w h = (
  ap (λ (v : Wheel). v.conn c) (only_closings d w),
  ap (λ (v : Wheel). v.entry c) (only_closings d w),
  ap (λ (v : Wheel). v.held c) (only_closings d w),
  closings_of-release_ne c d w h,
)
