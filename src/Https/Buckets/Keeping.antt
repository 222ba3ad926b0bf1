-- ===== src/Https/Buckets/Keeping.antt =====
-- How long an entry stays in the buckets.
use libwebsocket_component.Prelude.{
  ℕ, zero, suc, ◌≡◌, refl, ap, ◌∙◌, inl, inr, arith, Bool, true, false, List, [], ◌∷◌, ◌++◌, ◌==◌,
  ==_iff, if◌then◌else◌, drop, Bool-cases,
}
use libwebsocket_component.Https.Buckets.{
  EntryType, http_ty, tcp_ty, Closing, timeout_response, force_close, Wheel, holds, in_buckets,
  insert, insert_back, alive, on_timeout_expired, destroy, release, release_all, on_timer,
  push_bucket,
}

-- What has been done to one connection.
abbrev pub target : Closing → ℕ
target (timeout_response d) = d
target (force_close d) = d

abbrev pub closings_of : ℕ → List Closing → List Closing
closings_of c [] = []
closings_of c (x ∷ xs) = if target x == c then x ∷ closings_of c xs else closings_of c xs

-- The entry is in a bucket that `j` ticks leave there.
abbrev pub Stays : ℕ → ℕ → Wheel → Type 0
Stays j c w = in_buckets c (drop j w.buckets) ≡ true

holds-insert : (c d : ℕ) (b : List ℕ) → holds c b ≡ true → holds c (insert d b) ≡ true
holds-insert c d b h = ground arith

pub in_buckets-insert_back :
    (j c d : ℕ) (bs : List (List ℕ))
    → in_buckets c (drop j bs) ≡ true
    → in_buckets c (drop j (insert_back d bs)) ≡ true
unfolding insert_back
in_buckets-insert_back j c d [] h = h
in_buckets-insert_back zero c d (b ∷ []) h = ground (arith, holds-insert c d b)
in_buckets-insert_back (suc j) c d (b ∷ []) h = h
in_buckets-insert_back zero c d (b ∷ e ∷ bs) h =
    ground (arith, in_buckets-insert_back zero c d (e ∷ bs))
in_buckets-insert_back (suc j) c d (b ∷ e ∷ bs) h = in_buckets-insert_back j c d (e ∷ bs) h

in_buckets-append :
    (c : ℕ) (bs ds : List (List ℕ)) → in_buckets c bs ≡ true → in_buckets c (bs ++ ds) ≡ true
in_buckets-append c [] ds h = cc
in_buckets-append c (b ∷ bs) ds h = ground (arith, in_buckets-append c bs ds)

in_buckets-drop-append :
    (j c : ℕ) (bs ds : List (List ℕ))
    → in_buckets c (drop j bs) ≡ true
    → in_buckets c (drop j (bs ++ ds)) ≡ true
in_buckets-drop-append zero c bs ds h = in_buckets-append c bs ds h
in_buckets-drop-append (suc j) c [] ds h = cc
in_buckets-drop-append (suc j) c (b ∷ bs) ds h = in_buckets-drop-append j c bs ds h

in_buckets-of_drop :
    (j c : ℕ) (bs : List (List ℕ)) → in_buckets c (drop j bs) ≡ true → in_buckets c bs ≡ true
in_buckets-of_drop zero c bs h = h
in_buckets-of_drop (suc j) c [] h = h
in_buckets-of_drop (suc j) c (b ∷ bs) h = ground (arith, in_buckets-of_drop j c bs)

pub Stays-alive : (j c : ℕ) (w : Wheel) → Stays j c w → alive c w ≡ true
Stays-alive j c w h = ground (arith, in_buckets-of_drop j c w.buckets)

-- The end of a pointer changes no bucket, and nothing about a connection whose entry is in one.
pub buckets-release : (d : ℕ) (w : Wheel) → (release d w).buckets ≡ w.buckets
unfolding release destroy on_timeout_expired
buckets-release d w = elim (Bool-cases (alive d w)) [
  | inl e ↦ rw e refl
  | inr e ↦ go (w.conn d) (w.entry d).locked (w.entry d).ty e
]
  where
    go :
        (b l : Bool) (t : EntryType)
        → alive d w ≡ false
        → (if alive d w
            then w
            else if b
            then if l then w else on_timeout_expired d t w
            else w).buckets
          ≡ w.buckets
    go true true t e = rw e refl
    go true false http_ty e = rw e refl
    go true false tcp_ty e = rw e refl
    go false l t e = rw e refl

pub closings_of-destroy :
    (c d : ℕ) (w : Wheel)
    → (d == c) ≡ false
    → closings_of c (destroy d w).closings ≡ closings_of c w.closings
unfolding destroy on_timeout_expired
closings_of-destroy c d w e = go (w.conn d) (w.entry d).locked (w.entry d).ty
  where
    go :
        (b l : Bool) (t : EntryType)
        → closings_of c (if b then if l then w else on_timeout_expired d t w else w).closings
          ≡ closings_of c w.closings
    go true true t = refl
    go true false http_ty = rw e refl
    go true false tcp_ty = rw e refl
    go false l t = refl

closings_of-release :
    (c d : ℕ) (w : Wheel)
    → alive c w ≡ true
    → closings_of c (release d w).closings ≡ closings_of c w.closings
unfolding release
closings_of-release c d w h = elim (Bool-cases (alive d w)) [
  | inl e ↦ rw e refl
  | inr e ↦ elim (Bool-cases (d == c)) [
    | inl s ↦ let same : d ≡ c = (==_iff d c).0 s in cc
    | inr s ↦ rw e (closings_of-destroy c d w s)
  ]
]

-- What keeps an entry in its bucket, with nothing done to its connection.
abbrev pub Kept : ℕ → ℕ → Wheel → Wheel → Type 0
Kept j c w v = Stays j c v × (closings_of c v.closings ≡ closings_of c w.closings)

pub release-Kept : (j c d : ℕ) (w : Wheel) → Stays j c w → Kept j c w (release d w)
release-Kept j c d w h = (
  ap (λ bs. in_buckets c (drop j bs)) (buckets-release d w) ∙ h,
  closings_of-release c d w (Stays-alive j c w h),
)

release_all-Kept : (j c : ℕ) (ds : List ℕ) (w : Wheel) → Stays j c w → Kept j c w (release_all ds w)
unfolding release_all
release_all-Kept j c [] w h = (h, refl)
release_all-Kept j c (d ∷ ds) w h =
    let (s, e) = release-Kept j c d w h in
    let (s', e') = release_all-Kept j c ds (release d w) s in (s', e' ∙ e)

pub on_timer-Kept : (j c : ℕ) (w : Wheel) → Stays (suc j) c w → Kept j c w (on_timer w)
unfolding on_timer
on_timer-Kept j c w h = go w.buckets h
  where
    go :
        (bs : List (List ℕ))
        → in_buckets c (drop (suc j) bs) ≡ true
        → Kept j c w (elim bs [
          | [] ↦ w
          | front ∷ rest ↦ release_all front (record w { buckets = rest ++ ([] ∷ []) })
        ])
    go [] e = cc
    go (front ∷ rest) e =
        release_all-Kept j c front (record w { buckets = rest ++ ([] ∷ []) })
          (in_buckets-drop-append j c rest ([] ∷ []) e)

pub insert_back-Kept : (j c d : ℕ) (w : Wheel) → Stays j c w → Kept j c w (push_bucket d w)
unfolding push_bucket
insert_back-Kept j c d w h = elim (Bool-cases (w.conn d)) [
  | inl e ↦ rw e (in_buckets-insert_back j c d w.buckets h, refl)
  | inr e ↦ rw e (h, refl)
]
