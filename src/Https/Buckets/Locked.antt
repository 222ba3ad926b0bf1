-- ===== src/Https/Buckets/Locked.antt =====
-- A connection whose request is being answered.
use libwebsocket_component.Prelude.{
  ℕ, ◌-◌, ◌≡◌, refl, ap, ◌∙◌, inl, inr, arith, true, false, List, [], ◌∷◌, ◌++◌, ◌==◌, ==_iff,
  Bool-cases, All,
}
use libwebsocket_component.Https.Buckets.{
  Entry, Wheel, replace, alive, destroy, release, release_all, on_timer, push_bucket, update_bucket,
  lock_entry, unlock_entry, new_entry, conn_gone, Happening, ticks, updates, locks, unlocks, goes,
  comes, happen, run,
}
use libwebsocket_component.Https.Buckets.Keeping.{closings_of}
use libwebsocket_component.Https.Buckets.Expiry.{closings_of-release_ne, only_closings}

-- The connection is not made anew.
abbrev pub NotAnew : ℕ → Happening → Type 0
NotAnew c (comes d t) = (d == c) ≡ false
NotAnew c _ = Unit {0}

abbrev IsLocked : ℕ → Wheel → Type 0
IsLocked c w = (w.entry c).locked ≡ true

abbrev Untouched : ℕ → Wheel → Wheel → Type 0
Untouched c w v = IsLocked c v × (closings_of c v.closings ≡ closings_of c w.closings)

release-locked : (c : ℕ) (w : Wheel) → IsLocked c w → release c w ≡ w
unfolding release destroy
release-locked c w h = elim (Bool-cases (alive c w)) [
  | inl e ↦ rw e refl
  | inr e ↦ elim (Bool-cases (w.conn c)) [ inl i ↦ rw (e, i, h) refl | inr i ↦ rw (e, i) refl ]
]

release-Untouched : (c d : ℕ) (w : Wheel) → IsLocked c w → Untouched c w (release d w)
release-Untouched c d w h = elim (Bool-cases (d == c)) [
  | inl e ↦ rw ((==_iff d c).0 e, release-locked c w h) (h, refl)
  | inr e ↦ (
    ap (λ (v : Wheel). (v.entry c).locked) (only_closings d w) ∙ h,
    closings_of-release_ne c d w e,
  )
]

release_all-Untouched :
    (c : ℕ) (ds : List ℕ) (w : Wheel) → IsLocked c w → Untouched c w (release_all ds w)
unfolding release_all
release_all-Untouched c [] w h = (h, refl)
release_all-Untouched c (d ∷ ds) w h =
    let (h', e) = release-Untouched c d w h in
    let (h'', e') = release_all-Untouched c ds (release d w) h' in (h'', e' ∙ e)

on_timer-Untouched : (c : ℕ) (w : Wheel) → IsLocked c w → Untouched c w (on_timer w)
unfolding on_timer
on_timer-Untouched c w h = go w.buckets
  where
    go :
        (bs : List (List ℕ))
        → Untouched c w (elim bs [
          | [] ↦ w
          | front ∷ rest ↦ release_all front (record w { buckets = rest ++ ([] ∷ []) })
        ])
    go [] = (h, refl)
    go (front ∷ rest) = release_all-Untouched c front (record w { buckets = rest ++ ([] ∷ []) }) h

push_bucket-Untouched : (c d : ℕ) (w : Wheel) → IsLocked c w → Untouched c w (push_bucket d w)
unfolding push_bucket
push_bucket-Untouched c d w h = elim (Bool-cases (w.conn d)) [
  | inl e ↦ rw e (h, refl)
  | inr e ↦ rw e (h, refl)
]

replace-locked :
    (f : ℕ → Entry) (c d : ℕ)
    → (f c).locked ≡ true
    → (replace f d (record (f d) { locked = true }) c).locked ≡ true
replace-locked f c d h = ground arith

lock_entry-Untouched : (c d : ℕ) (w : Wheel) → IsLocked c w → Untouched c w (lock_entry d w)
unfolding lock_entry
lock_entry-Untouched c d w h = elim (Bool-cases (alive d w)) [
  | inl e ↦ rw e (replace-locked w.entry c d h, refl)
  | inr e ↦ rw e (h, refl)
]

replace_anew :
    (f : ℕ → Entry) (c d : ℕ) (x : Entry)
    → (d == c) ≡ false
    → (f c).locked ≡ true
    → (replace f d x c).locked ≡ true
replace_anew f c d x e h = ground arith

happen-Untouched :
    (c : ℕ) (h : Happening) (w : Wheel) → NotAnew c h → IsLocked c w → Untouched c w (happen h w)
unfolding happen update_bucket push_bucket unlock_entry new_entry conn_gone
happen-Untouched c ticks w q k = on_timer-Untouched c w k
happen-Untouched c (updates d) w q k = elim (Bool-cases (alive d w)) [
  | inl e ↦ rw e (push_bucket-Untouched c d w k)
  | inr e ↦ rw e (k, refl)
]
happen-Untouched c (locks d) w q k = lock_entry-Untouched c d w k
happen-Untouched c (unlocks d) w q k =
    release-Untouched c d (record w { held = replace w.held d (w.held d - 1) }) k
happen-Untouched c (goes d) w q k = (k, refl)
happen-Untouched c (comes d t) w q k =
    push_bucket-Untouched c d
      (record w {
        entry = replace w.entry d (record { ty = t; locked = false });
        conn = replace w.conn d true;
      })
      (replace_anew w.entry c d (record { ty = t; locked = false }) q k)

run-Untouched :
    (c : ℕ) (hs : List Happening) (w : Wheel)
    → All (NotAnew c) hs
    → IsLocked c w
    → Untouched c w (run hs w)
unfolding run
run-Untouched c [] w q k = (k, refl)
run-Untouched c (h ∷ hs) w (q, qs) k =
    let (k', e) = happen-Untouched c h w q k in
    let (k'', e') = run-Untouched c hs (happen h w) qs k' in (k'', e' ∙ e)

locks-IsLocked : (c : ℕ) (w : Wheel) → alive c w ≡ true → IsLocked c (happen (locks c) w)
unfolding happen lock_entry
locks-IsLocked c w a = let same : (c == c) ≡ true = (==_iff c c).1 refl in rw (a, same) refl

-- Once a worker has locked the entry of a connection, nothing is done to the connection by the end
-- of the entry, whatever happens after it, also when the worker has let the entry go.
pub closings_of-locked :
    (c : ℕ) (hs : List Happening) (w : Wheel)
    → alive c w ≡ true
    → All (NotAnew c) hs
    → closings_of c (run hs (happen (locks c) w)).closings
      ≡ closings_of c (happen (locks c) w).closings
closings_of-locked c hs w a q = (run-Untouched c hs (happen (locks c) w) q (locks-IsLocked c w a)).1
