-- ===== src/Https/Buckets/Updates.antt =====
-- An entry that a message has updated, while the timer ticks fewer times than there are buckets.
use libwebsocket_component.Prelude.{
  ℕ, zero, suc, ◌+◌, ◌-◌, ◌≤◌, ◌<◌, ◌≡◌, refl, ap, ◌∙◌, ◌⊎◌, inl, inr, arith, true, false, List, [],
  ◌∷◌, length, drop, Bool-cases,
}
use libwebsocket_component.Https.Buckets.{
  Wheel, replace, holds, in_buckets, insert, insert_back, alive, push_bucket, update_bucket,
  lock_entry, unlock_entry, new_entry, conn_gone, Happening, ticks, updates, locks, unlocks, goes,
  comes, happen, run, count_ticks,
}
use libwebsocket_component.Https.Buckets.Keeping.{
  closings_of, Stays, Kept, Stays-alive, release-Kept, on_timer-Kept, insert_back-Kept,
}

-- Whatever happens but a tick.
happen-Kept :
    (j c : ℕ) (h : Happening) (w : Wheel)
    → count_ticks (h ∷ []) ≡ 0
    → Stays j c w
    → Kept j c w (happen h w)
unfolding happen update_bucket lock_entry unlock_entry new_entry conn_gone push_bucket
happen-Kept j c ticks w n s = absurd (omega arith)
happen-Kept j c (updates d) w n s = elim (Bool-cases (alive d w)) [
  | inl e ↦ rw e (insert_back-Kept j c d w s)
  | inr e ↦ rw e (s, refl)
]
happen-Kept j c (locks d) w n s = elim (Bool-cases (alive d w)) [
  | inl e ↦ rw e (s, refl)
  | inr e ↦ rw e (s, refl)
]
happen-Kept j c (unlocks d) w n s =
    release-Kept j c d (record w { held = replace w.held d (w.held d - 1) }) s
happen-Kept j c (goes d) w n s = (s, refl)
happen-Kept j c (comes d t) w n s =
    insert_back-Kept j c d
      (record w {
        entry = replace w.entry d (record { ty = t; locked = false });
        conn = replace w.conn d true;
      })
      s

happen-ticks : (j c : ℕ) (w : Wheel) → Stays (suc j) c w → Kept j c w (happen ticks w)
unfolding happen
happen-ticks j c w h = on_timer-Kept j c w h

pub ticks-cases : (h : Happening) → (h ≡ ticks) ⊎ (count_ticks (h ∷ []) ≡ 0)
ticks-cases ticks = inl refl
ticks-cases (updates d) = inr refl
ticks-cases (locks d) = inr refl
ticks-cases (unlocks d) = inr refl
ticks-cases (goes d) = inr refl
ticks-cases (comes d t) = inr refl

pub count_ticks-cons :
    (h : Happening) (hs : List Happening)
    → count_ticks (h ∷ hs) ≡ count_ticks (h ∷ []) + count_ticks hs
count_ticks-cons ticks hs = omega arith
count_ticks-cons (updates d) hs = omega arith
count_ticks-cons (locks d) hs = omega arith
count_ticks-cons (unlocks d) hs = omega arith
count_ticks-cons (goes d) hs = omega arith
count_ticks-cons (comes d t) hs = omega arith

pred_suc : (j : ℕ) → suc j - 1 ≡ j
pred_suc j = omega arith

-- A tick takes one of those that the entry has left.
happen_tick-Kept :
    (j c : ℕ) (h : Happening) (w : Wheel)
    → h ≡ ticks
    → Stays j c w
    → 1 ≤ j
    → Kept (j - 1) c w (happen h w)
happen_tick-Kept zero c h w e s n = absurd (omega arith)
happen_tick-Kept (suc j) c h w e s n = rw (e, pred_suc j) (happen-ticks j c w s)

run-Kept :
    (hs : List Happening) (j c : ℕ) (w : Wheel)
    → Stays j c w
    → count_ticks hs ≤ j
    → (alive c (run hs w) ≡ true) × (closings_of c (run hs w).closings ≡ closings_of c w.closings)
unfolding run
run-Kept [] j c w s n = (Stays-alive j c w s, refl)
run-Kept (h ∷ hs) j c w s n = elim (ticks-cases h) [
  | inl e ↦
      (let one : count_ticks (h ∷ []) ≡ 1 = ap (λ g. count_ticks (g ∷ [])) e in
        let (s', e') = happen_tick-Kept j c h w e s (omega (arith, count_ticks-cons h hs)) in
        let (a, e'') =
          run-Kept hs (j - 1) c (happen h w) s' (omega (arith, count_ticks-cons h hs)) in
        (a, e'' ∙ e'))
  | inr e ↦
      (let (s', e') = happen-Kept j c h w e s in
        let (a, e'') = run-Kept hs j c (happen h w) s' (omega (arith, count_ticks-cons h hs)) in
        (a, e'' ∙ e'))
]

holds-insert_self : (c : ℕ) (b : List ℕ) → holds c (insert c b) ≡ true
holds-insert_self c b = ground arith

pub in_last :
    (c n : ℕ) (bs : List (List ℕ))
    → length bs ≡ suc n
    → in_buckets c (drop n (insert_back c bs)) ≡ true
unfolding insert_back
in_last c n [] e = absurd (omega arith)
in_last c zero (b ∷ []) e = ground (arith, holds-insert_self c b)
in_last c (suc n) (b ∷ []) e = absurd (omega arith)
in_last c zero (b ∷ d ∷ bs) e = absurd (omega arith)
in_last c (suc n) (b ∷ d ∷ bs) e = in_last c n (d ∷ bs) (omega arith)

-- On a connection that is there a message updates the entry. For as long as there are fewer ticks
-- than buckets, whatever else happens in the loop, the entry is alive and nothing is done to the
-- connection by its end.
pub closings_of-update_bucket :
    (c : ℕ) (hs : List Happening) (w : Wheel)
    → w.conn c ≡ true
    → count_ticks hs < length w.buckets
    → (alive c (run hs (update_bucket c w)) ≡ true)
      × (closings_of c (run hs (update_bucket c w)).closings ≡ closings_of c w.closings)
unfolding update_bucket
closings_of-update_bucket c hs w e n = rw e (
    run-Kept hs (length w.buckets - 1) c (record w { buckets = insert_back c w.buckets })
      (in_last c (length w.buckets - 1) w.buckets (omega arith)) (omega arith))
