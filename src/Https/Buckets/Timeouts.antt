-- ===== src/Https/Buckets/Timeouts.antt =====
-- A connection on which nothing happens, while the timer ticks.
use libwebsocket_component.Prelude.{
  ℕ, zero, suc, ◌≤◌, ◌≡◌, refl, sym, ap, ◌∙◌, ◌⊎◌, inl, inr, arith, Bool, true, false, List, [],
  ◌∷◌, ◌++◌, length, drop, Bool-cases, All,
}
use libwebsocket_component.Https.Buckets.{
  EntryType, Entry, Wheel, holds, in_buckets, alive, release_all, on_timer, Happening, ticks,
  happen, run, count_ticks,
}
use libwebsocket_component.Https.Buckets.Keeping.{closings_of, on_timer-Kept}
use libwebsocket_component.Https.Buckets.Updates.{ticks-cases, count_ticks-cons}
use libwebsocket_component.Https.Buckets.Expiry.{
  closing, count, Once, Rests, Quiet, count-holds, holds-count, Once-append, in_buckets-empty,
  release_all-none, release_all-one, release_all-only_closings,
}
use libwebsocket_component.Https.Buckets.Others.{happen-Same}

List-cases :
    (bs : List (List ℕ)) → (bs ≡ []) ⊎ ((b : List ℕ) × (ds : List (List ℕ)) × (bs ≡ b ∷ ds))
List-cases [] = inl refl
List-cases (b ∷ ds) = inr (b, ds, refl)

-- The wheel after a tick, before the entries of the first bucket are let go.
abbrev turned : List (List ℕ) → Wheel → Wheel
turned rest w = record w { buckets = rest ++ ([] ∷ []) }

on_timer-cons :
    (w : Wheel) (front : List ℕ) (rest : List (List ℕ))
    → w.buckets ≡ front ∷ rest
    → happen ticks w ≡ release_all front (turned rest w)
unfolding happen on_timer
on_timer-cons w front rest e = rw (e, on_timer) refl

on_timer-nil : (w : Wheel) → w.buckets ≡ [] → happen ticks w ≡ w
unfolding happen on_timer
on_timer-nil w e = rw (e, on_timer) (ap (λ bs. record w { buckets = bs }) e)

-- The fields after a tick.
turned_fields :
    (front : List ℕ) (v : Wheel)
    → ((release_all front v).buckets ≡ v.buckets)
      × ((release_all front v).held ≡ v.held)
      × ((release_all front v).conn ≡ v.conn)
      × ((release_all front v).entry ≡ v.entry)
turned_fields front v =
    let e = release_all-only_closings front v in
    (
      ap (λ (u : Wheel). u.buckets) e,
      ap (λ (u : Wheel). u.held) e,
      ap (λ (u : Wheel). u.conn) e,
      ap (λ (u : Wheel). u.entry) e,
    )

-- An entry that is gone.
abbrev Gone : ℕ → Wheel → Type 0
Gone c w = (in_buckets c w.buckets ≡ false) × (w.held c ≡ 0)

front-count :
    (c : ℕ) (front : List ℕ) (rest : List (List ℕ))
    → in_buckets c (front ∷ rest) ≡ false
    → (count c front ≡ 0) × (in_buckets c rest ≡ false)
front-count c front rest h = (count-holds c front (ground arith), ground arith)

happen-Gone :
    (c : ℕ) (h : Happening) (w : Wheel)
    → Quiet c h
    → Gone c w
    → Gone c (happen h w) × (closings_of c (happen h w).closings ≡ closings_of c w.closings)
happen-Gone c h w q (g, k) = elim (ticks-cases h) [
  | inl e ↦ rw e (tick (List-cases w.buckets))
  | inr e ↦ (let ((f1, f2, f3, f4), p, o) = happen-Same c h w e q in ((p 0 ∙ g, f3 ∙ k), f4))
]
  where
    tick :
        (w.buckets ≡ []) ⊎ ((b : List ℕ) × (ds : List (List ℕ)) × (w.buckets ≡ b ∷ ds))
        → Gone c (happen ticks w)
          × (closings_of c (happen ticks w).closings ≡ closings_of c w.closings)
    tick (inl e) = rw (on_timer-nil w e) ((g, k), refl)
    tick (inr (front, rest, e)) =
        let (n, r) = front-count c front rest (ap (in_buckets c) (sym e) ∙ g) in
        let (fb, fh, fc, fe) = turned_fields front (turned rest w) in
        rw (on_timer-cons w front rest e) (
          (ap (in_buckets c) fb ∙ in_buckets-empty 0 c rest ∙ r, ap (λ (f : ℕ → ℕ). f c) fh ∙ k),
          release_all-none c front (turned rest w) n,
        )

run-Gone :
    (hs : List Happening) (c : ℕ) (w : Wheel)
    → All (Quiet c) hs
    → Gone c w
    → closings_of c (run hs w).closings ≡ closings_of c w.closings
unfolding run
run-Gone [] c w q g = refl
run-Gone (h ∷ hs) c w (q, qs) g =
    let (g', e) = happen-Gone c h w q g in run-Gone hs c (happen h w) qs g' ∙ e

-- A tick on an entry that waits: it is told now, if the first bucket was the last that had it.
Rests-turned :
    (c : ℕ) (t : EntryType) (w : Wheel) (front : List ℕ) (rest : List (List ℕ))
    → w.buckets ≡ front ∷ rest
    → Rests c t w
    → Rests c t (happen ticks w)
Rests-turned c t w front rest e (rc, re, rh, ro) =
    let o : Once c (front ∷ rest) = rw e at ro in
    let (fb, fh, fc, fe) = turned_fields front (turned rest w) in
    rw (on_timer-cons w front rest e) (
      ap (λ (f : ℕ → Bool). f c) fc ∙ rc,
      ap (λ (f : ℕ → Entry). f c) fe ∙ re,
      ap (λ (f : ℕ → ℕ). f c) fh ∙ rh,
      rw fb (Once-append c rest o.1),
    )

place-turned :
    (j c : ℕ) (w : Wheel) (front : List ℕ) (rest : List (List ℕ))
    → w.buckets ≡ front ∷ rest
    → in_buckets c (drop j (happen ticks w).buckets) ≡ in_buckets c (drop j rest)
place-turned j c w front rest e =
    let (fb, fh, fc, fe) = turned_fields front (turned rest w) in
    rw (on_timer-cons w front rest e)
      (ap (λ bs. in_buckets c (drop j bs)) fb ∙ in_buckets-empty j c rest)

stays-turned :
    (c : ℕ) (w : Wheel) (front : List ℕ) (rest : List (List ℕ))
    → w.buckets ≡ front ∷ rest
    → in_buckets c rest ≡ true
    → closings_of c (happen ticks w).closings ≡ closings_of c w.closings
unfolding happen
stays-turned c w front rest e h =
    (on_timer-Kept 0 c w (ap (λ bs. in_buckets c (drop 1 bs)) e ∙ h)).1

goes-turned :
    (c : ℕ) (t : EntryType) (w : Wheel) (front : List ℕ) (rest : List (List ℕ))
    → w.buckets ≡ front ∷ rest
    → Rests c t w
    → in_buckets c w.buckets ≡ true
    → in_buckets c rest ≡ false
    → closings_of c (happen ticks w).closings ≡ closing c t ∷ closings_of c w.closings
goes-turned c t w front rest e (rc, re, rh, ro) here gone =
    let o : Once c (front ∷ rest) = rw e at ro in
    let in_front : holds c front ≡ true =
      (let i : in_buckets c (front ∷ rest) ≡ true = ap (in_buckets c) (sym e) ∙ here in
        ground arith) in
    let dead : alive c (turned rest w) ≡ false =
      (let r : in_buckets c (rest ++ ([] ∷ [])) ≡ false = in_buckets-empty 0 c rest ∙ gone in
        ground arith) in
    rw (on_timer-cons w front rest e) (
      release_all-one c t front (turned rest w) dead rc re
        (omega (arith, holds-count c front in_front, o.0)))

run-closing :
    (hs : List Happening) (j c : ℕ) (t : EntryType) (w : Wheel)
    → Rests c t w
    → in_buckets c w.buckets ≡ true
    → in_buckets c (drop j w.buckets) ≡ false
    → j ≤ count_ticks hs
    → All (Quiet c) hs
    → closings_of c (run hs w).closings ≡ closing c t ∷ closings_of c w.closings
unfolding run
run-closing [] zero c t w r i g n q = cc
run-closing [] (suc j) c t w r i g n q = absurd (omega arith)
run-closing (h ∷ hs) zero c t w r i g n q = cc
run-closing (h ∷ hs) (suc j) c t w r i g n (q, qs) = elim (ticks-cases h) [
  | inr e ↦
      (let ((f1, f2, f3, f4), p, o) = happen-Same c h w e q in
        let (rc, re, rh, ro) = r in
        run-closing hs (suc j) c t (happen h w) (f1 ∙ rc, f2 ∙ re, f3 ∙ rh, o ro) (p 0 ∙ i)
          (p (suc j) ∙ g) (omega (arith, count_ticks-cons h hs)) qs
        ∙ ap (◌∷◌ (closing c t)) f4)
  | inl e ↦ elim (List-cases w.buckets) [
    | inl en ↦ (let none_in : false ≡ true = ap (in_buckets c) (sym en) ∙ i in cc)
    | inr (front, rest, eb) ↦
        (let one : count_ticks (h ∷ []) ≡ 1 = ap (λ k. count_ticks (k ∷ [])) e in
          let behind : in_buckets c (drop j rest) ≡ false =
            ap (λ bs. in_buckets c (drop (suc j) bs)) (sym eb) ∙ g in
          elim (Bool-cases (in_buckets c rest)) [
            | inl here ↦ rw e (
                run-closing hs j c t (happen ticks w) (Rests-turned c t w front rest eb r)
                  (place-turned 0 c w front rest eb ∙ here)
                  (place-turned j c w front rest eb ∙ behind) (omega (arith, count_ticks-cons h hs))
                  qs
                ∙ ap (◌∷◌ (closing c t)) (stays-turned c w front rest eb here))
            | inr gone ↦ rw e (
                run-Gone hs c (happen ticks w) qs
                  (place-turned 0 c w front rest eb ∙ gone, (Rests-turned c t w front rest eb r).2)
                ∙ goes-turned c t w front rest eb r i gone)
          ])
  ]
]

in_buckets-drop_all : (c : ℕ) (bs : List (List ℕ)) → in_buckets c (drop (length bs) bs) ≡ false
in_buckets-drop_all c [] = refl
in_buckets-drop_all c (b ∷ bs) = in_buckets-drop_all c bs

-- A connection that is there and has its entry in a bucket, not locked, and on which nothing
-- happens any more while the timer ticks as many times as there are buckets: in that time its end
-- is brought about exactly once, in the way of its kind, whatever happens to other connections.
pub closings_of-idle :
    (c : ℕ) (t : EntryType) (hs : List Happening) (w : Wheel)
    → Rests c t w
    → in_buckets c w.buckets ≡ true
    → All (Quiet c) hs
    → length w.buckets ≤ count_ticks hs
    → closings_of c (run hs w).closings ≡ closing c t ∷ closings_of c w.closings
closings_of-idle c t hs w r i q n =
    run-closing hs (length w.buckets) c t w r i (in_buckets-drop_all c w.buckets) n q
