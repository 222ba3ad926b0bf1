-- ===== src/Https/Buckets/Others.antt =====
-- What happens to other connections, and what it changes for an entry.
use libwebsocket_component.Prelude.{
  ℕ, ◌+◌, ◌-◌, ◌≡◌, refl, ap, ◌∙◌, inl, inr, arith, true, false, [], ◌∷◌, ◌==◌, drop, Bool-cases,
}
use libwebsocket_component.Https.Buckets.{
  EntryType, Entry, Wheel, replace, in_buckets, alive, push_bucket, update_bucket, lock_entry,
  unlock_entry, new_entry, conn_gone, Happening, ticks, updates, locks, unlocks, goes, comes,
  happen, count_ticks,
}
use libwebsocket_component.Https.Buckets.Expiry.{
  Once, Quiet, Left, in_buckets-insert_back_ne, Once-insert_back, only_closings, replace_ne,
  release-Left,
}

-- The place of the entry is left, too.
abbrev pub Same : ℕ → Wheel → Wheel → Type 0
Same c w v =
    Left c w v
    × ((j : ℕ) → in_buckets c (drop j v.buckets) ≡ in_buckets c (drop j w.buckets))
    × (Once c w.buckets → Once c v.buckets)

Same-refl : (c : ℕ) (w : Wheel) → Same c w w
Same-refl c w = ((refl, refl, refl, refl), (λ j. refl), λ o. o)

push_bucket-Same : (c d : ℕ) (w : Wheel) → (d == c) ≡ false → Same c w (push_bucket d w)
unfolding push_bucket
push_bucket-Same c d w h = elim (Bool-cases (w.conn d)) [
  | inl e ↦ rw e (
    (refl, refl, refl, refl),
    (λ j. in_buckets-insert_back_ne j c d w.buckets h),
    Once-insert_back c d w.buckets h,
  )
  | inr e ↦ rw e (Same-refl c w)
]

lock_entry-Same : (c d : ℕ) (w : Wheel) → (d == c) ≡ false → Same c w (lock_entry d w)
unfolding lock_entry
lock_entry-Same c d w h = elim (Bool-cases (alive d w)) [
  | inl e ↦ rw e (
    (
      refl,
      replace_ne w.entry d c (record (w.entry d) { locked = true }) h,
      replace_ne w.held d c (w.held d + 1) h,
      refl,
    ),
    (λ j. refl),
    λ o. o,
  )
  | inr e ↦ rw e (Same-refl c w)
]

unlock_entry-Same : (c d : ℕ) (w : Wheel) → (d == c) ≡ false → Same c w (unlock_entry d w)
unfolding unlock_entry
unlock_entry-Same c d w h =
    let v : Wheel = record w { held = replace w.held d (w.held d - 1) } in
    let (e, f, g, k) = release-Left c d v h in
    (
      (e, f, g ∙ replace_ne w.held d c (w.held d - 1) h, k),
      (λ j. ap (λ (u : Wheel). in_buckets c (drop j u.buckets)) (only_closings d v)),
      λ o. rw (only_closings d v) o,
    )

new_entry-Same :
    (c d : ℕ) (t : EntryType) (w : Wheel) → (d == c) ≡ false → Same c w (new_entry d t w)
unfolding new_entry
new_entry-Same c d t w h =
    let x : Entry = record { ty = t; locked = false } in
    let v : Wheel = record w { entry = replace w.entry d x; conn = replace w.conn d true } in
    let ((e, f, g, k), p, o) = push_bucket-Same c d v h in
    ((e ∙ replace_ne w.conn d c true h, f ∙ replace_ne w.entry d c x h, g, k), p, o)

pub happen-Same :
    (c : ℕ) (h : Happening) (w : Wheel)
    → count_ticks (h ∷ []) ≡ 0
    → Quiet c h
    → Same c w (happen h w)
unfolding happen update_bucket push_bucket conn_gone
happen-Same c ticks w n q = absurd (omega arith)
happen-Same c (updates d) w n q = elim (Bool-cases (alive d w)) [
  | inl e ↦ rw e (push_bucket-Same c d w q)
  | inr e ↦ rw e (Same-refl c w)
]
happen-Same c (locks d) w n q = lock_entry-Same c d w q
happen-Same c (unlocks d) w n q = unlock_entry-Same c d w q
happen-Same c (goes d) w n q =
    ((replace_ne w.conn d c false q, refl, refl, refl), (λ j. refl), λ o. o)
happen-Same c (comes d t) w n q = new_entry-Same c d t w q
