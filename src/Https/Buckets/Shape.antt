-- ===== src/Https/Buckets/Shape.antt =====
-- The shape of the wheel: the number of its buckets, and every bucket a set.
use libwebsocket_component.Prelude.{
  ℕ, zero, suc, ◌-◌, ◌≤◌, ◌≡◌, refl, ap, ◌∙◌, inl, inr, arith, true, false, List, [], ◌∷◌, ◌++◌,
  ==_iff, length, length-append, Bool-cases,
}
use libwebsocket_component.Https.Buckets.{
  Wheel, replace, holds, empty_buckets, insert, insert_back, alive, release_all, on_timer,
  push_bucket, update_bucket, lock_entry, unlock_entry, new_entry, conn_gone, Happening, ticks,
  updates, locks, unlocks, goes, comes, happen, run,
}
use libwebsocket_component.Https.Buckets.Keeping.{buckets-release}
use libwebsocket_component.Https.Buckets.Expiry.{
  count, count-holds, Once, Once-append, release_all-only_closings,
}

abbrev pub IsShaped : ℕ → List (List ℕ) → Type 0
IsShaped size bs = (length bs ≡ size) × ((c : ℕ) → Once c bs)

count-insert : (c d : ℕ) (b : List ℕ) → count c b ≤ 1 → count c (insert d b) ≤ 1
count-insert c d b h = elim (Bool-cases (holds d b)) [
  | inl e ↦ rw e h
  | inr e ↦ rw e (ground (arith, count-holds d b, ==_iff d c))
]

length-insert_back : (d : ℕ) (bs : List (List ℕ)) → length (insert_back d bs) ≡ length bs
unfolding insert_back
length-insert_back d [] = refl
length-insert_back d (b ∷ []) = refl
length-insert_back d (b ∷ e ∷ bs) = ap suc (length-insert_back d (e ∷ bs))

insert_back-Once : (c d : ℕ) (bs : List (List ℕ)) → Once c bs → Once c (insert_back d bs)
unfolding insert_back
insert_back-Once c d [] o = o
insert_back-Once c d (b ∷ []) (o, os) = (count-insert c d b o, tt)
insert_back-Once c d (b ∷ e ∷ bs) (o, os) = (o, insert_back-Once c d (e ∷ bs) os)

insert_back-IsShaped :
    (size d : ℕ) (bs : List (List ℕ)) → IsShaped size bs → IsShaped size (insert_back d bs)
insert_back-IsShaped size d bs (n, o) =
    (length-insert_back d bs ∙ n, λ c. insert_back-Once c d bs (o c))

turned-IsShaped :
    (size : ℕ) (front : List ℕ) (rest : List (List ℕ))
    → IsShaped size (front ∷ rest)
    → IsShaped size (rest ++ ([] ∷ []))
turned-IsShaped size front rest (n, o) =
    (omega (arith, length-append rest ([] ∷ [])), λ c. Once-append c rest (o c).1)

push_bucket-IsShaped :
    (size d : ℕ) (w : Wheel) → IsShaped size w.buckets → IsShaped size (push_bucket d w).buckets
unfolding push_bucket
push_bucket-IsShaped size d w h = elim (Bool-cases (w.conn d)) [
  | inl e ↦ rw e (insert_back-IsShaped size d w.buckets h)
  | inr e ↦ rw e h
]

lock_entry-buckets : (d : ℕ) (w : Wheel) → (lock_entry d w).buckets ≡ w.buckets
unfolding lock_entry
lock_entry-buckets d w = elim (Bool-cases (alive d w)) [ inl e ↦ rw e refl | inr e ↦ rw e refl ]

on_timer-IsShaped :
    (size : ℕ) (w : Wheel) → IsShaped size w.buckets → IsShaped size (on_timer w).buckets
unfolding on_timer
on_timer-IsShaped size w h = go w.buckets h h
  where
    go :
        (bs : List (List ℕ))
        → IsShaped size bs
        → IsShaped size w.buckets
        → IsShaped size (
            let v : Wheel = elim bs [
              | [] ↦ w
              | front ∷ rest ↦ release_all front (record w { buckets = rest ++ ([] ∷ []) })
            ] in
            v.buckets)
    go [] k k' = k'
    go (front ∷ rest) k k' =
        rw (release_all-only_closings front (record w { buckets = rest ++ ([] ∷ []) }))
          (turned-IsShaped size front rest k)

-- Whatever happens in a loop, the wheel has as many buckets as before, and if no bucket had a
-- connection twice, none has.
pub happen-IsShaped :
    (size : ℕ) (h : Happening) (w : Wheel)
    → IsShaped size w.buckets
    → IsShaped size (happen h w).buckets
unfolding happen update_bucket push_bucket unlock_entry new_entry conn_gone
happen-IsShaped size ticks w k = on_timer-IsShaped size w k
happen-IsShaped size (updates d) w k = elim (Bool-cases (alive d w)) [
  | inl e ↦ rw e (push_bucket-IsShaped size d w k)
  | inr e ↦ rw e k
]
happen-IsShaped size (locks d) w k = rw (lock_entry-buckets d w) k
happen-IsShaped size (unlocks d) w k =
    rw (buckets-release d (record w { held = replace w.held d (w.held d - 1) })) k
happen-IsShaped size (goes d) w k = k
happen-IsShaped size (comes d t) w k =
    push_bucket-IsShaped size d
      (record w {
        entry = replace w.entry d (record { ty = t; locked = false });
        conn = replace w.conn d true;
      })
      k

pub run-IsShaped :
    (size : ℕ) (hs : List Happening) (w : Wheel)
    → IsShaped size w.buckets
    → IsShaped size (run hs w).buckets
unfolding run
run-IsShaped size [] w k = k
run-IsShaped size (h ∷ hs) w k = run-IsShaped size hs (happen h w) (happen-IsShaped size h w k)

pub empty_buckets-IsShaped : (size : ℕ) → IsShaped size (empty_buckets size)
empty_buckets-IsShaped zero = (refl, λ c. tt)
empty_buckets-IsShaped (suc size) =
    let (n, o) = empty_buckets-IsShaped size in (ap suc n, λ c. (omega arith, o c))
