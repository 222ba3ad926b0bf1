-- ===== src/SocketIo/Writing.antt =====
-- What `writeFull` has written when it returns.
use libwebsocket_component.Prelude.{
  ℕ, zero, suc, ◌+◌, ◌≤◌, ◌<◌, ◌≡◌, refl, ap, ◌∙◌, ◌⊎◌, inl, inr, arith, true, List, [], ◌∷◌, ◌++◌,
  append_assoc, ltb, length, take, drop, take-append-drop, length-append, length-drop, length-take,
  concat, append-nil, sym, Outcome, done,
}
use libwebsocket_component.SocketIo.{Rc, count, minus_one, Written, write_loop, write_full}

Rc-cases : (r : Rc) → (r ≡ minus_one) ⊎ ((n : ℕ) × (r ≡ count n))
Rc-cases minus_one = inl refl
Rc-cases (count n) = inr (n, refl)

some_left : (bs : List ℕ) → ltb 0 (suc (length bs)) ≡ true
some_left bs = ground arith

positive : (n : ℕ) → ltb 0 (suc n) ≡ true
positive n = ground arith

module _ (write : ℕ → List ℕ → Rc) where
  -- write(2) reports no more octets than it was given.
  abbrev pub Honest : Type 0
  Honest = (k : ℕ) (octets : List ℕ) (rc : ℕ) → write k octets ≡ count rc → rc ≤ length octets

  -- What calls number `k` and on have been: each is given all that is left and takes the next part of
  -- it, until nothing is left or a call returns 0 or -1. The saved value is that of the last call, or
  -- as before if there was none.
  unfoldable pub Writes : ℕ → List (List ℕ) → List ℕ → Rc → Rc → Type 0
  Writes k [] rest before after =
      ((rest ≡ []) × (after ≡ before))
      ⊎ ((0 < length rest) × (write k rest ≡ after) × ((after ≡ minus_one) ⊎ (after ≡ count 0)))
  Writes k (part ∷ parts) rest before after =
      (0 < length part)
      × (write k (part ++ (concat parts ++ rest)) ≡ count (length part))
      × Writes (suc k) parts rest (count (length part)) after

  abbrev Ends : ℕ → List ℕ → Written → Outcome Written → Type 0
  Ends call left w r =
      (v : Written) × (parts : List (List ℕ)) × (rest : List ℕ) × (r ≡ done v)
      × (concat parts ++ rest ≡ left)
      × (v.sent ≡ w.sent ++ concat parts)
      × (v.n ≡ w.n + length (concat parts))
      × Writes call parts rest w.saved_errno v.saved_errno

  write_loop-Ends :
      (fuel call : ℕ) (left : List ℕ) (w : Written)
      → Honest
      → length left < fuel
      → Ends call left w (write_loop write fuel call left w)
  unfolding write_loop Writes
  write_loop-Ends zero call left w h k = absurd (omega arith)
  write_loop-Ends (suc fuel) call [] w h k =
      (w, [], [], refl, refl, sym (append-nil w.sent), omega arith, inl (refl, refl))
  write_loop-Ends (suc fuel) call (b ∷ bs) w h k = elim (Rc-cases (write call (b ∷ bs))) [
    | inl e ↦
        rw (some_left bs, e, write_loop)
          (
            record w { saved_errno = minus_one },
            [],
            b ∷ bs,
            refl,
            refl,
            sym (append-nil w.sent),
            omega arith,
            inr (omega arith, e, inl refl),
          )
    | inr (zero, e) ↦
        rw (some_left bs, e, write_loop)
          (
            record w { saved_errno = count 0 },
            [],
            b ∷ bs,
            refl,
            refl,
            sym (append-nil w.sent),
            omega arith,
            inr (omega arith, e, inr refl),
          )
    | inr (suc rc, e) ↦
        (let taken : ℕ = suc rc in
          let part : List ℕ = take taken (b ∷ bs) in
          let next : Written = record {
            n = w.n + taken;
            saved_errno = count taken;
            sent = w.sent ++ part;
          } in
          let few = h call (b ∷ bs) taken e in
          let full : length part ≡ taken = omega (arith, length-take taken (b ∷ bs)) in
          let (v, parts, rest, run, es, ev, en, ws) =
            write_loop-Ends fuel (suc call) (drop taken (b ∷ bs)) next h
              (omega (arith, length-drop taken (b ∷ bs))) in
          let whole : part ++ (concat parts ++ rest) ≡ b ∷ bs =
            ap (◌++◌ part) es ∙ take-append-drop taken (b ∷ bs) in
          rw (some_left bs, e, positive rc, write_loop)
            (
              v,
              part ∷ parts,
              rest,
              run,
              append_assoc part (concat parts) rest ∙ whole,
              ev ∙ append_assoc w.sent part (concat parts),
              omega (arith, en, full, length-append part (concat parts)),
              (omega (arith, full), rw (whole, full) e, rw full ws),
            ))
  ]

  -- `writeFull` returns when write(2) keeps to its contract. What it has written are the parts that
  -- its calls of write(2) have taken, one after the other, each call being given all that was left;
  -- it stops when nothing is left, or at the first call that returned 0 or -1, which is what is saved.
  -- The parts are the front of the data, and the number that it returns is that of their octets.
  pub write_full-Writes :
      (octets : List ℕ) (saved : Rc)
      → Honest
      → (v : Written) × (parts : List (List ℕ)) × (rest : List ℕ) × (write_full write octets saved
          ≡ done v)
        × (concat parts ++ rest ≡ octets)
        × (v.sent ≡ concat parts)
        × (v.n ≡ length (concat parts))
        × Writes 0 parts rest saved v.saved_errno
  unfolding write_full
  write_full-Writes octets saved h =
      let (v, parts, rest, run, es, ev, en, ws) =
        write_loop-Ends (suc (length octets)) 0 octets
          (record { n = 0; saved_errno = saved; sent = [] }) h (omega arith) in
      (v, parts, rest, run, es, ev, omega (arith, en), ws)
