-- ===== src/SocketIo/Reading.antt =====
-- What `readFull` has read when it returns.
use libwebsocket_component.Prelude.{
  ℕ, zero, suc, ◌+◌, ◌-◌, ◌≤◌, ◌<◌, ◌≡◌, refl, sym, ◌∙◌, ◌⊎◌, inl, inr, arith, true, List, [], ◌∷◌,
  ◌++◌, append-nil, append_assoc, ltb, leb, length, length-append, concat, Outcome, done,
}
use libwebsocket_component.SocketIo.{
  Rc, count, minus_one, Received, received, read_fails, Space, ReadState, writable_space, read_loop,
  read_full,
}

Received-cases : (r : Received) → (r ≡ read_fails) ⊎ ((octets : List ℕ) × (r ≡ received octets))
Received-cases read_fails = inl refl
Received-cases (received octets) = inr (octets, refl)

some_read : (bs : List ℕ) → ltb 0 (suc (length bs)) ≡ true
some_read bs = ground arith

room_left : {n room : ℕ} → n ≤ room → leb n room ≡ true
room_left h = ground arith

module _ (read : ℕ → ℕ → Received) (ensure_writable_bytes : ℕ → Space → ℕ) where
  -- read(2) gives no more octets than it has room for.
  abbrev pub Fitting : Type 0
  Fitting = (k room : ℕ) (octets : List ℕ) → read k room ≡ received octets → length octets ≤ room

  -- Call number `k` finds nothing to read.
  abbrev pub Dry : ℕ → Type 0
  Dry k = (room : ℕ) → (read k room ≡ read_fails) ⊎ (read k room ≡ received [])

  -- The call that finds nothing is not one that reads an octet.
  later :
      (call last b : ℕ) (bs : List ℕ) (room : ℕ)
      → Dry last
      → call ≤ last
      → read call room ≡ received (b ∷ bs)
      → suc call ≤ last
  later call last b bs room d k e = elim (d room) [
    | inl dry ↦ ground arith
    | inr dry ↦ ground arith
  ]

  -- What calls number `k` and on have been: each has the room behind the octets of the buffer and
  -- gives the next part, until a call fails or gives nothing, and that is saved.
  unfoldable pub Reads : ℕ → List (List ℕ) → Space → Rc → Type 0
  Reads k [] s after =
      ((read k (writable_space read ensure_writable_bytes s) ≡ read_fails) × (after ≡ minus_one))
      ⊎ ((read k (writable_space read ensure_writable_bytes s) ≡ received []) × (after ≡ count 0))
  Reads k (part ∷ parts) s after =
      (0 < length part)
      × (read k (writable_space read ensure_writable_bytes s) ≡ received part)
      × Reads (suc k) parts
          (record {
            readable = s.readable ++ part;
            writable = writable_space read ensure_writable_bytes s - length part;
          })
          after

  abbrev Adds : ℕ → ReadState → Outcome ReadState → Type 0
  Adds call s r =
      (t : ReadState) × (parts : List (List ℕ)) × (r ≡ done t)
      × (t.space.readable ≡ s.space.readable ++ concat parts)
      × (t.n ≡ s.n + length (concat parts))
      × Reads call parts s.space t.saved_errno

  read_loop-Adds :
      (fuel call last : ℕ) (s : ReadState)
      → Fitting
      → Dry last
      → call ≤ last
      → last < call + fuel
      → Adds call s (read_loop read ensure_writable_bytes fuel call s)
  unfolding read_loop Reads
  read_loop-Adds zero call last s h d k m = absurd (omega arith)
  read_loop-Adds (suc fuel) call last s h d k m =
      let room : ℕ = writable_space read ensure_writable_bytes s.space in
      elim (Received-cases (read call room)) [
        | inl e ↦
            rw (e, read_loop)
              (_, [], refl, sym (append-nil s.space.readable), omega arith, inl (e, refl))
        | inr ([], e) ↦
            rw (e, read_loop)
              (_, [], refl, sym (append-nil s.space.readable), omega arith, inr (e, refl))
        | inr (b ∷ bs, e) ↦
            (let next : ReadState = record {
              n = s.n + length (b ∷ bs);
              saved_errno = count (length (b ∷ bs));
              space = record {
                readable = s.space.readable ++ (b ∷ bs);
                writable = room - length (b ∷ bs);
              };
            } in
              let fits = h call _ (b ∷ bs) e in
              let (t, parts, run, es, en, rs) =
                read_loop-Adds fuel (suc call) last next h d (later call last b bs room d k e)
                  (omega arith) in
              rw (e, some_read bs, room_left fits, read_loop)
                (
                  t,
                  (b ∷ bs) ∷ parts,
                  run,
                  es ∙ append_assoc s.space.readable (b ∷ bs) (concat parts),
                  omega (arith, en, length-append (b ∷ bs) (concat parts)),
                  (omega arith, e, rs),
                ))
      ]

  -- `readFull` on a socket that runs dry at some call, with read(2) keeping to its contract: it
  -- returns; it has called read(2), each time with the room that the buffer then had, up to the first
  -- call that failed or gave nothing, which is what it saves; the parts that the calls gave are added
  -- in this order at the end of the buffer, and the number that it returns is that of their octets.
  pub read_full-Reads :
      (last : ℕ) (space : Space) (saved : Rc)
      → Fitting
      → Dry last
      → (t : ReadState) × (parts : List (List ℕ)) × (read_full read ensure_writable_bytes
            (suc last)
            space
            saved
          ≡ done t)
        × (t.space.readable ≡ space.readable ++ concat parts)
        × (t.n ≡ length (concat parts))
        × Reads 0 parts space t.saved_errno
  unfolding read_full
  read_full-Reads last space saved h d =
      let (t, parts, run, es, en, rs) =
        read_loop-Adds (suc last) 0 last (record { n = 0; saved_errno = saved; space = space }) h d
          (omega arith) (omega arith) in
      (t, parts, run, es, omega (arith, en), rs)
