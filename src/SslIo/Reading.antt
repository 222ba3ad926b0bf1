-- ===== src/SslIo/Reading.antt =====
-- What `SSL_read` has read when it returns.
use libwebsocket_component.Prelude.{
  ℕ, zero, suc, ◌+◌, ◌-◌, ◌≤◌, ◌<◌, ◌≡◌, refl, sym, ◌∙◌, ◌⊎◌, inl, inr, arith, true, List, [], ◌∷◌,
  ◌++◌, append-nil, append_assoc, ltb, leb, ◌==◌, length, length-append, concat, ap, Outcome,
  Option, some, done, none,
}
use libwebsocket_component.SocketIo.{Received, received, read_fails, Space}
use libwebsocket_component.SslIo.{
  SslReadState, SslResult, room_for, head_room, took, make_room, save, ssl_read_loop, ssl_read,
}

SslReceived-cases : (r : Received) → (r ≡ read_fails) ⊎ ((octets : List ℕ) × (r ≡ received octets))
SslReceived-cases read_fails = inl refl
SslReceived-cases (received octets) = inr (octets, refl)

positive-cases : (n : ℕ) → (n ≡ 0) ⊎ (ltb 0 n ≡ true)
positive-cases zero = inl refl
positive-cases (suc n) = inr (ground arith)

octets_read : (bs : List ℕ) → ltb 0 (suc (length bs)) ≡ true
octets_read bs = ground arith

fit : {n room : ℕ} → n ≤ room → leb n room ≡ true
fit h = ground arith

equal_zero : {n : ℕ} → n ≡ 0 → (n == 0) ≡ true
equal_zero h = ground arith

module _ (read : ℕ → ℕ → SslResult) (ensure_writable_bytes : ℕ → Space → ℕ) where
  -- OpenSSL gives no more octets than it has room for and has no error to tell when it gives some;
  -- when it gives none, nothing is pending.
  abbrev pub Orderly : Type 0
  Orderly =
      (k room : ℕ) (octets : List ℕ)
      → (read k room).result ≡ received octets
      → (length octets ≤ room)
        × (0 < length octets → (read k room).error ≡ 0)
        × (octets ≡ [] → (read k room).pending ≡ 0)

  -- After call number `k` nothing is pending, or it has failed.
  abbrev pub Drained : ℕ → Type 0
  Drained k = (room : ℕ) → ((read k room).result ≡ read_fails) ⊎ ((read k room).pending ≡ 0)

  still_pending :
      (call last b : ℕ) (bs : List ℕ) (room : ℕ)
      → Drained last
      → call ≤ last
      → (read call room).result ≡ received (b ∷ bs)
      → ltb 0 (read call room).pending ≡ true
      → suc call ≤ last
  still_pending call last b bs room d k e p = elim (d room) [
    | inl dry ↦ ground arith
    | inr dry ↦ ground arith
  ]

  -- What calls number `k` and on have been: each has the room behind the octets of the buffer and
  -- gives the next part; the next call is made when more is pending, for which there is then room.
  -- They end when nothing more is pending, or at a call that gives nothing, whose error is saved.
  unfoldable pub SslReads : ℕ → List (List ℕ) → Space → Option ℕ → Type 0
  SslReads k [] s after =
      let r : SslResult = read k (head_room read ensure_writable_bytes s) in
      (after ≡ some r.error) × ((r.result ≡ read_fails) ⊎ (r.result ≡ received []))
  SslReads k (part ∷ parts) s after =
      let room : ℕ = head_room read ensure_writable_bytes s in
      let r : SslResult = read k room in
      (0 < length part)
      × (r.result ≡ received part)
      × (((r.pending ≡ 0) × (parts ≡ []) × (after ≡ none))
          ⊎ ((0 < r.pending)
              × SslReads (suc k) parts
                  (record {
                    readable = s.readable ++ part;
                    writable =
                        room_for read ensure_writable_bytes r.pending
                          (record { readable = s.readable ++ part; writable = room - length part });
                  })
                  after))

  abbrev SslAdds : ℕ → SslReadState → Outcome SslReadState → Type 0
  SslAdds call s r =
      (t : SslReadState) × (parts : List (List ℕ)) × (r ≡ done t)
      × (t.space.readable ≡ s.space.readable ++ concat parts)
      × (t.n ≡ s.n + length (concat parts))
      × SslReads call parts s.space t.saved_errno

  ssl_read_loop-SslAdds :
      (fuel call last : ℕ) (s : SslReadState)
      → Orderly
      → Drained last
      → s.saved_errno ≡ none
      → call ≤ last
      → last < call + fuel
      → SslAdds call s (ssl_read_loop read ensure_writable_bytes fuel call s)
  unfolding ssl_read_loop took save make_room SslReads
  ssl_read_loop-SslAdds zero call last s h d sv k m = absurd (omega arith)
  ssl_read_loop-SslAdds (suc fuel) call last s h d sv k m =
      let room : ℕ = head_room read ensure_writable_bytes s.space in
      elim (SslReceived-cases (read call room).result) [
        | inl e ↦
            rw (e, ssl_read_loop)
              (_, [], refl, sym (append-nil s.space.readable), omega arith, (refl, inl e))
        | inr ([], e) ↦
            rw (e, equal_zero ((h call room [] e).2 refl), ssl_read_loop)
              (_, [], refl, sym (append-nil s.space.readable), omega arith, (refl, inr e))
        | inr (b ∷ bs, e) ↦
            (let (fits, quiet, gone) = h call room (b ∷ bs) e in
              let silent = equal_zero (quiet (omega arith)) in
              elim (positive-cases (read call room).pending) [
                | inl p ↦
                    rw (e, octets_read bs, silent, fit fits, p, ssl_read_loop)
                      (
                        took read ensure_writable_bytes (b ∷ bs) room s,
                        (b ∷ bs) ∷ [],
                        refl,
                        ap (◌++◌ s.space.readable) (sym (append-nil (b ∷ bs))),
                        omega (arith, length-append (b ∷ bs) []),
                        (omega arith, e, inl (p, refl, sv)),
                      )
                | inr p ↦
                    (let (t, parts, run, es, en, sa) =
                        ssl_read_loop-SslAdds fuel (suc call) last
                          (make_room read ensure_writable_bytes (read call room).pending
                            (took read ensure_writable_bytes (b ∷ bs) room s))
                          h d sv (still_pending call last b bs room d k e p) (omega arith) in
                      rw (e, octets_read bs, silent, fit fits, p, ssl_read_loop)
                        (
                          t,
                          (b ∷ bs) ∷ parts,
                          run,
                          es ∙ append_assoc s.space.readable (b ∷ bs) (concat parts),
                          omega (arith, en, length-append (b ∷ bs) (concat parts)),
                          (omega arith, e, inr (ground arith, sa)),
                        ))
              ])
      ]

  -- `SSL_read` on a connection that has nothing pending after some call, or whose call fails, with
  -- OpenSSL keeping to its contract: it returns and no assertion of it fails. It has called OpenSSL,
  -- each time with the room that the buffer then had, and again exactly while more was pending, up to
  -- the first call that gave nothing, whose error is saved; without such a call none is. The parts
  -- that the calls gave are added in this order at the end of the buffer, and the number that it
  -- returns is that of their octets.
  pub ssl_read-SslReads :
      (last : ℕ) (space : Space)
      → Orderly
      → Drained last
      → (t : SslReadState) × (parts : List (List ℕ)) × (ssl_read read ensure_writable_bytes
            (suc last)
            space
          ≡ done t)
        × (t.space.readable ≡ space.readable ++ concat parts)
        × (t.n ≡ length (concat parts))
        × SslReads 0 parts space t.saved_errno
  unfolding ssl_read
  ssl_read-SslReads last space h d =
      let (t, parts, run, es, en, sa) =
        ssl_read_loop-SslAdds (suc last) 0 last
          (record { n = 0; saved_errno = none; space = space }) h d refl (omega arith)
          (omega arith) in
      (t, parts, run, es, omega (arith, en), sa)
