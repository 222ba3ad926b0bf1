-- ===== src/SslIo/Writing.antt =====
-- What `SSL_write` has written when it returns.
use libwebsocket_component.Prelude.{
  ℕ, zero, suc, ◌+◌, ◌≤◌, ◌<◌, ◌≡◌, refl, ap, ◌∙◌, ◌⊎◌, inl, inr, arith, true, List, [], ◌∷◌, ◌++◌,
  append_assoc, ltb, ◌==◌, length, take, drop, take-append-drop, length-append, length-drop,
  Outcome, done, Option, none, some,
}
use libwebsocket_component.SocketIo.{Rc, count, minus_one}
use libwebsocket_component.SslIo.{SslWritten, ssl_write_loop, ssl_write}

SslRc-cases : (r : Rc) → (r ≡ minus_one) ⊎ ((n : ℕ) × (r ≡ count n))
SslRc-cases minus_one = inl refl
SslRc-cases (count n) = inr (n, refl)

more_left : (bs : List ℕ) → ltb 0 (suc (length bs)) ≡ true
more_left bs = ground arith

above_zero : (n : ℕ) → ltb 0 (suc n) ≡ true
above_zero n = ground arith

no_error : {n : ℕ} → n ≡ 0 → (n == 0) ≡ true
no_error h = ground arith

module _ (write : ℕ → List ℕ → Rc × ℕ) where
  -- OpenSSL takes no more octets than it is given, and has no error to tell when it takes some.
  abbrev pub Keeps : Type 0
  Keeps =
      (k : ℕ) (octets : List ℕ) (rc : ℕ)
      → (write k octets).0 ≡ count rc
      → (rc ≤ length octets) × (0 < rc → (write k octets).1 ≡ 0)

  -- The error that is saved is that of a call which took nothing.
  abbrev pub Told : ℕ → Type 0
  Told error =
      (k : ℕ) × (octets : List ℕ) × (((write k octets).0 ≡ minus_one)
        ⊎ ((write k octets).0 ≡ count 0))
      × ((write k octets).1 ≡ error)

  -- All is written and no error is saved, or the error of a call that took nothing is.
  abbrev pub Reported : List ℕ → Option ℕ → Type 0
  Reported rest saved =
      ((rest ≡ []) × (saved ≡ none)) ⊎ ((error : ℕ) × (saved ≡ some error) × Told error)

  abbrev SslEnds : List ℕ → SslWritten → Outcome SslWritten → Type 0
  SslEnds left w r =
      (v : SslWritten) × (rest : List ℕ) × (r ≡ done v)
      × (v.sent ++ rest ≡ w.sent ++ left)
      × (v.n + length rest ≡ w.n + length left)
      × Reported rest v.saved_errno

  ssl_write_loop-SslEnds :
      (fuel call : ℕ) (left : List ℕ) (w : SslWritten)
      → Keeps
      → w.saved_errno ≡ none
      → length left < fuel
      → SslEnds left w (ssl_write_loop write fuel call left w)
  unfolding ssl_write_loop
  ssl_write_loop-SslEnds zero call left w h s k = absurd (omega arith)
  ssl_write_loop-SslEnds (suc fuel) call [] w h s k = (w, [], refl, refl, refl, inl (refl, s))
  ssl_write_loop-SslEnds (suc fuel) call (b ∷ bs) w h s k =
      elim (SslRc-cases (write call (b ∷ bs)).0) [
        | inl e ↦
            rw (more_left bs, e, ssl_write_loop)
              (
                record w { saved_errno = some (write call (b ∷ bs)).1 },
                b ∷ bs,
                refl,
                refl,
                refl,
                inr (_, refl, (call, b ∷ bs, inl e, refl)),
              )
        | inr (zero, e) ↦
            rw (more_left bs, e, ssl_write_loop)
              (
                record w { saved_errno = some (write call (b ∷ bs)).1 },
                b ∷ bs,
                refl,
                refl,
                refl,
                inr (_, refl, (call, b ∷ bs, inr e, refl)),
              )
        | inr (suc rc, e) ↦
            (let taken : ℕ = suc rc in
              let next : SslWritten = record w {
                n = w.n + taken;
                sent = w.sent ++ take taken (b ∷ bs);
              } in
              let (few, quiet) = h call (b ∷ bs) taken e in
              let (v, rest, run, es, en, st) =
                ssl_write_loop-SslEnds fuel (suc call) (drop taken (b ∷ bs)) next h s
                  (omega (arith, length-drop taken (b ∷ bs))) in
              rw (more_left bs, e, above_zero rc, no_error (quiet (omega arith)), ssl_write_loop)
                (
                  v,
                  rest,
                  run,
                  es
                      ∙ append_assoc w.sent (take taken (b ∷ bs)) (drop taken (b ∷ bs))
                      ∙ ap (◌++◌ w.sent) (take-append-drop taken (b ∷ bs)),
                  omega (arith, en, length-drop taken (b ∷ bs)),
                  st,
                ))
      ]

  -- `SSL_write` returns, and no assertion of it fails, when OpenSSL keeps to its contract. The
  -- number that it returns is that of the octets which OpenSSL has taken, these are the front of the
  -- data, and either they are all of it and no error is saved, or the error that is saved is that of
  -- a call which took nothing.
  pub ssl_write-Reported :
      (octets : List ℕ)
      → Keeps
      → (v : SslWritten) × (rest : List ℕ) × (ssl_write write octets ≡ done v)
        × (v.sent ++ rest ≡ octets)
        × (v.n ≡ length v.sent)
        × Reported rest v.saved_errno
  unfolding ssl_write
  ssl_write-Reported octets h =
      let (v, rest, run, es, en, st) =
        ssl_write_loop-SslEnds (suc (length octets)) 0 octets
          (record { n = 0; saved_errno = none; sent = [] }) h refl (omega arith) in
      (v, rest, run, es, omega (arith, en, ap length es, length-append v.sent rest), st)
