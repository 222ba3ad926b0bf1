-- ===== src/Session/Segments/Rounds.antt =====
-- The loop from any point of the input to the point at which the input breaks off.
use libwebsocket_component.Prelude.{
  ℕ, zero, suc, ◌-◌, ◌≤◌, ◌<◌, ◌≡◌, refl, ap, ◌∙◌, arith, Bool, true, false, ◌&&◌, ◌||◌, inl, inr,
  List, ◌∷◌, ◌++◌, ltb, length, Bool-cases, Option, Outcome, done, ◌>>=◌,
}
use native.Mathlib.Decide.{dec_lt}
use libwebsocket_component.Frame.{FrameControlE}
use libwebsocket_component.Context.{Connection}
use libwebsocket_component.Parser.{parse_step, parse_loop}
use libwebsocket_component.Parser.Loop.{parse_loop_stop, parse_loop_round}
use libwebsocket_component.Session.{ClientFrame, wire_all, Session, receive, FitsAll, connection}
use libwebsocket_component.Session.Segments.{
  Place, at_u16, at_i64, at_key, at_payload, step_at, left, need, HasPlace, Safe, Point, between,
  inside, left_at, final, Sound, Waits, within, point_at,
}
use libwebsocket_component.Session.Segments.Steps.{parse_step-waits, Handled}

module _ {H : Type 0} (http : Option H) where
  -- For all fuels from some on, the loop ends at a point where the input has broken off, with the
  -- same octets still to come and the same session at the end.
  abbrev pub Drained : Point → List ℕ → (ℕ → Outcome (Connection H)) → Type 0
  Drained p c loop =
      (q : Point) × (a : List ℕ) × (n : ℕ) × ((fuel : ℕ)
        → n ≤ fuel
        → loop fuel ≡ done (point_at http q a))
      × (a ++ c ≡ left_at q)
      × (final q ≡ final p)
      × Sound q
      × Waits q a

  pub stop :
      (fuel : ℕ) (ty : FrameControlE) (e : Bool) (s : Connection H)
      → 1 ≤ fuel
      → (e && ltb 0 (length s.buf)) ≡ false
      → parse_loop fuel ty e s ≡ done s
  stop zero ty e s h k = absurd (omega arith)
  stop (suc fuel) ty e s h k = parse_loop_stop fuel ty e s k

  pub round :
      (fuel : ℕ) (ty : FrameControlE) (s : Connection H)
      → 1 ≤ fuel
      → ltb 0 (length s.buf) ≡ true
      → parse_loop fuel ty true s
        ≡ (parse_step ty s.context.step s >>= λ (e, t). parse_loop (fuel - 1) ty e t)
  round zero ty s h k = absurd (omega arith)
  round (suc fuel) ty s h k =
      let less : fuel ≡ suc fuel - 1 = omega arith in
      parse_loop_round fuel ty true s k
      ∙ ap (λ m. parse_step ty s.context.step s >>= λ (e, t). parse_loop m ty e t) less

  pub waits_loop :
      (ty : FrameControlE) (pl : Place) (f : ClientFrame) (σ : Session) (a : List ℕ) (fuel : ℕ)
      → 2 ≤ fuel
      → HasPlace pl (length f.payload)
      → Safe ty pl (length f.payload)
      → length a < need pl f
      → parse_loop fuel ty true (within http pl f σ a) ≡ done (within http pl f σ a)
  waits_loop ty pl f σ a fuel hn hp hs h = elim (Bool-cases (ltb 0 (length a))) [
    | inr empty ↦ stop fuel ty true (within http pl f σ a) (omega arith) empty
    | inl go ↦
        round fuel ty (within http pl f σ a) (omega arith) go
        ∙ rw (parse_step-waits http ty pl f σ a hp hs h)
            (stop (fuel - 1) ty false (within http pl f σ a) (omega arith) refl)
  ]

  Safe-short :
      (ty : FrameControlE) (pl : Place) (f : ClientFrame)
      → length f.payload < 126
      → Safe ty pl (length f.payload)
  Safe-short ty pl f h = ground arith

  -- After a step inside a frame the loop goes on; `b` says that the result of the step is dropped.
  pub Handled-loop :
      (ty : FrameControlE) (b : Bool) (pl : Place) (f : ClientFrame) (σ : Session)
      (fs : List ClientFrame) (c : List ℕ) (r : Outcome (Bool × Connection H))
      → FitsAll (f ∷ fs) σ
      → (b ≡ true → length f.payload < 126)
      → ((rest : List ℕ)
          → rest ++ c ≡ wire_all fs
          → Drained
              (between (receive f σ) fs)
              c
              (λ fuel. parse_loop fuel ty true (connection http (receive f σ) rest)))
      → Handled http f σ fs c r
      → Drained (inside pl f σ fs) c (λ fuel. r >>= λ (e, t). parse_loop fuel ty (b || e) t)
  Handled-loop ty true pl f σ fs c r hf hb ih (inl (pl', a, e, hp, few, ea)) = (
    inside pl' f σ fs,
    a,
    2,
    (λ fuel hn. rw e (waits_loop ty pl' f σ a fuel hn hp (Safe-short ty pl' f (hb refl)) few)),
    ea,
    refl,
    (hp, hf),
    few,
  )
  Handled-loop ty false pl f σ fs c r hf hb ih (inl (pl', a, e, hp, few, ea)) = (
    inside pl' f σ fs,
    a,
    1,
    (λ fuel hn. rw e (stop fuel ty false (within http pl' f σ a) hn refl)),
    ea,
    refl,
    (hp, hf),
    few,
  )
  Handled-loop ty true pl f σ fs c r hf hb ih (inr (rest, e, er)) =
      let (q, a, n, run, ea, fin, so, wa) = ih rest er in
      (q, a, n, (λ fuel hn. rw e (run fuel hn)), ea, fin, so, wa)
  Handled-loop ty false pl f σ fs c r hf hb ih (inr (rest, e, er)) =
      let (q, a, n, run, ea, fin, so, wa) = ih rest er in
      (q, a, n, (λ fuel hn. rw e (run fuel hn)), ea, fin, so, wa)

  occupied :
      (pl : Place) (f : ClientFrame) (a : List ℕ)
      → HasPlace pl (length f.payload)
      → (length a < need pl f → ⊥)
      → ltb 0 (length a) ≡ false
      → ⊥
  occupied at_u16 f a hp h k = ground arith
  occupied at_i64 f a hp h k = ground arith
  occupied at_key f a hp h k = ground arith
  occupied at_payload f a hp h k = ground arith

  -- The loop at a place, with the step that it makes there, for a loop with one fuel less.
  pub step_loop :
      (ty : FrameControlE) (pl : Place) (f : ClientFrame) (σ : Session) (fs : List ClientFrame)
      (a c : List ℕ)
      → FitsAll (f ∷ fs) σ
      → HasPlace pl (length f.payload)
      → Safe ty pl (length f.payload)
      → a ++ c ≡ left pl f (wire_all fs)
      → Drained (inside pl f σ fs) c (λ fuel.
        parse_step ty (step_at pl f) (within http pl f σ a) >>= λ (e, t). parse_loop fuel ty e t)
      → Drained (inside pl f σ fs) c (λ fuel. parse_loop fuel ty true (within http pl f σ a))
  step_loop ty pl f σ fs a c hf hp hs ea (q, b, n, run, eb, fin, so, wa) =
      elim (dec_lt (length a) (need pl f)) [
        | yes few ↦ (
          inside pl f σ fs,
          a,
          2,
          (λ fuel hn. waits_loop ty pl f σ a fuel hn hp hs few),
          ea,
          refl,
          (hp, hf),
          few,
        )
        | no enough ↦ elim (Bool-cases (ltb 0 (length a))) [
          | inr empty ↦ absurd (occupied pl f a hp enough empty)
          | inl go ↦ (
            q,
            b,
            suc n,
            (λ fuel hn.
                round fuel ty (within http pl f σ a) (omega arith) go
                ∙ run (fuel - 1) (omega arith)),
            eb,
            fin,
            so,
            wa,
          )
        ]
      ]
