-- ===== src/Session/Segments/Frames.antt =====
-- The loop from the start of a frame, or from its key, to the point at which the input breaks off.
use libwebsocket_component.Prelude.{
  ℕ, suc, ◌+◌, ◌-◌, ◌≤◌, ◌<◌, ◌≡◌, refl, ◌∙◌, arith, Bool, true, false, ◌||◌, inl, inr, List, [],
  ◌∷◌, ◌++◌, ltb, lt→ltb, le→not-ltb, length, append-split, Bool-cases, Option, Outcome, done,
  ◌>>=◌,
}
use native.Mathlib.Decide.{dec_lt}
use libwebsocket_component.Frame.{FrameControlE}
use libwebsocket_component.Context.{Connection}
use libwebsocket_component.Parser.{
  parse_frame_read_extended_payloadlen_u16, parse_frame_read_extended_payloadlen_i64,
  parse_frame_read_frame_header, parse_step, parse_loop,
}
use libwebsocket_component.Session.{
  ClientFrame, wire, wire_all, Session, receive, FitsAll, connection,
}
use libwebsocket_component.Session.Segments.{
  Place, at_u16, at_i64, at_key, left, HasPlace, Safe, between, inside, within,
}
use libwebsocket_component.Session.Segments.Steps.{key-Handled}
use libwebsocket_component.Session.Segments.Lengths.{
  first, dropped, dropped_loop, header_short, header_u16, header_i64, Begun, u16-Begun, i64-Begun,
}
use libwebsocket_component.Session.Segments.Rounds.{
  Drained, stop, round, waits_loop, Handled-loop, step_loop,
}

module _ {H : Type 0} (http : Option H) where
  -- What the loop does with the frames after one that is complete.
  abbrev pub After : FrameControlE → ClientFrame → Session → List ClientFrame → List ℕ → Type 0
  After ty f σ fs c =
      (rest : List ℕ)
      → rest ++ c ≡ wire_all fs
      → Drained http (between (receive f σ) fs) c
          (λ fuel. parse_loop fuel ty true (connection http (receive f σ) rest))

  pub key_loop :
      (ty : FrameControlE) (f : ClientFrame) (σ : Session) (fs : List ClientFrame) (a c : List ℕ)
      → FitsAll (f ∷ fs) σ
      → After ty f σ fs c
      → a ++ c ≡ left at_key f (wire_all fs)
      → Drained http
          (inside at_key f σ fs)
          c
          (λ fuel. parse_loop fuel ty true (within http at_key f σ a))
  unfolding parse_step
  key_loop ty f σ fs a c hf ih e = step_loop http ty at_key f σ fs a c hf tt tt e (
      Handled-loop http ty false at_key f σ fs c _ hf (λ q. cc) ih
        (key-Handled http f σ fs a c hf.0 hf.1 e))

  pub Begun-loop :
      (ty : FrameControlE) (b : Bool) (pl : Place) (f : ClientFrame) (σ : Session)
      (fs : List ClientFrame) (c : List ℕ) (r : Outcome (Bool × Connection H))
      → FitsAll (f ∷ fs) σ
      → HasPlace pl (length f.payload)
      → Safe ty pl (length f.payload)
      → After ty f σ fs c
      → Begun http pl f σ fs c r
      → Drained http (inside pl f σ fs) c (λ fuel. r >>= λ (e, t). parse_loop fuel ty (b || e) t)
  Begun-loop ty true pl f σ fs c r hf hp hs ih (inl (a, e, few, ea)) = (
    inside pl f σ fs,
    a,
    2,
    (λ fuel hn. rw e (waits_loop http ty pl f σ a fuel hn hp hs few)),
    ea,
    refl,
    (hp, hf),
    few,
  )
  Begun-loop ty false pl f σ fs c r hf hp hs ih (inl (a, e, few, ea)) = (
    inside pl f σ fs,
    a,
    1,
    (λ fuel hn. rw e (stop http fuel ty false (within http pl f σ a) hn refl)),
    ea,
    refl,
    (hp, hf),
    few,
  )
  Begun-loop ty true pl f σ fs c r hf hp hs ih (inr (a, e, ea)) =
      let (q, b, n, run, ea', fin, so, wa) = key_loop ty f σ fs a c hf ih ea in
      (q, b, n, (λ fuel hn. rw e (run fuel hn)), ea', fin, so, wa)
  Begun-loop ty false pl f σ fs c r hf hp hs ih (inr (a, e, ea)) =
      let (q, b, n, run, ea', fin, so, wa) = key_loop ty f σ fs a c hf ih ea in
      (q, b, n, (λ fuel hn. rw e (run fuel hn)), ea', fin, so, wa)

  between_waits :
      (ty : FrameControlE) (σ : Session) (a : List ℕ) (fuel : ℕ)
      → 2 ≤ fuel
      → length a < 2
      → parse_loop fuel ty true (connection http σ a) ≡ done (connection http σ a)
  unfolding parse_step parse_frame_read_frame_header
  between_waits ty σ a fuel hn h = elim (Bool-cases (ltb 0 (length a))) [
    | inr empty ↦ stop http fuel ty true (connection http σ a) (omega arith) empty
    | inl go ↦
        round http fuel ty (connection http σ a) (omega arith) go
        ∙ rw (lt→ltb _ _ h) (stop http (fuel - 1) ty false (connection http σ a) (omega arith) refl)
  ]

  -- The first round at a frame, given its first two octets `x` and `y` and what the step comes to.
  first_round :
      (ty : FrameControlE) (pl : Place) (f : ClientFrame) (σ : Session) (fs : List ClientFrame)
      (c a : List ℕ) (x y : ℕ) (r : Outcome (Bool × Connection H))
      → parse_frame_read_frame_header (connection http σ (x ∷ y ∷ a)) ≡ dropped http r
      → Drained http (inside pl f σ fs) c (λ fuel. r >>= λ (e, t). parse_loop fuel ty true t)
      → Drained http
          (inside pl f σ fs)
          c
          (λ fuel. parse_loop fuel ty true (connection http σ (x ∷ y ∷ a)))
  unfolding parse_step
  first_round ty pl f σ fs c a x y r h (q, b, n, run, ea, fin, so, wa) = (
    q,
    b,
    suc n,
    (λ fuel hn.
        round http fuel ty (connection http σ (x ∷ y ∷ a)) (omega arith) (lt→ltb _ _ (omega arith))
        ∙ rw (h, dropped_loop http ty (fuel - 1) r) (run (fuel - 1) (omega arith))),
    ea,
    fin,
    so,
    wa,
  )

  -- The first two octets of a frame, and the place that follows them.
  entered :
      (pl : Place) (f : ClientFrame) (fs : List ClientFrame) (a c : List ℕ) (y : ℕ)
      → wire f (wire_all fs) ≡ first f ∷ y ∷ left pl f (wire_all fs)
      → a ++ c ≡ wire f (wire_all fs)
      → 2 ≤ length a
      → (rest : List ℕ) × (a ≡ first f ∷ y ∷ rest) × (rest ++ c ≡ left pl f (wire_all fs))
  entered pl f fs a c y w e enough =
      append-split (first f ∷ y ∷ []) a c (left pl f (wire_all fs)) (e ∙ w) enough

  short_loop :
      (ty : FrameControlE) (f : ClientFrame) (σ : Session) (fs : List ClientFrame) (a c : List ℕ)
      → FitsAll (f ∷ fs) σ
      → After ty f σ fs c
      → a ++ c ≡ wire_all (f ∷ fs)
      → 2 ≤ length a
      → length f.payload < 126
      → Drained http (between σ (f ∷ fs)) c (λ fuel. parse_loop fuel ty true (connection http σ a))
  short_loop ty f σ fs a c hf ih e enough hn =
      let (rest, ea, er) =
        entered at_key f fs a c (128 + length f.payload) (rw (lt→ltb _ _ hn) refl) e enough in
      rw ea (
        first_round ty at_key f σ fs c rest _ _ _ (header_short http f σ rest (hf.0).1 hn) (
          Handled-loop http ty true at_key f σ fs c _ hf (λ q. hn) ih
            (key-Handled http f σ fs rest c hf.0 hf.1 er)))

  long_loop :
      (ty : FrameControlE) (pl : Place) (f : ClientFrame) (σ : Session) (fs : List ClientFrame)
      (a c : List ℕ) (y : ℕ) (step : List ℕ → Outcome (Bool × Connection H))
      → FitsAll (f ∷ fs) σ
      → HasPlace pl (length f.payload)
      → Safe ty pl (length f.payload)
      → After ty f σ fs c
      → a ++ c ≡ wire_all (f ∷ fs)
      → 2 ≤ length a
      → wire f (wire_all fs) ≡ first f ∷ y ∷ left pl f (wire_all fs)
      → ((rest : List ℕ)
          → parse_frame_read_frame_header (connection http σ (first f ∷ y ∷ rest))
            ≡ dropped http (step rest))
      → ((rest : List ℕ) → rest ++ c ≡ left pl f (wire_all fs) → Begun http pl f σ fs c (step rest))
      → Drained http (between σ (f ∷ fs)) c (λ fuel. parse_loop fuel ty true (connection http σ a))
  long_loop ty pl f σ fs a c y step hf hp hs ih e enough w header begun =
      let (rest, ea, er) = entered pl f fs a c y w e enough in
      rw ea (
        first_round ty pl f σ fs c rest _ _ (step rest) (header rest)
          (Begun-loop ty true pl f σ fs c (step rest) hf hp hs ih (begun rest er)))

  frame_loop :
      (ty : FrameControlE) (f : ClientFrame) (σ : Session) (fs : List ClientFrame) (a c : List ℕ)
      → FitsAll (f ∷ fs) σ
      → After ty f σ fs c
      → a ++ c ≡ wire_all (f ∷ fs)
      → 2 ≤ length a
      → Drained http (between σ (f ∷ fs)) c (λ fuel. parse_loop fuel ty true (connection http σ a))
  frame_loop ty f σ fs a c hf ih e enough = elim (dec_lt (length f.payload) 126) [
    | yes lo ↦ short_loop ty f σ fs a c hf ih e enough lo
    | no hi ↦ elim (dec_lt (length f.payload) 65536) [
      | yes mid ↦
          long_loop ty at_u16 f σ fs a c 254
            (λ rest. parse_frame_read_extended_payloadlen_u16 (within http at_u16 f σ rest)) hf
            (omega arith, mid) tt ih e enough
            (rw (le→not-ltb (length f.payload) 126 (omega arith), lt→ltb _ _ mid) refl)
            (λ rest. header_u16 http f σ rest (hf.0).1)
            (λ rest er. u16-Begun http f σ fs rest c (omega arith, mid) er)
      | no big ↦
          long_loop ty at_i64 f σ fs a c 255
            (λ rest. parse_frame_read_extended_payloadlen_i64 (within http at_i64 f σ rest)) hf
            (omega arith) tt ih e enough
            (rw
              (
                le→not-ltb (length f.payload) 126 (omega arith),
                le→not-ltb (length f.payload) 65536 (omega arith),
              )
              refl)
            (λ rest. header_i64 http f σ rest (hf.0).1)
            (λ rest er. i64-Begun http f σ fs rest c (omega arith) ((hf.0).0).2 er)
    ]
  ]

  pub drain_between :
      (ty : FrameControlE) (fs : List ClientFrame) (σ : Session) (a c : List ℕ)
      → FitsAll fs σ
      → a ++ c ≡ wire_all fs
      → Drained http (between σ fs) c (λ fuel. parse_loop fuel ty true (connection http σ a))
  drain_between ty [] σ a c hf e = (
    between σ [],
    a,
    2,
    (λ fuel hn. between_waits ty σ a fuel hn (none_left a c e)),
    e,
    refl,
    hf,
    none_left a c e,
  )
    where
      none_left : (a c : List ℕ) → a ++ c ≡ [] → length a < 2
      none_left [] c e = omega arith
      none_left (x ∷ a) c e = cc
  drain_between ty (f ∷ fs) σ a c hf e = elim (dec_lt (length a) 2) [
    | yes few ↦
        (between σ (f ∷ fs), a, 2, (λ fuel hn. between_waits ty σ a fuel hn few), e, refl, hf, few)
    | no enough ↦
        frame_loop ty f σ fs a c hf (λ rest er. drain_between ty fs (receive f σ) rest c hf.2 er) e
          (omega arith)
  ]
