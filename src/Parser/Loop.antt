-- ===== src/Parser/Loop.antt =====
-- The loop of `parse_frame`: it ends on every input, and the fuel of the model does not show.
use libwebsocket_component.Prelude.{
  ℕ, zero, suc, ◌+◌, ◌*◌, ◌≤◌, ◌<◌, ◌≡◌, refl, ◌≢◌, arith, Bool, true, false, inl, inr, ltb, ◌&&◌,
  Bool-cases, Outcome, done, aborted, unfinished, assert, ◌>>=◌, ◌>>◌,
}
use libwebsocket_component.Buffer.{readable_bytes}
use libwebsocket_component.Frame.{FrameControlE}
use libwebsocket_component.Frame.Kind.{get_frame_control_message_type_cases}
use libwebsocket_component.Context.{Connection}
use libwebsocket_component.Parser.{parse_step, parse_loop, parse_frame}
use libwebsocket_component.Parser.Progress.{measure, Advances, parse_step-Advances}

asserted-ne-unfinished {ℓ} :
    {A : Type ℓ} (b : Bool) (r : Outcome A) → r ≢ unfinished → (assert b >> r) ≢ unfinished
asserted-ne-unfinished true r h = h
asserted-ne-unfinished false r h = λ q. cc

module _ {H : Type 0} where
  -- The test of the loop is false, and true with a step to make.
  pub parse_loop_stop :
      (fuel : ℕ) (ty : FrameControlE) (e : Bool) (s : Connection H)
      → (e && ltb 0 (readable_bytes s.buf)) ≡ false
      → parse_loop (suc fuel) ty e s ≡ done s
  unfolding parse_loop
  parse_loop_stop fuel ty e s h = rw (h, parse_loop)

  pub parse_loop_round :
      (fuel : ℕ) (ty : FrameControlE) (e : Bool) (s : Connection H)
      → (e && ltb 0 (readable_bytes s.buf)) ≡ true
      → parse_loop (suc fuel) ty e s
        ≡ (parse_step ty s.context.step s >>= λ (more, t). parse_loop fuel ty more t)
  unfolding parse_loop
  parse_loop_round fuel ty e s h = rw (h, parse_loop)

  -- A step's result, with the loop after it under two amounts of fuel.
  round_fuel :
      (f g : ℕ) (ty : FrameControlE) (s : Connection H) (r : Outcome (Bool × Connection H))
      → 0 < f
      → 0 < g
      → ((e : Bool) (t : Connection H)
          → measure t < f
          → measure t < g
          → parse_loop f ty e t ≡ parse_loop g ty e t)
      → measure s ≤ f
      → measure s ≤ g
      → Advances s r
      → (r >>= λ (more, t). parse_loop f ty more t) ≡ (r >>= λ (more, t). parse_loop g ty more t)
  round_fuel f g ty s (done (true, t)) hf hg ih kf kg a = ih true t (omega arith) (omega arith)
  round_fuel (suc f) (suc g) ty s (done (false, t)) hf hg ih kf kg a =
      rw (parse_loop_stop f ty false t refl, parse_loop_stop g ty false t refl)
  round_fuel zero g ty s (done (false, t)) hf hg ih kf kg a = absurd (omega arith)
  round_fuel (suc f) zero ty s (done (false, t)) hf hg ih kf kg a = absurd (omega arith)
  round_fuel f g ty s aborted hf hg ih kf kg a = refl
  round_fuel f g ty s unfinished hf hg ih kf kg a = absurd a

  -- With fuel above the measure the result of the loop does not depend on the fuel.
  pub parse_loop_fuel :
      (f g : ℕ) (ty : FrameControlE) (e : Bool) (s : Connection H)
      → measure s < f
      → measure s < g
      → parse_loop f ty e s ≡ parse_loop g ty e s
  parse_loop_fuel zero g ty e s h k = absurd (omega arith)
  parse_loop_fuel (suc f) zero ty e s h k = absurd (omega arith)
  parse_loop_fuel (suc f) (suc g) ty e s h k =
      elim (Bool-cases (e && ltb 0 (readable_bytes s.buf))) [
        | inr stop ↦ rw (parse_loop_stop f ty e s stop, parse_loop_stop g ty e s stop)
        | inl go ↦
            rw (parse_loop_round f ty e s go, parse_loop_round g ty e s go)
              (round_fuel f g ty s _ (room f go h) (room g go k) (λ d t. parse_loop_fuel f g ty d t)
                (omega arith) (omega arith) (parse_step-Advances ty s.context.step s))
      ]
    where
      room : (f : ℕ) → (e && ltb 0 (readable_bytes s.buf)) ≡ true → measure s < suc f → 0 < f
      room f go h = ground arith

  round-ne-unfinished :
      (f : ℕ) (ty : FrameControlE) (s : Connection H) (r : Outcome (Bool × Connection H))
      → 0 < f
      → ((e : Bool) (t : Connection H) → measure t < f → parse_loop f ty e t ≢ unfinished)
      → measure s ≤ f
      → Advances s r
      → (r >>= λ (more, t). parse_loop f ty more t) ≢ unfinished
  round-ne-unfinished f ty s (done (true, t)) hf ih k a = ih true t (omega arith)
  round-ne-unfinished (suc f) ty s (done (false, t)) hf ih k a =
      rw (parse_loop_stop f ty false t refl) (λ q. cc)
  round-ne-unfinished zero ty s (done (false, t)) hf ih k a = absurd (omega arith)
  round-ne-unfinished f ty s aborted hf ih k a = λ q. cc
  round-ne-unfinished f ty s unfinished hf ih k a = absurd a

  parse_loop-ne-unfinished :
      (f : ℕ) (ty : FrameControlE) (e : Bool) (s : Connection H)
      → measure s < f
      → parse_loop f ty e s ≢ unfinished
  parse_loop-ne-unfinished zero ty e s h = absurd (omega arith)
  parse_loop-ne-unfinished (suc f) ty e s h =
      elim (Bool-cases (e && ltb 0 (readable_bytes s.buf))) [
        | inr stop ↦ rw (parse_loop_stop f ty e s stop) (λ q. cc)
        | inl go ↦ rw (parse_loop_round f ty e s go) (
            round-ne-unfinished f ty s _ (room go) (λ d t. parse_loop-ne-unfinished f ty d t)
              (omega arith) (parse_step-Advances ty s.context.step s))
      ]
    where
      room : (e && ltb 0 (readable_bytes s.buf)) ≡ true → 0 < f
      room go = ground arith

  -- The call of `parse_frame` comes to an end for every context and every input: it returns, or a
  -- failed assert aborts it; the fuel of the model never runs out.
  pub parse_frame-ne-unfinished : (s : Connection H) → parse_frame s ≢ unfinished
  unfolding parse_frame
  parse_frame-ne-unfinished s =
      asserted-ne-unfinished s.context.has_handler _
        (elim (get_frame_control_message_type_cases s.context.header.header) [
          | inl ((ty, place), e) ↦
              rw e
                (parse_loop-ne-unfinished (2 * readable_bytes s.buf + 2) ty true s (ground arith))
          | inr e ↦ rw e (λ q. cc)
        ])
