-- ===== src/Session/Segments/Lengths.antt =====
-- The steps that read the first octets of a frame and its extended length.
use libwebsocket_component.Prelude.{
  ℕ, ◌+◌, ◌*◌, ◌^◌, ◌≤◌, ◌<◌, ◌≡◌, ◌⊎◌, refl, ap, ◌∙◌, arith, Bool, true, false, inl, inr, List, [],
  ◌∷◌, ◌++◌, lt→ltb, le→not-ltb, ◌==◌, length, append-split, Option, Outcome, done, aborted,
  unfinished, ◌>>=◌,
}
use native.Mathlib.Decide.{dec_lt}
use libwebsocket_component.Frame.{FrameControlE, un_control_frame, opcode_code, fin_code}
use libwebsocket_component.Endian.{octet_at}
use libwebsocket_component.Context.{Connection}
use libwebsocket_component.Parser.{
  parse_frame_read_extended_payloadlen_u16, parse_frame_read_extended_payloadlen_i64,
  parse_frame_read_maskingkey, update_frame_body_parse_step, parse_frame_read_frame_header,
  parse_step, parse_loop,
}
use libwebsocket_component.Session.{ClientFrame, wire_body, wire_all, Session, FitsAs, connection}
use libwebsocket_component.Session.Headers.{
  client_header, parse_frame_read_extended_payloadlen_u16-length,
  parse_frame_read_extended_payloadlen_i64-length,
}
use libwebsocket_component.Session.Frames.{begin}
use libwebsocket_component.Session.Frames.Wire.{read_header}
use libwebsocket_component.Session.Segments.{
  Place, at_u16, at_i64, at_key, left, need, HasPlace, within,
}
use libwebsocket_component.Session.Segments.Steps.{parse_step-waits}

abbrev pub first : ClientFrame → ℕ
first f = opcode_code f.opcode + 128 * fin_code f.fin

-- The octets of a length of 64 bits.
abbrev i64_octets : ClientFrame → List ℕ
i64_octets f =
    octet_at 7 (length f.payload)
    ∷ octet_at 6 (length f.payload)
    ∷ octet_at 5 (length f.payload)
    ∷ octet_at 4 (length f.payload)
    ∷ octet_at 3 (length f.payload)
    ∷ octet_at 2 (length f.payload)
    ∷ octet_at 1 (length f.payload)
    ∷ octet_at 0 (length f.payload)
    ∷ []

module _ {H : Type 0} (http : Option H) where
  abbrev pub dropped : Outcome (Bool × Connection H) → Outcome (Bool × Connection H)
  dropped r = r >>= λ (e, u). done (true, u)

  pub dropped_loop :
      (ty : FrameControlE) (fuel : ℕ) (r : Outcome (Bool × Connection H))
      → (dropped r >>= λ (e, t). parse_loop fuel ty e t)
        ≡ (r >>= λ (e, t). parse_loop fuel ty true t)
  dropped_loop ty fuel (done (e, t)) = refl
  dropped_loop ty fuel aborted = refl
  dropped_loop ty fuel unfinished = refl

  -- The header of a frame is there: the step goes on to what follows it.
  pub header_short :
      (f : ClientFrame) (σ : Session) (a : List ℕ)
      → FitsAs f.opcode f.fin (length f.payload) σ
      → length f.payload < 126
      → parse_frame_read_frame_header (connection http σ (first f ∷ (128 + length f.payload) ∷ a))
        ≡ dropped (parse_frame_read_maskingkey (within http at_key f σ a))
  unfolding update_frame_body_parse_step
  header_short f σ a h hn =
      read_header http f.opcode f.fin (length f.payload) (length f.payload) σ a (omega arith) h
      ∙ ap dropped (rw (lt→ltb _ _ hn, other 126 hn (omega arith), other 127 hn (omega arith)) refl)
    where
      other : (k : ℕ) {n : ℕ} → n < 126 → 126 ≤ k → (n == k) ≡ false
      other k h hk = ground arith

  pub header_u16 :
      (f : ClientFrame) (σ : Session) (a : List ℕ)
      → FitsAs f.opcode f.fin (length f.payload) σ
      → parse_frame_read_frame_header (connection http σ (first f ∷ 254 ∷ a))
        ≡ dropped (parse_frame_read_extended_payloadlen_u16 (within http at_u16 f σ a))
  unfolding update_frame_body_parse_step
  header_u16 f σ a h = read_header http f.opcode f.fin 126 (length f.payload) σ a (omega arith) h

  pub header_i64 :
      (f : ClientFrame) (σ : Session) (a : List ℕ)
      → FitsAs f.opcode f.fin (length f.payload) σ
      → parse_frame_read_frame_header (connection http σ (first f ∷ 255 ∷ a))
        ≡ dropped (parse_frame_read_extended_payloadlen_i64 (within http at_i64 f σ a))
  unfolding update_frame_body_parse_step
  header_i64 f σ a h = read_header http f.opcode f.fin 127 (length f.payload) σ a (omega arith) h

  -- A step on the extended length has waited, or has come to the key.
  abbrev pub Begun :
      Place
      → ClientFrame
      → Session
      → List ClientFrame
      → List ℕ
      → Outcome (Bool × Connection H)
      → Type 0
  Begun pl f σ fs c r =
      ((a : List ℕ) × (r ≡ done (false, within http pl f σ a))
        × (length a < need pl f)
        × (a ++ c ≡ left pl f (wire_all fs)))
      ⊎ ((a : List ℕ) × (r ≡ done (true, within http at_key f σ a))
          × (a ++ c ≡ left at_key f (wire_all fs)))

  u16_complete :
      (f : ClientFrame) (σ : Session) (a : List ℕ)
      → HasPlace at_u16 (length f.payload)
      → parse_frame_read_extended_payloadlen_u16 (
          within http at_u16 f σ
            (octet_at 1 (length f.payload) ∷ octet_at 0 (length f.payload) ∷ a))
        ≡ done (true, within http at_key f σ a)
  u16_complete f σ a (lo, hi) =
      rw (le→not-ltb (length f.payload) 126 lo, lt→ltb _ _ hi)
        (parse_frame_read_extended_payloadlen_u16-length http (client_header f.opcode f.fin 126)
          (begin f.opcode σ) (length f.payload) a refl refl hi)

  i64_complete :
      (f : ClientFrame) (σ : Session) (a : List ℕ)
      → HasPlace at_i64 (length f.payload)
      → length f.payload < 2 ^ 63
      → parse_frame_read_extended_payloadlen_i64 (within http at_i64 f σ (i64_octets f ++ a))
        ≡ done (true, within http at_key f σ a)
  i64_complete f σ a lo hi =
      rw (le→not-ltb (length f.payload) 126 (omega arith), le→not-ltb (length f.payload) 65536 lo)
        (parse_frame_read_extended_payloadlen_i64-length http (client_header f.opcode f.fin 127)
          (begin f.opcode σ) (length f.payload) a refl refl (omega arith))

  pub u16-Begun :
      (f : ClientFrame) (σ : Session) (fs : List ClientFrame) (a c : List ℕ)
      → HasPlace at_u16 (length f.payload)
      → a ++ c ≡ left at_u16 f (wire_all fs)
      → Begun at_u16 f σ fs c (parse_frame_read_extended_payloadlen_u16 (within http at_u16 f σ a))
  unfolding parse_step
  u16-Begun f σ fs a c hp e = elim (dec_lt (length a) 2) [
    | yes few ↦ inl (a, parse_step-waits http un_control_frame at_u16 f σ a hp tt few, few, e)
    | no enough ↦
        (let (rest, ea, er) =
            append-split (octet_at 1 (length f.payload) ∷ octet_at 0 (length f.payload) ∷ []) a c
              (wire_body f (wire_all fs)) e (omega arith) in
          rw ea (inr (rest, u16_complete f σ rest hp, er)))
  ]

  pub i64-Begun :
      (f : ClientFrame) (σ : Session) (fs : List ClientFrame) (a c : List ℕ)
      → HasPlace at_i64 (length f.payload)
      → length f.payload < 2 ^ 63
      → a ++ c ≡ left at_i64 f (wire_all fs)
      → Begun at_i64 f σ fs c (parse_frame_read_extended_payloadlen_i64 (within http at_i64 f σ a))
  unfolding parse_step
  i64-Begun f σ fs a c hp hn e = elim (dec_lt (length a) 8) [
    | yes few ↦ inl (a, parse_step-waits http un_control_frame at_i64 f σ a hp tt few, few, e)
    | no enough ↦
        (let (rest, ea, er) =
            append-split (i64_octets f) a c (wire_body f (wire_all fs)) e (omega arith) in
          rw ea (inr (rest, i64_complete f σ rest hp hn, er)))
  ]
