-- ===== src/Session/Segments/Streams.antt =====
-- A stream of frames that comes in segments, cut anywhere.
use libwebsocket_component.Prelude.{
  ℕ, ◌≡◌, refl, sym, ap, ◌∙◌, arith, List, [], ◌∷◌, ◌++◌, append-nil, append_assoc, length,
  length-append, Option, none, concat, Outcome, done, ◌>>=◌,
}
use libwebsocket_component.Context.{Connection}
use libwebsocket_component.Parser.{parse_frame}
use libwebsocket_component.Session.{
  ClientFrame, key, wire_body, wire_length, wire_all, Session, receive_all, connection,
}
use libwebsocket_component.Session.Segments.{
  Point, between, inside, at_u16, at_i64, at_key, at_payload, left_at, final, Sound, Waits,
  point_at,
}
use libwebsocket_component.Session.Conformity.{IsStream, IsStream-FitsAll}
use libwebsocket_component.Session.Segments.Drains.{parse_frame-drains}
use libwebsocket_component.Message.{xor_from}
use libwebsocket_component.Message.Masking.{length-xor_from}

-- The calls of `parse_frame` as the segments come in: each is appended to what the last call left.
module _ {H : Type 0} where
  abbrev pub feed : Connection H → List (List ℕ) → Outcome (Connection H)
  feed s [] = done s
  feed s (c ∷ cs) = parse_frame (record s { buf = s.buf ++ c }) >>= λ t. feed t cs

whole : (a w : List ℕ) → a ++ [] ≡ w → a ≡ w
whole a w e = sym (append-nil a) ∙ e

-- With nothing to come, the input breaks off only after the last frame.
pub ended :
    (p : Point) (a : List ℕ)
    → Waits p a
    → a ++ [] ≡ left_at p
    → (σ : Session) × (p ≡ between σ []) × (a ≡ [])
ended (between σ []) a w e = (σ, refl, whole a [] e)
ended (between σ (f ∷ fs)) a w e = absurd (
    omega (
      arith,
      ap length (whole a _ e),
      length-append (wire_length (length f.payload)) (wire_body f (wire_all fs)),
    ))
ended (inside at_u16 f σ fs) a w e = absurd (omega (arith, ap length (whole a _ e)))
ended (inside at_i64 f σ fs) a w e = absurd (omega (arith, ap length (whole a _ e)))
ended (inside at_key f σ fs) a w e = absurd (omega (arith, ap length (whole a _ e)))
ended (inside at_payload f σ fs) a w e = absurd (
    omega (
      arith,
      ap length (whole a _ e),
      length-xor_from 0 (key f) f.payload,
      length-append (xor_from 0 (key f) f.payload) (wire_all fs),
    ))

module _ {H : Type 0} (http : Option H) where
  pub more :
      (p : Point) (a c : List ℕ)
      → record (point_at http p a) { buf = (point_at http p a).buf ++ c } ≡ point_at http p (a ++ c)
  more (between σ fs) a c = refl
  more (inside pl f σ fs) a c = refl

  feed-point :
      (cs : List (List ℕ)) (p : Point) (a : List ℕ)
      → Sound p
      → Waits p a
      → a ++ concat cs ≡ left_at p
      → feed (point_at http p a) cs ≡ done (connection http (final p) [])
  feed-point [] p a so w e = let (σ, hp, ha) = ended p a w e in rw (hp, ha) refl
  feed-point (c ∷ cs) p a so w e =
      let (q, b, run, eb, fin, sq, wq) =
        parse_frame-drains http p (a ++ c) (concat cs) so (append_assoc a c (concat cs) ∙ e) in
      rw (more p a c, run) (feed-point cs q b sq wq eb ∙ ap (λ τ. done (connection http τ [])) fin)

  -- A sequence of frames that a client may send by RFC 6455, section 5.4, when no message is in
  -- progress (a continuation only within a message, a text or binary frame only outside one, control
  -- frames final and of fewer than 126 octets, nothing after a Close frame, payloads below 2 ^ 63
  -- octets), and in which every
  -- continuation stands at a multiple of four octets of its message, comes in segments, cut anywhere.
  -- Then no call aborts, and after the last one the connection is that of the session that has
  -- received all, and the input is used up.
  pub parse_frame-segments :
      (fs : List ClientFrame) (σ : Session) (cs : List (List ℕ))
      → σ.pending ≡ []
      → IsStream none fs
      → concat cs ≡ wire_all fs
      → feed (connection http σ []) cs ≡ done (connection http (receive_all fs σ) [])
  parse_frame-segments fs σ cs hn hf e =
      feed-point cs (between σ fs) [] (IsStream-FitsAll fs σ hn hf) (omega arith) e
