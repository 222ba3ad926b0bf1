-- ===== src/Handshake/Streams.antt =====
-- The entry point on a connection whose input comes in segments.
use libwebsocket_component.Prelude.{
  concat, ℕ, ◌≤◌, ◌<◌, ◌≡◌, refl, ap, ◌∙◌, arith, true, List, [], ◌∷◌, ◌++◌, append_assoc, Option,
  none, some, length, Outcome, done, ◌>>=◌,
}
use libwebsocket_component.Frame.{
  OpcodeE, segment_message, text_message, binary_message, close_message, ping_message, pong_message,
  reserved, FinE, frame_continue, frame_finished, StateE, connected,
}
use libwebsocket_component.Context.{Connection}
use libwebsocket_component.Parser.{parse_frame}
use libwebsocket_component.Session.{
  ClientFrame, wire_all, Session, receive_as, receive, receive_all, FitsAll, connection,
}
use libwebsocket_component.Session.Frames.{begin}
use libwebsocket_component.Session.Segments.{
  Point, between, inside, left_at, final, Sound, Waits, point_at,
}
use libwebsocket_component.Session.Segments.Drains.{parse_frame-drains}
use libwebsocket_component.Session.Segments.Streams.{ended, more}
use libwebsocket_component.Handshake.{
  HttpEnv, Errno, find_crlfcrlf, parse_on_state, parse_message_frame, accepted,
}
use libwebsocket_component.Handshake.Sessions.{opened, parse_message_frame-accepted}

-- No frame opens a session again.
receive_as-open :
    (op : OpcodeE) (fin : FinE) (payload : List ℕ) (σ : Session)
    → (receive_as op fin payload σ).state ≡ connected
    → σ.state ≡ connected
receive_as-open segment_message frame_continue payload σ h = h
receive_as-open segment_message frame_finished payload σ h = h
receive_as-open text_message frame_continue payload σ h = h
receive_as-open text_message frame_finished payload σ h = h
receive_as-open binary_message frame_continue payload σ h = h
receive_as-open binary_message frame_finished payload σ h = h
receive_as-open close_message fin payload σ h = cc
receive_as-open ping_message fin payload σ h = h
receive_as-open pong_message fin payload σ h = h
receive_as-open reserved fin payload σ h = h

pub receive_all-open :
    (fs : List ClientFrame) (σ : Session)
    → (receive_all fs σ).state ≡ connected
    → σ.state ≡ connected
receive_all-open [] σ h = h
receive_all-open (f ∷ fs) σ h =
    receive_as-open f.opcode f.fin f.payload σ (receive_all-open fs (receive f σ) h)

begin-state : (op : OpcodeE) (σ : Session) → (begin op σ).state ≡ σ.state
begin-state segment_message σ = refl
begin-state text_message σ = refl
begin-state binary_message σ = refl
begin-state close_message σ = refl
begin-state ping_message σ = refl
begin-state pong_message σ = refl
begin-state reserved σ = refl

module _ {H : Type 0} (env : HttpEnv H) where
  -- The calls that a connection makes as its input comes in, up to one that tells an error.
  abbrev pub goes_on :
      Errno × Option (Connection H)
      → (Connection H → Outcome (Errno × Option (Connection H)))
      → Outcome (Errno × Option (Connection H))
  goes_on (none, some t) k = k t
  goes_on (some e, t) k = done (some e, t)
  goes_on (none, none) k = done (none, none)

  abbrev pub feed_message : Connection H → List (List ℕ) → Outcome (Errno × Option (Connection H))
  feed_message s [] = done (none, some s)
  feed_message s (c ∷ cs) = parse_message_frame env (some (record s { buf = s.buf ++ c })) >>= λ r.
      goes_on r (λ t. feed_message t cs)

  pub point-connected :
      (p : Point) (a : List ℕ)
      → (final p).state ≡ connected
      → (point_at {H = H} none p a).context.state ≡ connected
  point-connected (between σ fs) a h = receive_all-open fs σ h
  point-connected (inside pl f σ fs) a h = begin-state f.opcode σ ∙ receive_all-open (f ∷ fs) σ h

  pub parse_message_frame-connected :
      (s t : Connection H)
      → s.context.state ≡ connected
      → parse_frame s ≡ done t
      → parse_message_frame env (some s) ≡ done (none, some t)
  unfolding parse_message_frame parse_on_state
  parse_message_frame-connected s t hs e =
      ap (λ (st : StateE). parse_on_state env st s >>= λ r. done (r.0, some (r.1))) hs ∙ rw e refl

  feed_message-point :
      (cs : List (List ℕ)) (p : Point) (a : List ℕ)
      → Sound p
      → Waits p a
      → (final p).state ≡ connected
      → a ++ concat cs ≡ left_at p
      → feed_message (point_at none p a) cs ≡ done (none, some (connection none (final p) []))
  feed_message-point [] p a so w hs e = let (σ, hp, ha) = ended p a w e in rw (hp, ha) refl
  feed_message-point (c ∷ cs) p a so w hs e =
      let (q, b, run, eb, fin, sq, wq) =
        parse_frame-drains none p (a ++ c) (concat cs) so (append_assoc a c (concat cs) ∙ e) in
      rw
        (
          more {H = H} none p a c,
          parse_message_frame-connected (point_at none p (a ++ c)) (point_at none q b)
              (point-connected p (a ++ c) hs) run,
        )
        (feed_message-point cs q b sq wq (ap (λ (τ : Session). τ.state) fin ∙ hs) eb
          ∙ ap (λ τ. done (none, some (connection none τ []))) fin)

  -- A new connection gets a request of 5 to 1024 octets with an empty line in it, which the HTTP
  -- context takes as complete with nothing left, and then, in any number of calls and cut anywhere,
  -- frames that may come in that session, with every continuation at a multiple of four octets, and
  -- that leave it connected. No call aborts or tells an error, and after the last one the connection
  -- is that of the session that has received all the frames.
  pub parse_message_frame-segments :
      (http next : H) (req : List ℕ) (fs : List ClientFrame) (cs : List (List ℕ))
      → 4 < length req
      → length req ≤ 1024
      → find_crlfcrlf req ≡ true
      → env.parse_request_ptr http req ≡ (true, next, [])
      → env.got_all next ≡ true
      → FitsAll fs (opened env next)
      → (receive_all fs (opened env next)).state ≡ connected
      → concat cs ≡ wire_all fs
      → feed_message (accepted http []) (req ∷ cs)
        ≡ done (none, some (connection none (receive_all fs (opened env next)) []))
  parse_message_frame-segments http next req fs cs lo hi hf hp hg h hs e =
      rw (parse_message_frame-accepted env http next req lo hi hf hp hg)
        (feed_message-point cs (between (opened env next) fs) [] h (omega arith) hs e)
