-- ===== src/WsServer/Segments.antt =====
-- The input of an open connection in segments, as the user is told of it.
use libwebsocket_component.Prelude.{
  concat, ℕ, ◌≡◌, refl, sym, ap, ◌∙◌, arith, true, List, [], ◌∷◌, ◌++◌, append-nil, append_assoc,
  none, some, Outcome, done, ◌>>=◌, All,
}
use libwebsocket_component.Buffer.{Buffer}
use libwebsocket_component.Frame.{connected}
use libwebsocket_component.Context.{Context, Connection}
use libwebsocket_component.Session.{
  ClientFrame, wire_all, Session, receive_all, FitsAll, connection_at, connection,
}
use libwebsocket_component.Session.Segments.{
  Point, between, inside, step_at, header_at, left_at, final, Sound, Waits, point_at,
}
use libwebsocket_component.Session.Segments.Drains.{parse_frame-drains}
use libwebsocket_component.Session.Segments.Streams.{ended}
use libwebsocket_component.Handshake.{HttpEnv, parse_message_frame}
use libwebsocket_component.Handshake.Streams.{point-connected, parse_message_frame-connected}
use libwebsocket_component.WsServer.{
  Effect, WsContext, TcpConnection, env_of, take_result, on_message,
}
use libwebsocket_component.WsServer.Closing.{
  told, told-append, All-front, IsMessage, receive_all-IsMessage, notify_all-messages,
}
use libwebsocket_component.WsServer.Ending.{quiet, on_message-of}
use libwebsocket_component.WsServer.Quiet.{
  after, session_at, quiet_point, quiet_point-Sound, quiet_point-Waits, left_at-quiet_point,
  final-quiet_point, begin-events, begin-quiet,
}

quiet_point-events : (p : Point) → (session_at (quiet_point p)).events ≡ []
quiet_point-events (between σ fs) = refl
quiet_point-events (inside pl f σ fs) = refl

final-IsMessage :
    (p : Point)
    → (final (quiet_point p)).state ≡ connected
    → All IsMessage (final (quiet_point p)).events
final-IsMessage (between σ fs) h = receive_all-IsMessage fs (quiet σ) h tt
final-IsMessage (inside pl f σ fs) h = receive_all-IsMessage (f ∷ fs) (quiet σ) h tt

module _ {H : Type 0} where
  abbrev pub context_at : Point → Context H
  context_at p = (point_at {H = H} none (quiet_point p) []).context

  as_point :
      (p : Point) (a : List ℕ)
      → ◌≡◌ {A = Connection H}
          (record { context = context_at p; buf = a; events = [] })
          (point_at none (quiet_point p) a)
  as_point (between σ fs) a = refl
  as_point (inside pl f σ fs) a =
      ap (λ es. record { context = context_at (inside pl f σ fs); buf = a; events = es })
        (sym (begin-events f.opcode (quiet σ)))

  take_result-point :
      (q : Point) (b : List ℕ) (w : WsContext H) (c : TcpConnection H)
      → All IsMessage (session_at q).events
      → c.locks ≡ true
      → w.has_message_callback ≡ true
      → take_result w c (none, some (point_at none q b))
        ≡ done (
          record c {
            effects = c.effects ++ told (session_at q).events;
            ws_context = some (record w { holder = context_at q });
          },
          b,
        )
  unfolding take_result
  take_result-point (between σ fs) b w c m hl hm =
      rw (notify_all-messages w σ.events c m hl hm) refl
  take_result-point (inside pl f σ fs) b w c m hl hm =
      rw (begin-events f.opcode σ, notify_all-messages w σ.events c m hl hm)
        (ap
          (λ (x : Context H). done (
            record c {
              effects = c.effects ++ told σ.events;
              ws_context = some (record w { holder = x });
            },
            b,
          ))
          (ap (λ τ. (connection_at {H = H} none (step_at pl f) (header_at pl f) τ []).context)
            (begin-quiet f.opcode σ)))

  on_message-point :
      (env : HttpEnv H) (p : Point) (a rest : List ℕ) (w : WsContext H) (c : TcpConnection H)
      → Sound (quiet_point p)
      → a ++ rest ≡ left_at (quiet_point p)
      → (final (quiet_point p)).state ≡ connected
      → c.locks ≡ true
      → c.ws_context ≡ some w
      → w.holder ≡ context_at p
      → w.has_message_callback ≡ true
      → (q : Point) × (b : List ℕ) × (on_message env a c
          ≡ done (
            record c {
              effects = c.effects ++ told (session_at q).events;
              ws_context = some (record w { holder = context_at q });
            },
            b,
          ))
        × (b ++ rest ≡ left_at (quiet_point q))
        × (after (session_at q).events (final (quiet_point q)) ≡ final (quiet_point p))
        × Sound (quiet_point q)
        × Waits (quiet_point q) b
  on_message-point env p a rest w c so e hs hl hw hh hm =
      let (q, b, run, eb, fin, sq, wq) =
        parse_frame-drains {H = H} none (quiet_point p) a rest so e in
      let same = sym (final-quiet_point q) ∙ fin in
      let parsed =
        parse_message_frame-connected (env_of env c) (point_at none (quiet_point p) a)
          (point_at none q b) (point-connected (env_of env c) (quiet_point p) a hs) run in
      let messages =
        All-front (session_at q).events (final (quiet_point q)).events
          (rw (ap (λ (τ : Session). τ.events) same) (final-IsMessage p hs)) in
      (
        q,
        b,
        on_message-of env a w c (point_at none q b) hw (
              ap
                (λ x.
                  parse_message_frame (env_of env c)
                    (some (record { context = x; buf = a; events = [] })))
                hh
              ∙ ap (λ s. parse_message_frame (env_of env c) (some s)) (as_point p a)
              ∙ parsed)
            ∙ take_result-point q b w c messages hl hm,
        eb ∙ sym (left_at-quiet_point q),
        same,
        quiet_point-Sound q sq,
        quiet_point-Waits q b wq,
      )

  -- The calls as the segments come in: each is appended to what the last call has left.
  abbrev pub feed_connection :
      HttpEnv H → TcpConnection H → Buffer → List (List ℕ) → Outcome (TcpConnection H × Buffer)
  feed_connection env c buf [] = done (c, buf)
  feed_connection env c buf (x ∷ xs) =
      on_message env (buf ++ x) c >>= λ (d, rest). feed_connection env d rest xs

  -- The connection is open at a point of its input.
  abbrev pub IsAt : Point → WsContext H → TcpConnection H → Type 0
  IsAt p w c =
      (c.locks ≡ true)
      × (c.ws_context ≡ some w)
      × (w.holder ≡ context_at p)
      × (w.has_message_callback ≡ true)

  abbrev pub Received :
      List Effect → Session → WsContext H → Outcome (TcpConnection H × Buffer) → Type 0
  Received before τ w m =
      (d : TcpConnection H) × (m ≡ done (d, []))
      × (d.effects ≡ before ++ told τ.events)
      × (d.ws_context ≡ some (record w { holder = (connection {H = H} none (quiet τ) []).context }))

  feed_connection-point :
      (env : HttpEnv H) (cs : List (List ℕ)) (p : Point) (a : List ℕ) (w : WsContext H)
      (c : TcpConnection H)
      → Sound (quiet_point p)
      → Waits (quiet_point p) a
      → a ++ concat cs ≡ left_at (quiet_point p)
      → (final (quiet_point p)).state ≡ connected
      → IsAt p w c
      → Received c.effects (final (quiet_point p)) w (feed_connection env c a cs)
  feed_connection-point env [] p a w c so wt e hs (hl, hw, hh, hm) =
      let (τ, hp, ha) = ended (quiet_point p) a wt e in
      let last : final (quiet_point p) ≡ τ = ap final hp in
      let none_told : (final (quiet_point p)).events ≡ [] =
        ap (λ (τ : Session). τ.events) last
        ∙ ap (λ r. (session_at r).events) (sym hp)
        ∙ quiet_point-events p in
      (
        c,
        ap (λ b. done (c, b)) ha,
        sym (append-nil c.effects) ∙ ap (λ es. c.effects ++ told es) (sym none_told),
        hw
            ∙ ap (λ x. some (record w { holder = x }))
                (hh
                  ∙ ap (λ r. (point_at {H = H} none r []).context) hp
                  ∙ ap (λ τ. (connection {H = H} none (quiet τ) []).context) (sym last)),
      )
  feed_connection-point env (x ∷ cs) p a w c so wt e hs (hl, hw, hh, hm) =
      let (q, b, run, eb, same, sq, wq) =
        on_message-point env p (a ++ x) (concat cs) w c so (append_assoc a x (concat cs) ∙ e) hs hl
          hw hh hm in
      let d : TcpConnection H = record c {
        effects = c.effects ++ told (session_at q).events;
        ws_context = some (record w { holder = context_at q });
      } in
      let (f, ef, ee, ew) =
        feed_connection-point env cs q b (record w { holder = context_at q }) d sq wq eb
          (ap (λ (τ : Session). τ.state) same ∙ hs) (hl, refl, refl, hm) in
      (
        f,
        rw run ef,
        ee
            ∙ append_assoc c.effects (told (session_at q).events)
                (told (final (quiet_point q)).events)
            ∙ ap (λ xs. c.effects ++ xs)
                (sym (told-append (session_at q).events (final (quiet_point q)).events)
                  ∙ ap (λ (τ : Session). told τ.events) same),
        ew
            ∙ ap (λ τ. some (record w { holder = (connection {H = H} none (quiet τ) []).context }))
                same,
      )

  -- An open connection gets frames that may come in its session and leave it open, in any number of
  -- calls and cut anywhere, with every continuation at a multiple of four octets.
  pub feed_connection-segments :
      (env : HttpEnv H) (fs : List ClientFrame) (σ : Session) (cs : List (List ℕ)) (w : WsContext H)
      (c : TcpConnection H)
      → FitsAll fs (quiet σ)
      → (receive_all fs (quiet σ)).state ≡ connected
      → concat cs ≡ wire_all fs
      → IsAt (between σ fs) w c
      → Received c.effects (receive_all fs (quiet σ)) w (feed_connection env c [] cs)
  feed_connection-segments env fs σ cs w c h hs e at_start =
      feed_connection-point env cs (between σ fs) [] w c h (omega arith) e hs at_start
