-- ===== src/WsServer/Ending.antt =====
-- An open connection that gets a Close frame, with messages before it.
use libwebsocket_component.Prelude.{
  ℕ, ◌<◌, ◌≡◌, refl, ap, ◌∙◌, arith, true, List, [], ◌∷◌, ◌++◌, append_assoc, none, some, length,
  done,
}
use libwebsocket_component.Frame.{close_message, frame_finished, connected}
use libwebsocket_component.Context.{Connection, on_closed_callback, force_close}
use libwebsocket_component.Session.{
  ClientFrame, wire_all, Session, receive_all, FitsAll, connection,
}
use libwebsocket_component.Handshake.{HttpEnv, parse_message_frame}
use libwebsocket_component.Handshake.Sessions.{parse_message_frame-frames}
use libwebsocket_component.Pack.Decode.{decode_frame}
use libwebsocket_component.Pack.Single.{server_frame}
use libwebsocket_component.WsServer.{
  sends, closes_by_force, WsContext, TcpConnection, notify_all, env_of, take_result, on_message,
}
use libwebsocket_component.WsServer.Closing.{
  told, receive_all-IsMessage, receive_all-append, notify_all-append, notify_all-messages,
  notify_all-close,
}

-- A session with nothing told yet: what a call starts with.
abbrev pub quiet : Session → Session
quiet σ = record σ { events = [] }

close_events :
    (fs : List ClientFrame) (f : ClientFrame) (σ : Session)
    → f.opcode ≡ close_message
    → (receive_all (fs ++ (f ∷ [])) σ).events
      ≡ (receive_all fs σ).events ++ (on_closed_callback f.payload ∷ force_close ∷ [])
close_events fs f σ e =
    rw (receive_all-append fs (f ∷ []) σ, e)
      (append_assoc (receive_all fs σ).events (on_closed_callback f.payload ∷ [])
        (force_close ∷ []))

module _ {H : Type 0} where
  -- A connection that is there, with its callbacks and the context of a session.
  abbrev pub IsOpen : Session → WsContext H → TcpConnection H → Type 0
  IsOpen σ w c =
      (c.locks ≡ true)
      × (c.ws_context ≡ some w)
      × (w.holder ≡ (connection {H = H} none σ []).context)
      × (w.has_message_callback ≡ true)
      × (w.has_closed_callback ≡ true)

  pub notify_all-session :
      (fs : List ClientFrame) (f : ClientFrame) (σ : Session) (w : WsContext H)
      (c : TcpConnection H)
      → (receive_all fs (quiet σ)).state ≡ connected
      → f.opcode ≡ close_message
      → length f.payload < 126
      → c.locks ≡ true
      → w.has_message_callback ≡ true
      → w.has_closed_callback ≡ true
      → (out : List ℕ) × (notify_all w (receive_all (fs ++ (f ∷ [])) (quiet σ)).events c
          ≡ done (record c {
            effects =
                c.effects
                ++ (told (receive_all fs (quiet σ)).events ++ (sends out ∷ closes_by_force ∷ []));
          }))
        × (decode_frame out ≡ some (server_frame close_message frame_finished f.payload, []))
  notify_all-session fs f σ w c hs hf n hl hm hc =
      let es = (receive_all fs (quiet σ)).events in
      let d : TcpConnection H = record c { effects = c.effects ++ told es } in
      let (out, closing, read) = notify_all-close w f.payload d (omega arith) hl hc in
      (
        out,
        rw
            (
              close_events fs f (quiet σ) hf,
              notify_all-append w es (on_closed_callback f.payload ∷ force_close ∷ []) c,
              notify_all-messages w es c (receive_all-IsMessage fs (quiet σ) hs tt) hl hm,
              closing,
            )
            (ap (λ xs. done (record c { effects = xs }))
              (append_assoc c.effects (told es) (sends out ∷ closes_by_force ∷ []))),
        read,
      )

  -- What the call on a parsed input comes to.
  pub on_message-of :
      (env : HttpEnv H) (buf : List ℕ) (w : WsContext H) (c : TcpConnection H) (t : Connection H)
      → c.ws_context ≡ some w
      → parse_message_frame
          (env_of env c)
          (some (record { context = w.holder; buf = buf; events = [] }))
        ≡ done (none, some t)
      → on_message env buf c ≡ take_result w c (none, some t)
  unfolding on_message
  on_message-of env buf w c t e p = rw (e, p) refl

  pub on_message-close :
      (env : HttpEnv H) (fs : List ClientFrame) (f : ClientFrame) (σ : Session) (w : WsContext H)
      (c : TcpConnection H)
      → σ.state ≡ connected
      → FitsAll (fs ++ (f ∷ [])) (quiet σ)
      → (receive_all fs (quiet σ)).state ≡ connected
      → f.opcode ≡ close_message
      → length f.payload < 126
      → IsOpen σ w c
      → (d : TcpConnection H) × (out : List ℕ) × (on_message env (wire_all (fs ++ (f ∷ []))) c
          ≡ done (d, []))
        × (d.effects
            ≡ c.effects
              ++ (told (receive_all fs (quiet σ)).events ++ (sends out ∷ closes_by_force ∷ [])))
        × (decode_frame out ≡ some (server_frame close_message frame_finished f.payload, []))
  unfolding take_result
  on_message-close env fs f σ w c hσ h hs hf n (hl, hw, hh, hm, hc) =
      let end = receive_all (fs ++ (f ∷ [])) (quiet σ) in
      let t : Connection H = connection none end [] in
      let (out, notified, read) = notify_all-session fs f σ w c hs hf n hl hm hc in
      let parsed = parse_message_frame-frames (env_of env c) (quiet σ) (fs ++ (f ∷ [])) hσ h in
      let run = on_message-of env (wire_all (fs ++ (f ∷ []))) w c t hw (
        ap
          (λ x.
            parse_message_frame (env_of env c)
              (some (record { context = x; buf = wire_all (fs ++ (f ∷ [])); events = [] })))
          hh
        ∙ parsed) in
      (
        record c {
          effects =
              c.effects
              ++ (told (receive_all fs (quiet σ)).events ++ (sends out ∷ closes_by_force ∷ []));
          ws_context = some (record w { holder = t.context });
        },
        out,
        run ∙ rw notified refl,
        refl,
        read,
      )
