-- ===== src/WsServer/Closing.antt =====
-- What the user of a connection is told of the messages of a client, and the answer to a Close frame.
use libwebsocket_component.Prelude.{
  ℕ, ◌≤◌, ◌≡◌, refl, sym, ap, ◌∙◌, true, List, [], ◌∷◌, ◌++◌, append-nil, append_assoc, some,
  length, done, ◌>>=◌, >>=-assoc, >>=-cong, All, All-append, inl,
}
use libwebsocket_component.Frame.{
  OpcodeE, segment_message, text_message, binary_message, close_message, ping_message, pong_message,
  reserved, FinE, frame_continue, frame_finished, connected,
}
use libwebsocket_component.Context.{
  Event, on_message_callback, on_closed_callback, on_connected_callback, send_message, shutdown,
  force_close,
}
use libwebsocket_component.Session.{ClientFrame, Session, receive_as, receive, receive_all}
use libwebsocket_component.WsServer.{
  Effect, sends, closes_by_force, ws_message, WsContext, TcpConnection, notify, notify_all,
  call_back, on_closed,
}
use libwebsocket_component.Handshake.Streams.{receive_all-open}
use libwebsocket_component.Pack.{pack_unmask_close_frame}
use libwebsocket_component.Pack.Decode.{decode_frame}
use libwebsocket_component.Pack.Single.{server_frame, decode_frame-pack_unmask_control_frame}

-- The messages among the events, as the user is told them.
abbrev pub told : List Event → List Effect
told [] = []
told (on_message_callback buf op ∷ es) = ws_message buf op ∷ told es
told (_ ∷ es) = told es

abbrev pub IsMessage : Event → Type 0
IsMessage (on_message_callback buf op) = Unit {0}
IsMessage _ = ⊥

pub told-append : (es fs : List Event) → told (es ++ fs) ≡ told es ++ told fs
told-append [] fs = refl
told-append (on_message_callback buf op ∷ es) fs = ap (◌∷◌ (ws_message buf op)) (told-append es fs)
told-append (on_closed_callback buf ∷ es) fs = told-append es fs
told-append (on_connected_callback ip ∷ es) fs = told-append es fs
told-append (send_message m ∷ es) fs = told-append es fs
told-append (shutdown ∷ es) fs = told-append es fs
told-append (force_close ∷ es) fs = told-append es fs

pub All-front : (es fs : List Event) → All IsMessage (es ++ fs) → All IsMessage es
All-front [] fs h = tt
All-front (e ∷ es) fs (h, hs) = (h, All-front es fs hs)

receive_as-IsMessage :
    (op : OpcodeE) (fin : FinE) (p : List ℕ) (σ : Session)
    → (receive_as op fin p σ).state ≡ connected
    → All IsMessage σ.events
    → All IsMessage (receive_as op fin p σ).events
receive_as-IsMessage segment_message frame_continue p σ h m = m
receive_as-IsMessage segment_message frame_finished p σ h m =
    All-append IsMessage σ.events _ m (tt, tt)
receive_as-IsMessage text_message frame_continue p σ h m = m
receive_as-IsMessage text_message frame_finished p σ h m =
    All-append IsMessage σ.events _ m (tt, tt)
receive_as-IsMessage binary_message frame_continue p σ h m = m
receive_as-IsMessage binary_message frame_finished p σ h m =
    All-append IsMessage σ.events _ m (tt, tt)
receive_as-IsMessage close_message fin p σ h m = cc
receive_as-IsMessage ping_message fin p σ h m = All-append IsMessage σ.events _ m (tt, tt)
receive_as-IsMessage pong_message fin p σ h m = All-append IsMessage σ.events _ m (tt, tt)
receive_as-IsMessage reserved fin p σ h m = m

-- A session that is still open has told of nothing but messages.
pub receive_all-IsMessage :
    (fs : List ClientFrame) (σ : Session)
    → (receive_all fs σ).state ≡ connected
    → All IsMessage σ.events
    → All IsMessage (receive_all fs σ).events
receive_all-IsMessage [] σ h m = m
receive_all-IsMessage (f ∷ fs) σ h m =
    receive_all-IsMessage fs (receive f σ) h
      (receive_as-IsMessage f.opcode f.fin f.payload σ (receive_all-open fs (receive f σ) h) m)

pub receive_all-append :
    (fs gs : List ClientFrame) (σ : Session)
    → receive_all (fs ++ gs) σ ≡ receive_all gs (receive_all fs σ)
receive_all-append [] gs σ = refl
receive_all-append (f ∷ fs) gs σ = receive_all-append fs gs (receive f σ)

module _ {H : Type 0} (w : WsContext H) where
  pub notify_all-append :
      (es fs : List Event) (c : TcpConnection H)
      → notify_all w (es ++ fs) c ≡ (notify_all w es c >>= λ d. notify_all w fs d)
  unfolding notify_all
  notify_all-append [] fs c = refl
  notify_all-append (e ∷ es) fs c =
      >>=-cong (notify w e c) (λ d. notify_all-append es fs d) ∙ sym (>>=-assoc (notify w e c) _ _)

  notify-message :
      (e : Event) (c : TcpConnection H)
      → IsMessage e
      → c.locks ≡ true
      → w.has_message_callback ≡ true
      → notify w e c ≡ done (record c { effects = c.effects ++ told (e ∷ []) })
  unfolding notify call_back
  notify-message (on_message_callback buf op) c m hl hm = rw (hl, hm) refl
  notify-message (on_closed_callback _) c m hl hm = elim m [ ]
  notify-message (on_connected_callback _) c m hl hm = elim m [ ]
  notify-message (send_message _) c m hl hm = elim m [ ]
  notify-message shutdown c m hl hm = elim m [ ]
  notify-message force_close c m hl hm = elim m [ ]

  -- Messages are told one by one.
  pub notify_all-messages :
      (es : List Event) (c : TcpConnection H)
      → All IsMessage es
      → c.locks ≡ true
      → w.has_message_callback ≡ true
      → notify_all w es c ≡ done (record c { effects = c.effects ++ told es })
  unfolding notify_all
  notify_all-messages [] c m hl hm =
      ap (λ es. done (record c { effects = es })) (sym (append-nil c.effects))
  notify_all-messages (on_message_callback buf op ∷ es) c (m, ms) hl hm =
      rw (notify-message (on_message_callback buf op) c m hl hm) (
        notify_all-messages es (record c { effects = c.effects ++ (ws_message buf op ∷ []) }) ms hl
          hm
        ∙ ap (λ xs. done (record c { effects = xs }))
            (append_assoc c.effects (ws_message buf op ∷ []) (told es)))
  notify_all-messages (on_closed_callback _ ∷ es) c (m, ms) hl hm = elim m [ ]
  notify_all-messages (on_connected_callback _ ∷ es) c (m, ms) hl hm = elim m [ ]
  notify_all-messages (send_message _ ∷ es) c (m, ms) hl hm = elim m [ ]
  notify_all-messages (shutdown ∷ es) c (m, ms) hl hm = elim m [ ]
  notify_all-messages (force_close ∷ es) c (m, ms) hl hm = elim m [ ]

  -- A Close frame is answered by one with the same payload, and then the connection is closed.
  pub notify_all-close :
      (p : List ℕ) (c : TcpConnection H)
      → length p ≤ 65535
      → c.locks ≡ true
      → w.has_closed_callback ≡ true
      → (out : List ℕ) × (notify_all w (on_closed_callback p ∷ force_close ∷ []) c
          ≡ done (record c { effects = c.effects ++ (sends out ∷ closes_by_force ∷ []) }))
        × (decode_frame out ≡ some (server_frame close_message frame_finished p, []))
  unfolding notify_all notify call_back on_closed pack_unmask_close_frame
  notify_all-close p c n hl hc =
      let (h, out, packed, read) =
        decode_frame-pack_unmask_control_frame [] p [] close_message (inl refl) n in
      let step : notify_all w (on_closed_callback p ∷ force_close ∷ []) c
          ≡ done
              (record c { effects = (c.effects ++ (sends out ∷ [])) ++ (closes_by_force ∷ []) }) =
        rw (hl, hc, packed) refl in
      (
        out,
        step
            ∙ ap (λ xs. done (record c { effects = xs }))
                (append_assoc c.effects (sends out ∷ []) (closes_by_force ∷ [])),
        ap decode_frame (sym (append-nil out)) ∙ read,
      )
