-- ===== src/WsServer/Quiet.antt =====
-- What a session that has told something has in common with the same session before it did.
use libwebsocket_component.Prelude.{
  ℕ, ◌≡◌, refl, sym, ap, ◌∙◌, List, [], ◌∷◌, ◌++◌, append-nil, append_assoc, length,
}
use libwebsocket_component.Frame.{
  OpcodeE, segment_message, text_message, binary_message, close_message, ping_message, pong_message,
  reserved, FinE, frame_continue, frame_finished,
}
use libwebsocket_component.Context.{Event, on_closed_callback, on_message_callback, force_close}
use libwebsocket_component.Session.{
  ClientFrame, Session, receive_as, receive, receive_all, FitsAs, AlignedAs, FitsAll,
}
use libwebsocket_component.Session.Frames.{begin}
use libwebsocket_component.Session.Segments.{Point, between, inside, final, Sound, Waits, left_at}
use libwebsocket_component.WsServer.Ending.{quiet}

-- The session with something told before.
abbrev pub after : List Event → Session → Session
after es σ = record σ { events = es ++ σ.events }

pub after-quiet : (σ : Session) → after σ.events (quiet σ) ≡ σ
after-quiet σ = ap (λ es. record σ { events = es }) (append-nil σ.events)

receive_as-after :
    (op : OpcodeE) (fin : FinE) (p : List ℕ) (es : List Event) (σ : Session)
    → receive_as op fin p (after es σ) ≡ after es (receive_as op fin p σ)
receive_as-after segment_message frame_continue p es σ = refl
receive_as-after segment_message frame_finished p es σ =
    ap (λ xs. record σ { pending = []; events = xs })
      (append_assoc es σ.events (on_message_callback (σ.pending ++ p) σ.data_type ∷ []))
receive_as-after text_message frame_continue p es σ = refl
receive_as-after text_message frame_finished p es σ =
    ap (λ xs. record σ { data_type = text_message; pending = []; events = xs })
      (append_assoc es σ.events (on_message_callback (σ.pending ++ p) text_message ∷ []))
receive_as-after binary_message frame_continue p es σ = refl
receive_as-after binary_message frame_finished p es σ =
    ap (λ xs. record σ { data_type = binary_message; pending = []; events = xs })
      (append_assoc es σ.events (on_message_callback (σ.pending ++ p) binary_message ∷ []))
receive_as-after close_message fin p es σ =
    ap (λ xs. record (receive_as close_message fin p σ) { events = xs })
      (ap (λ xs. xs ++ (force_close ∷ [])) (append_assoc es σ.events (on_closed_callback p ∷ []))
        ∙ append_assoc es (σ.events ++ (on_closed_callback p ∷ [])) (force_close ∷ []))
receive_as-after ping_message fin p es σ =
    ap (λ xs. record σ { control_type = ping_message; events = xs })
      (append_assoc es σ.events (on_message_callback p ping_message ∷ []))
receive_as-after pong_message fin p es σ =
    ap (λ xs. record σ { control_type = pong_message; events = xs })
      (append_assoc es σ.events (on_message_callback p pong_message ∷ []))
receive_as-after reserved fin p es σ = refl

pub receive-after :
    (f : ClientFrame) (es : List Event) (σ : Session)
    → receive f (after es σ) ≡ after es (receive f σ)
receive-after f es σ = receive_as-after f.opcode f.fin f.payload es σ

pub receive_all-after :
    (fs : List ClientFrame) (es : List Event) (σ : Session)
    → receive_all fs (after es σ) ≡ after es (receive_all fs σ)
receive_all-after [] es σ = refl
receive_all-after (f ∷ fs) es σ =
    ap (receive_all fs) (receive-after f es σ) ∙ receive_all-after fs es (receive f σ)

FitsAs-after :
    (op : OpcodeE) (fin : FinE) (n : ℕ) (es : List Event) (σ : Session)
    → FitsAs op fin n (after es σ)
    → FitsAs op fin n σ
FitsAs-after segment_message fin n es σ h = h
FitsAs-after text_message fin n es σ h = h
FitsAs-after binary_message fin n es σ h = h
FitsAs-after close_message fin n es σ h = h
FitsAs-after ping_message fin n es σ h = h
FitsAs-after pong_message fin n es σ h = h
FitsAs-after reserved fin n es σ h = h

AlignedAs-after :
    (op : OpcodeE) (es : List Event) (σ : Session) → AlignedAs op (after es σ) → AlignedAs op σ
AlignedAs-after segment_message es σ h = h
AlignedAs-after text_message es σ h = h
AlignedAs-after binary_message es σ h = h
AlignedAs-after close_message es σ h = h
AlignedAs-after ping_message es σ h = h
AlignedAs-after pong_message es σ h = h
AlignedAs-after reserved es σ h = h

FitsAll-after :
    (fs : List ClientFrame) (es : List Event) (σ : Session) → FitsAll fs (after es σ) → FitsAll fs σ
FitsAll-after [] es σ h = tt
FitsAll-after (f ∷ fs) es σ ((o, h), a, hs) = (
  (o, FitsAs-after f.opcode f.fin (length f.payload) es σ h),
  AlignedAs-after f.opcode es σ a,
  FitsAll-after fs es (receive f σ) (rw (receive-after f es σ) at hs),
)

pub FitsAll-quiet : (fs : List ClientFrame) (σ : Session) → FitsAll fs σ → FitsAll fs (quiet σ)
FitsAll-quiet fs σ h =
    let k : FitsAll fs (after σ.events (quiet σ)) = rw (after-quiet σ) h in
    FitsAll-after fs σ.events (quiet σ) k

-- A point of the input with nothing told.
abbrev pub session_at : Point → Session
session_at (between σ fs) = σ
session_at (inside pl f σ fs) = σ

abbrev pub quiet_point : Point → Point
quiet_point (between σ fs) = between (quiet σ) fs
quiet_point (inside pl f σ fs) = inside pl f (quiet σ) fs

pub quiet_point-Sound : (p : Point) → Sound p → Sound (quiet_point p)
quiet_point-Sound (between σ fs) h = FitsAll-quiet fs σ h
quiet_point-Sound (inside pl f σ fs) (a, h) = (a, FitsAll-quiet (f ∷ fs) σ h)

pub quiet_point-Waits : (p : Point) (a : List ℕ) → Waits p a → Waits (quiet_point p) a
quiet_point-Waits (between σ fs) a h = h
quiet_point-Waits (inside pl f σ fs) a h = h

pub left_at-quiet_point : (p : Point) → left_at (quiet_point p) ≡ left_at p
left_at-quiet_point (between σ fs) = refl
left_at-quiet_point (inside pl f σ fs) = refl

-- The final session is what has been told at the point and then what is still told.
pub final-quiet_point : (p : Point) → final p ≡ after (session_at p).events (final (quiet_point p))
final-quiet_point (between σ fs) =
    ap (receive_all fs) (sym (after-quiet σ)) ∙ receive_all-after fs σ.events (quiet σ)
final-quiet_point (inside pl f σ fs) =
    ap (receive_all (f ∷ fs)) (sym (after-quiet σ)) ∙ receive_all-after (f ∷ fs) σ.events (quiet σ)

pub begin-events : (op : OpcodeE) (σ : Session) → (begin op σ).events ≡ σ.events
begin-events segment_message σ = refl
begin-events text_message σ = refl
begin-events binary_message σ = refl
begin-events close_message σ = refl
begin-events ping_message σ = refl
begin-events pong_message σ = refl
begin-events reserved σ = refl

pub begin-quiet : (op : OpcodeE) (σ : Session) → quiet (begin op σ) ≡ begin op (quiet σ)
begin-quiet segment_message σ = refl
begin-quiet text_message σ = refl
begin-quiet binary_message σ = refl
begin-quiet close_message σ = refl
begin-quiet ping_message σ = refl
begin-quiet pong_message σ = refl
begin-quiet reserved σ = refl
