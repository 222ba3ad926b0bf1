-- ===== src/Session/Segments/Drains.antt =====
-- `parse_frame` from any point of the input to the point at which the input breaks off.
use libwebsocket_component.Prelude.{
  ℕ, ◌+◌, ◌*◌, ◌≤◌, ◌<◌, ◌≡◌, refl, ◌∙◌, arith, true, false, List, ◌∷◌, ◌++◌, length, Option, done,
}
use libwebsocket_component.Frame.{
  MessageFrameE, middle_frame, tail_frame, head_frame, head_tail_frame, FinE, frame_continue,
  frame_finished, OpcodeE, segment_message, text_message, binary_message, close_message,
  ping_message, pong_message, reserved, un_control_frame,
}
use libwebsocket_component.Parser.{parse_step, parse_loop}
use libwebsocket_component.Session.{ClientFrame, Session, receive, FitsAs, FitsAll, connection}
use libwebsocket_component.Session.Headers.{client_header}
use libwebsocket_component.Session.Segments.{
  Place, at_u16, at_i64, at_key, at_payload, header_at, kind, Point, between, inside, left_at,
  final, Sound, Waits, kind_at, short_length, within, point_at,
}
use libwebsocket_component.Session.Segments.Steps.{payload-Handled, Safe-kind}
use libwebsocket_component.Frame.Kind.{get_frame_control_message_type}
use libwebsocket_component.Parser.{parse_frame}
use libwebsocket_component.Parser.Progress.{measure}
use libwebsocket_component.Parser.Loop.{parse_loop_fuel}
use libwebsocket_component.Session.Segments.Lengths.{u16-Begun, i64-Begun}
use libwebsocket_component.Session.Segments.Rounds.{Drained, Handled-loop, step_loop}
use libwebsocket_component.Session.Segments.Frames.{After, key_loop, Begun-loop, drain_between}

-- The kind of a client's header.
client_kind :
    (op : OpcodeE) (fin : FinE) (m n : ℕ) (σ : Session)
    → FitsAs op fin n σ
    → (place : MessageFrameE) × (get_frame_control_message_type (client_header op fin m)
        ≡ done (kind op, place))
unfolding get_frame_control_message_type
client_kind segment_message frame_continue m n σ h = (middle_frame, refl)
client_kind segment_message frame_finished m n σ h = (tail_frame, refl)
client_kind text_message frame_continue m n σ h = (head_frame, refl)
client_kind text_message frame_finished m n σ h = (head_tail_frame, refl)
client_kind binary_message frame_continue m n σ h = (head_frame, refl)
client_kind binary_message frame_finished m n σ h = (head_tail_frame, refl)
client_kind close_message fin m n σ (hf, hn) = (head_tail_frame, rw hf)
client_kind ping_message fin m n σ (hf, hn) = (head_tail_frame, rw hf)
client_kind pong_message fin m n σ (hf, hn) = (head_tail_frame, rw hf)
client_kind reserved fin m n σ h = absurd h

module _ {H : Type 0} (http : Option H) where
  After-inside :
      (f : ClientFrame) (σ : Session) (fs : List ClientFrame) (c : List ℕ)
      → FitsAll (f ∷ fs) σ
      → After http (kind f.opcode) f σ fs c
  After-inside f σ fs c hf rest er =
      drain_between http (kind f.opcode) fs (receive f σ) rest c hf.2 er

  point_loop :
      (p : Point) (a c : List ℕ)
      → Sound p
      → a ++ c ≡ left_at p
      → Drained http p c (λ fuel. parse_loop fuel (kind_at p) true (point_at http p a))
  unfolding parse_step
  point_loop (between σ fs) a c hf e = drain_between http un_control_frame fs σ a c hf e
  point_loop (inside at_key f σ fs) a c (hp, hf) e =
      key_loop http (kind f.opcode) f σ fs a c hf (After-inside f σ fs c hf) e
  point_loop (inside at_payload f σ fs) a c (hp, hf) e =
      step_loop http (kind f.opcode) at_payload f σ fs a c hf hp
        (Safe-kind http at_payload f σ hf.0) e
        (Handled-loop http (kind f.opcode) false at_payload f σ fs c _ hf (λ q. cc)
          (After-inside f σ fs c hf) (payload-Handled http f σ fs a c hf.0 hf.1 e))
  point_loop (inside at_u16 f σ fs) a c (hp, hf) e =
      step_loop http (kind f.opcode) at_u16 f σ fs a c hf hp (Safe-kind http at_u16 f σ hf.0) e (
        Begun-loop http (kind f.opcode) false at_u16 f σ fs c _ hf hp tt (After-inside f σ fs c hf)
          (u16-Begun http f σ fs a c hp e))
  point_loop (inside at_i64 f σ fs) a c (hp, hf) e =
      step_loop http (kind f.opcode) at_i64 f σ fs a c hf hp (Safe-kind http at_i64 f σ hf.0) e (
        Begun-loop http (kind f.opcode) false at_i64 f σ fs c _ hf hp tt (After-inside f σ fs c hf)
          (i64-Begun http f σ fs a c hp ((hf.0).0).2 e))

  header_kind :
      (pl : Place) (f : ClientFrame) (σ : Session)
      → FitsAs f.opcode f.fin (length f.payload) σ
      → (place : MessageFrameE) × (get_frame_control_message_type (header_at pl f).header
          ≡ done (kind f.opcode, place))
  header_kind at_u16 f σ h = client_kind f.opcode f.fin 126 (length f.payload) σ h
  header_kind at_i64 f σ h = client_kind f.opcode f.fin 127 (length f.payload) σ h
  header_kind at_key f σ h =
      client_kind f.opcode f.fin (short_length (length f.payload)) (length f.payload) σ h
  header_kind at_payload f σ h =
      client_kind f.opcode f.fin (short_length (length f.payload)) (length f.payload) σ h

  bound :
      (pl : Place) (f : ClientFrame) (σ : Session) (a : List ℕ) (fuel : ℕ)
      → 2 * length a + 2 ≤ fuel
      → measure (within http pl f σ a) < fuel
  bound pl f σ a fuel h = ground arith

  parse_frame-point :
      (p : Point) (a : List ℕ) (fuel : ℕ)
      → Sound p
      → 2 * length a + 2 ≤ fuel
      → parse_frame (point_at http p a) ≡ parse_loop fuel (kind_at p) true (point_at http p a)
  unfolding parse_frame get_frame_control_message_type
  parse_frame-point (between σ fs) a fuel so h =
      parse_loop_fuel _ fuel un_control_frame true (connection http σ a) (omega arith) (omega arith)
  parse_frame-point (inside pl f σ fs) a fuel (hp, hf) h =
      let (place, k) = header_kind pl f σ (hf.0).1 in
      rw k (
        parse_loop_fuel _ fuel (kind f.opcode) true (within http pl f σ a)
          (bound pl f σ a _ (omega arith)) (bound pl f σ a fuel h))

  -- A call of `parse_frame` with more input ends where the input breaks off again.
  pub parse_frame-drains :
      (p : Point) (a c : List ℕ)
      → Sound p
      → a ++ c ≡ left_at p
      → (q : Point) × (b : List ℕ) × (parse_frame (point_at http p a) ≡ done (point_at http q b))
        × (b ++ c ≡ left_at q)
        × (final q ≡ final p)
        × Sound q
        × Waits q b
  parse_frame-drains p a c so e =
      let (q, b, n, run, eb, fin, sq, wq) = point_loop p a c so e in
      (
        q,
        b,
        parse_frame-point p a (n + 2 * length a + 2) so (omega arith)
            ∙ run (n + 2 * length a + 2) (omega arith),
        eb,
        fin,
        sq,
        wq,
      )
