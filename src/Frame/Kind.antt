-- ===== src/Frame/Kind.antt =====
-- `get_frame_control_message_type` of websocket.cc: control or data frame, and the place of the
-- frame in its message.
use libwebsocket_component.Prelude.{
  ◌≡◌, refl, ◌≢◌, ◌⊎◌, inl, inr, arith, Outcome, done, aborted, unfinished,
}
use libwebsocket_component.Frame.{
  FinE, frame_continue, frame_finished, OpcodeE, segment_message, text_message, binary_message,
  close_message, ping_message, pong_message, reserved, FrameControlE, control_frame,
  un_control_frame, MessageFrameE, head_frame, middle_frame, tail_frame, head_tail_frame, Header,
  fin_of, opcode_of,
}

-- The nested switches; a control frame that is not final and a reserved opcode fail an assert.
unfoldable pub kind_of : OpcodeE → FinE → Outcome (FrameControlE × MessageFrameE)
kind_of segment_message frame_continue = done (un_control_frame, middle_frame)
kind_of segment_message frame_finished = done (un_control_frame, tail_frame)
kind_of text_message frame_continue = done (un_control_frame, head_frame)
kind_of text_message frame_finished = done (un_control_frame, head_tail_frame)
kind_of binary_message frame_continue = done (un_control_frame, head_frame)
kind_of binary_message frame_finished = done (un_control_frame, head_tail_frame)
kind_of close_message frame_continue = aborted
kind_of close_message frame_finished = done (control_frame, head_tail_frame)
kind_of ping_message frame_continue = aborted
kind_of ping_message frame_finished = done (control_frame, head_tail_frame)
kind_of pong_message frame_continue = aborted
kind_of pong_message frame_finished = done (control_frame, head_tail_frame)
kind_of reserved frame_continue = aborted
kind_of reserved frame_finished = aborted

unfoldable pub get_frame_control_message_type : Header → Outcome (FrameControlE × MessageFrameE)
unfolding kind_of
get_frame_control_message_type h = kind_of (opcode_of h.opcode) (fin_of h.fin)

Outcome-cases {ℓ} :
    {A : Type ℓ} (r : Outcome A) → r ≢ unfinished → ((a : A) × (r ≡ done a)) ⊎ (r ≡ aborted)
Outcome-cases (done a) h = inl (a, refl)
Outcome-cases aborted h = inr refl
Outcome-cases unfinished h = absurd (h refl)

get_frame_control_message_type-ne-unfinished :
    (h : Header) → get_frame_control_message_type h ≢ unfinished
unfolding get_frame_control_message_type
get_frame_control_message_type-ne-unfinished h = ground arith

pub get_frame_control_message_type_cases :
    (h : Header)
    → ((k : FrameControlE × MessageFrameE) × (get_frame_control_message_type h ≡ done k))
      ⊎ (get_frame_control_message_type h ≡ aborted)
get_frame_control_message_type_cases h =
    Outcome-cases _ (get_frame_control_message_type-ne-unfinished h)
