-- ===== src/Session/Refinement.antt =====
-- `parse_frame` does what the session says, on one frame and on any sequence of frames.
use libwebsocket_component.Prelude.{
  ℕ, suc, ◌+◌, ◌*◌, ◌%◌, ◌<◌, ◌≡◌, refl, sym, ap, ◌∙◌, arith, true, inl, inr, List, [], ◌∷◌, ◌++◌,
  lt→ltb, length, get_or, ◌≢◌, All, Option, done, length-append,
}
use libwebsocket_component.Prelude.Octets.{IsOctet}
use libwebsocket_component.Message.Masking.{unmask_aligned, unmask_misaligned}
use libwebsocket_component.Buffer.{readable_bytes}
use libwebsocket_component.Frame.{
  frame_continue, frame_finished, OpcodeE, segment_message, text_message, un_control_frame,
  read_frame_header, read_maskingkey,
}
use libwebsocket_component.Frame.Kind.{get_frame_control_message_type}
use libwebsocket_component.Context.{Connection, on_message_callback}
use libwebsocket_component.Parser.{parse_step, parse_loop, parse_frame}
use libwebsocket_component.Parser.Loop.{parse_loop_round, parse_loop_stop, parse_loop_fuel}
use libwebsocket_component.Message.{xor_from}
use native.Mathlib.Decide.{dec_lt}
use libwebsocket_component.Session.{
  ClientFrame, key, wire, wire_body, wire_all, wire_length, Session, receive, receive_as,
  receive_read, receive_all, as_read, IsOctets, Fits, AlignedAs, FitsAll, connection,
}
use libwebsocket_component.Session.Frames.Wire.{
  AtKey, short_frame, u16_frame, i64_frame, long_frame,
}

-- A text message in one frame.
abbrev pub only_fragment : ClientFrame → ClientFrame
only_fragment f = record f { opcode = text_message; fin = frame_finished }

-- The two fragments of a text message.
abbrev pub first_fragment : ClientFrame → ClientFrame
first_fragment f = record f { opcode = text_message; fin = frame_continue }

abbrev pub last_fragment : ClientFrame → List ℕ → ClientFrame
last_fragment g p = record g { opcode = segment_message; fin = frame_finished; payload = p }

module _ {H : Type 0} (http : Option H) where
  -- Between two frames the kind that the loop is given is that of the zero header.
  pub parse_frame-connection :
      (fuel : ℕ) (σ : Session) (buf : List ℕ)
      → 2 * length buf < fuel
      → parse_frame (connection http σ buf)
        ≡ parse_loop fuel un_control_frame true (connection http σ buf)
  unfolding parse_frame get_frame_control_message_type
  parse_frame-connection fuel σ buf h =
      parse_loop_fuel _ fuel un_control_frame true (connection http σ buf) (omega arith)
        (omega arith)

  -- A round of the loop whose step succeeds.
  round :
      (fuel : ℕ) (s t : Connection H)
      → 0 < readable_bytes s.buf
      → parse_step un_control_frame s.context.step s ≡ done (true, t)
      → parse_loop (suc fuel) un_control_frame true s ≡ parse_loop fuel un_control_frame true t
  round fuel s t h e = parse_loop_round fuel un_control_frame true s (lt→ltb _ _ h) ∙ rw e refl

  shorter : (f : ClientFrame) (rest : List ℕ) → length rest + 4 < length (wire f rest)
  shorter f rest = omega (
    arith,
    length-append (wire_length (length f.payload)) (wire_body f rest),
    length-append (xor_from 0 (key f) f.payload) rest,
  )

  -- A frame that is parsed in one round, and one that takes a second for its key.
  one_round :
      (f : ClientFrame) (σ : Session) (rest : List ℕ)
      → parse_step un_control_frame read_frame_header (connection http σ (wire f rest))
        ≡ done (true, connection http (receive_read f σ) rest)
      → parse_frame (connection http σ (wire f rest))
        ≡ parse_frame (connection http (receive_read f σ) rest)
  one_round f σ rest e =
      let fuel : ℕ = 2 * length (wire f rest) in
      parse_frame-connection (suc fuel) σ (wire f rest) (omega arith)
      ∙ round fuel _ _ (omega arith) e
      ∙ sym (parse_frame-connection fuel (receive_read f σ) rest (omega (arith, shorter f rest)))

  two_rounds :
      (f : ClientFrame) (σ : Session) (rest : List ℕ) (m : ℕ)
      → parse_step un_control_frame read_frame_header (connection http σ (wire f rest))
        ≡ done (true, AtKey http f σ rest m)
      → parse_step un_control_frame read_maskingkey (AtKey http f σ rest m)
        ≡ done (true, connection http (receive_read f σ) rest)
      → parse_frame (connection http σ (wire f rest))
        ≡ parse_frame (connection http (receive_read f σ) rest)
  two_rounds f σ rest m e d =
      let fuel : ℕ = 2 * length (wire f rest) in
      parse_frame-connection (suc (suc fuel)) σ (wire f rest) (omega arith)
      ∙ round (suc fuel) _ _ (omega arith) e
      ∙ round fuel _ _ (omega arith) d
      ∙ sym (parse_frame-connection fuel (receive_read f σ) rest (omega (arith, shorter f rest)))

  -- A frame at the head of the input that may come in the session, wherever it stands in its message:
  -- the call goes on as from the session that has received it, a continuation with its payload
  -- combined with the key from the index on at which it stands in the message.
  pub parse_frame-wire_read :
      (f : ClientFrame) (σ : Session) (rest : List ℕ)
      → Fits f σ
      → parse_frame (connection http σ (wire f rest))
        ≡ parse_frame (connection http (receive_read f σ) rest)
  unfolding parse_step
  parse_frame-wire_read f σ rest h = elim (dec_lt (length f.payload) 126) [
    | yes lo ↦ one_round f σ rest (short_frame http f σ rest h lo)
    | no hi ↦ elim (dec_lt (length f.payload) 65536) [
      | yes mid ↦
          two_rounds f σ rest 126 (u16_frame http f σ rest h (omega arith) mid)
            (long_frame http f σ rest 126 h (inr (inl (refl, refl, mid))) (omega arith))
      | no big ↦
          two_rounds f σ rest 127 (i64_frame http f σ rest h (omega arith))
            (long_frame http f σ rest 127 h (inr (inr (refl, refl))) (omega arith))
    ]
  ]

  pub read_aligned :
      (op : OpcodeE) (k p : List ℕ) (σ : Session)
      → All IsOctet k
      → All IsOctet p
      → AlignedAs op σ
      → as_read op k p σ ≡ p
  read_aligned segment_message k p σ hk hp h = unmask_aligned k p σ.pending hk hp h
  read_aligned _ k p σ hk hp h = refl

  -- One frame at a multiple of four octets of its message has the effect that the session states.
  pub parse_frame-wire :
      (f : ClientFrame) (σ : Session) (rest : List ℕ)
      → Fits f σ
      → AlignedAs f.opcode σ
      → parse_frame (connection http σ (wire f rest))
        ≡ parse_frame (connection http (receive f σ) rest)
  parse_frame-wire f σ rest h ha =
      parse_frame-wire_read f σ rest h
      ∙ ap (λ t. parse_frame (connection http (receive_as f.opcode f.fin t σ) rest))
          (read_aligned f.opcode (key f) f.payload σ (h.0).0 (h.0).1 ha)

  -- Any sequence of frames in one input, each of which may come after those before it, with every
  -- continuation at a multiple of four octets of its message: the call returns, the input is used
  -- up, and the messages, the state and what the handler is told are those of the session.
  pub parse_frame-wire_all :
      (fs : List ClientFrame) (σ : Session)
      → FitsAll fs σ
      → parse_frame (connection http σ (wire_all fs)) ≡ done (connection http (receive_all fs σ) [])
  parse_frame-wire_all [] σ h =
      parse_frame-connection 1 σ [] (omega arith)
      ∙ parse_loop_stop 0 un_control_frame true (connection http σ []) refl
  parse_frame-wire_all (f ∷ fs) σ (h, ha, hs) =
      parse_frame-wire f σ (wire_all fs) h ha ∙ parse_frame-wire_all fs (receive f σ) hs

  -- A text message in two fragments, with nothing pending before it. If the key of the second one
  -- has another octet at the place of the fragment in the message than at its start, the handler is
  -- told a message whose second part is not the payload of the second fragment.
  pub parse_frame-misaligned :
      (f g : ClientFrame) (b : ℕ) (q : List ℕ) (σ : Session)
      → IsOctets f
      → IsOctets (last_fragment g (b ∷ q))
      → get_or (key g) (length f.payload % 4) 0 ≢ get_or (key g) 0 0
      → (t : Connection H) × (m : List ℕ) × (parse_frame (
            connection http
              (record σ { pending = [] })
              (wire (first_fragment f) (wire (last_fragment g (b ∷ q)) [])))
          ≡ done t)
        × (t.events ≡ σ.events ++ (on_message_callback (f.payload ++ m) text_message ∷ []))
        × (m ≢ b ∷ q)
  parse_frame-misaligned f g b q σ hf hg differ =
      let σ₀ : Session = record σ { pending = [] } in
      let σ₁ : Session = receive_read (first_fragment f) σ₀ in
      let σ₂ : Session = receive_read (last_fragment g (b ∷ q)) σ₁ in
      (
        connection http σ₂ [],
        xor_from (length f.payload) (key g) (xor_from 0 (key g) (b ∷ q)),
        parse_frame-wire_read (first_fragment f) σ₀ (wire (last_fragment g (b ∷ q)) []) (hf, refl)
            ∙ parse_frame-wire_read (last_fragment g (b ∷ q)) σ₁ [] (hg, inl refl)
            ∙ parse_frame-connection 1 σ₂ [] (omega arith)
            ∙ parse_loop_stop 0 un_control_frame true (connection http σ₂ []) refl,
        refl,
        unmask_misaligned (key g) q f.payload b (hg.1).0 hg.0 differ,
      )
