-- ===== src/Pack/Chunks.antt =====
-- A data message that is sent in chunks: the loop ends, and a client puts the message together.
use libwebsocket_component.Prelude.{
  ℕ, zero, suc, ◌<◌, ◌^◌, ◌≡◌, refl, ap, ◌∙◌, arith, true, false, inl, inr, List, [], ◌++◌,
  append_assoc, some, ltb, lt→ltb, le→not-ltb, ◌==◌, length, length-take, length-drop, take, drop,
  take-append-drop, done,
}
use libwebsocket_component.Frame.{
  frame_continue, frame_finished, OpcodeE, segment_message, text_message, binary_message,
  opcode_code,
}
use libwebsocket_component.Pack.{
  chunk_loop, pack_unmask_data_frame_chunk, pack_unmask_data_frame, MessageT, ty_text_message,
  ty_binary_message, message_type_of,
}
use libwebsocket_component.Pack.Decode.{reassemble}
use libwebsocket_component.Pack.Single.{
  server_wire, decode_frame-server_wire, pack_unmask_uncontrol_frame-server_wire,
}
use native.Mathlib.Decide.{dec_lt}

-- What the loop writes.
chunk_wire : ℕ → List ℕ → List ℕ
chunk_wire zero left = []
chunk_wire (suc fuel) left = elim (ltb 1024 (length left)) [
  | true ↦
      server_wire segment_message frame_continue (take 1024 left)
      ++ chunk_wire fuel (drop 1024 left)
  | false ↦ server_wire segment_message frame_finished left
]

full_chunk : (left : List ℕ) → 1024 < length left → length (take 1024 left) ≡ 1024
full_chunk left h = omega (arith, length-take 1024 left)

chunk_loop-chunk_wire :
    (fuel : ℕ) (buf left : List ℕ)
    → length left < fuel
    → 0 < length left
    → chunk_loop fuel buf left 1024 ≡ done (buf ++ chunk_wire fuel left)
unfolding chunk_loop chunk_wire
chunk_loop-chunk_wire zero buf left h lo = absurd (omega arith)
chunk_loop-chunk_wire (suc fuel) buf left h lo = elim (dec_lt 1024 (length left)) [
  | yes big ↦
      rw
        (
          lt→ltb _ _ lo,
          lt→ltb _ _ big,
          pack_unmask_uncontrol_frame-server_wire buf (take 1024 left) segment_message
              frame_continue (inl refl) (omega (arith, full_chunk left big)),
          chunk_loop,
          chunk_wire,
        )
        (chunk_loop-chunk_wire fuel _ (drop 1024 left) (omega (arith, length-drop 1024 left))
            (omega (arith, length-drop 1024 left))
          ∙ ap done (append_assoc buf _ _))
  | no small ↦
      rw
        (
          lt→ltb _ _ lo,
          le→not-ltb 1024 (length left) (omega arith),
          pack_unmask_uncontrol_frame-server_wire buf left segment_message frame_finished (inl refl)
              (omega arith),
          chunk_loop,
          chunk_wire,
        )
        refl
]

same : (n : ℕ) → (n == n) ≡ true
same n = ground arith

-- A frame at the head of what is put together.
reassemble-finished :
    (g : ℕ) (op : OpcodeE) (p rest : List ℕ)
    → length p < 2 ^ 64
    → reassemble (suc g) (opcode_code op) (server_wire op frame_finished p ++ rest) ≡ some (p, rest)
unfolding reassemble
reassemble-finished g op p rest h =
    rw (decode_frame-server_wire op frame_finished p rest h, same (opcode_code op), reassemble) refl

reassemble-continue :
    (g : ℕ) (op : OpcodeE) (p more rest after : List ℕ)
    → length p < 2 ^ 64
    → reassemble g 0 rest ≡ some (more, after)
    → reassemble (suc g) (opcode_code op) (server_wire op frame_continue p ++ rest)
      ≡ some (p ++ more, after)
unfolding reassemble
reassemble-continue g op p more rest after h e =
    rw (decode_frame-server_wire op frame_continue p rest h, same (opcode_code op), e, reassemble)
      refl

reassemble-chunk_wire :
    (fuel g : ℕ) (left rest : List ℕ)
    → length left < fuel
    → length left < g
    → length left < 2 ^ 64
    → reassemble g 0 (chunk_wire fuel left ++ rest) ≡ some (left, rest)
unfolding chunk_wire
reassemble-chunk_wire zero g left rest h hg hw = absurd (omega arith)
reassemble-chunk_wire (suc fuel) zero left rest h hg hw = absurd (omega arith)
reassemble-chunk_wire (suc fuel) (suc g) left rest h hg hw = elim (dec_lt 1024 (length left)) [
  | yes big ↦
      rw (lt→ltb _ _ big, chunk_wire)
        (rw (append_assoc (server_wire segment_message frame_continue (take 1024 left))) (
          reassemble-continue g segment_message (take 1024 left) (drop 1024 left)
            (chunk_wire fuel (drop 1024 left) ++ rest) rest (omega (arith, full_chunk left big))
            (reassemble-chunk_wire fuel g (drop 1024 left) rest (shorter big) (less big)
              (omega (arith, length-drop 1024 left)))
          ∙ rw (take-append-drop 1024 left) refl))
  | no small ↦
      rw (le→not-ltb 1024 (length left) (omega arith), chunk_wire)
        (reassemble-finished g segment_message left rest hw)
]
  where
    shorter : 1024 < length left → length (drop 1024 left) < fuel
    shorter big = omega (arith, length-drop 1024 left)

    less : 1024 < length left → length (drop 1024 left) < g
    less big = omega (arith, length-drop 1024 left)

message_wire : OpcodeE → List ℕ → List ℕ
message_wire op p =
    server_wire op frame_continue (take 1024 p) ++ chunk_wire (suc (length p)) (drop 1024 p)

pack_message :
    (buf p : List ℕ) (type : MessageT)
    → 1024 < length p
    → pack_unmask_data_frame buf p type true ≡ done (buf ++ message_wire (message_type_of type) p)
unfolding pack_unmask_data_frame pack_unmask_data_frame_chunk message_wire
pack_message buf p ty_text_message lo =
    rw
      (
        lt→ltb 1024 (length p) lo,
        pack_unmask_uncontrol_frame-server_wire buf (take 1024 p) text_message frame_continue
            (inr (inl refl)) (omega (arith, full_chunk p lo)),
      )
      (chunk_loop-chunk_wire (suc (length p)) _ (drop 1024 p) (omega (arith, length-drop 1024 p))
          (omega (arith, length-drop 1024 p))
        ∙ ap done (append_assoc buf _ _))
pack_message buf p ty_binary_message lo =
    rw
      (
        lt→ltb 1024 (length p) lo,
        pack_unmask_uncontrol_frame-server_wire buf (take 1024 p) binary_message frame_continue
            (inr (inr refl)) (omega (arith, full_chunk p lo)),
      )
      (chunk_loop-chunk_wire (suc (length p)) _ (drop 1024 p) (omega (arith, length-drop 1024 p))
          (omega (arith, length-drop 1024 p))
        ∙ ap done (append_assoc buf _ _))

reassemble-message_wire :
    (op : OpcodeE) (p rest : List ℕ) (g : ℕ)
    → 1024 < length p
    → length p < 2 ^ 64
    → length p < g
    → reassemble g (opcode_code op) (message_wire op p ++ rest) ≡ some (p, rest)
unfolding message_wire
reassemble-message_wire op p rest zero lo hi hg = absurd (omega arith)
reassemble-message_wire op p rest (suc g) lo hi hg =
    rw (append_assoc (server_wire op frame_continue (take 1024 p))) (
      reassemble-continue g op (take 1024 p) (drop 1024 p)
        (chunk_wire (suc (length p)) (drop 1024 p) ++ rest) rest (omega (arith, full_chunk p lo))
        (reassemble-chunk_wire (suc (length p)) g (drop 1024 p) rest
          (omega (arith, length-drop 1024 p)) (omega (arith, length-drop 1024 p))
          (omega (arith, length-drop 1024 p)))
      ∙ rw (take-append-drop 1024 p) refl)

-- A message of more than 1024 octets, below 2 ^ 64, that is sent in chunks is appended to what is
-- there as frames that a client puts together to the message, of the type that was asked for, with
-- what follows left. `g` is the fuel of the client, above the length of the message.
pub reassemble-pack_unmask_data_frame :
    (buf p rest : List ℕ) (type : MessageT) (g : ℕ)
    → 1024 < length p
    → length p < 2 ^ 64
    → length p < g
    → (w : List ℕ) × (pack_unmask_data_frame buf p type true ≡ done (buf ++ w))
      × (reassemble g (opcode_code (message_type_of type)) (w ++ rest) ≡ some (p, rest))
reassemble-pack_unmask_data_frame buf p rest type g lo hi hg = (
  message_wire (message_type_of type) p,
  pack_message buf p type lo,
  reassemble-message_wire (message_type_of type) p rest g lo hi hg,
)
