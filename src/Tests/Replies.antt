-- ===== src/Tests/Replies.antt =====
-- The frames of the server, and Base64.
use libwebsocket_component.Prelude.{
  ℕ, zero, suc, ◌%◌, ap, ◌≡◌, refl, arith, true, List, [], ◌∷◌, ◌++◌, some, inl, inr, codes, done,
  length,
}
use libwebsocket_component.Frame.{frame_continue, frame_finished, text_message, Header, opcode_code}
use libwebsocket_component.Pack.{
  pack_unmask_uncontrol_frame, pack_unmask_data_frame, ty_text_message, message_type_of,
}
use libwebsocket_component.Pack.Decode.{decode_frame, reassemble}
use libwebsocket_component.Pack.Single.{
  server_frame, decode_frame-pack_unmask_uncontrol_frame, pack_unmask_uncontrol_frame_loses,
}
use libwebsocket_component.Pack.Chunks.{reassemble-pack_unmask_data_frame}
use libwebsocket_component.Base64.{encode, decode}
use libwebsocket_component.Base64.RoundTrip.{decode-encode}

-- Octets of any number, kept shut where the number is large.
unfoldable repeated : ℕ → List ℕ
repeated zero = []
repeated (suc n) = n % 256 ∷ repeated n

length-repeated : (n : ℕ) → length (repeated n) ≡ n
unfolding repeated
length-repeated zero = refl
length-repeated (suc n) = ap suc (length-repeated n)

decode_frame-pack_unmask_uncontrol_frame_example :
    (h : Header) × (w : List ℕ) × (pack_unmask_uncontrol_frame
        (7 ∷ [])
        (codes "hi")
        text_message
        frame_continue
      ≡ done (h, (7 ∷ []) ++ w))
    × (decode_frame (w ++ (5 ∷ []))
        ≡ some (server_frame text_message frame_continue (codes "hi"), 5 ∷ []))
decode_frame-pack_unmask_uncontrol_frame_example =
    decode_frame-pack_unmask_uncontrol_frame (7 ∷ []) (codes "hi") (5 ∷ []) text_message
      frame_continue (inr (inl refl)) (ground arith)

pack_unmask_uncontrol_frame_loses_example :
    (h : Header) × (w : List ℕ) × (pack_unmask_uncontrol_frame []
        (repeated 70000)
        text_message
        frame_finished
      ≡ done (h, w))
    × (decode_frame w ≡ some (server_frame text_message frame_finished [], repeated 70000))
pack_unmask_uncontrol_frame_loses_example =
    pack_unmask_uncontrol_frame_loses (repeated 70000) text_message frame_finished (inr (inl refl))
      (omega (arith, length-repeated 70000)) (omega (arith, length-repeated 70000))

reassemble-pack_unmask_data_frame_example :
    (w : List ℕ) × (pack_unmask_data_frame [] (repeated 3000) ty_text_message true ≡ done ([] ++ w))
    × (reassemble 4000 (opcode_code (message_type_of ty_text_message)) (w ++ [])
        ≡ some (repeated 3000, []))
reassemble-pack_unmask_data_frame_example =
    reassemble-pack_unmask_data_frame [] (repeated 3000) [] ty_text_message 4000
      (omega (arith, length-repeated 3000)) (omega (arith, length-repeated 3000))
      (omega (arith, length-repeated 3000))

-- RFC 4648, section 10.
encode_examples :
    (encode (codes "foob") ≡ codes "Zm9vYg==")
    × (encode (codes "fooba") ≡ codes "Zm9vYmE=")
    × (encode (codes "foobar") ≡ codes "Zm9vYmFy")
unfolding encode
encode_examples = (refl, refl, refl)

decode-encode_example : decode (encode (codes "fooba")) ≡ codes "fooba"
decode-encode_example = decode-encode (codes "fooba") (ground arith)
