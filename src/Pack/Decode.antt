-- ===== src/Pack/Decode.antt =====
-- How a client reads the frames of a server, from RFC 6455, section 5.2: an independent decoder.
use libwebsocket_component.Prelude.{
  ℕ, zero, suc, ◌+◌, ◌*◌, ◌/◌, ◌%◌, true, false, List, [], ◌∷◌, ◌++◌, Option, none, some, ltb, leb,
  ◌==◌, if◌then◌else◌, length, take, drop,
}
use libwebsocket_component.Endian.{big_endian64}

pub record ServerFrame : Type 0 where
  pub fin : ℕ
  pub opcode : ℕ
  pub payload : List ℕ

-- The payload, if it is all there.
abbrev pub decode_payload : ℕ → ℕ → List ℕ → Option (ServerFrame × List ℕ)
decode_payload first n rest =
    if leb n (length rest)
    then some
        (record { fin = first / 128; opcode = first % 16; payload = take n rest }, drop n rest)
    else none

abbrev decode_u16 : ℕ → List ℕ → Option (ServerFrame × List ℕ)
decode_u16 first (a ∷ b ∷ rest) = decode_payload first (a * 256 + b) rest
decode_u16 first _ = none

abbrev decode_i64 : ℕ → List ℕ → Option (ServerFrame × List ℕ)
decode_i64 first (a ∷ b ∷ c ∷ d ∷ e ∷ f ∷ g ∷ h ∷ rest) =
    decode_payload first (big_endian64 a b c d e f g h) rest
decode_i64 first _ = none

-- The length of 7 bits, of 16 bits or of 64 bits, the highest octet first. A frame with a mask is
-- not a server's.
abbrev decode_length : ℕ → ℕ → List ℕ → Option (ServerFrame × List ℕ)
decode_length first second rest =
    if ltb second 126
    then decode_payload first second rest
    else if second == 126
    then decode_u16 first rest
    else if second == 127
    then decode_i64 first rest
    else none

unfoldable pub decode_frame : List ℕ → Option (ServerFrame × List ℕ)
decode_frame [] = none
decode_frame (first ∷ []) = none
decode_frame (first ∷ second ∷ rest) = decode_length first second rest

-- A message: the payloads of its frames up to a final one. Its first frame has the given opcode and
-- the others are continuations. Each frame takes two octets at least, so the octets are fuel enough.
unfoldable pub reassemble : ℕ → ℕ → List ℕ → Option (List ℕ × List ℕ)
reassemble zero opcode octets = none
reassemble (suc fuel) opcode octets = elim (decode_frame octets) [
  | none ↦ none
  | some (f, rest) ↦ elim (f.opcode == opcode) [
    | false ↦ none
    | true ↦ elim (f.fin == 1) [
      | true ↦ some (f.payload, rest)
      | false ↦ elim (reassemble fuel 0 rest) [
        | none ↦ none
        | some (more, after) ↦ some (f.payload ++ more, after)
      ]
    ]
  ]
]
