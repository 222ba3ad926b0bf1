-- ===== src/Pack/Single.antt =====
-- What the packing functions write, and what a client reads from it.
use libwebsocket_component.Prelude.{
  ℕ, ◌+◌, ◌*◌, ◌%◌, ◌^◌, ◌≤◌, ◌<◌, ◌≡◌, ◌⊎◌, refl, ap, ◌∙◌, arith, true, false, ◌&&◌, List, [], ◌∷◌,
  ◌++◌, append-nil, append_assoc, some, ltb, leb, lt→ltb, le→not-ltb, if◌then◌else◌, length,
  length-append, take-length-append, drop-length-append, Outcome, done, aborted,
}
use native.Mathlib.Decide.{dec_lt}
use libwebsocket_component.Endian.{octet_at, host_to_network16, host_to_network64, big_endian64}
use libwebsocket_component.Frame.{
  FinE, frame_finished, OpcodeE, segment_message, text_message, binary_message, close_message,
  ping_message, pong_message, Header, header_bytes, opcode_code, fin_code,
}
use libwebsocket_component.Pack.{
  packed_header, validate_uncontrol_frame_header, validate_control_frame_header,
  pack_unmask_uncontrol_frame_header, pack_unmask_control_frame_header, int16_cast, payloadlen_of,
  extended_payloadlen_of, pack_unmask_uncontrol_frame, pack_unmask_control_frame,
}
use libwebsocket_component.Pack.Decode.{ServerFrame, decode_payload, decode_frame}

-- A server's frame as the RFC has it.
abbrev pub server_length : ℕ → List ℕ
server_length n =
    if ltb n 126
    then n ∷ []
    else if ltb n 65536
    then 126 ∷ octet_at 1 n ∷ octet_at 0 n ∷ []
    else 127
      ∷ octet_at 7 n
      ∷ octet_at 6 n
      ∷ octet_at 5 n
      ∷ octet_at 4 n
      ∷ octet_at 3 n
      ∷ octet_at 2 n
      ∷ octet_at 1 n
      ∷ octet_at 0 n
      ∷ []

abbrev pub first_octet : OpcodeE → FinE → ℕ
first_octet op fin = opcode_code op + 128 * fin_code fin

abbrev pub server_wire : OpcodeE → FinE → List ℕ → List ℕ
server_wire op fin p = first_octet op fin ∷ (server_length (length p) ++ p)

abbrev pub server_frame : OpcodeE → FinE → List ℕ → ServerFrame
server_frame op fin p = record { fin = fin_code fin; opcode = opcode_code op; payload = p }

decode_payload-append :
    (op : OpcodeE) (fin : FinE) (p rest : List ℕ)
    → decode_payload (first_octet op fin) (length p) (p ++ rest)
      ≡ some (server_frame op fin p, rest)
decode_payload-append op fin p rest =
    rw (fits, take-length-append p rest, drop-length-append p rest) (ground arith)
  where
    fits : leb (length p) (length (p ++ rest)) ≡ true
    fits = ground (arith, length-append p rest)

-- The decoder reads every frame back, and leaves what follows it.
pub decode_frame-server_wire :
    (op : OpcodeE) (fin : FinE) (p rest : List ℕ)
    → length p < 2 ^ 64
    → decode_frame (server_wire op fin p ++ rest) ≡ some (server_frame op fin p, rest)
unfolding decode_frame
decode_frame-server_wire op fin p rest h = elim (dec_lt (length p) 126) [
  | yes lo ↦ rw (lt→ltb _ _ lo, lt→ltb _ _ lo) (decode_payload-append op fin p rest)
  | no hi ↦ elim (dec_lt (length p) 65536) [
    | yes mid ↦
        rw (le→not-ltb (length p) 126 (omega arith), lt→ltb _ _ mid, two (length p) mid)
          (decode_payload-append op fin p rest)
    | no big ↦
        rw
          (
            le→not-ltb (length p) 126 (omega arith),
            le→not-ltb (length p) 65536 (omega arith),
            eight (length p) h,
          )
          (decode_payload-append op fin p rest)
  ]
]
  where
    two : (n : ℕ) → n < 65536 → octet_at 1 n * 256 + octet_at 0 n ≡ n
    two n h = omega arith

    eight :
        (n : ℕ)
        → n < 2 ^ 64
        → big_endian64
            (octet_at 7 n)
            (octet_at 6 n)
            (octet_at 5 n)
            (octet_at 4 n)
            (octet_at 3 n)
            (octet_at 2 n)
            (octet_at 1 n)
            (octet_at 0 n)
          ≡ n
    eight n h = omega arith

abbrev pub IsDataOpcode : OpcodeE → Type 0
IsDataOpcode op = (op ≡ segment_message) ⊎ (op ≡ text_message) ⊎ (op ≡ binary_message)

-- The octets of a packed header: the first one is the RFC's, the second is the length of 7 bits.
packed_bytes :
    (op : OpcodeE) (fin : FinE) (n : ℕ)
    → header_bytes (packed_header op fin (payloadlen_of n))
      ≡ first_octet op fin ∷ payloadlen_of n ∷ []
unfolding header_bytes
packed_bytes op fin n = ground arith

payloadlen_of-le : (n : ℕ) → leb (payloadlen_of n) 127 ≡ true
payloadlen_of-le n = ground arith

data_code :
    (op : OpcodeE)
    → IsDataOpcode op
    → (leb 0 (opcode_code op % 16) && leb (opcode_code op % 16) 2) ≡ true
data_code op h = ground arith

-- Of any length: the two octets of the header, the extended length and the data.
written :
    (buf p : List ℕ) (op : OpcodeE) (fin : FinE)
    → IsDataOpcode op
    → pack_unmask_uncontrol_frame buf p op fin
      ≡ done (
        packed_header op fin (payloadlen_of (length p)),
        buf
            ++ (first_octet op fin ∷ (payloadlen_of (length p) ∷ extended_payloadlen_of (length p))
                ++ p),
      )
unfolding pack_unmask_uncontrol_frame pack_unmask_uncontrol_frame_header
    validate_uncontrol_frame_header
written buf p op fin ho =
    rw (payloadlen_of-le, data_code op ho, packed_bytes) (simp (append_assoc, append-nil))

written_length : (n : ℕ) → n ≤ 65535 → payloadlen_of n ∷ extended_payloadlen_of n ≡ server_length n
unfolding host_to_network16
written_length n h = ground arith

as_server_wire :
    (buf p : List ℕ) (op : OpcodeE) (fin : FinE) (header : Header)
    → length p ≤ 65535
    → ◌≡◌ {A = Outcome (Header × List ℕ)}
        (done (
          header,
          buf
              ++ (first_octet op fin
                    ∷ (payloadlen_of (length p) ∷ extended_payloadlen_of (length p))
                  ++ p),
        ))
        (done (header, buf ++ server_wire op fin p))
as_server_wire buf p op fin header h =
    ap (λ (t : List ℕ). done (header, buf ++ (first_octet op fin ∷ t ++ p)))
      (written_length (length p) h)

-- Up to 65535 octets a data frame is written as the RFC has it.
pub pack_unmask_uncontrol_frame-server_wire :
    (buf p : List ℕ) (op : OpcodeE) (fin : FinE)
    → IsDataOpcode op
    → length p ≤ 65535
    → pack_unmask_uncontrol_frame buf p op fin
      ≡ done (packed_header op fin (payloadlen_of (length p)), buf ++ server_wire op fin p)
pack_unmask_uncontrol_frame-server_wire buf p op fin ho h =
    written buf p op fin ho
    ∙ as_server_wire buf p op fin (packed_header op fin (payloadlen_of (length p))) h

-- What a data frame of more than 65535 octets is written as: the cast of the length in network order
-- to 16 bits leaves eight zero octets, below 2 ^ 48 octets of data.
pub pack_unmask_uncontrol_frame-long :
    (buf p : List ℕ) (op : OpcodeE) (fin : FinE)
    → IsDataOpcode op
    → 65535 < length p
    → length p < 2 ^ 48
    → pack_unmask_uncontrol_frame buf p op fin
      ≡ done (
        packed_header op fin 127,
        buf ++ (first_octet op fin ∷ 127 ∷ 0 ∷ 0 ∷ 0 ∷ 0 ∷ 0 ∷ 0 ∷ 0 ∷ 0 ∷ p),
      )
pack_unmask_uncontrol_frame-long buf p op fin ho lo hi =
    written buf p op fin ho
    ∙ rw (le→not-ltb (length p) 126 (omega arith), not_short, no_length (length p) hi) refl
  where
    not_short : leb (length p) 65535 ≡ false
    not_short = ground arith

    no_length : (n : ℕ) → n < 2 ^ 48 → int16_cast (host_to_network64 (n % 2 ^ 64)) ≡ 0
    no_length n h = unfold int16_cast host_to_network64 in ground arith

-- A data frame of more than 65535 octets, below 2 ^ 48, is packed into octets from which a client
-- reads a frame with no payload, with the data left over as if they were further frames.
pub pack_unmask_uncontrol_frame_loses :
    (p : List ℕ) (op : OpcodeE) (fin : FinE)
    → IsDataOpcode op
    → 65535 < length p
    → length p < 2 ^ 48
    → (h : Header) × (w : List ℕ) × (pack_unmask_uncontrol_frame [] p op fin ≡ done (h, w))
      × (decode_frame w ≡ some (server_frame op fin [], p))
unfolding decode_frame
pack_unmask_uncontrol_frame_loses p op fin ho lo hi = (
  packed_header op fin 127,
  first_octet op fin ∷ 127 ∷ 0 ∷ 0 ∷ 0 ∷ 0 ∷ 0 ∷ 0 ∷ 0 ∷ 0 ∷ p,
  pack_unmask_uncontrol_frame-long [] p op fin ho lo hi,
  decode_payload-append op fin [] p,
)

-- A data frame of up to 65535 octets, appended to what is there, is read back by a client, and what
-- follows it is left.
pub decode_frame-pack_unmask_uncontrol_frame :
    (buf p rest : List ℕ) (op : OpcodeE) (fin : FinE)
    → IsDataOpcode op
    → length p ≤ 65535
    → (h : Header) × (w : List ℕ) × (pack_unmask_uncontrol_frame buf p op fin ≡ done (h, buf ++ w))
      × (decode_frame (w ++ rest) ≡ some (server_frame op fin p, rest))
decode_frame-pack_unmask_uncontrol_frame buf p rest op fin ho h = (
  packed_header op fin (payloadlen_of (length p)),
  server_wire op fin p,
  pack_unmask_uncontrol_frame-server_wire buf p op fin ho h,
  decode_frame-server_wire op fin p rest (omega arith),
)

abbrev pub IsControlOpcode : OpcodeE → Type 0
IsControlOpcode op = (op ≡ close_message) ⊎ (op ≡ ping_message) ⊎ (op ≡ pong_message)

control_code :
    (op : OpcodeE)
    → IsControlOpcode op
    → (leb 8 (opcode_code op % 16) && leb (opcode_code op % 16) 10) ≡ true
control_code op h = ground arith

-- A final control frame of up to 65535 octets, appended to what is there, is read back by a client.
pub decode_frame-pack_unmask_control_frame :
    (buf p rest : List ℕ) (op : OpcodeE)
    → IsControlOpcode op
    → length p ≤ 65535
    → (h : Header) × (w : List ℕ) × (pack_unmask_control_frame buf p op frame_finished
        ≡ done (h, buf ++ w))
      × (decode_frame (w ++ rest) ≡ some (server_frame op frame_finished p, rest))
unfolding pack_unmask_control_frame pack_unmask_control_frame_header validate_control_frame_header
decode_frame-pack_unmask_control_frame buf p rest op ho h = (
  packed_header op frame_finished (payloadlen_of (length p)),
  server_wire op frame_finished p,
  rw (payloadlen_of-le, fits (length p) h, small (length p) h, control_code op ho, packed_bytes)
      (simp (append_assoc, append-nil)
        (as_server_wire buf p op frame_finished
          (packed_header op frame_finished (payloadlen_of (length p))) h)),
  decode_frame-server_wire op frame_finished p rest (omega arith),
)
  where
    fits : (n : ℕ) → n ≤ 65535 → leb (payloadlen_of n % 128) 126 ≡ true
    fits n h = ground arith

    small : (n : ℕ) → n ≤ 65535 → leb (payloadlen_of n) 126 ≡ true
    small n h = ground arith

-- Packing a control frame of more than 65535 octets aborts, whatever its opcode and FIN.
pub pack_unmask_control_frame_aborts :
    (buf p : List ℕ) (op : OpcodeE) (fin : FinE)
    → 65535 < length p
    → pack_unmask_control_frame buf p op fin ≡ aborted
unfolding pack_unmask_control_frame pack_unmask_control_frame_header validate_control_frame_header
pack_unmask_control_frame_aborts buf p op fin h = ground arith
