-- ===== src/Session/Headers.antt =====
-- The steps that read a frame's header, on the octets of a client's frame.
use libwebsocket_component.Prelude.{
  ℕ, ◌+◌, ◌*◌, ◌^◌, ◌<◌, ◌≡◌, arith, true, List, [], ◌∷◌, Option, done,
}
use libwebsocket_component.Endian.{octet_at, network_to_host16, network_to_host64}
use libwebsocket_component.Buffer.{retrieve, read_int16, read_int64}
use libwebsocket_component.Frame.{
  FinE, OpcodeE, read_extended_payloadlen_u16, read_extended_payloadlen_i64, read_maskingkey,
  Header, header_of_bytes, ExtendedHeader, zero_extended_header, opcode_code, fin_code,
  set_maskingkey, set_extended_payloadlen_u16, set_extended_payloadlen_i64,
}
use libwebsocket_component.Parser.{
  parse_frame_read_extended_payloadlen_u16, parse_frame_read_extended_payloadlen_i64,
  parse_masked_payload, parse_frame_read_maskingkey,
}
use libwebsocket_component.Session.{Session, connection_at}

-- The header of a client's frame: no reserved bits, and a key.
abbrev pub client_header : OpcodeE → FinE → ℕ → Header
client_header op fin n = record {
  opcode = opcode_code op;
  rsv3 = 0;
  rsv2 = 0;
  rsv1 = 0;
  fin = fin_code fin;
  payloadlen = n;
  mask = 1;
}

pub header_of_bytes-client :
    (op : OpcodeE) (fin : FinE) (n : ℕ)
    → n < 128
    → header_of_bytes (opcode_code op + 128 * fin_code fin) (128 + n) ≡ client_header op fin n
unfolding header_of_bytes
header_of_bytes-client op fin n h = ground arith

module _ {H : Type 0} (http : Option H) where
  -- The key is read, and the payload step follows at once.
  pub parse_frame_read_maskingkey-key :
      (e : ExtendedHeader) (σ : Session) (a b c d : ℕ) (rest : List ℕ)
      → e.header.mask ≡ 1
      → parse_frame_read_maskingkey (connection_at http read_maskingkey e σ (a ∷ b ∷ c ∷ d ∷ rest))
        ≡ parse_masked_payload (
            connection_at http read_maskingkey
              (record e { masking_key = a ∷ b ∷ c ∷ d ∷ [] })
              σ
              rest)
  unfolding parse_frame_read_maskingkey set_maskingkey retrieve
  parse_frame_read_maskingkey-key e σ a b c d rest h = ground arith

  pub parse_frame_read_extended_payloadlen_u16-length :
      (h : Header) (σ : Session) (n : ℕ) (rest : List ℕ)
      → h.payloadlen ≡ 126
      → h.mask ≡ 1
      → n < 65536
      → parse_frame_read_extended_payloadlen_u16 (
          connection_at http read_extended_payloadlen_u16
            (record zero_extended_header { header = h })
            σ
            (octet_at 1 n ∷ octet_at 0 n ∷ rest))
        ≡ done (
          true,
          connection_at http read_maskingkey
              (record zero_extended_header { header = h; extended_payloadlen = n })
              σ
              rest,
        )
  unfolding parse_frame_read_extended_payloadlen_u16 read_int16 retrieve set_extended_payloadlen_u16
      network_to_host16
  parse_frame_read_extended_payloadlen_u16-length h σ n rest hp hm hn = ground arith

  pub parse_frame_read_extended_payloadlen_i64-length :
      (h : Header) (σ : Session) (n : ℕ) (rest : List ℕ)
      → h.payloadlen ≡ 127
      → h.mask ≡ 1
      → n < 2 ^ 64
      → parse_frame_read_extended_payloadlen_i64 (
          connection_at http read_extended_payloadlen_i64
            (record zero_extended_header { header = h })
            σ
            (octet_at 7 n
              ∷ octet_at 6 n
              ∷ octet_at 5 n
              ∷ octet_at 4 n
              ∷ octet_at 3 n
              ∷ octet_at 2 n
              ∷ octet_at 1 n
              ∷ octet_at 0 n
              ∷ rest))
        ≡ done (
          true,
          connection_at http read_maskingkey
              (record zero_extended_header { header = h; extended_payloadlen = n })
              σ
              rest,
        )
  unfolding parse_frame_read_extended_payloadlen_i64 read_int64 retrieve set_extended_payloadlen_i64
  parse_frame_read_extended_payloadlen_i64-length h σ n rest hp hm hn = ground (arith, swapped)
    where
      swapped :
          network_to_host64 (
            octet_at 7 n
            + 256 * octet_at 6 n
            + 65536 * octet_at 5 n
            + 16777216 * octet_at 4 n
            + 4294967296 * octet_at 3 n
            + 1099511627776 * octet_at 2 n
            + 281474976710656 * octet_at 1 n
            + 72057594037927936 * octet_at 0 n)
          ≡ n
      swapped = unfold network_to_host64 in omega arith
