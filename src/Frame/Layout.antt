-- ===== src/Frame/Layout.antt =====
-- The bit fields of `header_t` against its two octets in memory.
use libwebsocket_component.Prelude.{ℕ, ◌+◌, ◌*◌, ◌≡◌, arith, [], ◌∷◌, All}
use libwebsocket_component.Prelude.Octets.{IsOctet}
use libwebsocket_component.Frame.{Header, IsHeader, header_bytes, header_of_bytes}

pub header_of_bytes-IsHeader : (c d : ℕ) → IsHeader (header_of_bytes c d)
unfolding header_of_bytes
header_of_bytes-IsHeader c d = ground arith

pub header_bytes-IsOctet : (h : Header) → IsHeader h → All IsOctet (header_bytes h)
unfolding header_bytes
header_bytes-IsOctet h v = ground arith

pub header_of_bytes-header_bytes :
    (h : Header)
    → IsHeader h
    → header_of_bytes
        (h.opcode + 16 * h.rsv3 + 32 * h.rsv2 + 64 * h.rsv1 + 128 * h.fin)
        (h.payloadlen + 128 * h.mask)
      ≡ h
unfolding header_of_bytes
header_of_bytes-header_bytes h v = ground arith

-- Two octets that are read as the bit fields of a header are the memory of that header.
pub header_bytes-header_of_bytes :
    (c d : ℕ) → IsOctet c → IsOctet d → header_bytes (header_of_bytes c d) ≡ c ∷ d ∷ []
unfolding header_bytes header_of_bytes
header_bytes-header_of_bytes c d hc hd = ground arith
