-- ===== src/Message/Masking.antt =====
-- The XOR loop of `unMaskPayloadData` against RFC 6455, section 5.3: octet `j` of a frame's payload
-- is combined with key octet `j mod 4`, counted from the start of that frame.
use libwebsocket_component.Prelude.{
  ℕ, zero, suc, ◌%◌, ◌≡◌, refl, ap, ◌∙◌, ◌≢◌, arith, true, List, [], ◌∷◌, ◌++◌, append-nil, length,
  length-append, get_or, take-length-append, drop-length-append, All, bit_xor,
}
use libwebsocket_component.Prelude.Octets.{IsOctet, bit_xor_twice, bit_xor_recover, bit_xor-IsOctet}
use libwebsocket_component.Frame.{OpcodeE}
use libwebsocket_component.Message.{Message, new_message, xor_from, unmask_payload_data}

pub length-xor_from : (i : ℕ) (key bs : List ℕ) → length (xor_from i key bs) ≡ length bs
unfolding xor_from
length-xor_from i key [] = refl
length-xor_from i key (b ∷ bs) = ap suc (length-xor_from (suc i) key bs)

xor_from-nil : (i : ℕ) (key : List ℕ) → xor_from i key [] ≡ []
unfolding xor_from
xor_from-nil i key = refl

-- Only the index modulo the length of the key counts.
pub xor_from_congruent :
    (i j : ℕ) (key bs : List ℕ) → i % 4 ≡ j % 4 → xor_from i key bs ≡ xor_from j key bs
unfolding xor_from
xor_from_congruent i j key [] h = refl
xor_from_congruent i j key (b ∷ bs) h = rw h (
    ap (λ t. bit_xor b (get_or key (j % 4) 0) ∷ t)
      (xor_from_congruent (suc i) (suc j) key bs (omega arith)))

key-IsOctet : (key : List ℕ) (i : ℕ) → All IsOctet key → IsOctet (get_or key i 0)
key-IsOctet [] i h = omega arith
key-IsOctet (k ∷ ks) zero (hk, hks) = hk
key-IsOctet (k ∷ ks) (suc i) (hk, hks) = key-IsOctet ks i hks

-- Masking twice with one key from one index gives the octets back.
pub xor_from-xor_from :
    (i : ℕ) (key bs : List ℕ)
    → All IsOctet key
    → All IsOctet bs
    → xor_from i key (xor_from i key bs) ≡ bs
unfolding xor_from
xor_from-xor_from i key [] hk h = refl
xor_from-xor_from i key (b ∷ bs) hk (hb, hbs) =
    rw (bit_xor_twice b _ hb (key-IsOctet key (i % 4) hk), xor_from-xor_from (suc i) key bs hk hbs)

-- A message whose octets so far are all unmasked.
abbrev pub message_of : OpcodeE → List ℕ → Message
message_of t acc = record (new_message t acc) { segment_offset = length acc }

-- The payload `q` of a masked frame, appended to what is there, is combined with the key from the
-- index on at which it stands in the message.
pub unmask_payload_data-append :
    (key q acc : List ℕ) (t : OpcodeE)
    → (unmask_payload_data true key (record (message_of t acc) { message_buffer = acc ++ q })).1
      ≡ message_of t (acc ++ xor_from (length acc) key q)
unfolding unmask_payload_data
unmask_payload_data-append key [] acc t = rw (append-nil, xor_from-nil, append-nil) (ground arith)
unmask_payload_data-append key (b ∷ q) acc t = ground (
  arith,
  length-append acc (b ∷ q),
  length-append acc (xor_from (length acc) key (b ∷ q)),
  length-xor_from (length acc) key (b ∷ q),
  take-length-append acc (b ∷ q),
  drop-length-append acc (b ∷ q),
)

-- Octets that a client has masked from the first octet of its key on become the payload again when
-- they stand at a multiple of four octets of the message, for a key and a payload of octets.
pub unmask_aligned :
    (key p acc : List ℕ)
    → All IsOctet key
    → All IsOctet p
    → length acc % 4 ≡ 0
    → xor_from (length acc) key (xor_from 0 key p) ≡ p
unmask_aligned key p acc hk hp h =
    xor_from_congruent (length acc) 0 key (xor_from 0 key p) (omega arith)
    ∙ xor_from-xor_from 0 key p hk hp

-- Elsewhere it is not: if the key octet at the place of the frame in the message differs from the
-- first one, the first octet of the payload comes out wrong.
pub unmask_misaligned :
    (key p acc : List ℕ) (b : ℕ)
    → IsOctet b
    → All IsOctet key
    → get_or key (length acc % 4) 0 ≢ get_or key 0 0
    → xor_from (length acc) key (xor_from 0 key (b ∷ p)) ≢ b ∷ p
unfolding xor_from
unmask_misaligned key p acc b hb hk differ e = differ (
    cc (
      bit_xor_recover x k' x_octet k'_octet,
      bit_xor_recover x k x_octet k_octet,
      bit_xor_twice b k hb k_octet,
      ap (λ l. get_or l 0 0) e,
    ))
  where
    k : ℕ
    k = get_or key 0 0

    k' : ℕ
    k' = get_or key (length acc % 4) 0

    x : ℕ
    x = bit_xor b k

    k_octet : IsOctet k
    k_octet = key-IsOctet key 0 hk

    k'_octet : IsOctet k'
    k'_octet = key-IsOctet key (length acc % 4) hk

    x_octet : IsOctet x
    x_octet = bit_xor-IsOctet b k hb k_octet
