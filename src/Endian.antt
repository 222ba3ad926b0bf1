-- ===== src/Endian.antt =====
-- libwebsocket/private/Endian.h on a little-endian host, where the order of the octets is reversed
-- between host and network.
use libwebsocket_component.Prelude.{ℕ, ◌+◌, ◌*◌, ◌/◌, ◌%◌, ◌^◌, ◌<◌, ◌≡◌, arith, List, [], ◌∷◌}
use libwebsocket_component.Prelude.Octets.{IsOctet}

unfoldable pub host_to_network16 : ℕ → ℕ
host_to_network16 x = x % 256 * 256 + x / 256 % 256

unfoldable pub network_to_host16 : ℕ → ℕ
network_to_host16 x = x % 256 * 256 + x / 256 % 256

-- Octet `i` of a number, the lowest first.
abbrev pub octet_at : ℕ → ℕ → ℕ
octet_at i x = x / 256 ^ i % 256

-- The number whose octets are these, the highest first.
abbrev pub big_endian64 : ℕ → ℕ → ℕ → ℕ → ℕ → ℕ → ℕ → ℕ → ℕ
big_endian64 a b c d e f g h =
    a * 72057594037927936
    + b * 281474976710656
    + c * 1099511627776
    + d * 4294967296
    + e * 16777216
    + f * 65536
    + g * 256
    + h

-- The octets as a little-endian host stores the number.
abbrev pub memory16 : ℕ → List ℕ
memory16 x = octet_at 0 x ∷ octet_at 1 x ∷ []

abbrev pub memory64 : ℕ → List ℕ
memory64 x =
    octet_at 0 x
    ∷ octet_at 1 x
    ∷ octet_at 2 x
    ∷ octet_at 3 x
    ∷ octet_at 4 x
    ∷ octet_at 5 x
    ∷ octet_at 6 x
    ∷ octet_at 7 x
    ∷ []

unfoldable pub host_to_network64 : ℕ → ℕ
host_to_network64 x =
    big_endian64 (octet_at 0 x) (octet_at 1 x) (octet_at 2 x) (octet_at 3 x) (octet_at 4 x)
      (octet_at 5 x) (octet_at 6 x) (octet_at 7 x)

unfoldable pub network_to_host64 : ℕ → ℕ
network_to_host64 x =
    big_endian64 (octet_at 0 x) (octet_at 1 x) (octet_at 2 x) (octet_at 3 x) (octet_at 4 x)
      (octet_at 5 x) (octet_at 6 x) (octet_at 7 x)

-- Sixteen bits come back from network order.
pub network_to_host16-host_to_network16 :
    (x : ℕ) → x < 65536 → network_to_host16 (host_to_network16 x) ≡ x
unfolding host_to_network16 network_to_host16
network_to_host16-host_to_network16 x h = omega arith

-- Octets that a little-endian host reads as one number, and swaps, count from the first as highest.
pub network_to_host64-octets :
    (a b c d e f g h : ℕ)
    → IsOctet a
    → IsOctet b
    → IsOctet c
    → IsOctet d
    → IsOctet e
    → IsOctet f
    → IsOctet g
    → IsOctet h
    → network_to_host64 (big_endian64 h g f e d c b a) ≡ big_endian64 a b c d e f g h
unfolding network_to_host64
network_to_host64-octets a b c d e f g h ha hb hc hd he hf hg hh = omega arith

-- Sixty-four bits come back from network order.
pub network_to_host64-host_to_network64 :
    (x : ℕ) → x < 2 ^ 64 → network_to_host64 (host_to_network64 x) ≡ x
unfolding host_to_network64 network_to_host64
network_to_host64-host_to_network64 x h = omega arith
