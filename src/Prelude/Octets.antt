-- ===== src/Prelude/Octets.antt =====
-- Facts about octets, checked over their whole range by evaluation.
use Prim.Native.Nat.{ℕ, zero, suc, ◌<◌, bit_xor}
use mathlib.Core.Path.{◌≡◌, refl}
use mathlib.Core.Bool.{Bool, true, ◌&&◌}
use native.Mathlib.Omega.{arith}
use libwebsocket_component.Prelude.Tests.{◌==◌, ==_iff, ltb, ltb→lt}

abbrev pub IsOctet : ℕ → Type 0
IsOctet b = b < 256

-- A test holds at all numbers below a bound.
unfoldable pub holds_below : (ℕ → Bool) → ℕ → Bool
holds_below test zero = true
holds_below test (suc bound) = holds_below test bound && test bound

pub holds_below_at :
    (test : ℕ → Bool) (bound i : ℕ) → i < bound → holds_below test bound ≡ true → test i ≡ true
unfolding holds_below
holds_below_at test zero i below e = absurd (omega arith)
holds_below_at test (suc bound) i below e = ground (arith, holds_below_at test bound i)

-- A test holds at all pairs of octets.
abbrev holds_at_octets : (ℕ → ℕ → Bool) → Bool
holds_at_octets test = holds_below (λ x. holds_below (test x) 256) 256

at_octets :
    (test : ℕ → ℕ → Bool) (x k : ℕ)
    → IsOctet x
    → IsOctet k
    → holds_at_octets test ≡ true
    → test x k ≡ true
at_octets test x k hx hk e =
    holds_below_at (test x) 256 k hk (holds_below_at (λ y. holds_below (test y) 256) 256 x hx e)

-- The same key octet applied twice gives the octet back.
pub bit_xor_twice : (x k : ℕ) → IsOctet x → IsOctet k → bit_xor (bit_xor x k) k ≡ x
unfolding holds_below
bit_xor_twice x k hx hk =
    (==_iff _ x).0 (at_octets (λ y l. bit_xor (bit_xor y l) l == y) x k hx hk twice)
  where
    twice : holds_at_octets (λ y l. bit_xor (bit_xor y l) l == y) ≡ true
    twice = refl

-- Another key octet gives another octet.
pub bit_xor_recover : (x k : ℕ) → IsOctet x → IsOctet k → bit_xor (bit_xor x k) x ≡ k
unfolding holds_below
bit_xor_recover x k hx hk =
    (==_iff _ k).0 (at_octets (λ y l. bit_xor (bit_xor y l) y == l) x k hx hk recovered)
  where
    recovered : holds_at_octets (λ y l. bit_xor (bit_xor y l) y == l) ≡ true
    recovered = refl

pub bit_xor-IsOctet : (x k : ℕ) → IsOctet x → IsOctet k → IsOctet (bit_xor x k)
unfolding holds_below
bit_xor-IsOctet x k hx hk = ltb→lt _ _ (at_octets (λ y l. ltb (bit_xor y l) 256) x k hx hk small)
  where
    small : holds_at_octets (λ y l. ltb (bit_xor y l) 256) ≡ true
    small = refl
