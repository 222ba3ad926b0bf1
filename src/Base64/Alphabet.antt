-- ===== src/Base64/Alphabet.antt =====
-- The characters of base 64 and their indices, and the masks on octets and on indices.
use Prim.Native.Nat.{bit_and}
use libwebsocket_component.Prelude.{ℕ, ◌*◌, ◌/◌, ◌%◌, ◌<◌, ◌≡◌, refl, true, ◌==◌, ==_iff}
use libwebsocket_component.Prelude.Octets.{holds_below, holds_below_at, IsOctet}
use libwebsocket_component.Base64.{base64_char, find_char, goes_on}

-- An index, its character, and the index of that.
index_table : holds_below (λ k. find_char (base64_char k) == k) 64 ≡ true
unfolding holds_below
index_table = refl

pub find_char-base64_char : (k : ℕ) → k < 64 → find_char (base64_char k) ≡ k
find_char-base64_char k h = (==_iff _ k).0 (holds_below_at _ 64 k h index_table)

goes_on_table : holds_below (λ k. goes_on (base64_char k)) 64 ≡ true
unfolding holds_below
goes_on_table = refl

pub goes_on-base64_char : (k : ℕ) → k < 64 → goes_on (base64_char k) ≡ true
goes_on-base64_char k h = holds_below_at _ 64 k h goes_on_table

-- A mask as arithmetic, from its table.
masked :
    (mask : ℕ) (value : ℕ → ℕ) (n : ℕ)
    → holds_below (λ x. bit_and x mask == value x) n ≡ true
    → (x : ℕ) → x < n
    → bit_and x mask ≡ value x
masked mask value n e x h = (==_iff _ (value x)).0 (holds_below_at _ n x h e)

pub mask_fc : (x : ℕ) → IsOctet x → bit_and x 0xfc ≡ x / 4 * 4
unfolding holds_below
mask_fc = masked 0xfc (λ x. x / 4 * 4) 256 refl

pub mask_03 : (x : ℕ) → IsOctet x → bit_and x 0x03 ≡ x % 4
unfolding holds_below
mask_03 = masked 0x03 (λ x. x % 4) 256 refl

pub mask_f0 : (x : ℕ) → IsOctet x → bit_and x 0xf0 ≡ x / 16 * 16
unfolding holds_below
mask_f0 = masked 0xf0 (λ x. x / 16 * 16) 256 refl

pub mask_0f : (x : ℕ) → IsOctet x → bit_and x 0x0f ≡ x % 16
unfolding holds_below
mask_0f = masked 0x0f (λ x. x % 16) 256 refl

pub mask_c0 : (x : ℕ) → IsOctet x → bit_and x 0xc0 ≡ x / 64 * 64
unfolding holds_below
mask_c0 = masked 0xc0 (λ x. x / 64 * 64) 256 refl

pub mask_3f : (x : ℕ) → IsOctet x → bit_and x 0x3f ≡ x % 64
unfolding holds_below
mask_3f = masked 0x3f (λ x. x % 64) 256 refl

pub mask_30 : (x : ℕ) → IsOctet x → bit_and x 0x30 ≡ x / 16 % 4 * 16
unfolding holds_below
mask_30 = masked 0x30 (λ x. x / 16 % 4 * 16) 256 refl

pub mask_3c : (x : ℕ) → IsOctet x → bit_and x 0x3c ≡ x / 4 % 16 * 4
unfolding holds_below
mask_3c = masked 0x3c (λ x. x / 4 % 16 * 4) 256 refl
