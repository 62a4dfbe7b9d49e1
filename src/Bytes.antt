-- ===== src/Bytes.antt =====
-- The conversions of Rust's core that the code calls: bytes to integers and back, in both orders, and
-- the masks and shifts of one byte. A byte is a number below 256.
use usbd_storage.Prelude.{
  ℕ, zero, suc, ◌+◌, ◌*◌, ◌/◌, ◌%◌, ◌^◌, ◌<◌, ◌≡◌, refl, Bool, true, false, List, [], ◌∷◌, length,
  arith, bit_and, ◌==◌, passes_below, passes_below_lem, ◌&&◌,
}

-- `uN::from_le_bytes`
abbrev pub from_le_bytes : List ℕ → ℕ
from_le_bytes [] = 0
from_le_bytes (b ∷ bs) = b + 256 * from_le_bytes bs

-- `uN::to_le_bytes` of an integer of `k` bytes
abbrev pub to_le_bytes : ℕ → ℕ → List ℕ
to_le_bytes zero n = []
to_le_bytes (suc k) n = (n % 256) ∷ to_le_bytes k (n / 256)

-- `uN::from_be_bytes`
abbrev pub from_be_bytes : List ℕ → ℕ
from_be_bytes [] = 0
from_be_bytes (b ∷ bs) = b * 256 ^ length bs + from_be_bytes bs

-- `uN::to_be_bytes` of an integer of `k` bytes
abbrev pub to_be_bytes : ℕ → ℕ → List ℕ
to_be_bytes zero n = []
to_be_bytes (suc k) n = (n / 256 ^ k % 256) ∷ to_be_bytes k n

-- `x >> k`
abbrev pub shr : ℕ → ℕ → ℕ
shr x k = x / 2 ^ k

abbrev pub IsBytes : List ℕ → Type 0
IsBytes [] = Unit
IsBytes (b ∷ bs) = (b < 256) × IsBytes bs

pub from-to_le_u32 : (n : ℕ) → n < 2 ^ 32 → from_le_bytes (to_le_bytes 4 n) ≡ n
from-to_le_u32 n h = omega arith

-- The masks of the code, on a byte.
masks_agree : ℕ → Bool
masks_agree x = (bit_and x 15 == x % 16) && (bit_and x 63 == x % 64)

mask_table : passes_below masks_agree 256 ≡ true
unfolding passes_below masks_agree
mask_table = refl

pub low_nibble : (x : ℕ) → x < 256 → bit_and x 15 ≡ x % 16
unfolding masks_agree
low_nibble x h = ground (arith, passes_below_lem masks_agree 256 x h mask_table)

pub low_six_bits : (x : ℕ) → x < 256 → bit_and x 63 ≡ x % 64
unfolding masks_agree
low_six_bits x h = ground (arith, passes_below_lem masks_agree 256 x h mask_table)

-- `xs.starts_with(ys)`
abbrev pub starts_with : List ℕ → List ℕ → Bool
starts_with xs [] = true
starts_with [] (y ∷ ys) = false
starts_with (x ∷ xs) (y ∷ ys) = x == y && starts_with xs ys
