-- ===== src/Base/Bytes.antt =====
-- Byte strings as lists of numbers below 256, and `to_be_bytes`, `from_be_bytes` of Rust's
-- unsigned integers of `w` bytes.
use mathlib.Core.List.{foldl, foldl-append}
use native.Mathlib.Nat.{pow-suc}
use real_layer.Base.{
  ℕ, zero, suc, ◌+◌, ◌*◌, ◌/◌, ◌%◌, ◌^◌, ◌<◌, ◌≡◌, refl, List, [], ◌∷◌, ◌++◌, arith, length,
  length-append,
}

abbrev pub Bytes : Type 0
Bytes = List ℕ

unfoldable pub to_be_bytes : ℕ → ℕ → Bytes
to_be_bytes zero n = []
to_be_bytes (suc w) n = to_be_bytes w (n / 256) ++ (n % 256) ∷ []

unfoldable pub from_be_bytes : Bytes → ℕ
from_be_bytes = foldl (λ acc b. acc * 256 + b) 0

pub length-to_be_bytes : (w n : ℕ) → length (to_be_bytes w n) ≡ w
unfolding to_be_bytes
length-to_be_bytes zero n = refl
length-to_be_bytes (suc w) n = omega (
  arith,
  length-append (to_be_bytes w (n / 256)) ((n % 256) ∷ []),
  length-to_be_bytes w (n / 256),
)

from_be_bytes-snoc :
    (bs : Bytes) (b : ℕ) → from_be_bytes (bs ++ b ∷ []) ≡ from_be_bytes bs * 256 + b
unfolding from_be_bytes
from_be_bytes-snoc bs b = rw foldl-append

div-lt-pow : (w n : ℕ) → n < 256 ^ suc w → n / 256 < 256 ^ w
div-lt-pow w n h = omega (arith, pow-suc 256 w)

-- Decoding what was encoded gives a number that fits back.
pub from_be_bytes-to_be_bytes : (w n : ℕ) → n < 256 ^ w → from_be_bytes (to_be_bytes w n) ≡ n
unfolding to_be_bytes
from_be_bytes-to_be_bytes zero n h = unfold from_be_bytes in omega arith
from_be_bytes-to_be_bytes (suc w) n h =
    rw (from_be_bytes-snoc (to_be_bytes w (n / 256)) (n % 256))
      (omega (arith, from_be_bytes-to_be_bytes w (n / 256) (div-lt-pow w n h)))
