-- ===== src/Common/Bytes.antt =====
-- Fixed-width little-endian numbers, as `memcpy` from and to an unsigned integer moves them.
use Prim.Native.Nat.{ℕ, zero, suc, ◌+◌, ◌*◌, ◌/◌, ◌%◌, ◌^◌, ◌<◌}
use mathlib.Core.Path.{◌≡◌, refl, ap, ◌∙◌}
use mathlib.Core.List.{List, [], ◌∷◌}
use native.Mathlib.Omega.{arith}
use native.Mathlib.Nat.{pow-suc}
use mathlib.Core.List.{◌++◌}
use zstore.Common.Lists.{length, take, drop, take_of_length, drop_of_length}

abbrev pub byte_mod : ℕ
byte_mod = 256

abbrev pub u32_mod : ℕ
u32_mod = 2 ^ 32

abbrev pub u64_mod : ℕ
u64_mod = 2 ^ 64

unfoldable pub le_bytes : ℕ → ℕ → List ℕ
le_bytes zero n = []
le_bytes (suc w) n = (n % 256) ∷ le_bytes w (n / 256)

unfoldable pub le_value : List ℕ → ℕ
le_value [] = 0
le_value (b ∷ bs) = b + 256 * le_value bs

pub length-le_bytes : (w n : ℕ) → length (le_bytes w n) ≡ w
unfolding le_bytes
length-le_bytes zero n = refl
length-le_bytes (suc w) n = ap suc (length-le_bytes w (n / 256))

-- What fits in the width is read back.
le_value-le_bytes : (w n : ℕ) → n < 256 ^ w → le_value (le_bytes w n) ≡ n
unfolding le_bytes le_value
le_value-le_bytes zero n h = omega arith
le_value-le_bytes (suc w) n h =
    omega (arith, le_value-le_bytes w (n / 256) (omega (arith, pow-suc 256 w)))

-- The same in a buffer that goes on behind the number.
pub le_value-take :
    (w n : ℕ) → n < 256 ^ w → (rest : List ℕ) → le_value (take w (le_bytes w n ++ rest)) ≡ n
le_value-take w n h rest =
    ap le_value (take_of_length w (le_bytes w n) (length-le_bytes w n) rest)
    ∙ le_value-le_bytes w n h

pub drop-le_bytes : (w n : ℕ) (rest : List ℕ) → drop w (le_bytes w n ++ rest) ≡ rest
drop-le_bytes w n rest = drop_of_length w (le_bytes w n) (length-le_bytes w n) rest

pub le_value_one : (b : ℕ) → le_value (b ∷ []) ≡ b
unfolding le_value
le_value_one b = omega arith
