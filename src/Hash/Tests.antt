-- ===== src/Hash/Tests.antt =====
-- Tests of the key hashes of src/object.cc.
use zstore.Common.{ℕ, ◌≡◌, ◌↔◌, refl, true, List, [], ◌∷◌, arith}
use zstore.Hash.{KeyHash, IsKeyHash, key_eq, scan_hex}
use zstore.Hash.Hex.{key_eq_iff}

abbrev key_a : KeyHash
key_a =
    0 ∷ 1 ∷ 2 ∷ 3 ∷ 4 ∷ 5 ∷ 6 ∷ 7 ∷ 8 ∷ 9 ∷ 10 ∷ 11 ∷ 12 ∷ 13 ∷ 14 ∷ 15 ∷ 250 ∷ 251 ∷ 252 ∷ 253
    ∷ 254 ∷ 255 ∷ 0 ∷ 0 ∷ 0 ∷ 0 ∷ 0 ∷ 0 ∷ 0 ∷ 0 ∷ 0 ∷ 171 ∷ []

key_a-IsKeyHash : IsKeyHash key_a
key_a-IsKeyHash = (refl, omega arith)

abbrev digest_a : List ℕ → KeyHash
digest_a input = key_a

-- A pair that is no number is 0, and so is one with a prefix and nothing behind it.
scan_bad : scan_hex 7 (b'g' ∷ b'0' ∷ []) ≡ 0
unfolding scan_hex
scan_bad = refl

scan_half : scan_hex 7 (b'f' ∷ b'z' ∷ []) ≡ 15
unfolding scan_hex
scan_half = refl

abbrev two_digits : List ℕ
two_digits = b'a' ∷ b'b' ∷ []

key_eq_iff_example : (key_eq key_a (1 ∷ []) ≡ true) ↔ (key_a ≡ 1 ∷ [])
key_eq_iff_example = key_eq_iff key_a (1 ∷ [])
