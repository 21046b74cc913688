-- ===== src/Hash/Seed.antt =====
-- arrayToSeed of src/object.cc against ArrayHash of src/include/types.h.
use native.Mathlib.Nat.{mod-eq_of_lt}
use zstore.Common.{◌∙◌, ℕ, ◌+◌, ◌*◌, ◌%◌, ◌<◌, ◌≡◌, refl, [], ◌∷◌, arith, u32_mod, u64_mod}
use zstore.Hash.{KeyHash, combine, array_to_seed, array_hash}

combine-lt : (m s : ℕ) (h : KeyHash) → 0 < m → s < m → combine m s h < m
unfolding combine
combine-lt m s [] p q = q
combine-lt m s (b ∷ h) p q = combine-lt m ((s * 31 + b) % m) h p (omega arith)

combine-low :
    (s t : ℕ) (h : KeyHash)
    → s % u32_mod ≡ t % u32_mod
    → combine u64_mod s h % u32_mod ≡ combine u32_mod t h % u32_mod
unfolding combine
combine-low s t [] e = e
combine-low s t (b ∷ h) e =
    combine-low ((s * 31 + b) % u64_mod) ((t * 31 + b) % u32_mod) h (omega arith)

-- The seed is the low half of the hash that the object map computes for the same key.
array_hash-array_to_seed : (h : KeyHash) → array_hash h % u32_mod ≡ array_to_seed h
unfolding array_hash array_to_seed
array_hash-array_to_seed h =
    combine-low 0 0 h refl ∙ mod-eq_of_lt (combine-lt u32_mod 0 h (omega arith) (omega arith))
