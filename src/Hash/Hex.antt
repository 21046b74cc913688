-- ===== src/Hash/Hex.antt =====
-- hashToCString, stringToHashKey and sha256 of src/object.cc agree on the hexadecimal form of a hash.
use mathlib.Core.Path.{subst}
use zstore.Common.{
  ℕ, ◌+◌, ◌*◌, ◌/◌, ◌%◌, ◌<◌, ◌≡◌, refl, ap, ◌≢◌, ◌↔◌, ◌⊎◌, none, some, List, [], ◌∷◌, true, All,
  ◌==◌, zero, suc, length, arith, Bool-cases, inl, inr, byte_mod,
}
use zstore.Hash.{
  KeyHash, IsKeyHash, key_eq, hex_digit, hash_to_c_string, hex_value, scan_hex, scan_pairs,
  string_to_hash_key, hex_stream, padded_hex, sha256, compute_sha256,
}

-- Arrays are equal for operator== exactly when they are equal.
pub key_eq_iff : (h k : KeyHash) → (key_eq h k ≡ true) ↔ (h ≡ k)
unfolding key_eq
key_eq_iff [] [] = (λ e. refl, λ e. refl)
key_eq_iff [] (b ∷ k) = (λ e. cc, λ e. cc)
key_eq_iff (a ∷ h) [] = (λ e. cc, λ e. cc)
key_eq_iff (a ∷ h) (b ∷ k) = ground (arith, key_eq_iff h k)

hex_value-hex_digit : (d : ℕ) → d < 16 → hex_value (hex_digit d) ≡ some d
unfolding hex_value hex_digit
hex_value-hex_digit d h = ground arith

-- Two digits of one byte are read back as that byte.
scan_hex-digits :
    (junk hi lo : ℕ)
    → hi < 16
    → lo < 16
    → scan_hex junk (hex_digit hi ∷ hex_digit lo ∷ []) ≡ hi * 16 + lo
unfolding scan_hex hex_value hex_digit
scan_hex-digits junk hi lo p q = ground arith

scan_pairs-hash_to_c_string :
    (junk : ℕ) (h : KeyHash) → All (λ b. b < byte_mod) h → scan_pairs junk (hash_to_c_string h) ≡ h
unfolding scan_pairs hash_to_c_string
scan_pairs-hash_to_c_string junk [] h = refl
scan_pairs-hash_to_c_string junk (b ∷ k) (small, rest) =
    rw (scan_hex-digits junk (b / 16) (b % 16) (omega arith) (omega arith))
      (rw (scan_pairs-hash_to_c_string junk k rest) (ap (λ t. t ∷ k) (omega arith)))

length-hash_to_c_string : (h : KeyHash) → length (hash_to_c_string h) ≡ 2 * length h
unfolding hash_to_c_string
length-hash_to_c_string [] = refl
length-hash_to_c_string (b ∷ h) = omega (arith, length-hash_to_c_string h)

-- The text of a hash is 64 characters long, and stringToHashKey reads the hash back from it,
-- whatever an uninitialised byte holds.
string_to_hash_key-hash_to_c_string :
    (junk : ℕ) (h : KeyHash)
    → IsKeyHash h
    → (length (hash_to_c_string h) ≡ 64) × (string_to_hash_key junk (hash_to_c_string h) ≡ some h)
string_to_hash_key-hash_to_c_string junk h (len, small) = (
  omega (arith, length-hash_to_c_string h),
  unfold string_to_hash_key in
      rw (length-hash_to_c_string h) (rw len (ap some (scan_pairs-hash_to_c_string junk h small))),
)

length-scan_pairs : (junk n : ℕ) (s : List ℕ) → length s ≡ 2 * n → length (scan_pairs junk s) ≡ n
unfolding scan_pairs
length-scan_pairs junk n [] e = omega arith
length-scan_pairs junk n (a ∷ []) e = absurd (omega arith)
length-scan_pairs junk zero (a ∷ b ∷ s) e = absurd (omega arith)
length-scan_pairs junk (suc n) (a ∷ b ∷ s) e = ap suc (length-scan_pairs junk n s (omega arith))

scan_pairs-All : (junk : ℕ) (s : List ℕ) → All (λ b. b < byte_mod) (scan_pairs junk s)
unfolding scan_pairs
scan_pairs-All junk [] = tt
scan_pairs-All junk (a ∷ []) = tt
scan_pairs-All junk (a ∷ b ∷ s) = (omega arith, scan_pairs-All junk s)

string_to_hash_key-cases :
    (junk : ℕ) (s : List ℕ)
    → ((length s ≡ 64) × (string_to_hash_key junk s ≡ some (scan_pairs junk s)))
      ⊎ ((length s ≢ 64) × (string_to_hash_key junk s ≡ none))
unfolding string_to_hash_key
string_to_hash_key-cases junk s = elim (Bool-cases (length s == 64)) [
  | inl e ↦ inl (ground arith, rw e)
  | inr e ↦ inr (ground arith, rw e)
]

IsKeyHash-scan_pairs : (junk : ℕ) (s : List ℕ) → length s ≡ 64 → IsKeyHash (scan_pairs junk s)
IsKeyHash-scan_pairs junk s len = (length-scan_pairs junk 32 s len, scan_pairs-All junk s)

-- stringToHashKey throws exactly on the texts that are not 64 characters long, and every result is
-- a well-formed hash, also where the characters are no hexadecimal digits.
string_to_hash_key_total :
    (junk : ℕ) (s : List ℕ)
    → ((string_to_hash_key junk s ≡ none) ↔ (length s ≢ 64))
      × ((h : KeyHash) → string_to_hash_key junk s ≡ some h → IsKeyHash h)
string_to_hash_key_total junk s = elim (string_to_hash_key-cases junk s) [
  | inl (len, e) ↦ (
    ((λ k. ground arith), (λ k. absurd (k len))),
    λ h k.
        let same : scan_pairs junk s ≡ h = cc in
        subst IsKeyHash same (IsKeyHash-scan_pairs junk s len),
  )
  | inr (len, e) ↦ (((λ k. len), (λ k. e)), λ h k. absurd (ground arith))
]

padded_hex-eq-digits :
    (b : ℕ) (rest : List ℕ)
    → b < byte_mod
    → padded_hex b rest ≡ hex_digit (b / 16) ∷ hex_digit (b % 16) ∷ rest
unfolding padded_hex hex_digit
padded_hex-eq-digits b rest h = ground arith

hex_stream-eq : (h : KeyHash) → All (λ b. b < byte_mod) h → hex_stream h ≡ hash_to_c_string h
unfolding hex_stream hash_to_c_string
hex_stream-eq [] small = refl
hex_stream-eq (b ∷ h) (small, rest) =
    rw (hex_stream-eq h rest) (padded_hex-eq-digits b (hash_to_c_string h) small)

-- The text that sha256 returns is the text of the hash that computeSHA256 returns.
sha256-hash_to_c_string :
    (digest : List ℕ → KeyHash) (input : List ℕ)
    → All (λ b. b < byte_mod) (digest input)
    → sha256 digest input ≡ hash_to_c_string (compute_sha256 digest input)
unfolding sha256 compute_sha256
sha256-hash_to_c_string digest input small = hex_stream-eq (digest input) small
