-- ===== src/Hash.antt =====
-- Object key hashes: src/object.cc (computeSHA256, hashToCString, stringToHashKey, arrayToSeed,
-- sha256) and ArrayHash of src/include/types.h. A hash is the list of its 32 bytes; text is the
-- list of its character codes. SHA-256 itself is OpenSSL's and stays a parameter.
pub mod Hex
pub mod Seed
pub mod Tests
use zstore.Common.{
  ℕ, ◌+◌, ◌*◌, ◌/◌, ◌%◌, ◌-◌, ◌<◌, ◌≡◌, Bool, true, false, ◌&&◌, ◌||◌, Option, none, some, List, [],
  ◌∷◌, All, length, ltb, leb, ◌==◌, if◌then◌else◌, u32_mod, u64_mod, byte_mod,
}

abbrev pub KeyHash : Type 0
KeyHash = List ℕ

-- What the type std::array<uint8_t, 32> guarantees.
abbrev pub IsKeyHash : KeyHash → Type 0
IsKeyHash h = (length h ≡ 32) × All (λ b. b < byte_mod) h

-- operator== of std::array
unfoldable pub key_eq : KeyHash → KeyHash → Bool
key_eq [] [] = true
key_eq [] (b ∷ k) = false
key_eq (a ∷ h) [] = false
key_eq (a ∷ h) (b ∷ k) = (a == b) && key_eq h k

pub hex_digit : ℕ → ℕ
hex_digit d = if ltb d 10 then b'0' + d else b'a' + (d - 10)

-- One "%02x" after the other.
pub hash_to_c_string : KeyHash → List ℕ
unfolding hex_digit
hash_to_c_string [] = []
hash_to_c_string (b ∷ h) = hex_digit (b / 16) ∷ hex_digit (b % 16) ∷ hash_to_c_string h

abbrev is_space : ℕ → Bool
is_space c = (c == 32) || (leb 9 c && leb c 13)

pub hex_value : ℕ → Option ℕ
hex_value c =
    if leb b'0' c && leb c b'9'
    then some (c - b'0')
    else if leb b'a' c && leb c b'f'
    then some (c - b'a' + 10)
    else if leb b'A' c && leb c b'F'
    then some (c - b'A' + 10)
    else none

skip_space : List ℕ → List ℕ
skip_space [] = []
skip_space (c ∷ cs) = if is_space c then skip_space cs else c ∷ cs

pub digits : ℕ → List ℕ → ℕ
unfolding hex_value
digits acc [] = acc
digits acc (c ∷ cs) = elim (hex_value c) [ none ↦ acc | some d ↦ digits (acc * 16 + d) cs ]

-- The optional prefix 0x of a number that is read under std::hex.
unsigned_hex : List ℕ → ℕ
unfolding digits
unsigned_hex (c ∷ x ∷ cs) =
    if (c == b'0') && ((x == b'x') || (x == b'X')) then digits 0 cs else digits 0 (c ∷ x ∷ cs)
unsigned_hex cs = digits 0 cs

signed_hex : List ℕ → ℕ
unfolding unsigned_hex
signed_hex [] = 0
signed_hex (c ∷ cs) =
    if c == b'-'
    then (u32_mod - unsigned_hex cs) % u32_mod
    else if c == b'+'
    then unsigned_hex cs
    else unsigned_hex (c ∷ cs)

-- `std::istringstream(s) >> std::hex >> byte`. A number that cannot be read is 0; at the end of the
-- stream `byte` keeps what it held, which is `junk` for a variable that was not initialised.
pub scan_hex : ℕ → List ℕ → ℕ
unfolding skip_space signed_hex
scan_hex junk s = elim (skip_space s) [ [] ↦ junk | c ∷ cs ↦ signed_hex (c ∷ cs) ]

-- The loop over `hexString.substr(i * 2, 2)`.
pub scan_pairs : ℕ → List ℕ → KeyHash
scan_pairs junk (a ∷ b ∷ s) = (scan_hex junk (a ∷ b ∷ []) % byte_mod) ∷ scan_pairs junk s
scan_pairs junk s = []

-- `none` is std::invalid_argument.
pub string_to_hash_key : ℕ → List ℕ → Option KeyHash
unfolding scan_pairs
string_to_hash_key junk s = if length s == 64 then some (scan_pairs junk s) else none

-- The loop of arrayToSeed and of ArrayHash, in an unsigned type with `modulus` values.
pub combine : ℕ → ℕ → KeyHash → ℕ
combine modulus seed [] = seed
combine modulus seed (b ∷ h) = combine modulus ((seed * 31 + b) % modulus) h

pub array_to_seed : KeyHash → ℕ
unfolding combine
array_to_seed h = combine u32_mod 0 h

pub array_hash : KeyHash → ℕ
unfolding combine
array_hash h = combine u64_mod 0 h

-- `std::hex << std::setw(2) << std::setfill('0') << n`
pub padded_hex : ℕ → List ℕ → List ℕ
unfolding hex_digit
padded_hex b rest =
    if ltb b 16 then b'0' ∷ hex_digit b ∷ rest else hex_digit (b / 16) ∷ hex_digit (b % 16) ∷ rest

pub hex_stream : KeyHash → List ℕ
hex_stream [] = []
hex_stream (b ∷ h) = padded_hex b (hex_stream h)

-- sha256 prints the digest that computeSHA256 returns; `digest` is OpenSSL's SHA-256.
unfoldable pub compute_sha256 : (List ℕ → KeyHash) → List ℕ → KeyHash
compute_sha256 digest input = digest input

pub sha256 : (List ℕ → KeyHash) → List ℕ → List ℕ
unfolding hex_stream
sha256 digest input = hex_stream (digest input)
