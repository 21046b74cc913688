-- ===== src/Object/ChunkList.antt =====
-- The chunk list of a large object: serializeMap, deserializeMap and deserializeDummyMap of
-- src/object.cc. A std::map is the list of its entries in ascending key order.
pub mod Roundtrip
use zstore.Common.{
  ℕ, zero, suc, ◌+◌, ◌*◌, ◌%◌, ◌<◌, List, [], ◌∷◌, ◌++◌, take, drop, length, ltb, leb, ◌==◌,
  if◌then◌else◌, le_bytes, le_value, u32_mod, Result, ok, err, assertion, out_of_bounds,
}
use zstore.Conf.{Conf}

-- A key with its LbaTuple: a 64-bit address and a 32-bit length.
pub record Chunk : Type 0 where
  pub key : ℕ
  pub lba : ℕ
  pub len : ℕ

-- `map[key] = value`
pub insert : Chunk → List Chunk → List Chunk
insert c [] = c ∷ []
insert c (d ∷ ds) =
    if ltb c.key d.key then c ∷ d ∷ ds else if c.key == d.key then c ∷ ds else d ∷ insert c ds

-- The 24 bytes of an entry. The length is widened to 64 bits.
pub chunk_bytes : Chunk → List ℕ
chunk_bytes c = le_bytes 8 c.key ++ (le_bytes 8 c.lba ++ le_bytes 8 c.len)

pub entries_bytes : List Chunk → List ℕ
entries_bytes [] = []
entries_bytes (c ∷ cs) = chunk_bytes c ++ entries_bytes cs

-- `fresh` is what malloc(bufferSize) returned. What is written past its end is a fault, and behind
-- the entries the memory stays as it was.
pub serialize_map : Conf → List ℕ → List Chunk → Result (List ℕ)
serialize_map c fresh map =
    if length fresh == c.chunk_size
    then (if ltb (length fresh) (8 + 24 * length map)
        then err out_of_bounds
        else ok
            (le_bytes 8 (length map) ++ (entries_bytes map ++ drop (8 + 24 * length map) fresh)))
    else err assertion

-- The entry at the front of a buffer. The length goes back into 32 bits.
pub chunk_at : List ℕ → Chunk
chunk_at s = record {
  key = le_value (take 8 s);
  lba = le_value (take 8 (drop 8 s));
  len = le_value (take 8 (drop 8 (drop 8 s))) % u32_mod;
}

-- The loop over `mapSize` entries.
unfoldable pub read_entries : ℕ → List ℕ → List Chunk → Result (List Chunk)
read_entries zero s map = ok map
read_entries (suc n) s map =
    let rest = read_entries n (drop 8 (drop 8 (drop 8 s))) (insert (chunk_at s) map) in
    if ltb (length s) 24 then err out_of_bounds else rest

unfoldable pub deserialize_map : List ℕ → Result (List Chunk)
deserialize_map s =
    if ltb (length s) 8 then err out_of_bounds else read_entries (le_value (take 8 s)) (drop 8 s) []

-- The loop `chunk_list[i] = (i, chunk size)` for the `n` numbers from `i` on.
dummy_from : Conf → ℕ → ℕ → List Chunk → List Chunk
dummy_from c i zero map = map
dummy_from c i (suc n) map =
    dummy_from c (suc i) n (insert (record { key = i; lba = i; len = c.chunk_size % u32_mod }) map)

pub deserialize_dummy_map : Conf → ℕ → List Chunk
unfolding dummy_from
deserialize_dummy_map c num_chunks = dummy_from c 0 num_chunks []
