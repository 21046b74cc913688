-- ===== src/Object/Tests.antt =====
-- Tests of src/object.cc.
use zstore.Common.{
  ℕ, ◌+◌, ◌<◌, ◌≤◌, ◌≡◌, ◌≢◌, refl, Bool, true, List, [], ◌∷◌, ◌++◌, length, arith, ok, err,
  out_of_bounds, u64_mod, leb, leb→le,
}
use zstore.Conf.{Conf, default_conf}
use zstore.Object.{LogEntry, IsLogEntry, ZstoreObject, block, null, log_entry_size, k_data}
use zstore.Object.Log.{
  Padding, IsPadding, complete, refused, write_zstore_object_to_buffer,
  read_buffer_to_zstore_object,
}
use zstore.Object.Log.Roundtrip.{IsStored, read_buffer-write_zstore_object}
use zstore.Object.Log.Safety.{read_buffer_bounds}
use zstore.Object.ChunkList.{Chunk, serialize_map, deserialize_map}
use zstore.Object.ChunkList.Roundtrip.{IsSorted, deserialize_map-serialize_map}

abbrev zeros5 : List ℕ
zeros5 = 0 ∷ 0 ∷ 0 ∷ 0 ∷ 0 ∷ []

abbrev zeros20 : List ℕ
zeros20 = zeros5 ++ (zeros5 ++ (zeros5 ++ zeros5))

abbrev zeros65 : List ℕ
zeros65 = zeros20 ++ (zeros20 ++ (zeros20 ++ zeros5))

abbrev body_a : List ℕ
body_a = 1 ∷ 2 ∷ 3 ∷ 4 ∷ 5 ∷ []

abbrev entry_a : LogEntry
entry_a = record {
  entry_type = k_data;
  next_offset = 0;
  seqnum = 42;
  chunk_seqnum = 24;
  next = 0;
  key_size = 7;
  key_hash = zeros65;
}

abbrev object_a : ZstoreObject
object_a = record {
  entry = entry_a;
  datalen = 5;
  body = block body_a;
  key_size = 32;
  key_hash = zeros65;
}

abbrev target_a : ZstoreObject
target_a = record { entry = entry_a; datalen = 0; body = null; key_size = 0; key_hash = zeros65 }

abbrev padding_a : Padding
padding_a = record { lead = 9 ∷ 9 ∷ zeros5; trail = zeros5 }

padding_a-IsPadding : IsPadding padding_a
padding_a-IsPadding = record { lead_length = refl; trail_length = refl }

entry_a-IsLogEntry : IsLogEntry entry_a
entry_a-IsLogEntry = record {
  type_byte = omega arith;
  next_offset_u64 = omega arith;
  seqnum_u64 = omega arith;
  chunk_seqnum_u64 = omega arith;
  next_u64 = omega arith;
  key_size_u16 = omega arith;
  key_hash_length = refl;
}

object_a-IsStored : IsStored object_a body_a
object_a-IsStored = record {
  entry_fits = entry_a-IsLogEntry;
  body_block = refl;
  body_length = refl;
  datalen_pos = omega arith;
  total_u64 = omega arith;
  key_size_u16 = omega arith;
  key_hash_length = refl;
}

abbrev always : ℕ → Bool
always n = true

-- malloc gives at most 4096 bytes.
abbrev page : ℕ → Bool
page n = leb n 4096

page_small : (n : ℕ) → page n ≡ true → 187 + n < u64_mod
page_small n h = omega (arith, leb→le n 4096 h)

read_buffer-write_zstore_object_example :
    (s : List ℕ) × (write_zstore_object_to_buffer padding_a object_a ≡ ok s)
    × (length s ≡ 187 + object_a.datalen)
    × (read_buffer_to_zstore_object always s target_a ≡ ok (complete object_a))
read_buffer-write_zstore_object_example =
    read_buffer-write_zstore_object always padding_a object_a target_a body_a padding_a-IsPadding
      object_a-IsStored refl

read_buffer_bounds_example :
    (length zeros65 < log_entry_size
      → read_buffer_to_zstore_object page zeros65 target_a ≡ ok (refused target_a))
    × (log_entry_size ≤ length zeros65
        → length zeros65 < 177
        → read_buffer_to_zstore_object page zeros65 target_a ≡ err out_of_bounds)
    × (177 ≤ length zeros65
        → read_buffer_to_zstore_object page zeros65 target_a ≢ err out_of_bounds)
read_buffer_bounds_example = read_buffer_bounds page zeros65 target_a page_small

-- The chunk size of the tests is 65 bytes.
abbrev conf_a : Conf
conf_a = record default_conf { chunk_size = 65; object_size = 65 }

abbrev chunks_a : List Chunk
chunks_a = record { key = 1; lba = 500; len = 8 } ∷ record { key = 4; lba = 7; len = 8 } ∷ []

chunks_a-IsSorted : IsSorted 0 chunks_a
chunks_a-IsSorted = (
  omega arith,
  (record { key_u64 = omega arith; lba_u64 = omega arith; len_u32 = omega arith }),
  (
    omega arith,
    (record { key_u64 = omega arith; lba_u64 = omega arith; len_u32 = omega arith }),
    tt,
  ),
)

deserialize_map-serialize_map_example :
    (s : List ℕ) × (serialize_map conf_a zeros65 chunks_a ≡ ok s)
    × (length s ≡ conf_a.chunk_size)
    × (deserialize_map s ≡ ok chunks_a)
deserialize_map-serialize_map_example =
    deserialize_map-serialize_map conf_a zeros65 chunks_a refl (omega arith) (omega arith)
      chunks_a-IsSorted

-- Chunks of two bytes: the fifth byte of the body is lost.
abbrev conf_b : Conf
conf_b = record default_conf { chunk_size = 2; object_size = 5 }
