-- ===== src/Object/Log.antt =====
-- WriteZstoreObjectToBuffer and ReadBufferToZstoreObject of src/object.cc.
pub mod Roundtrip
pub mod Safety
use zstore.Common.{
  ℕ, ◌+◌, ◌%◌, ◌<◌, ◌≡◌, Bool, true, false, List, [], ◌∷◌, ◌++◌, take, drop, replicate, length, ltb,
  leb, if◌then◌else◌, le_bytes, le_value, u64_mod, Result, ok, err, out_of_bounds, ◌>>=◌,
}
use zstore.Object.{LogEntry, ZstoreObject, Body, null, dangling, block, log_entry_size}

-- The padding of a LogEntry, 7 bytes behind the type and 5 at the end, is copied as it was.
pub record Padding : Type 0 where
  pub lead : List ℕ
  pub trail : List ℕ

pub record IsPadding (p : Padding) : Type 0 where
  pub lead_length : length p.lead ≡ 7
  pub trail_length : length p.trail ≡ 5

-- The memory of a LogEntry.
pub log_entry_bytes : Padding → LogEntry → List ℕ
log_entry_bytes p e =
    e.entry_type
    ∷ (p.lead
        ++ (le_bytes 8 e.next_offset
            ++ (le_bytes 8 e.seqnum
                ++ (le_bytes 8 e.chunk_seqnum
                    ++ (le_bytes 8 e.next ++ (le_bytes 2 e.key_size ++ (e.key_hash ++ p.trail)))))))

-- The body part of the buffer, which std::vector has set to 0; a memcpy past the end of the body is
-- a fault.
pub body_bytes : ℕ → Body → Result (List ℕ)
body_bytes datalen null = ok (replicate datalen 0)
body_bytes datalen dangling = if ltb 0 datalen then err out_of_bounds else ok []
body_bytes datalen (block b) =
    if leb datalen (length b) then ok (take datalen b) else err out_of_bounds

-- A total size that wraps round makes a buffer too small for what is written.
pub write_zstore_object_to_buffer : Padding → ZstoreObject → Result (List ℕ)
write_zstore_object_to_buffer p obj =
    if ltb (187 + obj.datalen) u64_mod
    then (do
      b ← body_bytes obj.datalen obj.body
      ok (
          log_entry_bytes p obj.entry
          ++ (obj.key_hash ++ (le_bytes 2 obj.key_size ++ (le_bytes 8 obj.datalen ++ b)))))
    else err out_of_bounds

-- The fields of a LogEntry at the front of a buffer.
pub entry_at : List ℕ → LogEntry
entry_at s =
    let r1 = drop 8 s in
    let r2 = drop 8 r1 in
    let r3 = drop 8 r2 in
    let r4 = drop 8 r3 in
    let r5 = drop 8 r4 in
    record {
      entry_type = le_value (take 1 s);
      next_offset = le_value (take 8 r1);
      seqnum = le_value (take 8 r2);
      chunk_seqnum = le_value (take 8 r3);
      next = le_value (take 8 r4);
      key_size = le_value (take 2 r5);
      key_hash = take 65 (drop 2 r5);
    }

-- How a read ends: `true`, or `false` with what was filled in by then.
pub data Reading : Type 0 where
  complete refused : ZstoreObject → Reading

-- The body. `alloc n` says whether malloc(n) gives memory. A refusal frees the block and keeps the
-- pointer. The end is computed in 64 bits.
pub read_body : (ℕ → Bool) → List ℕ → List ℕ → ZstoreObject → Result Reading
read_body alloc buffer rest obj =
    if ltb 0 obj.datalen
    then (if alloc obj.datalen
        then (if ltb (length buffer) ((187 + obj.datalen) % u64_mod)
            then ok (refused (record obj { body = dangling }))
            else if ltb (length rest) obj.datalen
            then err out_of_bounds
            else ok (complete (record obj { body = block (take obj.datalen rest) })))
        else ok (refused (record obj { body = null })))
    else ok (complete obj)

-- The two lengths, each behind its test.
pub read_lengths : (ℕ → Bool) → List ℕ → List ℕ → ZstoreObject → Result Reading
read_lengths alloc buffer rest obj =
    if ltb (length buffer) (177 + 2)
    then ok (refused obj)
    else let sized = record obj { key_size = le_value (take 2 rest) } in
      if ltb (length buffer) (179 + 8)
      then ok (refused sized)
      else read_body alloc buffer (drop 8 (drop 2 rest))
          (record sized { datalen = le_value (take 8 (drop 2 rest)) })

-- The key hash, copied with no test of its own.
pub read_key_hash : (ℕ → Bool) → List ℕ → List ℕ → ZstoreObject → Result Reading
read_key_hash alloc buffer rest obj =
    if ltb (length rest) 65
    then err out_of_bounds
    else read_lengths alloc buffer (drop 65 rest) (record obj { key_hash = take 65 rest })

-- `buffer_size` is the length of the buffer.
pub read_buffer_to_zstore_object : (ℕ → Bool) → List ℕ → ZstoreObject → Result Reading
read_buffer_to_zstore_object alloc buffer obj =
    if ltb (length buffer) log_entry_size
    then ok (refused obj)
    else read_key_hash alloc buffer (drop log_entry_size buffer)
        (record obj { entry = entry_at buffer })
