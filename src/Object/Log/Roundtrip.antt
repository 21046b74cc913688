-- ===== src/Object/Log/Roundtrip.antt =====
-- What WriteZstoreObjectToBuffer writes, ReadBufferToZstoreObject reads back.
use mathlib.Core.List.{append_assoc}
use native.Mathlib.Nat.{mod-eq_of_lt}
use zstore.Common.{
  take_all, ℕ, ◌+◌, ◌^◌, ◌<◌, ◌≡◌, refl, Bool, true, List, ◌++◌, take, drop, length, le_bytes,
  u64_mod, ok, arith, le_value-take, le_value_one, lt→ltb, drop-le_bytes, take_of_length,
  drop_of_length, length-append, length-le_bytes,
}
use zstore.Object.{LogEntry, IsLogEntry, ZstoreObject, block, log_entry_size}
use zstore.Object.Log.{
  Padding, IsPadding, log_entry_bytes, body_bytes, entry_at, write_zstore_object_to_buffer,
  read_buffer_to_zstore_object, complete, read_key_hash, read_lengths, read_body,
}

entry_at-log_entry_bytes :
    (p : Padding) (e : LogEntry) (tail : List ℕ)
    → IsPadding p
    → IsLogEntry e
    → entry_at (log_entry_bytes p e ++ tail) ≡ e
unfolding entry_at log_entry_bytes
entry_at-log_entry_bytes p e tail pad fits = simp (
  append_assoc,
  drop_of_length 7 p.lead pad.lead_length,
  drop-le_bytes,
  le_value-take 8 e.next_offset fits.next_offset_u64,
  le_value-take 8 e.seqnum fits.seqnum_u64,
  le_value-take 8 e.chunk_seqnum fits.chunk_seqnum_u64,
  le_value-take 8 e.next fits.next_u64,
  le_value-take 2 e.key_size fits.key_size_u16,
  take_of_length 65 e.key_hash fits.key_hash_length,
  le_value_one,
)

length-log_entry_bytes :
    (p : Padding) (e : LogEntry)
    → IsPadding p
    → IsLogEntry e
    → length (log_entry_bytes p e) ≡ log_entry_size
unfolding log_entry_bytes
length-log_entry_bytes p e pad fits =
    simp (length-append, length-le_bytes, pad.lead_length, pad.trail_length, fits.key_hash_length)
      (omega arith)

-- The reader on a buffer made of its parts.
module _ (alloc : ℕ → Bool) (h k b : List ℕ) (key_size datalen : ℕ) (o : ZstoreObject)
    (h_length : length h ≡ log_entry_size) (k_length : length k ≡ 65)
    (key_size_u16 : key_size < 2 ^ 16) (total_u64 : 187 + datalen < u64_mod)
    (b_length : length b ≡ datalen) (memory : alloc datalen ≡ true) where
  buffer : List ℕ
  buffer = h ++ (k ++ (le_bytes 2 key_size ++ (le_bytes 8 datalen ++ b)))

  length-buffer : length buffer ≡ 187 + datalen
  unfolding buffer
  length-buffer = simp (length-append, length-le_bytes, h_length, k_length, b_length) (omega arith)

  read_lengths_lem :
      (x : ZstoreObject)
      → 0 < datalen
      → read_lengths alloc buffer (le_bytes 2 key_size ++ (le_bytes 8 datalen ++ b)) x
        ≡ ok (complete (record x { key_size = key_size; datalen = datalen; body = block b }))
  unfolding read_lengths read_body
  read_lengths_lem x pos =
      simp
        (
          length-buffer,
          drop-le_bytes,
          le_value-take 2 key_size key_size_u16,
          le_value-take 8 datalen (omega arith),
          b_length,
          memory,
          take_all b datalen b_length,
          mod-eq_of_lt total_u64,
        )
        (ground arith)

  rest : List ℕ
  rest = k ++ (le_bytes 2 key_size ++ (le_bytes 8 datalen ++ b))

  drop-buffer : drop log_entry_size buffer ≡ rest
  unfolding buffer rest
  drop-buffer = drop_of_length log_entry_size h h_length _

  length-rest : length rest ≡ 75 + datalen
  unfolding rest
  length-rest = simp (length-append, length-le_bytes, k_length, b_length) (omega arith)

  take-rest : take 65 rest ≡ k
  unfolding rest
  take-rest = take_of_length 65 k k_length _

  drop-rest : drop 65 rest ≡ le_bytes 2 key_size ++ (le_bytes 8 datalen ++ b)
  unfolding rest
  drop-rest = drop_of_length 65 k k_length _

  read_buffer-parts :
      0 < datalen
      → read_buffer_to_zstore_object alloc buffer o
        ≡ ok (
            complete (record {
              entry = entry_at buffer;
              datalen = datalen;
              body = block b;
              key_size = key_size;
              key_hash = k;
            }))
  unfolding read_buffer_to_zstore_object read_key_hash
  read_buffer-parts pos =
      simp (length-buffer, drop-buffer, length-rest, take-rest, drop-rest)
        (ground (arith, read_lengths_lem (record o { entry = entry_at buffer; key_hash = k }) pos))

-- An object whose body is a block of `datalen` bytes, every field in the range of its type.
pub record IsStored (o : ZstoreObject) (b : List ℕ) : Type 0 where
  pub entry_fits : IsLogEntry o.entry
  pub body_block : o.body ≡ block b
  pub body_length : length b ≡ o.datalen
  pub datalen_pos : 0 < o.datalen
  pub total_u64 : 187 + o.datalen < u64_mod
  pub key_size_u16 : o.key_size < 2 ^ 16
  pub key_hash_length : length o.key_hash ≡ 65

abbrev wire : Padding → ZstoreObject → List ℕ → List ℕ
wire p o b =
    log_entry_bytes p o.entry
    ++ (o.key_hash ++ (le_bytes 2 o.key_size ++ (le_bytes 8 o.datalen ++ b)))

body_bytes-block : (b : List ℕ) (n : ℕ) → length b ≡ n → body_bytes n (block b) ≡ ok b
unfolding body_bytes
body_bytes-block b n h = rw (take_all b n h) (ground arith)

write-wire :
    (p : Padding) (o : ZstoreObject) (b : List ℕ)
    → IsStored o b
    → write_zstore_object_to_buffer p o ≡ ok (wire p o b)
unfolding write_zstore_object_to_buffer
write-wire p o b s =
    rw (lt→ltb (187 + o.datalen) u64_mod s.total_u64)
      (rw (s.body_block, body_bytes-block b o.datalen s.body_length) refl)

-- An object with a block of `datalen` bytes is written, whatever its other fields hold.
pub write_zstore_object_to_buffer-block :
    (p : Padding) (o : ZstoreObject) (b : List ℕ)
    → o.body ≡ block b
    → length b ≡ o.datalen
    → 187 + o.datalen < u64_mod
    → (s : List ℕ) × (write_zstore_object_to_buffer p o ≡ ok s)
unfolding write_zstore_object_to_buffer
write_zstore_object_to_buffer-block p o b full size total = (
  wire p o b,
  rw (lt→ltb (187 + o.datalen) u64_mod total) (rw (full, body_bytes-block b o.datalen size) refl),
)

module _ (alloc : ℕ → Bool) (p : Padding) (o target : ZstoreObject) (b : List ℕ) (pad : IsPadding p)
    (stored : IsStored o b) (memory : alloc o.datalen ≡ true) where
  length-wire : length (wire p o b) ≡ 187 + o.datalen
  unfolding buffer
  length-wire =
      length-buffer alloc (log_entry_bytes p o.entry) o.key_hash b o.key_size o.datalen target
        (length-log_entry_bytes p o.entry pad stored.entry_fits) stored.key_hash_length
        stored.key_size_u16 stored.total_u64 stored.body_length memory

  read_buffer-wire :
      read_buffer_to_zstore_object alloc (wire p o b) target
      ≡ ok (complete (record o { entry = entry_at (wire p o b); body = block b }))
  unfolding buffer
  read_buffer-wire =
      read_buffer-parts alloc (log_entry_bytes p o.entry) o.key_hash b o.key_size o.datalen target
        (length-log_entry_bytes p o.entry pad stored.entry_fits) stored.key_hash_length
        stored.key_size_u16 stored.total_u64 stored.body_length memory stored.datalen_pos

-- An object with a body is written as 187 bytes and its body, whatever the padding holds, and
-- reading that buffer into any object gives back every field, provided malloc has the memory.
pub read_buffer-write_zstore_object :
    (alloc : ℕ → Bool) (p : Padding) (o target : ZstoreObject) (b : List ℕ)
    → IsPadding p
    → IsStored o b
    → alloc o.datalen ≡ true
    → (s : List ℕ) × (write_zstore_object_to_buffer p o ≡ ok s)
      × (length s ≡ 187 + o.datalen)
      × (read_buffer_to_zstore_object alloc s target ≡ ok (complete o))
read_buffer-write_zstore_object alloc p o target b pad st memory = (
  wire p o b,
  write-wire p o b st,
  length-wire alloc p o target b pad st memory,
  rw
      (
        read_buffer-wire alloc p o target b pad st memory,
        entry_at-log_entry_bytes p o.entry _ pad st.entry_fits,
        ← st.body_block,
      )
      refl,
)
