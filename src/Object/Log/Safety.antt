-- ===== src/Object/Log/Safety.antt =====
-- Which memory ReadBufferToZstoreObject of src/object.cc touches.
use zstore.Common.{
  ltb, lt→ltb, le→ltb_false, ltb_false→le, Bool-cases, inl, inr, ℕ, ◌+◌, ◌<◌, ◌≤◌, ◌≡◌, ◌≢◌, Bool,
  true, List, drop, length, length-drop, u64_mod, ok, err, out_of_bounds, arith,
}
use zstore.Object.{ZstoreObject, log_entry_size}
use zstore.Object.Log.{
  read_buffer_to_zstore_object, refused, entry_at, read_key_hash, read_lengths, read_body,
}

read_body-safe :
    (alloc : ℕ → Bool) (buffer rest : List ℕ) (o : ZstoreObject)
    → (alloc o.datalen ≡ true → 187 + o.datalen < u64_mod)
    → length buffer ≡ 187 + length rest
    → read_body alloc buffer rest o ≢ err out_of_bounds
unfolding read_body
read_body-safe alloc buffer rest o small len = ground arith

read_lengths-safe :
    (alloc : ℕ → Bool) (buffer rest : List ℕ) (o : ZstoreObject)
    → ((n : ℕ) → alloc n ≡ true → 187 + n < u64_mod)
    → length buffer ≡ 177 + length rest
    → read_lengths alloc buffer rest o ≢ err out_of_bounds
unfolding read_lengths
read_lengths-safe alloc buffer rest o small len =
    elim (Bool-cases (ltb (length buffer) (177 + 2))) [
      | inl e ↦ rw e (λ k. cc)
      | inr e ↦ elim (Bool-cases (ltb (length buffer) (179 + 8))) [
        | inl f ↦ rw (e, f) (λ k. cc)
        | inr f ↦
            rw (e, f)
              (read_body-safe alloc buffer (drop 8 (drop 2 rest)) _ (small _) (
                omega (
                  arith,
                  ltb_false→le (length buffer) 187 f,
                  length-drop 8 (drop 2 rest),
                  length-drop 2 rest,
                )))
      ]
    ]

-- A rest of less than 65 bytes is read past its end.
read_key_hash-cases :
    (alloc : ℕ → Bool) (buffer rest : List ℕ) (o : ZstoreObject)
    → ((n : ℕ) → alloc n ≡ true → 187 + n < u64_mod)
    → length buffer ≡ log_entry_size + length rest
    → (length buffer < 177 → read_key_hash alloc buffer rest o ≡ err out_of_bounds)
      × (177 ≤ length buffer → read_key_hash alloc buffer rest o ≢ err out_of_bounds)
unfolding read_key_hash
read_key_hash-cases alloc buffer rest o small len = (
  λ h. rw (lt→ltb (length rest) 65 (omega arith)),
  λ h.
      rw (le→ltb_false (length rest) 65 (omega arith)) (
        read_lengths-safe alloc buffer (drop 65 rest) _ small (omega (arith, length-drop 65 rest))),
)

-- A buffer shorter than a LogEntry is refused and the object is left alone; one that holds the
-- LogEntry but not the key hash is read past its end; from 177 bytes on no read leaves the buffer,
-- if malloc grants only sizes that leave room for the header in 64 bits.
pub read_buffer_bounds :
    (alloc : ℕ → Bool) (buffer : List ℕ) (o : ZstoreObject)
    → ((n : ℕ) → alloc n ≡ true → 187 + n < u64_mod)
    → (length buffer < log_entry_size
        → read_buffer_to_zstore_object alloc buffer o ≡ ok (refused o))
      × (log_entry_size ≤ length buffer
          → length buffer < 177
          → read_buffer_to_zstore_object alloc buffer o ≡ err out_of_bounds)
      × (177 ≤ length buffer → read_buffer_to_zstore_object alloc buffer o ≢ err out_of_bounds)
unfolding read_buffer_to_zstore_object
read_buffer_bounds alloc buffer o small = (
  λ h. rw (lt→ltb (length buffer) log_entry_size h),
  λ lo hi. rw (le→ltb_false (length buffer) log_entry_size lo) ((parts lo).0 hi),
  λ h. rw (le→ltb_false (length buffer) log_entry_size (omega arith)) ((parts (omega arith)).1 h),
)
  where
    parts :
        log_entry_size ≤ length buffer
        → (length buffer < 177
            → read_key_hash alloc buffer
                (drop log_entry_size buffer)
                (record o { entry = entry_at buffer })
              ≡ err out_of_bounds)
          × (177 ≤ length buffer
              → read_key_hash alloc buffer
                  (drop log_entry_size buffer)
                  (record o { entry = entry_at buffer })
                ≢ err out_of_bounds)
    parts lo =
        read_key_hash-cases alloc buffer (drop log_entry_size buffer) _ small
          (omega (arith, length-drop log_entry_size buffer))
