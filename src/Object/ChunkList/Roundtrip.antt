-- ===== src/Object/ChunkList/Roundtrip.antt =====
-- deserializeMap reads back what serializeMap of src/object.cc wrote.
use mathlib.Core.List.{append_assoc}
use mathlib.Core.List.{append-nil}
use mathlib.Core.Path.{sym}
use native.Mathlib.Nat.{mod-eq_of_lt}
use zstore.Common.{
  ==_iff, ◌⊎◌, inl, inr, Bool-cases, ltb, zero, take, le_value, ℕ, suc, ◌+◌, ◌*◌, ◌<◌, ◌≤◌, ◌≡◌,
  refl, ap, ◌∙◌, List, [], ◌∷◌, ◌++◌, drop, length, All, All-append, le_bytes, u32_mod, u64_mod, ok,
  err, out_of_bounds, arith, lt→ltb, le→ltb_false, length-append, length-le_bytes, length-drop,
  le_value-take, drop-le_bytes,
}
use zstore.Conf.{Conf}
use zstore.Object.ChunkList.{
  Chunk, insert, chunk_at, chunk_bytes, entries_bytes, serialize_map, read_entries, deserialize_map,
}

-- What the types of an entry guarantee.
pub record IsChunk (c : Chunk) : Type 0 where
  pub key_u64 : c.key < u64_mod
  pub lba_u64 : c.lba < u64_mod
  pub len_u32 : c.len < u32_mod

-- Ascending keys from `k` on: the order of a std::map.
abbrev pub IsSorted : ℕ → List Chunk → Type 0
IsSorted k [] = Unit
IsSorted k (c ∷ cs) = (k ≤ c.key) × IsChunk c × IsSorted (suc c.key) cs

length-entries_bytes : (cs : List Chunk) → length (entries_bytes cs) ≡ 24 * length cs
unfolding entries_bytes chunk_bytes
length-entries_bytes [] = refl
length-entries_bytes (c ∷ cs) =
    simp (length-append, length-le_bytes, length-entries_bytes cs) (omega arith)

-- A key above all others goes to the end.
insert-append :
    (c : Chunk) (ds : List Chunk) → All (λ d. d.key < c.key) ds → insert c ds ≡ ds ++ (c ∷ [])
unfolding insert
insert-append c [] h = refl
insert-append c (d ∷ ds) h = ground (arith, insert-append c ds h.1)

All-below_mono :
    (k j : ℕ) (ds : List Chunk) → k ≤ j → All (λ d. d.key < k) ds → All (λ d. d.key < j) ds
All-below_mono k j [] h a = tt
All-below_mono k j (d ∷ ds) h a = (omega arith, All-below_mono k j ds h a.1)

chunk_at-chunk_bytes : (c : Chunk) (s : List ℕ) → IsChunk c → chunk_at (chunk_bytes c ++ s) ≡ c
unfolding chunk_at chunk_bytes
chunk_at-chunk_bytes c s h = simp (
  append_assoc,
  drop-le_bytes,
  le_value-take 8 c.key h.key_u64,
  le_value-take 8 c.lba h.lba_u64,
  le_value-take 8 c.len (omega (arith, h.len_u32)),
  mod-eq_of_lt h.len_u32,
)

drop-chunk_bytes : (c : Chunk) (s : List ℕ) → drop 8 (drop 8 (drop 8 (chunk_bytes c ++ s))) ≡ s
unfolding chunk_bytes
drop-chunk_bytes c s = simp (append_assoc, drop-le_bytes)

length-chunk_bytes : (c : Chunk) → length (chunk_bytes c) ≡ 24
unfolding chunk_bytes
length-chunk_bytes c = simp (length-append, length-le_bytes)

-- One round of the loop.
read_entries-chunk :
    (n : ℕ) (c : Chunk) (s : List ℕ) (acc : List Chunk)
    → IsChunk c
    → read_entries (suc n) (chunk_bytes c ++ s) acc ≡ read_entries n s (insert c acc)
unfolding read_entries
read_entries-chunk n c s acc h =
    rw (chunk_at-chunk_bytes c s h, drop-chunk_bytes c s)
      (rw
        (le→ltb_false (length (chunk_bytes c ++ s)) 24
          (omega (arith, length-append (chunk_bytes c) s, length-chunk_bytes c)))
        refl)

read_entries-entries_bytes :
    (k : ℕ) (cs : List Chunk) (s : List ℕ) (acc : List Chunk)
    → IsSorted k cs
    → All (λ d. d.key < k) acc
    → read_entries (length cs) (entries_bytes cs ++ s) acc ≡ ok (acc ++ cs)
unfolding entries_bytes
read_entries-entries_bytes k [] s acc h low = unfold read_entries in (ap ok (sym (append-nil acc)))
read_entries-entries_bytes k (c ∷ cs) s acc h low = rw append_assoc (
    rw (read_entries-chunk (length cs) c (entries_bytes cs ++ s) acc h.1) (
      rw (insert-append c acc (All-below_mono k c.key acc h.0 low)) (
        read_entries-entries_bytes (suc c.key) cs s (acc ++ (c ∷ [])) h.2 (
          All-append (λ d. d.key < suc c.key) acc (c ∷ [])
            (All-below_mono k (suc c.key) acc (omega (arith, h.0)) low) (omega arith, tt))
        ∙ ap ok (append_assoc acc (c ∷ []) cs))))

-- The buffer that is written.
abbrev image : List ℕ → List Chunk → List ℕ
image fresh cs = le_bytes 8 (length cs) ++ (entries_bytes cs ++ drop (8 + 24 * length cs) fresh)

length-image :
    (fresh : List ℕ) (cs : List Chunk)
    → 8 + 24 * length cs ≤ length fresh
    → length (image fresh cs) ≡ length fresh
length-image fresh cs room =
    simp (length-append, length-le_bytes, length-entries_bytes, length-drop) (omega arith)

deserialize_map-image :
    (fresh : List ℕ) (cs : List Chunk)
    → 8 + 24 * length cs ≤ length fresh
    → length cs < u64_mod
    → IsSorted 0 cs
    → deserialize_map (image fresh cs) ≡ ok cs
unfolding deserialize_map
deserialize_map-image fresh cs room small sorted =
    rw (le→ltb_false (length (image fresh cs)) 8 (omega (arith, length-image fresh cs room))) (
      rw (le_value-take 8 (length cs) small, drop-le_bytes)
        (read_entries-entries_bytes 0 cs _ [] sorted tt))

-- If the memory has the chunk size and holds 8 bytes and 24 for each entry, serialising succeeds,
-- the buffer keeps its size, and reading it gives back the map of valid entries, whatever the memory
-- held before.
pub deserialize_map-serialize_map :
    (c : Conf) (fresh : List ℕ) (cs : List Chunk)
    → length fresh ≡ c.chunk_size
    → 8 + 24 * length cs ≤ c.chunk_size
    → length cs < u64_mod
    → IsSorted 0 cs
    → (s : List ℕ) × (serialize_map c fresh cs ≡ ok s)
      × (length s ≡ c.chunk_size)
      × (deserialize_map s ≡ ok cs)
deserialize_map-serialize_map c fresh cs size room small sorted = (
  image fresh cs,
  serialized,
  omega (arith, length-image fresh cs),
  deserialize_map-image fresh cs (omega arith) small sorted,
)
  where
    serialized : serialize_map c fresh cs ≡ ok (image fresh cs)
    serialized =
        unfold serialize_map in
        rw ((==_iff (length fresh) c.chunk_size).1 size)
          (rw (le→ltb_false (length fresh) (8 + 24 * length cs) (omega arith)) refl)

-- A map that does not fit overruns the buffer.
serialize_map_overrun :
    (c : Conf) (fresh : List ℕ) (cs : List Chunk)
    → length fresh ≡ c.chunk_size
    → c.chunk_size < 8 + 24 * length cs
    → serialize_map c fresh cs ≡ err out_of_bounds
unfolding serialize_map
serialize_map_overrun c fresh cs size over =
    rw ((==_iff (length fresh) c.chunk_size).1 size)
      (rw (lt→ltb (length fresh) (8 + 24 * length cs) (omega arith)) refl)

read_entries-cases :
    (n : ℕ) (s : List ℕ) (map : List Chunk)
    → ((chunks : List Chunk) × (read_entries n s map ≡ ok chunks))
      ⊎ (read_entries n s map ≡ err out_of_bounds)
unfolding read_entries
read_entries-cases zero s map = inl (map, refl)
read_entries-cases (suc n) s map = elim (Bool-cases (ltb (length s) 24)) [
  | inl short ↦ inr (rw short refl)
  | inr long ↦ rw long (read_entries-cases n (drop 8 (drop 8 (drop 8 s))) (insert (chunk_at s) map))
]

-- Any buffer is read, or it is read past its end.
pub deserialize_map-cases :
    (s : List ℕ)
    → ((chunks : List Chunk) × (deserialize_map s ≡ ok chunks))
      ⊎ (deserialize_map s ≡ err out_of_bounds)
unfolding deserialize_map
deserialize_map-cases s = elim (Bool-cases (ltb (length s) 8)) [
  | inl short ↦ inr (rw short refl)
  | inr long ↦ rw long (read_entries-cases (le_value (take 8 s)) (drop 8 s) [])
]
