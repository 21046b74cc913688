-- ===== src/Object/Split/Pieces.antt =====
-- The chunks that splitObjectIntoChunks of src/object.cc makes, and what they hold together.
use native.Mathlib.Nat.{
  add_comm, zero-mul, one-mul, le-div_iff_mul-le, suc-mul, zero-add, div-add-mod,
}
use zstore.Common.{
  sym, ◌∙◌, ℕ, zero, suc, ◌+◌, ◌-◌, ◌*◌, ◌/◌, ◌<◌, ◌≤◌, ◌≡◌, refl, ap, List, [], ◌∷◌, ◌++◌, take,
  drop, take-add, drop-drop, length, length-take, length-drop, ==_iff, ==-zero, arith, le→leb, ok,
}
use zstore.Conf.{Conf}
use zstore.Object.{ZstoreObject, block, k_data}
use zstore.Object.Split.{copy_body, make_chunk, split_from, split_object_into_chunks}

-- The bodies of a list of chunks, one after the other.
bodies : List ZstoreObject → List ℕ
bodies [] = []
bodies (o ∷ os) = elim o.body [ block b ↦ b ++ bodies os | _ ↦ bodies os ]

-- Chunks of `n` bytes each, numbered from `i + 1` on, under the object's own sequence number.
abbrev AreChunks : ZstoreObject → ℕ → ℕ → List ZstoreObject → Type 0
AreChunks obj n i [] = Unit
AreChunks obj n i (o ∷ os) =
    (o.entry.entry_type ≡ k_data)
    × (o.entry.seqnum ≡ obj.entry.seqnum)
    × (o.entry.chunk_seqnum ≡ i + 1)
    × (o.key_size ≡ obj.key_size)
    × (o.datalen ≡ n)
    × AreChunks obj n (suc i) os

copy_body-block :
    (b : List ℕ) (offset n : ℕ)
    → offset + n ≤ length b
    → copy_body (block b) offset n ≡ ok (take n (drop offset b))
unfolding copy_body
copy_body-block b offset n h = rw (le→leb (offset + n) (length b) h)

module _ (c : Conf) (raw raw' : List ℕ) (obj : ZstoreObject) (b : List ℕ) where
  pieces : ℕ → ℕ → List ZstoreObject
  pieces i zero = []
  pieces i (suc n) =
      make_chunk raw raw' obj i c.chunk_size (take c.chunk_size (drop (i * c.chunk_size) b))
      ∷ pieces (suc i) n

  length-pieces : (i n : ℕ) → length (pieces i n) ≡ n
  unfolding pieces
  length-pieces i zero = refl
  length-pieces i (suc n) = ap suc (length-pieces (suc i) n)

  pieces-AreChunks : (i n : ℕ) → AreChunks obj c.chunk_size i (pieces i n)
  unfolding pieces make_chunk
  pieces-AreChunks i zero = tt
  pieces-AreChunks i (suc n) = (refl, refl, refl, refl, refl, pieces-AreChunks (suc i) n)

  bodies-pieces :
      (i n : ℕ) → bodies (pieces i n) ≡ take (n * c.chunk_size) (drop (i * c.chunk_size) b)
  unfolding bodies pieces make_chunk
  bodies-pieces i zero = rw zero-mul
  bodies-pieces i (suc n) =
      rw (suc-mul n c.chunk_size, add_comm (n * c.chunk_size) c.chunk_size, take-add)
        (ap (λ t. take c.chunk_size (drop (i * c.chunk_size) b) ++ t)
          (bodies-pieces (suc i) n
            ∙ rw (suc-mul i c.chunk_size)
                (ap (take (n * c.chunk_size)) (sym (drop-drop c.chunk_size (i * c.chunk_size) b)))))

  split_from-pieces :
      obj.body ≡ block b
      → (i n remaining : ℕ) → n * c.chunk_size ≤ remaining
      → (i + n) * c.chunk_size ≤ length b
      → split_from c raw raw' obj i n remaining ≡ ok (pieces i n)
  unfolding split_from pieces
  split_from-pieces e i zero remaining h k = refl
  split_from-pieces e i (suc n) remaining h k = rw (le→leb c.chunk_size remaining (grind arith)) (
      rw
        (
          e,
          copy_body-block b (i * c.chunk_size) c.chunk_size (grind arith),
          split_from-pieces e (suc i) n (remaining - c.chunk_size) (grind arith) (grind arith),
        )
        refl)

split-pieces :
    (c : Conf) (raw raw' : List ℕ) (obj : ZstoreObject) (b : List ℕ)
    → obj.body ≡ block b
    → length b ≡ obj.datalen
    → obj.datalen ≡ c.object_size
    → 0 < c.chunk_size
    → split_object_into_chunks c raw raw' obj
      ≡ ok (pieces c raw raw' obj b 0 (obj.datalen / c.chunk_size))
unfolding split_object_into_chunks
split-pieces c raw raw' obj b e len size pos =
    let floor : obj.datalen / c.chunk_size * c.chunk_size ≤ obj.datalen =
      grind (arith, div-add-mod obj.datalen c.chunk_size) in
    rw ((==_iff obj.datalen c.object_size).1 size, ==-zero c.chunk_size pos)
      (split_from-pieces c raw raw' obj b e 0 (obj.datalen / c.chunk_size) obj.datalen floor
        (rw zero-add (omega (arith, floor))))

-- An object of the configured size is cut into floor(datalen / chunk size) full chunks, numbered from
-- 1 and typed as data; together they hold the front of its body, so a rest that fills no chunk is lost.
split_object_into_chunks_lem :
    (c : Conf) (raw raw' : List ℕ) (obj : ZstoreObject) (b : List ℕ)
    → obj.body ≡ block b
    → length b ≡ obj.datalen
    → obj.datalen ≡ c.object_size
    → 0 < c.chunk_size
    → (chunks : List ZstoreObject) × (split_object_into_chunks c raw raw' obj ≡ ok chunks)
      × (length chunks ≡ obj.datalen / c.chunk_size)
      × AreChunks obj c.chunk_size 0 chunks
      × (bodies chunks ≡ take (obj.datalen / c.chunk_size * c.chunk_size) b)
split_object_into_chunks_lem c raw raw' obj b e len size pos = (
  pieces c raw raw' obj b 0 (obj.datalen / c.chunk_size),
  split-pieces c raw raw' obj b e len size pos,
  length-pieces c raw raw' obj b 0 _,
  pieces-AreChunks c raw raw' obj b 0 _,
  rw (bodies-pieces c raw raw' obj b 0 (obj.datalen / c.chunk_size), zero-mul) refl,
)

pieces-first :
    (c : Conf) (raw raw' : List ℕ) (obj : ZstoreObject) (b : List ℕ) (n : ℕ)
    → 0 < n
    → c.chunk_size ≤ length b
    → (m : ℕ) × (chunk : ZstoreObject) × (chunks : List ZstoreObject) × (bytes : List ℕ) × (n
        ≡ suc m)
      × (pieces c raw raw' obj b 0 n ≡ chunk ∷ chunks)
      × (chunk.body ≡ block bytes)
      × (length bytes ≡ c.chunk_size)
unfolding pieces make_chunk
pieces-first c raw raw' obj b zero pos room = absurd (omega arith)
pieces-first c raw raw' obj b (suc m) pos room =
    let front = drop (0 * c.chunk_size) b in
    (
      m,
      _,
      _,
      take c.chunk_size front,
      refl,
      refl,
      refl,
      omega (
        arith,
        length-take c.chunk_size front,
        length-drop (0 * c.chunk_size) b,
        zero-mul c.chunk_size,
      ),
    )

-- Of an object that fills a chunk the first chunk is full.
pub split_object_into_chunks-first :
    (c : Conf) (raw raw' : List ℕ) (obj : ZstoreObject) (b : List ℕ)
    → obj.body ≡ block b
    → length b ≡ obj.datalen
    → obj.datalen ≡ c.object_size
    → 0 < c.chunk_size
    → c.chunk_size ≤ obj.datalen
    → (m : ℕ) × (chunk : ZstoreObject) × (chunks : List ZstoreObject) × (bytes : List ℕ)
      × (obj.datalen / c.chunk_size ≡ suc m)
      × (split_object_into_chunks c raw raw' obj ≡ ok (chunk ∷ chunks))
      × (chunk.body ≡ block bytes)
      × (length bytes ≡ c.chunk_size)
split_object_into_chunks-first c raw raw' obj b e len size pos big =
    let one : 1 ≤ obj.datalen / c.chunk_size = (le-div_iff_mul-le pos).1 (rw one-mul big) in
    let (m, chunk, chunks, bytes, count, cut, body, full) =
      pieces-first c raw raw' obj b (obj.datalen / c.chunk_size) one (omega (arith, len, big)) in
    (
      m,
      chunk,
      chunks,
      bytes,
      count,
      split-pieces c raw raw' obj b e len size pos ∙ ap (λ x. ok x) cut,
      body,
      full,
    )
