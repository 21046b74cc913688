-- ===== src/Object/Split.antt =====
-- splitObjectIntoChunks of src/object.cc.
pub mod Pieces
use zstore.Common.{
  ℕ, zero, suc, ◌+◌, ◌-◌, ◌*◌, ◌/◌, List, [], ◌∷◌, take, drop, length, leb, ◌==◌, if◌then◌else◌,
  not, Result, ok, err, assertion, out_of_bounds, null_pointer, exception, guard, ◌>>=◌, ◌>>◌,
}
use zstore.Conf.{Conf}
use zstore.Object.{ZstoreObject, LogEntry, Body, null, dangling, block, new_object, k_data}

-- `memcpy(to, from + offset, n)` into fresh memory.
pub copy_body : Body → ℕ → ℕ → Result (List ℕ)
copy_body null offset n = err null_pointer
copy_body dangling offset n = err out_of_bounds
copy_body (block b) offset n =
    if leb (offset + n) (length b) then ok (take n (drop offset b)) else err out_of_bounds

-- The chunk number `i`, of `n` bytes. The arrays `key_hash` are not set: `raw` and `raw'`.
pub make_chunk : List ℕ → List ℕ → ZstoreObject → ℕ → ℕ → List ℕ → ZstoreObject
make_chunk raw raw' obj i n body = record fresh {
  entry = record (fresh.entry) {
    entry_type = k_data;
    seqnum = obj.entry.seqnum;
    chunk_seqnum = i + 1;
  };
  datalen = n;
  body = block body;
  key_size = obj.key_size;
}
  where
    fresh : ZstoreObject
    fresh = new_object raw raw'

-- The loop for the `n` chunks from number `i` on.
pub split_from : Conf → List ℕ → List ℕ → ZstoreObject → ℕ → ℕ → ℕ → Result (List ZstoreObject)
split_from c raw raw' obj i zero remaining = ok []
split_from c raw raw' obj i (suc n) remaining =
    let full = leb c.chunk_size remaining in
    let len = if full then c.chunk_size else remaining in
    let left = if full then remaining - c.chunk_size else remaining in
    let rest = split_from c raw raw' obj (suc i) n left in
    copy_body obj.body (i * len) len >>= λ b.
    rest >>= λ chunks. ok (make_chunk raw raw' obj i len b ∷ chunks)

-- A chunk size of 0 divides by zero.
pub split_object_into_chunks : Conf → List ℕ → List ℕ → ZstoreObject → Result (List ZstoreObject)
split_object_into_chunks c raw raw' obj = do
  guard (obj.datalen == c.object_size) assertion
  guard (not (c.chunk_size == 0)) exception
  split_from c raw raw' obj 0 (obj.datalen / c.chunk_size) obj.datalen
