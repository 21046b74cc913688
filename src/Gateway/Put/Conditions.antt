-- ===== src/Gateway/Put/Conditions.antt =====
-- What a PUT of src/http_server.cc needs: sizes that fit, memory, and a gateway between two requests.
use zstore.Common.{
  ℕ, ◌%◌, ◌<◌, ◌≤◌, ◌≡◌, refl, ap, ◌∙◌, true, List, [], length, ok, if◌then◌else◌, u32_mod,
  Bool-cases, inl, inr,
}
use zstore.Conf.{Conf}
use zstore.Hash.{KeyHash}
use zstore.Pool.Held.Back.{IsIdle}
use zstore.Store.{DevTuple, MapEntry}
use zstore.Store.Map.{FlatMap}
use zstore.Store.DevHash.{populate_dev_hash, get_dev_tuple, get_dev_tuple_for_random_reads}
use zstore.Store.DevHash.Tuples.{
  IsSpread, get_dev_tuple-IsSpread, get_dev_tuple_for_random_reads-IsSpread,
}
use zstore.Gateway.{Gateway}
use zstore.Gateway.Put.{Surroundings}

-- The sizes fit: an object has at least a pointer's size, fills no more than a chunk and has 32 bits.
pub record IsSized (c : Conf) : Type 0 where
  pub block_pos : 0 < c.block_size
  pub pointer_fits : 8 ≤ c.object_size
  pub one_chunk : c.object_size ≤ c.chunk_size
  pub object_u32 : c.object_size < u32_mod

-- What the memory does for a PUT: spdk_zmalloc gives what it is asked for, malloc has the memory for
-- the object, and a std::vector has at least the size of a pointer.
pub record IsSurroundings (c : Conf) (w : Surroundings) : Type 0 where
  pub zmalloc_length : (n : ℕ) → length (w.zmalloc n) ≡ n
  pub alloc_object : w.alloc c.object_size ≡ true
  pub header_length : (b : List ℕ) → 8 ≤ length (w.header b)

-- A gateway between two requests: no context is in use, the six devices are there, and so is the hash.
pub record IsReady (c : Conf) (F : FlatMap MapEntry) (g : Gateway F) : Type 0 where
  pub idle : IsIdle c g.contexts
  pub six : 6 ≤ length g.devices
  pub hash : g.dev_hash ≡ populate_dev_hash c []

pub tuple-IsSpread :
    (c : Conf) (rand : ℕ → ℕ) (k : KeyHash)
    → (t : DevTuple) × ((if c.experimental
          then ok (get_dev_tuple_for_random_reads c)
          else get_dev_tuple rand (populate_dev_hash c []) k)
        ≡ ok t)
      × IsSpread c t
tuple-IsSpread c rand k = elim (Bool-cases c.experimental) [
  | inl e ↦ (get_dev_tuple_for_random_reads c, rw e refl, get_dev_tuple_for_random_reads-IsSpread c)
  | inr e ↦
      (let (t, f, s) = get_dev_tuple-IsSpread c rand k in
        (
          t,
          ap
                (λ x.
                  if x
                  then ok (get_dev_tuple_for_random_reads c)
                  else get_dev_tuple rand (populate_dev_hash c []) k)
                e
              ∙ f,
          s,
        ))
]

-- The address of the first append, for each replica.
abbrev pub append_lbas : Surroundings → ℕ × ℕ × ℕ
append_lbas w = let lba = w.first.cdw0 % u32_mod in (lba, lba, lba)
