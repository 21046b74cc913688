-- ===== src/Gateway/Put.antt =====
-- PUT and POST of awaitable_on_request (src/http_server.cc). The answers of SPDK are arguments.
pub mod Large
pub mod Written
pub mod Conditions
pub mod Stored
use zstore.Common.{
  ℕ, ◌+◌, ◌*◌, ◌/◌, ◌%◌, ltb, Bool, not, ◌&&◌, Option, List, [], ◌∷◌, replicate, u64_mod, Result,
  ok, assertion, null_pointer, guard, ◌>>=◌, ◌>>◌, if◌then◌else◌,
}
use zstore.Conf.{Conf}
use zstore.Device.{Device}
use zstore.Hash.{KeyHash, compute_sha256}
use zstore.Http.{HttpRequest, HttpResponse, parse_url, handle_request}
use zstore.Object.{ZstoreObject, block, k_data, new_object}
use zstore.Object.Log.{Padding, write_zstore_object_to_buffer}
use zstore.Pool.{Pool, return_request_context, clear_context}
use zstore.Request.{Completion, deref, make_write_request, zone_append}
use zstore.Store.{MapEntry, DevTuple, create_map_entry}
use zstore.Store.Map.{FlatMap, put_object}
use zstore.Store.DevHash.{create_fake_object, get_dev_tuple, get_dev_tuple_for_random_reads}
use zstore.Gateway.Put.Large.{LargeWrite, put_large}
use zstore.Gateway.{Gateway, add_to_broadcast, get_device_by_id, on_slot, is_empty, finish_writes}

-- What the memory and SPDK do in the course of a request: `filled s` is what is read into the context `s`,
-- `header` is the memory of a std::vector object
-- that holds some bytes, `string_object` that of a std::string object that holds a text, `raw` and `raw'` what the arrays of a new object hold.
pub record Surroundings : Type 0 where
  pub zmalloc : ℕ → List ℕ
  pub alloc : ℕ → Bool
  pub rand : ℕ → ℕ
  pub digest : List ℕ → KeyHash
  pub header : List ℕ → List ℕ
  pub string_object : List ℕ → List ℕ
  pub padding : Padding
  pub raw : List ℕ
  pub raw' : List ℕ
  pub fresh : List ℕ
  pub answers : ℕ → Completion
  pub filled : ℕ → List ℕ
  pub first : Completion
  pub second : Completion
  pub third : Completion

-- `req.body().data()[0]`: the text of a std::string ends in a zero.
pub first_byte : List ℕ → ℕ
first_byte [] = 0
first_byte (b ∷ bs) = b

-- The object is made of the first byte of the body; its key hashes are not set.
unfoldable pub put_object_of : Conf → Surroundings → HttpRequest → ZstoreObject
put_object_of c w req =
    let fresh = new_object w.raw w.raw' in
    record fresh {
      entry = record (fresh.entry) { entry_type = k_data; seqnum = 42; chunk_seqnum = 24 };
      datalen = c.object_size;
      body = block (replicate c.object_size (first_byte req.body));
      key_size = 32;
    }

-- The entry of the key: for each replica the device and the address of its append.
unfoldable pub written_entry : DevTuple → Device → Device → Device → ℕ × ℕ × ℕ → MapEntry
written_entry t dev1 dev2 dev3 (lba1, lba2, lba3) =
    create_map_entry
      (record {
        first = record { device_id = t.first.device_id; zone_id = dev1.zone_id };
        second = record { device_id = t.second.device_id; zone_id = dev2.zone_id };
        third = record { device_id = t.third.device_id; zone_id = dev3.zone_id };
      })
      lba1 lba2 lba3 1

-- The parts of the surroundings that the branch for larger objects uses.
abbrev pub large_write : Surroundings → LargeWrite
large_write w = record {
  zmalloc = w.zmalloc;
  raw = w.raw;
  raw' = w.raw';
  fresh = w.fresh;
  answers = w.answers;
}

module _ (F : FlatMap MapEntry) where
  -- The three appends are awaited and their contexts taken back.
  unfoldable pub await_writes : Surroundings → ℕ → ℕ → ℕ → Pool → Result (ℕ × Pool)
  unfolding finish_writes
  await_writes w s1 s2 s3 p = do
    (r1, p4) ← on_slot F s1 (zone_append w.first) p
    (r2, p5) ← on_slot F s2 (zone_append w.second) p4
    (r3, p6) ← on_slot F s3 (zone_append w.third) p5
    guard (r1.success && (r2.success && r3.success)) assertion
    p7 ← finish_writes s1 s2 s3 p6
    ok (r1.append_lba, p7)

  -- The three appends are made, awaited and taken back.
  unfoldable pub write_replicas :
      Conf
      → Surroundings
      → Option Device
      → Option Device
      → Option Device
      → List ℕ
      → Pool
      → Result (ℕ × Pool)
  unfolding await_writes
  write_replicas c w dev1 dev2 dev3 header p = do
    (s1, p1) ← make_write_request c w.zmalloc dev1 header c.object_size p
    (s2, p2) ← make_write_request c w.zmalloc dev2 header c.object_size p1
    (s3, p3) ← make_write_request c w.zmalloc dev3 header c.object_size p2
    await_writes w s1 s2 s3 p3

  -- An object no larger than a chunk is serialised and written. The address that the first append returned
  -- stands for all three.
  unfoldable pub put_small :
      Conf
      → Surroundings
      → Option Device
      → Option Device
      → Option Device
      → ZstoreObject
      → Pool
      → Result ((ℕ × ℕ × ℕ) × Pool)
  unfolding write_replicas
  put_small c w dev1 dev2 dev3 obj p = do
    buffer ← write_zstore_object_to_buffer w.padding obj
    (lba, contexts) ← write_replicas c w dev1 dev2 dev3 (w.header buffer) p
    ok ((lba, lba, lba), contexts)

  -- The object is written to three devices, and its entry is put into the map. Every append counts. In the
  -- branch for larger objects `assert(rc == 0)` wants that the key was there.
  unfoldable pub put_new :
      Conf → Surroundings → KeyHash → HttpRequest → Gateway F → Result (Gateway F)
  unfolding put_small put_object_of written_entry
  put_new c w key_hash req g = do
    tuple ←
        (if c.experimental
          then ok (get_dev_tuple_for_random_reads c)
          else get_dev_tuple w.rand g.dev_hash key_hash)
    let entry = create_fake_object tuple
    let dev1 = get_device_by_id F entry.first.device_id g
    let dev2 = get_device_by_id F entry.second.device_id g
    let dev3 = get_device_by_id F entry.third.device_id g
    guard (w.alloc c.object_size) null_pointer
    (lbas, contexts) ←
        (if ltb c.chunk_size c.object_size
          then put_large F c (large_write w) dev1 dev2 dev3 (put_object_of c w req) g.contexts
          else put_small c w dev1 dev2 dev3 (put_object_of c w req) g.contexts)
    d1 ← deref dev1
    d2 ← deref dev2
    d3 ← deref dev3
    let put = put_object F key_hash (written_entry tuple d1 d2 d3 lbas) g.objects
    guard (not (ltb c.chunk_size c.object_size && put.1)) assertion
    ok (record g {
      contexts = contexts;
      total_counts =
          (g.total_counts
            + (if ltb c.chunk_size c.object_size
                then 3 * (c.object_size / c.chunk_size) + 3
                else 3))
          % u64_mod;
      objects = put.0;
    })

  -- A target with no key is a bucket, which is not stored.
  unfoldable pub put_handler :
      Conf → Surroundings → HttpRequest → Gateway F → Result (HttpResponse × Gateway F)
  unfolding put_new
  put_handler c w req g =
      let object_key = (parse_url req.target).1 in
      let key_hash = compute_sha256 w.digest object_key in
      if is_empty F object_key
      then ok (handle_request req, g)
      else put_new c w key_hash req (add_to_broadcast F key_hash g) >>= λ g'.
          ok (handle_request req, g')
