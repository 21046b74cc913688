-- ===== src/Gateway/Put/Stored.antt =====
-- What a PUT of src/http_server.cc leaves behind, and what a GET of the same target then answers.
use zstore.Common.{
  ltb, le→ltb_false, ℕ, ◌+◌, ◌%◌, ◌≡◌, refl, ◌∙◌, true, false, some, List, length, length-replicate,
  get_elem?_lt, ok, arith, if◌then◌else◌, u32_mod, u64_mod,
}
use zstore.Conf.{Conf}
use zstore.Device.{Device}
use zstore.Hash.{KeyHash, compute_sha256, key_eq}
use zstore.Hash.Hex.{key_eq_iff}
use zstore.Http.{HttpRequest, parse_url, handle_request}
use zstore.Pool.{Pool, buffer_size_of}
use zstore.Pool.Held.{nothing_held}
use zstore.Object.Log.{write_zstore_object_to_buffer}
use zstore.Object.Log.Roundtrip.{write_zstore_object_to_buffer-block}
use zstore.Store.{DevTuple, MapEntry, create_map_entry}
use zstore.Store.Map.{FlatMap, get_object, put_object}
use zstore.Store.Map.Laws.{get_object-put_object}
use zstore.Store.DevHash.{get_dev_tuple, get_dev_tuple_for_random_reads, create_fake_object}
use zstore.Store.DevHash.Tuples.{IsSpread}
use zstore.Request.{deref}
use zstore.Gateway.{Gateway, get_device_by_id, is_empty, get_handler}
use zstore.Gateway.Lookup.{add_to_broadcast-cases}
use zstore.Gateway.Serving.{get_handler-IsOwned}
use zstore.Gateway.Put.{
  put_small, Surroundings, put_object_of, put_new, write_replicas, put_handler, written_entry,
}
use zstore.Gateway.Put.Written.{write_replicas-IsOwned}
use zstore.Gateway.Put.Conditions.{IsSized, IsSurroundings, IsReady, tuple-IsSpread, append_lbas}

-- A PUT that was taken: three different devices of the gateway hold the object, and its key has their
-- entry.
pub record IsStoredIn (c : Conf) (w : Surroundings) (F : FlatMap MapEntry) (k : KeyHash)
    (g g' : Gateway F) : Type 0 where
  pub tuple : DevTuple
  pub dev1 : Device
  pub dev2 : Device
  pub dev3 : Device
  pub spread : IsSpread c tuple
  pub first : get_device_by_id F tuple.first.device_id g ≡ some dev1
  pub second : get_device_by_id F tuple.second.device_id g ≡ some dev2
  pub third : get_device_by_id F tuple.third.device_id g ≡ some dev3
  pub entry : get_object F k g'.objects ≡ some (written_entry tuple dev1 dev2 dev3 (append_lbas w))
  pub stored :
      get_object F k g'.objects
      ≡ some (record {
        first = record { device_id = tuple.first.device_id; lba = w.first.cdw0 % u32_mod };
        second = record { device_id = tuple.second.device_id; lba = w.first.cdw0 % u32_mod };
        third = record { device_id = tuple.third.device_id; lba = w.first.cdw0 % u32_mod };
        len = 1;
        tombstoned = false;
      })
  pub others :
      (j : KeyHash) → key_eq k j ≡ false → get_object F j g'.objects ≡ get_object F j g.objects
  pub devices_kept : g'.devices ≡ g.devices
  pub ready : IsReady c F g'

narrow : (n : ℕ) → n % u32_mod % u64_mod ≡ n % u32_mod
narrow n = omega arith

put_new-runs :
    (c : Conf) (w : Surroundings) (F : FlatMap MapEntry) (k : KeyHash) (req : HttpRequest)
    (g : Gateway F) (t : DevTuple) (dev1 dev2 dev3 : Device) (bytes : List ℕ) (lba : ℕ) (q : Pool)
    → (if c.experimental
        then ok (get_dev_tuple_for_random_reads c)
        else get_dev_tuple w.rand g.dev_hash k)
      ≡ ok t
    → get_device_by_id F t.first.device_id g ≡ some dev1
    → get_device_by_id F t.second.device_id g ≡ some dev2
    → get_device_by_id F t.third.device_id g ≡ some dev3
    → w.alloc c.object_size ≡ true
    → ltb c.chunk_size c.object_size ≡ false
    → write_zstore_object_to_buffer w.padding (put_object_of c w req) ≡ ok bytes
    → write_replicas F c w (some dev1) (some dev2) (some dev3) (w.header bytes) g.contexts
      ≡ ok (lba, q)
    → put_new F c w k req g
      ≡ ok (record g {
        contexts = q;
        total_counts = (g.total_counts + 3) % u64_mod;
        objects = (put_object F k (written_entry t dev1 dev2 dev3 (lba, lba, lba)) g.objects).0;
      })
unfolding put_new put_small create_fake_object create_map_entry deref
put_new-runs c w F k req g t dev1 dev2 dev3 bytes lba q chosen e1 e2 e3 memory small written done =
    rw chosen (rw (e1, e2, e3) (rw memory (rw small (rw written (rw done refl)))))

put_new-IsStoredIn :
    (c : Conf) (w : Surroundings) (F : FlatMap MapEntry) (k : KeyHash) (req : HttpRequest)
    (g : Gateway F)
    → IsSized c
    → IsSurroundings c w
    → IsReady c F g
    → (g' : Gateway F) × (put_new F c w k req g ≡ ok g') × IsStoredIn c w F k g g'
unfolding get_device_by_id put_object_of written_entry create_map_entry
put_new-IsStoredIn c w F k req g sized around ready =
    let (t, chosen, spread) = tuple-IsSpread c w.rand k in
    let (dev1, e1) = get_elem?_lt g.devices t.first.device_id (omega (arith, spread, ready.six)) in
    let (dev2, e2) = get_elem?_lt g.devices t.second.device_id (omega (arith, spread, ready.six)) in
    let (dev3, e3) = get_elem?_lt g.devices t.third.device_id (omega (arith, spread, ready.six)) in
    let (bytes, written) =
      write_zstore_object_to_buffer-block w.padding (put_object_of c w req) _ refl
        (length-replicate c.object_size _) (omega (arith, sized.object_u32)) in
    let (q, done, idle) =
      write_replicas-IsOwned c F w dev1 dev2 dev3 (w.header bytes) g.contexts nothing_held
        around.zmalloc_length sized.block_pos sized.one_chunk sized.object_u32
        (around.header_length bytes) sized.pointer_fits ready.idle in
    let lba = w.first.cdw0 % u32_mod in
    let g' : Gateway F = record g {
      contexts = q;
      total_counts = (g.total_counts + 3) % u64_mod;
      objects = (put_object F k (written_entry t dev1 dev2 dev3 (lba, lba, lba)) g.objects).0;
    } in
    (
      g',
      put_new-runs c w F k req g t dev1 dev2 dev3 bytes lba q (rw ready.hash chosen) e1 e2 e3
          around.alloc_object (le→ltb_false c.chunk_size c.object_size sized.one_chunk) written
          done,
      record {
        tuple = t;
        dev1 = dev1;
        dev2 = dev2;
        dev3 = dev3;
        spread = spread;
        first = e1;
        second = e2;
        third = e3;
        entry = get_object-put_object F k k _ g.objects ∙ rw ((key_eq_iff k k).1 refl) refl;
        stored =
            get_object-put_object F k k _ g.objects
            ∙ rw ((key_eq_iff k k).1 refl) (rw (narrow w.first.cdw0) refl);
        others = λ j ne. get_object-put_object F k j _ g.objects ∙ rw ne refl;
        devices_kept = refl;
        ready = record { idle = idle; six = ready.six; hash = ready.hash };
      },
    )

pub put_handler-IsStoredIn :
    (c : Conf) (w : Surroundings) (F : FlatMap MapEntry) (req : HttpRequest) (g : Gateway F)
    → IsSized c
    → IsSurroundings c w
    → IsReady c F g
    → is_empty F ((parse_url req.target).1) ≡ false
    → (g' : Gateway F) × (put_handler F c w req g ≡ ok (handle_request req, g'))
      × IsStoredIn c w F (compute_sha256 w.digest ((parse_url req.target).1)) g g'
unfolding put_handler get_device_by_id
put_handler-IsStoredIn c w F req g sized around ready named =
    let k = compute_sha256 w.digest ((parse_url req.target).1) in
    let (b, eq) = add_to_broadcast-cases F k g in
    let g1 : Gateway F = record g { broadcast = b } in
    let (g', done, s) =
      put_new-IsStoredIn c w F k req g1 sized around
        (record { idle = ready.idle; six = ready.six; hash = ready.hash }) in
    (
      g',
      rw named (rw eq (rw done refl)),
      record {
        tuple = s.tuple;
        dev1 = s.dev1;
        dev2 = s.dev2;
        dev3 = s.dev3;
        spread = s.spread;
        first = s.first;
        second = s.second;
        third = s.third;
        entry = s.entry;
        stored = s.stored;
        others = s.others;
        devices_kept = s.devices_kept;
        ready = s.ready;
      },
    )

-- A bucket is not stored.
pub put_handler-bucket :
    (c : Conf) (w : Surroundings) (F : FlatMap MapEntry) (req : HttpRequest) (g : Gateway F)
    → is_empty F ((parse_url req.target).1) ≡ true
    → put_handler F c w req g ≡ ok (handle_request req, g)
unfolding put_handler
put_handler-bucket c w F req g bucket = rw bucket refl

-- The handlers of a PUT and of a GET of the same target, one after the other.
pub get_handler-put_handler :
    (c : Conf) (w : Surroundings) (F : FlatMap MapEntry) (upload req : HttpRequest) (g : Gateway F)
    → IsSized c
    → IsSurroundings c w
    → IsReady c F g
    → is_empty F ((parse_url req.target).1) ≡ false
    → upload.target ≡ req.target
    → (g1 : Gateway F) × (body : List ℕ) × (g2 : Gateway F) × (put_handler F c w upload g
        ≡ ok (handle_request upload, g1))
      × (get_handler F c w.zmalloc w.digest req g1
          ≡ ok (handle_request (record req { body = body }), g2))
      × (length body ≡ buffer_size_of c)
      × (g2.objects ≡ g1.objects)
      × IsReady c F g2
unfolding written_entry create_map_entry get_device_by_id
get_handler-put_handler c w F upload req g sized around ready named same =
    let (g1, put, s) = put_handler-IsStoredIn c w F upload g sized around ready (rw same named) in
    let (body, g2, got, size, idle, objects, devices, hash) =
      get_handler-IsOwned c w.zmalloc w.digest F req g1
        (written_entry s.tuple s.dev1 s.dev2 s.dev3 (append_lbas w)) s.dev1 nothing_held
        around.zmalloc_length sized.block_pos s.ready.idle named (rw⁻¹ same s.entry)
        (rw s.devices_kept s.first) in
    (
      g1,
      body,
      g2,
      put,
      got,
      size,
      objects,
      record { idle = idle; six = rw devices s.ready.six; hash = rw hash s.ready.hash },
    )
